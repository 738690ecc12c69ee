-- ===== src/Display/Color.antt =====
-- `setPlanesColorFormat` of src/display.c: the colour properties of the planes. A string is the list of
-- its bytes. The answers of the driver are functions: the properties of a plane, and a property
-- with its enumerators, which overwrite the front of the buffer that all properties share.
pub mod Listed
mod Tests
use camview_opipc.Base.{
  ℕ, zero, suc, ◌+◌, Bool, true, false, ◌&&◌, Option, none, some, List, [], ◌∷◌, ◌++◌, ◌==◌,
  if◌then◌else◌, length, replicate, ◌>>=◌,
}
use camview_opipc.Display.Planes.{Plane}

-- `struct drm_mode_property_enum`
pub record Enum : Type 0 where
  pub name : List ℕ
  pub value : ℕ

pub record Property : Type 0 where
  pub name : List ℕ
  pub enums : List Enum

-- `strcmp(a, b) == 0`
unfoldable pub strcmp : List ℕ → List ℕ → Bool
strcmp [] [] = true
strcmp (a ∷ as') (b ∷ bs) = if a == b then strcmp as' bs else false
strcmp as' bs = false

unfoldable pub starts_with : (text needle : List ℕ) → Bool
starts_with text [] = true
starts_with [] (n ∷ ns) = false
starts_with (c ∷ cs) (n ∷ ns) = if c == n then starts_with cs ns else false

-- `strstr` finds the needle.
unfoldable pub strstr : (text needle : List ℕ) → Bool
unfolding starts_with
strstr [] needle = starts_with [] needle
strstr (c ∷ cs) needle = if starts_with (c ∷ cs) needle then true else strstr cs needle

abbrev pub color_encoding : List ℕ
color_encoding = 67 ∷ 79 ∷ 76 ∷ 79 ∷ 82 ∷ 95 ∷ 69 ∷ 78 ∷ 67 ∷ 79 ∷ 68 ∷ 73 ∷ 78 ∷ 71 ∷ []

abbrev pub color_range : List ℕ
color_range = 67 ∷ 79 ∷ 76 ∷ 79 ∷ 82 ∷ 95 ∷ 82 ∷ 65 ∷ 78 ∷ 71 ∷ 69 ∷ []

abbrev pub bt_601 : List ℕ
bt_601 = 54 ∷ 48 ∷ 49 ∷ []

abbrev pub full : List ℕ
full = 102 ∷ 117 ∷ 108 ∷ 108 ∷ []

-- The loops over `k`, for so many entries of the buffer.
unfoldable pub find_enum : (needle : List ℕ) → (n : ℕ) → List Enum → Option ℕ
unfolding strstr
find_enum needle zero blob = none
find_enum needle (suc n) [] = none
find_enum needle (suc n) (e ∷ blob) =
    if strstr e.name needle then some e.value else find_enum needle n blob

-- The buffer of the enumerators after the driver has written its own to the front.
unfoldable pub overwrite : List Enum → List Enum → List Enum
overwrite [] blob = blob
overwrite (e ∷ es) [] = []
overwrite (e ∷ es) (b ∷ blob) = e ∷ overwrite es blob

-- An id with the value to set: `prop_ids[i][0]` and `prop_values[i][0]`, or those at 1.
abbrev pub Choice : Type 0
Choice = Option (ℕ × ℕ)

pub record Found : Type 0 where
  pub encoding : Choice
  pub range : Choice
  pub blob : List Enum

unfoldable pub chosen : (id : ℕ) → Choice → Option ℕ → Choice
chosen id before none = before
chosen id before (some value) = some (id, value)

unfoldable pub choose :
    (wanted needle : List ℕ) → (id : ℕ) → (name : List ℕ) → List Enum → Choice → Choice
unfolding strcmp find_enum chosen
choose wanted needle id name blob before =
    if strcmp name wanted then chosen id before (find_enum needle 5 blob) else before

unfoldable pub with_property : (id : ℕ) → Option Property → Found → Found
unfolding choose overwrite
with_property id none f = f
with_property id (some p) f =
    let blob = overwrite p.enums f.blob in
    record {
      encoding = choose color_encoding bt_601 id p.name blob f.encoding;
      range = choose color_range full id p.name blob f.range;
      blob = blob;
    }

unfoldable pub both : Choice → Choice → Bool
both (some e) (some r) = true
both e r = false

-- `DRM_IOCTL_MODE_OBJ_SETPROPERTY` with the plane, the property and the value.
pub data Call : Type 0 where
  set_property : (plane id value : ℕ) → Call

unfoldable pub set_choice : Option Plane → Choice → List Call
set_choice (some p) (some c) = Call.set_property p.plane_id c.0 c.1 ∷ []
set_choice plane choice = []

-- The buffer as `calloc` leaves it.
abbrev pub empty_blob : List Enum
empty_blob = replicate 10 (record { name = []; value = 0 })

module _ (get_properties : ℕ → Option (List ℕ)) (get_property : ℕ → Option Property) where
  -- The loop over the properties of a plane; an id of 0 is passed over.
  unfoldable pub properties_loop : List ℕ → Found → Found
  unfolding with_property both
  properties_loop [] f = f
  properties_loop (id ∷ ids) f =
      let next = with_property id (get_property id) f in
      let rest_skipped = properties_loop ids f in
      let rest = properties_loop ids next in
      if id == 0 then rest_skipped else if both next.encoding next.range then next else rest

  -- One round of the first loop over the planes: what is found for the plane.
  unfoldable pub plane_properties : Option (List ℕ) → List Enum → Found
  unfolding properties_loop
  plane_properties none blob = record { encoding = none; range = none; blob = blob }
  plane_properties (some ids) blob =
      properties_loop ids (record { encoding = none; range = none; blob = blob })

  -- `none` stands for a plane that is not there.
  unfoldable pub plane_found : Option Plane → List Enum → Found
  unfolding plane_properties
  plane_found none blob = record { encoding = none; range = none; blob = blob }
  plane_found (some p) blob = plane_properties (get_properties p.plane_id) blob

  -- The first two planes; with less than two CRTCs, `new_planes` is read out of bounds.
  unfoldable pub set_planes_color_format : List (Option Plane) → Option (List Call)
  unfolding plane_found set_choice
  set_planes_color_format (a ∷ b ∷ planes) =
      let first = plane_found a empty_blob in
      let second = plane_found b first.blob in
      some (
        set_choice a first.encoding
        ++ (set_choice a first.range
            ++ (set_choice b second.encoding ++ set_choice b second.range)))
  set_planes_color_format planes = none

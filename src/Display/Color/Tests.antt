-- ===== src/Display/Color/Tests.antt =====
-- Runs of Display/Color: the properties 8 and 9 of a plane are the encoding and the range.
use camview_opipc.Base.{ℕ, ◌≡◌, refl, Option, none, some, List, [], ◌∷◌, ◌==◌, if◌then◌else◌}
use camview_opipc.Display.Planes.{Plane}
use camview_opipc.Display.Color.{
  Property, Call, color_encoding, color_range, bt_601, full, set_planes_color_format,
}

abbrev video : Plane
video = record { plane_id = 31; possible_crtcs = 1; formats = [] }

abbrev properties : ℕ → Option (List ℕ)
properties plane = if plane == 31 then some (7 ∷ 8 ∷ 0 ∷ 9 ∷ 10 ∷ []) else none

abbrev encoding : Property
encoding = record {
  name = color_encoding;
  enums = record { name = 66 ∷ bt_601; value = 0 } ∷ record { name = 55 ∷ []; value = 1 } ∷ [];
}

abbrev range : Property
range = record {
  name = color_range;
  enums = record { name = 108 ∷ []; value = 0 } ∷ record { name = 32 ∷ full; value = 1 } ∷ [];
}

abbrev property : ℕ → Option Property
property id = if id == 8 then some encoding else if id == 9 then some range else none

runs :
    set_planes_color_format properties property (some video ∷ none ∷ [])
    ≡ some (Call.set_property 31 8 0 ∷ Call.set_property 31 9 1 ∷ [])
unfolding set_planes_color_format
runs = refl

-- A range without enumerators is set to one that the encoding left in the buffer.
abbrev stale : ℕ → Option Property
stale id =
    if id == 8
    then some (record {
      name = color_encoding;
      enums = record { name = bt_601; value = 5 } ∷ record { name = full; value = 6 } ∷ [];
    })
    else if id == 9
    then some (record { name = color_range; enums = [] })
    else none

stale_enum :
    set_planes_color_format properties stale (some video ∷ none ∷ [])
    ≡ some (Call.set_property 31 8 5 ∷ Call.set_property 31 9 6 ∷ [])
unfolding set_planes_color_format
stale_enum = refl

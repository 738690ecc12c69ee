-- ===== src/Control/Tests.antt =====
-- The control file on a camera with two controls, one of them a menu of two items.
mod Persist
use Prim.Native.String.{String}
use text.Mathlib.Text.{◌==◌ as str_eq}
use text.Mathlib.TextEquality.{eq_iff}
use camview_opipc.Base.{
  ℕ, ◌≡◌, refl, sym, Bool, true, false, Option, none, some, List, [], ◌∷◌, ◌++◌, arith, ◌==◌,
  if◌then◌else◌, ◌⊎◌, test_of_ne, ==_refl, ==_iff, inl, inr, map,
}
use camview_opipc.Base.Int.{ℤ, pos}
use camview_opipc.Control.{JsonLib, Driver, CtrlType, QueryCtrl, QueryMenu}
use camview_opipc.Control.Set.{set_control}
use camview_opipc.Control.Params.{Block, Params, Controls, Event, events, drawn, get_drm}
use camview_opipc.Control.Params.Sync.{drawn-synced}
use camview_opipc.Control.Write.{file_json, write_file, field_names}
use camview_opipc.Control.File.{load_file_controls}
use camview_opipc.Control.RoundTrip.Json.{JsonLaws, Fits}
use camview_opipc.Control.RoundTrip.Display.{ControlsFit}
use camview_opipc.Control.RoundTrip.Device.{DistinctNames}
use camview_opipc.Control.RoundTrip.Whole.{
  PrintsBack, readable, nothing_changed, load_file_controls-write_file,
}

-- Values of JSON; an object has the member added last first.
data J : Type 0 where
  int : ℤ → J
  str : String → J
  no_items no_members : J
  item : J → J → J
  member : J → String → J → J

unfoldable member_of : J → String → Option J
member_of (member o k v) k' = if str_eq k k' then some v else member_of o k'
member_of _ k = none

unfoldable items_of : J → List J
items_of (item a x) = items_of a ++ (x ∷ [])
items_of _ = []

abbrev int_of : J → ℤ
int_of (int v) = v
int_of _ = pos 0

abbrev string_of : J → Option String
string_of (str k) = some k
string_of _ = none

-- The library, with what it parses a text to.
abbrev library : Option J → JsonLib
unfolding member_of items_of
library answer = record {
  J = J;
  new_object = no_members;
  new_array = no_items;
  new_int = int;
  new_string = str;
  object_add = member;
  array_add = item;
  object_get = λ o k. elim o [ none ↦ none | some j ↦ member_of j k ];
  items = λ o. elim o [ none ↦ [] | some j ↦ items_of j ];
  get_int = λ o. elim o [ none ↦ pos 0 | some j ↦ int_of j ];
  get_string = λ o. elim o [ none ↦ none | some j ↦ string_of j ];
  print = λ j. 123 ∷ 125 ∷ [];
  parse = λ t. answer;
}

str_eq_refl : (k : String) → str_eq k k ≡ true
str_eq_refl k = (eq_iff k k).1 refl

library-laws : (answer : Option J) → JsonLaws (library answer)
unfolding member_of items_of
library-laws answer = record {
  get_added = λ o v k. rw (str_eq_refl k) refl;
  get_other = λ o v k k' ne. rw ne refl;
  get_new = λ k. refl;
  int = λ v. refl;
  string = λ k. refl;
  no_items = refl;
  added_item = λ a x. refl;
}

-- Control 3 is the brightness and control 5 a menu.
abbrev brightness : QueryCtrl
brightness = record {
  name = "Brightness";
  type = CtrlType.integer;
  maximum = pos 64;
  minimum = pos 0;
  step = pos 1;
  default_value = pos 32;
}

abbrev frequency : QueryCtrl
frequency = record {
  name = "Power Line Frequency";
  type = CtrlType.menu;
  maximum = pos 1;
  minimum = pos 0;
  step = pos 1;
  default_value = pos 1;
}

abbrev off : QueryMenu
off = record { name = "Disabled"; value = pos 0 }

abbrev hertz : QueryMenu
hertz = record { name = "50 Hz"; value = pos 0 }

abbrev query_answer : Bool → Bool → Option QueryCtrl
query_answer true _ = some brightness
query_answer false true = some frequency
query_answer false false = none

query_answer-cases :
    (a b : Bool)
    → (q : QueryCtrl) → query_answer a b ≡ some q
    → ((a ≡ true) × (brightness ≡ q)) ⊎ ((b ≡ true) × (frequency ≡ q))
query_answer-cases true b q e = inl (refl, (cc))
query_answer-cases false true q e = inr (refl, (cc))
query_answer-cases false false q e = absurd (cc)

-- The state is the value of each control.
abbrev camera : Driver
camera = record {
  S = ℕ → ℤ;
  query = λ s i. query_answer (i == 3) (i == 5);
  query_menu = λ s i n.
      if i == 5 then (if n == 0 then some off else if n == 1 then some hertz else none) else none;
  g_ctrl = λ s i. some (s i);
  s_ctrl = λ s i v j. if i == j then v else s j;
  base = 1;
  count = 6;
}

abbrev start : ℕ → ℤ
start i = pos i

camera_control :
    (i : ℕ)
    → (q : QueryCtrl) → camera.query start i ≡ some q
    → ((i ≡ 3) × (brightness ≡ q)) ⊎ ((i ≡ 5) × (frequency ≡ q))
camera_control i q e = elim (query_answer-cases (i == 3) (i == 5) q e) [
  | inl (t, n) ↦ inl ((==_iff i 3).0 t, n)
  | inr (t, n) ↦ inr ((==_iff i 5).0 t, n)
]

camera-DistinctNames : DistinctNames camera start
camera-DistinctNames i j q q' ne e e' = elim (camera_control i q e) [
  | inl (a, b) ↦ elim (camera_control j q' e') [
    | inl (a', b') ↦ absurd (omega arith)
    | inr (a', b') ↦ rw (sym b, sym b') refl
  ]
  | inr (a, b) ↦ elim (camera_control j q' e') [
    | inl (a', b') ↦ rw (sym b, sym b') refl
    | inr (a', b') ↦ absurd (omega arith)
  ]
]

abbrev zeros : List String → List ℤ
zeros ks = map (λ k. pos 0) ks

display : Controls
unfolding field_names
display =
    let p : Params = record {
      fcc = zeros (field_names Block.fcc);
      bws = zeros (field_names Block.bws);
      lti = zeros (field_names Block.lti);
    } in
    record { params = p; kernel = p; display_initialized = false; pending_controls_apply = false }

-- Every `int` fits every field.
abbrev whole : String → ℤ → ℤ
whole k v = v

Fits-zeros : (ks : List String) → Fits whole ks (zeros ks)
Fits-zeros [] = tt
Fits-zeros (k ∷ ks) = (refl, Fits-zeros ks)

display-ControlsFit : ControlsFit whole display
unfolding display field_names get_drm
display-ControlsFit Block.fcc = Fits-zeros (field_names Block.fcc)
display-ControlsFit Block.bws = Fits-zeros (field_names Block.bws)
display-ControlsFit Block.lti = Fits-zeros (field_names Block.lti)

abbrev plain : JsonLib
plain = library none

written : J
unfolding file_json display library
written = file_json plain camera 10 start display

abbrev json : JsonLib
json = library (some written)

set_control_calls : (set_control camera "Brightness" (pos 40) start).calls ≡ (3, pos 40) ∷ []
unfolding set_control
set_control_calls = refl

abbrev resized : List Event
resized = Event.sets Block.bws (pos 1 ∷ []) ∷ Event.draws ∷ Event.sets Block.lti (pos 2 ∷ []) ∷ []

drawn-synced_example :
    (drawn (events resized display)).kernel ≡ (drawn (events resized display)).params
unfolding display
drawn-synced_example = drawn-synced resized display refl

written-PrintsBack : PrintsBack json (file_json json camera 10 start display)
unfolding written file_json library
written-PrintsBack = record {
  one_line = (((omega arith), (omega arith)), (((omega arith), (omega arith)), tt));
  nonempty = omega arith;
  parsed = refl;
}

load_file_controls-write_file_example :
    load_file_controls json whole camera
      (readable (write_file json camera 10 start display))
      start
      display
    ≡ some (nothing_changed start display)
unfolding write_file library
load_file_controls-write_file_example =
    load_file_controls-write_file json (library-laws (some written)) whole camera 10 start display
      written-PrintsBack camera-DistinctNames display-ControlsFit (omega arith)

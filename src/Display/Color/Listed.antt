-- ===== src/Display/Color/Listed.antt =====
-- Which properties `setPlanesColorFormat` of src/display.c sets.
use camview_opipc.Base.{
  ℕ, ◌≡◌, ◌≢◌, refl, Bool, true, false, ◌⊎◌, inl, inr, Option, none, some, List, [], ◌∷◌, ◌==◌,
  if◌then◌else◌, arith, All, All-append, Bool-cases, if_both, ne_of_test,
}
use camview_opipc.Display.Planes.{Plane}
use camview_opipc.Display.Color.{
  Enum, Property, strcmp, find_enum, chosen, choose, overwrite, Choice, Found, with_property, both,
  properties_loop, plane_properties, plane_found, Call, set_choice, empty_blob,
  set_planes_color_format, color_encoding, color_range, bt_601, full,
}

abbrev pub mem : ℕ → List ℕ → Bool
mem i [] = false
mem i (x ∷ xs) = if i == x then true else mem i xs

mem-later : (i x : ℕ) (xs : List ℕ) → mem i xs ≡ true → mem i (x ∷ xs) ≡ true
mem-later i x xs h = if_both (λ b. b ≡ true) (i == x) true (mem i xs) refl h

mem-first : (x : ℕ) (xs : List ℕ) → mem x (x ∷ xs) ≡ true
mem-first x xs = ground arith

chosen-holds :
    (P : Choice → Type 0) (id : ℕ) (before : Choice) (o : Option ℕ)
    → P before
    → ((v : ℕ) → P (some (id, v)))
    → P (chosen id before o)
unfolding chosen
chosen-holds P id before none p q = p
chosen-holds P id before (some v) p q = q v

choose-holds :
    (P : Choice → Type 0) (wanted needle : List ℕ) (id : ℕ) (name : List ℕ) (blob : List Enum)
    (before : Choice)
    → P before
    → (strcmp name wanted ≡ true → (v : ℕ) → P (some (id, v)))
    → P (choose wanted needle id name blob before)
unfolding choose
choose-holds P wanted needle id name blob before p q = elim (Bool-cases (strcmp name wanted)) [
  | inl e ↦ rw e (chosen-holds P id before (find_enum needle 5 blob) p (q e))
  | inr e ↦ rw e p
]

module _ (get_properties : ℕ → Option (List ℕ)) (get_property : ℕ → Option Property) where
  -- The property is one of these, and has the name.
  pub record IsListed (ids wanted : List ℕ) (id : ℕ) : Type 0 where
    pub ne : id ≢ 0
    pub listed : mem id ids ≡ true
    pub property : Property
    pub answer : get_property id ≡ some property
    pub named : strcmp property.name wanted ≡ true

  abbrev ListedChoice : List ℕ → List ℕ → Choice → Type 0
  ListedChoice ids wanted c = (id v : ℕ) → c ≡ some (id, v) → IsListed ids wanted id

  record ListedFound (ids : List ℕ) (f : Found) : Type 0 where
    encoding : ListedChoice ids color_encoding f.encoding
    range : ListedChoice ids color_range f.range

  with_property-ListedFound :
      (ids : List ℕ) (id : ℕ) (o : Option Property) (f : Found)
      → id ≢ 0
      → mem id ids ≡ true
      → get_property id ≡ o
      → ListedFound ids f
      → ListedFound ids (with_property id o f)
  unfolding with_property
  with_property-ListedFound ids id none f ne m e h = h
  with_property-ListedFound ids id (some p) f ne m e h =
      let new : (wanted : List ℕ)
          → strcmp p.name wanted ≡ true
          → (v : ℕ) → ListedChoice ids wanted (some (id, v)) =
        λ wanted named v id' v' same.
          let eq : id' ≡ id = cc in
          rw eq (record { ne = ne; listed = m; property = p; answer = e; named = named }) in
      let blob = overwrite p.enums f.blob in
      record {
        encoding =
            choose-holds (ListedChoice ids color_encoding) color_encoding bt_601 id p.name blob
              f.encoding h.encoding (new color_encoding);
        range =
            choose-holds (ListedChoice ids color_range) color_range full id p.name blob f.range
              h.range (new color_range);
      }

  properties_loop-ListedFound :
      (all ids : List ℕ) (f : Found)
      → ((i : ℕ) → mem i ids ≡ true → mem i all ≡ true)
      → ListedFound all f
      → ListedFound all (properties_loop get_properties get_property ids f)
  unfolding properties_loop
  properties_loop-ListedFound all [] f inside h = h
  properties_loop-ListedFound all (id ∷ ids) f inside h =
      let later = λ (i : ℕ) (e : mem i ids ≡ true). inside i (mem-later i id ids e) in
      elim (Bool-cases (id == 0)) [
        | inl zero_id ↦ rw (zero_id) (properties_loop-ListedFound all ids f later h)
        | inr other ↦
            let ne = ne_of_test id 0 other in
            let next = with_property id (get_property id) f in
            let good =
              with_property-ListedFound all id (get_property id) f ne (inside id (mem-first id ids))
                refl h in
            rw other (
              if_both (ListedFound all) (both next.encoding next.range) next _ good
                (properties_loop-ListedFound all ids next later good))
      ]

  none-ListedFound :
      (ids : List ℕ) (blob : List Enum)
      → ListedFound ids (record { encoding = none; range = none; blob = blob })
  none-ListedFound ids blob = record {
    encoding = λ id v e. absurd (cc);
    range = λ id v e. absurd (cc);
  }

  -- The property that is set is one that the driver lists for the plane.
  abbrev pub ListedCall : Call → Type 0
  ListedCall (Call.set_property plane id value) =
      (ids : List ℕ) × (get_properties plane ≡ some ids)
      × (IsListed ids color_encoding id ⊎ IsListed ids color_range id)

  set_choice-listed :
      (p : Plane) (c : Choice) (ids : List ℕ)
      → get_properties p.plane_id ≡ some ids
      → ((id v : ℕ)
          → c ≡ some (id, v)
          → IsListed ids color_encoding id ⊎ IsListed ids color_range id)
      → All ListedCall (set_choice (some p) c)
  unfolding set_choice
  set_choice-listed p none ids e h = _
  set_choice-listed p (some (id, v)) ids e h = ((ids, e, h id v refl), _)

  abbrev ListedPlane : Option Plane → Found → Type 0
  ListedPlane a f = All ListedCall (set_choice a f.encoding) × All ListedCall (set_choice a f.range)

  plane_properties-listed :
      (p : Plane) (o : Option (List ℕ)) (blob : List Enum)
      → get_properties p.plane_id ≡ o
      → ListedPlane (some p) (plane_properties get_properties get_property o blob)
  unfolding plane_properties set_choice
  plane_properties-listed p none blob e = (_, _)
  plane_properties-listed p (some ids) blob e =
      let found = properties_loop-ListedFound ids ids _ (λ i h. h) (none-ListedFound ids blob) in
      (
        set_choice-listed p _ ids e (λ id v h. inl (found.encoding id v h)),
        set_choice-listed p _ ids e (λ id v h. inr (found.range id v h)),
      )

  plane_found-listed :
      (a : Option Plane) (blob : List Enum)
      → ListedPlane a (plane_found get_properties get_property a blob)
  unfolding plane_found set_choice
  plane_found-listed none blob = (_, _)
  plane_found-listed (some p) blob = plane_properties-listed p (get_properties p.plane_id) blob refl

  -- With two CRTCs, each property that is set on a plane is one that the driver lists for that plane,
  -- not 0, and named COLOR_ENCODING or COLOR_RANGE.
  pub set_planes_color_format-listed :
      (a b : Option Plane) (planes : List (Option Plane))
      → (calls : List Call) × (set_planes_color_format get_properties get_property (a ∷ b ∷ planes)
          ≡ some calls)
        × All ListedCall calls
  unfolding set_planes_color_format
  set_planes_color_format-listed a b planes =
      let first = plane_found-listed a empty_blob in
      let blob = (plane_found get_properties get_property a empty_blob).blob in
      let second = plane_found-listed b blob in
      (
        _,
        refl,
        All-append ListedCall _ _ first.0
            (All-append ListedCall _ _ first.1 (All-append ListedCall _ _ second.0 second.1)),
      )

-- ===== src/Control/RoundTrip/Json.antt =====
-- What the round trip relies on of json-c, and the fields of an object read back.
use Prim.Native.String.{String}
use text.Mathlib.Text.{◌==◌ as str_eq}
use camview_opipc.Base.{
  ◌≡◌, refl, ◌∙◌, ap, Bool, true, false, not, ◌&&◌, none, some, List, [], ◌∷◌, ◌++◌,
}
use camview_opipc.Base.Int.{ℤ}
use camview_opipc.Control.{JsonLib}
use camview_opipc.Control.Params.{Block, Controls, get_drm}
use camview_opipc.Control.Write.{add_fields, field_names, block_json}
use camview_opipc.Control.Read.{read_fields}

-- The documented behaviour of the library.
pub record JsonLaws (l : JsonLib) : Type 0 where
  pub get_added : (o v : l.J) → (k : String) → l.object_get (some (l.object_add o k v)) k ≡ some v
  pub get_other :
      (o v : l.J)
      → (k k' : String) → str_eq k k' ≡ false
      → l.object_get (some (l.object_add o k v)) k' ≡ l.object_get (some o) k'
  pub get_new : (k : String) → l.object_get (some l.new_object) k ≡ none
  pub int : (v : ℤ) → l.get_int (some (l.new_int v)) ≡ v
  pub string : (k : String) → l.get_string (some (l.new_string k)) ≡ some k
  pub no_items : l.items (some l.new_array) ≡ []
  pub added_item : (a x : l.J) → l.items (some (l.array_add a x)) ≡ l.items (some a) ++ (x ∷ [])

abbrev pub is_fresh : String → List String → Bool
is_fresh k [] = true
is_fresh k (k' ∷ ks) = not (str_eq k' k) && is_fresh k ks

abbrev pub are_distinct : List String → Bool
are_distinct [] = true
are_distinct (k ∷ ks) = is_fresh k ks && are_distinct ks

-- The values of the fields are ones that the fields can hold.
abbrev pub Fits : (String → ℤ → ℤ) → List String → List ℤ → Type 0
Fits cast [] [] = Unit
Fits cast (k ∷ ks) (v ∷ vs) = (cast k v ≡ v) × Fits cast ks vs
Fits cast _ _ = ⊥

and_split : (a b : Bool) → (a && b) ≡ true → (a ≡ true) × (b ≡ true)
and_split true b h = (refl, h)
and_split false b h = absurd (cc)

false_of_negated : (a : Bool) → not a ≡ true → a ≡ false
false_of_negated false h = refl
false_of_negated true h = absurd (cc)

module _ (l : JsonLib) (law : JsonLaws l) (cast : String → ℤ → ℤ) where
  open l use {object_get, object_add, new_int, get_int}

  pub get-add_fields :
      (ks : List String)
      → (vs : List ℤ) → (o : l.J) → (k : String) → is_fresh k ks ≡ true
      → object_get (some (add_fields l ks vs o)) k ≡ object_get (some o) k
  unfolding add_fields
  get-add_fields [] vs o k f = refl
  get-add_fields (k' ∷ ks) [] o k f = refl
  get-add_fields (k' ∷ ks) (v ∷ vs) o k f =
      let (n, f') = and_split (not (str_eq k' k)) (is_fresh k ks) f in
      get-add_fields ks vs (object_add o k' (new_int v)) k f'
      ∙ law.get_other o (new_int v) k' k (false_of_negated (str_eq k' k) n)

  pub read_fields-add_fields :
      (ks : List String)
      → (vs : List ℤ) → (o : l.J) → are_distinct ks ≡ true
      → Fits cast ks vs
      → read_fields l cast (some (add_fields l ks vs o)) ks ≡ vs
  unfolding read_fields add_fields
  read_fields-add_fields [] [] o f t = refl
  read_fields-add_fields [] (v ∷ vs) o f t = elim t [ ]
  read_fields-add_fields (k ∷ ks) [] o f t = elim t [ ]
  read_fields-add_fields (k ∷ ks) (v ∷ vs) o f (e, t) =
      let (fresh, f') = and_split (is_fresh k ks) (are_distinct ks) f in
      let o' = object_add o k (new_int v) in
      rw (get-add_fields ks vs o' k fresh, law.get_added o (new_int v) k, law.int v, e)
        (ap (λ ws. v ∷ ws) (read_fields-add_fields ks vs o' f' t))

field_names-distinct : (b : Block) → are_distinct (field_names b) ≡ true
unfolding field_names
field_names-distinct Block.fcc = refl
field_names-distinct Block.bws = refl
field_names-distinct Block.lti = refl

-- Every struct comes back as it was written.
pub read_fields-block_json :
    (l : JsonLib)
    → JsonLaws l
    → (cast : String → ℤ → ℤ) → (b : Block) → (c : Controls)
    → Fits cast (field_names b) (get_drm b c)
    → read_fields l cast (some (block_json l b c)) (field_names b) ≡ get_drm b c
unfolding block_json
read_fields-block_json l law cast b c t =
    read_fields-add_fields l law cast (field_names b) (get_drm b c) l.new_object
      (field_names-distinct b) t

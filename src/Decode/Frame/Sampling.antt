-- ===== src/Decode/Frame/Sampling.antt =====
-- The sampling factors of a frame: which are accepted, and what one of 0 does.
use camview_opipc.Base.{
  ℕ, zero, suc, ◌+◌, ◌-◌, ◌*◌, ◌/◌, ◌^◌, ◌<◌, ◌≡◌, ◌≢◌, refl, Bool, true, false, ◌&&◌, Option, none,
  some, List, [], ◌∷◌, ◌==◌, ==_iff, ne_of_test, arith, Bool-cases, inl, inr, ◌⊎◌,
}
use camview_opipc.Jpeg.{Jpeg}
use camview_opipc.Decode.{Write, writel, fmt, known_format, get_format, set_size, first_comp, u16}
use camview_opipc.Decode.Huffman.{Table}
use camview_opipc.Decode.Frame.{Output, skips, hw_decode_jpeg}

abbrev all_below : ℕ → (ℕ → Bool) → Bool
all_below zero p = true
all_below (suc n) p = p n && all_below n p

and_split : (a b : Bool) → (a && b) ≡ true → (a ≡ true) × (b ≡ true)
and_split true b h = (refl, h)
and_split false b h = absurd (cc)

all_below-at : (n : ℕ) → (p : ℕ → Bool) → all_below n p ≡ true → (i : ℕ) → i < n → p i ≡ true
all_below-at zero p h i lt = absurd (omega arith)
all_below-at (suc n) p h i lt =
    let (now, rest) = and_split (p n) (all_below n p) h in
    elim (Bool-cases (i == n)) [
      | inl e ↦ let same : i ≡ n = (==_iff i n).0 e in rw same now
      | inr e ↦ let ne = ne_of_test i n e in all_below-at n p rest i (omega arith)
    ]

no_rows : all_below 16 (λ h. known_format (fmt h 0) == 0) ≡ true
unfolding known_format fmt
no_rows = refl

no_columns : all_below 16 (λ v. known_format (fmt 0 v) == 0) ≡ true
unfolding known_format fmt
no_columns = refl

-- Where the first component's sampling factors are 4-bit numbers and `get_format` knows them, neither is
-- 0 and `set_size` divides by no 0.
pub get_format-set_size :
    (jpeg : Jpeg)
    → (first_comp jpeg).samp_h < 16
    → (first_comp jpeg).samp_v < 16
    → get_format jpeg ≢ 0
    → (ws : List Write) × (set_size jpeg ≡ some ws)
unfolding get_format set_size
get_format-set_size jpeg hb vb known =
    let h = (first_comp jpeg).samp_h in
    let v = (first_comp jpeg).samp_v in
    elim (Bool-cases (v == 0)) [
      | inl e ↦
          let z : v ≡ 0 = (==_iff v 0).0 e in
          let t = all_below-at 16 (λ k. known_format (fmt k 0) == 0) no_rows h hb in
          absurd (known (rw z ((==_iff (known_format (fmt h 0)) 0).0 t)))
      | inr e ↦ elim (Bool-cases (h == 0)) [
        | inl f ↦
            let z : h ≡ 0 = (==_iff h 0).0 f in
            let t = all_below-at 16 (λ k. known_format (fmt 0 k) == 0) no_columns v vb in
            absurd (known (rw z ((==_iff (known_format (fmt 0 v)) 0).0 t)))
        | inr f ↦
            let hs = u16 ((jpeg.height - 1) / (8 * v)) in
            let ws = u16 ((jpeg.width - 1) / (8 * h)) in
            (writel (hs * 2 ^ 16 + ws) 0x1b8 ∷ [], rw (e, f) refl)
      ]
    ]

-- A frame whose first component has a sampling factor of 0, on outputs that are not skipped, is a
-- division by 0.
pub hw_decode_jpeg-zero_sampling :
    (bytes : List ℕ) (tables : List (Option Table)) (phy_input : ℕ) (jpeg : Jpeg) (o : Output)
    → skips o ≡ false
    → ((first_comp jpeg).samp_v ≡ 0) ⊎ ((first_comp jpeg).samp_h ≡ 0)
    → hw_decode_jpeg bytes tables phy_input jpeg o ≡ none
unfolding hw_decode_jpeg set_size
hw_decode_jpeg-zero_sampling bytes tables phy_input jpeg o s z = elim z [
  | inl v ↦ rw (s, v) refl
  | inr h ↦ elim (Bool-cases ((first_comp jpeg).samp_v == 0)) [
    | inl e ↦ rw (s, e) refl
    | inr e ↦ rw (s, e, h) refl
  ]
]

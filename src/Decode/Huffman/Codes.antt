-- ===== src/Decode/Huffman/Codes.antt =====
-- The first codes that are stored for the lengths make a prefix code.
use camview_opipc.Base.{
  ℕ, zero, suc, ◌+◌, ◌*◌, ◌^◌, ◌≤◌, ◌<◌, ◌≡◌, refl, ◌⊎◌, inl, inr, ltb, Bool-cases, List, [], ◌∷◌,
  get_or_zero, arith, length,
}
use native.Mathlib.Nat.{le_trans, mul-le-mul_right, pow-suc}
use camview_opipc.Decode.Huffman.{last_from, starts, stored_codes}

doubled : (a d : ℕ) → a * 2 ^ suc d ≡ a * 2 * 2 ^ d
doubled a d = rw (pow-suc 2 d) (grind arith)

-- What comes `d` lengths later is at least the sum so far, shifted by as many bits.
starts-grow :
    (sum : ℕ)
    → (ns : List ℕ) → (d : ℕ) → d < length ns
    → sum * 2 ^ d ≤ get_or_zero (starts sum ns) d
unfolding starts
starts-grow sum [] d lt = absurd (omega arith)
starts-grow sum (n ∷ ns) zero lt = omega arith
starts-grow sum (n ∷ ns) (suc d) lt =
    let less : sum * 2 ≤ (sum + n) * 2 = omega arith in
    rw (doubled sum d)
      (le_trans (mul-le-mul_right (2 ^ d) less) (starts-grow ((sum + n) * 2) ns d (omega arith)))

-- The codes of one length, extended by `d + 1` bits in any way, stay below the first code of the
-- length `d + 1` bits longer.
starts-prefix_free :
    (sum : ℕ)
    → (ns : List ℕ) → (j d : ℕ) → j + suc d < length ns
    → (get_or_zero (starts sum ns) j + get_or_zero ns j) * 2 ^ suc d
      ≤ get_or_zero (starts sum ns) (j + suc d)
unfolding starts
starts-prefix_free sum [] j d lt = absurd (omega arith)
starts-prefix_free sum (n ∷ ns) zero d lt =
    let e : 0 + suc d ≡ suc d = omega arith in
    rw (e, doubled (sum + n) d) (starts-grow ((sum + n) * 2) ns d (omega arith))
starts-prefix_free sum (n ∷ ns) (suc j) d lt =
    let e : suc j + suc d ≡ suc (j + suc d) = omega arith in
    rw e (starts-prefix_free ((sum + n) * 2) ns j d (omega arith))

pow-pos : (k : ℕ) → 1 ≤ 2 ^ k
pow-pos zero = omega arith
pow-pos (suc k) = rw (pow-suc 2 k) (omega (arith, pow-pos k))

-- What is stored for one length.
abbrev pub stored : ℕ → List ℕ → ℕ → ℕ
stored last cs j = get_or_zero (stored_codes last 0 cs) j

module _ (last : ℕ) where
  stored_codes-low :
      (i : ℕ) (cs : List ℕ) (j : ℕ)
      → i + j ≤ last
      → get_or_zero cs j < 65536
      → get_or_zero (stored_codes last i cs) j ≡ get_or_zero cs j
  unfolding stored_codes
  stored_codes-low i [] j le small = refl
  stored_codes-low i (c ∷ cs) zero le small = ground arith
  stored_codes-low i (c ∷ cs) (suc j) le small = stored_codes-low (i + 1) cs j (omega arith) small

  stored_codes-high :
      (i : ℕ) (cs : List ℕ) (j : ℕ)
      → last < i + j
      → j < length cs
      → get_or_zero (stored_codes last i cs) j ≡ 0xffff
  unfolding stored_codes
  stored_codes-high i [] j gt lt = absurd (omega arith)
  stored_codes-high i (c ∷ cs) zero gt lt = ground arith
  stored_codes-high i (c ∷ cs) (suc j) gt lt =
      stored_codes-high (i + 1) cs j (omega arith) (omega arith)

length-starts : (sum : ℕ) (ns : List ℕ) → length (starts sum ns) ≡ length ns
unfolding starts
length-starts sum [] = refl
length-starts sum (n ∷ ns) = omega (arith, length-starts ((sum + n) * 2) ns)

below : (a n b p : ℕ) → (a + n) * p ≤ b → 1 ≤ p → a ≤ b
below a n b p h one =
    le_trans (omega arith) (le_trans (mul-le-mul_right (a + n) one) (omega (arith, h)))

-- What is stored of a table whose last length with a code is `last`, at a length up to which the
-- first codes have 16 bits: behind `last` it is 0xffff, and up to it, the codes of a length `d + 1`
-- bits shorter, extended by `d + 1` bits in any way, stay below the first code, so that none of them
-- is the start of a code of this length.
pub stored_codes-prefix_free :
    (ns : List ℕ) (j d : ℕ)
    → j + suc d < length ns
    → get_or_zero (starts 0 ns) (j + suc d) < 65536
    → let last = last_from 0 0 ns in
      ((last < j + suc d) × (stored last (starts 0 ns) (j + suc d) ≡ 0xffff))
      ⊎ ((stored last (starts 0 ns) j + get_or_zero ns j) * 2 ^ suc d
          ≤ stored last (starts 0 ns) (j + suc d))
stored_codes-prefix_free ns j d lt small =
    let last = last_from 0 0 ns in
    let cs = starts 0 ns in
    let free = starts-prefix_free 0 ns j d lt in
    let less = below (get_or_zero cs j) (get_or_zero ns j) _ (2 ^ suc d) free (pow-pos (suc d)) in
    elim (Bool-cases (ltb last (j + suc d))) [
      | inl gt ↦
          let behind : last < j + suc d = ground arith in
          inl (
            behind,
            stored_codes-high last 0 cs (j + suc d) (omega arith)
                (omega (arith, length-starts 0 ns)),
          )
      | inr le ↦
          let within : j + suc d ≤ last = ground arith in
          inr (
            rw
              (
                stored_codes-low last 0 cs j (omega arith) (omega (arith, less)),
                stored_codes-low last 0 cs (j + suc d) (omega (arith, within)) small,
              )
              free)
    ]

-- ===== src/Display/Exchange/Count.antt =====
-- How often a buffer number stands in an array, and what `put` and `forward` do to it.
use camview_opipc.Base.{
  ℕ, ◌+◌, ◌≤◌, ◌≡◌, ◌≢◌, inl, inr, true, false, arith, ◌==◌, ==_iff, if◌then◌else◌, Bool-cases,
}
use camview_opipc.Display.Exchange.{Buffers, forward, put}

-- 1 if the slot `x` holds the buffer `b`, else 0
abbrev pub holds : ℕ → ℕ → ℕ
holds b x = if x == b then 1 else 0

abbrev pub count : ℕ → Buffers → ℕ
count b a = holds b a.b0 + holds b a.b1 + holds b a.b2

-- The numbers come first, and are at most 3.
pub record IsPacked (a : Buffers) : Type 0 where
  pub second : a.b0 ≡ 0 → a.b1 ≡ 0
  pub third : a.b1 ≡ 0 → a.b2 ≡ 0
  pub small : (a.b0 ≤ 3) × (a.b1 ≤ 3) × (a.b2 ≤ 3)

pub count-forward : (a : Buffers) (b : ℕ) → b ≢ 0 → count b (forward a) + holds b a.b0 ≡ count b a
unfolding forward
count-forward a b h = ground arith

-- A number put into an array with a free slot is added, and nothing is lost.
pub count-put :
    (a : Buffers) (x b : ℕ)
    → b ≢ 0
    → a.b2 ≡ 0
    → IsPacked a
    → count b (put a x) ≡ count b a + holds b x
unfolding put
count-put a x b h free p = ground arith

pub forward-IsPacked : (a : Buffers) → IsPacked a → IsPacked (forward a)
unfolding forward
forward-IsPacked a p = ground arith

pub put-IsPacked : (a : Buffers) (x : ℕ) → x ≤ 3 → IsPacked a → IsPacked (put a x)
unfolding put
put-IsPacked a x h p = ground arith

pub put-ne-zero : (a : Buffers) (x : ℕ) → x ≢ 0 → (put a x).b0 ≢ 0
unfolding put
put-ne-zero a x h = ground arith

-- A full array holds three of the buffers 1, 2 and 3.
pub count_full : (a : Buffers) → IsPacked a → a.b2 ≢ 0 → count 1 a + count 2 a + count 3 a ≡ 3
count_full a p h = ground arith

pub count_empty : (a : Buffers) (b : ℕ) → b ≢ 0 → IsPacked a → a.b0 ≡ 0 → count b a ≡ 0
count_empty a b h p e = ground arith

holds_one : (x : ℕ) → x ≢ 0 → x ≤ 3 → holds 1 x + holds 2 x + holds 3 x ≡ 1
holds_one x h small = ground arith

-- An array has room for a buffer that it does not hold.
pub not_full :
    (a : Buffers) (x : ℕ)
    → IsPacked a
    → x ≢ 0
    → x ≤ 3
    → (count 1 a + holds 1 x ≤ 1) × (count 2 a + holds 2 x ≤ 1) × (count 3 a + holds 3 x ≤ 1)
    → a.b2 ≡ 0
not_full a x p h small once = elim (Bool-cases (a.b2 == 0)) [
  | inl free ↦ (==_iff a.b2 0).0 free
  | inr full ↦ absurd (
      omega (
        arith,
        count_full a p (λ e. bool_ne ((==_iff a.b2 0).1 e) full),
        holds_one x h small,
        once,
      ))
]
  where
    bool_ne : (a.b2 == 0) ≡ true → (a.b2 == 0) ≡ false → ⊥
    bool_ne e f = cc

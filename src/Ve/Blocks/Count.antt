-- ===== src/Ve/Blocks/Count.antt =====
-- The blocks after `ve_malloc` and `ve_free` of src/ve.c.
use camview_opipc.Base.{
  ℕ, zero, suc, ◌+◌, ◌≤◌, ◌≡◌, ◌≢◌, refl, inl, inr, ◌&&◌, some, List, [], ◌∷◌, ◌==◌, if◌then◌else◌,
  arith, get_elem?, Bool-cases,
}
use camview_opipc.Ve.{Chunk, is_free, remainder, place, unmap, merge_from, merge}
use camview_opipc.Ve.RoundTrip.{IsFresh}
use camview_opipc.Ve.Blocks.{count, without, count-without}

-- How many chunks are at the address.
unfoldable pub at_count : ℕ → List Chunk → ℕ
at_count ptr [] = 0
at_count ptr (c ∷ cs) = (if c.virt_addr == ptr then 1 else 0) + at_count ptr cs

-- No two blocks are at the same address.
abbrev pub AtMostOne : List Chunk → Type 0
AtMostOne cs = (ptr : ℕ) → ptr ≢ 0 → at_count ptr cs ≤ 1

module _ (b : Chunk) where
  count-remainder :
      (size : ℕ) (c : Chunk) (cs : List Chunk) → count b (remainder size c cs) ≡ count b cs
  unfolding count
  count-remainder size c cs = ground arith

  -- A free chunk that is taken adds its block.
  pub count-place :
      (k size addr : ℕ) (cs : List Chunk) (c : Chunk)
      → get_elem? cs k ≡ some c
      → c.virt_addr ≡ 0
      → addr ≢ 0
      → count b (place k size addr cs) ≡ count b (record c { size = size; virt_addr = addr } ∷ cs)
  unfolding count place
  count-place k size addr [] c e free used = absurd (ground arith)
  count-place zero size addr (d ∷ cs) c e free used = ground (arith, count-remainder size d cs)
  count-place (suc k) size addr (d ∷ cs) c e free used =
      ground (arith, count-place k size addr cs c e free used)

  count-merge_from : (c : Chunk) (cs : List Chunk) → count b (merge_from c cs) ≡ count b (c ∷ cs)
  unfolding merge_from count
  count-merge_from c [] = refl
  count-merge_from c (n ∷ ns) = elim (Bool-cases (is_free c && is_free n)) [
    | inl both ↦
        rw (both, merge_from)
          (ground (arith, count-merge_from (record c { size = c.size + n.size }) ns))
    | inr apart ↦ rw (apart, merge_from) (omega (arith, count-merge_from n ns))
  ]

  pub count-merge : (cs : List Chunk) → count b (merge cs) ≡ count b cs
  unfolding merge
  count-merge [] = refl
  count-merge (c ∷ cs) = count-merge_from c cs

  count-zero : (cs : List Chunk) → at_count b.virt_addr cs ≡ 0 → count b cs ≡ 0
  unfolding count at_count
  count-zero [] e = refl
  count-zero (c ∷ cs) e = ground (arith, count-zero cs)

  pub count-unmap :
      (ptr : ℕ) (cs : List Chunk)
      → ptr ≢ 0
      → at_count ptr cs ≤ 1
      → count b (unmap ptr cs) ≡ count b (without ptr cs)
  unfolding count at_count unmap without
  count-unmap ptr [] used one = refl
  count-unmap ptr (c ∷ cs) used one =
      ground (arith, count-unmap ptr cs used, count-zero cs, count-without ptr b cs)

at_count-remainder :
    (ptr size : ℕ) (c : Chunk) (cs : List Chunk)
    → ptr ≢ 0
    → at_count ptr (remainder size c cs) ≡ at_count ptr cs
unfolding at_count
at_count-remainder ptr size c cs used = ground arith

pub at_count-place :
    (ptr k size addr : ℕ) (cs : List Chunk) (c : Chunk)
    → ptr ≢ 0
    → get_elem? cs k ≡ some c
    → c.virt_addr ≡ 0
    → at_count ptr (place k size addr cs) ≡ (if addr == ptr then 1 else 0) + at_count ptr cs
unfolding at_count place
at_count-place ptr k size addr [] c used e free = absurd (ground arith)
at_count-place ptr zero size addr (d ∷ cs) c used e free =
    ground (arith, at_count-remainder ptr size d cs)
at_count-place ptr (suc k) size addr (d ∷ cs) c used e free =
    ground (arith, at_count-place ptr k size addr cs c used e free)

at_count-merge_from :
    (ptr : ℕ) (c : Chunk) (cs : List Chunk)
    → ptr ≢ 0
    → at_count ptr (merge_from c cs) ≡ at_count ptr (c ∷ cs)
unfolding merge_from at_count
at_count-merge_from ptr c [] used = refl
at_count-merge_from ptr c (n ∷ ns) used = elim (Bool-cases (is_free c && is_free n)) [
  | inl both ↦
      rw (both, merge_from)
        (ground (arith, at_count-merge_from ptr (record c { size = c.size + n.size }) ns used))
  | inr apart ↦ rw (apart, merge_from) (omega (arith, at_count-merge_from ptr n ns used))
]

pub at_count-merge :
    (ptr : ℕ) (cs : List Chunk) → ptr ≢ 0 → at_count ptr (merge cs) ≡ at_count ptr cs
unfolding merge
at_count-merge ptr [] used = refl
at_count-merge ptr (c ∷ cs) used = at_count-merge_from ptr c cs used

pub at_count-unmap :
    (ptr p : ℕ) (cs : List Chunk) → ptr ≢ 0 → at_count ptr (unmap p cs) ≤ at_count ptr cs
unfolding at_count unmap
at_count-unmap ptr p [] used = ground arith
at_count-unmap ptr p (c ∷ cs) used = ground (arith, at_count-unmap ptr p cs used)

pub at_count-fresh : (ptr : ℕ) (cs : List Chunk) → IsFresh ptr cs → at_count ptr cs ≡ 0
unfolding at_count
at_count-fresh ptr [] h = refl
at_count-fresh ptr (c ∷ cs) h = ground (arith, at_count-fresh ptr cs h.1)

pub count-free : (b : Chunk) (cs : List Chunk) → b.virt_addr ≡ 0 → count b cs ≡ 0
unfolding count
count-free b [] e = refl
count-free b (c ∷ cs) e = ground (arith, count-free b cs e)

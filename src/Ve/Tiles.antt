-- ===== src/Ve/Tiles.antt =====
-- The chunks lie side by side in the reserved memory.
use camview_opipc.Base.{
  ℕ, zero, suc, ◌+◌, ◌-◌, ◌^◌, ◌≤◌, ◌≡◌, inl, inr, Bool, ◌&&◌, some, List, [], ◌∷◌, arith,
  get_elem?, ltb, Bool-cases,
}
use camview_opipc.Ve.{
  Chunk, Ve, Mmap, is_free, remainder, place, ve_malloc, unmap, merge_from, merge, ve_free,
  page_align,
}
use camview_opipc.Ve.Fit.{best_chunk-BestFit, mapped, ve_malloc_cases}

-- From `p` on the chunks follow one another without a gap and end at `q`.
abbrev pub Tiles : ℕ → List Chunk → ℕ → Type 0
Tiles p [] q = p ≡ q
Tiles p (c ∷ cs) q = (c.phys_addr ≡ p) × Tiles (p + c.size) cs q

pub Tiles-le : (p q : ℕ) (cs : List Chunk) → Tiles p cs q → p ≤ q
Tiles-le p q [] t = omega arith
Tiles-le p q (c ∷ cs) t = omega (arith, Tiles-le (p + c.size) q cs t.1)

Tiles-at : {p p' : ℕ} (cs : List Chunk) (q : ℕ) → p ≡ p' → Tiles p cs q → Tiles p' cs q
Tiles-at cs q e t = rw (← e) t

remainder-Tiles :
    (size p q : ℕ) (c : Chunk) (cs : List Chunk)
    → q ≤ 2 ^ 32
    → size ≤ c.size
    → Tiles p (c ∷ cs) q
    → Tiles (p + size) (remainder size c cs) q
remainder-Tiles size p q c cs b h t = elim (Bool-cases (ltb 0 (c.size - size))) [
  | inl more ↦
      rw more (ground (arith, Tiles-le (p + c.size) q cs t.1), Tiles-at cs q (ground arith) t.1)
  | inr all ↦ rw all (Tiles-at cs q (ground arith) t.1)
]

place-Tiles :
    (k size addr p q : ℕ) (cs : List Chunk) (c : Chunk)
    → q ≤ 2 ^ 32
    → get_elem? cs k ≡ some c
    → size ≤ c.size
    → Tiles p cs q
    → Tiles p (place k size addr cs) q
unfolding place
place-Tiles k size addr p q [] c b e h t = absurd (ground arith)
place-Tiles zero size addr p q (d ∷ cs) c b e h t =
    (t.0, remainder-Tiles size p q d cs b (ground arith) t)
place-Tiles (suc k) size addr p q (d ∷ cs) c b e h t =
    (t.0, place-Tiles k size addr (p + d.size) q cs c b e h t.1)

unmap-Tiles : (ptr p q : ℕ) (cs : List Chunk) → Tiles p cs q → Tiles p (unmap ptr cs) q
unfolding unmap
unmap-Tiles ptr p q [] t = t
unmap-Tiles ptr p q (c ∷ cs) t = ground (arith, unmap-Tiles ptr (p + c.size) q cs)

merge_from-Tiles :
    (p q : ℕ) (c : Chunk) (cs : List Chunk) → Tiles p (c ∷ cs) q → Tiles p (merge_from c cs) q
unfolding merge_from
merge_from-Tiles p q c [] t = t
merge_from-Tiles p q c (n ∷ ns) t = elim (Bool-cases (is_free c && is_free n)) [
  | inl both ↦
      rw (both, merge_from)
        (merge_from-Tiles p q (record c { size = c.size + n.size }) ns
          (t.0, Tiles-at ns q (omega arith) t.1.1))
  | inr stop ↦ rw (stop, merge_from) (t.0, merge_from-Tiles (p + c.size) q n ns t.1)
]

merge-Tiles : (p q : ℕ) (cs : List Chunk) → Tiles p cs q → Tiles p (merge cs) q
unfolding merge
merge-Tiles p q [] t = t
merge-Tiles p q (c ∷ cs) t = merge_from-Tiles p q c cs t

-- If the chunks cover the memory from `p` to `q` without gap or overlap, within 32 bits, they do so
-- after `ve_malloc`, whether it succeeds or fails and whatever `mmap` returns.
pub ve_malloc-Tiles :
    (mmap : Mmap) (ve : Ve) (size : ℕ) (write : Bool) (p q : ℕ)
    → q ≤ 2 ^ 32
    → Tiles p ve.chunks q
    → Tiles p (ve_malloc mmap ve size write).1.chunks q
ve_malloc-Tiles mmap ve size write p q b t =
    ve_malloc_cases (λ r. Tiles p r.1.chunks q) mmap ve size write t
      λ _ k c _ e _.
        let fit = best_chunk-BestFit (page_align size) ve.chunks k c e in
        place-Tiles k (page_align size) (mapped mmap size write c) p q ve.chunks c b fit.found
          fit.fits.1 t

-- If the chunks cover the memory from `p` to `q` without gap or overlap, they do so after `ve_free`,
-- whatever the pointer.
pub ve_free-Tiles :
    (ve : Ve) (ptr p q : ℕ) → Tiles p ve.chunks q → Tiles p (ve_free ve ptr).chunks q
unfolding ve_free
ve_free-Tiles ve ptr p q t =
    ground (arith, unmap-Tiles ptr p q ve.chunks t, merge-Tiles p q (unmap ptr ve.chunks))

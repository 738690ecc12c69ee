-- ===== src/Ve/RoundTrip.antt =====
-- `ve_free` undoes `ve_malloc`: the free memory is never left in pieces.
use camview_opipc.Base.{
  ℕ, zero, suc, ◌+◌, ◌-◌, ◌≤◌, ◌≡◌, ◌≢◌, refl, ap, inl, inr, Bool, true, false, ◌&&◌, some, List,
  [], ◌∷◌, arith, get_elem?, ltb, Bool-cases, All,
}
use camview_opipc.Ve.{
  Chunk, Ve, Mmap, is_free, remainder, page_align, place, ve_malloc, unmap, merge_from, merge,
  ve_free,
}
use camview_opipc.Ve.Fit.{best_chunk-BestFit, mapped, ve_malloc_cases}

-- No two free chunks stand side by side.
abbrev pub Coalesced : List Chunk → Type 0
Coalesced [] = Unit
Coalesced (c ∷ []) = Unit
Coalesced (c ∷ n ∷ ns) = ((is_free c && is_free n) ≡ false) × Coalesced (n ∷ ns)

abbrev pub IsFresh : ℕ → List Chunk → Type 0
IsFresh addr = All (λ c. c.virt_addr ≢ addr)

Coalesced-tail : (c : Chunk) (cs : List Chunk) → Coalesced (c ∷ cs) → Coalesced cs
Coalesced-tail c [] h = tt
Coalesced-tail c (n ∷ ns) h = h.1

merge_from-Coalesced :
    (d c : Chunk) (cs : List Chunk)
    → (is_free d && is_free c) ≡ false
    → Coalesced (d ∷ merge_from c cs)
unfolding merge_from
merge_from-Coalesced d c [] h = (h, tt)
merge_from-Coalesced d c (n ∷ ns) h = elim (Bool-cases (is_free c && is_free n)) [
  | inl both ↦
      rw (both, merge_from) (merge_from-Coalesced d (record c { size = c.size + n.size }) ns h)
  | inr apart ↦ rw (apart, merge_from) (h, merge_from-Coalesced c n ns apart)
]

-- After `ve_free` of any pointer but NULL no two free chunks stand side by side.
pub merge-Coalesced : (cs : List Chunk) → Coalesced (merge cs)
unfolding merge
merge-Coalesced [] = tt
merge-Coalesced (c ∷ cs) =
    Coalesced-tail used (merge_from c cs) (merge_from-Coalesced used c cs refl)
  where
    used : Chunk
    used = record { phys_addr = 0; size = 0; virt_addr = 1 }

merge_from-eq : (c : Chunk) (cs : List Chunk) → Coalesced (c ∷ cs) → merge_from c cs ≡ c ∷ cs
unfolding merge_from
merge_from-eq c [] h = refl
merge_from-eq c (n ∷ ns) h = rw (h.0, merge_from) (ap (◌∷◌ c) (merge_from-eq n ns h.1))

unmap-place :
    (k size addr : ℕ) (cs : List Chunk) (c : Chunk)
    → get_elem? cs k ≡ some c
    → IsFresh addr cs
    → unmap addr (place k size addr cs) ≡ place k size 0 cs
unfolding unmap place
unmap-place k size addr [] c e h = absurd (ground arith)
unmap-place zero size addr (d ∷ cs) c e h = ground arith
unmap-place (suc k) size addr (d ∷ cs) c e h = ground (arith, unmap-place k size addr cs c e h.1)

merge_from-remainder :
    (size : ℕ) (c : Chunk) (cs : List Chunk)
    → c.virt_addr ≡ 0
    → size ≤ c.size
    → Coalesced (c ∷ cs)
    → merge_from (record c { size = size; virt_addr = 0 }) (remainder size c cs) ≡ c ∷ cs
unfolding merge_from
merge_from-remainder size c cs free fits h = elim (Bool-cases (ltb 0 (c.size - size))) [
  | inl more ↦ rw (more, merge_from, whole) (merge_from-eq c cs h)
  | inr all ↦ rw (all, same all) (merge_from-eq c cs h)
]
  where
    whole : ◌≡◌ {A = Chunk} (record c { size = size + (c.size - size); virt_addr = 0 }) c
    whole = ground arith

    same :
        ltb 0 (c.size - size) ≡ false → ◌≡◌ {A = Chunk} (record c { size = size; virt_addr = 0 }) c
    same all = ground arith

merge_from-place :
    (k size : ℕ) (d : Chunk) (cs : List Chunk) (c : Chunk)
    → get_elem? cs k ≡ some c
    → c.virt_addr ≡ 0
    → size ≤ c.size
    → Coalesced (d ∷ cs)
    → merge_from d (place k size 0 cs) ≡ d ∷ cs
unfolding merge_from place
merge_from-place k size d [] c e free fits h = absurd (ground arith)
merge_from-place zero size d (b ∷ cs) c e free fits h =
    let lone : (is_free d && true) ≡ false = ground arith in
    rw (lone, merge_from)
      (ap (◌∷◌ d) (merge_from-remainder size b cs (ground arith) (ground arith) h.1))
merge_from-place (suc k) size d (b ∷ cs) c e free fits h =
    rw (h.0, merge_from) (ap (◌∷◌ d) (merge_from-place k size b cs c e free fits h.1))

merge-place :
    (k size : ℕ) (cs : List Chunk) (c : Chunk)
    → get_elem? cs k ≡ some c
    → c.virt_addr ≡ 0
    → size ≤ c.size
    → Coalesced cs
    → merge (place k size 0 cs) ≡ cs
unfolding merge place
merge-place k size [] c e free fits h = absurd (ground arith)
merge-place zero size (b ∷ cs) c e free fits h =
    merge_from-remainder size b cs (ground arith) (ground arith) h
merge-place (suc k) size (b ∷ cs) c e free fits h = merge_from-place k size b cs c e free fits h

-- Whatever `ve_malloc` returned, freeing it restores the memory as it was, chunk for chunk, if no two
-- free chunks stood side by side and an address other than 0 that it returned was that of no chunk.
pub ve_free-ve_malloc :
    (mmap : Mmap) (ve : Ve) (size : ℕ) (write : Bool)
    → Coalesced ve.chunks
    → ((ve_malloc mmap ve size write).0 ≢ 0 → IsFresh (ve_malloc mmap ve size write).0 ve.chunks)
    → let (addr, ve') = ve_malloc mmap ve size write in ve_free ve' addr ≡ ve
unfolding ve_free
ve_free-ve_malloc mmap ve size write h =
    ve_malloc_cases (λ r. (r.0 ≢ 0 → IsFresh r.0 ve.chunks) → ve_free r.1 r.0 ≡ ve) mmap ve size
      write (λ _. ground arith)
      λ f k c opened e good fresh.
        let fit = best_chunk-BestFit (page_align size) ve.chunks k c e in
        ground (
          arith,
          unmap-place k (page_align size) (mapped mmap size write c) ve.chunks c fit.found
              (fresh good),
          merge-place k (page_align size) ve.chunks c fit.found fit.fits.0 fit.fits.1 h,
        )

place-Coalesced :
    (k size addr : ℕ) (cs : List Chunk) (c : Chunk)
    → get_elem? cs k ≡ some c
    → c.virt_addr ≡ 0
    → addr ≢ 0
    → Coalesced cs
    → Coalesced (place k size addr cs)
unfolding place
place-Coalesced k size addr [] c e free used h = tt
place-Coalesced zero size addr (b ∷ []) c e free used h = ground arith
place-Coalesced zero size addr (b ∷ n ∷ ns) c e free used h = ground arith
place-Coalesced (suc k) size addr (b ∷ []) c e free used h = tt
place-Coalesced (suc zero) size addr (b ∷ n ∷ ns) c e free used h =
    (ground arith, place-Coalesced zero size addr (n ∷ ns) c e free used h.1)
place-Coalesced (suc (suc k)) size addr (b ∷ n ∷ ns) c e free used h =
    (h.0, place-Coalesced (suc k) size addr (n ∷ ns) c e free used h.1)

-- If no two free chunks stand side by side, none do after `ve_malloc`.
pub ve_malloc-Coalesced :
    (mmap : Mmap) (ve : Ve) (size : ℕ) (write : Bool)
    → Coalesced ve.chunks
    → Coalesced (ve_malloc mmap ve size write).1.chunks
ve_malloc-Coalesced mmap ve size write h =
    ve_malloc_cases (λ r. Coalesced r.1.chunks) mmap ve size write h
      λ f k c opened e good.
        let fit = best_chunk-BestFit (page_align size) ve.chunks k c e in
        place-Coalesced k (page_align size) (mapped mmap size write c) ve.chunks c fit.found
          fit.fits.0 good h

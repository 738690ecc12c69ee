-- ===== src/Ve/Fit.antt =====
-- Which chunk `ve_malloc` takes.
use camview_opipc.Base.{
  ℕ, zero, suc, ◌+◌, ◌≤◌, ◌%◌, ◌^◌, ◌≡◌, ◌≢◌, sym, ◌∙◌, ◌⊎◌, inl, inr, Bool, ◌&&◌, ◌||◌, Option,
  none, some, List, [], ◌∷◌, arith, get_elem?, leb, ◌==◌, Bool-cases, Option-cases,
}
use camview_opipc.Ve.{
  Chunk, Ve, Mmap, page_offset, page_align, map_failed, is_free, is_better, best_loop, best_chunk,
  place, ve_malloc,
}

-- The free chunks that hold `size` bytes.
abbrev pub Fits : ℕ → Chunk → Type 0
Fits size c = (c.virt_addr ≡ 0) × (size ≤ c.size)

abbrev pub NoLarger : Option (ℕ × Chunk) → ℕ → Type 0
NoLarger none n = ⊥
NoLarger (some (k, c)) n = c.size ≤ n

abbrev pub Below : ℕ → ℕ → List Chunk → (ℕ × Chunk) → Type 0
Below size i cs (k, c) = (j : ℕ) × (k ≡ i + j) × (get_elem? cs j ≡ some c) × Fits size c

-- What the loop returns is at most as large as what it was given.
best_loop_keeps :
    (size i : ℕ) (b : Option (ℕ × Chunk)) (cs : List Chunk) (n : ℕ)
    → NoLarger b n
    → NoLarger (best_loop size i b cs) n
unfolding best_loop
best_loop_keeps size i b [] n h = h
best_loop_keeps size i none (c ∷ cs) n h = absurd h
best_loop_keeps size i (some (k, d)) (c ∷ cs) n h = ground (
  arith,
  best_loop_keeps size (suc i) (some (k, d)) cs n,
  best_loop_keeps size (suc i) (some (i, c)) cs n,
)

-- No fitting chunk is smaller than the result.
best_loop_least :
    (size i : ℕ) (b : Option (ℕ × Chunk)) (cs : List Chunk) (j : ℕ) (d : Chunk)
    → get_elem? cs j ≡ some d
    → Fits size d
    → NoLarger (best_loop size i b cs) d.size
unfolding best_loop
best_loop_least size i b [] j d e h = absurd (ground arith)
best_loop_least size i none (c ∷ cs) zero d e h =
    ground (arith, best_loop_keeps size (suc i) (some (i, c)) cs d.size)
best_loop_least size i (some (k, b)) (c ∷ cs) zero d e h = ground (
  arith,
  best_loop_keeps size (suc i) (some (k, b)) cs d.size,
  best_loop_keeps size (suc i) (some (i, c)) cs d.size,
)
best_loop_least size i none (c ∷ cs) (suc j) d e h = ground (
  arith,
  best_loop_least size (suc i) none cs j d e h,
  best_loop_least size (suc i) (some (i, c)) cs j d e h,
)
best_loop_least size i (some (k, b)) (c ∷ cs) (suc j) d e h = ground (
  arith,
  best_loop_least size (suc i) (some (k, b)) cs j d e h,
  best_loop_least size (suc i) (some (i, c)) cs j d e h,
)

Below-later :
    (size i : ℕ) (c : Chunk) (cs : List Chunk) (r : ℕ × Chunk)
    → Below size (suc i) cs r
    → Below size i (c ∷ cs) r
Below-later size i c cs r (j, e, g, f) = (suc j, omega arith, g, f)

-- One round of the loop.
data Round (size i : ℕ) (b : Option (ℕ × Chunk)) (c : Chunk) (cs : List Chunk)
    (r : Option (ℕ × Chunk)) : Type 0 where
  keep : r ≡ best_loop size (suc i) b cs → Round size i b c cs r
  stop : r ≡ b → Round size i b c cs r
  take : Fits size c → r ≡ best_loop size (suc i) (some (i, c)) cs → Round size i b c cs r
  take_exact : Fits size c → r ≡ some (i, c) → Round size i b c cs r

best_loop-Round :
    (size i : ℕ) (b : Option (ℕ × Chunk)) (c : Chunk) (cs : List Chunk)
    → Round size i b c cs (best_loop size i b (c ∷ cs))
unfolding best_loop
best_loop-Round size i b c cs = elim (Bool-cases (is_free c && leb size c.size)) [
  | inr no_fit ↦ keep (rw no_fit)
  | inl fit ↦ elim (Bool-cases (is_better c.size b)) [
    | inl better ↦ elim (Bool-cases (c.size == size)) [
      | inl same ↦ take_exact (ground arith) (rw (fit, better, same))
      | inr other ↦ take (ground arith) (rw (fit, better, other))
    ]
    | inr worse ↦ elim (Bool-cases (c.size == size)) [
      | inl same ↦ stop (rw (fit, worse, same))
      | inr other ↦ keep (rw (fit, worse, other))
    ]
  ]
]

-- The result is the chunk given or a fitting one of the list.
best_loop_from :
    (size i : ℕ) (b : Option (ℕ × Chunk)) (cs : List Chunk) (r : ℕ × Chunk)
    → best_loop size i b cs ≡ some r
    → (b ≡ some r) ⊎ Below size i cs r
unfolding best_loop
best_loop_from size i b [] r e = inl e
best_loop_from size i b (c ∷ cs) r e =
    by_round (best_loop-Round size i b c cs) (best_loop_from size (suc i) b cs r)
      (best_loop_from size (suc i) (some (i, c)) cs r)
  where
    at_head : Fits size c → some (i, c) ≡ some r → Below size i (c ∷ cs) r
    at_head f q = (0, ground arith, ground arith, ground arith)

    later : {P : Type 0} → P ⊎ Below size (suc i) cs r → P ⊎ Below size i (c ∷ cs) r
    later (inl h) = inl h
    later (inr h) = inr (Below-later size i c cs r h)

    taken : Fits size c → (some (i, c) ≡ some r) ⊎ Below size (suc i) cs r → Below size i (c ∷ cs) r
    taken f (inl h) = at_head f h
    taken f (inr h) = Below-later size i c cs r h

    by_round :
        Round size i b c cs (best_loop size i b (c ∷ cs))
        → (best_loop size (suc i) b cs ≡ some r → (b ≡ some r) ⊎ Below size (suc i) cs r)
        → (best_loop size (suc i) (some (i, c)) cs ≡ some r
            → (some (i, c) ≡ some r) ⊎ Below size (suc i) cs r)
        → (b ≡ some r) ⊎ Below size i (c ∷ cs) r
    by_round (keep q) kept tookn = later (kept (sym q ∙ e))
    by_round (stop q) kept tookn = inl (sym q ∙ e)
    by_round (take f q) kept tookn = inr (taken f (tookn (sym q ∙ e)))
    by_round (take_exact f q) kept tookn = inr (at_head f (sym q ∙ e))

-- The chunk that `ve_malloc` takes is free, holds the bytes, and no smaller free chunk does.
pub record BestFit (size : ℕ) (cs : List Chunk) (k : ℕ) (c : Chunk) : Type 0 where
  pub found : get_elem? cs k ≡ some c
  pub fits : Fits size c
  pub least : (j : ℕ) (d : Chunk) → get_elem? cs j ≡ some d → Fits size d → c.size ≤ d.size

-- If `best_chunk` finds a chunk, it is a best fit: free, large enough, and no larger than any other
-- free chunk that is large enough.
pub best_chunk-BestFit :
    (size : ℕ) (cs : List Chunk) (k : ℕ) (c : Chunk)
    → best_chunk size cs ≡ some (k, c)
    → BestFit size cs k c
unfolding best_chunk
best_chunk-BestFit size cs k c e = from_loop (best_loop_from size 0 none cs (k, c) e)
  where
    from_loop :
        ◌≡◌ {A = Option (ℕ × Chunk)} none (some (k, c)) ⊎ Below size 0 cs (k, c)
        → BestFit size cs k c
    from_loop (inl h) = absurd (cc)
    from_loop (inr (j, q, g, f)) = record {
      found = rw q (ground arith);
      fits = f;
      least = λ i d h w. let n = best_loop_least size 0 none cs i d h w in rw e at n;
    }

pub best_chunk-none :
    (size : ℕ) (cs : List Chunk) (j : ℕ) (d : Chunk)
    → best_chunk size cs ≡ none
    → get_elem? cs j ≡ some d
    → ¬ Fits size d
unfolding best_chunk
best_chunk-none size cs j d e h f = let n = best_loop_least size 0 none cs j d h f in rw e at n

-- What `mmap` is asked for at chunk `c`.
abbrev pub mapped : Mmap → ℕ → Bool → Chunk → ℕ
mapped mmap size write c = mmap (page_align size) write ((c.phys_addr + page_offset) % 2 ^ 32)

-- A call of `ve_malloc` fails and leaves the chunks alone, or splits the best fit.
pub ve_malloc_cases {ℓ} :
    (P : ℕ × Ve → Type ℓ) (mmap : Mmap) (ve : Ve) (size : ℕ) (write : Bool)
    → P (0, ve)
    → ((f k : ℕ) (c : Chunk)
        → ve.fd ≡ some f
        → best_chunk (page_align size) ve.chunks ≡ some (k, c)
        → mapped mmap size write c ≢ 0
        → P (
          mapped mmap size write c,
          record ve { chunks = place k (page_align size) (mapped mmap size write c) ve.chunks },
        ))
    → P (ve_malloc mmap ve size write)
unfolding ve_malloc
ve_malloc_cases P mmap ve size write failed split = elim (Option-cases ve.fd) [
  | inl closed ↦ rw (closed, ve_malloc) failed
  | inr (f, opened) ↦ elim (Option-cases (best_chunk (page_align size) ve.chunks)) [
    | inl e ↦ rw (opened, e, ve_malloc) failed
    | inr ((k, c), e) ↦
        elim (Bool-cases
          ((mapped mmap size write c == map_failed) || (mapped mmap size write c == 0))) [
            | inl bad ↦ rw (opened, e, bad, ve_malloc) failed
            | inr good ↦ rw (opened, e, good, ve_malloc) (split f k c opened e (ground arith))
          ]
  ]
]

-- ===== src/Ve/Blocks/Refine.antt =====
-- `ve_malloc` and `ve_free` of src/ve.c as calls on the blocks in use.
use mathlib.Core.Quot.{Quot}
use mathlib.Core.Quot
use camview_opipc.Base.{
  ℕ, ◌≤◌, ◌≡◌, ◌≢◌, refl, ◌∙◌, ◌⊎◌, inl, inr, Bool, some, List, [], ◌∷◌, arith, get_elem?, ◌||◌,
  ◌==◌, Bool-cases,
}
use camview_opipc.Ve.{
  Chunk, Ve, Mmap, map_failed, best_chunk, page_align, place, unmap, merge, ve_malloc, ve_free,
}
use camview_opipc.Ve.Fit.{ve_malloc_cases, mapped, best_chunk-BestFit}
use camview_opipc.Ve.RoundTrip.{IsFresh}
use camview_opipc.Ve.Session.{Op, mallocs, frees, apply, apply_all, ve_malloc-fd, ve_free-fd}
use camview_opipc.Ve.Blocks.{Blocks, blocks, SameBlocks, without, count-without, alloc, release}
use camview_opipc.Ve.Blocks.Count.{
  AtMostOne, at_count, count-place, count-merge, count-unmap, count-free, at_count-place,
  at_count-merge, at_count-unmap, at_count-fresh,
}

-- What the call returns; `ve_free` returns nothing, which is a 0 here.
unfoldable pub result : Op → Ve → ℕ
result (mallocs mmap size write) ve = (ve_malloc mmap ve size write).0
result (frees ptr) ve = 0

unfoldable pub results : List Op → Ve → List ℕ
unfolding result apply
results [] ve = []
results (op ∷ ops) ve = result op ve ∷ results ops (apply op ve)

-- A call of `ve_malloc` that returns NULL changes nothing. One that returns another pointer adds one
-- block of the pages asked for at that pointer, which `mmap` answers for the block's physical
-- address. `ve_free` takes the block at the pointer.
abbrev pub Effect : Op → (r : ℕ) → Blocks → Blocks → Type 0
Effect (mallocs mmap size write) r bs cs =
    ((r ≡ 0) × (cs ≡ bs))
    ⊎ ((c : Chunk) × (r ≢ 0)
        × (c.virt_addr ≡ r)
        × (r ≡ mapped mmap size write c)
        × (c.size ≡ page_align size)
        × (cs ≡ alloc c bs))
Effect (frees ptr) r bs cs = cs ≡ release ptr bs

-- A chain of such calls, with what they return.
abbrev pub Run : List Op → List ℕ → Blocks → Blocks → Type 0
Run [] rs bs cs = (rs ≡ []) × (cs ≡ bs)
Run (op ∷ ops) [] bs cs = ⊥
Run (op ∷ ops) (r ∷ rs) bs cs = (ds : Blocks) × Effect op r bs ds × Run ops rs ds cs

-- `ve_malloc` returns NULL only if no free chunk has the pages, or if `mmap` fails at the best one.
abbrev pub FailsFor : Op → Ve → Type 0
FailsFor (mallocs mmap size write) ve =
    (k : ℕ)
    → (c : Chunk) → best_chunk (page_align size) ve.chunks ≡ some (k, c)
    → (ve_malloc mmap ve size write).0 ≡ 0
    → (mapped mmap size write c ≡ map_failed) ⊎ (mapped mmap size write c ≡ 0)
FailsFor (frees ptr) ve = Unit

abbrev pub AllFailFor : List Op → Ve → Type 0
AllFailFor [] ve = Unit
AllFailFor (op ∷ ops) ve = FailsFor op ve × AllFailFor ops (apply op ve)

-- What `mmap` answers is not in use.
abbrev pub AnswersFresh : Op → Ve → Type 0
AnswersFresh (mallocs mmap size write) ve =
    (ve_malloc mmap ve size write).0 ≢ 0 → IsFresh (ve_malloc mmap ve size write).0 ve.chunks
AnswersFresh (frees ptr) ve = Unit

abbrev pub AllFresh : List Op → Ve → Type 0
AllFresh [] ve = Unit
AllFresh (op ∷ ops) ve = AnswersFresh op ve × AllFresh ops (apply op ve)

same_blocks : (ve ve' : Ve) → SameBlocks ve.chunks ve'.chunks → blocks ve ≡ blocks ve'
unfolding blocks Blocks
same_blocks ve ve' h = Quot.sound h

without-nothing : (cs : List Chunk) → SameBlocks cs (without 0 cs)
without-nothing cs b = ground (arith, count-without 0 b cs, count-free b cs)

freed-SameBlocks :
    (ptr : ℕ) (cs : List Chunk)
    → ptr ≢ 0
    → at_count ptr cs ≤ 1
    → SameBlocks (merge (unmap ptr cs)) (without ptr cs)
freed-SameBlocks ptr cs used one b = count-merge b (unmap ptr cs) ∙ count-unmap b ptr cs used one

freed :
    (ve : Ve) (ptr fd : ℕ)
    → ve.fd ≡ some fd
    → AtMostOne ve.chunks
    → SameBlocks (ve_free ve ptr).chunks (without ptr ve.chunks)
unfolding ve_free
freed ve ptr fd opened one =
    ground (arith, without-nothing ve.chunks, freed-SameBlocks ptr ve.chunks, one ptr)

ve_free-release :
    (ve : Ve) (ptr fd : ℕ)
    → ve.fd ≡ some fd
    → AtMostOne ve.chunks
    → blocks (ve_free ve ptr) ≡ release ptr (blocks ve)
unfolding blocks release Blocks
ve_free-release ve ptr fd opened one = Quot.sound (freed ve ptr fd opened one)

ve_free-AtMostOne : (ve : Ve) (ptr : ℕ) → AtMostOne ve.chunks → AtMostOne (ve_free ve ptr).chunks
unfolding ve_free
ve_free-AtMostOne ve ptr one p used = ground (
  arith,
  one p used,
  at_count-merge p (unmap ptr ve.chunks) used,
  at_count-unmap p ptr ve.chunks used,
)

placed-AtMostOne :
    (k size addr : ℕ) (cs : List Chunk) (c : Chunk)
    → get_elem? cs k ≡ some c
    → c.virt_addr ≡ 0
    → IsFresh addr cs
    → AtMostOne cs
    → AtMostOne (place k size addr cs)
placed-AtMostOne k size addr cs c e free fresh one p used =
    ground (
      arith,
      one p used,
      at_count-place p k size addr cs c used e free,
      at_count-fresh addr cs fresh,
    )

ve_malloc-AtMostOne :
    (mmap : Mmap) (ve : Ve) (size : ℕ) (write : Bool)
    → AnswersFresh (mallocs mmap size write) ve
    → AtMostOne ve.chunks
    → AtMostOne (ve_malloc mmap ve size write).1.chunks
ve_malloc-AtMostOne mmap ve size write =
    ve_malloc_cases
      (λ r. (r.0 ≢ 0 → IsFresh r.0 ve.chunks) → AtMostOne ve.chunks → AtMostOne r.1.chunks) mmap ve
      size write (λ _ one. one)
      λ f k c opened e good fresh one.
        let fit = best_chunk-BestFit (page_align size) ve.chunks k c e in
        placed-AtMostOne k (page_align size) (mapped mmap size write c) ve.chunks c fit.found
          fit.fits.0 (fresh good) one

placed-alloc :
    (ve : Ve) (k size addr : ℕ) (c : Chunk)
    → get_elem? ve.chunks k ≡ some c
    → c.virt_addr ≡ 0
    → addr ≢ 0
    → blocks (record ve { chunks = place k size addr ve.chunks })
      ≡ alloc (record c { size = size; virt_addr = addr }) (blocks ve)
unfolding blocks alloc Blocks
placed-alloc ve k size addr c e free used =
    Quot.sound (λ b. count-place b k size addr ve.chunks c e free used)

ve_malloc-Effect :
    (mmap : Mmap) (ve : Ve) (size : ℕ) (write : Bool)
    → let r = ve_malloc mmap ve size write in
      Effect (mallocs mmap size write) r.0 (blocks ve) (blocks r.1)
ve_malloc-Effect mmap ve size write =
    ve_malloc_cases (λ r. Effect (mallocs mmap size write) r.0 (blocks ve) (blocks r.1)) mmap ve
      size write (inl (refl, refl))
      λ f k c opened e good.
        let fit = best_chunk-BestFit (page_align size) ve.chunks k c e in
        inr (
          record c { size = page_align size; virt_addr = mapped mmap size write c },
          good,
          refl,
          refl,
          refl,
          placed-alloc ve k (page_align size) (mapped mmap size write c) c fit.found fit.fits.0
              good,
        )

-- What the calls need: the device is open and no two blocks are at one address.
pub record IsReady (fd : ℕ) (ve : Ve) : Type 0 where
  pub opened : ve.fd ≡ some fd
  pub one : AtMostOne ve.chunks

module _ (fd : ℕ) where
  ve_malloc-FailsFor :
      (mmap : Mmap) (ve : Ve) (size : ℕ) (write : Bool)
      → ve.fd ≡ some fd
      → FailsFor (mallocs mmap size write) ve
  unfolding ve_malloc
  ve_malloc-FailsFor mmap ve size write opened k c e failed =
      elim (Bool-cases
        ((mapped mmap size write c == map_failed) || (mapped mmap size write c == 0))) [
          | inl bad ↦ ground arith
          | inr good ↦
              let null : mapped mmap size write c ≡ 0 = rw (opened, e, good, ve_malloc) at failed in
              inr null
        ]

  apply-FailsFor : (op : Op) (ve : Ve) → IsReady fd ve → FailsFor op ve
  apply-FailsFor (mallocs mmap size write) ve r = ve_malloc-FailsFor mmap ve size write r.opened
  apply-FailsFor (frees ptr) ve r = _

  apply-Effect :
      (op : Op) (ve : Ve)
      → IsReady fd ve
      → Effect op (result op ve) (blocks ve) (blocks (apply op ve))
  unfolding apply result
  apply-Effect (mallocs mmap size write) ve r = ve_malloc-Effect mmap ve size write
  apply-Effect (frees ptr) ve r = ve_free-release ve ptr fd r.opened r.one

  apply-IsReady :
      (op : Op) (ve : Ve) → AnswersFresh op ve → IsReady fd ve → IsReady fd (apply op ve)
  unfolding apply
  apply-IsReady (mallocs mmap size write) ve fresh r = record {
    opened = ve_malloc-fd mmap ve size write ∙ r.opened;
    one = ve_malloc-AtMostOne mmap ve size write fresh r.one;
  }
  apply-IsReady (frees ptr) ve fresh r = record {
    opened = ve_free-fd ve ptr ∙ r.opened;
    one = ve_free-AtMostOne ve ptr r.one;
  }

  -- While the device is open, any calls of `ve_malloc` and `ve_free` are, on the blocks in use, a
  -- chain of steps: a `ve_malloc` that returns a pointer adds one block of whole pages at that pointer,
  -- which `mmap` answered for it, one that returns NULL changes nothing, and a `ve_free` takes the
  -- block at its pointer. A `ve_malloc` returns NULL only if no free chunk has the pages or `mmap`
  -- fails at the best one. Afterwards the device is still open and no two blocks are at one address.
  -- Supposed are that no two are at the start and that no answer of `mmap` is an address in use.
  pub apply_all-Run :
      (ops : List Op) (ve : Ve)
      → IsReady fd ve
      → AllFresh ops ve
      → Run ops (results ops ve) (blocks ve) (blocks (apply_all ops ve))
        × AllFailFor ops ve
        × IsReady fd (apply_all ops ve)
  unfolding apply_all results
  apply_all-Run [] ve r h = ((refl, refl), _, r)
  apply_all-Run (op ∷ ops) ve r (fresh, later) =
      let (run, fails, ready) =
        apply_all-Run ops (apply op ve) (apply-IsReady op ve fresh r) later in
      ((blocks (apply op ve), apply-Effect op ve r, run), (apply-FailsFor op ve r, fails), ready)

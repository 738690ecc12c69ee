-- ===== src/Ve/Blocks.antt =====
-- The memory of src/ve.c as its client sees it: the blocks in use, without the free chunks, the order of
-- the list, and how the free memory is divided.
pub mod Count
pub mod Refine
mod Tests
use mathlib.Core.Quot
use mathlib.Core.Quot.{Quot, Quot-set}
use camview_opipc.Base.{
  ℕ, ◌+◌, ◌≡◌, Bool, true, false, not, ◌&&◌, List, [], ◌∷◌, ◌==◌, if◌then◌else◌, arith,
}
use camview_opipc.Ve.{Chunk, is_free, Ve}

abbrev pub same : Chunk → Chunk → Bool
same c b = (c.phys_addr == b.phys_addr) && ((c.size == b.size) && (c.virt_addr == b.virt_addr))

-- How often the block is among the chunks in use.
unfoldable pub count : Chunk → List Chunk → ℕ
count b [] = 0
count b (c ∷ cs) = (if not (is_free c) && same c b then 1 else 0) + count b cs

abbrev pub SameBlocks : List Chunk → List Chunk → Type 0
SameBlocks cs ds = (b : Chunk) → count b cs ≡ count b ds

pub Blocks : Type 0
Blocks = Quot SameBlocks

unfoldable pub blocks : Ve → Blocks
unfolding Blocks
blocks ve = Quot.mk ve.chunks

-- The chunks without those at an address.
unfoldable pub without : ℕ → List Chunk → List Chunk
without ptr [] = []
without ptr (c ∷ cs) = if c.virt_addr == ptr then without ptr cs else c ∷ without ptr cs

pub count-without :
    (ptr : ℕ) (b : Chunk) (cs : List Chunk)
    → count b (without ptr cs) ≡ (if b.virt_addr == ptr then 0 else count b cs)
unfolding count without
count-without ptr b [] = ground arith
count-without ptr b (c ∷ cs) = ground (arith, count-without ptr b cs)

pub cons-SameBlocks :
    (c : Chunk) (cs ds : List Chunk) → SameBlocks cs ds → SameBlocks (c ∷ cs) (c ∷ ds)
unfolding count
cons-SameBlocks c cs ds h b = omega (arith, h b)

pub without-SameBlocks :
    (ptr : ℕ) (cs ds : List Chunk) → SameBlocks cs ds → SameBlocks (without ptr cs) (without ptr ds)
without-SameBlocks ptr cs ds h b =
    ground (arith, count-without ptr b cs, count-without ptr b ds, h b)

-- A block more.
unfoldable pub alloc : Chunk → Blocks → Blocks
unfolding Blocks
alloc c =
    Quot.lift Quot-set (λ cs. Quot.mk (c ∷ cs)) (λ cs ds h. Quot.sound (cons-SameBlocks c cs ds h))

-- No block at the address.
unfoldable pub release : ℕ → Blocks → Blocks
unfolding Blocks
release ptr =
    Quot.lift Quot-set (λ cs. Quot.mk (without ptr cs))
      (λ cs ds h. Quot.sound (without-SameBlocks ptr cs ds h))

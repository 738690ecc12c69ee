-- ===== src/Memory.antt =====
-- src/memory.c: the physical address behind a virtual one, from /proc/<pid>/pagemap. The file is what
-- `pread` answers for a length and an offset: `none` for an error, and no bytes at the end.
pub mod Reads
mod Tests
use camview_opipc.Base.{
  ℕ, zero, suc, ◌+◌, ◌-◌, ◌*◌, ◌/◌, ◌%◌, ◌^◌, Bool, true, false, Option, none, some, List, [], ◌∷◌,
  ◌++◌, ◌==◌, if◌then◌else◌, ltb, length, ◌>>=◌,
}

pub record PagemapEntry : Type 0 where
  pub pfn : ℕ
  pub soft_dirty : ℕ
  pub file_page : ℕ
  pub swapped : ℕ
  pub present : ℕ

abbrev pub Pread : Type 0
Pread = (len offset : ℕ) → Option (List ℕ)

-- The loop of `pagemap_get_entry`, with the bytes read so far. A round that goes on has read a byte,
-- so that eight rounds are enough.
unfoldable pub read_loop : ℕ → Pread → (at : ℕ) → List ℕ → Option (List ℕ)
read_loop zero pread at bytes = some bytes
read_loop (suc fuel) pread at bytes = elim (ltb (length bytes) 8) [
  | false ↦ some bytes
  | true ↦ elim (pread (8 - length bytes) (at + length bytes)) [
    | none ↦ none
    | some [] ↦ none
    | some (b ∷ bs) ↦ read_loop fuel pread at (bytes ++ (b ∷ bs))
  ]
]

-- A `uint64_t` of bytes, the least significant first.
unfoldable pub word : List ℕ → ℕ
word [] = 0
word (b ∷ bs) = b + 256 * word bs

unfoldable pub entry_of : ℕ → PagemapEntry
entry_of d = record {
  pfn = d % 2 ^ 55;
  soft_dirty = d / 2 ^ 55 % 2;
  file_page = d / 2 ^ 61 % 2;
  swapped = d / 2 ^ 62 % 2;
  present = d / 2 ^ 63 % 2;
}

-- `none` is a return of 1.
unfoldable pub pagemap_get_entry : (page : ℕ) → Pread → (vaddr : ℕ) → Option PagemapEntry
unfolding read_loop word entry_of
pagemap_get_entry page pread vaddr = do
  bytes ← read_loop 8 pread (vaddr / page * 8) []
  some (entry_of (word bytes))

-- The address, and whether the descriptor of the file is left open. `file` is what `open` gives.
unfoldable pub virt_to_phys_user : (page : ℕ) → Option Pread → (vaddr : ℕ) → Option ℕ × Bool
unfolding pagemap_get_entry
virt_to_phys_user page none vaddr = (none, false)
virt_to_phys_user page (some pread) vaddr = elim (pagemap_get_entry page pread vaddr) [
  | none ↦ (none, true)
  | some entry ↦ (some (entry.pfn * page + vaddr % page), false)
]

-- A null pointer is 0.
unfoldable pub mem_virtual_to_phys : (page : ℕ) → Option Pread → (vaddr : ℕ) → ℕ
unfolding virt_to_phys_user
mem_virtual_to_phys page file vaddr = elim (virt_to_phys_user page file vaddr).0 [
  | none ↦ 0
  | some p ↦ p
]

-- ===== src/Ve.antt =====
-- src/ve.c, the memory of the Cedar video engine: the list of chunks behind `ve_malloc`,
-- `ve_free` and `ve_virt2phys`. An address is a number, NULL is 0. The file descriptor that is -1
-- while the device is closed is an option. The list is the chain from `ve.first_memchunk` on.
pub mod Fit
pub mod Scan
pub mod Tiles
pub mod RoundTrip
pub mod Translate
pub mod Device
pub mod Registers
pub mod Session
pub mod Blocks
mod Tests
use camview_opipc.Base.{
  ℕ, zero, suc, ◌+◌, ◌-◌, ◌*◌, ◌/◌, ◌%◌, ◌^◌, Bool, true, false, ◌&&◌, ◌||◌, Option, none, some,
  List, [], ◌∷◌, ltb, leb, ◌==◌, if◌then◌else◌,
}

-- `struct memchunk_t`; `next` is the rest of the list.
pub record Chunk : Type 0 where
  pub phys_addr : ℕ
  pub size : ℕ
  pub virt_addr : ℕ

-- The part of the static `ve` that the memory functions read and write.
pub record Ve : Type 0 where
  pub fd : Option ℕ
  pub chunks : List Chunk

abbrev pub page_size : ℕ
page_size = 4096

abbrev pub page_offset : ℕ
page_offset = 0xc0000000

-- `MAP_FAILED` is `(void *) -1`.
abbrev pub map_failed : ℕ
map_failed = 2 ^ 32 - 1

abbrev pub is_free : Chunk → Bool
is_free c = c.virt_addr == 0

-- `(size + PAGE_SIZE - 1) & ~(PAGE_SIZE - 1)`
unfoldable pub page_align : ℕ → ℕ
page_align size = (size + page_size - 1) / page_size * page_size

abbrev pub is_better : ℕ → Option (ℕ × Chunk) → Bool
is_better size none = true
is_better size (some (k, best)) = ltb size best.size

-- The search loop from the `i`-th chunk on. What points to a chunk is its place in the list,
-- beside the chunk. The loop ends early at a chunk of the very size.
pub best_loop : ℕ → ℕ → Option (ℕ × Chunk) → List Chunk → Option (ℕ × Chunk)
best_loop size i best [] = best
best_loop size i best (c ∷ cs) =
    let fits = is_free c && leb size c.size in
    let best' = if fits && is_better c.size best then some (i, c) else best in
    let rest = best_loop size (suc i) best' cs in if fits && (c.size == size) then best' else rest

pub best_chunk : ℕ → List Chunk → Option (ℕ × Chunk)
unfolding best_loop
best_chunk size cs = best_loop size 0 none cs

-- The chunk after `best_chunk`, if something of it is left.
abbrev pub remainder : ℕ → Chunk → List Chunk → List Chunk
remainder size c cs =
    if ltb 0 (c.size - size)
    then record { phys_addr = (c.phys_addr + size) % 2 ^ 32; size = c.size - size; virt_addr = 0 }
      ∷ cs
    else cs

-- The `k`-th chunk is taken and split.
pub place : ℕ → ℕ → ℕ → List Chunk → List Chunk
place k size addr [] = []
place zero size addr (c ∷ cs) = record c { size = size; virt_addr = addr } ∷ remainder size c cs
place (suc k) size addr (c ∷ cs) = c ∷ place k size addr cs

-- `mmap` takes the length, whether PROT_WRITE is asked for, and the offset into the device.
abbrev pub Mmap : Type 0
Mmap = ℕ → Bool → ℕ → ℕ

unfoldable pub ve_malloc : Mmap → Ve → ℕ → Bool → ℕ × Ve
unfolding best_chunk place page_align
ve_malloc mmap ve size write = elim ve.fd [
  | none ↦ (0, ve)
  | some _ ↦ elim (best_chunk (page_align size) ve.chunks) [
    | none ↦ (0, ve)
    | some (k, best) ↦
        let addr = mmap (page_align size) write ((best.phys_addr + page_offset) % 2 ^ 32) in
        if (addr == map_failed) || (addr == 0)
        then (0, ve)
        else (addr, record ve { chunks = place k (page_align size) addr ve.chunks })
  ]
]

-- The first loop of `ve_free`: the chunk mapped at `ptr` becomes free.
pub unmap : ℕ → List Chunk → List Chunk
unmap ptr [] = []
unmap ptr (c ∷ cs) =
    if c.virt_addr == ptr then record c { virt_addr = 0 } ∷ cs else c ∷ unmap ptr cs

-- The second loop, its inner loop included, at chunk `c`: a free chunk takes in the free chunk
-- behind it and is looked at again, any other is left for the next.
pub merge_from : Chunk → List Chunk → List Chunk
merge_from c [] = c ∷ []
merge_from c (n ∷ ns) = elim (is_free c && is_free n) [
  | true ↦ merge_from (record c { size = c.size + n.size }) ns
  | false ↦ c ∷ merge_from n ns
]

pub merge : List Chunk → List Chunk
unfolding merge_from
merge [] = []
merge (c ∷ cs) = merge_from c cs

unfoldable pub ve_free : Ve → ℕ → Ve
unfolding unmap merge
ve_free ve ptr = elim ve.fd [
  | none ↦ ve
  | some _ ↦ if ptr == 0 then ve else record ve { chunks = merge (unmap ptr ve.chunks) }
]

pub translate : ℕ → List Chunk → ℕ
translate ptr [] = 0
translate ptr (c ∷ cs) =
    let rest = translate ptr cs in
    if is_free c
    then rest
    else if c.virt_addr == ptr
    then c.phys_addr
    else if ltb c.virt_addr ptr && ltb ptr (c.virt_addr + c.size)
    then (c.phys_addr + (ptr - c.virt_addr)) % 2 ^ 32
    else rest

pub ve_virt2phys : Ve → ℕ → ℕ
unfolding translate
ve_virt2phys ve ptr = elim ve.fd [ none ↦ 0 | some _ ↦ translate ptr ve.chunks ]

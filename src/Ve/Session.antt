-- ===== src/Ve/Session.antt =====
-- The memory from the opening of the device on, under any calls of `ve_malloc` and `ve_free`.
use camview_opipc.Base.{
  ℕ, ◌+◌, ◌-◌, ◌%◌, ◌^◌, ◌≤◌, ◌≡◌, refl, Bool, none, some, List, [], ◌∷◌, arith, ◌∙◌, ◌≢◌,
  test_of_ne,
}
use camview_opipc.Ve.{Chunk, Ve, Mmap, ve_malloc, ve_free, unmap, page_offset, map_failed}
use camview_opipc.Ve.Tiles.{Tiles, ve_malloc-Tiles, ve_free-Tiles}
use camview_opipc.Ve.RoundTrip.{Coalesced, ve_malloc-Coalesced, merge-Coalesced}
use camview_opipc.Ve.Fit.{ve_malloc_cases}
use camview_opipc.Ve.Device.{Device, Kernel, VeInfo, ve_open, start_engine, set_first}

-- A call; `mmap` may answer anything in each.
pub data Op : Type 0 where
  mallocs : (mmap : Mmap) (size : ℕ) (write : Bool) → Op
  frees : (ptr : ℕ) → Op

unfoldable pub apply : Op → Ve → Ve
apply (mallocs mmap size write) ve = (ve_malloc mmap ve size write).1
apply (frees ptr) ve = ve_free ve ptr

unfoldable pub apply_all : List Op → Ve → Ve
unfolding apply
apply_all [] ve = ve
apply_all (op ∷ ops) ve = apply_all ops (apply op ve)

-- The device is open and the chunks divide the memory from `p` to `q`.
pub record IsSound (p q fd : ℕ) (ve : Ve) : Type 0 where
  pub opened : ve.fd ≡ some fd
  pub tiles : Tiles p ve.chunks q
  pub coalesced : Coalesced ve.chunks

pub ve_malloc-fd :
    (mmap : Mmap) (ve : Ve) (size : ℕ) (write : Bool) → (ve_malloc mmap ve size write).1.fd ≡ ve.fd
ve_malloc-fd mmap ve size write =
    ve_malloc_cases (λ r. r.1.fd ≡ ve.fd) mmap ve size write refl (λ f k c o e m. refl)

pub ve_free-fd : (ve : Ve) (ptr : ℕ) → (ve_free ve ptr).fd ≡ ve.fd
unfolding ve_free
ve_free-fd ve ptr = ground arith

ve_free-Coalesced : (ve : Ve) (ptr : ℕ) → Coalesced ve.chunks → Coalesced (ve_free ve ptr).chunks
unfolding ve_free
ve_free-Coalesced ve ptr h = ground (arith, merge-Coalesced (unmap ptr ve.chunks))

module _ (p q fd : ℕ) (bound : q ≤ 2 ^ 32) where
  apply-IsSound : (op : Op) (ve : Ve) → IsSound p q fd ve → IsSound p q fd (apply op ve)
  unfolding apply
  apply-IsSound (mallocs mmap size write) ve s = record {
    opened = ve_malloc-fd mmap ve size write ∙ s.opened;
    tiles = ve_malloc-Tiles mmap ve size write p q bound s.tiles;
    coalesced = ve_malloc-Coalesced mmap ve size write s.coalesced;
  }
  apply-IsSound (frees ptr) ve s = record {
    opened = ve_free-fd ve ptr ∙ s.opened;
    tiles = ve_free-Tiles ve ptr p q s.tiles;
    coalesced = ve_free-Coalesced ve ptr s.coalesced;
  }

  apply_all-IsSound :
      (ops : List Op) (ve : Ve) → IsSound p q fd ve → IsSound p q fd (apply_all ops ve)
  unfolding apply_all
  apply_all-IsSound [] ve s = s
  apply_all-IsSound (op ∷ ops) ve s = apply_all-IsSound ops (apply op ve) (apply-IsSound op ve s)

-- The physical address of the reserved memory.
abbrev pub physical : VeInfo → ℕ
physical info = (info.reserved_mem + 2 ^ 32 - page_offset) % 2 ^ 32

start_engine-IsSound :
    (k : Kernel) (info : VeInfo) (fd : ℕ) (d : Device) (c : Chunk)
    → d.ve.chunks ≡ c ∷ []
    → IsSound
        (physical info)
        (physical info + info.reserved_mem_size)
        fd
        (start_engine k info fd d).1.ve
unfolding start_engine set_first
start_engine-IsSound k info fd d c e =
    rw e (record { opened = refl; tiles = (refl, refl); coalesced = tt })

-- If the closed device, whose chunk list is still the first chunk alone, is opened and the reserved
-- memory lies within 32 bits, then after any calls of `ve_malloc` and `ve_free` the device is open,
-- the chunks cover the reserved memory without gap or overlap, and no two free ones stand side by
-- side, whatever `mmap` returns and whichever pointers are freed.
pub session-IsSound :
    (k : Kernel) (info : VeInfo) (fd : ℕ) (d : Device) (c : Chunk) (ops : List Op)
    → d.ve.fd ≡ none
    → d.ve.chunks ≡ c ∷ []
    → k.opened ≡ some fd
    → k.env_info ≡ some info
    → k.registers_at ≢ map_failed
    → physical info + info.reserved_mem_size ≤ 2 ^ 32
    → IsSound
        (physical info)
        (physical info + info.reserved_mem_size)
        fd
        (apply_all ops (ve_open k d).1.ve)
unfolding ve_open
session-IsSound k info fd d c ops closed first opened env mapped bound =
    rw (closed, opened, env, test_of_ne k.registers_at map_failed mapped)
      (apply_all-IsSound (physical info) (physical info + info.reserved_mem_size) fd bound ops
        (start_engine k info fd d).1.ve (start_engine-IsSound k info fd d c first))

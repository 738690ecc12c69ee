-- ===== src/Ve/Tests.antt =====
-- The memory functions on a reserved memory of 32 pages.
use camview_opipc.Base.{ℕ, ◌+◌, ◌*◌, ◌<◌, ◌≡◌, refl, true, false, none, some, List, [], ◌∷◌, arith}
use camview_opipc.Ve.{Ve, Mmap, best_chunk, ve_malloc, ve_free}
use camview_opipc.Ve.Scan.{first_smallest, best_chunk-eq}
use camview_opipc.Ve.RoundTrip.{ve_free-ve_malloc}
use camview_opipc.Ve.Device.{Device, VeInfo, Kernel, ve_open}
use camview_opipc.Ve.Session.{Op, apply_all, IsSound, session-IsSound}
use camview_opipc.Ve.Translate.{IsMapped, ve_virt2phys-injective}

abbrev reserved : Ve
reserved = record {
  fd = some 3;
  chunks = record { phys_addr = 0x1000; size = 32 * 4096; virt_addr = 0 } ∷ [];
}

abbrev mmap_at : ℕ → Mmap
mmap_at addr size write offset = addr

-- A buffer of 65536 bytes at 0x5000_0000, the rest free.
abbrev one_buffer : Ve
one_buffer = record {
  fd = some 3;
  chunks =
      record { phys_addr = 0x1000; size = 0x10000; virt_addr = 0x5000_0000 }
      ∷ record { phys_addr = 0x11000; size = 0x10000; virt_addr = 0 }
      ∷ [];
}

ve_malloc-reserved : ve_malloc (mmap_at 0x5000_0000) reserved 65535 true ≡ (0x5000_0000, one_buffer)
unfolding ve_malloc
ve_malloc-reserved = refl

ve_free-one_buffer : ve_free one_buffer 0x5000_0000 ≡ reserved
unfolding ve_free
ve_free-one_buffer = refl

best_chunk-eq_example :
    best_chunk 0x10000 one_buffer.chunks ≡ first_smallest 0x10000 0 one_buffer.chunks
best_chunk-eq_example = best_chunk-eq 0x10000 one_buffer.chunks

ve_free-ve_malloc_example :
    let (addr, ve) = ve_malloc (mmap_at 0x6000_0000) one_buffer 100 true in
    ve_free ve addr ≡ one_buffer
unfolding ve_malloc
ve_free-ve_malloc_example =
    ve_free-ve_malloc (mmap_at 0x6000_0000) one_buffer 100 true (refl, tt) (λ _. omega arith)

at_offset :
    (n : ℕ)
    → n < 0x10000
    → IsMapped one_buffer.chunks
        (0x5000_0000 + n)
        0
        (record { phys_addr = 0x1000; size = 0x10000; virt_addr = 0x5000_0000 })
at_offset n h = record {
  found = refl;
  inside = omega arith;
  first = λ j d lt e. absurd (omega arith);
}

ve_virt2phys-injective_example : ◌≡◌ {A = ℕ} 0x5000_0010 0x5000_0010
ve_virt2phys-injective_example =
    ve_virt2phys-injective one_buffer 3 0x1000 0x21000 0x5000_0010 0x5000_0010 0 0 _ _ refl
      (omega arith) (omega arith) (at_offset 0x10 (omega arith)) (at_offset 0x10 (omega arith)) refl

abbrev info : VeInfo
info = record { reserved_mem = 0xc400_0000; reserved_mem_size = 32 * 4096; registers = 0x01c0_e000 }

abbrev kernel : Kernel
kernel = record {
  opened = some 5;
  env_info = some info;
  registers_at = 0xb6f0_0000;
  version_word = 0x1680_0000;
}

abbrev closed : Device
closed = record {
  ve = record { fd = none; chunks = record { phys_addr = 0; size = 0; virt_addr = 0 } ∷ [] };
  regs = 0;
  version = 0;
  locked = false;
}

abbrev calls : List Op
calls =
    Op.mallocs (mmap_at 0x5000_0000) 65535 true
    ∷ Op.mallocs (mmap_at 0x6000_0000) 100 false
    ∷ Op.frees 0x5000_0000
    ∷ Op.frees 7
    ∷ []

session-IsSound_example :
    IsSound 0x0400_0000 0x0402_0000 5 (apply_all calls (ve_open kernel closed).1.ve)
session-IsSound_example =
    session-IsSound kernel info 5 closed (record { phys_addr = 0; size = 0; virt_addr = 0 }) calls
      refl refl refl refl (omega arith) (omega arith)

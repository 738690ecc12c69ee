-- ===== src/Ve/Device.antt =====
-- The device side of src/ve.c: opening and closing, the lock of the engine and the calls that pass
-- through. What the kernel answers is an argument; what is asked of it is the list of the calls made.
pub mod Balance
mod Tests
use camview_opipc.Base.{
  ℕ, ◌+◌, ◌-◌, ◌%◌, ◌/◌, ◌^◌, ◌*◌, bit_or, Bool, true, false, ◌||◌, Option, none, some, List, [],
  ◌∷◌, ◌==◌, if◌then◌else◌,
}
use camview_opipc.Ve.{Chunk, Ve, page_offset, map_failed}

-- `regs` is 0 for NULL, and `locked` is the state of `device_lock`.
pub record Device : Type 0 where
  pub ve : Ve
  pub regs : ℕ
  pub version : ℕ
  pub locked : Bool

-- `struct ve_info`
pub record VeInfo : Type 0 where
  pub reserved_mem : ℕ
  pub reserved_mem_size : ℕ
  pub registers : ℕ

-- What the kernel answers to `ve_open`: the descriptor, IOCTL_GET_ENV_INFO, the address of the
-- registers, and the word in VE_VERSION.
pub record Kernel : Type 0 where
  pub opened : Option ℕ
  pub env_info : Option VeInfo
  pub registers_at : ℕ
  pub version_word : ℕ

pub data Call : Type 0 where
  opens closes : (fd : ℕ) → Call
  maps : (fd offset address : ℕ) → Call
  unmaps : (address : ℕ) → Call
  requests_engine releases_engine enables disables resets puts_dma_vaddrs : (fd : ℕ) → Call
  sets_freq waits gets_dma_vaddr : (fd argument : ℕ) → Call
  flushes : (fd first last : ℕ) → Call
  writes : (value address : ℕ) → Call
  terminates_display deallocates_buffers : Call

-- `ve.first_memchunk` gets the reserved memory; what follows it in the list stays.
unfoldable pub set_first : ℕ → ℕ → List Chunk → List Chunk
set_first phys size [] = []
set_first phys size (c ∷ cs) = record c { phys_addr = phys; size = size } ∷ cs

-- The label `err` of `ve_open`.
abbrev pub open_failed : Device → ℕ → List Call → ℕ × Device × List Call
open_failed d fd calls = (0, record d { ve = record { fd = none; chunks = d.ve.chunks } }, calls)

-- `ve_open` with the registers mapped.
unfoldable pub start_engine : Kernel → VeInfo → ℕ → Device → ℕ × Device × List Call
unfolding set_first
start_engine k info fd d =
    let phys = (info.reserved_mem + 2 ^ 32 - page_offset) % 2 ^ 32 in
    (
      1,
      record {
        ve = record { fd = some fd; chunks = set_first phys info.reserved_mem_size d.ve.chunks };
        regs = k.registers_at;
        version = k.version_word / 2 ^ 16;
        locked = d.locked;
      },
      Call.opens fd
          ∷ Call.maps fd info.registers k.registers_at
          ∷ Call.requests_engine fd
          ∷ Call.enables fd
          ∷ Call.sets_freq fd 380
          ∷ Call.resets fd
          ∷ Call.writes 0x130007 k.registers_at
          ∷ [],
    )

unfoldable pub ve_open : Kernel → Device → ℕ × Device × List Call
unfolding start_engine
ve_open k d = elim d.ve.fd [
  | some _ ↦ (0, d, [])
  | none ↦ elim k.opened [
    | none ↦ (0, d, [])
    | some fd ↦ elim k.env_info [
      | none ↦ open_failed d fd (Call.opens fd ∷ Call.closes fd ∷ [])
      | some info ↦
          if k.registers_at == map_failed
          then open_failed (record d { regs = map_failed }) fd (Call.opens fd ∷ Call.closes fd ∷ [])
          else start_engine k info fd d
    ]
  ]
]

unfoldable pub ve_close : Device → Device × List Call
ve_close d = elim d.ve.fd [
  | none ↦ (d, [])
  | some fd ↦ (
    record d { ve = record { fd = none; chunks = d.ve.chunks }; regs = 0 },
    Call.disables fd ∷ Call.releases_engine fd ∷ Call.unmaps d.regs ∷ Call.closes fd ∷ [],
  )
]

-- A call that waits for ever, or writes to registers that are not mapped, does not return.
pub data Returned (A : Type 0) : Type 0 where
  returns : A → Returned A
  blocks faults : Returned A

-- The registers are mapped at neither NULL nor MAP_FAILED.
abbrev pub no_registers : Device → Bool
no_registers d = (d.regs == 0) || (d.regs == map_failed)

-- `0x00130000 | (engine & 0xf) | (flags & ~0xf)`
unfoldable pub engine_word : (engine flags : ℕ) → ℕ
engine_word engine flags = bit_or (bit_or 0x130000 (engine % 16)) (flags / 16 * 16)

unfoldable pub ve_get : (engine flags : ℕ) → Device → Returned (ℕ × Device × List Call)
unfolding engine_word
ve_get engine flags d =
    if d.locked
    then blocks
    else if no_registers d
    then faults
    else returns
        (d.regs, record d { locked = true }, Call.writes (engine_word engine flags) d.regs ∷ [])

unfoldable pub ve_put : Device → Returned (Device × List Call)
ve_put d =
    if no_registers d
    then faults
    else returns (record d { locked = false }, Call.writes 0x130007 d.regs ∷ [])

-- The result of the ioctl is `answer`.
unfoldable pub ve_wait : (answer timeout : ℕ) → Device → ℕ × List Call
ve_wait answer timeout d = elim d.ve.fd [
  | none ↦ (0, [])
  | some fd ↦ (answer, Call.waits fd timeout ∷ [])
]

unfoldable pub ve_flush_cache : (start len : ℕ) → Device → List Call
ve_flush_cache start len d = elim d.ve.fd [
  | none ↦ []
  | some fd ↦ Call.flushes fd start ((start + len) % 2 ^ 32) ∷ []
]

-- The result of the ioctl is `answer`; on the descriptor -1 it is -1.
unfoldable pub ve_get_dma_vaddr : (answer dma_fd : ℕ) → Device → ℕ × List Call
ve_get_dma_vaddr answer dma_fd d = elim d.ve.fd [
  | none ↦ (2 ^ 32 - 1, [])
  | some fd ↦ (answer, Call.gets_dma_vaddr fd dma_fd ∷ [])
]

-- The result of the ioctl is not looked at.
unfoldable pub ve_put_dma_vaddrs : Device → List Call
ve_put_dma_vaddrs d = elim d.ve.fd [ none ↦ [] | some fd ↦ Call.puts_dma_vaddrs fd ∷ [] ]

unfoldable pub ve_get_version : Device → ℕ
ve_get_version d = d.version

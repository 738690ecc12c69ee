-- ===== src/Ve/Device/Tests.antt =====
-- The device opened, used and closed, with 32 pages of reserved memory.
use camview_opipc.Base.{◌*◌, ◌≡◌, refl, false, true, none, some, List, [], ◌∷◌}
use camview_opipc.Ve.Device.{
  Device, VeInfo, Kernel, Call, Returned, ve_open, ve_get, ve_flush_cache,
}
use camview_opipc.Ve.Device.Balance.{Event, held_by, account_all, happen, happen-held}

abbrev info : VeInfo
info = record { reserved_mem = 0xc400_0000; reserved_mem_size = 32 * 4096; registers = 0x01c0_e000 }

abbrev kernel : Kernel
kernel = record {
  opened = some 5;
  env_info = some info;
  registers_at = 0xb6f0_0000;
  version_word = 0x1680_0000;
}

abbrev silent : Kernel
silent = record kernel { env_info = none }

abbrev at_start : Device
at_start = record {
  ve = record { fd = none; chunks = record { phys_addr = 0; size = 0; virt_addr = 0 } ∷ [] };
  regs = 0;
  version = 0;
  locked = false;
}

opened_once : (ve_open kernel at_start).0 ≡ 1
unfolding ve_open
opened_once = refl

-- Opening again answers 0, as a failure does.
opened_twice : (ve_open kernel (ve_open kernel at_start).1).0 ≡ 0
unfolding ve_open
opened_twice = refl

get_before_open : ve_get 0 0 at_start ≡ Returned.faults
unfolding ve_get
get_before_open = refl

engine_taken :
    ve_get 0 0 (record at_start { regs = 0x1000 })
    ≡ Returned.returns
        (0x1000, record at_start { regs = 0x1000; locked = true }, Call.writes 0x130000 0x1000 ∷ [])
unfolding ve_get
engine_taken = refl

flushed :
    ve_flush_cache 0x2000 16 (record at_start { ve = record { fd = some 5; chunks = [] } })
    ≡ Call.flushes 5 0x2000 0x2010 ∷ []
unfolding ve_flush_cache
flushed = refl

abbrev events : List Event
events =
    Event.opening silent
    ∷ Event.opening kernel
    ∷ Event.opening kernel
    ∷ Event.closing
    ∷ Event.closing
    ∷ Event.opening kernel
    ∷ []

events_held :
    account_all (held_by at_start) (happen events at_start).1
    ≡ some (held_by (happen events at_start).0)
events_held = happen-held events at_start

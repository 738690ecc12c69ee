-- ===== src/Decode/Main/Rounds/Closed.antt =====
-- The rounds between `ve_open` and `ve_close`.
use camview_opipc.Base.{ℕ, ◌≡◌, ◌≢◌, refl, false, none, some, List, [], ◌∷◌, test_of_ne}
use camview_opipc.Ve.{Chunk, map_failed}
use camview_opipc.Ve.Device.{Device, Kernel, ve_open, ve_close, VeInfo, start_engine, set_first}
use camview_opipc.Decode.Main.{Decoder}
use camview_opipc.Decode.Main.Rounds.{Round, engine_run}
use camview_opipc.Decode.Main.Rounds.Idle.{
  IsIdle, AreDefined, LeavesDevice, LeavesDevice-then, rounds-idle,
}

start_engine-IsIdle :
    (k : Kernel) (info : VeInfo) (fd : ℕ) (dev : Device) (c : Chunk)
    → dev.ve.chunks ≡ c ∷ []
    → dev.locked ≡ false
    → k.registers_at ≢ 0
    → k.registers_at ≢ map_failed
    → IsIdle (start_engine k info fd dev).1
unfolding start_engine set_first
start_engine-IsIdle k info fd dev c first free nn mapped = record {
  registers = rw (test_of_ne k.registers_at 0 nn, test_of_ne k.registers_at map_failed mapped) refl;
  unlocked = free;
  coalesced = rw first tt;
}

ve_open-IsIdle :
    (k : Kernel) (info : VeInfo) (fd : ℕ) (dev : Device) (c : Chunk)
    → dev.ve.fd ≡ none
    → dev.ve.chunks ≡ c ∷ []
    → dev.locked ≡ false
    → k.opened ≡ some fd
    → k.env_info ≡ some info
    → k.registers_at ≢ 0
    → k.registers_at ≢ map_failed
    → IsIdle (ve_open k dev).1
unfolding ve_open
ve_open-IsIdle k info fd dev c closed first free opened env nn mapped =
    rw (closed, opened, env, test_of_ne k.registers_at map_failed mapped)
      (start_engine-IsIdle k info fd dev c first free nn mapped)

-- If `ve_open` opens the closed device, whose lock is free and whose chunk list is the first chunk
-- alone, and maps its registers, not at NULL, then any rounds return, none waits for the lock of the
-- engine for ever, and `ve_close` leaves the device as if there had been no round. Supposed are, for each round,
-- that the decoding of its frames is defined, that the input buffer, where there is one, is at the
-- address of no chunk, and that `terminate_display` returns, which waits for the display's thread.
pub engine_run-closes :
    (k : Kernel) (info : VeInfo) (fd : ℕ) (rs : List Round) (dev : Device) (d : Decoder) (c : Chunk)
    → dev.ve.fd ≡ none
    → dev.ve.chunks ≡ c ∷ []
    → dev.locked ≡ false
    → k.opened ≡ some fd
    → k.env_info ≡ some info
    → k.registers_at ≢ 0
    → k.registers_at ≢ map_failed
    → AreDefined rs (ve_open k dev).1 (record d { ve = (ve_open k dev).1.ve })
    → LeavesDevice (ve_close (ve_open k dev).1).0 (engine_run k rs dev d)
unfolding engine_run
engine_run-closes k info fd rs dev d c closed first free opened env nn mapped h =
    let up = (ve_open k dev).1 in
    LeavesDevice-then (LeavesDevice (ve_close up).0) up _ _
      (rounds-idle rs up (record d { ve = up.ve }) (ve_open k dev).2
        (ve_open-IsIdle k info fd dev c closed first free opened env nn mapped) h)
      λ e calls. refl

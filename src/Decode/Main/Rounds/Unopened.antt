-- ===== src/Decode/Main/Rounds/Unopened.antt =====
-- The rounds after a `ve_open` that failed, which `main` of src/main.c does not notice.
use camview_opipc.Base.{
  ℕ, ◌≡◌, refl, ◌∙◌, true, false, ◌==◌, none, List, ◌∷◌, if_true, if_false, Option-cases,
  Bool-cases, inl, inr, arith,
}
use camview_opipc.Ve.{map_failed}
use camview_opipc.Ve.Device.{Device, Kernel, Returned, ve_open, start_engine, ve_get, no_registers}
use camview_opipc.Decode.Main.{Decoder}
use camview_opipc.Decode.Main.Rounds.{
  Round, Machine, with_memory, engine_init, round, rounds, engine_run,
}

-- Nobody holds the lock, and the registers are not mapped.
abbrev IsUnmapped : Device → Type 0
IsUnmapped dev = (no_registers dev ≡ true) × (dev.locked ≡ false)

ve_get-IsUnmapped :
    (engine flags : ℕ) (dev : Device) → IsUnmapped dev → ve_get engine flags dev ≡ Returned.faults
unfolding ve_get
ve_get-IsUnmapped engine flags dev (regs, free) =
    if_false dev.locked _ _ free ∙ if_true (no_registers dev) _ _ regs

ve_open-IsUnmapped :
    (k : Kernel) (dev : Device)
    → dev.ve.fd ≡ none
    → dev.regs ≡ 0
    → dev.locked ≡ false
    → (ve_open k dev).0 ≡ 0
    → IsUnmapped (ve_open k dev).1
unfolding ve_open start_engine
ve_open-IsUnmapped k dev closed regs free failed = elim (Option-cases k.opened) [
  | inl e ↦ rw (closed, e, ve_open) (ground arith)
  | inr (fd, e) ↦ elim (Option-cases k.env_info) [
    | inl g ↦ rw (closed, e, g, ve_open) (ground arith)
    | inr (info, g) ↦ elim (Bool-cases (k.registers_at == map_failed)) [
      | inl m ↦ rw (closed, e, g, m, ve_open) (refl, free)
      | inr m ↦ absurd (cc (rw (closed, e, g, m, ve_open) at failed))
    ]
  ]
]

module _ (r : Round) (rs : List Round) (m : Machine) (out : IsUnmapped m.device) where
  engine_init-IsUnmapped : engine_init r m ≡ Returned.faults
  unfolding engine_init
  engine_init-IsUnmapped = rw (ve_get-IsUnmapped 0 0 m.device out) refl

  rounds-IsUnmapped : rounds (r ∷ rs) m ≡ Returned.faults
  unfolding rounds round
  rounds-IsUnmapped = rw engine_init-IsUnmapped refl

-- If `ve_open` fails for the closed device, whose lock is free and whose registers are not mapped, the
-- first round writes to registers that are not there.
pub engine_run-unopened :
    (k : Kernel) (r : Round) (rs : List Round) (dev : Device) (d : Decoder)
    → dev.ve.fd ≡ none
    → dev.regs ≡ 0
    → dev.locked ≡ false
    → (ve_open k dev).0 ≡ 0
    → engine_run k (r ∷ rs) dev d ≡ Returned.faults
unfolding engine_run
engine_run-unopened k r rs dev d closed regs free failed =
    let up = ve_open k dev in
    rw
      (rounds-IsUnmapped r rs (with_memory up.1 (record d { ve = up.1.ve }) up.2)
        (ve_open-IsUnmapped k dev closed regs free failed))
      refl

-- ===== src/Decode/Main/Rounds/Idle.antt =====
-- The engine between two rounds: the lock is free, and the memory is as `ve_open` has left it.
use mathlib.Core.Path.{subst}
use camview_opipc.Base.{
  ℕ, ◌≡◌, ◌≢◌, refl, sym, ap, ◌∙◌, Bool, true, false, some, List, [], ◌∷◌, if_false,
}
use camview_opipc.Ve.{Ve}
use camview_opipc.Ve.RoundTrip.{Coalesced, IsFresh}
use camview_opipc.Ve.Device.{Device, Call, Returned, ve_get, ve_put, no_registers, engine_word}
use camview_opipc.Decode.Main.{Decoder, hw_init, hw_close}
use camview_opipc.Decode.Main.Memory.{decode_all, hw_close-hw_init}
use camview_opipc.Decode.Main.Rounds.{
  Round, Machine, with_memory, engine_init, frames_decoded, engine_close, round, rounds, ◌and_then◌,
}

-- The registers are mapped, nobody holds the lock, and no two free chunks stand side by side.
pub record IsIdle (dev : Device) : Type 0 where
  pub registers : no_registers dev ≡ false
  pub unlocked : dev.locked ≡ false
  pub coalesced : Coalesced dev.ve.chunks

-- The decoder after `hw_init`.
abbrev pub initialized : Round → Device → Decoder → Decoder
initialized r dev d = hw_init r.mmap r.width r.height (record d { ve = dev.ve })

-- The input buffer of each round, where there is one, is at the address of no chunk, the decoding of
-- its frames is defined, and `terminate_display` returns.
abbrev pub AreDefined : List Round → Device → Decoder → Type 0
AreDefined [] dev d = Unit
AreDefined (r ∷ rs) dev d =
    ((initialized r dev d).input_buffer ≢ 0
      → IsFresh (initialized r dev d).input_buffer dev.ve.chunks)
    × (r.display_ends ≡ true)
    × (e : Decoder) × (decode_all r.frames (initialized r dev d) ≡ some e)
    × AreDefined rs dev (hw_close e)

-- It returns, and leaves the device and the decoder given.
abbrev pub Leaves : Device → Decoder → Returned Machine → Type 0
Leaves dev d (Returned.returns m) = (m.device ≡ dev) × (m.decoder ≡ d)
Leaves dev d Returned.blocks = ⊥
Leaves dev d Returned.faults = ⊥

machine_eta :
    (dev : Device) (d : Decoder) (m : Machine)
    → m.device ≡ dev
    → m.decoder ≡ d
    → m ≡ record { device = dev; decoder = d; calls = m.calls }
machine_eta dev d m a b =
    ap (λ (x : Device). record m { device = x }) a
    ∙ ap (λ (x : Decoder). record m { device = dev; decoder = x }) b

Leaves-then :
    (P : Returned Machine → Type 0) (dev : Device) (d : Decoder) (r : Returned Machine)
    (f : Machine → Returned Machine)
    → Leaves dev d r
    → ((calls : List Call) → P (f (record { device = dev; decoder = d; calls = calls })))
    → P (r and_then f)
Leaves-then P dev d (Returned.returns m) f (a, b) h =
    subst (λ x. P (f x)) (sym (machine_eta dev d m a b)) (h m.calls)
Leaves-then P dev d Returned.blocks f l h = absurd l
Leaves-then P dev d Returned.faults f l h = absurd l

module _ (engine flags : ℕ) (dev : Device) where
  ve_get-free :
      no_registers dev ≡ false
      → dev.locked ≡ false
      → ve_get engine flags dev
        ≡ Returned.returns (
          dev.regs,
          record dev { locked = true },
          Call.writes (engine_word engine flags) dev.regs ∷ [],
        )
  unfolding ve_get
  ve_get-free regs free = if_false dev.locked _ _ free ∙ if_false (no_registers dev) _ _ regs

ve_put-held :
    (dev : Device)
    → no_registers dev ≡ false
    → ve_put dev
      ≡ Returned.returns (record dev { locked = false }, Call.writes 0x130007 dev.regs ∷ [])
unfolding ve_put
ve_put-held dev regs = if_false (no_registers dev) _ _ regs

frames_decoded-defined :
    (r : Round) (m : Machine) (e : Decoder)
    → decode_all r.frames m.decoder ≡ some e
    → frames_decoded r m ≡ Returned.returns (with_memory m.device e m.calls)
unfolding frames_decoded
frames_decoded-defined r m e h = rw h refl

-- A device that is idle is its own state with the lock free and its memory.
idle_eta :
    (dev : Device) (ve : Ve)
    → dev.locked ≡ false
    → ve ≡ dev.ve
    → record dev { locked = false; ve = ve } ≡ dev
idle_eta dev ve free same =
    ap (λ (l : Bool). record dev { locked = l; ve = ve }) (sym free)
    ∙ ap (λ (v : Ve). record dev { ve = v }) same

module _ (r : Round) (dev : Device) (idle : IsIdle dev) where
  engine_init-idle :
      (d : Decoder) (calls : List Call)
      → Leaves
          (record dev { locked = true; ve = (initialized r dev d).ve })
          (initialized r dev d)
          (engine_init r (record { device = dev; decoder = d; calls = calls }))
  unfolding engine_init
  engine_init-idle d calls = rw (ve_get-free 0 0 dev idle.registers idle.unlocked) (refl, refl)

  frames_decoded-held :
      (d e : Decoder) (ve : Ve) (calls : List Call)
      → decode_all r.frames d ≡ some e
      → Leaves
          (record dev { locked = true; ve = e.ve })
          e
          (frames_decoded r
            (record { device = record dev { locked = true; ve = ve }; decoder = d; calls = calls }))
  unfolding frames_decoded
  frames_decoded-held d e ve calls h = rw h (refl, refl)

  engine_close-held :
      (e : Decoder) (ve : Ve) (calls : List Call)
      → (hw_close e).ve ≡ dev.ve
      → r.display_ends ≡ true
      → Leaves dev (hw_close e) (
          engine_close r
            (record { device = record dev { locked = true; ve = ve }; decoder = e; calls = calls }))
  unfolding engine_close
  engine_close-held e ve calls back ends =
      rw (ve_put-held (record dev { locked = true; ve = ve }) idle.registers, ends)
        (idle_eta dev (hw_close e).ve idle.unlocked back, refl)

  round-idle :
      (d e : Decoder) (calls : List Call)
      → ((initialized r dev d).input_buffer ≢ 0
          → IsFresh (initialized r dev d).input_buffer dev.ve.chunks)
      → r.display_ends ≡ true
      → decode_all r.frames (initialized r dev d) ≡ some e
      → Leaves dev (hw_close e) (round r (record { device = dev; decoder = d; calls = calls }))
  unfolding round
  round-idle d e calls fresh ends h =
      let start = initialized r dev d in
      let back =
        hw_close-hw_init r.mmap r.width r.height r.frames (record d { ve = dev.ve }) e
          idle.coalesced fresh h in
      Leaves-then (Leaves dev (hw_close e)) (record dev { locked = true; ve = start.ve }) start _ _
        (engine_init-idle d calls)
        λ taken.
          Leaves-then (Leaves dev (hw_close e)) (record dev { locked = true; ve = e.ve }) e _ _
            (frames_decoded-held start e start.ve taken h)
            λ used. engine_close-held e e.ve used back ends

-- It returns, and leaves the device given.
abbrev pub LeavesDevice : Device → Returned Machine → Type 0
LeavesDevice dev (Returned.returns m) = m.device ≡ dev
LeavesDevice dev Returned.blocks = ⊥
LeavesDevice dev Returned.faults = ⊥

pub LeavesDevice-then :
    (P : Returned Machine → Type 0) (dev : Device) (r : Returned Machine)
    (f : Machine → Returned Machine)
    → LeavesDevice dev r
    → ((d : Decoder) (calls : List Call)
        → P (f (record { device = dev; decoder = d; calls = calls })))
    → P (r and_then f)
LeavesDevice-then P dev (Returned.returns m) f a h =
    subst (λ x. P (f x)) (sym (machine_eta dev m.decoder m a refl)) (h m.decoder m.calls)
LeavesDevice-then P dev Returned.blocks f l h = absurd l
LeavesDevice-then P dev Returned.faults f l h = absurd l

-- Every round returns and leaves the device as it was.
pub rounds-idle :
    (rs : List Round) (dev : Device) (d : Decoder) (calls : List Call)
    → IsIdle dev
    → AreDefined rs dev d
    → LeavesDevice dev (rounds rs (record { device = dev; decoder = d; calls = calls }))
unfolding rounds
rounds-idle [] dev d calls idle h = refl
rounds-idle (r ∷ rs) dev d calls idle (fresh, ends, e, decoded, later) =
    Leaves-then (LeavesDevice dev) dev (hw_close e) _ (rounds rs)
      (round-idle r dev idle d e calls fresh ends decoded)
      λ calls'. rounds-idle rs dev (hw_close e) calls' idle later

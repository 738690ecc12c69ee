-- ===== src/Decode/Main/Rounds/Held.antt =====
-- What the program holds of the kernel after the rounds between `ve_open` and `ve_close`.
use camview_opipc.Base.{
  ℕ, ◌≡◌, refl, sym, ap, ◌∙◌, true, Option, none, some, List, [], ◌∷◌, ◌++◌, ◌*◌, if_both,
  Option-cases, inl, inr,
}
use camview_opipc.Ve.{Ve}
use camview_opipc.Ve.Session.{ve_malloc-fd, ve_free-fd}
use camview_opipc.Ve.Device.{
  Device, Kernel, Call, Returned, ve_open, ve_close, ve_get, ve_put, ve_put_dma_vaddrs,
  no_registers,
}
use camview_opipc.Ve.Registers.{Engine, engine_number}
use camview_opipc.Ve.Device.Balance.{
  Held, nothing, account_all, held_by, account_all-append, ve_open-held, ve_close-held,
}
use camview_opipc.Decode.Frame.{round_up}
use camview_opipc.Decode.Main.{Decoder, hw_init, hw_close}
use camview_opipc.Decode.Main.Memory.{decode_all, decode_all-same}
use camview_opipc.Decode.Main.Rounds.{
  Round, Machine, with_memory, engine_init, frames_decoded, engine_close, closing_calls, round,
  rounds, engine_run, ◌and_then◌,
}

-- If it returns, what it returns satisfies `P`.
abbrev pub OnReturn : {A : Type 0} → (A → Type 0) → Returned A → Type 0
OnReturn P (Returned.returns a) = P a
OnReturn P Returned.blocks = Unit
OnReturn P Returned.faults = Unit

OnReturn-then :
    {A B : Type 0} (P : A → Type 0) (Q : B → Type 0) (r : Returned A) (f : A → Returned B)
    → OnReturn P r
    → ((a : A) → P a → OnReturn Q (f a))
    → OnReturn Q (r and_then f)
OnReturn-then P Q (Returned.returns a) f p h = h a p
OnReturn-then P Q Returned.blocks f p h = tt
OnReturn-then P Q Returned.faults f p h = tt

-- What is held depends on the descriptor and the registers only.
abbrev hold : Option ℕ → ℕ → Held
hold fd regs = elim fd [
  | none ↦ nothing
  | some f ↦ record { fd = some f; regs = some regs; engine = some f }
]

held_by-same :
    (dev dev' : Device) → dev'.ve.fd ≡ dev.ve.fd → dev'.regs ≡ dev.regs → held_by dev' ≡ held_by dev
held_by-same dev dev' e f = ap (λ fd. hold fd dev'.regs) e ∙ ap (hold dev.ve.fd) f

-- Calls that change nothing of what is held.
account_more :
    (h h' : Held) (calls more : List Call)
    → account_all h calls ≡ some h'
    → account_all h' more ≡ some h'
    → account_all h (calls ++ more) ≡ some h'
account_more h h' calls more e f = account_all-append h calls more ∙ rw (e, f) refl

-- The device of the answer has the memory and the registers of `dev`, and the calls change nothing of
-- what is held.
record Harmless (dev dev' : Device) (now : List Call) : Type 0 where
  same_ve : dev'.ve ≡ dev.ve
  same_regs : dev'.regs ≡ dev.regs
  neutral : (h : Held) → account_all h now ≡ some h

ve_get-Harmless :
    (engine flags : ℕ) (dev : Device)
    → OnReturn (λ r. Harmless dev r.1 r.2) (ve_get engine flags dev)
unfolding ve_get account_all
ve_get-Harmless engine flags dev =
    let P = λ (r : ℕ × Device × List Call). Harmless dev r.1 r.2 in
    if_both (OnReturn P) dev.locked _ _ tt (
      if_both (OnReturn P) (no_registers dev) _ _ tt
        (record { same_ve = refl; same_regs = refl; neutral = λ h. refl }))

ve_put-Harmless : (dev : Device) → OnReturn (λ r. Harmless dev r.0 r.1) (ve_put dev)
unfolding ve_put account_all
ve_put-Harmless dev =
    if_both (OnReturn (λ r. Harmless dev r.0 r.1)) (no_registers dev) _ _ tt
      (record { same_ve = refl; same_regs = refl; neutral = λ h. refl })

ve_put_dma_vaddrs-neutral :
    (dev : Device) (h : Held) → account_all h (ve_put_dma_vaddrs dev) ≡ some h
unfolding ve_put_dma_vaddrs account_all
ve_put_dma_vaddrs-neutral dev h = elim (Option-cases dev.ve.fd) [
  | inl e ↦ rw (e, ve_put_dma_vaddrs) refl
  | inr (fd, e) ↦ rw (e, ve_put_dma_vaddrs) refl
]

closing_calls-neutral : (dev : Device) (h : Held) → account_all h (closing_calls dev) ≡ some h
unfolding closing_calls account_all
closing_calls-neutral dev h =
    account_more h h (ve_put_dma_vaddrs dev) (Call.deallocates_buffers ∷ [])
      (ve_put_dma_vaddrs-neutral dev h) refl

module _ (start : Held) where
  -- The calls account for what the device holds, and the decoder uses the memory of the device.
  record IsHeld (m : Machine) : Type 0 where
    accounted : account_all start m.calls ≡ some (held_by m.device)
    shared : m.decoder.ve ≡ m.device.ve

  -- A step whose calls are harmless, and which leaves the descriptor.
  with_memory-IsHeld :
      (m : Machine) (dev : Device) (d : Decoder) (now : List Call)
      → IsHeld m
      → Harmless m.device dev now
      → d.ve.fd ≡ m.device.ve.fd
      → IsHeld (with_memory dev d (m.calls ++ now))
  with_memory-IsHeld m dev d now h k e = record {
    accounted =
        account_more start (held_by m.device) m.calls now h.accounted (k.neutral (held_by m.device))
        ∙ ap some (sym (held_by-same m.device (record dev { ve = d.ve }) e k.same_regs));
    shared = refl;
  }

  engine_init-IsHeld : (r : Round) (m : Machine) → IsHeld m → OnReturn IsHeld (engine_init r m)
  unfolding engine_init hw_init
  engine_init-IsHeld r m h =
      OnReturn-then (λ x. Harmless m.device x.1 x.2) IsHeld
        (ve_get (engine_number Engine.mpeg) 0 m.device) _
        (ve_get-Harmless (engine_number Engine.mpeg) 0 m.device)
        λ (regs, dev, now) k.
          with_memory-IsHeld m dev
            (hw_init r.mmap r.width r.height (record m.decoder { ve = dev.ve })) now h k
            (ve_malloc-fd r.mmap dev.ve (round_up 65536 (r.width * r.height * 3)) true
              ∙ ap (λ (v : Ve). v.fd) k.same_ve)

  frames_decoded-IsHeld :
      (r : Round) (m : Machine) → IsHeld m → OnReturn IsHeld (frames_decoded r m)
  unfolding frames_decoded
  frames_decoded-IsHeld r m h = elim (Option-cases (decode_all r.frames m.decoder)) [
    | inl n ↦ rw n tt
    | inr (e, n) ↦ rw n (record {
      accounted =
          h.accounted
          ∙ ap some (
              sym (
                held_by-same m.device (record m.device { ve = e.ve })
                  (ap (λ (v : Ve). v.fd) ((decode_all-same r.frames m.decoder e n).0 ∙ h.shared))
                  refl));
      shared = refl;
    })
  ]

  engine_close-IsHeld : (r : Round) (m : Machine) → IsHeld m → OnReturn IsHeld (engine_close r m)
  unfolding engine_close hw_close
  engine_close-IsHeld r m h =
      OnReturn-then (λ x. Harmless m.device x.0 x.1) IsHeld (ve_put m.device) _
        (ve_put-Harmless m.device)
        λ (dev, now) k.
          if_both (OnReturn IsHeld) r.display_ends _ _
            (record {
              accounted =
                  account_more start (held_by m.device) (m.calls ++ now) (closing_calls dev)
                    (account_more start (held_by m.device) m.calls now h.accounted
                      (k.neutral (held_by m.device)))
                    (closing_calls-neutral dev (held_by m.device))
                  ∙ ap some (
                      sym (
                        held_by-same m.device (record dev { ve = (hw_close m.decoder).ve })
                          (ve_free-fd m.decoder.ve m.decoder.input_buffer
                            ∙ ap (λ (v : Ve). v.fd) h.shared)
                          k.same_regs));
              shared = refl;
            })
            tt

  round-IsHeld : (r : Round) (m : Machine) → IsHeld m → OnReturn IsHeld (round r m)
  unfolding round
  round-IsHeld r m h =
      OnReturn-then IsHeld IsHeld (engine_init r m) _ (engine_init-IsHeld r m h) λ m1 h1.
        OnReturn-then IsHeld IsHeld (frames_decoded r m1) (engine_close r)
          (frames_decoded-IsHeld r m1 h1) (engine_close-IsHeld r)

  rounds-IsHeld : (rs : List Round) (m : Machine) → IsHeld m → OnReturn IsHeld (rounds rs m)
  unfolding rounds
  rounds-IsHeld [] m h = h
  rounds-IsHeld (r ∷ rs) m h =
      OnReturn-then IsHeld IsHeld (round r m) (rounds rs) (round-IsHeld r m h) (rounds-IsHeld rs)

-- Whatever the kernel answers, if the run from `ve_open` over any rounds to `ve_close` returns, the
-- program holds what the state of the device says, the descriptor, the mapping at `regs` and the
-- engine if the device is open and nothing if it is closed, and has taken nothing twice and given
-- back only what it held.
pub engine_run-held :
    (k : Kernel) (rs : List Round) (dev : Device) (d : Decoder)
    → OnReturn
        (λ m. account_all (held_by dev) m.calls ≡ some (held_by m.device))
        (engine_run k rs dev d)
unfolding engine_run
engine_run-held k rs dev d =
    let up = ve_open k dev in
    let m0 = with_memory up.1 (record d { ve = up.1.ve }) up.2 in
    OnReturn-then (IsHeld (held_by dev))
      (λ m. account_all (held_by dev) m.calls ≡ some (held_by m.device)) (rounds rs m0) _
      (rounds-IsHeld (held_by dev) rs m0 (record { accounted = ve_open-held k dev; shared = refl }))
      λ m h.
        account_all-append (held_by dev) m.calls (ve_close m.device).1
        ∙ rw h.accounted (ve_close-held m.device)

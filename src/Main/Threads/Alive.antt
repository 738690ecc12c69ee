-- ===== src/Main/Threads/Alive.antt =====
-- While a thread of src/main.c that has not been cancelled runs, the camera's buffers are mapped.
use camview_opipc.Base.{◌≡◌, refl, Bool, true, false, ◌⊎◌, inl, inr, List, [], ◌∷◌, All, arith}
use camview_opipc.Main.Capture.{Flags}
use camview_opipc.Main.Threads.{MainPc, ThreadPc, Thread, Program, Event, pc_at, events, at_start}
use camview_opipc.Main.Threads.Sound.{
  settled, IsSettled, capture_window, control_window, in_use, events-IsSound, at_start-IsSound,
}

All-map-settled :
    (m : Bool) (ts : List Thread)
    → All (λ t. settled t ≡ true) ts
    → All (λ t. (settled t ≡ true) ⊎ (m ≡ true)) ts
All-map-settled m [] all = _
All-map-settled m (t ∷ ts) (h, all) = (inl h, All-map-settled m ts all)

settled-or-mapped :
    (w m : Bool) (ts : List Thread)
    → (w ≡ true → m ≡ true)
    → IsSettled w ts
    → All (λ t. (settled t ≡ true) ⊎ (m ≡ true)) ts
settled-or-mapped w m [] held all = _
settled-or-mapped w m (t ∷ ts) held (inl e, all) = (inr (held e), All-map-settled m ts all)
settled-or-mapped w m (t ∷ ts) held (inr e, all) = (inl e, All-map-settled m ts all)

capture_window-in_use : (pc : MainPc) → capture_window pc ≡ true → in_use pc ≡ true
unfolding capture_window in_use
capture_window-in_use pc h = ground arith

control_window-in_use : (pc : MainPc) → control_window pc ≡ true → in_use pc ≡ true
unfolding control_window in_use
control_window-in_use pc h = ground arith

-- After any schedule, each thread that has been created has ended or been cancelled, or the camera's
-- buffers are mapped.
pub events-mapped :
    (es : List Event)
    → let p = events es at_start in
      All (λ t. (settled t ≡ true) ⊎ (p.mapped ≡ true)) p.captures
      × All (λ t. (settled t ≡ true) ⊎ (p.mapped ≡ true)) p.controls
events-mapped es =
    let p = events es at_start in
    let h = events-IsSound es at_start at_start-IsSound in
    (
      settled-or-mapped (capture_window p.main) p.mapped p.captures
          (λ e. h.in_use_mapped (capture_window-in_use p.main e)) h.captures_settled,
      settled-or-mapped (control_window p.main) p.mapped p.controls
          (λ e. h.in_use_mapped (control_window-in_use p.main e)) h.controls_settled,
    )

-- If a capture thread still decodes when `main` gives up to join it, and is not scheduled until `main`
-- has cleaned up, it then decodes from buffers that are no longer mapped.
pub decode-unmapped :
    (flags : Flags) (ts controls : List Thread) (mapped cancelled : Bool)
    → let t : Thread = record { pc = ThreadPc.decode; cancelled = cancelled } in
      let p : Program = record {
        main = MainPc.join_capture;
        flags = flags;
        captures = t ∷ ts;
        controls = controls;
        mapped = mapped;
      } in
      let q =
        events (Event.main_steps true ∷ Event.main_steps true ∷ Event.main_steps true ∷ []) p in
      (q.mapped ≡ false) × (pc_at 0 q.captures ≡ ThreadPc.decode)
unfolding events
decode-unmapped flags ts controls mapped cancelled = (refl, refl)

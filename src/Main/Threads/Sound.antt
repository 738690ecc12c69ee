-- ===== src/Main/Threads/Sound.antt =====
-- The invariant of the schedules of src/main.c: which threads can run, and when the buffers are mapped.
use camview_opipc.Base.{
  ℕ, zero, suc, ◌≡◌, refl, Bool, true, false, ◌||◌, ◌⊎◌, inl, inr, List, [], ◌∷◌, All, arith,
  if_both,
}
use camview_opipc.Main.Capture.{Flags, main_waits}
use camview_opipc.Main.Threads.{
  MainPc, ThreadPc, Thread, Program, Event, new_thread, is_ended, joined, main_step, capture_step,
  control_step, change, pc_at, at_pc, cancel, event, events, at_start,
}

-- The thread has ended, or has been cancelled.
unfoldable pub settled : Thread → Bool
unfolding is_ended
settled t = is_ended t.pc || t.cancelled

-- All threads but the last one have ended or been cancelled, and that one too outside of the window.
abbrev pub IsSettled : (window : Bool) → List Thread → Type 0
IsSettled window [] = Unit {0}
IsSettled window (t ∷ ts) = ((window ≡ true) ⊎ (settled t ≡ true)) × All (λ u. settled u ≡ true) ts

-- From the creation of the thread until it is joined.
unfoldable pub capture_window : MainPc → Bool
capture_window MainPc.create_control = true
capture_window MainPc.wait = true
capture_window MainPc.join_capture = true
capture_window pc = false

unfoldable pub control_window : MainPc → Bool
control_window MainPc.wait = true
control_window MainPc.join_capture = true
control_window MainPc.join_control = true
control_window pc = false

-- From the end of the set-up to the clean-up.
unfoldable pub in_use : MainPc → Bool
in_use MainPc.start = false
in_use MainPc.test_device = false
in_use MainPc.set_up = false
in_use MainPc.close = false
in_use MainPc.finished = false
in_use pc = true

pub record IsSound (pc : MainPc) (captures controls : List Thread) (mapped : Bool) : Type 0 where
  pub captures_settled : IsSettled (capture_window pc) captures
  pub controls_settled : IsSettled (control_window pc) controls
  pub in_use_mapped : in_use pc ≡ true → mapped ≡ true

abbrev pub SoundProgram : Program → Type 0
SoundProgram p = IsSound p.main p.captures p.controls p.mapped

module _ (f : Thread → Thread)
    (keeps : (t : Thread) → settled t ≡ true → settled (f t) ≡ true) where
  change-All :
      (i : ℕ) (ts : List Thread)
      → All (λ u. settled u ≡ true) ts
      → All (λ u. settled u ≡ true) (change i f ts)
  unfolding change
  change-All i [] all = _
  change-All zero (t ∷ ts) (h, all) = (keeps t h, all)
  change-All (suc i) (t ∷ ts) (h, all) = (h, change-All i ts all)

  change-IsSettled :
      (w : Bool) (i : ℕ) (ts : List Thread) → IsSettled w ts → IsSettled w (change i f ts)
  unfolding change
  change-IsSettled w i [] all = _
  change-IsSettled w zero (t ∷ ts) (inl open_window, all) = (inl open_window, all)
  change-IsSettled w zero (t ∷ ts) (inr h, all) = (inr (keeps t h), all)
  change-IsSettled w (suc i) (t ∷ ts) (h, all) = (h, change-All i ts all)

cancel-settled : (t : Thread) → settled t ≡ true → settled (cancel t) ≡ true
unfolding settled cancel
cancel-settled t h = ground arith

-- A step of a thread that has ended leaves it so.
module _ (next : ThreadPc → ThreadPc) (stays : next ThreadPc.ended ≡ ThreadPc.ended) where
  next-settled :
      (pc : ThreadPc) (c : Bool) → is_ended pc || c ≡ true → is_ended (next pc) || c ≡ true
  unfolding is_ended
  next-settled ThreadPc.ended c h = rw stays refl
  next-settled ThreadPc.begin c h = ground arith
  next-settled ThreadPc.test c h = ground arith
  next-settled ThreadPc.work c h = ground arith
  next-settled ThreadPc.decode c h = ground arith
  next-settled ThreadPc.stop c h = ground arith

  step-settled : (t : Thread) → settled t ≡ true → settled (at_pc (next t.pc) t) ≡ true
  unfolding settled
  step-settled t h = next-settled t.pc t.cancelled h

  step-All :
      (i : ℕ) (ts : List Thread)
      → All (λ u. settled u ≡ true) ts
      → All (λ u. settled u ≡ true) (change i (at_pc (next (pc_at i ts))) ts)
  unfolding change pc_at
  step-All i [] all = _
  step-All zero (t ∷ ts) (h, all) = (step-settled t h, all)
  step-All (suc i) (t ∷ ts) (h, all) = (h, step-All i ts all)

  step-IsSettled :
      (w : Bool) (i : ℕ) (ts : List Thread)
      → IsSettled w ts
      → IsSettled w (change i (at_pc (next (pc_at i ts))) ts)
  unfolding change pc_at
  step-IsSettled w i [] all = _
  step-IsSettled w zero (t ∷ ts) (inl open_window, all) = (inl open_window, all)
  step-IsSettled w zero (t ∷ ts) (inr h, all) = (inr (step-settled t h), all)
  step-IsSettled w (suc i) (t ∷ ts) (h, all) = (h, step-All i ts all)

all_settled : (ts : List Thread) → IsSettled false ts → All (λ u. settled u ≡ true) ts
all_settled [] h = _
all_settled (t ∷ ts) (inl e, all) = absurd (cc)
all_settled (t ∷ ts) (inr h, all) = (h, all)

create-IsSettled : (ts : List Thread) → IsSettled false ts → IsSettled true (new_thread ∷ ts)
create-IsSettled ts h = (inl refl, all_settled ts h)

joined-IsSettled : (w v : Bool) (ts : List Thread) → IsSettled w ts → IsSettled v (joined ts)
unfolding joined settled
joined-IsSettled w v [] h = _
joined-IsSettled w v (t ∷ ts) (h, all) = (inr (ground arith), all)

-- Outside of the windows, only `in_use` matters.
idle-IsSound :
    (pc : MainPc) (captures controls : List Thread) (mapped : Bool)
    → IsSettled false captures
    → IsSettled false controls
    → (in_use pc ≡ true → mapped ≡ true)
    → capture_window pc ≡ false
    → control_window pc ≡ false
    → IsSound pc captures controls mapped
idle-IsSound pc captures controls mapped a b m c d = record {
  captures_settled = rw c a;
  controls_settled = rw d b;
  in_use_mapped = m;
}

capture-stays : (ok : Bool) (f : Flags) → (capture_step ok ThreadPc.ended f).0 ≡ ThreadPc.ended
unfolding capture_step
capture-stays true f = refl
capture-stays false f = refl

control-stays : (f : Flags) → control_step ThreadPc.ended f ≡ ThreadPc.ended
unfolding control_step
control-stays f = refl

main_step-IsSound :
    (ok : Bool) (pc : MainPc) (p : Program)
    → IsSound pc p.captures p.controls p.mapped
    → SoundProgram (main_step ok pc p)
unfolding main_step capture_window control_window in_use
main_step-IsSound ok MainPc.start p h =
    idle-IsSound _ _ _ _ h.captures_settled h.controls_settled (λ e. absurd (cc)) refl refl
main_step-IsSound ok MainPc.test_device p h =
    if_both (λ pc. IsSound pc p.captures p.controls p.mapped) p.flags.device_loop_run _ _
      (idle-IsSound _ _ _ _ h.captures_settled h.controls_settled (λ e. absurd (cc)) refl refl)
      (idle-IsSound _ _ _ _ h.captures_settled h.controls_settled (λ e. absurd (cc)) refl refl)
main_step-IsSound true MainPc.set_up p h =
    idle-IsSound _ _ _ _ h.captures_settled h.controls_settled (λ e. refl) refl refl
main_step-IsSound false MainPc.set_up p h =
    idle-IsSound _ _ _ _ h.captures_settled h.controls_settled (λ e. absurd (cc)) refl refl
main_step-IsSound ok MainPc.set_capture_run p h =
    idle-IsSound _ _ _ _ h.captures_settled h.controls_settled (λ e. h.in_use_mapped refl) refl refl
main_step-IsSound ok MainPc.set_control_run p h =
    idle-IsSound _ _ _ _ h.captures_settled h.controls_settled (λ e. h.in_use_mapped refl) refl refl
main_step-IsSound ok MainPc.create_capture p h = record {
  captures_settled = create-IsSettled p.captures h.captures_settled;
  controls_settled = h.controls_settled;
  in_use_mapped = λ e. h.in_use_mapped refl;
}
main_step-IsSound ok MainPc.create_control p h = record {
  captures_settled = h.captures_settled;
  controls_settled = create-IsSettled p.controls h.controls_settled;
  in_use_mapped = λ e. h.in_use_mapped refl;
}
main_step-IsSound ok MainPc.wait p h =
    if_both (λ pc. IsSound pc p.captures p.controls p.mapped) (main_waits p.flags) _ _ h
      (record {
        captures_settled = h.captures_settled;
        controls_settled = h.controls_settled;
        in_use_mapped = λ e. h.in_use_mapped refl;
      })
main_step-IsSound ok MainPc.join_capture p h = record {
  captures_settled = joined-IsSettled true false p.captures h.captures_settled;
  controls_settled = h.controls_settled;
  in_use_mapped = λ e. h.in_use_mapped refl;
}
main_step-IsSound ok MainPc.join_control p h = record {
  captures_settled = h.captures_settled;
  controls_settled = joined-IsSettled true false p.controls h.controls_settled;
  in_use_mapped = λ e. h.in_use_mapped refl;
}
main_step-IsSound ok MainPc.clean_up p h =
    idle-IsSound _ _ _ _ h.captures_settled h.controls_settled (λ e. absurd (cc)) refl refl
main_step-IsSound true MainPc.close p h =
    idle-IsSound _ _ _ _ h.captures_settled h.controls_settled (λ e. absurd (cc)) refl refl
main_step-IsSound false MainPc.close p h = h
main_step-IsSound ok MainPc.finished p h =
    idle-IsSound _ _ _ _ h.captures_settled h.controls_settled (λ e. absurd (cc)) refl refl

event-IsSound : (e : Event) (p : Program) → SoundProgram p → SoundProgram (event e p)
unfolding event
event-IsSound (Event.main_steps ok) p h = main_step-IsSound ok p.main p h
event-IsSound (Event.capture_steps i ok) p h = record {
  captures_settled =
      step-IsSettled (λ pc. (capture_step ok pc p.flags).0) (capture-stays ok p.flags) _ i
        p.captures h.captures_settled;
  controls_settled = h.controls_settled;
  in_use_mapped = h.in_use_mapped;
}
event-IsSound (Event.control_steps i) p h = record {
  captures_settled = h.captures_settled;
  controls_settled =
      step-IsSettled (λ pc. control_step pc p.flags) (control-stays p.flags) _ i p.controls
        h.controls_settled;
  in_use_mapped = h.in_use_mapped;
}
event-IsSound (Event.capture_cancelled i) p h = record {
  captures_settled = change-IsSettled cancel cancel-settled _ i p.captures h.captures_settled;
  controls_settled = h.controls_settled;
  in_use_mapped = h.in_use_mapped;
}
event-IsSound (Event.control_cancelled i) p h = record {
  captures_settled = h.captures_settled;
  controls_settled = change-IsSettled cancel cancel-settled _ i p.controls h.controls_settled;
  in_use_mapped = h.in_use_mapped;
}
event-IsSound Event.sigint p h = h

pub events-IsSound : (es : List Event) (p : Program) → SoundProgram p → SoundProgram (events es p)
unfolding events
events-IsSound [] p h = h
events-IsSound (e ∷ es) p h = events-IsSound es (event e p) (event-IsSound e p h)

pub at_start-IsSound : SoundProgram at_start
unfolding capture_window control_window in_use
at_start-IsSound = idle-IsSound _ _ _ _ _ _ (λ e. absurd (cc)) refl refl

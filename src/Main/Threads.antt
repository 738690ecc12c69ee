-- ===== src/Main/Threads.antt =====
-- src/main.c: `main` beside the capture thread, the control thread and SIGINT. A schedule is a list of
-- events, each the next step of one of them; the steps are the places between which the others can
-- read or write what is shared. A thread that has been cancelled goes on until the cancellation
-- takes effect, also beside the thread of a later round.
pub mod Sound
pub mod Alive
pub mod Stop
mod Tests
use camview_opipc.Base.{
  ℕ, zero, suc, ◌+◌, Bool, true, false, not, ◌&&◌, ◌||◌, List, [], ◌∷◌, if◌then◌else◌,
}
use camview_opipc.Main.Capture.{Flags, signal_callback_handler, stopped, main_waits}

-- Where `main` is, by its next step.
pub data MainPc : Type 0 where
  start test_device set_up set_capture_run set_control_run : MainPc
  create_capture create_control wait join_capture join_control clean_up close finished : MainPc

-- Where a thread is. `work` is `VIDIOC_DQBUF`, or a round of `control_loop`; `decode` is
-- `hw_decode_jpeg_main` with `VIDIOC_QBUF`; `stop` is what follows the loop.
pub data ThreadPc : Type 0 where
  begin test work decode stop ended : ThreadPc

pub record Thread : Type 0 where
  pub pc : ThreadPc
  pub cancelled : Bool

-- The threads that have been created, the last first, and whether the camera's buffers are mapped.
pub record Program : Type 0 where
  pub main : MainPc
  pub flags : Flags
  pub captures : List Thread
  pub controls : List Thread
  pub mapped : Bool

-- `ok` is the result of what a step tries: the set-up of the camera, `VIDIOC_STREAMON`, and
-- `VIDIOC_DQBUF`; at `close`, which is `hw_close` and `stop_cec_controls`, if their `pthread_join`
-- calls return. A thread is chosen by its place in the list.
pub data Event : Type 0 where
  main_steps : (ok : Bool) → Event
  capture_steps : (i : ℕ) (ok : Bool) → Event
  control_steps : (i : ℕ) → Event
  capture_cancelled control_cancelled : (i : ℕ) → Event
  sigint : Event

abbrev pub new_thread : Thread
new_thread = record { pc = ThreadPc.begin; cancelled = false }

unfoldable pub is_ended : ThreadPc → Bool
is_ended ThreadPc.ended = true
is_ended pc = false

-- `pthread_timedjoin_np`: a thread that has not ended in time is cancelled.
unfoldable pub joined : List Thread → List Thread
unfolding is_ended
joined [] = []
joined (t ∷ ts) = record t { cancelled = t.cancelled || not (is_ended t.pc) } ∷ ts

unfoldable pub main_step : (ok : Bool) → MainPc → Program → Program
unfolding joined
main_step ok MainPc.start p = record p {
  main = MainPc.test_device;
  flags = record p.flags { device_loop_run = true };
}
main_step ok MainPc.test_device p = record p {
  main = if p.flags.device_loop_run then MainPc.set_up else MainPc.finished;
}
main_step true MainPc.set_up p = record p { main = MainPc.set_capture_run; mapped = true }
main_step false MainPc.set_up p = record p { main = MainPc.test_device }
main_step ok MainPc.set_capture_run p = record p {
  main = MainPc.set_control_run;
  flags = record p.flags { capture_loop_run = true };
}
main_step ok MainPc.set_control_run p = record p {
  main = MainPc.create_capture;
  flags = record p.flags { control_loop_run = true };
}
main_step ok MainPc.create_capture p = record p {
  main = MainPc.create_control;
  captures = new_thread ∷ p.captures;
}
main_step ok MainPc.create_control p = record p {
  main = MainPc.wait;
  controls = new_thread ∷ p.controls;
}
main_step ok MainPc.wait p = record p {
  main = if main_waits p.flags then MainPc.wait else MainPc.join_capture;
}
main_step ok MainPc.join_capture p = record p {
  main = MainPc.join_control;
  captures = joined p.captures;
}
main_step ok MainPc.join_control p = record p {
  main = MainPc.clean_up;
  controls = joined p.controls;
}
main_step ok MainPc.clean_up p = record p { main = MainPc.close; mapped = false }
main_step true MainPc.close p = record p { main = MainPc.test_device }
main_step false MainPc.close p = record p { main = MainPc.close }
main_step ok MainPc.finished p = record p { main = MainPc.finished }

-- The next place of the capture thread, and the flags.
unfoldable pub capture_step : (ok : Bool) → ThreadPc → Flags → ThreadPc × Flags
capture_step true ThreadPc.begin f = (ThreadPc.test, f)
capture_step false ThreadPc.begin f = (ThreadPc.ended, stopped f)
capture_step ok ThreadPc.test f = (if f.capture_loop_run then ThreadPc.work else ThreadPc.stop, f)
capture_step true ThreadPc.work f = (ThreadPc.decode, f)
capture_step false ThreadPc.work f = (ThreadPc.test, stopped f)
capture_step ok ThreadPc.decode f = (ThreadPc.test, f)
capture_step ok ThreadPc.stop f = (ThreadPc.ended, f)
capture_step ok ThreadPc.ended f = (ThreadPc.ended, f)

-- The control thread does not write the flags, and has no `decode`.
unfoldable pub control_step : ThreadPc → Flags → ThreadPc
control_step ThreadPc.begin f = ThreadPc.test
control_step ThreadPc.test f = if f.control_loop_run then ThreadPc.work else ThreadPc.stop
control_step ThreadPc.work f = ThreadPc.test
control_step ThreadPc.decode f = ThreadPc.test
control_step ThreadPc.stop f = ThreadPc.ended
control_step ThreadPc.ended f = ThreadPc.ended

-- The list with one thread changed.
unfoldable pub change : ℕ → (Thread → Thread) → List Thread → List Thread
change i f [] = []
change zero f (t ∷ ts) = f t ∷ ts
change (suc i) f (t ∷ ts) = t ∷ change i f ts

-- The thread's place, and `ended` for one that is not there.
unfoldable pub pc_at : ℕ → List Thread → ThreadPc
pc_at i [] = ThreadPc.ended
pc_at zero (t ∷ ts) = t.pc
pc_at (suc i) (t ∷ ts) = pc_at i ts

abbrev pub at_pc : ThreadPc → Thread → Thread
at_pc pc t = record t { pc = pc }

-- A cancellation takes effect.
unfoldable pub cancel : Thread → Thread
cancel t = record t { pc = if t.cancelled then ThreadPc.ended else t.pc }

unfoldable pub event : Event → Program → Program
unfolding main_step capture_step control_step change pc_at cancel signal_callback_handler
event (Event.main_steps ok) p = main_step ok p.main p
event (Event.capture_steps i ok) p =
    let next = capture_step ok (pc_at i p.captures) p.flags in
    record p { captures = change i (at_pc next.0) p.captures; flags = next.1 }
event (Event.control_steps i) p = record p {
  controls = change i (at_pc (control_step (pc_at i p.controls) p.flags)) p.controls;
}
event (Event.capture_cancelled i) p = record p { captures = change i cancel p.captures }
event (Event.control_cancelled i) p = record p { controls = change i cancel p.controls }
event Event.sigint p = record p { flags = signal_callback_handler true p.flags }

unfoldable pub events : List Event → Program → Program
unfolding event
events [] p = p
events (e ∷ es) p = events es (event e p)

abbrev pub at_start : Program
at_start = record {
  main = MainPc.start;
  flags = record { device_loop_run = false; capture_loop_run = false; control_loop_run = false };
  captures = [];
  controls = [];
  mapped = false;
}

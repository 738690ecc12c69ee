-- ===== src/Main/Capture.antt =====
-- `capture_loop` and `signal_callback_handler` of src/main.c. The answers of the camera's driver are
-- a list with an entry for each round; a loop that has had all of them and goes on waits in
-- `VIDIOC_DQBUF`.
pub mod Ends
mod Tests
use camview_opipc.Base.{
  ℕ, Bool, true, false, ◌||◌, Option, none, some, List, [], ◌∷◌, ◌++◌, if◌then◌else◌,
}

pub record Flags : Type 0 where
  pub device_loop_run : Bool
  pub capture_loop_run : Bool
  pub control_loop_run : Bool

unfoldable pub signal_callback_handler : (sigint : Bool) → Flags → Flags
signal_callback_handler true flags = record {
  device_loop_run = false;
  capture_loop_run = false;
  control_loop_run = false;
}
signal_callback_handler false flags = flags

pub record Frame : Type 0 where
  pub index : ℕ
  pub bytesused : ℕ

-- `frame` is what `VIDIOC_DQBUF` gives, and `sigint` tells if the signal comes before the next test
-- of the loop.
pub record Round : Type 0 where
  pub frame : Option Frame
  pub queued : Bool
  pub sigint : Bool

pub data Call : Type 0 where
  stream_on stream_off : (done : Bool) → Call
  dequeue_failed : Call
  hw_decode_jpeg_main : (index bytesused : ℕ) → Call
  queue : (index : ℕ) (done : Bool) → Call

abbrev pub stopped : Flags → Flags
stopped flags = record flags { capture_loop_run = false; control_loop_run = false }

unfoldable pub round_calls : Option Frame → (queued : Bool) → List Call
round_calls none queued = Call.dequeue_failed ∷ []
round_calls (some f) queued =
    Call.hw_decode_jpeg_main f.index f.bytesused ∷ Call.queue f.index queued ∷ []

unfoldable pub round_flags : Option Frame → Flags → Flags
round_flags none flags = stopped flags
round_flags (some f) flags = flags

-- `off` tells if `VIDIOC_STREAMOFF` succeeds.
unfoldable pub rounds_loop : (off : Bool) → Flags → List Round → List Call × Flags
unfolding round_calls round_flags signal_callback_handler
rounds_loop off flags [] =
    if flags.capture_loop_run then ([], flags) else (Call.stream_off off ∷ [], flags)
rounds_loop off flags (r ∷ rs) =
    let rest = rounds_loop off (signal_callback_handler r.sigint (round_flags r.frame flags)) rs in
    if flags.capture_loop_run
    then (round_calls r.frame r.queued ++ rest.0, rest.1)
    else (Call.stream_off off ∷ [], flags)

unfoldable pub capture_loop : (on off : Bool) → Flags → List Round → List Call × Flags
unfolding rounds_loop
capture_loop false off flags rs = (Call.stream_on false ∷ [], stopped flags)
capture_loop true off flags rs =
    let rest = rounds_loop off flags rs in (Call.stream_on true ∷ rest.0, rest.1)

-- The condition under which `main` goes on waiting for the threads.
unfoldable pub main_waits : Flags → Bool
main_waits flags = flags.capture_loop_run || flags.control_loop_run

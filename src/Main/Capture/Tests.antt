-- ===== src/Main/Capture/Tests.antt =====
-- Runs of `capture_loop`: two frames, and then a camera that is gone.
use camview_opipc.Base.{ℕ, ◌≡◌, refl, true, false, none, some, List, [], ◌∷◌}
use camview_opipc.Main.Capture.{Flags, Round, Call, capture_loop, main_waits}
use camview_opipc.Main.Capture.Ends.{calls_until_last, has_last, capture_loop-ends}

abbrev running : Flags
running = record { device_loop_run = true; capture_loop_run = true; control_loop_run = true }

abbrev taken : ℕ → Round
taken i = record {
  frame = some (record { index = i; bytesused = 50000 });
  queued = true;
  sigint = false;
}

abbrev gone : Round
gone = record { frame = none; queued = false; sigint = false }

abbrev rounds : List Round
rounds = taken 0 ∷ taken 1 ∷ gone ∷ taken 2 ∷ []

runs :
    (capture_loop true true running rounds).0
    ≡ Call.stream_on true
      ∷ Call.hw_decode_jpeg_main 0 50000
      ∷ Call.queue 0 true
      ∷ Call.hw_decode_jpeg_main 1 50000
      ∷ Call.queue 1 true
      ∷ Call.dequeue_failed
      ∷ Call.stream_off true
      ∷ []
unfolding capture_loop
runs = refl

rounds_last : has_last rounds ≡ true
unfolding has_last
rounds_last = refl

capture_loop-ends_example :
    ((capture_loop true true running rounds).0 ≡ Call.stream_on true ∷ calls_until_last true rounds)
    × (main_waits (capture_loop true true running rounds).1 ≡ false)
capture_loop-ends_example = capture_loop-ends true running rounds refl rounds_last

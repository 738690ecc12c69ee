-- ===== src/Main/Threads/Tests.antt =====
-- Schedules of src/main.c that stop the program, lose a signal, and decode from unmapped buffers.
use camview_opipc.Base.{
  ◌≤◌, ◌≡◌, refl, true, false, ◌⊎◌, List, [], ◌∷◌, ◌++◌, All, arith, replicate,
}
use camview_opipc.Main.Capture.{main_waits}
use camview_opipc.Main.Threads.{MainPc, ThreadPc, Program, Event, events, at_start, pc_at}
use camview_opipc.Main.Threads.Sound.{settled}
use camview_opipc.Main.Threads.Alive.{events-mapped}
use camview_opipc.Main.Threads.Stop.{left, main_count, is_quiet, sigint_finishes, sigint_lost}

abbrev made : Event
made = Event.main_steps true

abbrev main_hangs : Event
main_hangs = Event.main_steps false

-- Up to the wait, with both threads at their loops.
abbrev running : List Event
running =
    replicate 7 made
    ++ (Event.capture_steps 0 true ∷ Event.capture_steps 0 true ∷ Event.control_steps 0 ∷ [])

abbrev program : Program
program = events running at_start

at_wait : program.main ≡ MainPc.wait
unfolding events
at_wait = refl

-- The frame that is decoded when the signal comes is not waited for.
abbrev stopping : List Event
stopping = running ++ (Event.capture_steps 0 true ∷ Event.sigint ∷ replicate 4 made)

unmapped :
    ((events stopping at_start).mapped ≡ false)
    × (pc_at 0 (events stopping at_start).captures ≡ ThreadPc.decode)
unfolding events main_waits
unmapped = (refl, refl)

events-mapped_example :
    All
      (λ t. (settled t ≡ true) ⊎ ((events stopping at_start).mapped ≡ true))
      (events stopping at_start).captures
    × All
        (λ t. (settled t ≡ true) ⊎ ((events stopping at_start).mapped ≡ true))
        (events stopping at_start).controls
events-mapped_example = events-mapped stopping

six :
    (left program.main ≤ 6)
    × (6 ≤ main_count (Event.control_steps 0 ∷ main_hangs ∷ replicate 6 made))
unfolding left main_count events
six = (omega arith, omega arith)

sigint_finishes_example :
    (events (Event.sigint ∷ Event.control_steps 0 ∷ main_hangs ∷ replicate 6 made) program).main
    ≡ MainPc.finished
sigint_finishes_example =
    sigint_finishes program (Event.control_steps 0 ∷ main_hangs ∷ replicate 6 made) six.0 six.1

abbrev setting_up : Program
setting_up = events (replicate 2 made) at_start

at_set_up : setting_up.main ≡ MainPc.set_up
unfolding events
at_set_up = refl

quiet : is_quiet (Event.capture_steps 0 true ∷ made ∷ []) ≡ true
unfolding is_quiet
quiet = refl

sigint_lost_example :
    (events
      (Event.sigint ∷ made ∷ made ∷ made ∷ made ∷ made ∷ Event.capture_steps 0 true ∷ made ∷ [])
      setting_up).main
    ≡ MainPc.wait
sigint_lost_example =
    sigint_lost setting_up (Event.capture_steps 0 true ∷ made ∷ []) at_set_up quiet

-- ===== src/Main/Capture/Ends.antt =====
-- When `capture_loop` of src/main.c ends, and what it has done by then.
use camview_opipc.Base.{
  ◌≡◌, refl, ap, sym, ◌∙◌, Bool, true, false, Option, none, some, List, [], ◌∷◌, ◌++◌,
  if◌then◌else◌, if_true, if_false, Bool-cases, inl, inr,
}
use camview_opipc.Main.Capture.{
  Flags, signal_callback_handler, Frame, Round, Call, round_calls, round_flags, rounds_loop,
  capture_loop, main_waits,
}

-- A round after which the loop ends.
unfoldable pub is_last : Option Frame → (sigint : Bool) → Bool
is_last none sigint = true
is_last (some f) sigint = sigint

-- The calls of the rounds up to the first that is the last, and the end of the stream.
unfoldable pub calls_until_last : (off : Bool) → List Round → List Call
unfolding is_last
calls_until_last off [] = []
calls_until_last off (r ∷ rs) =
    round_calls r.frame r.queued
    ++ (if is_last r.frame r.sigint then Call.stream_off off ∷ [] else calls_until_last off rs)

unfoldable pub has_last : List Round → Bool
unfolding is_last
has_last [] = false
has_last (r ∷ rs) = if is_last r.frame r.sigint then true else has_last rs

rounds_loop-stopped :
    (off : Bool) (flags : Flags) (rs : List Round)
    → flags.capture_loop_run ≡ false
    → rounds_loop off flags rs ≡ (Call.stream_off off ∷ [], flags)
unfolding rounds_loop
rounds_loop-stopped off flags [] e = if_false _ _ _ e
rounds_loop-stopped off flags (r ∷ rs) e = if_false _ _ _ e

module _ (frame : Option Frame) (sigint : Bool) (flags : Flags) where
  abbrev next : Flags
  next = signal_callback_handler sigint (round_flags frame flags)

next-last :
    (frame : Option Frame) (sigint : Bool) (flags : Flags)
    → is_last frame sigint ≡ true
    → ((next frame sigint flags).capture_loop_run ≡ false)
      × (main_waits (next frame sigint flags) ≡ false)
unfolding is_last signal_callback_handler round_flags main_waits
next-last none true flags e = (refl, refl)
next-last none false flags e = (refl, refl)
next-last (some f) true flags e = (refl, refl)
next-last (some f) false flags e = absurd (cc)

next-more :
    (frame : Option Frame) (sigint : Bool) (flags : Flags)
    → is_last frame sigint ≡ false
    → next frame sigint flags ≡ flags
unfolding is_last signal_callback_handler round_flags
next-more none sigint flags e = absurd (cc)
next-more (some f) true flags e = absurd (cc)
next-more (some f) false flags e = refl

module _ (off : Bool) where
  rounds_loop-running :
      (flags : Flags) (r : Round) (rs : List Round)
      → flags.capture_loop_run ≡ true
      → rounds_loop off flags (r ∷ rs) ≡ (
        round_calls r.frame r.queued ++ (rounds_loop off (next r.frame r.sigint flags) rs).0,
        (rounds_loop off (next r.frame r.sigint flags) rs).1,
      )
  unfolding rounds_loop
  rounds_loop-running flags r rs e = if_true _ _ _ e

  rounds_loop-ends :
      (flags : Flags) (rs : List Round)
      → flags.capture_loop_run ≡ true
      → has_last rs ≡ true
      → ((rounds_loop off flags rs).0 ≡ calls_until_last off rs)
        × (main_waits (rounds_loop off flags rs).1 ≡ false)
  unfolding has_last calls_until_last
  rounds_loop-ends flags [] runs last = absurd (cc)
  rounds_loop-ends flags (r ∷ rs) runs last =
      let step = rounds_loop-running flags r rs runs in
      elim (Bool-cases (is_last r.frame r.sigint)) [
        | inl end ↦
            let (stops, quiet) = next-last r.frame r.sigint flags end in
            let rest = rounds_loop-stopped off (next r.frame r.sigint flags) rs stops in
            (
              rw (step, rest)
                  (sym (ap (λ cs. round_calls r.frame r.queued ++ cs) (if_true _ _ _ end))),
              rw (step, rest) quiet,
            )
        | inr more ↦
            let same = next-more r.frame r.sigint flags more in
            let (calls, quiet) =
              rounds_loop-ends flags rs runs (sym (if_false _ _ _ more) ∙ last) in
            (
              rw (step, same, calls)
                  (sym (ap (λ cs. round_calls r.frame r.queued ++ cs) (if_false _ _ _ more))),
              rw (step, same) quiet,
            )
      ]

  -- When the stream is on, a round without a frame or with the signal ends the loop: until then the
  -- frames are decoded and queued again in order, the stream is then turned off, and `main` no
  -- longer waits for the threads.
  pub capture_loop-ends :
      (flags : Flags) (rs : List Round)
      → flags.capture_loop_run ≡ true
      → has_last rs ≡ true
      → ((capture_loop true off flags rs).0 ≡ Call.stream_on true ∷ calls_until_last off rs)
        × (main_waits (capture_loop true off flags rs).1 ≡ false)
  unfolding capture_loop
  capture_loop-ends flags rs runs last =
      let (calls, quiet) = rounds_loop-ends flags rs runs last in
      (ap (λ cs. Call.stream_on true ∷ cs) calls, quiet)

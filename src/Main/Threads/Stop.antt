-- ===== src/Main/Threads/Stop.antt =====
-- What SIGINT does to src/main.c, by the place that `main` is at.
use camview_opipc.Base.{
  ℕ, ◌+◌, ◌≤◌, ◌≡◌, refl, ap, ◌∙◌, Bool, true, false, List, [], ◌∷◌, arith, if_true, ◌-◌,
  if◌then◌else◌,
}
use camview_opipc.Main.Capture.{Flags, main_waits, signal_callback_handler}
use camview_opipc.Main.Threads.{
  MainPc, ThreadPc, Program, Event, main_step, capture_step, event, events, pc_at,
}

-- How many steps `main` makes, those in which it stays in a `pthread_join` apart.
unfoldable pub main_count : List Event → ℕ
main_count [] = 0
main_count (Event.main_steps true ∷ es) = main_count es + 1
main_count (e ∷ es) = main_count es

-- The steps that are left from here to the end, when no loop is to go on.
unfoldable pub left : MainPc → ℕ
left MainPc.wait = 6
left MainPc.join_capture = 5
left MainPc.join_control = 4
left MainPc.clean_up = 3
left MainPc.close = 2
left MainPc.test_device = 1
left MainPc.finished = 0
left pc = 7

-- No loop is to go on.
record IsClear (f : Flags) : Type 0 where
  device : f.device_loop_run ≡ false
  threads : main_waits f ≡ false

-- A step of `main` at the shutdown.
main_step-left :
    (ok : Bool) (pc : MainPc) (p : Program)
    → left pc ≤ 6
    → p.main ≡ pc
    → IsClear p.flags
    → IsClear (main_step ok pc p).flags
      × (left (main_step ok pc p).main ≤ left pc - (if ok then 1 else 0))
unfolding main_step left
main_step-left ok MainPc.start p near at c = absurd (omega arith)
main_step-left ok MainPc.test_device p near at c = (c, rw (c.device) (ground arith))
main_step-left ok MainPc.set_up p near at c = absurd (omega arith)
main_step-left ok MainPc.set_capture_run p near at c = absurd (omega arith)
main_step-left ok MainPc.set_control_run p near at c = absurd (omega arith)
main_step-left ok MainPc.create_capture p near at c = absurd (omega arith)
main_step-left ok MainPc.create_control p near at c = absurd (omega arith)
main_step-left ok MainPc.wait p near at c = (c, rw (c.threads) (ground arith))
main_step-left ok MainPc.join_capture p near at c = (c, ground arith)
main_step-left ok MainPc.join_control p near at c = (c, ground arith)
main_step-left ok MainPc.clean_up p near at c = (c, ground arith)
main_step-left true MainPc.close p near at c = (c, omega arith)
main_step-left false MainPc.close p near at c = (c, omega arith)
main_step-left ok MainPc.finished p near at c = (c, ground arith)

capture_step-IsClear :
    (ok : Bool) (pc : ThreadPc) (f : Flags) → IsClear f → IsClear (capture_step ok pc f).1
unfolding capture_step main_waits
capture_step-IsClear ok ThreadPc.test f c = c
capture_step-IsClear true ThreadPc.begin f c = c
capture_step-IsClear false ThreadPc.begin f c = record { device = c.device; threads = refl }
capture_step-IsClear true ThreadPc.work f c = c
capture_step-IsClear false ThreadPc.work f c = record { device = c.device; threads = refl }
capture_step-IsClear ok ThreadPc.decode f c = c
capture_step-IsClear ok ThreadPc.stop f c = c
capture_step-IsClear ok ThreadPc.ended f c = c

-- Each step of `main` that gets through brings it nearer to the end, and no other takes it back.
events-left :
    (es : List Event) (p : Program)
    → left p.main ≤ 6
    → IsClear p.flags
    → left (events es p).main ≤ left p.main - main_count es
unfolding events event main_count main_waits
events-left [] p near c = omega arith
events-left (Event.main_steps true ∷ es) p near c =
    let (c', e) = main_step-left true p.main p near refl c in
    omega (arith, e, events-left es (main_step true p.main p) (omega (arith, e)) c')
events-left (Event.main_steps false ∷ es) p near c =
    let (c', e) = main_step-left false p.main p near refl c in
    omega (arith, e, events-left es (main_step false p.main p) (omega (arith, e)) c')
events-left (Event.capture_steps i ok ∷ es) p near c =
    events-left es _ near (capture_step-IsClear ok _ p.flags c)
events-left (Event.control_steps i ∷ es) p near c = events-left es _ near c
events-left (Event.capture_cancelled i ∷ es) p near c = events-left es _ near c
events-left (Event.control_cancelled i ∷ es) p near c = events-left es _ near c
events-left (Event.sigint ∷ es) p near c =
    events-left es _ near (record { device = refl; threads = refl })

finished-of-left : (pc : MainPc) → left pc ≤ 0 → pc ≡ MainPc.finished
unfolding left
finished-of-left pc h = ground arith

-- Once `main` waits for the threads or is past that, SIGINT makes it leave all its loops: after six
-- more steps that get through it has finished, whatever else is scheduled between them. A step that
-- does not get through is one of the `pthread_join` calls of `hw_close` and `stop_cec_controls` that
-- has not returned; that they return is not stated.
pub sigint_finishes :
    (p : Program) (es : List Event)
    → left p.main ≤ 6
    → 6 ≤ main_count es
    → (events (Event.sigint ∷ es) p).main ≡ MainPc.finished
unfolding events event signal_callback_handler main_waits
sigint_finishes p es near enough =
    let q : Program = record p { flags = signal_callback_handler true p.flags } in
    let l = events-left es q near (record { device = refl; threads = refl }) in
    finished-of-left (events es q).main (omega arith)

-- No signal comes, and no step of the capture thread fails.
unfoldable pub is_quiet : List Event → Bool
is_quiet [] = true
is_quiet (Event.sigint ∷ es) = false
is_quiet (Event.capture_steps i false ∷ es) = false
is_quiet (e ∷ es) = is_quiet es

capture_step-flags : (pc : ThreadPc) (f : Flags) → (capture_step true pc f).1 ≡ f
unfolding capture_step
capture_step-flags pc f = ground arith

main_waits-control : (f : Flags) → f.control_loop_run ≡ true → main_waits f ≡ true
unfolding main_waits
main_waits-control f e = ground arith

wait-stays :
    (es : List Event) (p : Program)
    → p.main ≡ MainPc.wait
    → p.flags.control_loop_run ≡ true
    → is_quiet es ≡ true
    → (events es p).main ≡ MainPc.wait
unfolding events event is_quiet main_step
wait-stays [] p w c q = w
wait-stays (Event.main_steps ok ∷ es) p w c q =
    ap (λ pc. (events es (main_step ok pc p)).main) w
    ∙ wait-stays es (main_step ok MainPc.wait p) (if_true _ _ _ (main_waits-control p.flags c)) c q
wait-stays (Event.capture_steps i true ∷ es) p w c q =
    wait-stays es _ w (rw (capture_step-flags (pc_at i p.captures) p.flags) c) q
wait-stays (Event.capture_steps i false ∷ es) p w c q = absurd (cc)
wait-stays (Event.control_steps i ∷ es) p w c q = wait-stays es _ w c q
wait-stays (Event.capture_cancelled i ∷ es) p w c q = wait-stays es _ w c q
wait-stays (Event.control_cancelled i ∷ es) p w c q = wait-stays es _ w c q
wait-stays (Event.sigint ∷ es) p w c q = absurd (cc)

-- A SIGINT that comes while the camera is set up is lost: when the set-up succeeds and `main` has made
-- the threads, it waits for them as long as the camera works and no other signal comes.
pub sigint_lost :
    (p : Program) (es : List Event)
    → p.main ≡ MainPc.set_up
    → is_quiet es ≡ true
    → let made = Event.main_steps true in
      (events (Event.sigint ∷ made ∷ made ∷ made ∷ made ∷ made ∷ es) p).main ≡ MainPc.wait
unfolding events event main_step
sigint_lost p es at_set_up quiet =
    let made = Event.main_steps true in
    let q = event Event.sigint p in
    ap (λ pc. (events (made ∷ made ∷ made ∷ made ∷ es) (main_step true pc q)).main) at_set_up
    ∙ wait-stays es _ refl refl quiet

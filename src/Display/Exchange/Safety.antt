-- ===== src/Display/Exchange/Safety.antt =====
-- What holds in every reachable state of the exchange, and what spurious wake-ups and the stop of
-- the display thread can break.
use camview_opipc.Base.{
  ℕ, ◌≤◌, ◌≡◌, ◌≢◌, refl, inl, inr, true, false, arith, ◌==◌, ==_iff, Bool-cases,
}
use camview_opipc.Display.Exchange.{
  Exchange, DisplayPc, WriterPc, Reach, later, target, locks, wakes_writer, terminates,
  terminate_display, next_frame, wake_writer, signal_display,
}
use camview_opipc.Display.Exchange.Count.{holds, count}
use camview_opipc.Display.Exchange.Inv.{Inv, places, Reach-Inv, display_at, writer_at, some_queued}

-- Without spurious wake-ups, in every reachable state each of the three buffers is in exactly one
-- place: one of the queues, the screen, just taken off the screen, or with the decoder.
pub one_place :
    (s : Exchange) → Reach false s → (places 1 s ≡ 1) × (places 2 s ≡ 1) × (places 3 s ≡ 1)
one_place s r = let v = Reach-Inv r in (v.one, v.two, v.three)

one_of_three : (x : ℕ) → x ≢ 0 → x ≤ 3 → (P : ℕ → Type 0) → P 1 → P 2 → P 3 → P x
one_of_three x n b P one two three = elim (Bool-cases (x == 1)) [
  | inl e ↦ rw ((==_iff x 1).0 e) one
  | inr n₁ ↦ elim (Bool-cases (x == 2)) [
    | inl e ↦ rw ((==_iff x 2).0 e) two
    | inr n₂ ↦ let e : x ≡ 3 = ground arith in rw e three
  ]
]

-- Without spurious wake-ups, whenever the decoder writes, the buffer that it writes to is the one
-- it was given, and it is neither on the screen nor just off it, and waits in no queue.
pub decoder_owns_target :
    (s : Exchange)
    → Reach false s
    → s.writer_pc ≡ WriterPc.writing
    → (target s.write_buffer ≡ s.write_buffer)
      × (target s.write_buffer ≢ s.display_buffer)
      × (target s.write_buffer ≢ s.prev_display_buffer)
      × (count (target s.write_buffer) s.current_available_buffer ≡ 0)
      × (count (target s.write_buffer) s.current_display_buffer ≡ 0)
unfolding target
decoder_owns_target s r e = rw (same x bounds) (
  refl,
  not_held x s.display_buffer (omega (arith, once, holds_self x)),
  not_held x s.prev_display_buffer (omega (arith, once, holds_self x)),
  omega (arith, once, holds_self x),
  omega (arith, once, holds_self x),
)
  where
    v : Inv s
    v = Reach-Inv r

    x : ℕ
    x = s.write_buffer

    bounds : (x ≢ 0) × (x ≤ 3)
    bounds = (writer_at WriterPc.writing e v, v.small.2)

    same : (x : ℕ) → (x ≢ 0) × (x ≤ 3) → target x ≡ x
    same x b = ground arith

    once : places x s ≡ 1
    once = one_of_three x bounds.0 bounds.1 (λ y. places y s ≡ 1) v.one v.two v.three

    holds_self : (y : ℕ) → holds y y ≡ 1
    holds_self y = ground arith

    not_held : (y z : ℕ) → holds y z ≡ 0 → y ≢ z
    not_held y z h = ground arith

-- Without spurious wake-ups, while a decoder waits for a buffer and was not signalled, a frame is
-- queued for the display thread and that thread does not sleep unsignalled.
pub waiting_decoder_served :
    (s : Exchange)
    → Reach false s
    → s.writer_pc ≡ WriterPc.waiting false
    → (s.current_display_buffer.b0 ≢ 0) × (s.display_pc ≢ DisplayPc.asleep false)
waiting_decoder_served s r e = (queued, λ d. queued (display_at (DisplayPc.asleep false) d v).1)
  where
    v : Inv s
    v = Reach-Inv r

    queued : s.current_display_buffer.b0 ≢ 0
    queued h = let w = writer_at (WriterPc.waiting false) e v in some_queued s w.0 w.1 h v

-- A spurious wake-up of a decoder that waits while no buffer is available makes it write to
-- buffer 1, whichever thread has that buffer.
pub spurious_wake_up :
    (s : Exchange)
    → Reach true s
    → s.writer_pc ≡ WriterPc.waiting false
    → s.current_available_buffer.b0 ≡ 0
    → (t : Exchange) × Reach true t
      × (t.writer_pc ≡ WriterPc.writing)
      × (target t.write_buffer ≡ 1)
      × (t.display_buffer ≡ s.display_buffer)
unfolding target wake_writer
spurious_wake_up s r e h =
    (wake_writer s, later r (wakes_writer false e refl refl), refl, ground arith, refl)

-- A stop between the display thread's test of the loop and its lock is missed if no frame is
-- queued: the thread then sleeps with the stop already signalled.
pub stop_missed :
    (s : Exchange)
    → Reach false s
    → s.display_pc ≡ DisplayPc.ready
    → s.current_display_buffer.b0 ≡ 0
    → (t : Exchange) × Reach false t
      × (t.run_video_update ≡ false)
      × (t.display_pc ≡ DisplayPc.asleep false)
unfolding terminate_display next_frame
stop_missed s r e h =
    let ready : signal_display s.display_pc ≡ DisplayPc.ready = rw e in
    (
      next_frame (terminate_display s),
      later (later r (terminates refl)) (locks ready refl),
      ground arith,
      ground arith,
    )

-- ===== src/Display/Exchange/Inv/Display.antt =====
-- The steps of the display thread, and its stop, keep the invariant.
use camview_opipc.Base.{
  ℕ, ◌+◌, ◌≡◌, ◌≢◌, refl, inl, inr, Bool, true, false, arith, ◌==◌, ==_iff, if◌then◌else◌,
  Bool-cases,
}
use camview_opipc.Display.Exchange.{
  Buffers, put, Exchange, DisplayPc, test_run, next_frame, wake_display, draw, give_back,
  terminate_display, take_next, signal_writer,
}
use camview_opipc.Display.Exchange.Count.{
  holds, count, count-forward, count-put, forward-IsPacked, put-IsPacked, put-ne-zero, not_full,
}
use camview_opipc.Display.Exchange.Inv.Defs.{
  DisplayFits, Inv, display_at, signal_writer-Fits, signal_display-Fits,
}

move_display :
    (s : Exchange) (pc : DisplayPc)
    → DisplayFits pc s.prev_display_buffer s.current_display_buffer.b0
    → Inv s
    → Inv (record s { display_pc = pc })
move_display s pc d v = record {
  one = v.one;
  two = v.two;
  three = v.three;
  available = v.available;
  shown = v.shown;
  small = v.small;
  display = d;
  writer = v.writer;
}

pub test_run-Inv : (s : Exchange) → s.display_pc ≡ DisplayPc.top → Inv s → Inv (test_run s)
unfolding test_run
test_run-Inv s e v =
    move_display s (if s.run_video_update then DisplayPc.ready else DisplayPc.stopped)
      (either s.run_video_update s.current_display_buffer.b0 (display_at DisplayPc.top e v)) v
  where
    either :
        (b : Bool) {prev : ℕ} (head : ℕ)
        → prev ≡ 0
        → DisplayFits (if b then DisplayPc.ready else DisplayPc.stopped) prev head
    either true head h = h
    either false head h = h

take_next-Inv :
    (s : Exchange)
    → s.current_display_buffer.b0 ≢ 0
    → s.prev_display_buffer ≡ 0
    → Inv s
    → Inv (take_next s)
take_next-Inv s h e v = ground (
  arith,
  count-forward s.current_display_buffer 1,
  count-forward s.current_display_buffer 2,
  count-forward s.current_display_buffer 3,
  forward-IsPacked s.current_display_buffer v.shown,
)

pub next_frame-Inv : (s : Exchange) → s.display_pc ≡ DisplayPc.ready → Inv s → Inv (next_frame s)
unfolding next_frame
next_frame-Inv s e v =
    let none_off = display_at DisplayPc.ready e v in
    elim (Bool-cases (s.current_display_buffer.b0 == 0)) [
      | inl empty ↦
          rw (empty, next_frame)
            (move_display s (DisplayPc.asleep false) (none_off, ground arith) v)
      | inr more ↦ rw (more, next_frame) (take_next-Inv s (ground arith) none_off v)
    ]

pub wake_display-Inv :
    (s : Exchange) → s.display_pc ≡ DisplayPc.asleep true → Inv s → Inv (wake_display s)
unfolding wake_display
wake_display-Inv s e v = elim (Bool-cases (s.current_display_buffer.b0 == 0)) [
  | inl empty ↦ rw (empty, wake_display) (move_display s DisplayPc.giving tt v)
  | inr more ↦
      rw (more, wake_display)
        (take_next-Inv s (ground arith) (display_at (DisplayPc.asleep true) e v) v)
]

pub draw-Inv : (s : Exchange) → Inv s → Inv (draw s)
unfolding draw
draw-Inv s v = ground arith

pub terminate_display-Inv : (s : Exchange) → Inv s → Inv (terminate_display s)
unfolding terminate_display
terminate_display-Inv s v = record {
  one = v.one;
  two = v.two;
  three = v.three;
  available = v.available;
  shown = v.shown;
  small = v.small;
  display = signal_display-Fits s.display_pc s.prev_display_buffer head head v.display;
  writer = v.writer;
}
  where
    head : ℕ
    head = s.current_display_buffer.b0

return_buffer-Inv :
    (s : Exchange)
    → s.prev_display_buffer ≢ 0
    → Inv s
    → Inv (record s {
      current_available_buffer = put s.current_available_buffer s.prev_display_buffer;
      prev_display_buffer = 0;
      display_pc = DisplayPc.top;
      writer_pc = signal_writer s.writer_pc;
    })
return_buffer-Inv s h v = record {
  one = omega (arith, v.one, added 1 (omega arith));
  two = omega (arith, v.two, added 2 (omega arith));
  three = omega (arith, v.three, added 3 (omega arith));
  available = put-IsPacked a x v.small.1 v.available;
  shown = v.shown;
  small = omega arith;
  display = refl;
  writer =
      signal_writer-Fits s.writer_pc s.write_buffer a.b0 (put a x).b0 (put-ne-zero a x h) v.writer;
}
  where
    a : Buffers
    a = s.current_available_buffer

    x : ℕ
    x = s.prev_display_buffer

    room : a.b2 ≡ 0
    room = not_full a x v.available h v.small.1 (omega (arith, v.one, v.two, v.three))

    added : (b : ℕ) → b ≢ 0 → count b (put a x) + holds b 0 ≡ count b a + holds b x
    added b n = ground (arith, count-put a x b n room v.available)

pub give_back-Inv : (s : Exchange) → s.display_pc ≡ DisplayPc.giving → Inv s → Inv (give_back s)
unfolding give_back
give_back-Inv s e v = elim (Bool-cases (s.prev_display_buffer == 0)) [
  | inl nothing ↦
      rw (nothing, give_back)
        (move_display s DisplayPc.top ((==_iff s.prev_display_buffer 0).0 nothing) v)
  | inr some_off ↦ rw (some_off, give_back) (return_buffer-Inv s (ground arith) v)
]

-- ===== src/Display/Exchange/Inv/Writer.antt =====
-- The steps of the decoder keep the invariant.
use camview_opipc.Base.{
  ℕ, ◌+◌, ◌≡◌, ◌≢◌, refl, inl, inr, true, false, arith, ◌==◌, ==_iff, ne_of_test, Bool-cases,
}
use camview_opipc.Display.Exchange.{
  Buffers, put, Exchange, WriterPc, get_buffer_number, wake_writer, put_buffer, take_available,
}
use camview_opipc.Display.Exchange.Count.{
  holds, count, count-forward, count-put, forward-IsPacked, put-IsPacked, count_empty, not_full,
}
use camview_opipc.Display.Exchange.Inv.Defs.{
  places, WriterFits, Inv, writer_at, signal_display-Fits,
}

move_writer :
    (s : Exchange) (pc : WriterPc)
    → WriterFits pc s.write_buffer s.current_available_buffer.b0
    → Inv s
    → Inv (record s { writer_pc = pc })
move_writer s pc w v = record {
  one = v.one;
  two = v.two;
  three = v.three;
  available = v.available;
  shown = v.shown;
  small = v.small;
  display = v.display;
  writer = w;
}

take_available-Inv :
    (s : Exchange)
    → s.current_available_buffer.b0 ≢ 0
    → s.write_buffer ≡ 0
    → Inv s
    → Inv (take_available s)
take_available-Inv s h e v = ground (
  arith,
  count-forward s.current_available_buffer 1,
  count-forward s.current_available_buffer 2,
  count-forward s.current_available_buffer 3,
  forward-IsPacked s.current_available_buffer v.available,
)

-- While the decoder holds nothing, the display thread cannot hold all three buffers.
pub some_queued :
    (s : Exchange)
    → s.write_buffer ≡ 0
    → s.current_available_buffer.b0 ≡ 0
    → s.current_display_buffer.b0 ≡ 0
    → Inv s
    → ⊥
some_queued s w a d v =
    two_slots s.display_buffer s.prev_display_buffer (two_left 1 (omega arith) v.one)
      (two_left 2 (omega arith) v.two) (two_left 3 (omega arith) v.three)
  where
    two_slots :
        (x y : ℕ)
        → holds 1 x + holds 1 y ≡ 1
        → holds 2 x + holds 2 y ≡ 1
        → holds 3 x + holds 3 y ≡ 1
        → ⊥
    two_slots x y f g h = ground arith

    holds_nothing : (b x : ℕ) → b ≢ 0 → x ≡ 0 → holds b x ≡ 0
    holds_nothing b x h e = ground arith

    two_left :
        (b : ℕ)
        → b ≢ 0
        → places b s ≡ 1
        → holds b s.display_buffer + holds b s.prev_display_buffer ≡ 1
    two_left b h e = omega (
      arith,
      e,
      count_empty s.current_available_buffer b h v.available a,
      count_empty s.current_display_buffer b h v.shown d,
      holds_nothing b s.write_buffer h w,
    )

pub get_buffer_number-Inv :
    (s : Exchange) → s.writer_pc ≡ WriterPc.idle → Inv s → Inv (get_buffer_number s)
unfolding get_buffer_number
get_buffer_number-Inv s e v =
    let nothing = writer_at WriterPc.idle e v in
    elim (Bool-cases (s.current_available_buffer.b0 == 0)) [
      | inr more ↦
          rw (more, get_buffer_number)
            (take_available-Inv s (ne_of_test s.current_available_buffer.b0 0 more) nothing v)
      | inl none_available ↦ elim (Bool-cases (s.current_display_buffer.b0 == 0)) [
        | inl none_shown ↦ absurd (
            some_queued s nothing ((==_iff s.current_available_buffer.b0 0).0 none_available)
              ((==_iff s.current_display_buffer.b0 0).0 none_shown) v)
        | inr shown ↦
            rw (none_available, shown, get_buffer_number)
              (move_writer s (WriterPc.waiting false)
                (nothing, (==_iff s.current_available_buffer.b0 0).0 none_available) v)
      ]
    ]

pub wake_writer-Inv :
    (s : Exchange) → s.writer_pc ≡ WriterPc.waiting true → Inv s → Inv (wake_writer s)
unfolding wake_writer
wake_writer-Inv s e v =
    let fits = writer_at (WriterPc.waiting true) e v in take_available-Inv s fits.1 fits.0 v

pub put_buffer-Inv : (s : Exchange) → s.writer_pc ≡ WriterPc.writing → Inv s → Inv (put_buffer s)
unfolding put_buffer
put_buffer-Inv s e v = record {
  one = omega (arith, v.one, added 1 (omega arith));
  two = omega (arith, v.two, added 2 (omega arith));
  three = omega (arith, v.three, added 3 (omega arith));
  available = v.available;
  shown = put-IsPacked a x v.small.2 v.shown;
  small = omega (arith, v.small);
  display = signal_display-Fits s.display_pc s.prev_display_buffer a.b0 (put a x).b0 v.display;
  writer = refl;
}
  where
    a : Buffers
    a = s.current_display_buffer

    x : ℕ
    x = s.write_buffer

    held : x ≢ 0
    held = writer_at WriterPc.writing e v

    room : a.b2 ≡ 0
    room = not_full a x v.shown held v.small.2 (omega (arith, v.one, v.two, v.three))

    added : (b : ℕ) → b ≢ 0 → count b (put a x) + holds b 0 ≡ count b a + holds b x
    added b n = ground (arith, count-put a x b n room v.shown)

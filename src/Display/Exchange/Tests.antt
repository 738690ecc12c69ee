-- ===== src/Display/Exchange/Tests.antt =====
-- Runs of the exchange, and the theorems at states that they reach.
use camview_opipc.Base.{◌≡◌, ◌≢◌, refl, Bool, false}
use camview_opipc.Display.Exchange.{
  Exchange, DisplayPc, Reach, start, later, init, target, test_run, next_frame, draw, give_back,
  get_buffer_number, put_buffer, tests, locks, draws, gives, gets, puts,
}
use camview_opipc.Display.Exchange.Count.{count}
use camview_opipc.Display.Exchange.Inv.{places}
use camview_opipc.Display.Exchange.Safety.{
  one_place, decoder_owns_target, waiting_decoder_served, stop_missed,
}

-- The display thread shows buffer 1 while the decoder takes buffer 2.
abbrev shown : Exchange
shown = draw (next_frame (test_run init))

abbrev decoding : Exchange
decoding = get_buffer_number shown

Reach-decoding : (b : Bool) → Reach b decoding
unfolding test_run next_frame draw get_buffer_number
Reach-decoding b =
    later (later (later (later start (tests refl refl)) (locks refl refl)) (draws refl refl))
      (gets refl refl)

-- The decoder outruns the display thread, which has not started, and waits.
abbrev second : Exchange
second = put_buffer (get_buffer_number (put_buffer (get_buffer_number init)))

abbrev outrun : Exchange
outrun = get_buffer_number second

Reach-outrun : (b : Bool) → Reach b outrun
unfolding get_buffer_number put_buffer
Reach-outrun b =
    later
      (later (later (later (later start (gets refl refl)) (puts refl refl)) (gets refl refl))
        (puts refl refl))
      (gets refl refl)

-- The display thread has shown the only frame and passed its test again.
abbrev between : Exchange
between = test_run (give_back shown)

Reach-between : Reach false between
unfolding test_run next_frame draw give_back
Reach-between =
    later
      (later (later (later (later start (tests refl refl)) (locks refl refl)) (draws refl refl))
        (gives refl refl))
      (tests refl refl)

one_place_example : (places 1 outrun ≡ 1) × (places 2 outrun ≡ 1) × (places 3 outrun ≡ 1)
one_place_example = one_place outrun (Reach-outrun false)

decoder_owns_target_example :
    (target decoding.write_buffer ≡ decoding.write_buffer)
    × (target decoding.write_buffer ≢ decoding.display_buffer)
    × (target decoding.write_buffer ≢ decoding.prev_display_buffer)
    × (count (target decoding.write_buffer) decoding.current_available_buffer ≡ 0)
    × (count (target decoding.write_buffer) decoding.current_display_buffer ≡ 0)
unfolding test_run next_frame draw get_buffer_number
decoder_owns_target_example = decoder_owns_target decoding (Reach-decoding false) refl

waiting_decoder_served_example :
    (outrun.current_display_buffer.b0 ≢ 0) × (outrun.display_pc ≢ DisplayPc.asleep false)
unfolding get_buffer_number put_buffer
waiting_decoder_served_example = waiting_decoder_served outrun (Reach-outrun false) refl

stop_missed_example :
    (t : Exchange) × Reach false t
    × (t.run_video_update ≡ false)
    × (t.display_pc ≡ DisplayPc.asleep false)
unfolding test_run next_frame draw give_back
stop_missed_example = stop_missed between Reach-between refl refl

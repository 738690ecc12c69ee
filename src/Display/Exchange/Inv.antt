-- ===== src/Display/Exchange/Inv.antt =====
-- The invariant holds at the start and is kept by every step without spurious wake-ups.
mod Defs
mod Display
mod Writer
pub use Defs.{places, DisplayFits, WriterFits, Inv, display_at, writer_at}
pub use Writer.{some_queued}
use camview_opipc.Base.{
  ℕ, ◌+◌, ◌≤◌, ◌≡◌, ◌≢◌, refl, inl, inr, Bool, true, false, ◌||◌, arith, ◌==◌, ==_iff, ne_of_test,
  if◌then◌else◌, Bool-cases,
}
use camview_opipc.Display.Exchange.{
  Buffers, forward, put, Exchange, DisplayPc, WriterPc, Step, Reach, start, later, init, test_run,
  next_frame, wake_display, draw, give_back, get_buffer_number, wake_writer, put_buffer,
  terminate_display, take_next, take_available, tests, locks, wakes_display, draws, gives, gets,
  wakes_writer, puts, terminates, signal_display, signal_writer,
}
use camview_opipc.Display.Exchange.Count.{
  holds, count, IsPacked, count-forward, count-put, forward-IsPacked, put-IsPacked, put-ne-zero,
  count_full, count_empty, not_full,
}
use Display.{
  test_run-Inv, next_frame-Inv, wake_display-Inv, draw-Inv, give_back-Inv, terminate_display-Inv,
}
use Writer.{get_buffer_number-Inv, wake_writer-Inv, put_buffer-Inv}

Inv-init : Inv init
Inv-init = omega arith

-- Without spurious wake-ups every step keeps the invariant.
pub Step-Inv : {s t : Exchange} → Step false s t → Inv s → Inv t
Step-Inv {s} (tests e q) v = rw q (test_run-Inv s e v)
Step-Inv {s} (locks e q) v = rw q (next_frame-Inv s e v)
Step-Inv {s} (wakes_display true e h q) v = rw q (wake_display-Inv s e v)
Step-Inv {s} (wakes_display false e h q) v = absurd (cc)
Step-Inv {s} (draws e q) v = rw q (draw-Inv s v)
Step-Inv {s} (gives e q) v = rw q (give_back-Inv s e v)
Step-Inv {s} (gets e q) v = rw q (get_buffer_number-Inv s e v)
Step-Inv {s} (wakes_writer true e h q) v = rw q (wake_writer-Inv s e v)
Step-Inv {s} (wakes_writer false e h q) v = absurd (cc)
Step-Inv {s} (puts e q) v = rw q (put_buffer-Inv s e v)
Step-Inv {s} (terminates q) v = rw q (terminate_display-Inv s v)

pub Reach-Inv : {s : Exchange} → Reach false s → Inv s
Reach-Inv start = Inv-init
Reach-Inv (later r st) = Step-Inv st (Reach-Inv r)

-- ===== src/Display/Exchange/Inv/Defs.antt =====
-- Each buffer is in one place, and what is known of the threads by where they stand.
use camview_opipc.Base.{ℕ, ◌+◌, ◌≤◌, ◌≡◌, ◌≢◌, true, false}
use camview_opipc.Display.Exchange.{Exchange, DisplayPc, WriterPc, signal_display, signal_writer}
use camview_opipc.Display.Exchange.Count.{holds, count, IsPacked}

-- In how many places the buffer `b` is: the two queues, on the screen, taken off the screen, or
-- with the decoder.
abbrev pub places : ℕ → Exchange → ℕ
places b s =
    count b s.current_available_buffer
    + count b s.current_display_buffer
    + holds b s.display_buffer
    + holds b s.prev_display_buffer
    + holds b s.write_buffer

-- What the display thread has taken off the screen, and the head of its queue, by where it stands.
abbrev pub DisplayFits : DisplayPc → ℕ → ℕ → Type 0
DisplayFits DisplayPc.drawing prev head = Unit
DisplayFits DisplayPc.giving prev head = Unit
DisplayFits (DisplayPc.asleep false) prev head = (prev ≡ 0) × (head ≡ 0)
DisplayFits _ prev head = prev ≡ 0

-- What the decoder holds, and the head of the available buffers, by where it stands.
abbrev pub WriterFits : WriterPc → ℕ → ℕ → Type 0
WriterFits WriterPc.writing held head = held ≢ 0
WriterFits WriterPc.idle held head = held ≡ 0
WriterFits (WriterPc.waiting false) held head = (held ≡ 0) × (head ≡ 0)
WriterFits (WriterPc.waiting true) held head = (held ≡ 0) × (head ≢ 0)

pub record Inv (s : Exchange) : Type 0 where
  pub one : places 1 s ≡ 1
  pub two : places 2 s ≡ 1
  pub three : places 3 s ≡ 1
  pub available : IsPacked s.current_available_buffer
  pub shown : IsPacked s.current_display_buffer
  pub small : (s.display_buffer ≤ 3) × (s.prev_display_buffer ≤ 3) × (s.write_buffer ≤ 3)
  pub display : DisplayFits s.display_pc s.prev_display_buffer s.current_display_buffer.b0
  pub writer : WriterFits s.writer_pc s.write_buffer s.current_available_buffer.b0

-- What the invariant says of the display thread at a known place.
pub display_at :
    {s : Exchange} (pc : DisplayPc)
    → s.display_pc ≡ pc
    → Inv s
    → DisplayFits pc s.prev_display_buffer s.current_display_buffer.b0
display_at pc e v = rw e at v.display

pub writer_at :
    {s : Exchange} (pc : WriterPc)
    → s.writer_pc ≡ pc
    → Inv s
    → WriterFits pc s.write_buffer s.current_available_buffer.b0
writer_at pc e v = rw e at v.writer

-- The decoder after a signal, when a buffer is available.
pub signal_writer-Fits :
    (pc : WriterPc) (held head head' : ℕ)
    → head' ≢ 0
    → WriterFits pc held head
    → WriterFits (signal_writer pc) held head'
signal_writer-Fits WriterPc.idle held head head' h w = w
signal_writer-Fits WriterPc.writing held head head' h w = w
signal_writer-Fits (WriterPc.waiting true) held head head' h w = (w.0, h)
signal_writer-Fits (WriterPc.waiting false) held head head' h w = (w.0, h)

pub signal_display-Fits :
    (pc : DisplayPc) (prev head head' : ℕ)
    → DisplayFits pc prev head
    → DisplayFits (signal_display pc) prev head'
signal_display-Fits DisplayPc.top prev head head' d = d
signal_display-Fits DisplayPc.ready prev head head' d = d
signal_display-Fits (DisplayPc.asleep true) prev head head' d = d
signal_display-Fits (DisplayPc.asleep false) prev head head' d = d.0
signal_display-Fits DisplayPc.drawing prev head head' d = d
signal_display-Fits DisplayPc.giving prev head head' d = d
signal_display-Fits DisplayPc.stopped prev head head' d = d

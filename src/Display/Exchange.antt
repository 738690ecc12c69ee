-- ===== src/Display/Exchange.antt =====
-- src/display.c, `forward`, `put`, `display_thread_loop`, `get_buffer_number`, `put_buffer` and the
-- start of `terminate_display`: what two threads do to the two arrays of buffer numbers. Each step
-- is one critical section of `current_values_lock`, or one access outside it. A thread in
-- `pthread_cond_wait` carries whether it was signalled. An error of `drmModeSetPlane` ends the
-- process and has no step.
pub mod Count
pub mod Inv
pub mod Safety
mod Tests
use camview_opipc.Base.{ℕ, ◌≡◌, Bool, true, false, ◌||◌, ◌==◌, if◌then◌else◌}

-- `buffer_t`: up to three buffer numbers, 0 for none.
pub record Buffers : Type 0 where
  pub b0 : ℕ
  pub b1 : ℕ
  pub b2 : ℕ

pub forward : Buffers → Buffers
forward a = record { b0 = a.b1; b1 = a.b2; b2 = 0 }

pub put : Buffers → ℕ → Buffers
put a x =
    if a.b0 == 0
    then record a { b0 = x }
    else if a.b1 == 0
    then record a { b1 = x }
    else if a.b2 == 0
    then record a { b2 = x }
    else a

-- Where the display thread stands: at the test of the loop, before the first lock, in the wait,
-- before the draw, before the second critical section, or returned.
pub data DisplayPc : Type 0 where
  top : DisplayPc
  ready : DisplayPc
  asleep : (signalled : Bool) → DisplayPc
  drawing : DisplayPc
  giving : DisplayPc
  stopped : DisplayPc

-- Where the decoder stands: outside, in the wait of `get_buffer_number`, or between the return
-- of `get_buffer_number` and `put_buffer`.
pub data WriterPc : Type 0 where
  idle : WriterPc
  waiting : (signalled : Bool) → WriterPc
  writing : WriterPc

-- The statics, and the locals of the display thread. `write_buffer` is what the decoder holds: 0
-- before `get_buffer_number` returns and after `put_buffer`.
pub record Exchange : Type 0 where
  pub current_available_buffer : Buffers
  pub current_display_buffer : Buffers
  pub run_video_update : Bool
  pub display_pc : DisplayPc
  pub display_buffer : ℕ
  pub prev_display_buffer : ℕ
  pub writer_pc : WriterPc
  pub write_buffer : ℕ

-- `init_display`
abbrev pub init : Exchange
init = record {
  current_available_buffer = record { b0 = 2; b1 = 3; b2 = 0 };
  current_display_buffer = record { b0 = 1; b1 = 0; b2 = 0 };
  run_video_update = true;
  display_pc = DisplayPc.top;
  display_buffer = 0;
  prev_display_buffer = 0;
  writer_pc = WriterPc.idle;
  write_buffer = 0;
}

-- `pthread_cond_signal`, of either condition.
abbrev pub signal_display : DisplayPc → DisplayPc
signal_display (DisplayPc.asleep b) = DisplayPc.asleep true
signal_display pc = pc

abbrev pub signal_writer : WriterPc → WriterPc
signal_writer (WriterPc.waiting b) = WriterPc.waiting true
signal_writer pc = pc

-- The test of `while (run_video_update)`.
pub test_run : Exchange → Exchange
test_run s = record s {
  display_pc = if s.run_video_update then DisplayPc.ready else DisplayPc.stopped;
}

abbrev pub take_next : Exchange → Exchange
take_next s = record s {
  prev_display_buffer = s.display_buffer;
  display_buffer = s.current_display_buffer.b0;
  current_display_buffer = forward s.current_display_buffer;
  display_pc = DisplayPc.drawing;
}

-- The first critical section, up to its end or to the wait.
pub next_frame : Exchange → Exchange
unfolding forward
next_frame s =
    if s.current_display_buffer.b0 == 0
    then record s { display_pc = DisplayPc.asleep false }
    else take_next s

-- The first critical section from the return of the wait; without a frame nothing is drawn.
pub wake_display : Exchange → Exchange
unfolding forward
wake_display s =
    if s.current_display_buffer.b0 == 0
    then record s { display_pc = DisplayPc.giving }
    else take_next s

pub draw : Exchange → Exchange
draw s = record s { display_pc = DisplayPc.giving }

-- `if (prev_display_buffer) { ... }` with the second critical section
pub give_back : Exchange → Exchange
unfolding put
give_back s =
    if s.prev_display_buffer == 0 then record s { display_pc = DisplayPc.top } else record s {
      current_available_buffer = put s.current_available_buffer s.prev_display_buffer;
      prev_display_buffer = 0;
      display_pc = DisplayPc.top;
      writer_pc = signal_writer s.writer_pc;
    }

abbrev pub take_available : Exchange → Exchange
take_available s = record s {
  write_buffer = s.current_available_buffer.b0;
  current_available_buffer = forward s.current_available_buffer;
  writer_pc = WriterPc.writing;
}

-- `get_buffer_number`, up to its return or to the wait
pub get_buffer_number : Exchange → Exchange
unfolding forward
get_buffer_number s =
    if s.current_available_buffer.b0 == 0
    then (if s.current_display_buffer.b0 == 0
        then record s { write_buffer = 0; writer_pc = WriterPc.writing }
        else record s { writer_pc = WriterPc.waiting false })
    else take_available s

-- `get_buffer_number` from the return of the wait, which is not tested again.
pub wake_writer : Exchange → Exchange
unfolding forward
wake_writer s = take_available s

pub put_buffer : Exchange → Exchange
unfolding put
put_buffer s = record s {
  current_display_buffer = put s.current_display_buffer s.write_buffer;
  display_pc = signal_display s.display_pc;
  writer_pc = WriterPc.idle;
  write_buffer = 0;
}

-- `run_video_update = 0; pthread_cond_signal(&display_buffer_cond);`, outside the lock
pub terminate_display : Exchange → Exchange
terminate_display s = record s {
  run_video_update = false;
  display_pc = signal_display s.display_pc;
}

-- `get_buffer` of src/jpeg_dec_main.c: the buffer that the decoder writes to.
pub target : ℕ → ℕ
target write_buffer = if write_buffer == 2 then 2 else if write_buffer == 3 then 3 else 1

-- The interleavings. With `spurious` a wait may return without a signal.
pub data Step (spurious : Bool) (s t : Exchange) : Type 0 where
  tests : s.display_pc ≡ DisplayPc.top → t ≡ test_run s → Step spurious s t
  locks : s.display_pc ≡ DisplayPc.ready → t ≡ next_frame s → Step spurious s t
  wakes_display :
      (b : Bool)
      → s.display_pc ≡ DisplayPc.asleep b
      → (b || spurious) ≡ true
      → t ≡ wake_display s
      → Step spurious s t
  draws : s.display_pc ≡ DisplayPc.drawing → t ≡ draw s → Step spurious s t
  gives : s.display_pc ≡ DisplayPc.giving → t ≡ give_back s → Step spurious s t
  gets : s.writer_pc ≡ WriterPc.idle → t ≡ get_buffer_number s → Step spurious s t
  wakes_writer :
      (b : Bool)
      → s.writer_pc ≡ WriterPc.waiting b
      → (b || spurious) ≡ true
      → t ≡ wake_writer s
      → Step spurious s t
  puts : s.writer_pc ≡ WriterPc.writing → t ≡ put_buffer s → Step spurious s t
  terminates : t ≡ terminate_display s → Step spurious s t

pub data Reach (spurious : Bool) : Exchange → Type 0 where
  start : Reach spurious init
  later : {s t : Exchange} → Reach spurious s → Step spurious s t → Reach spurious t

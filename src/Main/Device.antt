-- ===== src/Main/Device.antt =====
-- `main` of src/main.c: one round of the device loop, from the opening of the camera to its closing.
-- What the camera's driver answers is a record, and the value of a round is the list of its calls.
-- `mjpeg` is `V4L2_PIX_FMT_MJPEG` and `capture` is `V4L2_BUF_TYPE_VIDEO_CAPTURE`.
pub mod Count
pub mod Balance
pub mod Maps
mod Tests
use camview_opipc.Base.{
  ℕ, zero, suc, ◌+◌, Bool, true, false, Option, none, some, List, [], ◌∷◌, ◌++◌, ◌==◌,
  if◌then◌else◌,
}

-- An entry of `buffer_memory_map`, `none` for `MAP_FAILED` and 0 for NULL, and of
-- `buffer_memory_map_size`.
pub record Slot : Type 0 where
  pub address : Option ℕ
  pub size : ℕ

-- `VIDIOC_QUERYBUF` with the length, `mmap` with the address, and `VIDIOC_QBUF`.
pub record BufferAnswer : Type 0 where
  pub query : Option ℕ
  pub mmap : Option ℕ
  pub queued : Bool

pub record Format : Type 0 where
  pub pixelformat : ℕ
  pub width : ℕ
  pub height : ℕ

-- `formats` has the answers of `VIDIOC_ENUM_FMT`, and `none` is an error.
pub record Attempt : Type 0 where
  pub opened : Bool
  pub formats : List (Option ℕ)
  pub get_format : Option Format
  pub requested : Bool
  pub buffers : List BufferAnswer
  pub capture_joined : Bool
  pub control_joined : Bool

pub data Call : Type 0 where
  open_device close_device init_cec_controls stop_cec_controls hw_close : Call
  start_threads cancel_capture cancel_control : Call
  set_format : (pixelformat width height : ℕ) → Call
  mmap munmap : (address size : ℕ) → Call
  hw_init : (width height : ℕ) → Call

-- A round of the loop over the buffers, with the entry, the entries after it, and what the loop
-- does with them when it goes on: the entries, whether a buffer is queued, and the calls.
unfoldable pub map_buffer :
    Slot
    → List Slot
    → List Slot × Bool × List Call
    → (query mapped : Option ℕ) (queued : Bool) → List Slot × Bool × List Call
map_buffer s ss rest none mapped queued = (record { address = none; size = 0 } ∷ ss, false, [])
map_buffer s ss rest (some length) none queued = (record s { address = none } ∷ ss, false, [])
map_buffer s ss rest (some length) (some p) false =
    (record { address = some p; size = length } ∷ ss, false, Call.mmap p length ∷ [])
map_buffer s ss rest (some length) (some p) true =
    (record { address = some p; size = length } ∷ rest.0, true, Call.mmap p length ∷ rest.2)

unfoldable pub map_loop : List Slot → List BufferAnswer → List Slot × Bool × List Call
unfolding map_buffer
map_loop (s ∷ ss) (a ∷ answers) = map_buffer s ss (map_loop ss answers) a.query a.mmap a.queued
map_loop ss answers = (ss, false, [])

-- The last loop over the buffers: its calls, and the entries after it.
unfoldable pub unmap_call : Option ℕ → (size : ℕ) → List Call
unmap_call none size = []
unmap_call (some p) size = Call.munmap p size ∷ []

unfoldable pub unmap_loop : List Slot → List Call
unfolding unmap_call
unmap_loop [] = []
unmap_loop (s ∷ ss) = unmap_call s.address s.size ++ unmap_loop ss

unfoldable pub cleared_slot : Option ℕ → (size : ℕ) → Slot
cleared_slot none size = record { address = none; size = size }
cleared_slot (some p) size = record { address = none; size = 0 }

unfoldable pub cleared : List Slot → List Slot
unfolding cleared_slot
cleared [] = []
cleared (s ∷ ss) = cleared_slot s.address s.size ∷ cleared ss

-- The end of both threads.
unfoldable pub join_threads : Attempt → List Call
join_threads a =
    (if a.capture_joined then [] else Call.cancel_capture ∷ [])
    ++ (if a.control_joined then [] else Call.cancel_control ∷ [])

-- The rest of a round in which a buffer is queued.
unfoldable pub run : List Slot → Attempt → Format → List Call
unfolding unmap_loop join_threads
run maps a f =
    Call.init_cec_controls
    ∷ Call.hw_init f.width f.height
    ∷ Call.start_threads
    ∷ (join_threads a
        ++ (unmap_loop maps ++ (Call.close_device ∷ Call.hw_close ∷ Call.stop_cec_controls ∷ [])))

-- The round from the loop over the buffers on.
unfoldable pub streamed : List Slot × Bool × List Call → Attempt → Format → List Slot × List Call
unfolding run cleared
streamed (maps, has_buffer_mapped, calls) a f =
    if has_buffer_mapped
    then (cleared maps, calls ++ run maps a f)
    else (maps, calls ++ (Call.close_device ∷ []))

module _ (mjpeg capture : ℕ) where
  -- The loop over the formats, with `found_format_desc`.
  unfoldable pub find_format : List (Option ℕ) → Bool
  find_format [] = false
  find_format (none ∷ fs) = false
  find_format (some f ∷ fs) = if f == mjpeg then true else find_format fs

  -- The round after `VIDIOC_G_FMT`.
  unfoldable pub with_format : List Slot → Attempt → Option Format → List Slot × List Call
  unfolding streamed map_loop
  with_format slots a none = (slots, Call.close_device ∷ [])
  with_format slots a (some f) =
      if f.pixelformat == mjpeg
      then (if a.requested
          then streamed (map_loop slots a.buffers) a f
          else (slots, Call.close_device ∷ []))
      else (slots, Call.close_device ∷ [])

  -- `VIDIOC_S_FMT` is given the type in place of the pixel format.
  unfoldable pub device_round : List Slot → Attempt → List Slot × List Call
  unfolding find_format with_format
  device_round slots a =
      let next = with_format slots a a.get_format in
      if a.opened
      then (if find_format a.formats
          then (next.0, Call.open_device ∷ Call.set_format capture 1920 1080 ∷ next.1)
          else (slots, Call.open_device ∷ Call.close_device ∷ []))
      else (slots, [])

  -- The calls of the rounds; the loop ends when `device_loop_run` is cleared.
  unfoldable pub device_loop : List Slot → List Attempt → List Call
  unfolding device_round
  device_loop slots [] = []
  device_loop slots (a ∷ attempts) =
      let (next, calls) = device_round slots a in calls ++ device_loop next attempts

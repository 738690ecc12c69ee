-- ===== src/Main/Device/Tests.antt =====
-- Runs of the device loop: a camera that fails, and one that streams from two of its buffers.
use camview_opipc.Base.{ℕ, ◌≡◌, refl, Bool, true, false, none, some, List, [], ◌∷◌, All, replicate}
use camview_opipc.Main.Device.{Slot, BufferAnswer, Attempt, Call, device_loop, device_round}
use camview_opipc.Main.Device.Count.{count}
use camview_opipc.Main.Device.Balance.{is, device_loop-balanced}
use camview_opipc.Main.Device.Maps.{maps, unmaps, held, first_kept, device_loop-unmapped}

abbrev mjpeg : ℕ
mjpeg = 1196444237

abbrev null : Slot
null = record { address = some 0; size = 0 }

abbrev attempt : List BufferAnswer → Attempt
attempt buffers = record {
  opened = true;
  formats = some 1448695129 ∷ some mjpeg ∷ [];
  get_format = some (record { pixelformat = mjpeg; width = 1920; height = 1080 });
  requested = true;
  buffers = buffers;
  capture_joined = true;
  control_joined = false;
}

abbrev buffer : (address : ℕ) (queued : Bool) → BufferAnswer
buffer address queued = record { query = some 4096; mmap = some address; queued = queued }

abbrev attempts : List Attempt
attempts =
    attempt (record { query = none; mmap = none; queued = false } ∷ [])
    ∷ attempt (buffer 8192 true ∷ buffer 16384 false ∷ [])
    ∷ []

streams :
    device_loop mjpeg 1 (replicate 3 null) attempts
    ≡ Call.open_device
      ∷ Call.set_format 1 1920 1080
      ∷ Call.close_device
      ∷ Call.open_device
      ∷ Call.set_format 1 1920 1080
      ∷ Call.mmap 8192 4096
      ∷ Call.mmap 16384 4096
      ∷ Call.init_cec_controls
      ∷ Call.hw_init 1920 1080
      ∷ Call.start_threads
      ∷ Call.cancel_control
      ∷ Call.munmap 8192 4096
      ∷ Call.munmap 16384 4096
      ∷ Call.munmap 0 0
      ∷ Call.close_device
      ∷ Call.hw_close
      ∷ Call.stop_cec_controls
      ∷ []
unfolding device_loop
streams = refl

-- A first buffer that is mapped and not queued stays mapped.
leaks :
    (device_round mjpeg 1 (replicate 3 null) (attempt (buffer 8192 false ∷ []))).1
    ≡ Call.open_device ∷ Call.set_format 1 1920 1080 ∷ Call.mmap 8192 4096 ∷ Call.close_device ∷ []
unfolding device_round
leaks = refl

device_loop-balanced_example :
    (count (is 1) (device_loop mjpeg 1 (replicate 3 null) attempts)
      ≡ count (is 2) (device_loop mjpeg 1 (replicate 3 null) attempts))
    × (count (is 3) (device_loop mjpeg 1 (replicate 3 null) attempts)
        ≡ count (is 4) (device_loop mjpeg 1 (replicate 3 null) attempts))
    × (count (is 5) (device_loop mjpeg 1 (replicate 3 null) attempts)
        ≡ count (is 6) (device_loop mjpeg 1 (replicate 3 null) attempts))
device_loop-balanced_example = device_loop-balanced mjpeg 1 (replicate 3 null) attempts

none_held : held 8192 (replicate 3 null) ≡ 0
unfolding held
none_held = refl

all_kept : All (λ a. first_kept a.buffers ≡ true) attempts
unfolding first_kept
all_kept = (refl, (refl, _))

device_loop-unmapped_example :
    count (maps 8192) (device_loop mjpeg 1 (replicate 3 null) attempts)
    ≡ count (unmaps 8192) (device_loop mjpeg 1 (replicate 3 null) attempts)
device_loop-unmapped_example =
    device_loop-unmapped 8192 mjpeg 1 (replicate 3 null) attempts none_held all_kept

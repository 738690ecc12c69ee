-- ===== src/Decode/Main/Rounds.antt =====
-- The rounds of `main` of src/main.c in which a camera streams, as src/jpeg_dec_main.c and src/ve.c
-- see them: `hw_init`, the frames, `hw_close`, with the lock of the engine, between `ve_open` and
-- `ve_close`. The decoder's `ve` is that of the device.
pub mod Idle
pub mod Closed
pub mod Held
pub mod Unopened
mod Tests
use camview_opipc.Base.{
  ℕ, ◌≡◌, ◌≢◌, refl, ◌∙◌, Bool, true, false, Option, none, some, List, [], ◌∷◌, ◌++◌, arith,
  if◌then◌else◌,
}
use camview_opipc.Ve.{Ve, Mmap, map_failed}
use camview_opipc.Ve.RoundTrip.{Coalesced, IsFresh}
use camview_opipc.Ve.Device.{
  Device, Kernel, Call, Returned, ve_open, ve_close, ve_get, ve_put, ve_put_dma_vaddrs,
}
use camview_opipc.Ve.Registers.{Engine, engine_number}
use camview_opipc.Decode.Main.{Decoder, hw_init, hw_close, Answers}
use camview_opipc.Decode.Main.Memory.{decode_all, hw_close-hw_init}

-- What a round is given: what `mmap` answers, the size of the picture, the frames, and if
-- `terminate_display` returns, which joins the display's thread.
pub record Round : Type 0 where
  pub mmap : Mmap
  pub width : ℕ
  pub height : ℕ
  pub frames : List (Answers × List ℕ)
  pub display_ends : Bool

-- The device, the decoder, and the calls so far.
pub record Machine : Type 0 where
  pub device : Device
  pub decoder : Decoder
  pub calls : List Call

infixl 5 ◌and_then◌
abbrev pub ◌and_then◌ : {A B : Type 0} → Returned A → (A → Returned B) → Returned B
Returned.returns a and_then f = f a
Returned.blocks and_then f = Returned.blocks
Returned.faults and_then f = Returned.faults

abbrev of_option : {A : Type 0} → Option A → Returned A
of_option none = Returned.faults
of_option (some a) = Returned.returns a

-- The memory of the video engine, as the decoder has changed it.
abbrev pub with_memory : Device → Decoder → List Call → Machine
with_memory dev d calls = record { device = record dev { ve = d.ve }; decoder = d; calls = calls }

-- `hw_init` with `ve_get(VE_ENGINE_MPEG, 0)`.
unfoldable pub engine_init : Round → Machine → Returned Machine
unfolding ve_get hw_init
engine_init r m = ve_get (engine_number Engine.mpeg) 0 m.device and_then λ (regs, dev, now).
    Returned.returns (
      with_memory dev (hw_init r.mmap r.width r.height (record m.decoder { ve = dev.ve }))
        (m.calls ++ now))

unfoldable pub frames_decoded : Round → Machine → Returned Machine
unfolding decode_all
frames_decoded r m = of_option (decode_all r.frames m.decoder) and_then λ d.
    Returned.returns (with_memory m.device d m.calls)

-- What `hw_close` does behind `ve_free`.
unfoldable pub closing_calls : Device → List Call
unfolding ve_put_dma_vaddrs
closing_calls dev =
    Call.terminates_display ∷ (ve_put_dma_vaddrs dev ++ (Call.deallocates_buffers ∷ []))

-- `hw_close` with its calls.
unfoldable pub engine_close : Round → Machine → Returned Machine
unfolding ve_put closing_calls hw_close
engine_close r m = ve_put m.device and_then λ (dev, now).
    if r.display_ends
    then Returned.returns
        (with_memory dev (hw_close m.decoder) (m.calls ++ now ++ closing_calls dev))
    else Returned.blocks

unfoldable pub round : Round → Machine → Returned Machine
unfolding engine_init frames_decoded engine_close
round r m = engine_init r m and_then λ m1. frames_decoded r m1 and_then engine_close r

unfoldable pub rounds : List Round → Machine → Returned Machine
unfolding round
rounds [] m = Returned.returns m
rounds (r ∷ rs) m = round r m and_then rounds rs

-- The part of `main` from `ve_open`, whose result it does not look at, to `ve_close`.
unfoldable pub engine_run : Kernel → List Round → Device → Decoder → Returned Machine
unfolding ve_open rounds ve_close
engine_run k rs dev d =
    let (ok, opened, calls) = ve_open k dev in
    rounds rs (with_memory opened (record d { ve = opened.ve }) calls) and_then λ m.
    let (closed, now) = ve_close m.device in
    Returned.returns (record {
      device = closed;
      decoder = record m.decoder { ve = closed.ve };
      calls = m.calls ++ now;
    })

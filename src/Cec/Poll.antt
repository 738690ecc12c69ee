-- ===== src/Cec/Poll.antt =====
-- src/cec_controls.c, the `process_*` functions and `poll_cec_events`, with the codes of src/atem.h.
pub mod Drain
use Prim.Native.String.{String}
use camview_opipc.Base.{
  ℕ, zero, suc, ◌+◌, ◌*◌, Bool, true, false, ◌||◌, not, Option, none, some, List, [], ◌∷◌, ◌++◌,
  ◌==◌, if◌then◌else◌,
}
use camview_opipc.Base.Int.{ℤ, pos, negsuc, ◌+ℤ◌, ◌-ℤ◌, ◌*ℤ◌}
use camview_opipc.Cec.Queue.{Message, Queue, take_message}
use camview_opipc.Cec.Apply.{Float, QueryCtrl, SetCtrl, apply_value}

-- The statics that keep the high byte of a value between messages.
pub record Latches : Type 0 where
  pub contrast_data2 : ℕ
  pub saturation_data2 : ℕ
  pub pivot_data2 : ℕ
  pub luma_data2 : ℕ
  pub shutter_data2 : ℕ

-- The controls of the camera, and the range of their ids.
pub record Camera : Type 0 where
  pub query : ℕ → Option QueryCtrl
  pub base : ℕ
  pub count : ℕ

-- A message's effect: the latches, the ioctl made, and the value returned.
abbrev pub Effect : Type 0
Effect = Latches × (Option SetCtrl × ℕ)

-- `if (msg->hasData2 != 0) latch = msg->data2;`
abbrev pub latch : Message → ℕ → ℕ
latch m old = if m.has_data2 then m.data2 else old

-- `(latch << 8) | msg->data1`
abbrev pub value_of : ℕ → Message → ℤ
value_of high m = pos (high * 256 + m.data1)

module _ (fl : Float) (cam : Camera) where
  open cam use {query, base, count}

  pub process_contrast : Latches → Message → Effect
  process_contrast s m =
      let high = latch m s.contrast_data2 in
      (
        record s { contrast_data2 = high },
        apply_value fl query base count "Contrast" (pos 0) (pos 4096) (value_of high m),
      )

  pub process_saturation : Latches → Message → Effect
  process_saturation s m =
      let high = latch m s.saturation_data2 in
      (
        record s { saturation_data2 = high },
        apply_value fl query base count "Saturation" (pos 0) (pos 4096) (value_of high m),
      )

  pub process_pivot : Latches → Message → Effect
  process_pivot s m =
      let high = latch m s.pivot_data2 in
      (
        record s { pivot_data2 = high },
        apply_value fl query base count "Bright" (pos 0) (pos 2048) (value_of high m),
      )

  pub process_luma : Latches → Message → Effect
  process_luma s m =
      let high = latch m s.luma_data2 in
      (
        record s { luma_data2 = high },
        apply_value fl query base count "Gamma" (pos 0) (pos 2048) (value_of high m),
      )

  pub process_shutter_speed : Latches → Message → Effect
  process_shutter_speed s m =
      let high = latch m s.shutter_data2 in
      (
        record s { shutter_data2 = high },
        apply_value fl query base count "Gain" (pos 41667) (pos 500) (value_of high m),
      )

  pub process_wbt : Latches → Message → Effect
  unfolding ◌+ℤ◌ ◌-ℤ◌ ◌*ℤ◌
  process_wbt s m =
      let color_temp = (pos m.data1 -ℤ pos 50) *ℤ pos 50 +ℤ pos 2500 in
      (s, apply_value fl query base count "White Balance Temperature" (pos 0) (pos 0) color_temp)

  -- The `switch` of `poll_cec_events`; hue, tint and unknown codes do nothing.
  unfoldable pub dispatch : Latches → Message → Effect
  unfolding process_contrast process_luma process_pivot process_saturation process_shutter_speed
      process_wbt
  dispatch s m =
      if m.code == 0x20
      then process_contrast s m
      else if m.code == 0x1d
      then (s, (none, 0))
      else if m.code == 0x21
      then process_luma s m
      else if m.code == 0x1f
      then process_pivot s m
      else if m.code == 0x1e
      then process_saturation s m
      else if m.code == 0x57
      then process_shutter_speed s m
      else if m.code == 0x55
      then (s, (none, 0))
      else if m.code == 0x54
      then process_wbt s m
      else (s, (none, 0))

  abbrev pub calls_of : Option SetCtrl → List SetCtrl
  calls_of none = []
  calls_of (some c) = c ∷ []

  -- The loop, with the ioctls made and `changed` so far; `none` when the fuel runs out.
  pub poll_loop :
      ℕ → Latches → Queue → List SetCtrl → Bool → Option (Latches × Queue × List SetCtrl × Bool)
  poll_loop zero s q calls changed = none
  poll_loop (suc fuel) s q calls changed = elim (take_message q) [
    | none ↦ some (s, q, calls, changed)
    | some (m, q') ↦
        let e = dispatch s m in
        poll_loop fuel e.0 q' (calls ++ calls_of e.1.0) (changed || not (e.1.1 == 0))
  ]

  pub poll_cec_events : ℕ → Latches → Queue → Option (Latches × Queue × List SetCtrl × Bool)
  unfolding poll_loop
  poll_cec_events fuel s q = poll_loop fuel s q [] false

-- ===== src/Cec/Apply.antt =====
-- src/cec_controls.c, `apply_value`. The camera is what VIDIOC_QUERYCTRL answers for each id, with
-- `none` where it fails. The C code computes with `double`: its operations are the parameter
-- `Float`. The ids run from V4L2_CID_BASE to V4L2_CID_LASTP1, which are parameters too.
pub mod Values
use Prim.Native.String.{String}
use text.Mathlib.Text.{◌==◌ as str_eq}
use camview_opipc.Base.{
  ℕ, zero, suc, ◌+◌, ◌/◌, ◌≤◌, ◌<◌, ◌≡◌, ◌≢◌, refl, Bool, true, false, ◌&&◌, ◌||◌, not, Option,
  none, some, arith, ◌==◌, if◌then◌else◌, Bool-cases, Option-cases, inl, inr, ltb, leb,
}
use camview_opipc.Base.Int.{eq_ℤ, ℤ, pos, negsuc, ◌-ℤ◌, ◌*ℤ◌, ltb_ℤ, pos_part, neg_part}

-- `double`, with the conversions from and to `int` (`(int) round(x)`).
pub record Float : Type 1 where
  pub F : Type 0
  pub of_int : ℤ → F
  pub add : F → F → F
  pub sub : F → F → F
  pub mul : F → F → F
  pub div : F → F → F
  pub round : F → ℤ

-- The types of a `v4l2_queryctrl` that the code tells apart.
pub data CtrlType : Type 0 where
  integer u8 u16 u32 menu integer_menu other : CtrlType

pub record QueryCtrl : Type 0 where
  pub name : String
  pub type : CtrlType
  pub minimum : ℤ
  pub maximum : ℤ
  pub step : ℤ

-- What VIDIOC_S_CTRL is called with; a value that was never assigned, or is
-- undefined, is `none`.
pub record SetCtrl : Type 0 where
  pub id : ℕ
  pub value : Option ℤ

abbrev pub leb_ℤ : ℤ → ℤ → Bool
leb_ℤ a b = leb (pos_part a + neg_part b) (pos_part b + neg_part a)

-- Division of `int` by a number that is not 0: the quotient is cut towards 0.
unfoldable pub quot : ℤ → ℤ → ℤ
quot (pos a) (pos b) = pos (a / b)
quot (pos a) (negsuc b) = pos 0 -ℤ pos (a / suc b)
quot (negsuc a) (pos b) = pos 0 -ℤ pos (suc a / b)
quot (negsuc a) (negsuc b) = pos (suc a / suc b)

abbrev pub is_integer : CtrlType → Bool
is_integer CtrlType.integer = true
is_integer CtrlType.u8 = true
is_integer CtrlType.u16 = true
is_integer CtrlType.u32 = true
is_integer _ = false

-- `(val / step) * step`
pub multiple : ℤ → ℤ → ℤ
unfolding quot ◌*ℤ◌ ◌-ℤ◌
multiple val step = quot val step *ℤ step

-- A division by 0 is undefined.
pub to_step : ℤ → ℤ → Option ℤ
unfolding multiple
to_step val step = if eq_ℤ step (pos 0) then none else some (multiple val step)

-- The value of `ctrl.value` for the control `q`.
module _ (fl : Float) where
  open fl use {of_int, add, sub, mul, div, round}

  pub input_percent : ℤ → ℤ → ℤ → fl.F
  unfolding ◌-ℤ◌
  input_percent min max val =
      let percent = div (of_int (val -ℤ min)) (of_int (max -ℤ min)) in
      if ltb_ℤ max min then sub (of_int (pos 1)) percent else percent

  pub scaled : ℤ → ℤ → ℤ → QueryCtrl → Option ℤ
  unfolding input_percent to_step ◌-ℤ◌
  scaled min max val q =
      let range = of_int (q.maximum -ℤ q.minimum) in
      let output = round (add (mul range (input_percent min max val)) (of_int q.minimum)) in
      if leb_ℤ q.minimum output && leb_ℤ output q.maximum then to_step output q.step else none

  unfoldable pub output_value : ℤ → ℤ → ℤ → QueryCtrl → Option ℤ
  unfolding scaled to_step
  output_value min max val q =
      if eq_ℤ min (pos 0) && eq_ℤ max (pos 0)
      then (if leb_ℤ val q.minimum
          then some q.minimum
          else if leb_ℤ q.maximum val
          then some q.maximum
          else to_step val q.step)
      else if eq_ℤ val min
      then some q.minimum
      else if eq_ℤ val max
      then some q.maximum
      else scaled min max val q

  -- The loop over `n` ids from `i` on: the first integer control of the name is set, and 1 is
  -- returned, or 0 if there is none. `ctrl.id` is 1 in every round.
  pub apply_loop : (ℕ → Option QueryCtrl) → String → ℤ → ℤ → ℤ → ℕ → ℕ → Option SetCtrl × ℕ
  apply_loop query name min max val zero i = (none, 0)
  apply_loop query name min max val (suc n) i =
      let rest = apply_loop query name min max val n (i + 1) in
      elim (query i) [
        | none ↦ rest
        | some q ↦
            if str_eq q.name name && is_integer q.type
            then (some (record { id = 1; value = output_value min max val q }), 1)
            else rest
      ]

  unfoldable pub apply_value :
      (ℕ → Option QueryCtrl) → (base count : ℕ) → String → ℤ → ℤ → ℤ → Option SetCtrl × ℕ
  unfolding apply_loop output_value
  apply_value query base count name min max val = apply_loop query name min max val count base

-- ===== src/Cec/Apply/Values.antt =====
-- Which value `apply_value` writes, and to which control.
use Prim.Native.String.{String}
use text.Mathlib.Text.{◌==◌ as str_eq}
use camview_opipc.Base.{
  ℕ, zero, suc, ◌+◌, ◌*◌, ◌/◌, ◌≤◌, ◌<◌, ◌≡◌, ◌≢◌, sym, ap, refl, test_of_ne, true, false, ◌&&◌,
  Option, none, some, arith, Bool-cases, Option-cases, inl, inr,
}
use camview_opipc.Base.Int.{eq_ℤ, ℤ, pos, ◌≤ℤ◌}
use camview_opipc.Cec.Apply.{
  Float, QueryCtrl, SetCtrl, multiple, to_step, is_integer, output_value, apply_loop, apply_value,
}

multiple_pos : (v s : ℕ) → multiple (pos v) (pos s) ≡ pos (v / s * s)
unfolding multiple
multiple_pos v s = ground arith

to_step-positive :
    (v step : ℤ) (s : ℕ) → step ≡ pos s → 0 < s → to_step v step ≡ some (multiple v step)
unfolding to_step
to_step-positive v step s e p =
    let nz : s ≢ 0 = omega arith in
    let test : eq_ℤ step (pos 0) ≡ false = rw e (test_of_ne s 0 nz) in rw test refl

-- A control whose minimum is not negative and a multiple of its positive step.
pub record IsStepped (q : QueryCtrl) (k s m : ℕ) : Type 0 where
  pub step_at : q.step ≡ pos s
  pub minimum_at : q.minimum ≡ pos (k * s)
  pub maximum_at : q.maximum ≡ pos m
  pub positive : 0 < s
  pub ordered : k * s ≤ m

-- The id of the ioctl, 0 for none.
id_of : Option SetCtrl × ℕ → ℕ
id_of (none, r) = 0
id_of (some c, r) = c.id

InRange : QueryCtrl → ℤ → Type 0
InRange q w = (q.minimum ≤ℤ w) × (w ≤ℤ q.maximum)

module _ (fl : Float) where
  -- Forwarding a value (`min` and `max` 0) writes one below the minimum of the control whenever the
  -- value exceeds the minimum, but its last multiple of the step does not reach it.
  pub output_value_below_minimum :
      (q : QueryCtrl) (lo hi s v : ℕ)
      → q.minimum ≡ pos lo
      → q.maximum ≡ pos hi
      → q.step ≡ pos s
      → 0 < s
      → lo < v
      → v < hi
      → v / s * s < lo
      → (w : ℕ) × (output_value fl (pos 0) (pos 0) (pos v) q ≡ some (pos w)) × (w < lo)
  unfolding output_value
  output_value_below_minimum q lo hi s v a b c p above below cut = (
    v / s * s,
    rw (a, b, c) (ground (arith, multiple_pos v s, to_step-positive (pos v) (pos s) s refl p)),
    cut,
  )

  apply_loop_id :
      (query : ℕ → Option QueryCtrl) (name : String) (min max val : ℤ) (n i : ℕ) (c : SetCtrl)
      (r : ℕ)
      → apply_loop fl query name min max val n i ≡ (some c, r)
      → (j : ℕ) × (q : QueryCtrl) × (i ≤ j)
        × (query j ≡ some q)
        × (str_eq q.name name ≡ true)
        × (c.id ≡ 1)
  unfolding apply_loop id_of
  apply_loop_id query name min max val zero i c r e = absurd (cc)
  apply_loop_id query name min max val (suc n) i c r e = elim (Option-cases (query i)) [
    | inl nothing ↦
        later (apply_loop_id query name min max val n (i + 1) c r (rw (nothing, apply_loop) at e))
    | inr (q, found) ↦ elim (Bool-cases (str_eq q.name name && is_integer q.type)) [
      | inl hit ↦ (
        i,
        q,
        omega arith,
        found,
        ground arith,
        sym (ap id_of (rw hit at (rw (found, apply_loop) at e))),
      )
      | inr miss ↦ later (
          apply_loop_id query name min max val n (i + 1) c r
            (rw miss at (rw (found, apply_loop) at e)))
    ]
  ]
    where
      later :
          (j : ℕ) × (q : QueryCtrl) × (i + 1 ≤ j)
            × (query j ≡ some q)
            × (str_eq q.name name ≡ true)
            × (c.id ≡ 1)
          → (j : ℕ) × (q : QueryCtrl) × (i ≤ j)
            × (query j ≡ some q)
            × (str_eq q.name name ≡ true)
            × (c.id ≡ 1)
      later (j, q, le, a, b, d) = (j, q, omega arith, a, b, d)

  -- Where the control ids start above 1 and `apply_value` sets a control, the id that is written is
  -- not the id of the control of the name that was found.
  pub apply_value_wrong_id :
      (query : ℕ → Option QueryCtrl) (base count : ℕ) (name : String) (min max val : ℤ)
      (c : SetCtrl) (r : ℕ)
      → 1 < base
      → apply_value fl query base count name min max val ≡ (some c, r)
      → (j : ℕ) × (q : QueryCtrl) × (query j ≡ some q) × (str_eq q.name name ≡ true) × (c.id ≢ j)
  unfolding apply_value
  apply_value_wrong_id query base count name min max val c r h e =
      let (j, q, le, found, same, one) = apply_loop_id query name min max val count base c r e in
      (j, q, found, same, omega arith)

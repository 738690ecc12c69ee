-- ===== src/Control/Set.antt =====
-- `set_control` of src/control-file.c.
pub mod Settle
use Prim.Native.String.{String}
use text.Mathlib.Text.{◌==◌ as str_eq}
use camview_opipc.Base.{
  ℕ, zero, suc, ◌+◌, Bool, true, false, not, ◌&&◌, ◌||◌, Option, none, some, List, [], ◌∷◌, ◌++◌,
  if◌then◌else◌,
}
use camview_opipc.Base.Int.{eq_ℤ, ℤ}
use camview_opipc.Control.{Driver, QueryCtrl}

-- The state of the camera, the calls of VIDIOC_S_CTRL and the returned `changed`.
pub record Outcome (S : Type 0) : Type 0 where
  pub state : S
  pub calls : List (ℕ × ℤ)
  pub changed : Bool

-- Whether a control with the answers of VIDIOC_QUERYCTRL and VIDIOC_G_CTRL is set.
unfoldable pub should_set : String → ℤ → Option QueryCtrl → Option ℤ → Bool
should_set name value none _ = false
should_set name value (some q) none = false
should_set name value (some q) (some prev_value) = str_eq q.name name && not (eq_ℤ prev_value value)

module _ (d : Driver) where
  open d use {S, query, g_ctrl, s_ctrl, base, count}

  unfoldable pub set_one : String → ℤ → ℕ → d.S → Outcome d.S
  unfolding should_set
  set_one name value i s =
      if should_set name value (query s i) (g_ctrl s i)
      then record { state = s_ctrl s i value; calls = (i, value) ∷ []; changed = true }
      else record { state = s; calls = []; changed = false }

  unfoldable pub set_loop : String → ℤ → ℕ → ℕ → d.S → Outcome d.S
  unfolding set_one
  set_loop name value zero i s = record { state = s; calls = []; changed = false }
  set_loop name value (suc n) i s =
      let now = set_one name value i s in
      let rest = set_loop name value n (i + 1) now.state in
      record {
        state = rest.state;
        calls = now.calls ++ rest.calls;
        changed = now.changed || rest.changed;
      }

  unfoldable pub set_control : String → ℤ → d.S → Outcome d.S
  unfolding set_loop
  set_control name value s = set_loop name value count base s

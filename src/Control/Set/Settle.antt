-- ===== src/Control/Set/Settle.antt =====
-- A round of `set_control` over controls that have the value makes no call.
use Prim.Native.String.{String}
use text.Mathlib.Text.{◌==◌ as str_eq}
use camview_opipc.Base.{
  ℕ, zero, suc, ◌+◌, ◌≤◌, ◌<◌, ◌≡◌, refl, Bool, true, false, ◌&&◌, Option, none, some, [], ==_refl,
  arith,
}
use camview_opipc.Base.Int.{eq_ℤ, ℤ, pos, negsuc}
use camview_opipc.Control.{Driver, QueryCtrl}
use camview_opipc.Control.Set.{Outcome, should_set, set_one, set_loop}

abbrev pub unchanged : {S : Type 0} → S → Outcome S
unchanged s = record { state = s; calls = []; changed = false }

pub eq_ℤ_refl : (v : ℤ) → eq_ℤ v v ≡ true
eq_ℤ_refl (pos n) = ==_refl n
eq_ℤ_refl (negsuc n) = ==_refl n

and_false : (b : Bool) → (b && false) ≡ false
and_false true = refl
and_false false = refl

pub should_set-same :
    (name : String) → (v : ℤ) → (q : Option QueryCtrl) → should_set name v q (some v) ≡ false
unfolding should_set
should_set-same name v none = refl
should_set-same name v (some q) = rw (eq_ℤ_refl v) (and_false (str_eq q.name name))

module _ (d : Driver) (name : String) (value : ℤ) where
  open d use {query, g_ctrl, s_ctrl}

  abbrev pub Settled : d.S → ℕ → Type 0
  Settled s j = should_set name value (query s j) (g_ctrl s j) ≡ false

  -- A round over settled ids only makes no call.
  pub set_loop_calm :
      (n i : ℕ)
      → (s : d.S) → ((j : ℕ) → i ≤ j → j < i + n → Settled s j)
      → set_loop d name value n i s ≡ unchanged s
  unfolding set_loop set_one
  set_loop_calm zero i s all = refl
  set_loop_calm (suc n) i s all =
      rw (all i (omega arith) (omega arith))
        (rw (set_loop_calm n (i + 1) s (λ j le lt. all j (omega arith) (omega arith))) refl)

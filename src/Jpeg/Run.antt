-- ===== src/Jpeg/Run.antt =====
-- How a run of the parser ends, and what is asserted of all runs.
use camview_opipc.Base.{◌≡◌, ◌≢◌}

pub data Outcome {ℓ} (A : Type ℓ) : Type ℓ where
  done : A → Outcome A
  -- the function returns 0
  reject : Outcome A
  -- a read past the end of the data
  fault : Outcome A
  no_fuel : Outcome A

infixl 5 ◌>>=◌
abbrev pub ◌>>=◌ {ℓ κ} : {A : Type ℓ} {B : Type κ} → Outcome A → (A → Outcome B) → Outcome B
done a >>= f = f a
reject >>= f = reject
fault >>= f = fault
no_fuel >>= f = no_fuel

-- The run does not run out of fuel, and what it returns satisfies `P`.
pub data Returns {ℓ κ} {A : Type ℓ} (P : A → Type κ) : Outcome A → Type (ℓ ⊔ κ) where
  returns : {a : A} → P a → Returns P (done a)
  rejects : Returns P reject
  faults : Returns P fault

-- `P` at the value returned, if one is.
abbrev Holds {ℓ κ} : {A : Type ℓ} → (A → Type κ) → Outcome A → Type κ
Holds P (done a) = P a
Holds P reject = Unit
Holds P fault = Unit
Holds P no_fuel = Unit

module _ {ℓ κ} {A : Type ℓ} {P : A → Type κ} where
  pub Returns-bind {ι μ} :
      {B : Type ι} {Q : B → Type μ} {r : Outcome A} {k : A → Outcome B}
      → Returns P r
      → ((a : A) → P a → Returns Q (k a))
      → Returns Q (r >>= k)
  Returns-bind (returns p) next = next _ p
  Returns-bind rejects next = rejects
  Returns-bind faults next = faults

  pub mono {κ'} :
      {Q : A → Type κ'} {r : Outcome A} → Returns P r → ((a : A) → P a → Q a) → Returns Q r
  mono (returns p) weaken = returns (weaken _ p)
  mono rejects weaken = rejects
  mono faults weaken = faults

  holds : {r : Outcome A} → Returns P r → Holds P r
  holds (returns p) = p
  holds rejects = tt
  holds faults = tt

  pub Returns-ne-no_fuel : {r : Outcome A} → Returns P r → r ≢ no_fuel
  Returns-ne-no_fuel (returns p) e = cc
  Returns-ne-no_fuel rejects e = cc
  Returns-ne-no_fuel faults e = cc

  pub done-Returns : {r : Outcome A} {a : A} → Returns P r → r ≡ done a → P a
  done-Returns h e = rw e at (holds h)

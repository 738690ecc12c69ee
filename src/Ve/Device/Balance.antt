-- ===== src/Ve/Device/Balance.antt =====
-- What `ve_open` acquires, `ve_close` gives back.
use camview_opipc.Base.{
  ℕ, ◌≡◌, refl, ◌∙◌, ◌>>=◌, ==_refl, Option, none, some, List, [], ◌∷◌, ◌++◌, Option-cases,
  Bool-cases, inl, inr, ◌==◌, if◌then◌else◌,
}
use camview_opipc.Ve.{map_failed}
use camview_opipc.Ve.Device.{Device, Kernel, Call, ve_open, ve_close}

-- What the program holds of the kernel: the descriptor, the mapping of the registers, and the claim
-- of the engine with the descriptor it was made on.
pub record Held : Type 0 where
  pub fd : Option ℕ
  pub regs : Option ℕ
  pub engine : Option ℕ

abbrev pub nothing : Held
nothing = record { fd = none; regs = none; engine = none }

-- A second claim of what is held is refused, and so is giving back anything else than what is held.
abbrev pub take : Option ℕ → ℕ → Option (Option ℕ)
take none n = some (some n)
take (some _) n = none

abbrev pub give_back : Option ℕ → ℕ → Option (Option ℕ)
give_back none n = none
give_back (some m) n = if m == n then some none else none

unfoldable pub account : Held → Call → Option Held
account h (Call.opens fd) = take h.fd fd >>= λ f. some (record h { fd = f })
account h (Call.closes fd) = give_back h.fd fd >>= λ f. some (record h { fd = f })
account h (Call.maps fd offset address) = take h.regs address >>= λ r. some (record h { regs = r })
account h (Call.unmaps address) = give_back h.regs address >>= λ r. some (record h { regs = r })
account h (Call.requests_engine fd) = take h.engine fd >>= λ e. some (record h { engine = e })
account h (Call.releases_engine fd) = give_back h.engine fd >>= λ e. some (record h { engine = e })
account h _ = some h

unfoldable pub account_all : Held → List Call → Option Held
unfolding account
account_all h [] = some h
account_all h (c ∷ cs) = account h c >>= λ h'. account_all h' cs

-- What a device in this state holds.
abbrev pub held_by : Device → Held
held_by d = elim d.ve.fd [
  | none ↦ nothing
  | some fd ↦ record { fd = some fd; regs = some d.regs; engine = some fd }
]

pub data Event : Type 0 where
  opening : Kernel → Event
  closing : Event

unfoldable pub happens : Event → Device → Device × List Call
unfolding ve_open ve_close
happens (opening k) d = ((ve_open k d).1, (ve_open k d).2)
happens closing d = ve_close d

unfoldable pub happen : List Event → Device → Device × List Call
unfolding happens
happen [] d = (d, [])
happen (e ∷ es) d =
    let now = happens e d in let later = happen es now.0 in (later.0, now.1 ++ later.1)

pub account_all-append :
    (h : Held) (xs ys : List Call)
    → account_all h (xs ++ ys) ≡ (account_all h xs >>= λ h'. account_all h' ys)
unfolding account_all
account_all-append h [] ys = refl
account_all-append h (x ∷ xs) ys = elim (Option-cases (account h x)) [
  | inl f ↦ rw f refl
  | inr (g, f) ↦ rw f (account_all-append g xs ys)
]

pub ve_open-held :
    (k : Kernel) (d : Device)
    → account_all (held_by d) (ve_open k d).2 ≡ some (held_by (ve_open k d).1)
unfolding ve_open account_all
ve_open-held k d = elim (Option-cases d.ve.fd) [
  | inr (fd, e) ↦ rw (e, ve_open) (rw e refl)
  | inl e ↦ elim (Option-cases k.opened) [
    | inl f ↦ rw (e, f, ve_open) (rw e refl)
    | inr (fd, f) ↦ elim (Option-cases k.env_info) [
      | inl g ↦ rw (e, f, g, ve_open, ==_refl fd) refl
      | inr (info, g) ↦ elim (Bool-cases (k.registers_at == map_failed)) [
        | inl m ↦ rw (e, f, g, m, ve_open, ==_refl fd) refl
        | inr m ↦ rw (e, f, g, m, ve_open) refl
      ]
    ]
  ]
]

pub ve_close-held :
    (d : Device) → account_all (held_by d) (ve_close d).1 ≡ some (held_by (ve_close d).0)
unfolding ve_close account_all
ve_close-held d = elim (Option-cases d.ve.fd) [
  | inl e ↦ rw (e, ve_close) (rw e refl)
  | inr (fd, e) ↦ rw (e, ve_close, ==_refl fd, ==_refl d.regs) (rw (==_refl fd) refl)
]

-- Whatever the kernel answers, after any calls of `ve_open` and `ve_close` the program holds what the
-- state says, the descriptor, the mapping at `regs` and the engine if the device is open and nothing
-- if it is closed, and has taken nothing twice and given back only what it held.
pub happen-held :
    (es : List Event) (d : Device)
    → account_all (held_by d) (happen es d).1 ≡ some (held_by (happen es d).0)
unfolding happen account_all
happen-held [] d = refl
happen-held (e ∷ es) d =
    let now = happens e d in
    account_all-append (held_by d) now.1 (happen es now.0).1
    ∙ rw (happens-held e d) (happen-held es now.0)
  where
    happens-held :
        (e : Event) (d : Device)
        → account_all (held_by d) (happens e d).1 ≡ some (held_by (happens e d).0)
    happens-held (opening k) d = ve_open-held k d
    happens-held closing d = ve_close-held d

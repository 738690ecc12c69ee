-- ===== src/Control/Params/Sync.antt =====
-- The parameters reach the driver, however they are set around the frames.
use camview_opipc.Base.{◌≡◌, refl, ap, true, List, [], ◌∷◌, Bool-cases, ◌⊎◌, inl, inr}
use camview_opipc.Base.Int.{ℤ}
use camview_opipc.Control.Params.{
  Block, Controls, Event, event, events, set_drm, drawn, terminated, store, memcmp, get,
}

-- The driver has the parameters, or they are marked to be applied.
abbrev pub Synced : Controls → Type 0
Synced c = (c.pending_controls_apply ≡ true) ⊎ (c.kernel ≡ c.params)

set_drm-Synced : (b : Block) → (v : List ℤ) → (c : Controls) → Synced c → Synced (set_drm b v c).0
unfolding set_drm
set_drm-Synced b v c s = elim (Bool-cases (memcmp v (get b c.params))) [
  | inl e ↦ rw e s
  | inr e ↦ rw e (elim (Bool-cases c.display_initialized) [
    | inl i ↦ rw i (elim s [ inl p ↦ inl p | inr k ↦ inr (ap (store b v) k) ])
    | inr i ↦ rw i (inl refl)
  ])
]

drawn-eq : (c : Controls) → Synced c → ((drawn c).kernel ≡ (drawn c).params)
unfolding drawn
drawn-eq c s = elim (Bool-cases c.pending_controls_apply) [
  | inl p ↦ rw p refl
  | inr p ↦ rw p (elim s [ inl t ↦ absurd (cc) | inr k ↦ k ])
]

event-Synced : (e : Event) → (c : Controls) → Synced c → Synced (event e c)
unfolding event terminated
event-Synced (Event.sets b v) c s = set_drm-Synced b v c s
event-Synced Event.draws c s = inr (drawn-eq c s)
event-Synced Event.terminates c s = s

pub events-Synced : (es : List Event) → (c : Controls) → Synced c → Synced (events es c)
unfolding events
events-Synced [] c s = s
events-Synced (e ∷ es) c s = events-Synced es (event e c) (event-Synced e c s)

-- From a state in which the driver has the parameters, after any sequence of calls of `set_drm_*`,
-- drawn frames and ends of the display, the next drawn frame leaves the driver with the current
-- parameters.
pub drawn-synced :
    (es : List Event)
    → (c : Controls) → c.kernel ≡ c.params
    → (drawn (events es c)).kernel ≡ (drawn (events es c)).params
drawn-synced es c k = drawn-eq (events es c) (events-Synced es c (inr k))

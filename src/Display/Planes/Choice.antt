-- ===== src/Display/Planes/Choice.antt =====
-- Which plane `find_new_plane` of src/display.c gives to a CRTC.
use camview_opipc.Base.{
  ℕ, zero, suc, ◌+◌, ◌<◌, ◌≡◌, refl, ◌∙◌, ap, Bool, true, false, Option, none, some, List, [], ◌∷◌,
  ◌++◌, if◌then◌else◌, replicate, get_elem?, arith, Bool-cases, inl, inr, if_true,
}
use camview_opipc.Display.Planes.{
  Plane, supports, offers, claim, planes_loop, any_found, find_new_plane, Call, stop_drm,
}

-- The plane has the format and can be shown on the CRTC.
abbrev pub suits : (format j : ℕ) → Plane → Bool
suits format j p = if supports format p.formats then offers p j else false

-- The last plane that suits, or else `otherwise`.
unfoldable pub last_suitable : (format j : ℕ) → List (Option Plane) → Option Plane → Option Plane
last_suitable format j [] otherwise = otherwise
last_suitable format j (none ∷ ps) otherwise = last_suitable format j ps otherwise
last_suitable format j (some p ∷ ps) otherwise =
    last_suitable format j ps (if suits format j p then some p else otherwise)

get_elem?-claim :
    (p : Plane) (j k : ℕ) (ss : List (Option Plane)) (s : Option Plane)
    → get_elem? ss k ≡ some s
    → get_elem? (claim p j ss) k ≡ some (if offers p (j + k) then some p else s)
unfolding claim
get_elem?-claim p j k [] s e = absurd (cc)
get_elem?-claim p j zero (s' ∷ ss) s e = let at : j + 0 ≡ j = omega arith in cc
get_elem?-claim p j (suc k) (s' ∷ ss) s e =
    let at : j + suc k ≡ j + 1 + k = omega arith in rw at (get_elem?-claim p (j + 1) k ss s e)

planes_loop-last_suitable :
    (format j : ℕ) (ps ss : List (Option Plane)) (s : Option Plane)
    → get_elem? ss j ≡ some s
    → get_elem? (planes_loop format ps ss) j ≡ some (last_suitable format j ps s)
unfolding planes_loop last_suitable
planes_loop-last_suitable format j [] ss s e = e
planes_loop-last_suitable format j (none ∷ ps) ss s e = planes_loop-last_suitable format j ps ss s e
planes_loop-last_suitable format j (some p ∷ ps) ss s e =
    elim (Bool-cases (supports format p.formats)) [
      | inl has ↦
          let here : 0 + j ≡ j = omega arith in
          rw (has, suits)
            (planes_loop-last_suitable format j ps (claim p 0 ss) (if offers p j then some p else s)
              (rw here at (get_elem?-claim p 0 j ss s e)))
      | inr lacks ↦ rw (lacks, suits) (planes_loop-last_suitable format j ps ss s e)
    ]

get_elem?-replicate :
    (n j : ℕ) → j < n → get_elem? {A = Option Plane} (replicate n none) j ≡ some none
get_elem?-replicate zero j lt = absurd (omega arith)
get_elem?-replicate (suc n) zero lt = refl
get_elem?-replicate (suc n) (suc j) lt = get_elem?-replicate n j (omega arith)

any_found-at :
    (ss : List (Option Plane)) (j : ℕ) (p : Plane)
    → get_elem? ss j ≡ some (some p)
    → any_found ss ≡ true
unfolding any_found
any_found-at [] j p e = absurd (cc)
any_found-at (some q ∷ ss) j p e = refl
any_found-at (none ∷ ss) zero p e = absurd (cc)
any_found-at (none ∷ ss) (suc j) p e = any_found-at ss j p e

if_split : (b c : Bool) → (if b then c else false) ≡ true → (b ≡ true) × (c ≡ true)
if_split true c e = (refl, e)
if_split false c e = absurd (cc)

claim-both :
    (p : Plane) (a b : Option Plane)
    → offers p 0 ≡ true
    → offers p 1 ≡ true
    → claim p 0 (a ∷ b ∷ []) ≡ some p ∷ some p ∷ []
unfolding claim
claim-both p a b first second =
    ap (λ s. s ∷ (if offers p 1 then some p else b) ∷ []) (if_true _ _ _ first)
    ∙ ap (λ s. some p ∷ s ∷ []) (if_true _ _ _ second)

planes_loop-both :
    (format : ℕ) (ps : List (Option Plane)) (p : Plane) (a b : Option Plane)
    → suits format 0 p ≡ true
    → suits format 1 p ≡ true
    → planes_loop format (ps ++ (some p ∷ [])) (a ∷ b ∷ []) ≡ some p ∷ some p ∷ []
unfolding planes_loop claim
planes_loop-both format [] p a b first second =
    let (has, one) = if_split _ _ first in
    let (_, two) = if_split _ _ second in if_true _ _ _ has ∙ claim-both p a b one two
planes_loop-both format (none ∷ ps) p a b first second =
    planes_loop-both format ps p a b first second
planes_loop-both format (some q ∷ ps) p a b first second =
    elim (Bool-cases (supports format q.formats)) [
      | inl has ↦ rw (planes_loop, has) (planes_loop-both format ps p _ _ first second)
      | inr lacks ↦ rw (planes_loop, lacks) (planes_loop-both format ps p a b first second)
    ]

-- A last plane that suits both CRTCs is given to both, and `stop_drm` frees it twice.
pub stop_drm-frees_twice :
    (format : ℕ) (planes : List (Option Plane)) (p : Plane) (c d : ℕ)
    → suits format 0 p ≡ true
    → suits format 1 p ≡ true
    → (new_planes : List (Option Plane)) × (find_new_plane format 2 (planes ++ (some p ∷ []))
        ≡ some new_planes)
      × (stop_drm (some new_planes) (c ∷ d ∷ [])
          ≡ Call.disable_plane p.plane_id
            ∷ Call.free_plane p.plane_id
            ∷ Call.restore_crtc c
            ∷ Call.free_crtc c
            ∷ Call.disable_plane p.plane_id
            ∷ Call.free_plane p.plane_id
            ∷ Call.restore_crtc d
            ∷ Call.free_crtc d
            ∷ Call.drop_master
            ∷ Call.close_drm
            ∷ [])
unfolding find_new_plane any_found stop_drm
stop_drm-frees_twice format planes p c d first second =
    (some p ∷ some p ∷ [], rw (planes_loop-both format planes p none none first second) refl, refl)

module _ (format count_crtcs : ℕ) (planes : List (Option Plane)) (j : ℕ)
    (lt : j < count_crtcs) where
  loop-last_suitable :
      get_elem? (planes_loop format planes (replicate count_crtcs none)) j
      ≡ some (last_suitable format j planes none)
  loop-last_suitable =
      planes_loop-last_suitable format j planes (replicate count_crtcs none) none
        (get_elem?-replicate count_crtcs j lt)

  -- If some plane suits a CRTC, `find_new_plane` returns, and gives it the last such plane.
  pub find_new_plane-last_suitable :
      (p : Plane)
      → last_suitable format j planes none ≡ some p
      → (new_planes : List (Option Plane)) × (find_new_plane format count_crtcs planes
          ≡ some new_planes)
        × (get_elem? new_planes j ≡ some (some p))
  unfolding find_new_plane
  find_new_plane-last_suitable p last =
      let at = loop-last_suitable ∙ ap some last in
      (
        planes_loop format planes (replicate count_crtcs none),
        if_true _ _ _ (any_found-at _ j p at),
        at,
      )

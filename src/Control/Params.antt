-- ===== src/Control/Params.antt =====
-- The display's colour parameters in src/display.c: `get_drm_*`, `set_drm_*` and the part of
-- `video_update` that applies them late. A struct of drm/sun4i_drm.h is the list of its fields'
-- values, in the order in which src/control-file.c names them.
pub mod Sync
use camview_opipc.Base.{Bool, true, false, List, [], ◌∷◌, ◌&&◌, if◌then◌else◌}
use camview_opipc.Base.Int.{eq_ℤ, ℤ}

pub data Block : Type 0 where
  fcc bws lti : Block

pub record Params : Type 0 where
  pub fcc : List ℤ
  pub bws : List ℤ
  pub lti : List ℤ

unfoldable pub get : Block → Params → List ℤ
get Block.fcc p = p.fcc
get Block.bws p = p.bws
get Block.lti p = p.lti

unfoldable pub store : Block → List ℤ → Params → Params
store Block.fcc v p = record p { fcc = v }
store Block.bws v p = record p { bws = v }
store Block.lti v p = record p { lti = v }

-- `params` are the statics, `kernel` what the ioctls were last called with.
pub record Controls : Type 0 where
  pub params : Params
  pub kernel : Params
  pub display_initialized : Bool
  pub pending_controls_apply : Bool

unfoldable pub get_drm : Block → Controls → List ℤ
unfolding get
get_drm b c = get b c.params

-- `memcmp(in, &fcc, sizeof(fcc)) == 0`
unfoldable pub memcmp : List ℤ → List ℤ → Bool
memcmp [] [] = true
memcmp (x ∷ xs) (y ∷ ys) = eq_ℤ x y && memcmp xs ys
memcmp _ _ = false

unfoldable pub set_drm : Block → List ℤ → Controls → Controls × Bool
unfolding get store memcmp
set_drm b v c =
    if memcmp v (get b c.params)
    then (c, false)
    else if c.display_initialized
    then (record c { params = store b v c.params; kernel = store b v c.kernel }, true)
    else (record c { params = store b v c.params; pending_controls_apply = true }, true)

-- What `video_update` does once a frame is on the planes.
unfoldable pub drawn : Controls → Controls
drawn c =
    if c.pending_controls_apply
    then record c { display_initialized = true; kernel = c.params; pending_controls_apply = false }
    else record c { display_initialized = true }

-- What `terminate_display` does to the flags.
unfoldable pub terminated : Controls → Controls
terminated c = record c { display_initialized = false }

pub data Event : Type 0 where
  sets : Block → List ℤ → Event
  draws terminates : Event

unfoldable pub event : Event → Controls → Controls
unfolding set_drm drawn terminated
event (Event.sets b v) c = (set_drm b v c).0
event Event.draws c = drawn c
event Event.terminates c = terminated c

unfoldable pub events : List Event → Controls → Controls
unfolding event
events [] c = c
events (e ∷ es) c = events es (event e c)

-- ===== src/Display/Planes.antt =====
-- src/display.c: the planes that show the frame buffers. The answers of libdrm to
-- `drmModeGetPlane` are a list, in the order of `plane_res->planes`, with `none` for NULL.
pub mod Choice
mod Tests
use camview_opipc.Base.{
  ℕ, zero, suc, ◌+◌, ◌/◌, ◌%◌, ◌^◌, Bool, true, false, ◌&&◌, ◌||◌, Option, none, some, List, [],
  ◌∷◌, ◌++◌, ◌==◌, if◌then◌else◌, replicate, length,
}

pub record Plane : Type 0 where
  pub plane_id : ℕ
  pub possible_crtcs : ℕ
  pub formats : List ℕ

-- The loop over `plane->formats` with `has_format`.
unfoldable pub supports : (format : ℕ) → List ℕ → Bool
supports format [] = false
supports format (f ∷ fs) = if f == format then true else supports format fs

-- `plane->possible_crtcs & (1 << j)`
unfoldable pub offers : Plane → (j : ℕ) → Bool
offers p j = p.possible_crtcs / 2 ^ j % 2 == 1

-- The loop over the CRTCs that stores a plane in `new_planes`, from the CRTC `j` on.
unfoldable pub claim : Plane → (j : ℕ) → List (Option Plane) → List (Option Plane)
unfolding offers
claim p j [] = []
claim p j (s ∷ ss) = (if offers p j then some p else s) ∷ claim p (j + 1) ss

unfoldable pub planes_loop :
    (format : ℕ) → List (Option Plane) → List (Option Plane) → List (Option Plane)
unfolding supports claim
planes_loop format [] new_planes = new_planes
planes_loop format (none ∷ ps) new_planes = planes_loop format ps new_planes
planes_loop format (some p ∷ ps) new_planes =
    planes_loop format ps (if supports format p.formats then claim p 0 new_planes else new_planes)

unfoldable pub any_found : List (Option Plane) → Bool
any_found [] = false
any_found (none ∷ ss) = any_found ss
any_found (some p ∷ ss) = true

-- `none` is the exit of the program.
unfoldable pub find_new_plane :
    (format count_crtcs : ℕ) → List (Option Plane) → Option (List (Option Plane))
unfolding planes_loop any_found
find_new_plane format count_crtcs planes =
    let new_planes = planes_loop format planes (replicate count_crtcs none) in
    if any_found new_planes then some new_planes else none

-- The calls of `stop_drm` to libdrm.
pub data Call : Type 0 where
  disable_plane free_plane restore_crtc free_crtc : ℕ → Call
  drop_master close_drm : Call

-- The loop of `stop_drm`, over `new_planes` and the ids of `crtcs`.
unfoldable pub stop_loop : List (Option Plane) → (crtcs : List ℕ) → List Call
stop_loop (some p ∷ ss) (c ∷ cs) =
    Call.disable_plane p.plane_id
    ∷ Call.free_plane p.plane_id
    ∷ Call.restore_crtc c
    ∷ Call.free_crtc c
    ∷ stop_loop ss cs
stop_loop (none ∷ ss) (c ∷ cs) = Call.restore_crtc c ∷ Call.free_crtc c ∷ stop_loop ss cs
stop_loop ss cs = []

-- `new_planes` is `none` before the first `find_new_plane`.
unfoldable pub stop_drm : Option (List (Option Plane)) → (crtcs : List ℕ) → List Call
unfolding stop_loop
stop_drm none crtcs = Call.drop_master ∷ Call.close_drm ∷ []
stop_drm (some new_planes) crtcs =
    stop_loop new_planes crtcs ++ (Call.drop_master ∷ Call.close_drm ∷ [])

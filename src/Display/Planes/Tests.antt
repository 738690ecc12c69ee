-- ===== src/Display/Planes/Tests.antt =====
-- Runs of Display/Planes on three planes and two CRTCs.
use camview_opipc.Base.{◌≡◌, refl, true, Option, none, some, List, [], ◌∷◌}
use camview_opipc.Display.Planes.{Plane, find_new_plane, supports, offers}
use camview_opipc.Display.Planes.Choice.{last_suitable, suits}

abbrev video : Plane
video = record { plane_id = 31; possible_crtcs = 3; formats = 8 ∷ 9 ∷ [] }

abbrev overlay : Plane
overlay = record { plane_id = 32; possible_crtcs = 2; formats = 9 ∷ [] }

abbrev cursor : Plane
cursor = record { plane_id = 33; possible_crtcs = 3; formats = 8 ∷ [] }

abbrev planes : List (Option Plane)
planes = some video ∷ none ∷ some overlay ∷ some cursor ∷ []

runs : find_new_plane 9 2 planes ≡ some (some video ∷ some overlay ∷ [])
unfolding find_new_plane
runs = refl

exits : find_new_plane 7 2 planes ≡ none
unfolding find_new_plane
exits = refl

overlay_last : last_suitable 9 1 planes none ≡ some overlay
unfolding last_suitable supports offers
overlay_last = refl

video_on_both : (suits 9 0 video ≡ true) × (suits 9 1 video ≡ true)
unfolding supports offers
video_on_both = (refl, refl)

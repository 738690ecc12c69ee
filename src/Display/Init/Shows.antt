-- ===== src/Display/Init/Shows.antt =====
-- When `init_display` of src/display.c gets to the end, and with which planes.
use camview_opipc.Base.{
  ℕ, suc, ◌+◌, ◌≡◌, ◌≢◌, ◌<◌, refl, ap, sym, ◌∙◌, Bool, true, false, Option, none, some, List, [],
  ◌∷◌, if◌then◌else◌, length, replicate, get_elem?, arith, All, if_both, if_false, test_of_ne,
  length-replicate,
}
use camview_opipc.Display.Layout.{Layout, layout}
use camview_opipc.Display.Planes.{Plane, find_new_plane, claim, planes_loop, supports, any_found}
use camview_opipc.Display.Planes.Choice.{last_suitable, find_new_plane-last_suitable}
use camview_opipc.Display.Buffers.{Buffers, three_buffers}
use camview_opipc.Display.Color.{Call, set_planes_color_format}
use camview_opipc.Display.Color.Listed.{ListedCall, set_planes_color_format-listed}
use camview_opipc.Display.Init.{
  Display, Shown, Screen, colored, with_buffers, with_layout, with_planes, pixel_format,
  init_display,
}

length-claim : (p : Plane) (j : ℕ) (ss : List (Option Plane)) → length (claim p j ss) ≡ length ss
unfolding claim
length-claim p j [] = refl
length-claim p j (s ∷ ss) = ap suc (length-claim p (j + 1) ss)

length-planes_loop :
    (format : ℕ) (ps ss : List (Option Plane)) → length (planes_loop format ps ss) ≡ length ss
unfolding planes_loop
length-planes_loop format [] ss = refl
length-planes_loop format (none ∷ ps) ss = length-planes_loop format ps ss
length-planes_loop format (some p ∷ ps) ss =
    length-planes_loop format ps _
    ∙ if_both (λ (l : List (Option Plane)). length l ≡ length ss) (supports format p.formats) _ _
        (length-claim p 0 ss) refl

if_some : (b : Bool) (x y : List (Option Plane)) → (if b then some x else none) ≡ some y → x ≡ y
if_some true x y e = cc
if_some false x y e = absurd (cc)

length-find_new_plane :
    (format n : ℕ) (planes new_planes : List (Option Plane))
    → find_new_plane format n planes ≡ some new_planes
    → length new_planes ≡ n
unfolding find_new_plane
length-find_new_plane format n planes new_planes e =
    let found = planes_loop format planes (replicate n none) in
    ap length (sym (if_some (any_found found) found new_planes e))
    ∙ (length-planes_loop format planes (replicate n none) ∙ length-replicate n none)

-- The colour properties of two planes or more are set.
colors-listed :
    (s : Screen) (new_planes : List (Option Plane))
    → 1 < length new_planes
    → (calls : List Call) × (set_planes_color_format s.get_properties s.get_property new_planes
        ≡ some calls)
      × All (ListedCall s.get_properties s.get_property) calls
colors-listed s [] lt = absurd (omega arith)
colors-listed s (a ∷ []) lt = absurd (omega arith)
colors-listed s (a ∷ b ∷ new_planes) lt =
    set_planes_color_format-listed s.get_properties s.get_property a b new_planes

module _ (yuv420 yuv422 yuv444 : ℕ) (s : Screen) (before width height format j : ℕ) where
  -- With two CRTCs or more and a known format, if a plane suits one of the CRTCs, the mappings of
  -- the three buffers succeed, the first has a framebuffer and the thread starts, then
  -- `init_display` gets to its end with the layout of the format and these buffers. The CRTC then
  -- has the last plane that suits it, and the properties set are those that the driver lists.
  pub init_display-shows :
      (p : Plane) (places : Layout) (bs : Buffers)
      → 1 < s.count_crtcs
      → j < s.count_crtcs
      → last_suitable (pixel_format yuv420 yuv422 yuv444 before format) j s.planes none ≡ some p
      → layout s.page width height format ≡ some places
      → three_buffers s.first s.second s.third ≡ some bs
      → bs.first.buf_id ≢ 0
      → s.thread ≡ true
      → (d : Display) × (init_display yuv420 yuv422 yuv444 s before width height format
          ≡ Shown.shows d)
        × (d.places ≡ places)
        × (d.buffers ≡ bs)
        × (get_elem? d.new_planes j ≡ some (some p))
        × All (ListedCall s.get_properties s.get_property) d.color_calls
  unfolding init_display with_planes with_layout with_buffers colored
  init_display-shows p places bs two lt suits known mapped framebuffer thread =
      let pixel = pixel_format yuv420 yuv422 yuv444 before format in
      let (new_planes, found, at) =
        find_new_plane-last_suitable pixel s.count_crtcs s.planes j lt p suits in
      let len = length-find_new_plane pixel s.count_crtcs s.planes new_planes found in
      let (calls, set, listed) = colors-listed s new_planes (omega (arith, len, two)) in
      (
        record { new_planes = new_planes; places = places; buffers = bs; color_calls = calls },
        ap (λ (l : Option Layout). with_planes s l (find_new_plane pixel s.count_crtcs s.planes))
              known
            ∙ (ap (with_planes s (some places)) found
                ∙ (ap (with_buffers s new_planes places) mapped
                    ∙ (if_false _ _ _ (test_of_ne bs.first.buf_id 0 framebuffer)
                        ∙ (ap (colored s.thread new_planes places bs) set
                            ∙ ap (λ t. colored t new_planes places bs (some calls)) thread)))),
        refl,
        refl,
        at,
        listed,
      )

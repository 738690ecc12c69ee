-- ===== src/Display/Init.antt =====
-- `init_display` of src/display.c as a whole: the format, the planes, the layout, the buffers, the
-- colour properties and the start of the thread. `yuv420`, `yuv422` and `yuv444` are the formats of
-- libdrm.
pub mod Shows
mod Tests
use camview_opipc.Base.{
  ℕ, Bool, true, false, Option, none, some, List, [], ◌∷◌, ◌==◌, if◌then◌else◌,
}
use camview_opipc.Display.Layout.{Layout, layout}
use camview_opipc.Display.Planes.{Plane, find_new_plane}
use camview_opipc.Display.Buffers.{Answers, Buffers, three_buffers}
use camview_opipc.Display.Color.{Property, Call, set_planes_color_format}

-- What the display has when `init_display` returns.
pub record Display : Type 0 where
  pub new_planes : List (Option Plane)
  pub places : Layout
  pub buffers : Buffers
  pub color_calls : List Call

pub data Shown : Type 0 where
  undefined exits : Shown
  shows : Display → Shown

-- What libdrm and the kernel answer, and what is known of the screen.
pub record Screen : Type 0 where
  pub page : ℕ
  pub count_crtcs : ℕ
  pub planes : List (Option Plane)
  pub first : Answers
  pub second : Answers
  pub third : Answers
  pub get_properties : ℕ → Option (List ℕ)
  pub get_property : ℕ → Option Property
  pub thread : Bool

-- The end of `init_display` with the first framebuffer made.
unfoldable pub colored :
    (thread : Bool) → List (Option Plane) → Layout → Buffers → Option (List Call) → Shown
colored thread new_planes places bs none = Shown.undefined
colored true new_planes places bs (some calls) =
    Shown.shows
      (record { new_planes = new_planes; places = places; buffers = bs; color_calls = calls })
colored false new_planes places bs (some calls) = Shown.exits

-- `init_display` from the buffers on.
unfoldable pub with_buffers : Screen → List (Option Plane) → Layout → Option Buffers → Shown
unfolding colored
with_buffers s new_planes places none = Shown.undefined
with_buffers s new_planes places (some bs) =
    if bs.first.buf_id == 0
    then Shown.exits
    else colored s.thread new_planes places bs
        (set_planes_color_format s.get_properties s.get_property new_planes)

-- `init_display` from the layout on.
unfoldable pub with_layout : Screen → List (Option Plane) → Option Layout → Shown
unfolding with_buffers
with_layout s new_planes none = Shown.undefined
with_layout s new_planes (some places) =
    with_buffers s new_planes places (three_buffers s.first s.second s.third)

-- `init_display` from `find_new_plane` on.
unfoldable pub with_planes : Screen → Option Layout → Option (List (Option Plane)) → Shown
unfolding with_layout
with_planes s places none = Shown.exits
with_planes s places (some new_planes) = with_layout s new_planes places

module _ (yuv420 yuv422 yuv444 : ℕ) where
  -- An unknown format leaves `drm_mode_pixel_format` as it was.
  unfoldable pub pixel_format : (before format : ℕ) → ℕ
  pixel_format before format =
      if format == 0x22
      then yuv420
      else if format == 0x21
      then yuv422
      else if format == 0x11
      then yuv444
      else before

  unfoldable pub init_display : Screen → (before width height format : ℕ) → Shown
  unfolding pixel_format with_planes
  init_display s before width height format =
      with_planes s (layout s.page width height format)
        (find_new_plane (pixel_format before format) s.count_crtcs s.planes)

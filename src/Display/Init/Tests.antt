-- ===== src/Display/Init/Tests.antt =====
-- A run of `init_display` with a plane for each of two CRTCs, for frames of 64 by 32 pixels.
use camview_opipc.Base.{ℕ, ◌+◌, ◌≡◌, refl, true, none, some, [], ◌∷◌, get_elem?, arith, All}
use camview_opipc.Display.Layout.{Layout, layout}
use camview_opipc.Display.Planes.{Plane, supports, offers, find_new_plane}
use camview_opipc.Display.Planes.Choice.{last_suitable}
use camview_opipc.Display.Buffers.{Answers, Buffer, Buffers, three_buffers}
use camview_opipc.Display.Color.Listed.{ListedCall}
use camview_opipc.Display.Init.{Display, Shown, Screen, pixel_format, init_display}
use camview_opipc.Display.Init.Shows.{init_display-shows}

abbrev hdmi : Plane
hdmi = record { plane_id = 31; possible_crtcs = 1; formats = 420 ∷ [] }

abbrev composite : Plane
composite = record { plane_id = 32; possible_crtcs = 2; formats = 422 ∷ 420 ∷ [] }

abbrev answers : ℕ → Answers
answers n = record {
  gem_create = some (n + 1);
  add_fb2 = some (n + 11);
  prime = some (n + 20);
  mmap = some (n + 4096);
}

abbrev screen : Screen
screen = record {
  page = 4096;
  count_crtcs = 2;
  planes = some hdmi ∷ some composite ∷ [];
  first = answers 0;
  second = answers 1;
  third = answers 2;
  get_properties = λ plane. none;
  get_property = λ id. none;
  thread = true;
}

abbrev buffer : ℕ → Buffer
buffer n = record { handle = n + 1; buf_id = n + 11; buf_fd = n + 20; buffer_map = n + 4096 }

abbrev buffers : Buffers
buffers = record { first = buffer 0; second = buffer 1; third = buffer 2 }

abbrev places : Layout
places = record {
  u_offset = 8192;
  u_size = 2048;
  v_offset = 10240;
  v_size = 2048;
  buffer_size = 16384;
  pitch = 64;
  chroma_pitch = 32;
  src_width = 4194304;
  src_height = 2097152;
}

-- Neither a known format nor a plane for the format of before.
exits : init_display 420 422 444 screen 7 64 32 0 ≡ Shown.exits
unfolding init_display find_new_plane layout
exits = refl

no_layout : init_display 420 422 444 screen 422 64 32 0 ≡ Shown.undefined
unfolding init_display find_new_plane layout
no_layout = refl

suits : last_suitable (pixel_format 420 422 444 7 34) 1 screen.planes none ≡ some composite
unfolding last_suitable pixel_format supports offers
suits = refl

layout_known : layout 4096 64 32 34 ≡ some places
unfolding layout
layout_known = refl

mapped : three_buffers (answers 0) (answers 1) (answers 2) ≡ some buffers
unfolding three_buffers
mapped = refl

init_display-shows_example :
    (d : Display) × (init_display 420 422 444 screen 7 64 32 34 ≡ Shown.shows d)
    × (d.places ≡ places)
    × (d.buffers ≡ buffers)
    × (get_elem? d.new_planes 1 ≡ some (some composite))
    × All (ListedCall (λ plane. none) (λ id. none)) d.color_calls
init_display-shows_example =
    init_display-shows 420 422 444 screen 7 64 32 34 1 composite places buffers (omega arith)
      (omega arith) suits layout_known mapped (omega arith) refl

-- ===== src/Display/Layout/Tests.antt =====
-- The layouts of two frame sizes.
use camview_opipc.Base.{◌≡◌, ◌<◌, ◌*◌, refl, some, arith}
use camview_opipc.Display.Layout.{Layout, layout}
use camview_opipc.Display.Layout.Planes.{layout-overlaps}

-- 1280 x 720 in YUV 4:2:0: the luma plane has 925696 bytes.
abbrev hd : Layout
hd = record {
  u_offset = 925696;
  u_size = 231424;
  v_offset = 1157120;
  v_size = 231424;
  buffer_size = 1392640;
  pitch = 1280;
  chroma_pitch = 640;
  src_width = 83886080;
  src_height = 47185920;
}

hd-layout : layout 4096 1280 720 0x22 ≡ some hd
unfolding layout
hd-layout = refl

-- 1300 x 720: the decoder's luma plane has 944640 bytes.
abbrev odd_width : Layout
odd_width = record {
  u_offset = 936000;
  u_size = 238096;
  v_offset = 1174096;
  v_size = 238096;
  buffer_size = 1412192;
  pitch = 1300;
  chroma_pitch = 650;
  src_width = 85196800;
  src_height = 47185920;
}

odd_width-layout : layout 4096 1300 720 0x22 ≡ some odd_width
unfolding layout
odd_width-layout = refl

layout-overlaps_example : 936000 < 1312 * 720
layout-overlaps_example =
    layout-overlaps 4096 1300 720 0x22 odd_width odd_width-layout (omega arith) (omega arith)
      (omega arith) (omega arith) (omega arith) (omega arith) (omega arith)

-- ===== src/Decode/Main/Tests.antt =====
-- A frame of 16 x 16 pixels with flat quantisation tables and no Huffman tables.
use camview_opipc.Base.{
  ℕ, ◌≡◌, refl, true, false, none, some, List, [], ◌∷◌, ◌++◌, arith, replicate, All,
}
use camview_opipc.Ve.{Ve, Mmap, ve_malloc}
use camview_opipc.Jpeg.{Jpeg, no_jpeg, no_comp, parse_jpeg}
use camview_opipc.Jpeg.Run.{done}
use camview_opipc.Display.Layout.{Layout, layout}
use camview_opipc.Decode.{Write, get_format, set_size, set_quantization_tables}
use camview_opipc.Decode.Huffman.{set_huffman_tables}
use camview_opipc.Decode.Total.{IsDecodable}
use camview_opipc.Decode.Window.{IsInWindow, hw_decode_jpeg-InWindow}
use camview_opipc.Decode.Frame.{hw_decode_jpeg, Output}
use camview_opipc.Decode.Main.{Decoder, Answers, Action, tables_of, hw_init, hw_decode_jpeg_main}
use camview_opipc.Decode.Main.Frames.{frame_actions, IsWholeFrame, hw_decode_jpeg_main-first}
use camview_opipc.Decode.Main.Memory.{decode_all}

abbrev dqt : List ℕ
dqt = 0xff ∷ 0xdb ∷ 0 ∷ 132 ∷ 0 ∷ replicate 64 16 ++ (1 ∷ replicate 64 17)

abbrev sof0 : ℕ → List ℕ
sof0 sampling =
    0xff ∷ 0xc0 ∷ 0 ∷ 17 ∷ 8 ∷ 0 ∷ 16 ∷ 0 ∷ 16 ∷ 3 ∷ 1 ∷ sampling ∷ 0 ∷ 2 ∷ 0x11 ∷ 1 ∷ 3 ∷ 0x11 ∷ 1
    ∷ []

abbrev sos : List ℕ
sos = 0xff ∷ 0xda ∷ 0 ∷ 8 ∷ 1 ∷ 1 ∷ 0x01 ∷ 0 ∷ 63 ∷ 0 ∷ []

abbrev pub frame : ℕ → List ℕ
frame sampling = 0xff ∷ 0xd8 ∷ (dqt ++ (sof0 sampling ++ (sos ++ (1 ∷ 2 ∷ 3 ∷ 4 ∷ []))))

abbrev header : (samp_h samp_v : ℕ) → Jpeg
header h v = record no_jpeg {
  bits = 8;
  width = 16;
  height = 16;
  comp =
      record { samp_h = h; samp_v = v; qt = 0; ht_ac = 1; ht_dc = 0 }
      ∷ record no_comp { samp_h = 1; samp_v = 1; qt = 1 }
      ∷ record no_comp { samp_h = 1; samp_v = 1; qt = 1 }
      ∷ [];
  quant = some 7 ∷ some 72 ∷ none ∷ none ∷ [];
  start = 165;
  data_len = 4;
}

parse_jpeg-frame : parse_jpeg (frame 0x22) ≡ done (header 2 2)
unfolding parse_jpeg
parse_jpeg-frame = refl

parse_jpeg-vertical : parse_jpeg (frame 0x12) ≡ done (header 1 2)
unfolding parse_jpeg
parse_jpeg-vertical = refl

frame-IsDecodable :
    IsDecodable (frame 0x22) (tables_of (frame 0x22) 4 (header 2 2).huffman) (header 2 2) 7 72
unfolding get_format tables_of
frame-IsDecodable = record {
  known = λ e. cc;
  samp_h = omega arith;
  samp_v = omega arith;
  luma_set = refl;
  chroma_set = refl;
  luma_inside = omega arith;
  chroma_inside = omega arith;
  few = omega arith;
  small = (tt, (tt, (tt, (tt, tt))));
}

abbrev pub answers : Answers
answers = record {
  page = 4096;
  vaddr1 = 0xc800_0000;
  vaddr2 = 0xd000_0000;
  vaddr3 = 0xd800_0000;
  write_buffer = 2;
}

abbrev none_yet : Output
none_yet = record { luma = 0; chroma_u = 0; chroma_v = 0 }

abbrev second : Output
second = record { luma = 0x1000_0000; chroma_u = 0x1000_0100; chroma_v = 0x1000_0140 }

abbrev third : Output
third = record { luma = 0x1800_0000; chroma_u = 0x1800_0100; chroma_v = 0x1800_0140 }

abbrev memory : Ve
memory = record {
  fd = some 5;
  chunks = record { phys_addr = 0x0400_0000; size = 0x20000; virt_addr = 0 } ∷ [];
}

abbrev before_init : Decoder
before_init = record {
  ve = memory;
  input_buffer = 0;
  input_size = 0;
  display_initialized = false;
  outputs = record { output1 = none_yet; output2 = none_yet; output3 = none_yet };
}

abbrev started : Decoder
started = record before_init {
  ve = record {
    fd = some 5;
    chunks =
        record { phys_addr = 0x0400_0000; size = 0x10000; virt_addr = 0x5000_0000 }
        ∷ record { phys_addr = 0x0401_0000; size = 0x10000; virt_addr = 0 }
        ∷ [];
  };
  input_buffer = 0x5000_0000;
  input_size = 0x10000;
}

abbrev shown : Decoder
shown = record started {
  display_initialized = true;
  outputs = record { output1 = second; output2 = second; output3 = third };
}

abbrev mmap : Mmap
mmap size write offset = 0x5000_0000

started-hw_init : hw_init mmap 16 16 before_init ≡ started
unfolding hw_init ve_malloc
started-hw_init = refl

abbrev tiny : Layout
tiny = record {
  u_offset = 256;
  u_size = 64;
  v_offset = 320;
  v_size = 64;
  buffer_size = 384;
  pitch = 16;
  chroma_pitch = 8;
  src_width = 0x10_0000;
  src_height = 0x10_0000;
}

hw_decode_jpeg_main-first_example :
    (d' : Decoder) × (ws : List Write) × (hw_decode_jpeg_main answers (frame 0x22) started
      ≡ some (
        d',
        Action.inits_display 16 16 (get_format (header 2 2))
            ∷ frame_actions answers (frame 0x22) (header 2 2) started ws,
      ))
    × (d'.display_initialized ≡ true)
    × IsWholeFrame
        (record { luma = 0x1000_0000; chroma_u = 0x1000_0100; chroma_v = 0x1000_0140 })
        ws
unfolding layout get_format
hw_decode_jpeg_main-first_example =
    hw_decode_jpeg_main-first answers (frame 0x22) (header 2 2) 7 72 started tiny parse_jpeg-frame
      refl (omega arith) (omega arith) refl (omega arith) (omega arith) (omega arith)
      frame-IsDecodable

-- Bytes that are no JPEG, which are refused.
garbage : decode_all ((answers, 1 ∷ 2 ∷ []) ∷ []) started ≡ some started
unfolding decode_all hw_decode_jpeg_main parse_jpeg
garbage = refl

-- The writes of the frame.
abbrev written : List Write
written =
    elim (hw_decode_jpeg (frame 0x22) (tables_of (frame 0x22) 4 (header 2 2).huffman) 0x0400_0000
      (header 2 2) second) [ none ↦ [] | some ws ↦ ws ]

hw_decode_jpeg-InWindow_example : All IsInWindow written
unfolding hw_decode_jpeg tables_of set_size set_quantization_tables set_huffman_tables
hw_decode_jpeg-InWindow_example =
    hw_decode_jpeg-InWindow (frame 0x22) (tables_of (frame 0x22) 4 (header 2 2).huffman) 0x0400_0000
      (header 2 2) second written refl

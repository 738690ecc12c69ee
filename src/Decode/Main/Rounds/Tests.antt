-- ===== src/Decode/Main/Rounds/Tests.antt =====
-- Two rounds of two frames, one decoded and one refused.
use camview_opipc.Base.{ℕ, ◌*◌, ◌≡◌, refl, true, false, none, some, List, [], ◌∷◌, arith}
use camview_opipc.Ve.{ve_malloc, ve_free}
use camview_opipc.Ve.Device.{Device, VeInfo, Kernel, ve_open, ve_close, Returned}
use camview_opipc.Jpeg.{parse_jpeg}
use camview_opipc.Display.Layout.{layout}
use camview_opipc.Decode.{get_format, set_size, set_quantization_tables}
use camview_opipc.Decode.Huffman.{set_huffman_tables}
use camview_opipc.Decode.Frame.{Output, hw_decode_jpeg, get_buffer, init_outputs}
use camview_opipc.Decode.Main.{Decoder, hw_init, hw_close, hw_decode_jpeg_main}
use camview_opipc.Decode.Main.Tests.{frame, answers}
use camview_opipc.Decode.Main.Memory.{decode_all}
use camview_opipc.Decode.Main.Rounds.{Round, engine_run}
use camview_opipc.Decode.Main.Rounds.Held.{OnReturn, engine_run-held}
use camview_opipc.Ve.Device.Balance.{account_all, held_by}
use camview_opipc.Decode.Main.Rounds.Unopened.{engine_run-unopened}
use camview_opipc.Decode.Main.Rounds.Idle.{AreDefined, LeavesDevice}
use camview_opipc.Decode.Main.Rounds.Closed.{engine_run-closes}

abbrev info : VeInfo
info = record { reserved_mem = 0xc400_0000; reserved_mem_size = 32 * 4096; registers = 0x01c0_e000 }

abbrev kernel : Kernel
kernel = record {
  opened = some 5;
  env_info = some info;
  registers_at = 0xb6f0_0000;
  version_word = 0x1680_0000;
}

abbrev closed : Device
closed = record {
  ve = record { fd = none; chunks = record { phys_addr = 0; size = 0; virt_addr = 0 } ∷ [] };
  regs = 0;
  version = 0;
  locked = false;
}

abbrev none_yet : Output
none_yet = record { luma = 0; chroma_u = 0; chroma_v = 0 }

abbrev idle_decoder : Decoder
idle_decoder = record {
  ve = closed.ve;
  input_buffer = 0;
  input_size = 0;
  display_initialized = false;
  outputs = record { output1 = none_yet; output2 = none_yet; output3 = none_yet };
}

abbrev at_address : ℕ → Round
at_address address = record {
  mmap = λ size write offset. address;
  width = 16;
  height = 16;
  frames = (answers, frame 0x22) ∷ (answers, 1 ∷ 2 ∷ []) ∷ [];
  display_ends = true;
}

abbrev two : List Round
two = at_address 0x5000_0000 ∷ at_address 0x6000_0000 ∷ []

two-AreDefined :
    AreDefined two
      (ve_open kernel closed).1
      (record idle_decoder { ve = (ve_open kernel closed).1.ve })
unfolding ve_open hw_init hw_close ve_malloc ve_free decode_all hw_decode_jpeg_main parse_jpeg
    get_format layout hw_decode_jpeg get_buffer init_outputs set_size set_quantization_tables
    set_huffman_tables
two-AreDefined =
    ((λ _. (omega arith, tt)), refl, _, refl, ((λ _. (omega arith, tt)), refl, _, refl, tt))

engine_run-closes_example :
    LeavesDevice (ve_close (ve_open kernel closed).1).0 (engine_run kernel two closed idle_decoder)
engine_run-closes_example =
    engine_run-closes kernel info 5 two closed idle_decoder _ refl refl refl refl refl (omega arith)
      (omega arith) two-AreDefined

-- Without the device, `hw_init` writes through NULL.
engine_run-unopened_example :
    engine_run (record kernel { opened = none }) two closed idle_decoder ≡ Returned.faults
unfolding ve_open
engine_run-unopened_example =
    engine_run-unopened (record kernel { opened = none }) (at_address 0x5000_0000)
      (at_address 0x6000_0000 ∷ []) closed idle_decoder refl refl refl refl

engine_run-held_example :
    OnReturn
      (λ m. account_all (held_by closed) m.calls ≡ some (held_by m.device))
      (engine_run kernel two closed idle_decoder)
engine_run-held_example = engine_run-held kernel two closed idle_decoder

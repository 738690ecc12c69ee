-- ===== src/Decode/Main/Frames.antt =====
-- What becomes of a frame: refused, decoded into a buffer that is put back, or undefined.
use mathlib.Core.Path.{subst}
use camview_opipc.Base.{
  ℕ, ◌+◌, ◌^◌, ◌≤◌, ◌<◌, ◌≡◌, ◌≢◌, refl, ◌-◌, true, false, none, some, List, [], ◌∷◌, ◌++◌, ltb,
  length, arith, test_of_ne,
}
use camview_opipc.Ve.{ve_virt2phys}
use camview_opipc.Jpeg.{Jpeg, parse_jpeg}
use camview_opipc.Jpeg.Run.{done}
use camview_opipc.Display.Layout.{Layout, divisors, layout}
use camview_opipc.Decode.{Write, writel, writeb, get_format}
use camview_opipc.Decode.Total.{IsDecodable, hw_decode_jpeg-total}
use camview_opipc.Decode.Frame.{Output, get_buffer, init_outputs, skips}
use camview_opipc.Decode.Frame.Planes.{vaddr_of, get_buffer-planes}
use camview_opipc.Decode.Main.{
  Decoder, Answers, Action, slice, tables_of, hw_init_display, decode_frame, decode_parsed,
  hw_decode_jpeg_main,
}

-- The actions of a frame that is decoded with the given register writes.
abbrev pub frame_actions : Answers → List ℕ → Jpeg → Decoder → List Write → List Action
frame_actions a bytes jpeg d ws =
    Action.copies d.input_buffer (slice jpeg.start jpeg.data_len bytes)
    ∷ Action.flushes d.input_buffer jpeg.data_len
    ∷ Action.gets_buffer a.write_buffer
    ∷ Action.decodes ws
    ∷ Action.puts_buffer a.write_buffer
    ∷ []

-- 656 writes that include those of the addresses of `o` for the luma and the U plane, and then the
-- engine is started and its interrupt cleared.
abbrev pub IsWholeFrame : Output → List Write → Type 0
IsWholeFrame o ws =
    (front : List Write) × (middle : List Write) × (ws
      ≡ front
        ++ (writel o.luma 0x1cc ∷ writel o.chroma_u 0x1d0 ∷ middle)
        ++ (writeb 0x0e 0x118 ∷ writel 0xc00f 0x11c ∷ []))
    × (length front + length middle ≡ 654)

module _ (a : Answers) (bytes : List ℕ) (jpeg : Jpeg) (luma chroma : ℕ) where
  decode_frame-decodes :
      (d : Decoder) (o : Output)
      → d.input_buffer ≢ 0
      → jpeg.data_len ≤ d.input_size
      → get_buffer a.write_buffer d.outputs ≡ o
      → skips (get_buffer a.write_buffer d.outputs) ≡ false
      → IsDecodable bytes (tables_of bytes 4 jpeg.huffman) jpeg luma chroma
      → (ws : List Write) × (decode_frame a bytes jpeg d ≡ some (frame_actions a bytes jpeg d ws))
        × IsWholeFrame o ws
  unfolding decode_frame
  decode_frame-decodes d o nn fits buffer shown good =
      let taken = get_buffer a.write_buffer d.outputs in
      let phy = ve_virt2phys d.ve d.input_buffer in
      let (front, middle, e, l) =
        hw_decode_jpeg-total bytes (tables_of bytes 4 jpeg.huffman) phy jpeg taken luma chroma shown
          good in
      let room : ltb d.input_size jpeg.data_len ≡ false = ground arith in
      let ws =
        front
        ++ (writel taken.luma 0x1cc ∷ writel taken.chroma_u 0x1d0 ∷ middle)
        ++ (writeb 0x0e 0x118 ∷ writel 0xc00f 0x11c ∷ []) in
      (
        ws,
        rw (test_of_ne d.input_buffer 0 nn, room, e) refl,
        subst (λ x. IsWholeFrame x ws) buffer (front, middle, refl, l),
      )

  -- The first such frame, with a layout for its format and buffers that the kernel has above
  -- 0xc0000000, starts the display with its size and is decoded like any other, into the planes that begin at the
  -- physical address of the buffer taken, the kernel's less 0xc0000000.
  pub hw_decode_jpeg_main-first :
      (d : Decoder) (l : Layout)
      → parse_jpeg bytes ≡ done jpeg
      → d.display_initialized ≡ false
      → d.input_buffer ≢ 0
      → jpeg.data_len ≤ d.input_size
      → layout a.page jpeg.width jpeg.height (get_format jpeg) ≡ some l
      → 0xc000_0000 < vaddr_of a.write_buffer a.vaddr1 a.vaddr2 a.vaddr3
      → l.u_offset < l.v_offset
      → vaddr_of a.write_buffer a.vaddr1 a.vaddr2 a.vaddr3 + l.v_offset < 2 ^ 32
      → IsDecodable bytes (tables_of bytes 4 jpeg.huffman) jpeg luma chroma
      → (d' : Decoder) × (ws : List Write) × (hw_decode_jpeg_main a bytes d
          ≡ some (
            d',
            Action.inits_display jpeg.width jpeg.height (get_format jpeg)
                ∷ frame_actions a bytes jpeg d ws,
          ))
        × (d'.display_initialized ≡ true)
        × (let phy = vaddr_of a.write_buffer a.vaddr1 a.vaddr2 a.vaddr3 - 0xc000_0000 in
            IsWholeFrame
              (record { luma = phy; chroma_u = phy + l.u_offset; chroma_v = phy + l.v_offset })
              ws)
  unfolding hw_decode_jpeg_main decode_parsed hw_init_display
  hw_decode_jpeg_main-first d l p i nn fits laid lo order hi good =
      let os = init_outputs a.vaddr1 a.vaddr2 a.vaddr3 l.u_offset l.v_offset in
      let d' : Decoder = record d { display_initialized = true; outputs = os } in
      let (shown, planes) =
        get_buffer-planes a.write_buffer a.vaddr1 a.vaddr2 a.vaddr3 l.u_offset l.v_offset lo order
          hi in
      let (ws, e, whole) = decode_frame-decodes d' _ nn fits planes shown good in
      (
        d',
        ws,
        rw (hw_decode_jpeg_main, p, i, test_of_ne (get_format jpeg) 0 good.known, laid, e) refl,
        refl,
        whole,
      )

-- `get_format` lets a frame with vertical subsampling only through, and `init_display` has no layout for
-- it: the first frame of that format is undefined behaviour.
pub hw_decode_jpeg_main-vertical :
    (a : Answers) (bytes : List ℕ) (jpeg : Jpeg) (d : Decoder)
    → parse_jpeg bytes ≡ done jpeg
    → d.display_initialized ≡ false
    → get_format jpeg ≡ 0x12
    → hw_decode_jpeg_main a bytes d ≡ none
unfolding hw_decode_jpeg_main decode_parsed hw_init_display layout divisors
hw_decode_jpeg_main-vertical a bytes jpeg d p i f = rw (hw_decode_jpeg_main, p, i, f) refl

-- ===== src/Decode/Main.antt =====
-- `hw_init`, `hw_decode_jpeg_main` and `hw_close` of src/jpeg_dec_main.c, from the bytes of a frame to
-- the register writes, over the models of src/ve.c, src/jpeg.c and `init_display`.
pub mod Memory
pub mod Frames
pub mod Rounds
mod Tests
use camview_opipc.Base.{
  ℕ, zero, suc, ◌+◌, ◌-◌, ◌*◌, ◌/◌, ◌%◌, ◌^◌, Bool, true, false, not, ◌&&◌, ◌||◌, Option, none,
  some, List, [], ◌∷◌, ◌++◌, ◌==◌, if◌then◌else◌, ltb, leb, get_elem?, get_or_zero, length, map,
  ◌>>=◌,
}
use camview_opipc.Ve.{Ve, Mmap, ve_malloc, ve_free, ve_virt2phys}
use camview_opipc.Jpeg.{Jpeg, parse_jpeg}
use camview_opipc.Jpeg.Run.{Outcome, done, reject, fault, no_fuel}
use camview_opipc.Display.Layout.{Layout, layout}
use camview_opipc.Decode.{Write, get_format}
use camview_opipc.Decode.Huffman.{Table}
use camview_opipc.Decode.Frame.{Outputs, Output, init_outputs, get_buffer, round_up, hw_decode_jpeg}

-- The statics. `input_size` is not one: it is the size that `hw_init` asked for.
pub record Decoder : Type 0 where
  pub ve : Ve
  pub input_buffer : ℕ
  pub input_size : ℕ
  pub display_initialized : Bool
  pub outputs : Outputs

-- What the environment answers in a frame: the size of a page, the addresses that the kernel has for
-- the three buffers, and `get_buffer_number`.
pub record Answers : Type 0 where
  pub page : ℕ
  pub vaddr1 : ℕ
  pub vaddr2 : ℕ
  pub vaddr3 : ℕ
  pub write_buffer : ℕ

-- What a frame does outside of the statics, in order.
pub data Action : Type 0 where
  inits_display : (width height format : ℕ) → Action
  copies : (target : ℕ) (bytes : List ℕ) → Action
  flushes : (start len : ℕ) → Action
  gets_buffer puts_buffer : (number : ℕ) → Action
  decodes : List Write → Action

unfoldable pub hw_init : Mmap → (width height : ℕ) → Decoder → Decoder
hw_init mmap width height d =
    let size = round_up 65536 (width * height * 3) in
    let r = ve_malloc mmap d.ve size true in
    record d { ve = r.1; input_buffer = r.0; input_size = size }

-- The rest of `hw_close` is that of the display and of the device.
unfoldable pub hw_close : Decoder → Decoder
hw_close d = record d { ve = ve_free d.ve d.input_buffer; display_initialized = false }

-- `n` bytes from `at` on.
unfoldable pub slice : ℕ → ℕ → List ℕ → List ℕ
slice at zero bytes = []
slice at (suc n) bytes = get_or_zero bytes at ∷ slice (at + 1) n bytes

abbrev drop : ℕ → List ℕ → List ℕ
drop zero xs = xs
drop (suc n) [] = []
drop (suc n) (x ∷ xs) = drop n xs

-- The table that `parse_jpeg` left at an offset: 16 counts, and the bytes behind them.
unfoldable pub table_at : List ℕ → ℕ → Table
unfolding slice
table_at bytes offset = record { num = slice offset 16 bytes; codes = drop (offset + 16) bytes }

-- The first four tables of a header.
unfoldable pub tables_of : List ℕ → ℕ → List (Option ℕ) → List (Option Table)
unfolding table_at
tables_of bytes zero hs = []
tables_of bytes (suc n) [] = []
tables_of bytes (suc n) (none ∷ hs) = none ∷ tables_of bytes n hs
tables_of bytes (suc n) (some offset ∷ hs) = some (table_at bytes offset) ∷ tables_of bytes n hs

-- `hw_init_display`; `none` where `init_display` does not know the format.
unfoldable pub hw_init_display : Answers → Jpeg → Decoder → Option (Decoder × List Action)
hw_init_display a jpeg d = do
  l ← layout a.page jpeg.width jpeg.height (get_format jpeg)
  some (
    record d {
      display_initialized = true;
      outputs = init_outputs a.vaddr1 a.vaddr2 a.vaddr3 l.u_offset l.v_offset;
    },
    Action.inits_display jpeg.width jpeg.height (get_format jpeg) ∷ [],
  )

-- From the copy into the input buffer on. A copy to NULL or past the buffer is undefined.
unfoldable pub decode_frame : Answers → List ℕ → Jpeg → Decoder → Option (List Action)
unfolding tables_of slice
decode_frame a bytes jpeg d =
    let phy_input = ve_virt2phys d.ve d.input_buffer in
    let o = get_buffer a.write_buffer d.outputs in
    let decoded : Option (List Action) = do
      ws ← hw_decode_jpeg bytes (tables_of bytes 4 jpeg.huffman) phy_input jpeg o
      some (
          Action.copies d.input_buffer (slice jpeg.start jpeg.data_len bytes)
          ∷ Action.flushes d.input_buffer jpeg.data_len
          ∷ Action.gets_buffer a.write_buffer
          ∷ Action.decodes ws
          ∷ Action.puts_buffer a.write_buffer
          ∷ [])
    in if (d.input_buffer == 0) || ltb d.input_size jpeg.data_len then none else decoded

-- The handler of a frame with a parsed header.
unfoldable pub decode_parsed : Answers → List ℕ → Jpeg → Decoder → Option (Decoder × List Action)
unfolding hw_init_display decode_frame
decode_parsed a bytes jpeg d =
    let first : Option (Decoder × List Action) = do
      (d', shown) ← hw_init_display a jpeg d
      acts ← decode_frame a bytes jpeg d'
      some (d', shown ++ acts)
    in let later : Option (Decoder × List Action) = do
      acts ← decode_frame a bytes jpeg d
      some (d, acts)
      in if d.display_initialized
        then later
        else if get_format jpeg == 0
        then some (d, [])
        else first

-- `none` is undefined behaviour, a read past the data included.
unfoldable pub hw_decode_jpeg_main : Answers → List ℕ → Decoder → Option (Decoder × List Action)
unfolding decode_parsed
hw_decode_jpeg_main a bytes d = elim (parse_jpeg bytes) [
  | reject ↦ some (d, [])
  | done jpeg ↦ decode_parsed a bytes jpeg d
  | fault ↦ none
  | no_fuel ↦ none
]

-- ===== src/Decode.antt =====
-- src/jpeg_dec_main.c: how a parsed frame is handed to the decoder, as the sequence of its register
-- writes. The decoder itself and the kernel's mappings are hardware and parameters. `none` is
-- undefined behaviour: a table that is NULL, a write past a buffer, a division by 0.
pub mod Huffman
pub mod Frame
pub mod Total
pub mod Window
pub mod Main
mod Tests
use camview_opipc.Base.{
  ℕ, zero, suc, ◌+◌, ◌-◌, ◌*◌, ◌/◌, ◌%◌, ◌^◌, bit_or, Bool, true, false, ◌&&◌, ◌||◌, Option, none,
  some, List, [], ◌∷◌, ◌++◌, ◌==◌, if◌then◌else◌, ltb, leb, get_elem?, ◌>>=◌,
}
use camview_opipc.Ve.Registers.{Mpeg, mpeg_reg}
use camview_opipc.Jpeg.{Jpeg, Comp, no_comp}

-- `writel` and `writeb`: a register of src/ve.h and the value.
pub data Write : Type 0 where
  writel writeb : (value reg : ℕ) → Write

abbrev pub u8 : ℕ → ℕ
u8 n = n % 2 ^ 8

abbrev pub u16 : ℕ → ℕ
u16 n = n % 2 ^ 16

abbrev pub u32 : ℕ → ℕ
u32 n = n % 2 ^ 32

abbrev pub first_comp : Jpeg → Comp
first_comp jpeg = elim (get_elem? jpeg.comp 0) [ none ↦ no_comp | some c ↦ c ]

-- `(samp_h << 4) | samp_v`
unfoldable pub fmt : (samp_h samp_v : ℕ) → ℕ
fmt samp_h samp_v = u8 (bit_or (samp_h * 16) samp_v)

unfoldable pub known_format : ℕ → ℕ
known_format f =
    if f == 0x11
    then f
    else if f == 0x21
    then f
    else if f == 0x12
    then f
    else if f == 0x22
    then f
    else 0

unfoldable pub get_format : Jpeg → ℕ
unfolding fmt known_format
get_format jpeg = known_format (fmt (first_comp jpeg).samp_h (first_comp jpeg).samp_v)

unfoldable pub format_writes : ℕ → List Write
format_writes f =
    if f == 0x11
    then writeb 0x1b (mpeg_reg Mpeg.trigger + 3) ∷ []
    else if f == 0x21
    then writeb 0x13 (mpeg_reg Mpeg.trigger + 3) ∷ []
    else if f == 0x12
    then writeb 0x23 (mpeg_reg Mpeg.trigger + 3) ∷ []
    else if f == 0x22
    then writeb 0x03 (mpeg_reg Mpeg.trigger + 3) ∷ []
    else []

unfoldable pub set_format : Jpeg → List Write
unfolding fmt format_writes
set_format jpeg = format_writes (fmt (first_comp jpeg).samp_h (first_comp jpeg).samp_v)

-- A height or width of 0 makes the numerator -1, whose quotient by 8 or more is 0 in C as here.
unfoldable pub set_size : Jpeg → Option (List Write)
set_size jpeg =
    let c = first_comp jpeg in
    let h = u16 ((jpeg.height - 1) / (8 * c.samp_v)) in
    let w = u16 ((jpeg.width - 1) / (8 * c.samp_h)) in
    if c.samp_v == 0 || c.samp_h == 0
    then none
    else some (writel (h * 2 ^ 16 + w) (mpeg_reg Mpeg.jpeg_size) ∷ [])

-- The 64 writes of one quantisation table: its entries from `i` on, with `first` or not in the index.
unfoldable pub coeff_writes : List ℕ → (offset first n i : ℕ) → Option (List Write)
coeff_writes bytes offset first zero i = some []
coeff_writes bytes offset first (suc n) i = do
  c ← get_elem? bytes (offset + i)
  rest ← coeff_writes bytes offset first n (i + 1)
  some (writel ((first + i) * 256 + c) (mpeg_reg Mpeg.iq_min_input) ∷ rest)

-- The table behind a pointer that may be NULL.
abbrev pub pointer : List (Option ℕ) → ℕ → Option ℕ
pointer tables i = get_elem? tables i >>= λ p. p

unfoldable pub set_quantization_tables : List ℕ → Jpeg → Option (List Write)
unfolding coeff_writes
set_quantization_tables bytes jpeg = do
  luma ← pointer jpeg.quant 0
  ws ← coeff_writes bytes luma 64 64 0
  chroma ← pointer jpeg.quant 1
  vs ← coeff_writes bytes chroma 0 64 0
  some (ws ++ vs)

-- ===== src/Decode/Window.antt =====
-- The registers that `hw_decode_jpeg` of src/jpeg_dec_main.c writes to.
use camview_opipc.Base.{
  ℕ, zero, suc, ◌+◌, ◌≤◌, ◌<◌, ◌%◌, ◌≡◌, refl, Option, none, some, List, [], ◌∷◌, ◌++◌, All,
  All-append, arith, get_elem?, replicate, if_both, ◌>>=◌,
}
use camview_opipc.Ve.Registers.{mapped_size, Mpeg, mpeg_reg}
use camview_opipc.Jpeg.{Jpeg}
use camview_opipc.Decode.{
  Write, writel, writeb, set_size, set_format, format_writes, coeff_writes, pointer,
  set_quantization_tables,
}
use camview_opipc.Decode.Huffman.{Table, set_huffman_tables, ram_writes, tables_loop}
use camview_opipc.Decode.Frame.{Output, skips, output_writes, input_writes, hw_decode_jpeg}

-- The write is inside the mapped registers, behind VE_CTRL, which selects the engine, and a word is at a
-- multiple of its size.
abbrev pub IsInWindow : Write → Type 0
IsInWindow (writel value reg) = (reg % 4 ≡ 0) × (4 ≤ reg) × (reg + 4 ≤ mapped_size)
IsInWindow (writeb value reg) = (4 ≤ reg) × (reg < mapped_size)

-- All writes of a result that is defined are.
abbrev AreInWindow : Option (List Write) → Type 0
AreInWindow none = Unit
AreInWindow (some ws) = All IsInWindow ws

bind-InWindow :
    {A : Type 0} (o : Option A) (f : A → Option (List Write))
    → ((a : A) → o ≡ some a → AreInWindow (f a))
    → AreInWindow (o >>= f)
bind-InWindow none f h = tt
bind-InWindow (some a) f h = h a refl

at-some :
    (o : Option (List Write)) (ws : List Write) → AreInWindow o → o ≡ some ws → All IsInWindow ws
at-some o ws h e = rw e at h

set_format-InWindow : (jpeg : Jpeg) → All IsInWindow (set_format jpeg)
unfolding set_format format_writes
set_format-InWindow jpeg = ground arith

set_size-InWindow : (jpeg : Jpeg) → AreInWindow (set_size jpeg)
unfolding set_size
set_size-InWindow jpeg = ground arith

coeff_writes-InWindow :
    (bytes : List ℕ) (offset first n i : ℕ) → AreInWindow (coeff_writes bytes offset first n i)
unfolding coeff_writes
coeff_writes-InWindow bytes offset first zero i = tt
coeff_writes-InWindow bytes offset first (suc n) i =
    bind-InWindow (get_elem? bytes (offset + i)) _ λ c _.
      bind-InWindow (coeff_writes bytes offset first n (i + 1)) _ λ rest e.
        (omega arith, at-some _ rest (coeff_writes-InWindow bytes offset first n (i + 1)) e)

set_quantization_tables-InWindow :
    (bytes : List ℕ) (jpeg : Jpeg) → AreInWindow (set_quantization_tables bytes jpeg)
unfolding set_quantization_tables
set_quantization_tables-InWindow bytes jpeg = bind-InWindow (pointer jpeg.quant 0) _ λ luma _.
    bind-InWindow (coeff_writes bytes luma 64 64 0) _ λ ws e.
      bind-InWindow (pointer jpeg.quant 1) _ λ chroma _.
        bind-InWindow (coeff_writes bytes chroma 0 64 0) _ λ vs f.
          All-append IsInWindow ws vs (at-some _ ws (coeff_writes-InWindow bytes luma 64 64 0) e)
            (at-some _ vs (coeff_writes-InWindow bytes chroma 0 64 0) f)

ram_writes-InWindow : (n i : ℕ) (buffer : List ℕ) → All IsInWindow (ram_writes n i buffer)
unfolding ram_writes
ram_writes-InWindow zero i buffer = tt
ram_writes-InWindow (suc n) i buffer = (omega arith, ram_writes-InWindow n (i + 1) buffer)

set_huffman_tables-InWindow :
    (tables : List (Option Table)) → AreInWindow (set_huffman_tables tables)
unfolding set_huffman_tables
set_huffman_tables-InWindow tables =
    bind-InWindow (tables_loop 0 tables (replicate 2048 0)) _
      λ buffer _. ram_writes-InWindow 512 0 buffer

output_writes-InWindow : (jpeg : Jpeg) (o : Output) → All IsInWindow (output_writes jpeg o)
unfolding output_writes
output_writes-InWindow jpeg o = omega arith

input_writes-InWindow : (phy_input : ℕ) (jpeg : Jpeg) → All IsInWindow (input_writes phy_input jpeg)
unfolding input_writes
input_writes-InWindow phy_input jpeg = omega arith

decode-InWindow :
    (bytes : List ℕ) (tables : List (Option Table)) (phy_input : ℕ) (jpeg : Jpeg) (o : Output)
    → AreInWindow (hw_decode_jpeg bytes tables phy_input jpeg o)
unfolding hw_decode_jpeg
decode-InWindow bytes tables phy_input jpeg o = if_both AreInWindow (skips o) (some []) _ tt (
    bind-InWindow (set_size jpeg) _ λ size e.
      bind-InWindow (set_quantization_tables bytes jpeg) _ λ quant f.
        bind-InWindow (set_huffman_tables tables) _ λ huffman g.
          let planes =
            writel o.luma (mpeg_reg Mpeg.rot_luma)
            ∷ writel o.chroma_u (mpeg_reg Mpeg.rot_chroma)
            ∷ size in
          let ram = writel 0 (mpeg_reg Mpeg.ram_write_ptr) ∷ huffman in
          let end =
            writeb 0x0e (mpeg_reg Mpeg.trigger) ∷ writel 0xc00f (mpeg_reg Mpeg.status) ∷ [] in
          let planes_in : All IsInWindow planes =
            (omega arith, (omega arith, at-some _ size (set_size-InWindow jpeg) e)) in
          let ram_in : All IsInWindow ram =
            (omega arith, at-some _ huffman (set_huffman_tables-InWindow tables) g) in
          let end_in : All IsInWindow end = omega arith in
          let a = output_writes jpeg o ++ set_format jpeg in
          let b = a ++ planes in
          let c = b ++ input_writes phy_input jpeg in
          let a_in =
            All-append IsInWindow (output_writes jpeg o) (set_format jpeg)
              (output_writes-InWindow jpeg o) (set_format-InWindow jpeg) in
          let b_in = All-append IsInWindow a planes a_in planes_in in
          let c_in =
            All-append IsInWindow b (input_writes phy_input jpeg) b_in
              (input_writes-InWindow phy_input jpeg) in
          let quant_in =
            All-append IsInWindow c quant c_in
              (at-some _ quant (set_quantization_tables-InWindow bytes jpeg) f) in
          All-append IsInWindow (c ++ quant ++ ram) end
            (All-append IsInWindow (c ++ quant) ram quant_in ram_in) end_in)

-- Whatever the frame and its tables, each register write of a decoding that is defined is inside the
-- mapped registers and behind VE_CTRL, and a word is written at a multiple of its size.
pub hw_decode_jpeg-InWindow :
    (bytes : List ℕ) (tables : List (Option Table)) (phy_input : ℕ) (jpeg : Jpeg) (o : Output)
    (ws : List Write)
    → hw_decode_jpeg bytes tables phy_input jpeg o ≡ some ws
    → All IsInWindow ws
hw_decode_jpeg-InWindow bytes tables phy_input jpeg o ws e =
    at-some _ ws (decode-InWindow bytes tables phy_input jpeg o) e

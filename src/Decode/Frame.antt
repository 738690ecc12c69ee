-- ===== src/Decode/Frame.antt =====
-- `hw_init_display`, `get_buffer` and `hw_decode_jpeg` of src/jpeg_dec_main.c. A pointer is a number, and
-- 0 is NULL.
pub mod Planes
pub mod Sampling
use camview_opipc.Base.{
  ℕ, zero, suc, ◌+◌, ◌-◌, ◌*◌, ◌/◌, ◌%◌, ◌^◌, bit_or, Bool, true, false, ◌&&◌, ◌||◌, Option, none,
  some, List, [], ◌∷◌, ◌++◌, ◌==◌, if◌then◌else◌, leb, ◌>>=◌,
}
use camview_opipc.Ve.Registers.{Common, common_reg, Mpeg, mpeg_reg}
use camview_opipc.Jpeg.{Jpeg}
use camview_opipc.Decode.{Write, writel, writeb, u32, set_format, set_size, set_quantization_tables}
use camview_opipc.Decode.Huffman.{Table, set_huffman_tables}

-- The three planes of one frame buffer.
pub record Output : Type 0 where
  pub luma : ℕ
  pub chroma_u : ℕ
  pub chroma_v : ℕ

pub record Outputs : Type 0 where
  pub output1 : Output
  pub output2 : Output
  pub output3 : Output

abbrev pub planes : (base u_offset v_offset : ℕ) → Output
planes base u_offset v_offset = record {
  luma = base;
  chroma_u = u32 (base + u_offset);
  chroma_v = u32 (base + v_offset);
}

-- `vaddr - 0xc0000000`, modulo 2 ^ 32
abbrev pub dma_phy : ℕ → ℕ
dma_phy vaddr = u32 (vaddr + 0x4000_0000)

-- The physical addresses from the addresses that the kernel has for the three buffers.
unfoldable pub init_outputs : (vaddr1 vaddr2 vaddr3 u_offset v_offset : ℕ) → Outputs
init_outputs vaddr1 vaddr2 vaddr3 u_offset v_offset = record {
  output1 = planes (dma_phy vaddr1) u_offset v_offset;
  output2 = planes (dma_phy vaddr2) u_offset v_offset;
  output3 = planes (dma_phy vaddr3) u_offset v_offset;
}

unfoldable pub get_buffer : ℕ → Outputs → Output
get_buffer write_buffer os =
    if write_buffer == 2 then os.output2 else if write_buffer == 3 then os.output3 else os.output1

-- `(n + mask) & ~mask` for a mask of ones
abbrev pub round_up : (unit n : ℕ) → ℕ
round_up unit n = (n + (unit - 1)) / unit * unit

-- `v_offset`: the difference of 32 bits, of which the upper half of the values stands for those below 0.
abbrev pub v_offset : Output → ℕ
v_offset o = u32 (o.chroma_v + 2 ^ 32 - o.chroma_u)

unfoldable pub skips : Output → Bool
skips o = o.luma == 0 || o.chroma_u == 0 || v_offset o == 0 || leb (2 ^ 31) (v_offset o)

unfoldable pub output_writes : Jpeg → Output → List Write
output_writes jpeg o =
    let line_stride = round_up 32 jpeg.width in
    writel 0x33 (common_reg Common.output_format)
    ∷ writel (bit_or (v_offset o) 0x8000_0000) 0xe8
    ∷ writel (u32 (line_stride * round_up 32 jpeg.height)) 0xc4
    ∷ writel (bit_or line_stride (u32 (line_stride * 2 ^ 16))) 0xc8
    ∷ writel jpeg.restart_interval (mpeg_reg Mpeg.jpeg_res_int)
    ∷ []

unfoldable pub input_writes : (phy_input : ℕ) → Jpeg → List Write
input_writes phy_input jpeg =
    writel 0 (mpeg_reg Mpeg.sdrot_ctrl)
    ∷ writel (u32 (phy_input + round_up 65536 jpeg.data_len - 1)) (mpeg_reg Mpeg.vld_end)
    ∷ writel 0x7c (mpeg_reg Mpeg.ctrl)
    ∷ writel 0 (mpeg_reg Mpeg.vld_offset)
    ∷ writel (u32 (jpeg.data_len * 8)) (mpeg_reg Mpeg.vld_len)
    ∷ writel (bit_or phy_input 0x7000_0000) (mpeg_reg Mpeg.vld_addr)
    ∷ []

-- The register writes; `bytes` are the data that the quantisation tables are in.
unfoldable pub hw_decode_jpeg :
    List ℕ → List (Option Table) → (phy_input : ℕ) → Jpeg → Output → Option (List Write)
unfolding skips output_writes input_writes
hw_decode_jpeg bytes tables phy_input jpeg o =
    let decode : Option (List Write) = do
      size ← set_size jpeg
      quant ← set_quantization_tables bytes jpeg
      huffman ← set_huffman_tables tables
      some (
          output_writes jpeg o
          ++ set_format jpeg
          ++ (writel o.luma (mpeg_reg Mpeg.rot_luma)
              ∷ writel o.chroma_u (mpeg_reg Mpeg.rot_chroma)
              ∷ size)
          ++ input_writes phy_input jpeg
          ++ quant
          ++ (writel 0 (mpeg_reg Mpeg.ram_write_ptr) ∷ huffman)
          ++ (writeb 0x0e (mpeg_reg Mpeg.trigger) ∷ writel 0xc00f (mpeg_reg Mpeg.status) ∷ []))
    in if skips o then some [] else decode

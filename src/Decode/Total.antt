-- ===== src/Decode/Total.antt =====
-- `hw_decode_jpeg` of src/jpeg_dec_main.c gets through on well-formed frames.
use mathlib.Core.List.{append_assoc}
use camview_opipc.Base.{
  ℕ, zero, suc, ◌+◌, ◌*◌, ◌≤◌, ◌<◌, ◌≡◌, ◌≢◌, refl, false, Option, some, List, [], ◌∷◌, ◌++◌,
  get_elem?, length, arith, All, ap, ◌∙◌, length-append,
}
use camview_opipc.Jpeg.{Jpeg}
use camview_opipc.Decode.{
  Write, writel, writeb, first_comp, set_size, set_format, pointer, coeff_writes,
  set_quantization_tables, get_format, known_format, format_writes, fmt,
}
use camview_opipc.Decode.Huffman.{Table}
use camview_opipc.Decode.Huffman.Fits.{IsSmall, set_huffman_tables-fits}
use camview_opipc.Decode.Frame.{Output, skips, output_writes, input_writes, hw_decode_jpeg}
use camview_opipc.Decode.Frame.Sampling.{get_format-set_size}

get_elem?-below :
    (bytes : List ℕ) (i : ℕ) → i < length bytes → (b : ℕ) × (get_elem? bytes i ≡ some b)
get_elem?-below [] i lt = absurd (omega arith)
get_elem?-below (b ∷ bs) zero lt = (b, refl)
get_elem?-below (b ∷ bs) (suc i) lt = get_elem?-below bs i (omega arith)

-- A table that lies inside the data gives one write for each entry.
pub coeff_writes-total :
    (bytes : List ℕ) (offset first n i : ℕ)
    → offset + i + n ≤ length bytes
    → (ws : List Write) × (coeff_writes bytes offset first n i ≡ some ws) × (length ws ≡ n)
unfolding coeff_writes
coeff_writes-total bytes offset first zero i le = ([], refl, refl)
coeff_writes-total bytes offset first (suc n) i le =
    let (c, e) = get_elem?-below bytes (offset + i) (omega arith) in
    let (ws, f, l) = coeff_writes-total bytes offset first n (i + 1) (omega arith) in
    (writel ((first + i) * 256 + c) 0x180 ∷ ws, rw (e, f) refl, ap suc l)

set_quantization_tables-total :
    (bytes : List ℕ) (jpeg : Jpeg) (luma chroma : ℕ)
    → pointer jpeg.quant 0 ≡ some luma
    → pointer jpeg.quant 1 ≡ some chroma
    → luma + 64 ≤ length bytes
    → chroma + 64 ≤ length bytes
    → (ws : List Write) × (set_quantization_tables bytes jpeg ≡ some ws) × (length ws ≡ 128)
unfolding set_quantization_tables
set_quantization_tables-total bytes jpeg luma chroma e f lu ch =
    let (ws, g, l) = coeff_writes-total bytes luma 64 64 0 (omega arith) in
    let (vs, h, m) = coeff_writes-total bytes chroma 0 64 0 (omega arith) in
    (ws ++ vs, rw (e, g, f, h) refl, omega (arith, length-append ws vs))

format_writes-known : (f : ℕ) → known_format f ≢ 0 → length (format_writes f) ≡ 1
unfolding known_format format_writes
format_writes-known f h = ground arith

set_size-length : (jpeg : Jpeg) (ws : List Write) → set_size jpeg ≡ some ws → length ws ≡ 1
unfolding set_size
set_size-length jpeg ws e = ground arith

set_format-length : (jpeg : Jpeg) → get_format jpeg ≢ 0 → length (set_format jpeg) ≡ 1
unfolding get_format set_format
set_format-length jpeg known =
    format_writes-known (fmt (first_comp jpeg).samp_h (first_comp jpeg).samp_v) known

-- What a frame needs to be decoded: a format that is known, sampling factors of 4 bits, the two
-- quantisation tables inside the data, and Huffman tables inside the data of at most 256 codes.
pub record IsDecodable (bytes : List ℕ) (tables : List (Option Table)) (jpeg : Jpeg)
    (luma chroma : ℕ) : Type 0 where
  pub known : get_format jpeg ≢ 0
  pub samp_h : (first_comp jpeg).samp_h < 16
  pub samp_v : (first_comp jpeg).samp_v < 16
  pub luma_set : pointer jpeg.quant 0 ≡ some luma
  pub chroma_set : pointer jpeg.quant 1 ≡ some chroma
  pub luma_inside : luma + 64 ≤ length bytes
  pub chroma_inside : chroma + 64 ≤ length bytes
  pub few : length tables ≤ 4
  pub small : All IsSmall tables

regrouped : {A : Type 0} (a b c d e : List A) → a ++ b ++ c ++ d ++ e ≡ a ++ (b ++ c ++ d ++ e)
regrouped a b c d e =
    ap (λ x. x ++ d ++ e) (append_assoc a b c)
    ∙ ap (λ x. x ++ e) (append_assoc a (b ++ c) d)
    ∙ append_assoc a (b ++ c ++ d) e

module _ (bytes : List ℕ) (tables : List (Option Table)) (phy_input : ℕ) (jpeg : Jpeg) (o : Output)
    (luma chroma : ℕ) where
  -- A decodable frame, on outputs that are not skipped, makes 656 register writes, two of which set the
  -- planes' addresses, and then starts the engine and clears its interrupt.
  pub hw_decode_jpeg-total :
      skips o ≡ false
      → IsDecodable bytes tables jpeg luma chroma
      → (front : List Write) × (middle : List Write) × (hw_decode_jpeg bytes tables phy_input jpeg o
          ≡ some (
              front
              ++ (writel o.luma 0x1cc ∷ writel o.chroma_u 0x1d0 ∷ middle)
              ++ (writeb 0x0e 0x118 ∷ writel 0xc00f 0x11c ∷ [])))
        × (length front + length middle ≡ 654)
  unfolding hw_decode_jpeg output_writes input_writes
  hw_decode_jpeg-total s d =
      let (size, e) = get_format-set_size jpeg d.samp_h d.samp_v d.known in
      let (quant, f, l) =
        set_quantization_tables-total bytes jpeg luma chroma d.luma_set d.chroma_set d.luma_inside
          d.chroma_inside in
      let (huffman, g, m) = set_huffman_tables-fits tables d.few d.small in
      let size_one = set_size-length jpeg size e in
      let format_one = set_format-length jpeg d.known in
      let a = output_writes jpeg o ++ set_format jpeg in
      let planes = writel o.luma 0x1cc ∷ writel o.chroma_u 0x1d0 ∷ [] in
      let input = input_writes phy_input jpeg in
      let ram = writel 0 0x1e0 ∷ huffman in
      (
        a,
        size ++ input ++ quant ++ ram,
        rw (s, e, f, g)
            (ap (λ ws. some (ws ++ (writeb 0x0e 0x118 ∷ writel 0xc00f 0x11c ∷ [])))
              (regrouped a (planes ++ size) input quant ram)),
        omega (
          arith,
          length-append (size ++ input ++ quant) ram,
          length-append (size ++ input) quant,
          length-append size input,
          length-append (output_writes jpeg o) (set_format jpeg),
        ),
      )

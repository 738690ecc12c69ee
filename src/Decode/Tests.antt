-- ===== src/Decode/Tests.antt =====
-- A frame of 1280 x 720 in YUV 4:2:0 and the tables of a small code.
use camview_opipc.Base.{
  ℕ, ◌+◌, ◌*◌, ◌^◌, ◌≤◌, ◌<◌, ◌≡◌, ◌⊎◌, refl, none, some, [], ◌∷◌, arith, replicate,
}
use camview_opipc.Jpeg.{Jpeg, Comp, no_jpeg, no_comp}
use camview_opipc.Decode.{get_format}
use camview_opipc.Decode.Huffman.{Table, last_from, starts, set_huffman_tables}
use camview_opipc.Decode.Huffman.Codes.{stored, stored_codes-prefix_free}

abbrev sampled : (samp_h samp_v : ℕ) → Comp
sampled h v = record { samp_h = h; samp_v = v; qt = 0; ht_ac = 0; ht_dc = 0 }

abbrev frame : (samp_h samp_v : ℕ) → Jpeg
frame h v = record no_jpeg {
  width = 1280;
  height = 720;
  comp = sampled h v ∷ no_comp ∷ no_comp ∷ [];
}

abbrev small : Table
small = record { num = 0 ∷ 1 ∷ 2 ∷ 1 ∷ replicate 12 0; codes = 5 ∷ 6 ∷ 7 ∷ 8 ∷ [] }

abbrev large : Table
large = record { num = 200 ∷ 200 ∷ replicate 14 0; codes = replicate 400 0 }

get_format_420 : get_format (frame 2 2) ≡ 0x22
unfolding get_format
get_format_420 = refl

small_starts :
    starts 0 small.num
    ≡ 0 ∷ 0 ∷ 2 ∷ 8 ∷ 18 ∷ 36 ∷ 72 ∷ 144 ∷ 288 ∷ 576 ∷ 1152 ∷ 2304 ∷ 4608 ∷ 9216 ∷ 18432 ∷ 36864
      ∷ []
unfolding starts
small_starts = refl

-- The two codes of length 3 and the code of length 4; 3 is the last length.
stored_codes-prefix_free_example :
    ((3 < 3) × (stored 3 (starts 0 small.num) 3 ≡ 0xffff))
    ⊎ ((stored 3 (starts 0 small.num) 2 + 2) * 2 ^ 1 ≤ stored 3 (starts 0 small.num) 3)
unfolding starts last_from
stored_codes-prefix_free_example =
    stored_codes-prefix_free small.num 2 0 (omega arith) (omega arith)

-- The fourth table's codes leave the buffer.
large_overflows : set_huffman_tables (some small ∷ none ∷ none ∷ some large ∷ []) ≡ none
unfolding set_huffman_tables
large_overflows = refl

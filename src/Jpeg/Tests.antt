-- ===== src/Jpeg/Tests.antt =====
-- The parser on small headers.
use camview_opipc.Base.{
  ℕ, zero, suc, ◌≡◌, ◌≢◌, ◌⊎◌, refl, none, some, List, [], ◌∷◌, ◌++◌, arith, replicate, All,
  All-append,
}
use camview_opipc.Jpeg.Run.{done, reject, fault}
use camview_opipc.Jpeg.{Jpeg, no_comp, no_jpeg, parse_jpeg, parse_jpeg_in}
use camview_opipc.Jpeg.Dump.{Line, dump_jpeg}
use camview_opipc.Jpeg.Bounds.{IsByte, IsInBounds}
use camview_opipc.Jpeg.Accept.{HasScan, parse_jpeg_in-IsInBounds}
use camview_opipc.Jpeg.Overread.{parse_jpeg_in-ne-fault, parse_jpeg_in_returns}

-- 32 by 16 pixels, three components at 2:1, and four bytes of scan.
abbrev sof0 : List ℕ
sof0 =
    0xff ∷ 0xc0 ∷ 0 ∷ 17 ∷ 8 ∷ 0 ∷ 16 ∷ 0 ∷ 32 ∷ 3 ∷ 1 ∷ 0x21 ∷ 0 ∷ 2 ∷ 0x11 ∷ 1 ∷ 3 ∷ 0x11 ∷ 1 ∷ []

abbrev sos : List ℕ
sos = 0xff ∷ 0xda ∷ 0 ∷ 8 ∷ 1 ∷ 1 ∷ 0x01 ∷ 0 ∷ 63 ∷ 0 ∷ []

abbrev small : List ℕ
small = 0xff ∷ 0xd8 ∷ sof0 ++ sos ++ (1 ∷ 2 ∷ 3 ∷ 4 ∷ [])

abbrev small_header : Jpeg
small_header = record no_jpeg {
  bits = 8;
  width = 32;
  height = 16;
  comp =
      record { samp_h = 2; samp_v = 1; qt = 0; ht_ac = 1; ht_dc = 0 }
      ∷ record no_comp { samp_h = 1; samp_v = 1; qt = 1 }
      ∷ record no_comp { samp_h = 1; samp_v = 1; qt = 1 }
      ∷ [];
  start = 31;
  data_len = 4;
}

parse_jpeg-small : parse_jpeg small ≡ done small_header
unfolding parse_jpeg
parse_jpeg-small = refl

parse_jpeg_progressive : parse_jpeg (0xff ∷ 0xd8 ∷ 0xff ∷ 0xc2 ∷ 0 ∷ 2 ∷ 0 ∷ 0 ∷ []) ≡ reject
unfolding parse_jpeg
parse_jpeg_progressive = refl

-- A Huffman segment with one byte of payload, at the end of the data.
abbrev short_dht : List ℕ
short_dht = 0xff ∷ 0xd8 ∷ 0xff ∷ 0xc4 ∷ 0 ∷ 3 ∷ 0x10 ∷ 0 ∷ []

parse_jpeg-short_dht : parse_jpeg short_dht ≡ fault
unfolding parse_jpeg
parse_jpeg-short_dht = refl

-- A Huffman segment of one byte of payload: its counts are what follows the 11 bytes of the data.
abbrev behind : List ℕ
behind = 0xff ∷ 0xd8 ∷ 0xff ∷ 0xc4 ∷ 0 ∷ 3 ∷ 0x10 ∷ 0xff ∷ 0xda ∷ 0 ∷ 0 ∷ replicate 16 0

abbrev behind_header : Jpeg
behind_header = record no_jpeg {
  huffman = none ∷ some 7 ∷ none ∷ none ∷ none ∷ none ∷ none ∷ none ∷ [];
  start = 9;
  data_len = 2;
}

parse_jpeg_in-IsInBounds_example :
    IsInBounds 11 behind_header × HasScan 11 behind (omega arith) behind_header
unfolding parse_jpeg_in
parse_jpeg_in-IsInBounds_example =
    parse_jpeg_in-IsInBounds 11 behind (omega arith) behind_header refl

-- A frame header at the end of 6 bytes of data that promises 255 components, and what follows.
abbrev start : List ℕ
start = 0xff ∷ 0xd8 ∷ 0xff ∷ 0xc0 ∷ 0 ∷ 0 ∷ replicate 5 1

abbrev promising : ℕ → List ℕ
promising n = start ++ (255 ∷ replicate n 1)

ones-IsByte : (n : ℕ) → All IsByte (replicate n 1)
ones-IsByte zero = tt
ones-IsByte (suc n) = (omega arith, ones-IsByte n)

promising-IsByte : (n : ℕ) → All IsByte (promising n)
promising-IsByte n =
    All-append IsByte start (255 ∷ replicate n 1) (omega arith) (omega arith, ones-IsByte n)

parse_jpeg_in-ne-fault_example : parse_jpeg_in 6 (promising 765) ≢ fault
parse_jpeg_in-ne-fault_example =
    parse_jpeg_in-ne-fault (promising 765) (promising-IsByte 765) 6 (omega arith)

parse_jpeg_in_returns_example :
    (parse_jpeg_in 6 (promising 765) ≡ reject)
    ⊎ ((j : Jpeg) × (parse_jpeg_in 6 (promising 765) ≡ done j))
parse_jpeg_in_returns_example =
    parse_jpeg_in_returns (promising 765) (promising-IsByte 765) 6 (omega arith)

-- One byte less, and the memory is left.
promising_short : parse_jpeg_in 6 (promising 764) ≡ fault
unfolding parse_jpeg_in
promising_short = refl

-- The DC table's number is printed twice.
dump_jpeg-small :
    dump_jpeg small small_header
    ≡ done (
        Line.sizes 32 16 8 0
        ∷ Line.component 0 2 1 0 0 0
        ∷ Line.component 1 1 1 1 0 0
        ∷ Line.component 2 1 1 1 0 0
        ∷ Line.data_length 4
        ∷ [])
unfolding dump_jpeg
dump_jpeg-small = refl

-- ===== src/Jpeg/Dump.antt =====
-- `dump_jpeg` of src/jpeg.c, which prints a header. A line of the list stands for a `printf` with its
-- numbers; the headings and the ends of lines are left out.
pub mod Reads
use camview_opipc.Base.{
  ℕ, zero, suc, ◌+◌, ◌-◌, ◌*◌, ◌/◌, ◌%◌, Bool, true, false, ◌&&◌, not, ◌==◌, Option, none, some,
  List, [], ◌∷◌, ◌++◌, if◌then◌else◌,
}
use camview_opipc.Jpeg.Run.{Outcome, done, ◌>>=◌}
use camview_opipc.Jpeg.{Jpeg, Comp, byte}

pub data Line : Type 0 where
  sizes : (width height bits restart_interval : ℕ) → Line
  component : (i samp_h samp_v qt ht_dc ht_dc_again : ℕ) → Line
  quant_id coeff : ℕ → Line
  huffman_id : (id class : ℕ) → Line
  bits code data_length : ℕ → Line

unfoldable pub dump_comps : ℕ → List Comp → List Line
dump_comps i [] = []
dump_comps i (c ∷ cs) =
    (if not (c.samp_h == 0) && not (c.samp_v == 0)
      then Line.component i c.samp_h c.samp_v c.qt c.ht_dc c.ht_dc ∷ []
      else [])
    ++ dump_comps (i + 1) cs

-- `n` bytes from `at` on.
unfoldable pub dump_bytes : (ℕ → Line) → ℕ → List ℕ → ℕ → Outcome (List Line)
dump_bytes line zero bytes at = done []
dump_bytes line (suc n) bytes at = do
  b ← byte bytes at
  rest ← dump_bytes line n bytes (at + 1)
  done (line b ∷ rest)

unfoldable pub dump_quants : ℕ → List ℕ → List (Option ℕ) → Outcome (List Line)
unfolding dump_bytes
dump_quants i bytes [] = done []
dump_quants i bytes (none ∷ ts) = dump_quants (i + 1) bytes ts
dump_quants i bytes (some table ∷ ts) = do
  coeffs ← dump_bytes Line.coeff 64 bytes table
  rest ← dump_quants (i + 1) bytes ts
  done (Line.quant_id i ∷ coeffs ++ rest)

-- `n` of the 16 counts are left, from the `j`-th on, and `sum` codes have been printed.
unfoldable pub dump_counts : (n j sum : ℕ) → List ℕ → (table : ℕ) → Outcome (List Line)
unfolding dump_bytes
dump_counts zero j sum bytes table = done []
dump_counts (suc n) j sum bytes table = do
  num ← byte bytes (table + j)
  codes ← dump_bytes Line.code num bytes (table + 16 + sum)
  rest ← dump_counts n (j + 1) (sum + num) bytes table
  done ((if num == 0 then [] else Line.bits (j + 1) ∷ codes) ++ rest)

unfoldable pub dump_huffmans : ℕ → List ℕ → List (Option ℕ) → Outcome (List Line)
unfolding dump_counts
dump_huffmans i bytes [] = done []
dump_huffmans i bytes (none ∷ ts) = dump_huffmans (i + 1) bytes ts
dump_huffmans i bytes (some table ∷ ts) = do
  codes ← dump_counts 16 0 0 bytes table
  rest ← dump_huffmans (i + 1) bytes ts
  done (Line.huffman_id (i / 2 % 4) (i % 2) ∷ codes ++ rest)

unfoldable pub dump_jpeg : List ℕ → Jpeg → Outcome (List Line)
unfolding dump_comps dump_quants dump_huffmans
dump_jpeg bytes jpeg = do
  quants ← dump_quants 0 bytes jpeg.quant
  huffmans ← dump_huffmans 0 bytes jpeg.huffman
  done (
      (Line.sizes jpeg.width jpeg.height jpeg.bits jpeg.restart_interval ∷ dump_comps 0 jpeg.comp)
      ++ quants
      ++ huffmans
      ++ (Line.data_length jpeg.data_len ∷ []))

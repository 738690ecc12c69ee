-- ===== src/Jpeg/Dump/Reads.antt =====
-- The reads of `dump_jpeg`.
use camview_opipc.Base.{
  ℕ, zero, suc, ◌+◌, ◌*◌, ◌≤◌, ◌≡◌, ◌≢◌, Option, none, some, List, [], ◌∷◌, arith, length, All,
}
use camview_opipc.Jpeg.Run.{done, fault}
use camview_opipc.Jpeg.{Jpeg, parse_jpeg_in}
use camview_opipc.Jpeg.Bounds.{IsByte, IsInside, IsInBounds}
use camview_opipc.Jpeg.Accept.{parse_jpeg_in-IsInBounds}
use camview_opipc.Jpeg.Overread.{Safe, returns, Safe-bind, Safe-ne-fault, Any, byte-Safe}
use camview_opipc.Jpeg.Dump.{Line, dump_bytes, dump_quants, dump_counts, dump_huffmans, dump_jpeg}

module _ (bytes : List ℕ) (are_bytes : All IsByte bytes) where
  dump_bytes-Safe :
      (line : ℕ → Line) (n at : ℕ) → at + n ≤ length bytes → Safe Any (dump_bytes line n bytes at)
  unfolding dump_bytes
  dump_bytes-Safe line zero at h = returns tt
  dump_bytes-Safe line (suc n) at h =
      Safe-bind (byte-Safe bytes are_bytes at (omega arith))
        λ b _. Safe-bind (dump_bytes-Safe line n (at + 1) (omega arith)) λ rest _. returns tt

  dump_counts-Safe :
      (n j sum table : ℕ)
      → table + j + n ≤ length bytes
      → table + 16 + sum + n * 255 ≤ length bytes
      → Safe Any (dump_counts n j sum bytes table)
  unfolding dump_counts
  dump_counts-Safe zero j sum table h g = returns tt
  dump_counts-Safe (suc n) j sum table h g =
      Safe-bind (byte-Safe bytes are_bytes (table + j) (omega arith)) λ num small.
        Safe-bind (dump_bytes-Safe Line.code num (table + 16 + sum) (omega arith)) λ codes _.
          Safe-bind (dump_counts-Safe n (j + 1) (sum + num) table (omega arith) (omega arith))
            λ rest _. returns tt

  module _ (limit : ℕ) (room : limit + 4096 ≤ length bytes) where
    dump_quants-Safe :
        (i : ℕ) (ts : List (Option ℕ)) → All (IsInside limit) ts → Safe Any (dump_quants i bytes ts)
    unfolding dump_quants
    dump_quants-Safe i [] h = returns tt
    dump_quants-Safe i (none ∷ ts) (_, hs) = dump_quants-Safe (i + 1) ts hs
    dump_quants-Safe i (some table ∷ ts) (h, hs) =
        Safe-bind (dump_bytes-Safe Line.coeff 64 table (omega arith))
          λ coeffs _. Safe-bind (dump_quants-Safe (i + 1) ts hs) λ rest _. returns tt

    dump_huffmans-Safe :
        (i : ℕ) (ts : List (Option ℕ))
        → All (IsInside limit) ts
        → Safe Any (dump_huffmans i bytes ts)
    unfolding dump_huffmans
    dump_huffmans-Safe i [] h = returns tt
    dump_huffmans-Safe i (none ∷ ts) (_, hs) = dump_huffmans-Safe (i + 1) ts hs
    dump_huffmans-Safe i (some table ∷ ts) (h, hs) =
        Safe-bind (dump_counts-Safe 16 0 0 table (omega arith) (omega arith))
          λ codes _. Safe-bind (dump_huffmans-Safe (i + 1) ts hs) λ rest _. returns tt

    dump_jpeg-Safe : (j : Jpeg) → IsInBounds limit j → Safe Any (dump_jpeg bytes j)
    unfolding dump_jpeg
    dump_jpeg-Safe j v =
        Safe-bind (dump_quants-Safe 0 j.quant v.quants)
          λ quants _. Safe-bind (dump_huffmans-Safe 0 j.huffman v.huffmans) λ huffmans _. returns tt

-- A header that the parser accepts is printed with reads of at most 4096 bytes past the end of the
-- data.
pub dump_jpeg-ne-fault :
    (bytes : List ℕ) (limit : ℕ) (j : Jpeg)
    → All IsByte bytes
    → parse_jpeg_in limit bytes ≡ done j
    → limit + 4096 ≤ length bytes
    → dump_jpeg bytes j ≢ fault
dump_jpeg-ne-fault bytes limit j all e room =
    Safe-ne-fault
      (dump_jpeg-Safe bytes all limit room j (parse_jpeg_in-IsInBounds limit bytes all j e).0)

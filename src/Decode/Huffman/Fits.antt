-- ===== src/Decode/Huffman/Fits.antt =====
-- When the tables fit the buffer of `set_huffman_tables`.
use camview_opipc.Base.{
  ℕ, zero, suc, ◌+◌, ◌*◌, ◌≤◌, ◌<◌, ◌≡◌, refl, true, false, Option, none, some, List, [], ◌∷◌,
  arith, length, leb, All, ap, replicate, Option-cases, inl, inr,
}
use camview_opipc.Decode.{Write}
use camview_opipc.Decode.Huffman.{
  Table, total, is_inside, filled, set_table, tables_loop, ram_writes, set_huffman_tables,
}

-- A table inside the data of at most 256 codes, as the 256 bytes of `codes` can hold, or NULL.
abbrev pub IsSmall : Option Table → Type 0
IsSmall none = Unit
IsSmall (some t) = (total t.num ≤ 256) × (is_inside t ≡ true)

set_table-fits :
    (i : ℕ)
    → (t : Table) → (buffer : List ℕ) → 4 * (256 + 64 * i) + total t.num ≤ 2048
    → is_inside t ≡ true
    → (b : List ℕ) × (set_table i t buffer ≡ some b)
unfolding set_table
set_table-fits i t buffer le inside =
    let test : leb (4 * (256 + 64 * i) + total t.num) 2048 ≡ true = ground arith in
    (filled i t buffer, rw (test, inside) refl)

set_table-overflow :
    (i : ℕ)
    → (t : Table) → (buffer : List ℕ) → 2048 < 4 * (256 + 64 * i) + total t.num
    → set_table i t buffer ≡ none
unfolding set_table
set_table-overflow i t buffer lt =
    let test : leb (4 * (256 + 64 * i) + total t.num) 2048 ≡ false = ground arith in rw test refl

-- The rounds after one decide, where they fail for every buffer.
later_overflow :
    (i : ℕ)
    → (o : Option Table) → (ts : List (Option Table))
    → ((b : List ℕ) → tables_loop (i + 1) ts b ≡ none)
    → (b : List ℕ) → tables_loop i (o ∷ ts) b ≡ none
unfolding tables_loop
later_overflow i none ts fails b = fails b
later_overflow i (some t) ts fails b = elim (Option-cases (set_table i t b)) [
  | inl e ↦ rw e refl
  | inr (now, e) ↦ rw e (fails now)
]

fourth_overflow :
    (t : Table) → 256 < total t.num → (b : List ℕ) → tables_loop 3 (some t ∷ []) b ≡ none
unfolding tables_loop
fourth_overflow t lt b = rw (set_table-overflow 3 t b (omega arith)) refl

tables_loop-fits :
    (i : ℕ)
    → (ts : List (Option Table)) → (buffer : List ℕ) → i + length ts ≤ 4
    → All IsSmall ts
    → (b : List ℕ) × (tables_loop i ts buffer ≡ some b)
unfolding tables_loop
tables_loop-fits i [] buffer le all = (buffer, refl)
tables_loop-fits i (none ∷ ts) buffer le (s, all) =
    tables_loop-fits (i + 1) ts buffer (omega arith) all
tables_loop-fits i (some t ∷ ts) buffer le ((small, inside), all) =
    let (now, e) = set_table-fits i t buffer (omega arith) inside in
    let (b, f) = tables_loop-fits (i + 1) ts now (omega arith) all in (b, rw (e, f) refl)

length-ram_writes : (n i : ℕ) → (buffer : List ℕ) → length (ram_writes n i buffer) ≡ n
unfolding ram_writes
length-ram_writes zero i buffer = refl
length-ram_writes (suc n) i buffer = ap suc (length-ram_writes n (i + 1) buffer)

-- Up to four tables inside the data of at most 256 codes each fit the buffer, and the decoder's memory is written in
-- 512 words.
pub set_huffman_tables-fits :
    (ts : List (Option Table))
    → length ts ≤ 4
    → All IsSmall ts
    → (ws : List Write) × (set_huffman_tables ts ≡ some ws) × (length ws ≡ 512)
unfolding set_huffman_tables
set_huffman_tables-fits ts le all =
    let (b, e) = tables_loop-fits 0 ts (replicate 2048 0) (omega arith) all in
    (ram_writes 512 0 b, rw e refl, length-ram_writes 512 0 b)

-- A fourth table whose counts sum to more than 256 is copied past the end of the buffer, whatever
-- the tables before it are.
pub set_huffman_tables-overflow :
    (t0 t1 t2 : Option Table)
    → (t : Table) → 256 < total t.num
    → set_huffman_tables (t0 ∷ t1 ∷ t2 ∷ some t ∷ []) ≡ none
unfolding set_huffman_tables
set_huffman_tables-overflow t0 t1 t2 t lt =
    let e =
      later_overflow 0 t0 (t1 ∷ t2 ∷ some t ∷ [])
        (later_overflow 1 t1 (t2 ∷ some t ∷ [])
          (later_overflow 2 t2 (some t ∷ []) (fourth_overflow t lt)))
        (replicate 2048 0) in
    rw e refl

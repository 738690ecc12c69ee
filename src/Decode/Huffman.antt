-- ===== src/Decode/Huffman.antt =====
-- `set_huffman_tables` of src/jpeg_dec_main.c. `buffer` is its 2048 bytes, `uint16_t` and `uint32_t`
-- lie little-endian in it.
pub mod Codes
pub mod Fits
use camview_opipc.Base.{
  ℕ, zero, suc, ◌+◌, ◌-◌, ◌*◌, ◌/◌, ◌%◌, ◌^◌, ◌≤◌, Bool, true, false, ◌&&◌, Option, none, some,
  List, [], ◌∷◌, ◌++◌, map, ◌==◌, if◌then◌else◌, ltb, leb, set, replicate, length, get_or_zero,
  ◌>>=◌,
}
use camview_opipc.Ve.Registers.{Mpeg, mpeg_reg}
use camview_opipc.Decode.{Write, writel, u8, u16, u32}

-- A `huffman_t`, with the bytes of `codes` and those of the data that follow it.
pub record Table : Type 0 where
  pub num : List ℕ
  pub codes : List ℕ

unfoldable pub write_bytes : ℕ → List ℕ → List ℕ → List ℕ
write_bytes at [] buffer = buffer
write_bytes at (b ∷ bs) buffer = write_bytes (at + 1) bs (set buffer at b)

unfoldable pub total : List ℕ → ℕ
total [] = 0
total (n ∷ ns) = n + total ns

-- The index of the first code of each length.
unfoldable pub first_indices : ℕ → List ℕ → List ℕ
first_indices sum [] = []
first_indices sum (n ∷ ns) = u8 sum ∷ first_indices (sum + n) ns

-- The last length with codes, 0 if there is none.
unfoldable pub last_from : ℕ → ℕ → List ℕ → ℕ
last_from last j [] = last
last_from last j (n ∷ ns) = last_from (if n == 0 then last else j) (j + 1) ns

-- The first code of each length: the sum of the codes so far, doubled for each further bit.
unfoldable pub starts : ℕ → List ℕ → List ℕ
starts sum [] = []
starts sum (n ∷ ns) = sum ∷ starts ((sum + n) * 2) ns

-- The values stored: the first codes up to the last length, and 0xffff behind it.
unfoldable pub stored_codes : ℕ → ℕ → List ℕ → List ℕ
stored_codes last j [] = []
stored_codes last j (c ∷ cs) = (if leb j last then u16 c else 0xffff) ∷ stored_codes last (j + 1) cs

unfoldable pub halves : List ℕ → List ℕ
halves [] = []
halves (c ∷ cs) = c % 256 ∷ c / 256 ∷ halves cs

abbrev pub take : ℕ → List ℕ → List ℕ
take zero xs = []
take (suc n) [] = []
take (suc n) (x ∷ xs) = x ∷ take n xs

-- What one round of the loop writes, given that the copy of the codes ends inside the buffer.
unfoldable pub filled : ℕ → Table → List ℕ → List ℕ
unfolding write_bytes total first_indices last_from starts stored_codes halves
filled i t buffer =
    let indexed = write_bytes (i * 64 + 32) (first_indices 0 t.num) buffer in
    let copied = write_bytes (4 * (256 + 64 * i)) (take (total t.num) t.codes) indexed in
    let last = last_from 0 0 t.num in
    write_bytes (2 * (i * 32)) (halves (stored_codes last 0 (starts 0 t.num))) copied

-- The 16 counts and the codes that are copied are inside the data.
unfoldable pub is_inside : Table → Bool
unfolding total
is_inside t = leb 16 (length t.num) && leb (total t.num) (length t.codes)

-- One round of the loop; a copy from behind the data or past the buffer is undefined.
unfoldable pub set_table : ℕ → Table → List ℕ → Option (List ℕ)
unfolding filled total is_inside
set_table i t buffer =
    if leb (4 * (256 + 64 * i) + total t.num) 2048 && is_inside t
    then some (filled i t buffer)
    else none

unfoldable pub tables_loop : ℕ → List (Option Table) → List ℕ → Option (List ℕ)
unfolding set_table
tables_loop i [] buffer = some buffer
tables_loop i (none ∷ ts) buffer = tables_loop (i + 1) ts buffer
tables_loop i (some t ∷ ts) buffer = do now ← set_table i t buffer; tables_loop (i + 1) ts now

-- The words of the buffer from `i` on.
unfoldable pub ram_writes : ℕ → ℕ → List ℕ → List Write
ram_writes zero i buffer = []
ram_writes (suc n) i buffer =
    let byte = λ (k : ℕ). get_or_zero buffer (4 * i + k) in
    writel (byte 0 + 2 ^ 8 * byte 1 + 2 ^ 16 * byte 2 + 2 ^ 24 * byte 3)
      (mpeg_reg Mpeg.ram_write_data)
    ∷ ram_writes n (i + 1) buffer

-- The tables are `jpeg->huffman[0]` to `[3]`.
unfoldable pub set_huffman_tables : List (Option Table) → Option (List Write)
unfolding tables_loop ram_writes
set_huffman_tables tables = do
  buffer ← tables_loop 0 tables (replicate 2048 0)
  some (ram_writes 512 0 buffer)

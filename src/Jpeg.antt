-- ===== src/Jpeg.antt =====
-- src/jpeg.c and src/jpeg.h: the parser of JPEG headers. The list is the memory from `data` on, of which
-- the first `len` bytes are the data; a read past the list is a fault, which the C code does not notice. A pointer into the bytes is an
-- offset, and a table that no segment has set is `none`. Shifts and masks are divisions and
-- remainders. `int` lengths that could be negative (`seg_len - 2`) only bound loops from above,
-- where 0 does the same.
pub mod Run
pub mod Bounds
pub mod Accept
pub mod Reads
pub mod Overread
pub mod Dump
mod Tests
use camview_opipc.Base.{
  ℕ, zero, suc, ◌+◌, ◌-◌, ◌*◌, ◌/◌, ◌%◌, Bool, true, false, ◌&&◌, ◌||◌, Option, none, some, List,
  [], ◌∷◌, length, get_elem?, set, replicate, ltb, ◌==◌, if◌then◌else◌,
}
use Run.{Outcome, done, reject, fault, no_fuel, ◌>>=◌}

pub record Comp : Type 0 where
  pub samp_h : ℕ
  pub samp_v : ℕ
  pub qt : ℕ
  pub ht_ac : ℕ
  pub ht_dc : ℕ

pub record Jpeg : Type 0 where
  pub bits : ℕ
  pub width : ℕ
  pub height : ℕ
  pub comp : List Comp
  pub quant : List (Option ℕ)
  pub huffman : List (Option ℕ)
  pub restart_interval : ℕ
  pub start : ℕ
  pub data_len : ℕ

abbrev pub no_comp : Comp
no_comp = record { samp_h = 0; samp_v = 0; qt = 0; ht_ac = 0; ht_dc = 0 }

-- `memset(&jpeg, 0, sizeof(jpeg))` of the caller
abbrev pub no_jpeg : Jpeg
no_jpeg = record {
  bits = 0;
  width = 0;
  height = 0;
  comp = replicate 3 no_comp;
  quant = replicate 4 none;
  huffman = replicate 8 none;
  restart_interval = 0;
  start = 0;
  data_len = 0;
}

abbrev pub byte : List ℕ → ℕ → Outcome ℕ
byte bytes i = elim (get_elem? bytes i) [ none ↦ fault | some b ↦ done b ]

-- `((uint16_t)data[i]) << 8 | (uint16_t)data[i + 1]`
pub word : List ℕ → ℕ → Outcome ℕ
word bytes i = do hi ← byte bytes i; lo ← byte bytes (i + 1); done (hi * 256 + lo)

-- The segment's payload starts at `base`, and `pos` counts from there.
pub dqt_step : List ℕ → ℕ → ℕ → Jpeg → Outcome Jpeg
dqt_step bytes base pos j = do
  b ← byte bytes (base + pos)
  if b / 16 == 0
      then done (record j { quant = set j.quant (b % 4) (some (base + pos + 1)) })
      else reject

pub dqt_loop : ℕ → List ℕ → ℕ → ℕ → ℕ → Jpeg → Outcome Jpeg
dqt_loop zero bytes base len pos j = no_fuel
dqt_loop (suc fuel) bytes base len pos j = elim (ltb pos len) [
  | true ↦ dqt_step bytes base pos j >>= λ j'. dqt_loop fuel bytes base len (pos + 65) j'
  | false ↦ done j
]

pub process_dqt : List ℕ → ℕ → ℕ → Jpeg → Outcome Jpeg
unfolding dqt_step dqt_loop
process_dqt bytes base len j = dqt_loop (suc len) bytes base len 0 j

-- The inner loop of `process_dht`: `n` counts are left, from `at` on.
pub add_counts : ℕ → List ℕ → ℕ → ℕ → Outcome ℕ
add_counts zero bytes at pos = done pos
add_counts (suc n) bytes at pos = byte bytes at >>= λ b. add_counts n bytes (at + 1) (pos + b)

-- One table: its place, and where the next one starts.
pub dht_step : List ℕ → ℕ → ℕ → Jpeg → Outcome (Jpeg × ℕ)
unfolding add_counts
dht_step bytes base pos j = do
  b ← byte bytes (base + pos)
  next ← add_counts 16 bytes (base + pos + 1) (pos + 17)
  let id = b % 4 * 2 + b / 16 % 2
  done (record j { huffman = set j.huffman id (some (base + pos + 1)) }, next)

pub dht_loop : ℕ → List ℕ → ℕ → ℕ → ℕ → Jpeg → Outcome Jpeg
dht_loop zero bytes base len pos j = no_fuel
dht_loop (suc fuel) bytes base len pos j = elim (ltb pos len) [
  | true ↦ dht_step bytes base pos j >>= λ r. dht_loop fuel bytes base len r.1 r.0
  | false ↦ done j
]

pub process_dht : List ℕ → ℕ → ℕ → Jpeg → Outcome Jpeg
unfolding dht_step dht_loop
process_dht bytes base len j = dht_loop (suc len) bytes base len 0 j

-- `data[i] - 1` as a `uint8_t`, which must be at most 2.
pub comp_id : List ℕ → ℕ → Outcome ℕ
comp_id bytes i = do
  b ← byte bytes i
  let id = (b + 255) % 256
  if ltb 2 id then reject else done id

abbrev pub get_comp : Jpeg → ℕ → Comp
get_comp j id = elim (get_elem? j.comp id) [ none ↦ no_comp | some c ↦ c ]

-- `n` components are left, the next at `at`.
pub sof_comps : ℕ → List ℕ → ℕ → Jpeg → Outcome Jpeg
sof_comps zero bytes at j = done j
sof_comps (suc n) bytes at j = do
  id ← comp_id bytes at
  samp ← byte bytes (at + 1)
  qt ← byte bytes (at + 2)
  let c = get_comp j id
  let c' = record c { samp_h = samp / 16; samp_v = samp % 16; qt = qt }
  sof_comps n bytes (at + 3) (record j { comp = set j.comp id c' })

pub process_sof0 : List ℕ → ℕ → Jpeg → Outcome Jpeg
unfolding word sof_comps comp_id
process_sof0 bytes pos j = do
  bits ← byte bytes (pos + 2)
  width ← word bytes (pos + 5)
  height ← word bytes (pos + 3)
  n ← byte bytes (pos + 7)
  sof_comps n bytes (pos + 8) (record j { bits = bits; width = width; height = height })

pub sos_comps : ℕ → List ℕ → ℕ → Jpeg → Outcome Jpeg
sos_comps zero bytes at j = done j
sos_comps (suc n) bytes at j = do
  id ← comp_id bytes at
  ht ← byte bytes (at + 1)
  let c = get_comp j id
  let c' = record c { ht_dc = ht / 16; ht_ac = ht % 16 }
  sos_comps n bytes (at + 2) (record j { comp = set j.comp id c' })

pub process_sos : List ℕ → ℕ → Jpeg → Outcome Jpeg
unfolding sos_comps comp_id
process_sos bytes pos j = do n ← byte bytes (pos + 2); sos_comps n bytes (pos + 3) j

pub process_dri : List ℕ → ℕ → Jpeg → Outcome Jpeg
unfolding word
process_dri bytes pos j = do
  interval ← word bytes (pos + 2)
  done (record j { restart_interval = interval })

-- M_DAC, the frames that are not baseline, M_SOI and M_EOI
abbrev pub is_refused : ℕ → Bool
is_refused m =
    (m == 0xcc)
    || (m == 0xc1)
    || (m == 0xc2)
    || (m == 0xc3)
    || (m == 0xc5)
    || (m == 0xc6)
    || (m == 0xc7)
    || (m == 0xc9)
    || (m == 0xca)
    || (m == 0xcb)
    || (m == 0xcd)
    || (m == 0xce)
    || (m == 0xcf)
    || (m == 0xd8)
    || (m == 0xd9)

-- The `switch` of `parse_jpeg`, at the segment whose length stands at `pos`; the flag is `sos`.
pub segment : List ℕ → ℕ → ℕ → ℕ → Jpeg → Outcome (Jpeg × Bool)
unfolding process_dqt process_dht process_sof0 process_dri process_sos
segment bytes marker pos seg_len j =
    if marker == 0xdb
    then (do j' ← process_dqt bytes (pos + 2) (seg_len - 2) j; done (j', false))
    else if marker == 0xc4
    then (do j' ← process_dht bytes (pos + 2) (seg_len - 2) j; done (j', false))
    else if marker == 0xc0
    then (do j' ← process_sof0 bytes pos j; done (j', false))
    else if marker == 0xdd
    then (do j' ← process_dri bytes pos j; done (j', false))
    else if marker == 0xda
    then (do j' ← process_sos bytes pos j; done (j', true))
    else if is_refused marker
    then reject
    else done (j, false)

-- `while (pos < len && data[pos] == 0xff) pos++;`
pub skip_ff : (fuel len : ℕ) → List ℕ → ℕ → Outcome ℕ
skip_ff zero len bytes pos = no_fuel
skip_ff (suc fuel) len bytes pos = elim (ltb pos len) [
  | false ↦ done pos
  | true ↦ byte bytes pos >>= λ b. elim (b == 0xff) [
    | true ↦ skip_ff fuel len bytes (pos + 1)
    | false ↦ done pos
  ]
]

-- The round of the outer loop from the marker, at `at`, to the end of the `switch`: what the
-- segment gives, and where it ends.
pub segment_at : (len : ℕ) → List ℕ → ℕ → Jpeg → Outcome ((Jpeg × Bool) × ℕ)
unfolding word segment
segment_at len bytes at j = do
  marker ← byte bytes at
  seg_len ← word bytes (at + 1)
  if ltb (at + 1 + seg_len) len
      then (do r ← segment bytes marker (at + 1) seg_len j; done (r, at + 1 + seg_len))
      else reject

-- One round of the outer loop.
pub next_segment : (len : ℕ) → List ℕ → ℕ → Jpeg → Outcome ((Jpeg × Bool) × ℕ)
unfolding skip_ff segment_at
next_segment len bytes pos j = do
  at ← skip_ff (suc len) len bytes pos
  if ltb (at + 2) len then segment_at len bytes at j else reject

pub parse_loop : (fuel len : ℕ) → List ℕ → ℕ → Jpeg → Outcome (Jpeg × ℕ)
parse_loop zero len bytes pos j = no_fuel
parse_loop (suc fuel) len bytes pos j = next_segment len bytes pos j >>= λ r. elim r.0.1 [
  | true ↦ done (r.0.0, r.1)
  | false ↦ parse_loop fuel len bytes r.1 r.0.0
]

-- Whether the data start with `ff d8`, and no more is read than it takes to tell.
pub has_soi : (len : ℕ) → List ℕ → Outcome Bool
has_soi len bytes =
    if ltb len 2
    then done false
    else byte bytes 0 >>= λ a.
        if a == 0xff then (do b ← byte bytes 1; done (b == 0xd8)) else done false

-- The function itself: `len` bytes of the memory from `data` on are the data.
unfoldable pub parse_jpeg_in : (len : ℕ) → List ℕ → Outcome Jpeg
unfolding has_soi next_segment parse_loop
parse_jpeg_in len bytes = has_soi len bytes >>= λ soi.
    if soi
    then (do
      r ← parse_loop len len bytes 2 no_jpeg
      done (record r.0 { start = r.1; data_len = len - r.1 }))
    else reject

-- The memory ends with the data.
unfoldable pub parse_jpeg : List ℕ → Outcome Jpeg
unfolding parse_jpeg_in
parse_jpeg bytes = parse_jpeg_in (length bytes) bytes

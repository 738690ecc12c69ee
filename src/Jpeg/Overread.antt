-- ===== src/Jpeg/Overread.antt =====
-- How far past the end of the data `parse_jpeg` of src/jpeg.c reads.
use camview_opipc.Base.{
  ℕ, zero, suc, ◌+◌, ◌-◌, ◌*◌, ◌/◌, ◌%◌, ◌≤◌, ◌<◌, ◌≡◌, ◌≢◌, ◌⊎◌, refl, inl, inr, Bool, true, false,
  List, arith, length, ltb, ◌==◌, Bool-cases, All, if_both,
}
use camview_opipc.Jpeg.Run.{Outcome, done, reject, fault, no_fuel, ◌>>=◌}
use camview_opipc.Jpeg.{
  Jpeg, no_jpeg, byte, word, has_soi, is_refused, dqt_step, dqt_loop, process_dqt, add_counts,
  dht_step, dht_loop, process_dht, comp_id, sof_comps, sos_comps, process_sof0, process_sos,
  process_dri, segment, segment_at, skip_ff, next_segment, parse_loop, parse_jpeg_in,
}
use camview_opipc.Jpeg.Accept.{parse_jpeg_in_ends}
use camview_opipc.Jpeg.Bounds.{IsByte, All-get_elem?}
use camview_opipc.Jpeg.Reads.{get_elem?-inside}

-- The run has no fault, and what it returns satisfies `P`.
pub data Safe {A : Type 0} (P : A → Type 0) : Outcome A → Type 0 where
  returns : {a : A} → P a → Safe P (done a)
  rejects : Safe P reject
  runs_out : Safe P no_fuel

pub Safe-bind :
    {A B : Type 0} {P : A → Type 0} {Q : B → Type 0} {r : Outcome A} {k : A → Outcome B}
    → Safe P r
    → ((a : A) → P a → Safe Q (k a))
    → Safe Q (r >>= k)
Safe-bind (returns p) next = next _ p
Safe-bind rejects next = rejects
Safe-bind runs_out next = runs_out

pub Safe-ne-fault : {A : Type 0} {P : A → Type 0} {r : Outcome A} → Safe P r → r ≢ fault
Safe-ne-fault (returns p) e = cc
Safe-ne-fault rejects e = cc
Safe-ne-fault runs_out e = cc

abbrev pub Any : {A : Type 0} → A → Type 0
Any a = Unit

-- The memory is `bytes`.
module _ (bytes : List ℕ) (are_bytes : All IsByte bytes) where
  pub byte-Safe : (i : ℕ) → i < length bytes → Safe IsByte (byte bytes i)
  byte-Safe i h =
      let (b, e) = get_elem?-inside bytes i h in
      rw (e, byte) (returns (All-get_elem? (length bytes) bytes are_bytes bytes i b are_bytes e).1)

  word-Safe : (i : ℕ) → i + 1 < length bytes → Safe Any (word bytes i)
  unfolding word
  word-Safe i h =
      Safe-bind (byte-Safe i (omega arith))
        λ hi _. Safe-bind (byte-Safe (i + 1) h) λ lo _. returns tt

  dqt_step-Safe :
      (base pos : ℕ) (j : Jpeg) → base + pos < length bytes → Safe Any (dqt_step bytes base pos j)
  unfolding dqt_step
  dqt_step-Safe base pos j h = Safe-bind (byte-Safe (base + pos) h) λ b _.
      elim (Bool-cases (b / 16 == 0)) [
        | inl eight_bit ↦ rw eight_bit (returns tt)
        | inr sixteen ↦ rw sixteen rejects
      ]

  dqt_loop-Safe :
      (fuel base len pos : ℕ) (j : Jpeg)
      → base + len ≤ length bytes
      → Safe Any (dqt_loop fuel bytes base len pos j)
  unfolding dqt_loop
  dqt_loop-Safe zero base len pos j h = runs_out
  dqt_loop-Safe (suc fuel) base len pos j h = elim (Bool-cases (ltb pos len)) [
    | inl more ↦
        rw (more, dqt_loop)
          (Safe-bind (dqt_step-Safe base pos j (ground arith))
            λ j' _. dqt_loop-Safe fuel base len (pos + 65) j' h)
    | inr all ↦ rw (all, dqt_loop) (returns tt)
  ]

  add_counts-Safe : (n at pos : ℕ) → at + n ≤ length bytes → Safe Any (add_counts n bytes at pos)
  unfolding add_counts
  add_counts-Safe zero at pos h = returns tt
  add_counts-Safe (suc n) at pos h =
      Safe-bind (byte-Safe at (omega arith))
        λ b _. add_counts-Safe n (at + 1) (pos + b) (omega arith)

  dht_step-Safe :
      (base pos : ℕ) (j : Jpeg)
      → base + pos + 17 ≤ length bytes
      → Safe Any (dht_step bytes base pos j)
  unfolding dht_step
  dht_step-Safe base pos j h = Safe-bind (byte-Safe (base + pos) (omega arith)) λ b _.
      Safe-bind (add_counts-Safe 16 (base + pos + 1) (pos + 17) (omega arith)) λ next _. returns tt

  dht_loop-Safe :
      (fuel base len pos : ℕ) (j : Jpeg)
      → base + len + 16 ≤ length bytes
      → Safe Any (dht_loop fuel bytes base len pos j)
  unfolding dht_loop
  dht_loop-Safe zero base len pos j h = runs_out
  dht_loop-Safe (suc fuel) base len pos j h = elim (Bool-cases (ltb pos len)) [
    | inl more ↦
        rw (more, dht_loop)
          (Safe-bind (dht_step-Safe base pos j (ground arith))
            λ r _. dht_loop-Safe fuel base len r.1 r.0 h)
    | inr all ↦ rw (all, dht_loop) (returns tt)
  ]

  comp_id-Safe : (i : ℕ) → i < length bytes → Safe Any (comp_id bytes i)
  unfolding comp_id
  comp_id-Safe i h = Safe-bind (byte-Safe i h) λ b _. elim (Bool-cases (ltb 2 ((b + 255) % 256))) [
    | inl high ↦ rw high rejects
    | inr low ↦ rw low (returns tt)
  ]

  sof_comps-Safe :
      (n at : ℕ) (j : Jpeg) → at + 3 * n ≤ length bytes → Safe Any (sof_comps n bytes at j)
  unfolding sof_comps
  sof_comps-Safe zero at j h = returns tt
  sof_comps-Safe (suc n) at j h = Safe-bind (comp_id-Safe at (omega arith)) λ id _.
      Safe-bind (byte-Safe (at + 1) (omega arith)) λ samp _.
        Safe-bind (byte-Safe (at + 2) (omega arith))
          λ qt _. sof_comps-Safe n (at + 3) _ (omega arith)

  sos_comps-Safe :
      (n at : ℕ) (j : Jpeg) → at + 2 * n ≤ length bytes → Safe Any (sos_comps n bytes at j)
  unfolding sos_comps
  sos_comps-Safe zero at j h = returns tt
  sos_comps-Safe (suc n) at j h = Safe-bind (comp_id-Safe at (omega arith)) λ id _.
      Safe-bind (byte-Safe (at + 1) (omega arith)) λ ht _. sos_comps-Safe n (at + 2) _ (omega arith)

  -- The data are the first `len` bytes, and 771 bytes follow.
  module _ (len : ℕ) (room : len + 771 ≤ length bytes) where
    process_sof0-Safe : (pos : ℕ) (j : Jpeg) → pos + 1 < len → Safe Any (process_sof0 bytes pos j)
    unfolding process_sof0
    process_sof0-Safe pos j lt = Safe-bind (byte-Safe (pos + 2) (omega arith)) λ bits _.
        Safe-bind (word-Safe (pos + 5) (omega arith)) λ width _.
          Safe-bind (word-Safe (pos + 3) (omega arith)) λ height _.
            Safe-bind (byte-Safe (pos + 7) (omega arith))
              λ n small. sof_comps-Safe n (pos + 8) _ (omega arith)

    process_sos-Safe : (pos : ℕ) (j : Jpeg) → pos + 1 < len → Safe Any (process_sos bytes pos j)
    unfolding process_sos
    process_sos-Safe pos j lt =
        Safe-bind (byte-Safe (pos + 2) (omega arith))
          λ n small. sos_comps-Safe n (pos + 3) j (omega arith)

    process_dri-Safe : (pos : ℕ) (j : Jpeg) → pos + 1 < len → Safe Any (process_dri bytes pos j)
    unfolding process_dri
    process_dri-Safe pos j lt =
        Safe-bind (word-Safe (pos + 2) (omega arith)) λ interval _. returns tt

    with_flag :
        {r : Outcome Jpeg} (b : Bool)
        → Safe Any r
        → Safe {A = Jpeg × Bool} Any (r >>= λ j. done (j, b))
    with_flag b h = Safe-bind h λ j _. returns tt

    segment-Safe :
        (marker pos seg_len : ℕ) (j : Jpeg)
        → pos + 1 < len
        → pos + seg_len < len
        → Safe Any (segment bytes marker pos seg_len j)
    unfolding segment process_dqt process_dht
    segment-Safe marker pos seg_len j two lt =
        if_both (Safe Any) (marker == 0xdb) _ _
          (with_flag false
            (dqt_loop-Safe (suc (seg_len - 2)) (pos + 2) (seg_len - 2) 0 j (omega arith)))
          (if_both (Safe Any) (marker == 0xc4) _ _
            (with_flag false
              (dht_loop-Safe (suc (seg_len - 2)) (pos + 2) (seg_len - 2) 0 j (omega arith)))
            (if_both (Safe Any) (marker == 0xc0) _ _
              (with_flag false (process_sof0-Safe pos j (omega arith)))
              (if_both (Safe Any) (marker == 0xdd) _ _
                (with_flag false (process_dri-Safe pos j (omega arith)))
                (if_both (Safe Any) (marker == 0xda) _ _
                  (with_flag true (process_sos-Safe pos j (omega arith)))
                  (if_both (Safe Any) (is_refused marker) _ _ rejects (returns tt))))))

    segment_at-Safe : (at : ℕ) (j : Jpeg) → at + 2 < len → Safe Any (segment_at len bytes at j)
    unfolding segment_at
    segment_at-Safe at j lt = Safe-bind (byte-Safe at (omega arith)) λ marker _.
        Safe-bind (word-Safe (at + 1) (omega arith)) λ seg_len _.
          elim (Bool-cases (ltb (at + 1 + seg_len) len)) [
            | inl fits ↦ rw fits (
                Safe-bind (segment-Safe marker (at + 1) seg_len j (omega arith) (ground arith))
                  λ r _. returns tt)
            | inr cut ↦ rw cut rejects
          ]

    skip_ff-Safe : (fuel pos : ℕ) → Safe Any (skip_ff fuel len bytes pos)
    unfolding skip_ff
    skip_ff-Safe zero pos = runs_out
    skip_ff-Safe (suc fuel) pos = elim (Bool-cases (ltb pos len)) [
      | inr all ↦ rw (all, skip_ff) (returns tt)
      | inl more ↦
          rw (more, skip_ff)
            (Safe-bind (byte-Safe pos (ground arith)) λ b _. elim (Bool-cases (b == 0xff)) [
              | inr other ↦ rw other (returns tt)
              | inl fill ↦ rw fill (skip_ff-Safe fuel (pos + 1))
            ])
    ]

    next_segment-Safe : (pos : ℕ) (j : Jpeg) → Safe Any (next_segment len bytes pos j)
    unfolding next_segment
    next_segment-Safe pos j = Safe-bind (skip_ff-Safe (suc len) pos) λ at _.
        elim (Bool-cases (ltb (at + 2) len)) [
          | inl more ↦ rw more (segment_at-Safe at j (ground arith))
          | inr short ↦ rw short rejects
        ]

    has_soi-Safe : Safe Any (has_soi len bytes)
    unfolding has_soi
    has_soi-Safe = if_both (Safe Any) (ltb len 2) _ _ (returns tt) (
        Safe-bind (byte-Safe 0 (omega arith)) λ a _.
          if_both (Safe Any) (a == 0xff) _ _
            (Safe-bind (byte-Safe 1 (omega arith)) λ b _. returns tt) (returns tt))

    parse_loop-Safe : (fuel pos : ℕ) (j : Jpeg) → Safe Any (parse_loop fuel len bytes pos j)
    unfolding parse_loop
    parse_loop-Safe zero pos j = runs_out
    parse_loop-Safe (suc fuel) pos j = Safe-bind (next_segment-Safe pos j) λ r _.
        elim (Bool-cases r.0.1) [
          | inl sos ↦ rw sos (returns tt)
          | inr more ↦ rw more (parse_loop-Safe fuel r.1 r.0.0)
        ]

    parse_jpeg_in-Safe : Safe Any (parse_jpeg_in len bytes)
    unfolding parse_jpeg_in
    parse_jpeg_in-Safe = Safe-bind has_soi-Safe λ soi _.
        if_both (Safe Any) soi _ _ (Safe-bind (parse_loop-Safe len 2 no_jpeg) λ r _. returns tt)
          rejects

    -- On any data, the parser reads at most 771 bytes past their end: where the memory goes on for that
    -- long, no read is outside of it.
    pub parse_jpeg_in-ne-fault : parse_jpeg_in len bytes ≢ fault
    parse_jpeg_in-ne-fault = Safe-ne-fault parse_jpeg_in-Safe

    decided :
        (r : Outcome Jpeg) → r ≢ fault → r ≢ no_fuel → (r ≡ reject) ⊎ ((j : Jpeg) × (r ≡ done j))
    decided (done j) f n = inr (j, refl)
    decided reject f n = inl refl
    decided fault f n = absurd (f refl)
    decided no_fuel f n = absurd (n refl)

    -- On any data behind which the memory goes on for 771 bytes, the parser returns: all its loops end,
    -- and it refuses the data or accepts them with a header.
    pub parse_jpeg_in_returns :
        (parse_jpeg_in len bytes ≡ reject) ⊎ ((j : Jpeg) × (parse_jpeg_in len bytes ≡ done j))
    parse_jpeg_in_returns =
        decided (parse_jpeg_in len bytes) parse_jpeg_in-ne-fault
          (parse_jpeg_in_ends len bytes are_bytes)

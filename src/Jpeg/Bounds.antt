-- ===== src/Jpeg/Bounds.antt =====
-- The payload of each segment: its loops end, and what it sets points into the data.
use camview_opipc.Base.{
  ℕ, zero, suc, ◌+◌, ◌*◌, ◌%◌, ◌/◌, ◌≤◌, ◌<◌, ◌≡◌, ◌∙◌, Option, none, some, List, [], ◌∷◌, arith,
  length, get_elem?, set, length-set, ltb, ◌==◌, Bool-cases, Option-cases, All, inl, inr,
}
use camview_opipc.Jpeg.Run.{Returns, returns, rejects, faults, Returns-bind, mono}
use camview_opipc.Jpeg.{
  Jpeg, Comp, byte, word, dqt_step, dqt_loop, process_dqt, add_counts, dht_step, dht_loop,
  process_dht, comp_id, sof_comps, sos_comps,
}

abbrev pub IsByte : ℕ → Type 0
IsByte b = b < 256

-- A table that is set starts inside the data.
abbrev pub IsInside : ℕ → Option ℕ → Type 0
IsInside len none = Unit
IsInside len (some p) = p < len

-- Three components, tables that start inside the data, and sizes of 16 bits.
pub record IsInBounds (len : ℕ) (j : Jpeg) : Type 0 where
  pub comps : length j.comp ≡ 3
  pub quants : All (IsInside len) j.quant
  pub huffmans : All (IsInside len) j.huffman
  pub sizes : (j.width < 65536) × (j.height < 65536) × (j.restart_interval < 65536)

All-set {ℓ κ} :
    {A : Type ℓ} (P : A → Type κ) (xs : List A) (i : ℕ) (v : A)
    → All P xs
    → P v
    → All P (set xs i v)
All-set P [] i v h p = h
All-set P (x ∷ xs) zero v h p = (p, h.1)
All-set P (x ∷ xs) (suc i) v h p = (h.0, All-set P xs i v h.1 p)

-- The data are the first `limit` bytes of the memory.
module _ (limit : ℕ) (bytes : List ℕ) (are_bytes : All IsByte bytes) where
  pub All-get_elem? :
      (xs : List ℕ) (i b : ℕ) → All IsByte xs → get_elem? xs i ≡ some b → (i < length xs) × IsByte b
  All-get_elem? [] i b h e = absurd (ground arith)
  All-get_elem? (x ∷ xs) zero b h e = ground arith
  All-get_elem? (x ∷ xs) (suc i) b h e =
      let (lt, is) = All-get_elem? xs i b h.1 e in (omega arith, is)

  pub byte-Returns : (i : ℕ) → Returns (λ b. (i < length bytes) × IsByte b) (byte bytes i)
  byte-Returns i = elim (Option-cases (get_elem? bytes i)) [
    | inl e ↦ rw (e, byte) faults
    | inr (b, e) ↦ rw (e, byte) (returns (All-get_elem? bytes i b are_bytes e))
  ]

  pub word-Returns : (i : ℕ) → Returns (λ w. (i + 1 < length bytes) × (w < 65536)) (word bytes i)
  unfolding word
  word-Returns i =
      Returns-bind (byte-Returns i)
        λ hi h. Returns-bind (byte-Returns (i + 1)) λ lo l. returns (l.0, omega arith)

  dqt_step-Returns :
      (base pos : ℕ) (j : Jpeg)
      → base + pos + 1 < limit
      → IsInBounds limit j
      → Returns (IsInBounds limit) (dqt_step bytes base pos j)
  unfolding dqt_step
  dqt_step-Returns base pos j lt v = Returns-bind (byte-Returns (base + pos)) λ b h.
      elim (Bool-cases (b / 16 == 0)) [
        | inl eight_bit ↦ rw eight_bit (
            returns (record {
              comps = v.comps;
              quants =
                  All-set (IsInside limit) j.quant (b % 4) (some (base + pos + 1)) v.quants
                    (omega arith);
              huffmans = v.huffmans;
              sizes = v.sizes;
            }))
        | inr sixteen ↦ rw sixteen rejects
      ]

  dqt_loop-Returns :
      (fuel base len pos : ℕ) (j : Jpeg)
      → 0 < fuel
      → len < fuel + pos
      → (pos < len → base + len < limit)
      → IsInBounds limit j
      → Returns (IsInBounds limit) (dqt_loop fuel bytes base len pos j)
  unfolding dqt_loop
  dqt_loop-Returns zero base len pos j g f inside v = absurd (omega arith)
  dqt_loop-Returns (suc fuel) base len pos j g f inside v = elim (Bool-cases (ltb pos len)) [
    | inl more ↦
        rw (more, dqt_loop)
          (Returns-bind (dqt_step-Returns base pos j (ground arith) v) λ j' v'.
            dqt_loop-Returns fuel base len (pos + 65) j' (ground arith) (omega arith)
              (λ h. ground arith) v')
    | inr all ↦ rw (all, dqt_loop) (returns v)
  ]

  pub process_dqt-Returns :
      (base len : ℕ) (j : Jpeg)
      → (0 < len → base + len < limit)
      → IsInBounds limit j
      → Returns (IsInBounds limit) (process_dqt bytes base len j)
  unfolding process_dqt
  process_dqt-Returns base len j =
      dqt_loop-Returns (suc len) base len 0 j (omega arith) (omega arith)

  add_counts-Returns :
      (n at pos : ℕ) → Returns (λ next. pos ≤ next) (add_counts (suc n) bytes at pos)
  unfolding add_counts
  add_counts-Returns zero at pos = Returns-bind (byte-Returns at) λ b h. returns (omega arith)
  add_counts-Returns (suc n) at pos =
      Returns-bind (byte-Returns at)
        λ b h. mono (add_counts-Returns n (at + 1) (pos + b)) λ next l. omega arith

  dht_step-Returns :
      (base pos : ℕ) (j : Jpeg)
      → base + pos + 1 < limit
      → IsInBounds limit j
      → Returns (λ r. IsInBounds limit r.0 × (pos < r.1)) (dht_step bytes base pos j)
  unfolding dht_step
  dht_step-Returns base pos j lt v = Returns-bind (byte-Returns (base + pos)) λ b h.
      Returns-bind (add_counts-Returns 15 (base + pos + 1) (pos + 17)) λ next l. returns (
        record {
          comps = v.comps;
          quants = v.quants;
          huffmans =
              All-set (IsInside limit) j.huffman (b % 4 * 2 + b / 16 % 2) (some (base + pos + 1))
                v.huffmans lt;
          sizes = v.sizes;
        },
        omega arith,
      )

  dht_loop-Returns :
      (fuel base len pos : ℕ) (j : Jpeg)
      → 0 < fuel
      → len < fuel + pos
      → (pos < len → base + len < limit)
      → IsInBounds limit j
      → Returns (IsInBounds limit) (dht_loop fuel bytes base len pos j)
  unfolding dht_loop
  dht_loop-Returns zero base len pos j g f inside v = absurd (omega arith)
  dht_loop-Returns (suc fuel) base len pos j g f inside v = elim (Bool-cases (ltb pos len)) [
    | inl more ↦
        rw (more, dht_loop)
          (Returns-bind (dht_step-Returns base pos j (ground arith) v) λ r h.
            dht_loop-Returns fuel base len r.1 r.0 (ground arith) (omega arith)
              (λ k. inside (ground arith)) h.0)
    | inr all ↦ rw (all, dht_loop) (returns v)
  ]

  pub process_dht-Returns :
      (base len : ℕ) (j : Jpeg)
      → (0 < len → base + len < limit)
      → IsInBounds limit j
      → Returns (IsInBounds limit) (process_dht bytes base len j)
  unfolding process_dht
  process_dht-Returns base len j =
      dht_loop-Returns (suc len) base len 0 j (omega arith) (omega arith)

  comp_id-Returns : (i : ℕ) → Returns (λ id. id < 3) (comp_id bytes i)
  unfolding comp_id
  comp_id-Returns i = Returns-bind (byte-Returns i) λ b h.
      elim (Bool-cases (ltb 2 ((b + 255) % 256))) [
        | inl high ↦ rw high rejects
        | inr low ↦ rw low (returns (ground arith))
      ]

  set-comp :
      (j : Jpeg) (id : ℕ) (c : Comp)
      → IsInBounds limit j
      → IsInBounds limit (record j { comp = set j.comp id c })
  set-comp j id c v = record {
    comps = length-set j.comp id c ∙ v.comps;
    quants = v.quants;
    huffmans = v.huffmans;
    sizes = v.sizes;
  }

  pub sof_comps-Returns :
      (n at : ℕ) (j : Jpeg)
      → IsInBounds limit j
      → Returns (IsInBounds limit) (sof_comps n bytes at j)
  unfolding sof_comps
  sof_comps-Returns zero at j v = returns v
  sof_comps-Returns (suc n) at j v = Returns-bind (comp_id-Returns at) λ id _.
      Returns-bind (byte-Returns (at + 1)) λ samp _.
        Returns-bind (byte-Returns (at + 2))
          λ qt _. sof_comps-Returns n (at + 3) _ (set-comp j id _ v)

  pub sos_comps-Returns :
      (n at : ℕ) (j : Jpeg)
      → IsInBounds limit j
      → Returns (IsInBounds limit) (sos_comps n bytes at j)
  unfolding sos_comps
  sos_comps-Returns zero at j v = returns v
  sos_comps-Returns (suc n) at j v = Returns-bind (comp_id-Returns at) λ id _.
      Returns-bind (byte-Returns (at + 1))
        λ ht _. sos_comps-Returns n (at + 2) _ (set-comp j id _ v)

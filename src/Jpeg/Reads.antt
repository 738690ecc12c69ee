-- ===== src/Jpeg/Reads.antt =====
-- Which segments are read past the end of the data.
use camview_opipc.Base.{
  ℕ, zero, suc, ◌+◌, ◌/◌, ◌≤◌, ◌<◌, ◌≡◌, ◌≢◌, refl, inl, inr, true, none, some, List, [], ◌∷◌,
  arith, length, get_elem?, ltb, ◌==◌, Bool-cases, Option-cases,
}
use camview_opipc.Jpeg.Run.{Outcome, done, reject, fault, ◌>>=◌}
use camview_opipc.Jpeg.{
  Jpeg, byte, dqt_step, dqt_loop, process_dqt, add_counts, dht_step, dht_loop, process_dht,
}

pub get_elem?-inside :
    {A : Type 0} (xs : List A) (i : ℕ) → i < length xs → (a : A) × (get_elem? xs i ≡ some a)
get_elem?-inside [] i h = absurd (omega arith)
get_elem?-inside (x ∷ xs) zero h = (x, refl)
get_elem?-inside (x ∷ xs) (suc i) h = get_elem?-inside xs i (omega arith)

get_elem?-outside : {A : Type 0} (xs : List A) (i : ℕ) → length xs ≤ i → get_elem? xs i ≡ none
get_elem?-outside [] i h = refl
get_elem?-outside (x ∷ xs) zero h = absurd (omega arith)
get_elem?-outside (x ∷ xs) (suc i) h = get_elem?-outside xs i (omega arith)

-- One table is accepted or refused.
data Decides : Outcome Jpeg → Type 0 where
  accepts : (j : Jpeg) → Decides (done j)
  refuses : Decides reject

dqt_step-Decides :
    (bytes : List ℕ) (base pos : ℕ) (j : Jpeg)
    → base + pos < length bytes
    → Decides (dqt_step bytes base pos j)
unfolding dqt_step
dqt_step-Decides bytes base pos j h =
    let (b, e) = get_elem?-inside bytes (base + pos) h in
    rw (e, byte)
      (elim (Bool-cases (b / 16 == 0)) [
        | inl same ↦ rw same (accepts _)
        | inr other ↦ rw other refuses
      ])

dqt_loop-ne-fault :
    (fuel : ℕ) (bytes : List ℕ) (base len pos : ℕ) (j : Jpeg)
    → base + len ≤ length bytes
    → dqt_loop fuel bytes base len pos j ≢ fault
unfolding dqt_loop
dqt_loop-ne-fault zero bytes base len pos j h = λ e. cc
dqt_loop-ne-fault (suc fuel) bytes base len pos j h = elim (Bool-cases (ltb pos len)) [
  | inr all ↦ rw (all, dqt_loop) (λ e. cc)
  | inl more ↦
      rw (more, dqt_loop)
        (after (dqt_step bytes base pos j) (dqt_step-Decides bytes base pos j (ground arith))
          (λ j'. dqt_loop-ne-fault fuel bytes base len (pos + 65) j' h))
]
  where
    after :
        (r : Outcome Jpeg)
        → Decides r
        → ((j' : Jpeg) → dqt_loop fuel bytes base len (pos + 65) j' ≢ fault)
        → (r >>= λ j'. dqt_loop fuel bytes base len (pos + 65) j') ≢ fault
    after r (accepts j') later = later j'
    after r refuses later = λ e. cc

-- The quantisation tables of a segment inside the data are read without a fault.
pub process_dqt-ne-fault :
    (bytes : List ℕ) (base len : ℕ) (j : Jpeg)
    → base + len ≤ length bytes
    → process_dqt bytes base len j ≢ fault
unfolding process_dqt
process_dqt-ne-fault bytes base len j = dqt_loop-ne-fault (suc len) bytes base len 0 j

add_counts-fault :
    (n : ℕ) (bytes : List ℕ) (at pos : ℕ)
    → length bytes ≤ at + n
    → add_counts (suc n) bytes at pos ≡ fault
unfolding add_counts
add_counts-fault zero bytes at pos h = rw (get_elem?-outside bytes at (omega arith), byte) refl
add_counts-fault (suc n) bytes at pos h = elim (Option-cases (get_elem? bytes at)) [
  | inl e ↦ rw (e, byte) refl
  | inr (b, e) ↦ rw (e, byte) (add_counts-fault n bytes (at + 1) (pos + b) (omega arith))
]

dht_step-fault :
    (bytes : List ℕ) (base pos : ℕ) (j : Jpeg)
    → length bytes < base + pos + 17
    → dht_step bytes base pos j ≡ fault
unfolding dht_step
dht_step-fault bytes base pos j h = elim (Option-cases (get_elem? bytes (base + pos))) [
  | inl e ↦ rw (e, byte) refl
  | inr (b, e) ↦
      rw (e, byte, add_counts-fault 15 bytes (base + pos + 1) (pos + 17) (omega arith)) refl
]

-- A Huffman segment with any payload at all, whose first 17 bytes are not all there, is read past
-- the end of the data: `process_dht` looks only at whether a table starts before its end.
pub process_dht-fault :
    (bytes : List ℕ) (base len : ℕ) (j : Jpeg)
    → 0 < len
    → length bytes < base + 17
    → process_dht bytes base len j ≡ fault
unfolding process_dht
process_dht-fault bytes base len j some_payload short =
    let more : ltb 0 len ≡ true = ground arith in
    rw (more, dht_loop, dht_step-fault bytes base 0 j (omega arith)) refl

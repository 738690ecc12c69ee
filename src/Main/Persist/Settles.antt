-- ===== src/Main/Persist/Settles.antt =====
-- Without messages the loop becomes still, if the controls file can be written.
use camview_opipc.Base.{
  ℕ, zero, suc, ◌+◌, ◌≤◌, ◌≡◌, refl, ap, ◌∙◌, inl, inr, Bool, true, false, ◌||◌, Option, some,
  if◌then◌else◌, ltb, arith, Bool-cases,
}
use camview_opipc.Main.{counted}
use camview_opipc.Main.Persist.{World, loaded, after_poll, round, quiet_rounds}

or_false : (b : Bool) → (b || false) ≡ b
or_false true = refl
or_false false = refl

-- Where all is in the end, with the settings `s`: the file has them if there was a change.
abbrev pub settled :
    {S File : Type 0} → (S → File) → S → (changed : Bool) → World S File → World S File
settled save s changed w =
    if w.has_changes || changed
    then record { settings = s; file = save s; event = false; has_changes = false; loop_count = 0 }
    else record {
      settings = s;
      file = w.file;
      event = false;
      has_changes = false;
      loop_count = w.loop_count;
    }

module _ {S File : Type 0} (save : S → File) (load : File → S → Option (S × Bool)) (s : S)
    (same : load (save s) s ≡ some (s, false)) where
  -- Nothing is pending.
  abbrev still : File → ℕ → World S File
  still file n = record {
    settings = s;
    file = file;
    event = false;
    has_changes = false;
    loop_count = n;
  }

  -- The file has just been written.
  abbrev saved : World S File
  saved = record { settings = s; file = save s; event = true; has_changes = false; loop_count = 0 }

  -- A change is still to be written.
  abbrev unsaved : File → ℕ → World S File
  unsaved file n = record {
    settings = s;
    file = file;
    event = false;
    has_changes = true;
    loop_count = n;
  }

  still-stays :
      (n : ℕ) (file : File) (k : ℕ)
      → quiet_rounds save load true n (still file k) ≡ some (still file k)
  unfolding quiet_rounds
  still-stays zero file k = refl
  still-stays (suc n) file k = still-stays n file k

  saved-still : (n : ℕ) → quiet_rounds save load true (suc n) saved ≡ some (still (save s) 0)
  unfolding quiet_rounds
  saved-still n = rw same (still-stays n (save s) 0)

  after-full :
      (changed : Bool) (w : World S File)
      → w.has_changes || changed ≡ true
      → ltb 20 (w.loop_count + 1) ≡ true
      → after_poll save load true s changed w ≡ saved
  unfolding after_poll counted
  after-full changed w c e = rw (c, counted, e) refl

  after-short :
      (changed : Bool) (w : World S File)
      → w.has_changes || changed ≡ true
      → ltb 20 (w.loop_count + 1) ≡ false
      → after_poll save load true s changed w ≡ unsaved w.file (w.loop_count + 1)
  unfolding after_poll counted
  after-short changed w c e = rw (c, counted, e) refl

  after-unchanged :
      (changed : Bool) (w : World S File)
      → w.has_changes || changed ≡ false
      → after_poll save load true s changed w ≡ still w.file w.loop_count
  unfolding after_poll counted
  after-unchanged changed w c = rw (c, counted) refl

  unsaved-still :
      (t : ℕ) (file : File) (k : ℕ)
      → k ≤ 20
      → 22 ≤ k + t
      → quiet_rounds save load true t (unsaved file k) ≡ some (still (save s) 0)
  unfolding quiet_rounds
  unsaved-still zero file k small enough = absurd (omega arith)
  unsaved-still (suc zero) file k small enough = absurd (omega arith)
  unsaved-still (suc (suc t)) file k small enough = elim (Bool-cases (ltb 20 (k + 1))) [
    | inl full ↦
        ap (quiet_rounds save load true (suc t)) (after-full false (unsaved file k) refl full)
        ∙ saved-still t
    | inr short ↦
        ap (quiet_rounds save load true (suc t)) (after-short false (unsaved file k) refl short)
        ∙ unsaved-still (suc t) file (k + 1) (ground arith) (omega arith)
  ]

  after-settled :
      (t : ℕ) (changed : Bool) (w : World S File)
      → w.loop_count ≤ 20
      → 22 ≤ t
      → quiet_rounds save load true t (after_poll save load true s changed w)
        ≡ some (settled save s changed w)
  after-settled zero changed w small enough = absurd (omega arith)
  after-settled (suc t) changed w small enough = elim (Bool-cases (w.has_changes || changed)) [
    | inr none_left ↦
        ap (quiet_rounds save load true (suc t)) (after-unchanged changed w none_left)
        ∙ still-stays (suc t) w.file w.loop_count
        ∙ rw none_left refl
    | inl left ↦ elim (Bool-cases (ltb 20 (w.loop_count + 1))) [
      | inl full ↦
          ap (quiet_rounds save load true (suc t)) (after-full changed w left full)
          ∙ saved-still t
          ∙ rw left refl
      | inr short ↦
          ap (quiet_rounds save load true (suc t)) (after-short changed w left short)
          ∙ unsaved-still (suc t) w.file (w.loop_count + 1) (ground arith) (omega arith)
          ∙ rw left refl
    ]
  ]

  pub quiet_rounds-settled :
      (n : ℕ) (changed : Bool) (w : World S File)
      → loaded save load w ≡ some (s, changed)
      → w.loop_count ≤ 20
      → 23 ≤ n
      → quiet_rounds save load true n w ≡ some (settled save s changed w)
  unfolding quiet_rounds round
  quiet_rounds-settled zero changed w e small enough = absurd (omega arith)
  quiet_rounds-settled (suc n) changed w e small enough = rw e (
      ap (λ b. quiet_rounds save load true n (after_poll save load true s b w)) (or_false changed)
      ∙ after-settled n changed w small (omega arith))

-- ===== src/Main/Saved.antt =====
-- Every change is written to the file, if it can be opened.
use camview_opipc.Base.{
  ℕ, ◌+◌, ◌≡◌, refl, Bool, true, false, ◌||◌, ◌&&◌, ◌∙◌, List, [], ◌∷◌, ◌++◌, if◌then◌else◌, ltb,
  Bool-cases, inl, inr,
}
use camview_opipc.Main.{
  Round, Loop, Event, changed_in, change_events, counted, rounds_loop, control_loop,
}

-- Whether `write_file_controls` is still to be called after the events, given whether it was before.
unfoldable pub uncalled : Bool → List Event → Bool
uncalled b [] = b
uncalled b (Event.changes ∷ es) = uncalled true es
uncalled b (Event.writes opened ∷ es) = uncalled false es

uncalled-changes :
    (b c : Bool) (es : List Event) → uncalled b (change_events c ++ es) ≡ uncalled (b || c) es
unfolding uncalled
uncalled-changes true true es = refl
uncalled-changes true false es = refl
uncalled-changes false true es = refl
uncalled-changes false false es = refl

-- The part of a round behind its changes, given what holds of the rounds after it.
round_saved :
    (opens last : Bool) (rs : List Round) (n : ℕ)
    → ((s : Loop) (b : Bool)
        → (s.has_changes ≡ false → b ≡ false)
        → uncalled b (rounds_loop last s rs) ≡ false)
    → (has b : Bool) → (has ≡ false → b ≡ false)
    → uncalled b (
        (if (counted has n).1 then Event.writes opens ∷ [] else [])
        ++ rounds_loop last (counted has n).0 rs)
      ≡ false
unfolding uncalled counted
round_saved opens last rs n later true b g = elim (Bool-cases (ltb 20 (n + 1))) [
  | inl e ↦ rw e (later (record { has_changes = false; loop_count = 0 }) false (λ _. refl))
  | inr e ↦ rw e (later (record { has_changes = true; loop_count = n + 1 }) b (λ d. absurd (cc)))
]
round_saved opens last rs n later false b g =
    later (record { has_changes = false; loop_count = n }) b (λ _. g refl)

either_saved : (has b c : Bool) → (has ≡ false → b ≡ false) → (has || c) ≡ false → (b || c) ≡ false
either_saved true b c g d = absurd (cc)
either_saved false b c g d = rw (g refl, d) refl

rounds_loop-saved :
    (last : Bool) (rs : List Round) (s : Loop) (b : Bool)
    → (s.has_changes ≡ false → b ≡ false)
    → uncalled b (rounds_loop last s rs) ≡ false
unfolding uncalled rounds_loop
rounds_loop-saved last [] s b h = elim (Bool-cases s.has_changes) [
  | inl e ↦ rw e refl
  | inr e ↦ rw e (h e)
]
rounds_loop-saved last (r ∷ rs) s b h =
    let has = s.has_changes || changed_in r in
    uncalled-changes b (changed_in r) (
      (if (counted has s.loop_count).1 then Event.writes r.opens ∷ [] else [])
      ++ rounds_loop last (counted has s.loop_count).0 rs)
    ∙ round_saved r.opens last rs s.loop_count (rounds_loop-saved last rs) has (b || changed_in r)
        (either_saved s.has_changes b (changed_in r) h)

control_loop-called :
    (loaded first last : Bool) (rs : List Round)
    → uncalled false (control_loop loaded first last rs) ≡ false
unfolding control_loop uncalled
control_loop-called loaded first last rs =
    uncalled-changes false loaded
      (Event.writes first ∷ rounds_loop last (record { has_changes = loaded; loop_count = 0 }) rs)
    ∙ rounds_loop-saved last rs (record { has_changes = loaded; loop_count = 0 }) false (λ _. refl)

-- Whether a change is in no file after the events, given whether one was in none before.
unfoldable pub unsaved : Bool → List Event → Bool
unsaved b [] = b
unsaved b (Event.changes ∷ es) = unsaved true es
unsaved b (Event.writes true ∷ es) = unsaved false es
unsaved b (Event.writes false ∷ es) = unsaved b es

-- All calls of `write_file_controls` open the file.
unfoldable pub opens_all : List Event → Bool
opens_all [] = true
opens_all (Event.changes ∷ es) = opens_all es
opens_all (Event.writes opened ∷ es) = opened && opens_all es

unsaved-uncalled : (b : Bool) (es : List Event) → opens_all es ≡ true → unsaved b es ≡ uncalled b es
unfolding unsaved uncalled opens_all
unsaved-uncalled b [] h = refl
unsaved-uncalled b (Event.changes ∷ es) h = unsaved-uncalled true es h
unsaved-uncalled b (Event.writes true ∷ es) h = unsaved-uncalled false es h
unsaved-uncalled b (Event.writes false ∷ es) h = absurd (cc)

-- If the controls file could be opened in each call of `write_file_controls` that the loop made, then
-- when the loop has ended the file was written after every change that the loop or the loading of the
-- file at its start made.
pub control_loop-saved :
    (loaded first last : Bool) (rs : List Round)
    → opens_all (control_loop loaded first last rs) ≡ true
    → unsaved false (control_loop loaded first last rs) ≡ false
control_loop-saved loaded first last rs h =
    unsaved-uncalled false (control_loop loaded first last rs) h
    ∙ control_loop-called loaded first last rs

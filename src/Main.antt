-- ===== src/Main.antt =====
-- `control_loop` of src/main.c: when the controls file is written. The answers of `inotify_poll`,
-- `load_file_controls` and `poll_cec_events` in a round are arguments, and the loop runs for as
-- many rounds as there are.
pub mod Saved
pub mod Device
pub mod Capture
pub mod Threads
pub mod Persist
mod Tests
use camview_opipc.Base.{
  ℕ, ◌+◌, Bool, true, false, ◌||◌, ◌&&◌, List, [], ◌∷◌, ◌++◌, if◌then◌else◌, ltb,
}

-- `opens` tells if `fopen` of the controls file succeeds in a write of the round.
pub record Round : Type 0 where
  pub file_written : Bool
  pub changes_loaded : Bool
  pub cec_changed : Bool
  pub opens : Bool

pub record Loop : Type 0 where
  pub has_changes : Bool
  pub loop_count : ℕ

-- What the loop does: a control changes, or `write_file_controls` is called, which writes nothing if
-- it cannot open the file.
pub data Event : Type 0 where
  changes : Event
  writes : (opened : Bool) → Event

abbrev pub changed_in : Round → Bool
changed_in r = (r.file_written && r.changes_loaded) || r.cec_changed

abbrev pub change_events : Bool → List Event
change_events b = if b then Event.changes ∷ [] else []

-- The rest of a round, with the new `has_changes`: the next state and whether the file is written.
unfoldable pub counted : Bool → ℕ → Loop × Bool
counted has_changes loop_count =
    if has_changes
    then (if ltb 20 (loop_count + 1)
        then (record { has_changes = false; loop_count = 0 }, true)
        else (record { has_changes = true; loop_count = loop_count + 1 }, false))
    else (record { has_changes = false; loop_count = loop_count }, false)

unfoldable pub rounds_loop : (opens_last : Bool) → Loop → List Round → List Event
unfolding counted
rounds_loop last s [] = if s.has_changes then Event.writes last ∷ [] else []
rounds_loop last s (r ∷ rs) =
    let next = counted (s.has_changes || changed_in r) s.loop_count in
    change_events (changed_in r)
    ++ ((if next.1 then Event.writes r.opens ∷ [] else []) ++ rounds_loop last next.0 rs)

unfoldable pub control_loop : (loaded opens_first opens_last : Bool) → List Round → List Event
unfolding rounds_loop
control_loop loaded first last rs =
    change_events loaded
    ++ (Event.writes first ∷ rounds_loop last (record { has_changes = loaded; loop_count = 0 }) rs)

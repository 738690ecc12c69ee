-- ===== src/Main/Tests.antt =====
-- A change by the mixer, and the rounds until it is written.
use camview_opipc.Base.{◌≡◌, refl, true, false, [], ◌∷◌, ◌++◌, replicate}
use camview_opipc.Main.{Round, Event, control_loop}
use camview_opipc.Main.Saved.{unsaved, opens_all, control_loop-saved}

abbrev quiet : Round
quiet = record { file_written = false; changes_loaded = false; cec_changed = false; opens = true }

abbrev turned : Round
turned = record { file_written = false; changes_loaded = false; cec_changed = true; opens = true }

-- The 21st round from the change on writes it, and the end of the loop has nothing to write.
turned_is_written :
    control_loop false true true (turned ∷ replicate 25 quiet)
    ≡ Event.writes true ∷ Event.changes ∷ Event.writes true ∷ []
unfolding control_loop
turned_is_written = refl

-- If the 21st round cannot open the file, the change is in no file when the loop ends.
turned_is_lost :
    unsaved false (
      control_loop false true true
        (turned ∷ replicate 19 quiet ++ (record quiet { opens = false } ∷ replicate 5 quiet)))
    ≡ true
unfolding unsaved control_loop
turned_is_lost = refl

opened : opens_all (control_loop false true true (quiet ∷ turned ∷ quiet ∷ [])) ≡ true
unfolding opens_all control_loop
opened = refl

control_loop-saved_example :
    unsaved false (control_loop false true true (quiet ∷ turned ∷ quiet ∷ [])) ≡ false
control_loop-saved_example = control_loop-saved false true true (quiet ∷ turned ∷ quiet ∷ []) opened

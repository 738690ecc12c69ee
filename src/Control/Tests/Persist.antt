-- ===== src/Control/Tests/Persist.antt =====
-- A change that has been counted for 5 rounds, while an event is pending.
use camview_opipc.Base.{ℕ, ◌≡◌, true, false, some, List, arith}
use camview_opipc.Control.Params.{Controls}
use camview_opipc.Control.Persist.{save, load, load-save, quiet_rounds-save}
use camview_opipc.Control.Write.{write_file}
use camview_opipc.Control.Tests.{
  json, whole, camera, start, display, written, library, library-laws, camera-DistinctNames,
  display-ControlsFit, written-PrintsBack,
}
use camview_opipc.Main.Persist.{World, loaded, quiet_rounds}
use camview_opipc.Main.Persist.Settles.{settled}

abbrev unsaved : World (camera.S × Controls) (List ℕ)
unsaved = record {
  settings = (start, display);
  file = save json whole camera 10 (start, display);
  event = true;
  has_changes = true;
  loop_count = 5;
}

quiet_rounds-save_example :
    quiet_rounds (save json whole camera 10) (load json whole camera 10) true 23 unsaved
    ≡ some (settled (save json whole camera 10) (start, display) false unsaved)
unfolding write_file library loaded load
quiet_rounds-save_example =
    quiet_rounds-save json whole camera 10 (library-laws (some written)) start display
      written-PrintsBack camera-DistinctNames display-ControlsFit (omega arith) 23 false unsaved
      (load-save json whole camera 10 (library-laws (some written)) start display written-PrintsBack
        camera-DistinctNames display-ControlsFit (omega arith))
      (omega arith) (omega arith)

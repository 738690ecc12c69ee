-- ===== src/Control/Persist.antt =====
-- The control loop of src/main.c over the controls file of src/control-file.c.
use Prim.Native.String.{String}
use camview_opipc.Base.{ℕ, ◌≤◌, ◌≡◌, refl, Bool, true, false, Option, some, List, length, ◌>>=◌}
use camview_opipc.Base.Int.{ℤ}
use camview_opipc.Control.{JsonLib, Driver}
use camview_opipc.Control.Params.{Controls}
use camview_opipc.Control.Write.{file_json, write_file}
use camview_opipc.Control.File.{load_file_controls}
use camview_opipc.Control.RoundTrip.Json.{JsonLaws}
use camview_opipc.Control.RoundTrip.Display.{ControlsFit}
use camview_opipc.Control.RoundTrip.Device.{DistinctNames}
use camview_opipc.Control.RoundTrip.Whole.{PrintsBack, readable, load_file_controls-write_file}
use camview_opipc.Main.Persist.{World, loaded, quiet_rounds}
use camview_opipc.Main.Persist.Settles.{settled, quiet_rounds-settled}

module _ (l : JsonLib) (cast : String → ℤ → ℤ) (d : Driver) (fuel : ℕ) where
  -- `write_file_controls`: the settings are those of the camera and of the display.
  unfoldable pub save : d.S × Controls → List ℕ
  save (s, c) = write_file l d fuel s c

  -- `load_file_controls` of a file with that text.
  unfoldable pub load : List ℕ → d.S × Controls → Option ((d.S × Controls) × Bool)
  load text (s, c) = do
    r ← load_file_controls l cast d (readable text) s c
    some ((r.camera, r.controls), r.changed)

  module _ (law : JsonLaws l) (s : d.S) (c : Controls)
      (print : PrintsBack l (file_json l d fuel s c)) (distinct : DistinctNames d s)
      (fits : ControlsFit cast c) (short : length (write_file l d fuel s c) ≤ 499999) where
    pub load-save : load (save (s, c)) (s, c) ≡ some ((s, c), false)
    unfolding load save
    load-save =
        rw (load_file_controls-write_file l law cast d fuel s c print distinct fits short) refl

    -- However the loop stands, with at most 20 rounds counted, once the file has been loaded, if an
    -- event is pending, and no message comes, then after 23 rounds or more nothing is pending: no
    -- event, no change to be written, and the settings are those loaded. If there was a change the
    -- file is what `write_file` writes of them, and if there was none it is as it was. Supposed is
    -- that the file can be opened each time to be read and to be written, that json-c behaves as
    -- documented, that its text of the settings loaded is one line that parses back and has less
    -- than 500000 characters, that no two controls of the camera share a name and that the fields
    -- of the display's structs hold their values.
    pub quiet_rounds-save :
        (n : ℕ) (changed : Bool) (w : World (d.S × Controls) (List ℕ))
        → loaded save load w ≡ some ((s, c), changed)
        → w.loop_count ≤ 20
        → 23 ≤ n
        → quiet_rounds save load true n w ≡ some (settled save (s, c) changed w)
    quiet_rounds-save = quiet_rounds-settled save load (s, c) load-save

-- ===== src/Control/RoundTrip/Whole.antt =====
-- The whole file, written and read back.
use Prim.Native.String.{String}
use camview_opipc.Base.{
  ℕ, ◌+◌, ◌-◌, ◌≤◌, ◌≡◌, ◌≢◌, refl, ◌∙◌, true, false, some, List, [], ◌∷◌, ltb, length, arith,
  test_of_ne, ap, All,
}
use camview_opipc.Base.Int.{ℤ}
use camview_opipc.Control.{JsonLib, Driver}
use camview_opipc.Control.Set.Settle.{unchanged}
use camview_opipc.Control.Params.{Controls}
use camview_opipc.Control.Write.{
  get_device_ctrls_json_array, get_display_ctrls_json_array, file_json, write_file,
}
use camview_opipc.Control.Read.{fgets, until_nul, read_device_controls, read_display_controls}
use camview_opipc.Control.File.{CtrlFile, Result, apply_json, read_controls, load_file_controls}
use camview_opipc.Control.RoundTrip.Json.{JsonLaws}
use camview_opipc.Control.RoundTrip.Display.{
  ControlsFit, read_display_controls-get_display_ctrls_json_array,
}
use camview_opipc.Control.RoundTrip.Device.{
  DistinctNames, read_device_controls-get_device_ctrls_json_array,
}

-- The documented behaviour of the printer on an object: its text is one line, without NUL, and
-- parses back.
pub record PrintsBack (l : JsonLib) (j : l.J) : Type 0 where
  pub one_line : All (λ c. (c ≢ 10) × (c ≢ 0)) (l.print j)
  pub nonempty : 1 ≤ length (l.print j)
  pub parsed : l.parse (l.print j) ≡ some j

-- The file with a text that can be read.
abbrev pub readable : List ℕ → CtrlFile
readable text = record { exists = true; opens = true; read_fails = false; text = text }

abbrev pub nothing_changed : {S : Type 0} → S → Controls → Result S
nothing_changed s c = record {
  camera = s;
  controls = c;
  calls = [];
  changed = false;
  fcloses = 1;
  mallocs = 1;
  frees = 1;
}

until_nul-fgets :
    (text : List ℕ)
    → All (λ c. (c ≢ 10) × (c ≢ 0)) text
    → until_nul (fgets (length text) text) ≡ text
unfolding until_nul fgets
until_nul-fgets [] all = refl
until_nul-fgets (c ∷ text) ((n, z), all) =
    rw (test_of_ne c 10 n, test_of_ne c 0 z) (ap (λ cs. c ∷ cs) (until_nul-fgets text all))

module _ (l : JsonLib) (law : JsonLaws l) (cast : String → ℤ → ℤ) (d : Driver) where
  open l use {object_add, object_get}

  apply_json-same :
      (json : l.J)
      → (device display : l.J) → (s : d.S) → (c : Controls)
      → object_get (some json) "device" ≡ some device
      → object_get (some json) "display" ≡ some display
      → read_device_controls l cast d (some device) s ≡ some (unchanged s)
      → read_display_controls l cast (some display) c ≡ (c, false)
      → apply_json l cast d json s c ≡ some (nothing_changed s c)
  unfolding apply_json
  apply_json-same json device display s c e1 e2 e3 e4 = rw (e1, e2, e3, e4) refl

  read_controls-text :
      (text : List ℕ)
      → (json : l.J) → (s : d.S) → (c : Controls) → All (λ c. (c ≢ 10) × (c ≢ 0)) text
      → 1 ≤ length text
      → length text ≤ 499999
      → l.parse text ≡ some json
      → load_file_controls l cast d (readable text) s c ≡ apply_json l cast d json s c
  unfolding load_file_controls read_controls
  read_controls-text text json s c all lo hi p =
      let small : ltb 500000 (length text + 1) ≡ false = ground arith in
      let large : ltb (length text + 1) 2 ≡ false = ground arith in
      let room : length text + 1 - 1 ≡ length text = omega arith in
      rw (small, large, room, until_nul-fgets text all, p) refl

  -- Where json-c behaves as documented, its text of the object is one line that parses back and has
  -- less than 500000 characters, no two controls of the camera share a name and the fields of the
  -- display's structs hold their values, loading the file that `write_file` wrote
  -- changes neither the camera nor the display, makes no call and returns 0.
  pub load_file_controls-write_file :
      (fuel : ℕ)
      → (s : d.S) → (c : Controls) → PrintsBack l (file_json l d fuel s c)
      → DistinctNames d s
      → ControlsFit cast c
      → length (write_file l d fuel s c) ≤ 499999
      → load_file_controls l cast d (readable (write_file l d fuel s c)) s c
        ≡ some (nothing_changed s c)
  unfolding write_file file_json
  load_file_controls-write_file fuel s c print distinct fits short =
      let device = get_device_ctrls_json_array l d fuel s in
      let display = get_display_ctrls_json_array l c in
      let o = object_add l.new_object "device" device in
      let json = object_add o "display" display in
      let e1 =
        law.get_other o display "display" "device" refl
        ∙ law.get_added l.new_object device "device" in
      read_controls-text (l.print json) json s c print.one_line print.nonempty short print.parsed
      ∙ apply_json-same json device display s c e1 (law.get_added o display "display")
          (read_device_controls-get_device_ctrls_json_array l law d fuel s cast distinct)
          (read_display_controls-get_display_ctrls_json_array l law cast c fits)

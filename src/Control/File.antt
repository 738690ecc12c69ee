-- ===== src/Control/File.antt =====
-- `read_controls`, `load_file_controls` and `inotify_poll` of src/control-file.c.
pub mod Errors
use Prim.Native.String.{String}
use camview_opipc.Base.{
  ℕ, zero, suc, ◌+◌, ◌-◌, Bool, true, false, Option, none, some, List, [], ◌∷◌, ◌||◌, ◌&&◌,
  if◌then◌else◌, ltb, length, ◌==◌, ◌++◌, ◌>>=◌, not,
}
use camview_opipc.Base.Int.{ℤ}
use camview_opipc.Control.{JsonLib, Driver}
use camview_opipc.Control.Set.{Outcome}
use camview_opipc.Control.Params.{Controls}
use camview_opipc.Control.Read.{fgets, until_nul, read_device_controls, read_display_controls}

-- The file at CTRL_FILE: whether `access` finds it, what `fopen` gives and its characters.
pub record CtrlFile : Type 0 where
  pub exists : Bool
  pub opens : Bool
  pub read_fails : Bool
  pub text : List ℕ

-- What a run of `read_controls` leaves: the camera, the display's parameters, the calls of
-- VIDIOC_S_CTRL, the returned value, and how often the file was closed and the buffer freed.
pub record Result (S : Type 0) : Type 0 where
  pub camera : S
  pub controls : Controls
  pub calls : List (ℕ × ℤ)
  pub changed : Bool
  pub fcloses : ℕ
  pub mallocs : ℕ
  pub frees : ℕ

-- A return of 0 before any control is read.
unfoldable pub gives_up : {S : Type 0} → S → Controls → (fcloses mallocs frees : ℕ) → Result S
gives_up s c fcloses mallocs frees = record {
  camera = s;
  controls = c;
  calls = [];
  changed = false;
  fcloses = fcloses;
  mallocs = mallocs;
  frees = frees;
}

module _ (l : JsonLib) (cast : String → ℤ → ℤ) (d : Driver) where
  open l use {J, parse, object_get}

  unfoldable pub apply_json : l.J → d.S → Controls → Option (Result d.S)
  apply_json json s c = do
    device ← read_device_controls l cast d (object_get (some json) "device") s
    let (controls, changed) = read_display_controls l cast (object_get (some json) "display") c
    some (record {
      camera = device.state;
      controls = controls;
      calls = device.calls;
      changed = device.changed || changed;
      fcloses = 1;
      mallocs = 1;
      frees = 1;
    })

  unfoldable pub read_controls : CtrlFile → d.S → Controls → Option (Result d.S)
  unfolding apply_json gives_up fgets until_nul
  read_controls file s c =
      let size = length file.text + 1 in
      if not file.opens
      then some (gives_up s c 0 0 0)
      else if ltb 500000 size
      then some (gives_up s c 1 0 0)
      else if ltb size 2
      then some (gives_up s c 1 0 0)
      else if file.read_fails
      then some (gives_up s c 1 1 0)
      else elim (parse (until_nul (fgets (size - 1) file.text))) [
        | none ↦ some (gives_up s c 2 1 1)
        | some json ↦ apply_json json s c
      ]

  unfoldable pub load_file_controls : CtrlFile → d.S → Controls → Option (Result d.S)
  unfolding read_controls
  load_file_controls file s c =
      if file.exists then read_controls file s c else some (gives_up s c 0 0 0)

-- What inotify has to say: the result of `poll`, whether POLLIN is set, and how many reads give events.
pub record Watch : Type 0 where
  pub polled : Bool
  pub pollin : Bool
  pub reads : ℕ

-- The returned value, and whether the watch is added again.
unfoldable pub inotify_poll : Watch → Bool × Bool
inotify_poll w =
    let has_events = ltb 0 w.reads in
    if w.polled && w.pollin then (has_events, has_events) else (false, false)

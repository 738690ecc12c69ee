-- ===== src/Control/Read.antt =====
-- The part of src/control-file.c that reads the file of the controls back.
use Prim.Native.String.{String}
use camview_opipc.Base.{
  ℕ, zero, suc, Bool, false, Option, none, some, List, [], ◌∷◌, ◌||◌, if◌then◌else◌, ◌==◌, ◌++◌,
  ◌>>=◌,
}
use camview_opipc.Base.Int.{ℤ}
use camview_opipc.Control.{JsonLib, Driver}
use camview_opipc.Control.Set.{Outcome, set_control}
use camview_opipc.Control.Params.{Block, Controls, set_drm}
use camview_opipc.Control.Write.{field_names}

-- What `fgets` stores for a buffer with room for `n` characters: the first line, with its end.
unfoldable pub fgets : ℕ → List ℕ → List ℕ
fgets zero s = []
fgets (suc n) [] = []
fgets (suc n) (c ∷ s) = if c == 10 then c ∷ [] else c ∷ fgets n s

-- The characters of a C string in a buffer.
unfoldable pub until_nul : List ℕ → List ℕ
until_nul [] = []
until_nul (c ∷ s) = if c == 0 then [] else c ∷ until_nul s

-- `cast k v` is what the field `k` of a struct keeps of the `int` `v`: its type is the driver's.
module _ (l : JsonLib) (cast : String → ℤ → ℤ) where
  open l use {J, object_get, items, get_int, get_string}

  unfoldable pub read_fields : Option l.J → List String → List ℤ
  read_fields o [] = []
  read_fields o (k ∷ ks) = cast k (get_int (object_get o k)) ∷ read_fields o ks

  unfoldable pub read_block : Option l.J → String → Block → Controls → Controls × Bool
  unfolding read_fields set_drm field_names
  read_block json name b c = set_drm b (read_fields (object_get json name) (field_names b)) c

  unfoldable pub read_display_controls : Option l.J → Controls → Controls × Bool
  unfolding read_block
  read_display_controls json c =
      let (c1, b1) = read_block json "fcc" Block.fcc c in
      let (c2, b2) = read_block json "bws" Block.bws c1 in
      let (c3, b3) = read_block json "lti" Block.lti c2 in (c3, b1 || b2 || b3)

  module _ (d : Driver) where
    -- One control of the file. A control with no name is undefined behaviour: `strcmp` of NULL.
    unfoldable pub read_control : l.J → d.S → Option (Outcome d.S)
    unfolding set_control
    read_control ctrl s = elim (get_string (object_get (some ctrl) "ctrlName")) [
      | none ↦ none
      | some name ↦ some (set_control d name (get_int (object_get (some ctrl) "ctrlValue")) s)
    ]

    unfoldable pub read_loop : List l.J → d.S → Option (Outcome d.S)
    unfolding read_control
    read_loop [] s = some (record { state = s; calls = []; changed = false })
    read_loop (ctrl ∷ rest) s = do
      now ← read_control ctrl s
      later ← read_loop rest now.state
      some (record {
        state = later.state;
        calls = now.calls ++ later.calls;
        changed = now.changed || later.changed;
      })

    unfoldable pub read_device_controls : Option l.J → d.S → Option (Outcome d.S)
    unfolding read_loop
    read_device_controls json s = read_loop (items json) s

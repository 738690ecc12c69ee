-- ===== src/Main/Persist.antt =====
-- The rounds of `control_loop` of src/main.c with the settings themselves: the camera's and the display's,
-- which `write_file_controls` saves and `load_file_controls` of src/control-file.c loads, and the
-- pending event of inotify, which also a write of the program raises. The controls file is there and
-- can be read; `writable` tells if it can be opened to be written, else `write_file` does nothing.
pub mod Settles
use camview_opipc.Base.{
  ℕ, zero, suc, Bool, true, false, ◌||◌, ◌&&◌, Option, none, some, if◌then◌else◌, ◌>>=◌,
}
use camview_opipc.Main.{counted}

pub record World (S File : Type 0) : Type 0 where
  pub settings : S
  pub file : File
  pub event : Bool
  pub has_changes : Bool
  pub loop_count : ℕ

module _ {S File : Type 0} (save : S → File) (load : File → S → Option (S × Bool)) where
  -- `inotify_poll` takes the event, and the file is loaded if there was one.
  unfoldable pub loaded : World S File → Option (S × Bool)
  loaded w = if w.event then load w.file w.settings else some (w.settings, false)

  -- What follows `poll_cec_events`, which has left the settings `s`.
  unfoldable pub after_poll : (writable : Bool) → S → (changed : Bool) → World S File → World S File
  unfolding counted
  after_poll writable s changed w =
      let next = counted (w.has_changes || changed) w.loop_count in
      record {
        settings = s;
        file = if writable && next.1 then save s else w.file;
        event = writable && next.1;
        has_changes = next.0.has_changes;
        loop_count = next.0.loop_count;
      }

  -- One round; `remote` is what `poll_cec_events` does. `none` is undefined behaviour.
  unfoldable pub round :
      (writable : Bool) → (remote : S → S × Bool) → World S File → Option (World S File)
  unfolding loaded after_poll
  round writable remote w = do
    (s, changed) ← loaded w
    let (s', polled) = remote s
    some (after_poll writable s' (changed || polled) w)

  -- Rounds in which no message comes.
  unfoldable pub quiet_rounds : (writable : Bool) → ℕ → World S File → Option (World S File)
  unfolding round
  quiet_rounds writable zero w = some w
  quiet_rounds writable (suc n) w = round writable (λ s. (s, false)) w >>= quiet_rounds writable n

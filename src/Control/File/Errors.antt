-- ===== src/Control/File/Errors.antt =====
-- What `read_controls` leaves on the ways that read no control.
use Prim.Native.String.{String}
use camview_opipc.Base.{◌+◌, ◌-◌, ◌≤◌, ◌≡◌, refl, true, false, none, some, ltb, length, arith}
use camview_opipc.Base.Int.{ℤ}
use camview_opipc.Control.{JsonLib, Driver}
use camview_opipc.Control.Params.{Controls}
use camview_opipc.Control.Read.{fgets, until_nul}
use camview_opipc.Control.File.{CtrlFile, gives_up, read_controls}

-- A file of 1 to 499999 characters that can be read but is not JSON: `read_controls` returns 0
-- after it has closed the file twice.
pub read_controls-double_close :
    (l : JsonLib) (cast : String → ℤ → ℤ) (d : Driver) (file : CtrlFile) (s : d.S) (c : Controls)
    → file.opens ≡ true
    → file.read_fails ≡ false
    → 1 ≤ length file.text
    → length file.text ≤ 499999
    → l.parse (until_nul (fgets (length file.text) file.text)) ≡ none
    → read_controls l cast d file s c ≡ some (gives_up s c 2 1 1)
unfolding read_controls
read_controls-double_close l cast d file s c o r lo hi p =
    let small : ltb 500000 (length file.text + 1) ≡ false = ground arith in
    let large : ltb (length file.text + 1) 2 ≡ false = ground arith in
    let room : length file.text + 1 - 1 ≡ length file.text = omega arith in
    rw (o, small, large, r, room, p) refl

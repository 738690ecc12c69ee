-- ===== src/Main/Device/Balance.antt =====
-- What the device loop of src/main.c opens, it closes.
use camview_opipc.Base.{
  ℕ, ◌+◌, ◌≡◌, ◌≢◌, refl, ap, Bool, true, false, Option, none, some, List, [], ◌∷◌, ◌==◌, arith,
  if_both,
}
use camview_opipc.Main.Device.{
  Slot, Format, Attempt, Call, map_loop, run, join_threads, streamed, find_format, with_format,
  device_round, device_loop,
}
use camview_opipc.Main.Device.Count.{
  bit, count, count-append, count-cons, count-nil, count-unless, count-map_loop, count-unmap_loop,
}

-- The calls that open, close, start and stop something, and 0 for the others.
abbrev pub kind : Call → ℕ
kind Call.open_device = 1
kind Call.close_device = 2
kind (Call.hw_init w h) = 3
kind Call.hw_close = 4
kind Call.init_cec_controls = 5
kind Call.stop_cec_controls = 6
kind c = 0

abbrev pub is : ℕ → Call → Bool
is k c = kind c == k

-- The test passes no call but those that open, close, start or stop something.
record IsOther (p : Call → Bool) : Type 0 where
  mmap : (a n : ℕ) → p (Call.mmap a n) ≡ false
  munmap : (a n : ℕ) → p (Call.munmap a n) ≡ false
  set_format : (a w h : ℕ) → p (Call.set_format a w h) ≡ false
  start_threads : p Call.start_threads ≡ false
  cancel_capture : p Call.cancel_capture ≡ false
  cancel_control : p Call.cancel_control ≡ false

count-join_threads : (p : Call → Bool) → IsOther p → (a : Attempt) → count p (join_threads a) ≡ 0
unfolding join_threads
count-join_threads p other a =
    let x = count-unless p a.capture_joined Call.cancel_capture other.cancel_capture in
    let y = count-unless p a.control_joined Call.cancel_control other.cancel_control in
    omega (arith, count-append, x, y)

count-run :
    (p : Call → Bool)
    → IsOther p
    → (maps : List Slot) (a : Attempt) (f : Format)
    → count p (run maps a f)
      ≡ bit (p Call.init_cec_controls)
        + bit (p (Call.hw_init f.width f.height))
        + bit (p Call.close_device)
        + bit (p Call.hw_close)
        + bit (p Call.stop_cec_controls)
unfolding run
count-run p other maps a f =
    let u = count-unmap_loop p other.munmap maps in
    let j = count-join_threads p other a in
    let t = ap bit other.start_threads in
    omega (arith, count-append, count-cons, count-nil p, u, j, t)

-- The calls that pass the one test undo those that pass the other.
record IsPair (up down : Call → Bool) : Type 0 where
  up_other : IsOther up
  down_other : IsOther down
  -- A round that opens the camera and closes it.
  short :
      bit (up Call.open_device) + bit (up Call.close_device)
      ≡ bit (down Call.open_device) + bit (down Call.close_device)
  -- What a round adds that reaches the threads.
  long :
      (w h : ℕ)
      → bit (up Call.init_cec_controls)
          + bit (up (Call.hw_init w h))
          + bit (up Call.hw_close)
          + bit (up Call.stop_cec_controls)
        ≡ bit (down Call.init_cec_controls)
          + bit (down (Call.hw_init w h))
          + bit (down Call.hw_close)
          + bit (down Call.stop_cec_controls)

module _ (up down : Call → Bool) (pair : IsPair up down) where
  -- Once the camera is open, the rest of the round evens the counts.
  abbrev Evens : List Call → Type 0
  Evens cs = bit (up Call.open_device) + count up cs ≡ bit (down Call.open_device) + count down cs

  closed-Evens : Evens (Call.close_device ∷ [])
  unfolding count
  closed-Evens = omega (arith, pair.short)

  streamed-Evens :
      (maps : List Slot) (has : Bool) (calls : List Call) (a : Attempt) (f : Format)
      → count up calls ≡ 0
      → count down calls ≡ 0
      → Evens (streamed (maps, has, calls) a f).1
  unfolding streamed
  streamed-Evens maps true calls a f u d = omega (
    arith,
    count-append,
    count-run up pair.up_other maps a f,
    count-run down pair.down_other maps a f,
    pair.short,
    pair.long f.width f.height,
    u,
    d,
  )
  streamed-Evens maps false calls a f u d = omega (arith, count-append, closed-Evens, u, d)

  buffers-Evens :
      (slots : List Slot) (a : Attempt) (f : Format)
      → Evens (streamed (map_loop slots a.buffers) a f).1
  buffers-Evens slots a f =
      let m = map_loop slots a.buffers in
      streamed-Evens m.0 m.1 m.2 a f (count-map_loop up pair.up_other.mmap slots a.buffers)
        (count-map_loop down pair.down_other.mmap slots a.buffers)

  module _ (mjpeg capture : ℕ) where
    with_format-Evens :
        (slots : List Slot) (a : Attempt) (o : Option Format)
        → Evens (with_format mjpeg capture slots a o).1
    unfolding with_format
    with_format-Evens slots a none = closed-Evens
    with_format-Evens slots a (some f) =
        if_both (λ (r : List Slot × List Call). Evens r.1) (f.pixelformat == mjpeg) _ _
          (if_both (λ (r : List Slot × List Call). Evens r.1) a.requested _ _
            (buffers-Evens slots a f) closed-Evens)
          closed-Evens

    device_round-even :
        (slots : List Slot) (a : Attempt)
        → count up (device_round mjpeg capture slots a).1
          ≡ count down (device_round mjpeg capture slots a).1
    unfolding device_round
    device_round-even slots a =
        let w = with_format-Evens slots a a.get_format in
        let u = ap bit (pair.up_other.set_format capture 1920 1080) in
        let d = ap bit (pair.down_other.set_format capture 1920 1080) in
        if_both (λ (r : List Slot × List Call). count up r.1 ≡ count down r.1) a.opened _ _
          (if_both (λ (r : List Slot × List Call). count up r.1 ≡ count down r.1)
            (find_format mjpeg capture a.formats) _ _ (omega (arith, count-cons, w, u, d))
            (omega (arith, count-cons, closed-Evens)))
          (omega (arith, count-nil))

    device_loop-even :
        (slots : List Slot) (attempts : List Attempt)
        → count up (device_loop mjpeg capture slots attempts)
          ≡ count down (device_loop mjpeg capture slots attempts)
    unfolding device_loop count
    device_loop-even slots [] = refl
    device_loop-even slots (a ∷ attempts) =
        let (next, calls) = device_round mjpeg capture slots a in
        omega (arith, count-append, device_round-even slots a, device_loop-even next attempts)

is-IsOther : (k : ℕ) → k ≢ 0 → IsOther (is k)
is-IsOther k ne =
    let e : (0 == k) ≡ false = ground arith in
    record {
      mmap = λ a n. e;
      munmap = λ a n. e;
      set_format = λ a w h. e;
      start_threads = e;
      cancel_capture = e;
      cancel_control = e;
    }

-- In any number of rounds of the device loop, whatever the driver answers, the camera is closed as
-- often as it is opened, `hw_close` is called as often as `hw_init`, and `stop_cec_controls` as often as
-- `init_cec_controls`.
pub device_loop-balanced :
    (mjpeg capture : ℕ) (slots : List Slot) (attempts : List Attempt)
    → (count (is 1) (device_loop mjpeg capture slots attempts)
        ≡ count (is 2) (device_loop mjpeg capture slots attempts))
      × (count (is 3) (device_loop mjpeg capture slots attempts)
          ≡ count (is 4) (device_loop mjpeg capture slots attempts))
      × (count (is 5) (device_loop mjpeg capture slots attempts)
          ≡ count (is 6) (device_loop mjpeg capture slots attempts))
device_loop-balanced mjpeg capture slots attempts = (
  device_loop-even (is 1) (is 2)
      (record {
        up_other = is-IsOther 1 (omega arith);
        down_other = is-IsOther 2 (omega arith);
        short = refl;
        long = λ w h. refl;
      })
      mjpeg capture slots attempts,
  device_loop-even (is 3) (is 4)
      (record {
        up_other = is-IsOther 3 (omega arith);
        down_other = is-IsOther 4 (omega arith);
        short = refl;
        long = λ w h. refl;
      })
      mjpeg capture slots attempts,
  device_loop-even (is 5) (is 6)
      (record {
        up_other = is-IsOther 5 (omega arith);
        down_other = is-IsOther 6 (omega arith);
        short = refl;
        long = λ w h. refl;
      })
      mjpeg capture slots attempts,
)

-- ===== src/Main/Device/Maps.antt =====
-- The mappings of the camera's buffers that the device loop of src/main.c makes and removes.
use camview_opipc.Base.{
  ℕ, ◌+◌, ◌≡◌, refl, Bool, true, false, Option, none, some, List, [], ◌∷◌, ◌==◌, arith, if_both,
  All,
}
use camview_opipc.Main.Device.{
  Slot, BufferAnswer, Format, Attempt, Call, map_buffer, map_loop, unmap_call, unmap_loop, cleared,
  cleared_slot, join_threads, run, streamed, find_format, with_format, device_round, device_loop,
}
use camview_opipc.Main.Device.Count.{
  bit, count, count-append, count-cons, count-nil, count-unless, count-map_loop, count-unmap_loop,
}

abbrev pub maps : ℕ → Call → Bool
maps q (Call.mmap p n) = p == q
maps q c = false

abbrev pub unmaps : ℕ → Call → Bool
unmaps q (Call.munmap p n) = p == q
unmaps q c = false

abbrev holds : ℕ → Option ℕ → ℕ
holds q none = 0
holds q (some p) = bit (p == q)

-- How many entries have the address.
unfoldable pub held : ℕ → List Slot → ℕ
held q [] = 0
held q (s ∷ ss) = holds q s.address + held q ss

-- The first buffer, if it is mapped, is queued.
unfoldable pub kept : (query mapped : Option ℕ) (queued : Bool) → Bool
kept (some n) (some p) queued = queued
kept query mapped queued = true

unfoldable pub first_kept : List BufferAnswer → Bool
unfolding kept
first_kept [] = true
first_kept (a ∷ answers) = kept a.query a.mmap a.queued

module _ (q : ℕ) where
  map_buffer-held :
      (s : Slot) (ss : List Slot) (rest : List Slot × Bool × List Call) (query mapped : Option ℕ)
      (queued : Bool)
      → held q (s ∷ ss) ≡ 0
      → count (maps q) rest.2 ≡ held q rest.0
      → count (maps q) (map_buffer s ss rest query mapped queued).2
        ≡ held q (map_buffer s ss rest query mapped queued).0
  unfolding count held map_buffer
  map_buffer-held s ss rest none mapped queued free e = omega arith
  map_buffer-held s ss rest (some n) none queued free e = omega arith
  map_buffer-held s ss rest (some n) (some p) false free e = omega arith
  map_buffer-held s ss rest (some n) (some p) true free e = omega arith

  map_loop-held :
      (ss : List Slot) (answers : List BufferAnswer)
      → held q ss ≡ 0
      → count (maps q) (map_loop ss answers).2 ≡ held q (map_loop ss answers).0
  unfolding count held map_loop
  map_loop-held [] answers free = refl
  map_loop-held (s ∷ ss) [] free = omega arith
  map_loop-held (s ∷ ss) (a ∷ answers) free =
      map_buffer-held s ss (map_loop ss answers) a.query a.mmap a.queued free
        (map_loop-held ss answers (omega arith))

  map_buffer-kept :
      (s : Slot) (ss : List Slot) (rest : List Slot × Bool × List Call) (query mapped : Option ℕ)
      (queued : Bool)
      → kept query mapped queued ≡ true
      → (map_buffer s ss rest query mapped queued).1 ≡ false
      → count (maps q) (map_buffer s ss rest query mapped queued).2 ≡ 0
  unfolding count kept map_buffer
  map_buffer-kept s ss rest none mapped queued k e = refl
  map_buffer-kept s ss rest (some n) none queued k e = refl
  map_buffer-kept s ss rest (some n) (some p) false k e = absurd (cc)
  map_buffer-kept s ss rest (some n) (some p) true k e = absurd (cc)

  map_loop-kept :
      (ss : List Slot) (answers : List BufferAnswer)
      → first_kept answers ≡ true
      → (map_loop ss answers).1 ≡ false
      → count (maps q) (map_loop ss answers).2 ≡ 0
  unfolding count first_kept map_loop
  map_loop-kept [] answers k e = refl
  map_loop-kept (s ∷ ss) [] k e = refl
  map_loop-kept (s ∷ ss) (a ∷ answers) k e =
      map_buffer-kept s ss (map_loop ss answers) a.query a.mmap a.queued k e

  unmap_call-holds : (o : Option ℕ) (n : ℕ) → count (unmaps q) (unmap_call o n) ≡ holds q o
  unfolding count unmap_call
  unmap_call-holds none n = refl
  unmap_call-holds (some p) n = omega arith

  unmap_loop-held : (ss : List Slot) → count (unmaps q) (unmap_loop ss) ≡ held q ss
  unfolding count held unmap_loop
  unmap_loop-held [] = refl
  unmap_loop-held (s ∷ ss) =
      omega (arith, count-append, unmap_call-holds s.address s.size, unmap_loop-held ss)

  cleared_slot-holds : (o : Option ℕ) (n : ℕ) → holds q (cleared_slot o n).address ≡ 0
  unfolding cleared_slot
  cleared_slot-holds none n = refl
  cleared_slot-holds (some p) n = refl

  cleared-held : (ss : List Slot) → held q (cleared ss) ≡ 0
  unfolding held cleared
  cleared-held [] = refl
  cleared-held (s ∷ ss) = omega (arith, cleared_slot-holds s.address s.size, cleared-held ss)

  maps-run : (ms : List Slot) (a : Attempt) (f : Format) → count (maps q) (run ms a f) ≡ 0
  unfolding run join_threads
  maps-run ms a f =
      let x = count-unless (maps q) a.capture_joined Call.cancel_capture refl in
      let y = count-unless (maps q) a.control_joined Call.cancel_control refl in
      let z = count-unmap_loop (maps q) (λ b n. refl) ms in
      omega (arith, count-append, count-cons, count-nil (maps q), x, y, z)

  unmaps-run :
      (ms : List Slot) (a : Attempt) (f : Format) → count (unmaps q) (run ms a f) ≡ held q ms
  unfolding run join_threads
  unmaps-run ms a f =
      let x = count-unless (unmaps q) a.capture_joined Call.cancel_capture refl in
      let y = count-unless (unmaps q) a.control_joined Call.cancel_control refl in
      omega (arith, count-append, count-cons, count-nil (unmaps q), x, y, unmap_loop-held ms)

  -- The round maps the address as often as it unmaps it, and no entry has it afterwards.
  abbrev IsEven : List Slot × List Call → Type 0
  IsEven r = (count (maps q) r.1 ≡ count (unmaps q) r.1) × (held q r.0 ≡ 0)

  closed-IsEven : (slots : List Slot) → held q slots ≡ 0 → IsEven (slots, Call.close_device ∷ [])
  unfolding count
  closed-IsEven slots free = (refl, free)

  streamed-IsEven :
      (ms : List Slot) (has : Bool) (calls : List Call) (a : Attempt) (f : Format)
      → count (maps q) calls ≡ held q ms
      → count (unmaps q) calls ≡ 0
      → (has ≡ false → count (maps q) calls ≡ 0)
      → IsEven (streamed (ms, has, calls) a f)
  unfolding streamed count
  streamed-IsEven ms true calls a f m u kept =
      (omega (arith, count-append, maps-run ms a f, unmaps-run ms a f), cleared-held ms)
  streamed-IsEven ms false calls a f m u kept =
      let none_left = kept refl in (omega (arith, count-append), omega arith)

  module _ (mjpeg capture : ℕ) where
    with_format-IsEven :
        (slots : List Slot) (a : Attempt) (o : Option Format)
        → held q slots ≡ 0
        → first_kept a.buffers ≡ true
        → IsEven (with_format mjpeg capture slots a o)
    unfolding with_format
    with_format-IsEven slots a none free k = closed-IsEven slots free
    with_format-IsEven slots a (some f) free k =
        let m = map_loop slots a.buffers in
        if_both IsEven (f.pixelformat == mjpeg) _ _
          (if_both IsEven a.requested _ _
            (streamed-IsEven m.0 m.1 m.2 a f (map_loop-held slots a.buffers free)
              (count-map_loop (unmaps q) (λ b n. refl) slots a.buffers)
              (map_loop-kept slots a.buffers k))
            (closed-IsEven slots free))
          (closed-IsEven slots free)

    device_round-IsEven :
        (slots : List Slot) (a : Attempt)
        → held q slots ≡ 0
        → first_kept a.buffers ≡ true
        → IsEven (device_round mjpeg capture slots a)
    unfolding device_round count
    device_round-IsEven slots a free k =
        let (e, after) = with_format-IsEven slots a a.get_format free k in
        if_both IsEven a.opened _ _
          (if_both IsEven (find_format mjpeg capture a.formats) _ _ (omega arith, after)
            (refl, free))
          (refl, free)

    -- In any number of rounds of the device loop, an address that no entry has at first is unmapped as
    -- often as it is mapped, if in no round the first buffer is mapped and not queued.
    pub device_loop-unmapped :
        (slots : List Slot) (attempts : List Attempt)
        → held q slots ≡ 0
        → All (λ a. first_kept a.buffers ≡ true) attempts
        → count (maps q) (device_loop mjpeg capture slots attempts)
          ≡ count (unmaps q) (device_loop mjpeg capture slots attempts)
    unfolding device_loop count
    device_loop-unmapped slots [] free all = refl
    device_loop-unmapped slots (a ∷ attempts) free (k, all) =
        let (e, after) = device_round-IsEven slots a free k in
        let ih = device_loop-unmapped (device_round mjpeg capture slots a).0 attempts after all in
        omega (arith, count-append)

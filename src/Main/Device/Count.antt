-- ===== src/Main/Device/Count.antt =====
-- How often a call is among those of the device loop of src/main.c.
use camview_opipc.Base.{
  ℕ, ◌+◌, ◌≡◌, refl, ap, Bool, true, false, Option, none, some, List, [], ◌∷◌, ◌++◌, if◌then◌else◌,
  arith,
}
use camview_opipc.Main.Device.{
  Slot, BufferAnswer, Call, map_buffer, map_loop, unmap_call, unmap_loop,
}

abbrev pub bit : Bool → ℕ
bit true = 1
bit false = 0

-- How many calls pass a test.
unfoldable pub count : (Call → Bool) → List Call → ℕ
count p [] = 0
count p (c ∷ cs) = bit (p c) + count p cs

pub count-append :
    (p : Call → Bool) (xs ys : List Call) → count p (xs ++ ys) ≡ count p xs + count p ys
unfolding count
count-append p [] ys = omega arith
count-append p (x ∷ xs) ys = omega (arith, count-append p xs ys)

pub count-cons :
    (p : Call → Bool) (c : Call) (cs : List Call) → count p (c ∷ cs) ≡ bit (p c) + count p cs
unfolding count
count-cons p c cs = refl

pub count-nil : (p : Call → Bool) → count p [] ≡ 0
unfolding count
count-nil p = refl

pub count-unless :
    (p : Call → Bool) (b : Bool) (c : Call) → p c ≡ false → count p (if b then [] else c ∷ []) ≡ 0
unfolding count
count-unless p true c e = refl
count-unless p false c e = rw e refl

module _ (p : Call → Bool) where
  count-map_buffer :
      ((a n : ℕ) → p (Call.mmap a n) ≡ false)
      → (s : Slot) (ss : List Slot) (rest : List Slot × Bool × List Call) (query mapped : Option ℕ)
        (queued : Bool)
      → count p rest.2 ≡ 0
      → count p (map_buffer s ss rest query mapped queued).2 ≡ 0
  unfolding count map_buffer
  count-map_buffer other s ss rest none mapped queued e = refl
  count-map_buffer other s ss rest (some n) none queued e = refl
  count-map_buffer other s ss rest (some n) (some a) false e = rw (other a n) refl
  count-map_buffer other s ss rest (some n) (some a) true e =
      let b = ap bit (other a n) in omega (arith, b, e)

  pub count-map_loop :
      ((a n : ℕ) → p (Call.mmap a n) ≡ false)
      → (ss : List Slot) (answers : List BufferAnswer) → count p (map_loop ss answers).2 ≡ 0
  unfolding count map_loop
  count-map_loop other [] answers = refl
  count-map_loop other (s ∷ ss) [] = refl
  count-map_loop other (s ∷ ss) (a ∷ answers) =
      count-map_buffer other s ss (map_loop ss answers) a.query a.mmap a.queued
        (count-map_loop other ss answers)

  count-unmap_call :
      ((a n : ℕ) → p (Call.munmap a n) ≡ false)
      → (o : Option ℕ) (n : ℕ) → count p (unmap_call o n) ≡ 0
  unfolding count unmap_call
  count-unmap_call other none n = refl
  count-unmap_call other (some a) n = rw (other a n) refl

  pub count-unmap_loop :
      ((a n : ℕ) → p (Call.munmap a n) ≡ false) → (ss : List Slot) → count p (unmap_loop ss) ≡ 0
  unfolding count unmap_loop
  count-unmap_loop other [] = refl
  count-unmap_loop other (s ∷ ss) =
      omega
        (arith, count-append p, count-unmap_call other s.address s.size, count-unmap_loop other ss)

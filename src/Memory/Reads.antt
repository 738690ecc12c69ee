-- ===== src/Memory/Reads.antt =====
-- `pagemap_get_entry` does not depend on how the file is read in pieces.
use camview_opipc.Base.{
  ℕ, zero, suc, ◌+◌, ◌-◌, ◌*◌, ◌/◌, ◌%◌, ◌^◌, ◌≤◌, ◌<◌, ◌≡◌, refl, ◌∙◌, ap, true, false, some, List,
  [], ◌∷◌, ◌++◌, ltb, length, arith, Bool-cases, less_of_test, ge_of_test, inl, inr,
}
use camview_opipc.Memory.{Pread, read_loop, word, entry_of, pagemap_get_entry, virt_to_phys_user}

-- `n` bytes of the contents from `at` on.
unfoldable pub range : (ℕ → ℕ) → (at n : ℕ) → List ℕ
range file at zero = []
range file at (suc n) = file at ∷ range file (at + 1) n

-- The documented `pread` of a file with these contents: it reads at least one byte of those asked
-- for, and may read fewer.
abbrev pub ReadsFrom : (ℕ → ℕ) → Pread → Type 0
ReadsFrom file pread =
    (len at : ℕ) → 0 < len → (n : ℕ) × (0 < n) × (n ≤ len) × (pread len at ≡ some (range file at n))

length-range : (file : ℕ → ℕ) (at n : ℕ) → length (range file at n) ≡ n
unfolding range
length-range file at zero = refl
length-range file at (suc n) = ap suc (length-range file (at + 1) n)

range-append :
    (file : ℕ → ℕ) (at n m : ℕ) → range file at n ++ range file (at + n) m ≡ range file at (n + m)
unfolding range
range-append file at zero m =
    let e : at + 0 ≡ at = omega arith in let e2 : 0 + m ≡ m = omega arith in rw (e, e2) refl
range-append file at (suc n) m =
    let e : at + suc n ≡ at + 1 + n = omega arith in
    let e2 : suc n + m ≡ suc (n + m) = omega arith in
    rw (e, e2) (ap (λ bs. file at ∷ bs) (range-append file (at + 1) n m))

read_loop-more :
    (fuel : ℕ) (pread : Pread) (at : ℕ) (bytes : List ℕ) (b : ℕ) (bs : List ℕ)
    → ltb (length bytes) 8 ≡ true
    → pread (8 - length bytes) (at + length bytes) ≡ some (b ∷ bs)
    → read_loop (suc fuel) pread at bytes ≡ read_loop fuel pread at (bytes ++ (b ∷ bs))
unfolding read_loop
read_loop-more fuel pread at bytes b bs less read = rw (read_loop, less, read) refl

read_loop-done :
    (fuel : ℕ) (pread : Pread) (at : ℕ) (bytes : List ℕ)
    → ltb (length bytes) 8 ≡ false
    → read_loop (suc fuel) pread at bytes ≡ some bytes
unfolding read_loop
read_loop-done fuel pread at bytes full = rw (read_loop, full) refl

range-step :
    (fuel : ℕ) (pread : Pread) (file : ℕ → ℕ) (at n k : ℕ)
    → ltb n 8 ≡ true
    → 0 < k
    → pread (8 - n) (at + n) ≡ some (range file (at + n) k)
    → read_loop (suc fuel) pread at (range file at n)
      ≡ read_loop fuel pread at (range file at (n + k))
unfolding range
range-step fuel pread file at n zero less pos read = absurd (omega arith)
range-step fuel pread file at n (suc k) less pos read =
    let e = length-range file at n in
    read_loop-more fuel pread at (range file at n) (file (at + n)) (range file (at + n + 1) k)
      (rw e less) (rw e read)
    ∙ ap (read_loop fuel pread at) (range-append file at n (suc k))

module _ (file : ℕ → ℕ) (pread : Pread) (reads : ReadsFrom file pread) where
  read_loop-range :
      (fuel at n : ℕ)
      → n ≤ 8
      → 8 ≤ fuel + n
      → read_loop fuel pread at (range file at n) ≡ some (range file at 8)
  unfolding read_loop
  read_loop-range zero at n le enough = let e : n ≡ 8 = omega arith in rw e refl
  read_loop-range (suc fuel) at n le enough = elim (Bool-cases (ltb n 8)) [
    | inl less ↦
        let lt = less_of_test n 8 less in
        let r = reads (8 - n) (at + n) (omega arith) in
        range-step fuel pread file at n r.0 less r.1 r.3
        ∙ read_loop-range fuel at (n + r.0) (omega arith) (omega arith)
    | inr stop ↦
        let ge = ge_of_test n 8 stop in
        let e : n ≡ 8 = omega arith in
        read_loop-done fuel pread at (range file at n) (rw (length-range file at n) stop)
        ∙ ap (λ m. some (range file at m)) e
  ]

  -- However the page map is read, the entry is made of the 8 bytes of the page, and the physical address
  -- has its page and the offset of the virtual one.
  pub virt_to_phys_user-entry :
      (page vaddr : ℕ)
      → virt_to_phys_user page (some pread) vaddr
        ≡ (some (word (range file (vaddr / page * 8) 8) % 2 ^ 55 * page + vaddr % page), false)
  unfolding virt_to_phys_user pagemap_get_entry entry_of range
  virt_to_phys_user-entry page vaddr =
      rw (read_loop-range 8 (vaddr / page * 8) 0 (omega arith) (omega arith)) refl

-- ===== src/Ve/Translate.antt =====
-- `ve_virt2phys` on pointers into mapped chunks.
use camview_opipc.Base.{
  ℕ, zero, suc, ◌+◌, ◌-◌, ◌^◌, ◌≤◌, ◌<◌, ◌≡◌, ◌≢◌, refl, ◌∙◌, ◌⊎◌, some, List, [], ◌∷◌, arith,
  get_elem?,
}
use native.Mathlib.Decide.{dec_lt}
use camview_opipc.Ve.{Chunk, Ve, translate, ve_virt2phys}
use camview_opipc.Ve.Tiles.{Tiles, Tiles-le}

-- `ptr` points into the mapped chunk `c`.
abbrev pub Points : ℕ → Chunk → Type 0
Points ptr c = (c.virt_addr ≢ 0) × (c.virt_addr ≤ ptr) × (ptr < c.virt_addr + c.size)

-- The test of the loop in `ve_virt2phys`; a chunk of size 0 passes it at its own address.
abbrev pub Claims : ℕ → Chunk → Type 0
Claims ptr c =
    (c.virt_addr ≢ 0) × ((c.virt_addr ≡ ptr) ⊎ ((c.virt_addr < ptr) × (ptr < c.virt_addr + c.size)))

-- `ptr` points into the `k`-th chunk, and into none before it.
pub record IsMapped (cs : List Chunk) (ptr k : ℕ) (c : Chunk) : Type 0 where
  pub found : get_elem? cs k ≡ some c
  pub inside : Points ptr c
  pub first : (j : ℕ) (d : Chunk) → j < k → get_elem? cs j ≡ some d → ¬ Claims ptr d

translate_skip :
    (ptr : ℕ) (c : Chunk) (cs : List Chunk)
    → ¬ Claims ptr c
    → translate ptr (c ∷ cs) ≡ translate ptr cs
unfolding translate
translate_skip ptr c cs h = ground arith

translate_hit :
    (ptr : ℕ) (c : Chunk) (cs : List Chunk)
    → Points ptr c
    → c.phys_addr + c.size ≤ 2 ^ 32
    → translate ptr (c ∷ cs) ≡ c.phys_addr + (ptr - c.virt_addr)
unfolding translate
translate_hit ptr c cs h b = ground arith

translate-IsMapped :
    (cs : List Chunk) (ptr k : ℕ) (c : Chunk)
    → get_elem? cs k ≡ some c
    → Points ptr c
    → ((j : ℕ) (d : Chunk) → j < k → get_elem? cs j ≡ some d → ¬ Claims ptr d)
    → c.phys_addr + c.size ≤ 2 ^ 32
    → translate ptr cs ≡ c.phys_addr + (ptr - c.virt_addr)
translate-IsMapped [] ptr k c e i f b = absurd (ground arith)
translate-IsMapped (d ∷ cs) ptr zero c e i f b =
    let same : d ≡ c = ground arith in rw same (translate_hit ptr c cs i b)
translate-IsMapped (d ∷ cs) ptr (suc k) c e i f b =
    translate_skip ptr d cs (f 0 d (omega arith) refl)
    ∙ translate-IsMapped cs ptr k c e i (λ j x lt. f (suc j) x (omega arith)) b

-- Where the chunks of a tiling lie: in its bounds, and after all that stand before them.
Tiles-get_elem? :
    (p q k : ℕ) (cs : List Chunk) (c : Chunk)
    → Tiles p cs q
    → get_elem? cs k ≡ some c
    → (p ≤ c.phys_addr) × (c.phys_addr + c.size ≤ q)
Tiles-get_elem? p q k [] c t e = absurd (ground arith)
Tiles-get_elem? p q zero (d ∷ cs) c t e = ground (arith, Tiles-le (p + d.size) q cs t.1)
Tiles-get_elem? p q (suc k) (d ∷ cs) c t e =
    let (lo, hi) = Tiles-get_elem? (p + d.size) q k cs c t.1 e in (omega arith, hi)

Tiles-order :
    (p q j k : ℕ) (cs : List Chunk) (c d : Chunk)
    → Tiles p cs q
    → j < k
    → get_elem? cs j ≡ some c
    → get_elem? cs k ≡ some d
    → c.phys_addr + c.size ≤ d.phys_addr
Tiles-order p q j k [] c d t lt e g = absurd (ground arith)
Tiles-order p q j zero (b ∷ cs) c d t lt e g = absurd (omega arith)
Tiles-order p q zero (suc k) (b ∷ cs) c d t lt e g =
    ground (arith, Tiles-get_elem? (p + b.size) q k cs d t.1 g)
Tiles-order p q (suc j) (suc k) (b ∷ cs) c d t lt e g =
    Tiles-order (p + b.size) q j k cs c d t.1 (omega arith) e g

-- A pointer into a mapped chunk translates to the same offset in the chunk's physical memory, if
-- the device is open and the chunks tile the memory from `p` to `q` within 32 bits.
pub ve_virt2phys-IsMapped :
    (ve : Ve) (f p q ptr k : ℕ) (c : Chunk)
    → ve.fd ≡ some f
    → q ≤ 2 ^ 32
    → Tiles p ve.chunks q
    → IsMapped ve.chunks ptr k c
    → ve_virt2phys ve ptr ≡ c.phys_addr + (ptr - c.virt_addr)
unfolding ve_virt2phys
ve_virt2phys-IsMapped ve f p q ptr k c opened b t m =
    let hi = (Tiles-get_elem? p q k ve.chunks c t m.found).1 in
    rw (opened, ve_virt2phys)
      (translate-IsMapped ve.chunks ptr k c m.found m.inside m.first (omega arith))

-- If the device is open and the chunks tile the memory from `p` to `q` within 32 bits, two pointers
-- into mapped chunks with one physical address are the same pointer.
pub ve_virt2phys-injective :
    (ve : Ve) (f p q x y j k : ℕ) (c d : Chunk)
    → ve.fd ≡ some f
    → q ≤ 2 ^ 32
    → Tiles p ve.chunks q
    → IsMapped ve.chunks x j c
    → IsMapped ve.chunks y k d
    → ve_virt2phys ve x ≡ ve_virt2phys ve y
    → x ≡ y
ve_virt2phys-injective ve f p q x y j k c d opened b t m n e = elim (dec_lt j k) [
  | yes before ↦
      absurd (omega (arith, at_x, at_y, Tiles-order p q j k ve.chunks c d t before m.found n.found))
  | no not_before ↦ elim (dec_lt k j) [
    | yes after ↦
        absurd
          (omega (arith, at_x, at_y, Tiles-order p q k j ve.chunks d c t after n.found m.found))
    | no not_after ↦ same (omega arith)
  ]
]
  where
    at_x : ve_virt2phys ve x ≡ c.phys_addr + (x - c.virt_addr)
    at_x = ve_virt2phys-IsMapped ve f p q x j c opened b t m

    at_y : ve_virt2phys ve y ≡ d.phys_addr + (y - d.virt_addr)
    at_y = ve_virt2phys-IsMapped ve f p q y k d opened b t n

    same : j ≡ k → x ≡ y
    same h =
        let one : c ≡ d = ground (arith, m.found, n.found) in
        let phys : c.phys_addr ≡ d.phys_addr = ground arith in
        let virt : c.virt_addr ≡ d.virt_addr = ground arith in
        omega (arith, at_x, at_y, phys, virt, e, m.inside, n.inside)

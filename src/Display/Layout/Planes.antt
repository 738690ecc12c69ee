-- ===== src/Display/Layout/Planes.antt =====
-- The sizes and places of the planes of a frame buffer, and their colours.
use native.Mathlib.Nat.{mod-eq_of_lt, mul-le-mul}
use mathlib.Core.Option.{some-injective}
use camview_opipc.Base.{
  Option-cases, ltb, ◌-◌, ℕ, ◌+◌, ◌*◌, ◌/◌, ◌%◌, ◌^◌, ◌≤◌, ◌<◌, ◌≡◌, refl, sym, some, if◌then◌else◌,
  arith, ◌⊎◌, inl, inr,
}
use camview_opipc.Decode.Frame.{round_up}
use camview_opipc.Display.Layout.{
  u32, clear, bump, Divisors, divisors, Layout, layout_for, layout, memset, painted,
}

mod_two : (q : ℕ) → (q % 2 ≡ 0) ⊎ (q % 2 ≡ 1)
mod_two q = ground arith

-- Where the sum fits 32 bits, adding a bit and clearing it rounds nothing: it gives the number or
-- the number plus the bit.
pub bump-cases : (bit x : ℕ) → x + bit < 2 ^ 32 → (bump bit x ≡ x + bit) ⊎ (bump bit x ≡ x)
unfolding bump clear
bump-cases bit x lt =
    let small : (x + bit) % 2 ^ 32 ≡ x + bit = mod-eq_of_lt lt in
    elim (mod_two ((x + bit) / bit)) [
      | inl e ↦ inl (rw (small, e) (omega arith))
      | inr e ↦ inr (rw (small, e) (omega arith))
    ]

pub bump-le : (bit x : ℕ) → x + bit < 2 ^ 32 → (x ≤ bump bit x) × (bump bit x ≤ x + bit)
bump-le bit x lt = elim (bump-cases bit x lt) [
  | inl e ↦ rw e ((omega arith), (omega arith))
  | inr e ↦ rw e ((omega arith), (omega arith))
]

u32-small : (x : ℕ) → x < 2 ^ 32 → u32 x ≡ x
u32-small x lt = mod-eq_of_lt lt

-- A number whose bit 5 is clear stays as it is.
bump-low : (x : ℕ) → x % 64 < 32 → x + 32 < 2 ^ 32 → bump 32 x ≡ x
unfolding bump clear
bump-low x low lt =
    let small : (x + 32) % 2 ^ 32 ≡ x + 32 = mod-eq_of_lt lt in
    let odd : (x + 32) / 32 % 2 ≡ 1 = omega arith in rw (small, odd) (omega arith)

layout_for-u_offset :
    (page w h : ℕ) (by : Divisors)
    → w % 64 < 32
    → h % 64 < 32
    → w ≤ 8192
    → h ≤ 8192
    → page ≤ 65536
    → (layout_for page by w h).u_offset ≤ w * h + page
unfolding layout_for
layout_for-u_offset page w h by wl hl wb hb pg =
    let top : w * h ≤ 8192 * 8192 = mul-le-mul {n₂ = 8192} {m₂ = 8192} wb hb in
    let small : u32 (w * h) ≡ w * h = u32-small (w * h) (omega arith) in
    rw (bump-low w wl (omega arith), bump-low h hl (omega arith))
      (let (u1, u2) = bump-le page (u32 (w * h)) (rw small (omega arith)) in
        omega (arith, u2, small))

-- For a format that the code knows, a page of at most 65536 bytes, and a width and a height of at most
-- 8192 whose bit 5 is clear, the width no multiple of 32: if the bytes that the decoder adds to the
-- rows, `32 - width % 32` to each, are more than a page in all, the luma plane as the decoder writes
-- it, with rows of a multiple of 32 bytes, reaches into the U plane as `init_display` places it.
pub layout-overlaps :
    (page w h format : ℕ) (l : Layout)
    → layout page w h format ≡ some l
    → w % 64 < 32
    → h % 64 < 32
    → w ≤ 8192
    → h ≤ 8192
    → page ≤ 65536
    → 0 < w % 32
    → page < (32 - w % 32) * h
    → l.u_offset < round_up 32 w * h
unfolding layout
layout-overlaps page w h format l e wl hl wb hb pg part more =
    elim (Option-cases (divisors format)) [
      | inl none_known ↦ absurd (cc (rw (none_known, layout) at e))
      | inr (by, known) ↦
          let same : l ≡ layout_for page by w h =
            sym (some-injective (layout_for page by w h) l (rw (known, layout) at e)) in
          let stride : round_up 32 w ≡ w + (32 - w % 32) = omega arith in
          let bound = layout_for-u_offset page w h by wl hl wb hb pg in
          rw (same, stride) (grind (arith, bound))
    ]

-- Where `width + 32` fits 32 bits, `(width + 32) & ~32` leaves the remainder by 32 as it is: the
-- width is not rounded to a multiple of 32.
pub bump-mod : (width : ℕ) → width + 32 < 2 ^ 32 → bump 32 width % 32 ≡ width % 32
bump-mod width lt = elim (bump-cases 32 width lt) [ inl e ↦ rw e (omega arith) | inr e ↦ rw e refl ]

-- The colour of the byte at `i`: that of the plane it is in, luma between and behind the planes.
abbrev pub colour_at : (y u v old : ℕ) → Layout → ℕ → ℕ
colour_at y u v old l i =
    if ltb i l.u_offset
    then y
    else if ltb i (l.u_offset + l.u_size)
    then u
    else if ltb i l.v_offset
    then y
    else if ltb i (l.v_offset + l.v_size)
    then v
    else if ltb i l.buffer_size
    then y
    else old

-- Where the U plane ends before the V plane and that inside the buffer, each byte of a new buffer
-- has the colour of the plane that it is in, and no byte behind the buffer is written.
pub painted-planes :
    (y u v : ℕ)
    → (l : Layout) → (map : ℕ → ℕ) → l.u_offset + l.u_size ≤ l.v_offset
    → l.v_offset + l.v_size ≤ l.buffer_size
    → (i : ℕ) → painted y u v l map i ≡ colour_at y u v (map i) l i
unfolding painted memset
painted-planes y u v l map a b i = ground arith

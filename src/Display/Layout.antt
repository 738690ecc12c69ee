-- ===== src/Display/Layout.antt =====
-- `init_display` of src/display.c: how a frame buffer is divided into its planes and painted.
-- `page` is `sysconf(_SC_PAGESIZE)`. The width and height are not negative; `uint32_t` arithmetic
-- is modulo 2 ^ 32.
pub mod Planes
mod Tests
use camview_opipc.Base.{
  ℕ, ◌+◌, ◌-◌, ◌*◌, ◌/◌, ◌%◌, ◌^◌, Bool, true, false, ◌&&◌, Option, none, some, ◌==◌, if◌then◌else◌,
  ltb, leb,
}

abbrev pub u32 : ℕ → ℕ
u32 n = n % 2 ^ 32

-- `x & ~bit` for a power of two: only that bit is cleared.
unfoldable pub clear : ℕ → ℕ → ℕ
clear bit x = x - (x / bit % 2) * bit

-- `(x + bit) & ~bit`
unfoldable pub bump : ℕ → ℕ → ℕ
unfolding clear
bump bit x = clear bit (u32 (x + bit))

-- What the `format` decides: `subsampling_divisor` and `chroma_pitches_divisor`.
pub record Divisors : Type 0 where
  pub subsampling : ℕ
  pub pitches : ℕ

-- An unknown format leaves the divisors unset, which is undefined behaviour.
unfoldable pub divisors : ℕ → Option Divisors
divisors format =
    if format == 0x22
    then some (record { subsampling = 4; pitches = 2 })
    else if format == 0x21
    then some (record { subsampling = 2; pitches = 2 })
    else if format == 0x11
    then some (record { subsampling = 1; pitches = 1 })
    else none

pub record Layout : Type 0 where
  pub u_offset : ℕ
  pub u_size : ℕ
  pub v_offset : ℕ
  pub v_size : ℕ
  pub buffer_size : ℕ
  pub pitch : ℕ
  pub chroma_pitch : ℕ
  pub src_width : ℕ
  pub src_height : ℕ

module _ (page : ℕ) where
  unfoldable pub layout_for : Divisors → ℕ → ℕ → Layout
  unfolding bump
  layout_for by width height =
      let w_aligned = bump 32 width in
      let h_aligned = bump 32 height in
      let u_offset = bump page (u32 (w_aligned * h_aligned)) in
      let u_size = bump page (u_offset / by.subsampling) in
      let v_offset = u32 (u_offset + u_size) in
      record {
        u_offset = u_offset;
        u_size = u_size;
        v_offset = v_offset;
        v_size = u_size;
        buffer_size = bump page (u32 (v_offset + u_size));
        pitch = width;
        chroma_pitch = width / by.pitches;
        src_width = u32 (width * 2 ^ 16);
        src_height = u32 (height * 2 ^ 16);
      }

  unfoldable pub layout : ℕ → ℕ → ℕ → Option Layout
  unfolding divisors layout_for
  layout width height format = elim (divisors format) [
    | none ↦ none
    | some by ↦ some (layout_for by width height)
  ]

-- `memset(map + from, value, size)` on the bytes of a mapping.
unfoldable pub memset : ℕ → ℕ → ℕ → (ℕ → ℕ) → ℕ → ℕ
memset from value size map i = if leb from i && ltb i (from + size) then value else map i

-- The three calls on the mapping of a new buffer.
unfoldable pub painted : (y u v : ℕ) → Layout → (ℕ → ℕ) → ℕ → ℕ
unfolding memset
painted y u v l map =
    memset l.v_offset v l.v_size (memset l.u_offset u l.u_size (memset 0 y l.buffer_size map))

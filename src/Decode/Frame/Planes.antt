-- ===== src/Decode/Frame/Planes.antt =====
-- The addresses that the decoder writes to.
use camview_opipc.Base.{
  ℕ, ◌+◌, ◌-◌, ◌^◌, ◌≤◌, ◌<◌, ◌≡◌, refl, false, ◌==◌, if◌then◌else◌, arith, Bool-cases, inl, inr,
}
use native.Mathlib.Nat.{mod-eq_of_lt}
use camview_opipc.Decode.{u32}
use camview_opipc.Decode.Frame.{planes, dma_phy, init_outputs, get_buffer, skips}

-- The address that the kernel has for the buffer that `get_buffer` takes for `write_buffer`.
abbrev pub vaddr_of : (write_buffer vaddr1 vaddr2 vaddr3 : ℕ) → ℕ
vaddr_of n vaddr1 vaddr2 vaddr3 = if n == 2 then vaddr2 else if n == 3 then vaddr3 else vaddr1

get_buffer-init_outputs :
    (n vaddr1 vaddr2 vaddr3 u v : ℕ)
    → get_buffer n (init_outputs vaddr1 vaddr2 vaddr3 u v)
      ≡ planes (dma_phy (vaddr_of n vaddr1 vaddr2 vaddr3)) u v
unfolding get_buffer init_outputs
get_buffer-init_outputs n vaddr1 vaddr2 vaddr3 u v = elim (Bool-cases (n == 2)) [
  | inl e ↦ rw e refl
  | inr e ↦ elim (Bool-cases (n == 3)) [ inl f ↦ rw (e, f) refl | inr f ↦ rw (e, f) refl ]
]

dma_phy-eq :
    (vaddr : ℕ) → 0xc000_0000 ≤ vaddr → vaddr < 2 ^ 32 → dma_phy vaddr ≡ vaddr - 0xc000_0000
dma_phy-eq vaddr lo hi = omega arith

skips-planes :
    (base u v : ℕ) → 0 < base → u < v → base + v < 2 ^ 31 → skips (planes base u v) ≡ false
unfolding skips
skips-planes base u v b l w =
    let du : u32 (base + u) ≡ base + u = mod-eq_of_lt (omega arith) in
    let dv : u32 (base + v) ≡ base + v = mod-eq_of_lt (omega arith) in
    let off : u32 (base + v + 2 ^ 32 - (base + u)) ≡ v - u = omega arith in
    rw (du, dv, off) (ground arith)

-- For a buffer whose kernel address is above 0xc0000000 and whose V plane starts below 4 GB, with
-- the U plane before the V plane, the decoder does not skip the frame, whichever buffer it is, and
-- the planes start at the buffer's physical address, the kernel's less 0xc0000000, and at the two
-- offsets from it.
pub get_buffer-planes :
    (n vaddr1 vaddr2 vaddr3 u v : ℕ)
    → 0xc000_0000 < vaddr_of n vaddr1 vaddr2 vaddr3
    → u < v
    → vaddr_of n vaddr1 vaddr2 vaddr3 + v < 2 ^ 32
    → (skips (get_buffer n (init_outputs vaddr1 vaddr2 vaddr3 u v)) ≡ false)
      × (get_buffer n (init_outputs vaddr1 vaddr2 vaddr3 u v) ≡ (
          let phy = vaddr_of n vaddr1 vaddr2 vaddr3 - 0xc000_0000 in
          record { luma = phy; chroma_u = phy + u; chroma_v = phy + v }))
get_buffer-planes n vaddr1 vaddr2 vaddr3 u v lo l hi =
    let vaddr = vaddr_of n vaddr1 vaddr2 vaddr3 in
    let phy : dma_phy vaddr ≡ vaddr - 0xc000_0000 = dma_phy-eq vaddr (omega arith) (omega arith) in
    let du : u32 (vaddr - 0xc000_0000 + u) ≡ vaddr - 0xc000_0000 + u = mod-eq_of_lt (omega arith) in
    let dv : u32 (vaddr - 0xc000_0000 + v) ≡ vaddr - 0xc000_0000 + v = mod-eq_of_lt (omega arith) in
    rw (get_buffer-init_outputs n vaddr1 vaddr2 vaddr3 u v, phy)
      (skips-planes (vaddr - 0xc000_0000) u v (omega arith) l (omega arith), rw (du, dv) refl)

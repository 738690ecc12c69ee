-- ===== src/Memory/Tests.antt =====
-- Runs of Memory on a page map whose bytes are all 3, read one byte at a time.
use camview_opipc.Base.{ℕ, ◌+◌, ◌*◌, ◌^◌, ◌%◌, ◌≡◌, refl, false, some, [], ◌∷◌, arith}
use camview_opipc.Memory.{Pread, virt_to_phys_user}
use camview_opipc.Memory.Reads.{ReadsFrom, range}

abbrev threes : ℕ → ℕ
threes at = 3

abbrev one_by_one : Pread
one_by_one len offset = some (3 ∷ [])

one_by_one-ReadsFrom : ReadsFrom threes one_by_one
unfolding range
one_by_one-ReadsFrom len at lt = (1, omega arith, omega arith, refl)

runs :
    virt_to_phys_user 4096 (some one_by_one) 8195
    ≡ (some (217020518514230019 % 2 ^ 55 * 4096 + 3), false)
unfolding virt_to_phys_user
runs = refl

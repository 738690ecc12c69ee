-- ===== src/Ve/Blocks/Tests.antt =====
-- Calls of `ve_malloc` and `ve_free` of src/ve.c on a small memory.
use camview_opipc.Base.{refl, true, false, some, List, [], ◌∷◌, arith}
use camview_opipc.Ve.{Ve, Mmap, ve_malloc, ve_free}
use camview_opipc.Ve.Session.{Op, mallocs, frees, apply, apply_all}
use camview_opipc.Ve.Blocks.{blocks}
use camview_opipc.Ve.Blocks.Count.{at_count}
use camview_opipc.Ve.Blocks.Refine.{Run, AllFresh, AllFailFor, results, IsReady, apply_all-Run}

abbrev small : Ve
small = record {
  fd = some 3;
  chunks = record { phys_addr = 0x8000; size = 0x10000; virt_addr = 0 } ∷ [];
}

abbrev by_offset : Mmap
by_offset size write offset = offset

abbrev ops : List Op
ops =
    mallocs by_offset 5000 true
    ∷ mallocs by_offset 100 false
    ∷ frees 0xc0008000
    ∷ frees 0
    ∷ mallocs by_offset 0x20000 true
    ∷ []

small-IsReady : IsReady 3 small
unfolding at_count
small-IsReady = record { opened = refl; one = λ ptr used. ground arith }

small-AllFresh : AllFresh ops small
unfolding apply ve_malloc ve_free
small-AllFresh = (
  (λ _. (omega arith, tt)),
  (
    (λ _. (omega arith, (omega arith, tt))),
    (tt, (tt, ((λ zero_used. absurd (zero_used refl)), tt))),
  ),
)

apply_all-Run_example :
    Run ops (results ops small) (blocks small) (blocks (apply_all ops small))
    × AllFailFor ops small
    × IsReady 3 (apply_all ops small)
apply_all-Run_example = apply_all-Run 3 ops small small-IsReady small-AllFresh

-- ===== src/Util/Tests.antt =====
-- Runs of the code of cort_util.h, and its theorems at concrete containers.
use mathlib.Core.List.{Perm}
use cort_proto.Prelude.{ℕ, ◌+◌, ◌≡◌, arith, List, [], ◌∷◌}
use cort_proto.Util.PodPool.{PodPool}
use cort_proto.Util.PodPool
use cort_proto.Util.PodPool.Laws.{push_back_lem, pop_back_lem, pop_at_lem}
use cort_proto.Util.PodPool.Laws
use cort_proto.Util.PodQueue.{PodQueue, contents}
use cort_proto.Util.PodQueue.Index.{IsValid}
use cort_proto.Util.PodQueue.Run.{Op, put, get, run, run_list, run_refines}

-- 12, 13 and 10, round the end of the block
abbrev wrapped : PodQueue ℕ
wrapped = record { ptr = λ i. i + 10; the_size = 3; the_capacity = 4; the_begin = 2 }

abbrev full : PodQueue ℕ
full = record wrapped { the_size = 4 }

abbrev script : List (Op ℕ)
script = get ∷ put 7 ∷ get ∷ get ∷ get ∷ get ∷ []

wrapped-IsValid : IsValid wrapped
wrapped-IsValid = omega arith

full-IsValid : IsValid full
full-IsValid = omega arith

run_refines_example : run wrapped script ≡ run_list (contents wrapped) script
run_refines_example = run_refines script wrapped-IsValid (omega arith) (omega arith)

-- 5, 6 and 7, with no room for more
abbrev pool : PodPool ℕ
pool = record { ptr = λ i. i + 5; the_size = 3; the_capacity = 3 }

pool-IsValid : Laws.IsValid pool
pool-IsValid = omega arith

pop_at_lem_example :
    Perm (PodPool.contents pool) (6 ∷ PodPool.contents (PodPool.pop_at pool 1))
    × Laws.IsValid (PodPool.pop_at pool 1)
pop_at_lem_example = pop_at_lem 1 pool-IsValid (omega arith)

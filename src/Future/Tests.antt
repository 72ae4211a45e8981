-- ===== src/Future/Tests.antt =====
-- A future that three coroutines wait for, with one reference to it.
use cort_proto.Prelude.{◌≡◌, arith, [], ◌∷◌, some, if◌then◌else◌, ◌==◌}
use cort_proto.Future.{Future, alive, returned, resume}
use cort_proto.Future.Waking.{resume_tells, set_free}

-- The coroutine 7 as the parent, 8 and 9 in the list.
abbrev awaited : Future
awaited = record {
  parent = 7;
  wait_count = 1;
  parent_list = record { ptr = λ i. if i == 0 then 8 else 9; the_size = 2; the_capacity = 4 };
  ref_count = 1;
  life = alive;
}

resume_tells_example :
    resume (λ p s. (s.0, p ∷ s.1)) 5 (awaited, [])
    ≡ some ((set_free awaited, 7 ∷ 8 ∷ 9 ∷ 7 ∷ []), returned)
resume_tells_example =
    resume_tells (λ p log. p ∷ log) 5 awaited [] (omega arith) (omega arith) (omega arith)

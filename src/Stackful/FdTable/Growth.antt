-- ===== src/Stackful/FdTable/Growth.antt =====
-- When `wait_fd` writes outside its block.
use cort_proto.Prelude.{
  ℕ, ◌+◌, ◌<◌, ◌≡◌, arith, Bool-cases, true, false, ◌||◌, leb, ◌==◌, inl, inr, or-true, or-false,
}
use cort_proto.Stackful.FdTable.{FdTable, wait_fd, is_full, enlarge, append, put, put_fd}

-- `enlarge` writes behind its block.
overrun-enlarge : (t : FdTable) → (enlarge t).overrun ≡ true
unfolding enlarge put put_fd
overrun-enlarge t =
    let e : leb (t.reserved_count + 5) (t.reserved_count + 5) ≡ true = ground arith in
    rw (e, or-true)

-- Another file is written inside the block if the block has a free entry, and outside it if the entry
-- behind the last one marks the end.
pub overrun-wait_fd :
    (fd : ℕ) (t : FdTable)
    → t.reserved_count < t.allocated
    → (wait_fd fd t).0.overrun ≡ (t.overrun || is_full t)
unfolding wait_fd append put
overrun-wait_fd fd t room =
    let e : (t.allocated == 0) ≡ false = ground arith in
    let inside : leb t.allocated t.reserved_count ≡ false = ground arith in
    elim (Bool-cases (is_full t)) [
      | inl f ↦ rw (e, f, overrun-enlarge t, or-true)
      | inr f ↦ rw (e, f, inside, or-false t.overrun)
    ]

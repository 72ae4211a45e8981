-- ===== src/Util/PodPool.antt =====
-- cort_util.h, `cort_pod_pool`: a growing array of plain elements.
-- `ptr` is the allocated block, `malloc` and `realloc` succeed and keep what the block held.
-- `size_type` is a 64-bit `size_t`.
use cort_proto.Prelude.{
  ℕ, ◌+◌, ◌*◌, ◌/◌, ◌%◌, ◌^◌, ◌≤◌, ◌<◌, Bool, List, if◌then◌else◌, ltb, ◌==◌, update, tabulate,
}
use cort_proto.Prelude.Words.{add64, sub64}
pub mod Laws

pub record PodPool {ℓ} (A : Type ℓ) : Type ℓ where
  pub ptr : ℕ → A
  pub the_size : ℕ
  pub the_capacity : ℕ

module _ {ℓ} {A : Type ℓ} where
  -- The constructor, over a block of memory.
  pub create : (ℕ → A) → ℕ → PodPool A
  create block init_capacity = record { ptr = block; the_size = 0; the_capacity = init_capacity }

  unfoldable pub empty : PodPool A → Bool
  empty q = q.the_size == 0

  pub back : PodPool A → A
  back q = q.ptr (sub64 q.the_size 1)

  -- The element that it returns, and the pool.
  unfoldable pub pop_back : PodPool A → A × PodPool A
  pop_back q =
      let rest = record q { the_size = sub64 q.the_size 1 } in (q.ptr (sub64 q.the_size 1), rest)

  -- The capacity after the test for room in `push_back`.
  grown : PodPool A → ℕ
  grown q =
      if q.the_size == q.the_capacity
      then (if ltb q.the_size 1024
          then (q.the_capacity * 2) % 2 ^ 64
          else add64 q.the_capacity (q.the_capacity / 2))
      else q.the_capacity

  unfoldable pub push_back : PodPool A → A → PodPool A
  unfolding grown
  push_back q arg = record {
    ptr = update q.ptr q.the_size arg;
    the_size = add64 q.the_size 1;
    the_capacity = grown q;
  }

  pub pop_at : PodPool A → ℕ → PodPool A
  pop_at q pos = record q {
    ptr = update q.ptr pos (q.ptr (sub64 q.the_size 1));
    the_size = sub64 q.the_size 1;
  }

  pub pop_front : PodPool A → PodPool A
  pop_front q = record q {
    ptr = update q.ptr 0 (q.ptr (sub64 q.the_size 1));
    the_size = sub64 q.the_size 1;
  }

  -- The elements in the pool, in the order of the block.
  abbrev pub contents : PodPool A → List A
  contents q = tabulate q.the_size q.ptr

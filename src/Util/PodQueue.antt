-- ===== src/Util/PodQueue.antt =====
-- cort_util.h, `cort_pod_queue`: a growing ring of plain elements.
-- `ptr` is the allocated block, `malloc` and `realloc` succeed and keep what the block held; a cell
-- never written has the value that the memory had. `size_type` is a 64-bit `size_t`.
pub mod Index
pub mod Refine
pub mod Display
pub mod Run
use Prim.Native.Nat.{bit_and}
use cort_proto.Prelude.{
  ℕ, zero, suc, ◌+◌, ◌-◌, ◌/◌, ◌%◌, ◌^◌, Bool, List, [], ◌∷◌, ◌++◌, if◌then◌else◌, ltb, ◌==◌,
  update, copy, tabulate,
}
use cort_proto.Prelude.Words.{add64, sub64}

pub record PodQueue {ℓ} (A : Type ℓ) : Type ℓ where
  pub ptr : ℕ → A
  pub the_size : ℕ
  pub the_capacity : ℕ
  pub the_begin : ℕ

-- The macro CORT_MOD: `i -= (the_capacity & (-((the_capacity - i - 1) >> 63)))`.
pub cort_mod : ℕ → ℕ → ℕ
cort_mod capacity i = sub64 i (bit_and capacity (sub64 0 (sub64 (sub64 capacity i) 1 / 2 ^ 63)))

-- What `display` writes: an element, the separator, or the end of the line.
pub data Piece {ℓ} (A : Type ℓ) : Type ℓ where
  item : A → Piece A
  sep : Piece A
  eol : Piece A

module _ {ℓ} {A : Type ℓ} where
  -- The constructor, over a block of memory.
  pub create : (ℕ → A) → ℕ → PodQueue A
  create block capacity = record {
    ptr = block;
    the_size = 0;
    the_capacity = capacity;
    the_begin = 0;
  }

  pub empty : PodQueue A → Bool
  empty q = q.the_size == 0

  -- `operator[]`
  pub at : PodQueue A → ℕ → A
  at q offset = q.ptr (cort_mod q.the_capacity (add64 q.the_begin offset))

  pub front : PodQueue A → A
  front q = q.ptr q.the_begin

  pub pop : PodQueue A → PodQueue A
  pop q = record q {
    the_size = sub64 q.the_size 1;
    the_begin = cort_mod q.the_capacity (add64 q.the_begin 1);
  }

  -- The reallocation in `push`: the part at the end of the block moves to its new end, or the part
  -- at the start of the block moves behind the old end.
  grow : PodQueue A → PodQueue A
  grow q =
      let capacity_delta = q.the_capacity / 2 in
      if ltb capacity_delta q.the_begin
      then record q {
        ptr = copy q.ptr (capacity_delta + q.the_begin) q.the_begin (q.the_capacity - q.the_begin);
        the_begin = add64 q.the_begin capacity_delta;
        the_capacity = add64 q.the_capacity capacity_delta;
      }
      else record q {
        ptr = copy q.ptr q.the_capacity 0 q.the_begin;
        the_capacity = add64 q.the_capacity capacity_delta;
      }

  -- The store behind the last element.
  put : PodQueue A → A → PodQueue A
  put q arg = record q {
    ptr = update q.ptr (cort_mod q.the_capacity (add64 q.the_begin q.the_size)) arg;
    the_size = add64 q.the_size 1;
  }

  pub push : PodQueue A → A → PodQueue A
  unfolding grow put
  push q arg = put (if q.the_size == q.the_capacity then grow q else q) arg

  -- The loop of `display`, with `left` rounds to go and the counter at `size`.
  display_from : PodQueue A → ℕ → ℕ → List (Piece A)
  display_from q zero size = []
  display_from q (suc left) size =
      let rest = display_from q left (size + 1) in
      item (q.ptr ((q.the_begin + (size + 1)) % q.the_capacity))
      ∷ (if ltb (size + 1) q.the_size then sep ∷ rest else rest)

  pub display : PodQueue A → List (Piece A)
  unfolding display_from
  display q = display_from q q.the_size 0 ++ (eol ∷ [])

  -- The elements in the queue, oldest first.
  abbrev pub contents : PodQueue A → List A
  contents q = tabulate q.the_size (at q)

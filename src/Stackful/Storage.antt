-- ===== src/Stackful/Storage.antt =====
-- stackful/cort_stackful.cpp and .h, `cort_stackful::get_local_storage` and `co_local`: the variables that
-- each coroutine has a copy of. A variable has a place in the block of a coroutine, and a version that
-- tells it from the variables that had the place before. Sizes are below 2 ^ 64.
pub mod Variables
use Prim.Native.Nat.{bit_and}
use cort_proto.Prelude.{
  ℕ, ◌+◌, ◌-◌, Bool, true, false, ◌&&◌, Option, none, some, if◌then◌else◌, ltb, leb, ◌==◌, update,
}

-- `cort_stackful_local_storage_meta`
pub record Meta : Type 0 where
  pub offset : ℕ
  pub version : ℕ

-- `cort_stackful_local_storage_data`
pub record Data : Type 0 where
  pub value : ℕ
  pub version : ℕ

-- The block `cort_stackful_local_storage`: what its first entry says, 0 where there is no block, and the
-- others, `none` where the pointer is null.
pub record Storage : Type 0 where
  pub capacity : ℕ
  pub cells : ℕ → Option Data

-- The constructor, over the memory of the block.
pub create : (ℕ → Option Data) → Storage
create memory = record { capacity = 0; cells = memory }

-- `(n + 8 - 1) & ~(8 - 1)`
unfoldable pub round_up : ℕ → ℕ
round_up n = n + 7 - bit_and (n + 7) 7

-- Null pointers from `from` on, up to the capacity.
unfoldable pub cleared : ℕ → ℕ → (ℕ → Option Data) → ℕ → Option Data
cleared from to cells i = if leb from i && ltb i to then none else cells i

-- A block with room for the variable.
unfoldable pub with_room : ℕ → Storage → Storage
unfolding round_up cleared
with_room need_capacity s =
    let capacity = round_up need_capacity in
    if s.capacity == 0
    then record { capacity = capacity; cells = cleared 0 capacity s.cells }
    else (if ltb s.capacity need_capacity
        then record { capacity = capacity; cells = cleared s.capacity capacity s.cells }
        else s)

-- The variable's data, with the first value unless it has some of this version.
unfoldable pub refreshed : Meta → ℕ → Option Data → Data
refreshed m init_value none = record { value = init_value; version = m.version }
refreshed m init_value (some d) =
    if d.version == m.version then d else record { value = init_value; version = m.version }

-- The block, and the data that the pointer leads to.
unfoldable pub get_local_storage : Meta → ℕ → Storage → Storage × Data
unfolding with_room refreshed
get_local_storage m init_value s =
    let s' = with_room (m.offset + 1) s in
    let d = refreshed m init_value (s'.cells m.offset) in
    (record s' { cells = update s'.cells m.offset (some d) }, d)

-- A `co_local`: its place, and its first value.
pub record CoLocal : Type 0 where
  pub meta : Meta
  pub init_value : ℕ

-- `operator T&`, as a value.
unfoldable pub get : CoLocal → Storage → Storage × ℕ
unfolding get_local_storage
get x s = let (s', d) = get_local_storage x.meta x.init_value s in (s', d.value)

-- `operator =`
unfoldable pub assign : CoLocal → ℕ → Storage → Storage
unfolding get_local_storage
assign x v s =
    let (s', d) = get_local_storage x.meta x.init_value s in
    record s' { cells = update s'.cells x.meta.offset (some (record d { value = v })) }

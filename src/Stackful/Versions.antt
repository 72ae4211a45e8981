-- ===== src/Stackful/Versions.antt =====
-- stackful/cort_stackful.cpp: the places of the variables that each coroutine has a copy of, which are
-- given out by `cort_stackful_local_storage_register`. An `int32_t` is a 32-bit word. The first entry of
-- the list is its size. A write past the end of the block is kept in the list and sets `overrun`.
pub mod Growth
use Prim.Native.Nat.{bit_and}
use cort_proto.Prelude.{
  ℕ, zero, suc, ◌+◌, ◌-◌, ◌^◌, ◌%◌, Bool, true, false, ◌&&◌, ◌||◌, if◌then◌else◌, leb, ltb, ◌==◌,
  update,
}
use cort_proto.Prelude.Words.{add32, sub32}
use cort_proto.Net.RecvBuffer.{signed_lt}
use cort_proto.Stackful.Storage.{Meta}

pub record Versions : Type 0 where
  -- `cort_stackful_local_version_list`
  pub version_list : ℕ → ℕ
  -- the number of entries of the block; 0 where there is none
  pub allocated : ℕ
  pub local_count : ℕ
  pub local_last_index : ℕ
  pub overrun : Bool

abbrev pub coroutine_version_list_delta : ℕ
coroutine_version_list_delta = 32

-- Zeros from `from` on, `count` of them.
abbrev pub zeros : ℕ → ℕ → (ℕ → ℕ) → ℕ → ℕ
zeros from count list i = if leb from i && ltb i (from + count) then 0 else list i

-- The first block.
unfoldable pub first_list : Versions → Versions
first_list v = record v {
  version_list = update (zeros 0 32 v.version_list) 0 coroutine_version_list_delta;
  allocated = coroutine_version_list_delta;
  local_last_index = 1;
}

-- A larger block.
unfoldable pub larger_list : Versions → Versions
larger_list v =
    let size = v.local_last_index + coroutine_version_list_delta in
    let cleared = zeros v.local_last_index coroutine_version_list_delta v.version_list in
    record v {
      version_list = update cleared 0 (add32 (cleared 0) coroutine_version_list_delta);
      allocated = size;
    }

unfoldable pub init_cort_stackful_local_version_list : Versions → Versions
unfolding first_list larger_list
init_cort_stackful_local_version_list v =
    if v.allocated == 0
    then first_list v
    else (if v.version_list 0 == v.local_last_index then larger_list v else v)

-- The loop of `cort_stackful_local_storage_register`, for at most `count` turns.
unfoldable pub next_index : ℕ → ℕ → (ℕ → ℕ) → ℕ
next_index zero last_index list = last_index
next_index (suc count) last_index list =
    let next = add32 last_index 1 in
    if signed_lt next (list 0) && signed_lt 0 (list next) then next_index count next list else next

-- `((-current_ver) & 0x7fffffff) + 1`
unfoldable pub next_version : ℕ → ℕ
next_version current_ver = add32 (bit_and (sub32 0 current_ver) (2 ^ 31 - 1)) 1

-- A variable's place and version. The loop ends after at most as many turns as the list has entries.
unfoldable pub cort_stackful_local_storage_register : Versions → Versions × Meta
unfolding init_cort_stackful_local_version_list next_index next_version
cort_stackful_local_storage_register v =
    let v' = init_cort_stackful_local_version_list v in
    let last_index = v'.local_last_index in
    let version = next_version (v'.version_list last_index) in
    let list = update v'.version_list last_index version in
    (
      record {
        version_list = list;
        allocated = v'.allocated;
        local_count = add32 v'.local_count 1;
        local_last_index = next_index (list 0 + 1) last_index list;
        overrun = v'.overrun || leb v'.allocated last_index;
      },
      record { offset = last_index; version = version },
    )

unfoldable pub cort_stackful_local_storage_unregister : Meta → Versions → Versions
cort_stackful_local_storage_unregister m v =
    let list = update v.version_list m.offset (sub32 0 (v.version_list m.offset)) in
    let count = sub32 v.local_count 1 in
    record v {
      version_list = if signed_lt m.offset (list 0) then update list 0 m.offset else list;
      local_count = count;
      allocated = if count == 0 then 0 else v.allocated;
    }

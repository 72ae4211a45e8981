-- ===== src/Stackful/Tests.antt =====
-- A coroutine with a table of two files, in a world where reads are interrupted and would block, and the
-- theorems at it.
mod Hooks
use cort_proto.Prelude.{
  ℕ, zero, suc, ◌+◌, ◌-◌, ◌^◌, ◌<◌, ◌≤◌, ◌%◌, ◌≡◌, ◌≢◌, refl, arith, Bool, true, false, Option,
  none, some, ◌||◌, ◌==◌, if◌then◌else◌, update,
}
use cort_proto.Prelude.Words.{sub32}
use cort_proto.Stackful.FdTable.{FdInfo, FdTable, minus_one, wait_fd, remove_fd, is_full, plain}
use cort_proto.Stackful.FdTable.Map.{info_of, IsMap}
use cort_proto.Stackful.FdTable.Map.Update.{info_of-remove_fd}
use cort_proto.Stackful.FdTable.Growth.{overrun-wait_fd}
use cort_proto.Stackful.Storage.{Meta, Storage, CoLocal, get, assign}
use cort_proto.Stackful.Storage.Variables.{get-assign}
use cort_proto.Stackful.Versions.{
  Versions, cort_stackful_local_storage_register, cort_stackful_local_storage_unregister,
}
use cort_proto.Stackful.Versions.Growth.{IsFull, overrun-unregister}

-- Files 7, with a timeout, and 8; the end of the block is at 5.
abbrev pub table : FdTable
table = record {
  fds_array = λ i.
      if i == 0
      then record { fd = 7; read_timeout = 50; write_timeout = 0; other_info = 0 }
      else (if i == 1 then plain 8 else (if i == 5 then plain minus_one else plain 0));
  allocated = 6;
  reserved_count = 2;
  overrun = false;
}

pub table-IsMap : IsMap table
table-IsMap = record {
  null = λ e. absurd (omega (arith, e));
  word = omega arith;
  distinct = λ i j l h e. ground (arith, e);
}

info_of-remove_fd_example :
    IsMap (remove_fd 7 table)
    × ((q : ℕ) → info_of q (remove_fd 7 table) ≡ (if q == 7 then none else info_of q table))
info_of-remove_fd_example = info_of-remove_fd 7 table table-IsMap

-- With five files the block is full.
abbrev full_table : FdTable
full_table = record table {
  fds_array = λ i. if i == 5 then plain minus_one else plain (i + 7);
  reserved_count = 5;
}

overrun-wait_fd_example :
    (wait_fd 20 full_table).0.overrun ≡ (full_table.overrun || is_full full_table)
overrun-wait_fd_example = overrun-wait_fd 20 full_table (omega arith)

full_table_overrun : (wait_fd 20 full_table).0.overrun ≡ true
full_table_overrun = overrun-wait_fd 20 full_table (omega arith)

-- Two variables, in places 3 and 4, of a coroutine with no block yet.
abbrev variable : ℕ → CoLocal
variable i = record { meta = record { offset = i; version = 1 }; init_value = 10 }

abbrev no_block : Storage
no_block = record { capacity = 0; cells = λ _. none }

get-assign_example :
    (get (variable 3) (assign (variable 3) 99 no_block)).1
    ≡ (if 3 == 3 then (if 1 == 1 then 99 else 10) else (get (variable 3) no_block).1)
get-assign_example = get-assign (variable 3) (variable 3) 99 no_block

-- The first block of versions, with 31 variables.
abbrev all_used : Versions
all_used = record {
  version_list = λ i. if i == 0 then 32 else 1;
  allocated = 32;
  local_count = 31;
  local_last_index = 32;
  overrun = false;
}

abbrev third : Meta
third = record { offset = 3; version = 1 }

all_used-IsFull : IsFull all_used
all_used-IsFull = record { some_block = omega arith; small = omega arith; size = refl; last = refl }

overrun-unregister_example :
    ((cort_stackful_local_storage_register all_used).0.overrun ≡ false)
    × ((cort_stackful_local_storage_register
          (cort_stackful_local_storage_unregister third all_used)).0.overrun
        ≡ true)
overrun-unregister_example =
    overrun-unregister third all_used all_used-IsFull (omega arith) (omega arith) (omega arith)

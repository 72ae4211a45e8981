-- ===== src/Stackful/FdTable.antt =====
-- stackful/cort_stackful_fds_waiter.h: `cort_hook_fd_info`, and the table of the open files of a
-- coroutine in `cort_stackful_fds_waiter`. `reserved_count` has 16 bits.
-- A block of `malloc` or `realloc` holds what the memory behind it held. A write past the end of the
-- block is kept in the array and sets `overrun`. A pointer to an entry is its index.
pub mod Map
pub mod Growth
use cort_proto.Prelude.{
  ℕ, zero, suc, ◌+◌, ◌-◌, ◌%◌, ◌^◌, Bool, true, false, ◌||◌, Option, none, some, leb, ◌==◌,
  if◌then◌else◌, update,
}
use cort_proto.Prelude.Words.{sub64}

pub record FdInfo : Type 0 where
  pub fd : ℕ
  pub read_timeout : ℕ
  pub write_timeout : ℕ
  pub other_info : ℕ

pub record FdTable : Type 0 where
  pub fds_array : ℕ → FdInfo
  -- the number of entries of the block; 0 where the pointer is null
  pub allocated : ℕ
  pub reserved_count : ℕ
  pub overrun : Bool

-- the `int` -1, which marks the end of a block
abbrev pub minus_one : ℕ
minus_one = 2 ^ 32 - 1

-- `fds_array[i] = info`
unfoldable pub put : ℕ → FdInfo → FdTable → FdTable
put i info t = record t {
  fds_array = update t.fds_array i info;
  overrun = t.overrun || leb t.allocated i;
}

-- `fds_array[i].fd = fd`
unfoldable pub put_fd : ℕ → ℕ → FdTable → FdTable
unfolding put
put_fd i fd t = put i (record (t.fds_array i) { fd = fd }) t

-- The entry of a file that has no timeouts.
abbrev pub plain : ℕ → FdInfo
plain fd = record { fd = fd; read_timeout = 0; write_timeout = 0; other_info = 0 }

-- The constructor, over the memory of the block.
pub create : (ℕ → FdInfo) → FdTable
create memory = record { fds_array = memory; allocated = 0; reserved_count = 0; overrun = false }

-- The first block.
unfoldable pub first_block : ℕ → FdTable → FdTable
unfolding put put_fd
first_block fd t =
    let t' = put 0 (plain fd) (record t { reserved_count = 1; allocated = 6 }) in
    put_fd 5 minus_one (put_fd 4 0 (put_fd 3 0 (put_fd 2 0 (put_fd 1 0 t'))))

-- `realloc`, and the entries behind the last one.
unfoldable pub enlarge : FdTable → FdTable
unfolding put_fd
enlarge t =
    let n = t.reserved_count in
    let t' = record t { allocated = n + 5 } in
    put_fd (n + 5) minus_one
      (put_fd (n + 4) 0 (put_fd (n + 3) 0 (put_fd (n + 2) 0 (put_fd (n + 1) 0 t'))))

-- `fds_array[reserved_count].fd == -1`
abbrev pub is_full : FdTable → Bool
is_full t = (t.fds_array t.reserved_count).fd == minus_one

unfoldable pub append : ℕ → FdTable → FdTable
unfolding put
append fd t = record (put t.reserved_count (plain fd) t) {
  reserved_count = (t.reserved_count + 1) % 2 ^ 16;
}

-- The table, and the entry that it returns.
unfoldable pub wait_fd : ℕ → FdTable → FdTable × ℕ
unfolding first_block enlarge append
wait_fd fd t =
    let t' =
      if t.allocated == 0
      then first_block fd t
      else append fd (if is_full t then enlarge t else t) in
    (t', sub64 t'.reserved_count 1)

-- The loop from `i` on, over `k` entries.
unfoldable pub find_from : ℕ → ℕ → ℕ → FdTable → Option ℕ
find_from zero i fd t = none
find_from (suc k) i fd t = if (t.fds_array i).fd == fd then some i else find_from k (i + 1) fd t

unfoldable pub find_fd_waiter : ℕ → FdTable → Option ℕ
unfolding find_from
find_fd_waiter fd t = find_from t.reserved_count 0 fd t

-- `--reserved_count`, and the last entry takes the place of that at `i`.
unfoldable pub drop_at : ℕ → FdTable → FdTable
unfolding put
drop_at i t =
    let last = (t.reserved_count + 2 ^ 16 - 1) % 2 ^ 16 in
    let t' = record t { reserved_count = last } in
    if i == last then t' else put i (t.fds_array last) t'

unfoldable pub remove_from : ℕ → ℕ → ℕ → FdTable → FdTable
unfolding drop_at
remove_from zero i fd t = t
remove_from (suc k) i fd t =
    if (t.fds_array i).fd == fd then drop_at i t else remove_from k (i + 1) fd t

unfoldable pub remove_fd : ℕ → FdTable → FdTable
unfolding remove_from
remove_fd fd t = remove_from t.reserved_count 0 fd t

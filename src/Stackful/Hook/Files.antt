-- ===== src/Stackful/Hook/Files.antt =====
-- stackful/cort_stackful_fds_waiter.cpp: the calls that open, copy and close files, and set what they do,
-- for Linux. The coroutine of the thread is its table, `none` where there is none; what a call gives is
-- that of the system call.
pub mod Opened
use Prim.Native.Nat.{bit_or}
use cort_proto.Prelude.{
  ℕ, ◌+◌, ◌-◌, ◌*◌, ◌/◌, ◌%◌, ◌^◌, Bool, true, false, not, ◌&&◌, ◌||◌, Option, none, some,
  if◌then◌else◌, ltb, ◌==◌, update,
}
use cort_proto.Prelude.Words.{add64}
use cort_proto.Net.Connection.{SysResult, done, failed}
use cort_proto.Stackful.FdTable.{FdInfo, FdTable, wait_fd, remove_fd, find_fd_waiter, is_full, put}
use cort_proto.Stackful.Hook.{HookWaiter, hooked}
use cort_proto.Stackful.Hook.Io.{io_loop}
use cort_proto.Net.{epollin}

abbrev pub o_nonblock : ℕ
o_nonblock = 0x800

-- SOCK_NONBLOCK
abbrev pub sock_nonblock : ℕ
sock_nonblock = 0x800

abbrev pub fionbio : ℕ
fionbio = 0x5421

abbrev pub f_dupfd : ℕ
f_dupfd = 0

abbrev pub f_setfl : ℕ
f_setfl = 4

abbrev pub f_dupfd_cloexec : ℕ
f_dupfd_cloexec = 1030

-- The table where the thread has one.
abbrev pub on_table : (FdTable → FdTable) → Option FdTable → Option FdTable
on_table f none = none
on_table f (some t) = some (f t)

abbrev pub is_positive : SysResult → Bool
is_positive (done n) = ltb 0 n
is_positive (failed e) = false

unfoldable pub register : ℕ → FdTable → FdTable
unfolding wait_fd
register fd t = (wait_fd fd t).0

-- What an opening call leaves: its file is registered unless it is 0.
unfoldable pub register_result : SysResult → Option FdTable → Option FdTable
unfolding register
register_result (done fd) waiter = on_table (λ t. if ltb 0 fd then register fd t else t) waiter
register_result (failed e) waiter = waiter

-- `info_n = wait_fd(fd_result); *info_n = *fd_info; info_n->fd = fd_result`, where `fd_info` is the
-- pointer to the entry at `i`. When the block is enlarged, it may move: `stale` is what the pointer to
-- the old block then reads.
unfoldable pub copy_entry : FdInfo → ℕ → ℕ → FdTable → FdTable
unfolding wait_fd put
copy_entry stale i fd_result t =
    let (t', n) = wait_fd fd_result t in
    let read = if not (t.allocated == 0) && is_full t then stale else t'.fds_array i in
    put n (record read { fd = fd_result }) t'

-- The same, for the file `fd`, if it has an entry.
unfoldable pub copy_known : FdInfo → ℕ → ℕ → FdTable → FdTable
unfolding find_fd_waiter copy_entry
copy_known stale fd fd_result t = elim (find_fd_waiter fd t) [
  | none ↦ t
  | some i ↦ copy_entry stale i fd_result t
]

unfoldable pub copy_result : FdInfo → ℕ → SysResult → Option FdTable → Option FdTable
unfolding copy_known
copy_result stale fd (done fd_result) waiter = on_table (copy_known stale fd fd_result) waiter
copy_result stale fd (failed e) waiter = waiter

-- `dup2` and `dup3` leave a result that has an entry.
unfoldable pub copy_new : FdInfo → ℕ → ℕ → FdTable → FdTable
unfolding copy_known find_fd_waiter
copy_new stale fd fd_result t = elim (find_fd_waiter fd_result t) [
  | none ↦ copy_known stale fd fd_result t
  | some i ↦ t
]

unfoldable pub copy_new_result : FdInfo → ℕ → SysResult → Option FdTable → Option FdTable
unfolding copy_new
copy_new_result stale fd (done fd_result) waiter = on_table (copy_new stale fd fd_result) waiter
copy_new_result stale fd (failed e) waiter = waiter

module _ {W : Type 0} where
  -- `socket domain type protocol` is the system call.
  unfoldable pub cort_hooked_socket :
      (ℕ → ℕ → ℕ → W → W × SysResult)
      → ℕ
      → ℕ
      → ℕ
      → Option FdTable × W
      → (Option FdTable × W) × SysResult
  unfolding register_result
  cort_hooked_socket socket domain type protocol (waiter, w) =
      let (w', fd) = socket domain (bit_or type sock_nonblock) protocol w in
      ((register_result fd waiter, w'), fd)

  unfoldable pub cort_hooked_dup :
      FdInfo → (ℕ → W → W × SysResult) → ℕ → Option FdTable × W → (Option FdTable × W) × SysResult
  unfolding copy_result
  cort_hooked_dup stale dup fd (waiter, w) =
      let (w', fd_result) = dup fd w in ((copy_result stale fd fd_result waiter, w'), fd_result)

  -- `dup2`, or `dup3` with its flags.
  unfoldable pub cort_hooked_dup2 :
      FdInfo
      → (ℕ → ℕ → W → W × SysResult)
      → ℕ
      → ℕ
      → Option FdTable × W
      → (Option FdTable × W) × SysResult
  unfolding copy_new_result
  cort_hooked_dup2 stale dup2 fd newfd (waiter, w) =
      let (w', fd_result) = dup2 fd newfd w in
      ((copy_new_result stale fd fd_result waiter, w'), fd_result)

  -- `ioctl fd cmd arg`; `one` is a pointer to 1.
  unfoldable pub cort_hooked_ioctl :
      (ℕ → ℕ → ℕ → W → W × SysResult) → ℕ → ℕ → ℕ → ℕ → Option FdTable → W → W × SysResult
  unfolding hooked
  cort_hooked_ioctl ioctl one fd cmd arg waiter w = elim (hooked fd waiter) [
    | none ↦ ioctl fd cmd arg w
    | some fd_info ↦ ioctl fd cmd (if cmd == fionbio then one else arg) w
  ]

  -- `fcntl fd cmd arg`
  unfoldable pub cort_hooked_fcntl :
      FdInfo
      → (ℕ → ℕ → ℕ → W → W × SysResult)
      → ℕ
      → ℕ
      → ℕ
      → Option FdTable × W
      → (Option FdTable × W) × SysResult
  unfolding hooked copy_result
  cort_hooked_fcntl stale fcntl fd cmd arg (waiter, w) =
      let (w', result) = fcntl fd cmd arg w in
      let (w'', result'') = fcntl fd cmd (bit_or arg o_nonblock) w in
      elim (hooked fd waiter) [
        | none ↦ ((waiter, w'), result)
        | some fd_info ↦
            if cmd == f_setfl
            then ((waiter, w''), result'')
            else (if (cmd == f_dupfd) || (cmd == f_dupfd_cloexec)
                then (
                  (if is_positive result then copy_result stale fd result waiter else waiter, w'),
                  result,
                )
                else ((waiter, w'), result))
      ]

  unfoldable pub cort_hooked_close :
      (ℕ → W → W × SysResult) → ℕ → Option FdTable × W → (Option FdTable × W) × SysResult
  unfolding remove_fd
  cort_hooked_close close fd (waiter, w) =
      let (w', result) = close fd w in ((on_table (remove_fd fd) waiter, w'), result)

  -- `accept4 fd flags` is the system call. The loop is that of the other calls.
  unfoldable pub cort_hooked_accept4 :
      HookWaiter W
      → (ℕ → ℕ → W → W × SysResult)
      → ℕ
      → ℕ
      → ℕ
      → Option FdTable × W
      → Option ((Option FdTable × W) × SysResult)
  unfolding hooked io_loop register
  cort_hooked_accept4 h accept4 fuel fd flags (waiter, w) = elim (hooked fd waiter) [
    | none ↦ let (w', result) = accept4 fd flags w in some ((waiter, w'), result)
    | some fd_info ↦
        elim (io_loop h (accept4 fd (bit_or flags sock_nonblock)) fuel fd epollin
          fd_info.read_timeout w) [
            | none ↦ none
            | some (w', result) ↦
                some (
                  (if is_positive result then on_table (register fd) waiter else waiter, w'),
                  result,
                )
          ]
  ]

  pub cort_hooked_accept :
      HookWaiter W
      → (ℕ → ℕ → W → W × SysResult)
      → ℕ
      → ℕ
      → Option FdTable × W
      → Option ((Option FdTable × W) × SysResult)
  unfolding cort_hooked_accept4
  cort_hooked_accept h accept4 fuel fd s = cort_hooked_accept4 h accept4 fuel fd 0 s

-- The two options for a timeout, SO_RCVTIMEO and SO_SNDTIMEO of SOL_SOCKET, and the others.
pub data Optname : Type 0 where
  so_rcvtimeo : Optname
  so_sndtimeo : Optname
  other : Optname

-- `(uint32_t)(tv_sec * 1000 + tv_usec/10000)`
unfoldable pub max_time : ℕ → ℕ → ℕ
max_time tv_sec tv_usec = add64 (tv_sec * 1000) (tv_usec / 10000) % 2 ^ 32

-- The timeout of the entry at `i`.
unfoldable pub set_entry_timeout : Optname → ℕ → ℕ → FdTable → FdTable
set_entry_timeout so_rcvtimeo time i t = record t {
  fds_array = update t.fds_array i (record (t.fds_array i) { read_timeout = time });
}
set_entry_timeout so_sndtimeo time i t = record t {
  fds_array = update t.fds_array i (record (t.fds_array i) { write_timeout = time });
}
set_entry_timeout other time i t = t

-- The table after a call that sets a timeout itself, and `none` where `setsockopt` is called.
unfoldable pub cort_hooked_setsockopt : ℕ → Optname → ℕ → ℕ → Option FdTable → Option FdTable
unfolding find_fd_waiter set_entry_timeout max_time
cort_hooked_setsockopt fd other tv_sec tv_usec waiter = none
cort_hooked_setsockopt fd optname tv_sec tv_usec none = none
cort_hooked_setsockopt fd optname tv_sec tv_usec (some t) = elim (find_fd_waiter fd t) [
  | none ↦ none
  | some i ↦ some (set_entry_timeout optname (max_time tv_sec tv_usec) i t)
]

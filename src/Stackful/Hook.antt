-- ===== src/Stackful/Hook.antt =====
-- stackful/cort_stackful_fds_waiter.cpp and cort_stackful.h: what a replaced system call does with its
-- coroutine, which is a waiter on a file with a table of its open files. The system calls themselves
-- are parameters. The coroutine of the thread is `none` where the thread runs no such coroutine.
-- An `int` is a 32-bit word; EAGAIN and EWOULDBLOCK are one number.
pub mod Io
pub mod Connect
pub mod Files
pub mod Sleep
pub mod Events
pub mod Poll
pub mod Select
pub mod Waiting
use cort_proto.Prelude.{
  ℕ, ◌+◌, ◌-◌, ◌^◌, ◌≡◌, Bool, true, false, not, ◌&&◌, Option, none, some, if◌then◌else◌, ◌==◌,
}
use cort_proto.Net.Connection.{FileWaiter, SysResult, minus_one}
use cort_proto.Stackful.FdTable.{FdInfo, FdTable, find_fd_waiter}

-- The coroutine in a world: the waiter's operations, and those of a coroutine with a stack.
-- `stackless_resume` runs the rest of the program until this coroutine is resumed;
-- `set_current_thread_cort true` names this coroutine as that of the thread, `false` names none.
pub record HookWaiter (W : Type 0) : Type 0 where
  pub file : FileWaiter W
  pub is_set_timeout : W → Bool
  pub get_timeout_time : W → ℕ
  pub cort_timer_now_ms_refresh : W → W × ℕ
  pub remove_cort_fd : W → W
  pub stackless_resume : W → W
  pub set_current_thread_cort : Bool → W → W
  -- `await(new cort_sleeper(sleep_time))`, and whether it is to be waited for
  pub await_sleeper : ℕ → W → W × Bool
  pub cort_fd-remove : (w : W) → file.cort_fd (remove_cort_fd w) ≡ minus_one

module _ {W : Type 0} (h : HookWaiter W) where
  pub before_stackful_start : W → W
  before_stackful_start w = h.set_current_thread_cort true w

  unfoldable pub after_stackful_resume : W → W
  after_stackful_resume w = h.set_current_thread_cort true w

  unfoldable pub before_stackless_resume : W → W
  before_stackless_resume w = h.set_current_thread_cort false w

  unfoldable pub cort_stackful_yield : W → W
  unfolding after_stackful_resume before_stackless_resume
  cort_stackful_yield w = after_stackful_resume (h.stackless_resume (before_stackless_resume w))

  -- The start of a wait: a timeout, unless there is none to set or one is set already. Whether it has
  -- been set.
  unfoldable pub set_new_timeout : Bool → ℕ → W → W × Bool
  set_new_timeout wanted timeout w =
      if wanted && not (h.is_set_timeout w)
      then (h.file.set_timeout timeout w, true)
      else (w, false)

  unfoldable pub clear_new_timeout : Bool → W → W
  clear_new_timeout new_timeout w = if new_timeout then h.file.clear_timeout w else w

  -- The wait for events of a file, until the coroutine is resumed.
  unfoldable pub wait_events : ℕ → ℕ → W → W
  unfolding cort_stackful_yield
  wait_events fd events w =
      cort_stackful_yield (h.file.set_poll_request events (h.file.set_cort_fd fd w))

-- The entry of a file, where the thread runs a coroutine that knows the file.
unfoldable pub hooked : ℕ → Option FdTable → Option FdInfo
unfolding find_fd_waiter
hooked fd none = none
hooked fd (some t) = elim (find_fd_waiter fd t) [ none ↦ none | some i ↦ some (t.fds_array i) ]

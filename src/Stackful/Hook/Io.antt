-- ===== src/Stackful/Hook/Io.antt =====
-- stackful/cort_stackful_fds_waiter.cpp: CO_IO_HOOK_TEMPLATE, and the calls that it makes, from
-- `cort_hooked_read` to `cort_hooked_sendmsg`. The loop of `cort_hooked_accept4` is the same.
pub mod Blocking
use cort_proto.Prelude.{
  ℕ, zero, suc, Bool, true, false, not, Option, none, some, if◌then◌else◌, ◌==◌,
}
use cort_proto.Net.{epollin, epollout}
use cort_proto.Net.Send.{eintr, eagain}
use cort_proto.Net.Connection.{SysResult, done, failed}
use cort_proto.Stackful.FdTable.{FdInfo, FdTable}
use cort_proto.Stackful.Hook.{HookWaiter, set_new_timeout, clear_new_timeout, wait_events, hooked}

-- What one turn of the loop comes to.
pub data Turn (W : Type 0) : Type 0 where
  stop : W → SysResult → Turn W
  next : W → Turn W

module _ {W : Type 0} (h : HookWaiter W) where
  -- The operation would block.
  unfoldable pub block : ℕ → ℕ → ℕ → W → Turn W
  unfolding set_new_timeout clear_new_timeout wait_events
  block fd pollevent timeout w =
      let (w1, new_timeout) = set_new_timeout h (not (timeout == 0)) timeout w in
      let w2 = h.remove_cort_fd (wait_events h fd pollevent w1) in
      if h.file.is_timeout_or_stopped w
      then stop w (failed eagain)
      else (if h.file.is_timeout_or_stopped w2
          then stop w2 (failed eagain)
          else next (clear_new_timeout h new_timeout w2))

  module _ (io_operation : W → W × SysResult) where
    unfoldable pub turn : ℕ → ℕ → ℕ → W → Turn W
    unfolding block
    turn fd pollevent timeout w =
        let (w', result) = io_operation w in
        elim result [
          | done n ↦ stop w' (done n)
          | failed errno ↦
              (if errno == eagain
                then block fd pollevent timeout w'
                else (if errno == eintr then next w' else stop w' (failed errno)))
        ]

    -- The loop, with fuel for its turns: `none` if it runs out.
    unfoldable pub io_loop : ℕ → ℕ → ℕ → ℕ → W → Option (W × SysResult)
    unfolding turn
    io_loop zero fd pollevent timeout w = none
    io_loop (suc fuel) fd pollevent timeout w = elim (turn fd pollevent timeout w) [
      | stop w' result ↦ some (w', result)
      | next w' ↦ io_loop fuel fd pollevent timeout w'
    ]

    -- CO_IO_HOOK_TEMPLATE, with the choice of a timeout.
    unfoldable pub io_hook : ℕ → ℕ → ℕ → (FdInfo → ℕ) → Option FdTable → W → Option (W × SysResult)
    unfolding io_loop hooked
    io_hook fuel fd pollevent whattimeout waiter w = elim (hooked fd waiter) [
      | none ↦ some (io_operation w)
      | some fd_info ↦ io_loop fuel fd pollevent (whattimeout fd_info) w
    ]

  -- `read`, or any of `readv`, `recv`, `recvfrom` and `recvmsg`, with its other arguments.
  unfoldable pub cort_hooked_read :
      {A : Type 0}
      → (ℕ → A → W → W × SysResult)
      → ℕ
      → ℕ
      → A
      → Option FdTable
      → W
      → Option (W × SysResult)
  unfolding io_hook
  cort_hooked_read read fuel fd args waiter w =
      io_hook (read fd args) fuel fd epollin (λ (i : FdInfo). i.read_timeout) waiter w

  -- `write`, or any of `writev`, `send`, `sendto` and `sendmsg`, with its other arguments.
  unfoldable pub cort_hooked_write :
      {A : Type 0}
      → (ℕ → A → W → W × SysResult)
      → ℕ
      → ℕ
      → A
      → Option FdTable
      → W
      → Option (W × SysResult)
  unfolding io_hook
  cort_hooked_write write fuel fd args waiter w =
      io_hook (write fd args) fuel fd epollout (λ (i : FdInfo). i.write_timeout) waiter w

-- ===== src/Stackful/Hook/Connect.antt =====
-- stackful/cort_stackful_fds_waiter.cpp, `cort_hooked_connect`. `connect` is the system call with its
-- address; `so_error` reads the error of a socket.
pub mod Outcome
use cort_proto.Prelude.{
  ℕ, zero, suc, Bool, true, false, not, Option, none, some, if◌then◌else◌, ◌==◌,
}
use cort_proto.Net.{has, epollout}
use cort_proto.Net.Send.{eintr, einprogress}
use cort_proto.Net.Connect.{eisconn, connect_poll_request, connect_reject_events}
use cort_proto.Net.Connection.{SysResult, done, failed}
use cort_proto.Stackful.FdTable.{FdInfo, FdTable}
use cort_proto.Stackful.Hook.{HookWaiter, set_new_timeout, clear_new_timeout, wait_events, hooked}

abbrev pub etimedout : ℕ
etimedout = 110

abbrev pub econnrefused : ℕ
econnrefused = 111

module _ {W : Type 0} (h : HookWaiter W) (connect : ℕ → W → W × SysResult)
    (so_error : ℕ → W → W × ℕ) where
  -- What the events of the file tell of the connection.
  unfoldable pub connected : ℕ → ℕ → W → W × SysResult
  connected fd poll_event w =
      let (w', err) = so_error fd w in
      if has connect_reject_events poll_event
      then (w, failed econnrefused)
      else (if has epollout poll_event
          then (w, done 0)
          else (w', failed (if err == 0 then etimedout else err)))

  -- The connection is under way.
  unfoldable pub wait_connection : ℕ → FdInfo → W → W × SysResult
  unfolding connected set_new_timeout clear_new_timeout wait_events
  wait_connection fd fd_info w =
      let timeout = fd_info.write_timeout in
      let (w1, new_timeout) = set_new_timeout h (not (timeout == 0)) timeout w in
      let w2 = wait_events h fd connect_poll_request w1 in
      let w3 = h.remove_cort_fd w2 in
      if h.file.is_timeout_or_stopped w
      then (w, failed etimedout)
      else (if h.file.is_timeout_or_stopped w3
          then (w3, failed etimedout)
          else connected fd (h.file.poll_result w2) (clear_new_timeout h new_timeout w3))

  -- `connect_again`, with fuel for the calls that a signal interrupts: `none` if it runs out.
  unfoldable pub connect_again : ℕ → ℕ → FdInfo → W → Option (W × SysResult)
  unfolding wait_connection
  connect_again zero fd fd_info w = none
  connect_again (suc fuel) fd fd_info w =
      let (w', status) = connect fd w in
      elim status [
        | done n ↦ some (w', done 0)
        | failed errno ↦ elim (errno == eintr) [
          | true ↦ connect_again fuel fd fd_info w'
          | false ↦ some (
              if errno == eisconn
              then (w', done 0)
              else (if errno == einprogress
                  then wait_connection fd fd_info w'
                  else (w', failed errno)))
        ]
      ]

  unfoldable pub cort_hooked_connect : ℕ → ℕ → Option FdTable → W → Option (W × SysResult)
  unfolding connect_again hooked
  cort_hooked_connect fuel fd waiter w = elim (hooked fd waiter) [
    | none ↦ some (connect fd w)
    | some fd_info ↦ connect_again fuel fd fd_info w
  ]

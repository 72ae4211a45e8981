-- ===== src/Net/Send.antt =====
-- net/cort_tcp_ctrler.cpp, `cort_tcp_connection_waiter::try_send`.
-- `send w b n` is the system call on the connected file with the first `n` blocks to be sent: `send` for
-- one block, `writev` for more.
pub mod Stream
use cort_proto.Prelude.{
  ℕ, zero, suc, ◌+◌, ◌-◌, ◌^◌, Bool, true, false, not, ◌&&◌, ◌||◌, List, Option, none, some,
  if◌then◌else◌, ltb, ◌==◌,
}
use cort_proto.Net.{
  has, epollin, epollout, epollerr, epollhup, epollrdhup, socket_state_error,
  socket_remote_canceled, socket_operation_timeout, socket_send_error,
}
use cort_proto.Net.SendBuffer.{SendBuffer, get_free_index, advance}
use cort_proto.Net.Connection.{
  FileWaiter, Ctrler, Next, finished, again, SysResult, done, failed, is_connected, set_errno,
  close_connection, take_timeout,
}

abbrev pub eintr : ℕ
eintr = 4

-- EAGAIN and EWOULDBLOCK
abbrev pub eagain : ℕ
eagain = 11

abbrev pub einprogress : ℕ
einprogress = 115

-- EPOLLOUT | EPOLLIN | EPOLLRDHUP
abbrev pub send_poll_request : ℕ
send_poll_request = 0x2005

-- EPOLLHUP | EPOLLRDHUP | EPOLLERR | EPOLLIN
abbrev pub send_stop_events : ℕ
send_stop_events = 0x2019

-- A connection with its parent, and the addresses freed so far.
pub record Sending (W : Type 0) : Type 0 where
  pub ctrler : Ctrler
  pub world : W
  pub freed : List ℕ

module _ {W : Type 0} (v : FileWaiter W) (send : W → SendBuffer → ℕ → W × SysResult) where
  open v use {poll_request, poll_result, is_timeout_or_stopped, set_poll_request}

  -- The end by an error: `close_connection`, or `set_errno` alone.
  abbrev pub fail : (Ctrler × W → Ctrler × W) → Sending W → Sending W × Next
  fail close s =
      let (c, w) = close (s.ctrler, s.world) in (record s { ctrler = c; world = w }, finished)

  -- `send_again_label`
  pub send_again : Sending W → Sending W × Next
  send_again s = (record s { world = set_poll_request send_poll_request s.world }, again)

  -- What follows a system call that accepted `sent` bytes.
  pub sent_some : ℕ → ℕ → Sending W → Sending W × Next
  unfolding send_again
  sent_some send_last_index sent s =
      let ((b, freed'), all) = advance send_last_index sent (s.ctrler.send_buffer, s.freed) in
      let s' = record s { ctrler = record s.ctrler { send_buffer = b }; freed = freed' } in
      if all then (s', finished) else send_again s'

  -- `send_label`, with fuel for the calls that a signal interrupts: `none` if it runs out.
  pub send_label : ℕ → ℕ → Sending W → Option (Sending W × Next)
  unfolding sent_some send_again close_connection
  send_label zero send_last_index s = none
  send_label (suc fuel) send_last_index s =
      let (w, result) = send s.world s.ctrler.send_buffer send_last_index in
      let s' = record s { world = w } in
      elim result [
        | done sent ↦ some (sent_some send_last_index sent s')
        | failed errno ↦ elim (errno == eintr) [
          | true ↦ send_label fuel send_last_index s'
          | false ↦ some (
              if (errno == eagain) || (errno == einprogress)
              then send_again s'
              else fail (close_connection v socket_send_error) s')
        ]
      ]

  -- The part that sends, if there is something to send.
  pub send_rest : ℕ → Sending W → Option (Sending W × Next)
  unfolding send_label
  send_rest fuel s = elim (get_free_index s.ctrler.send_buffer == 0) [
    | true ↦ some (s, finished)
    | false ↦ send_label fuel (get_free_index s.ctrler.send_buffer) s
  ]

  -- Whether the connection waits until it can send, and has not been told so.
  abbrev pub waits_to_send : W → Bool
  waits_to_send w = has epollout (poll_request w) && not (has epollout (poll_result w))

  pub try_send : ℕ → Sending W → Option (Sending W × Next)
  unfolding send_rest is_connected set_errno close_connection take_timeout
  try_send fuel s =
      let (c, w) = take_timeout v (s.ctrler, s.world) in
      let rest = send_rest fuel (record s { ctrler = c; world = w }) in
      elim (is_connected v s.world) [
        | false ↦ some (fail (set_errno v socket_state_error) s)
        | true ↦ elim (has send_stop_events (poll_result s.world)) [
          | true ↦ some (fail (close_connection v socket_remote_canceled) s)
          | false ↦ elim (is_timeout_or_stopped s.world) [
            | true ↦ some (fail (close_connection v socket_operation_timeout) s)
            | false ↦ elim (waits_to_send s.world) [ true ↦ some (s, again) | false ↦ rest ]
          ]
        ]
      ]

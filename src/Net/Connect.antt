-- ===== src/Net/Connect.antt =====
-- net/cort_tcp_ctrler.cpp, `cort_tcp_connection_waiter::try_connect` and
-- `cort_tcp_ctrler::refresh_socket_option`.
-- The system calls are a record: `socket` opens a file, `set_nonblocking` is the pair of calls of
-- `fcntl`, `connect` connects a file to an address.
pub mod Outcome
use cort_proto.Prelude.{
  ℕ, zero, suc, ◌^◌, ◌-◌, Bool, true, false, not, ◌&&◌, ◌||◌, Option, none, some, if◌then◌else◌,
  ltb, ◌==◌,
}
use cort_proto.Net.{
  has, is_negative, socket_ok, socket_create_error, socket_connect_error, socket_operation_timeout,
  socket_connect_rejected, socket_invalid_connect_address, epollout,
}
use cort_proto.Net.Connection.{
  FileWaiter, Ctrler, SysResult, done, failed, is_connected, set_errno, close_connection,
  take_timeout,
}
use cort_proto.Net.Send.{eintr, einprogress}

abbrev pub eisconn : ℕ
eisconn = 106

abbrev pub eaddrnotavail : ℕ
eaddrnotavail = 99

-- EPOLLOUT | EPOLLIN | EPOLLRDHUP
abbrev pub connect_poll_request : ℕ
connect_poll_request = 0x2005

-- EPOLLHUP | EPOLLRDHUP | EPOLLERR
abbrev pub connect_reject_events : ℕ
connect_reject_events = 0x2018

abbrev pub auto_release_count : ℕ
auto_release_count = 24

-- The calls of `setsockopt`.
pub data SockOpt : Type 0 where
  tcp_nodelay : SockOpt
  so_linger : ℕ → SockOpt
  so_reuseaddr : SockOpt

-- `setsockopt_arg`, three fields of one bit.
pub record SockOptArg : Type 0 where
  pub disable_no_delay : ℕ
  pub enable_close_by_reset : ℕ
  pub enable_reuse_address : ℕ

pub record Sys (W : Type 0) : Type 0 where
  pub socket : W → W × SysResult
  -- whether both calls succeed
  pub set_nonblocking : ℕ → W → W × Bool
  -- with the address and the port
  pub connect : ℕ → ℕ → ℕ → W → W × SysResult
  pub close : ℕ → W → W
  pub set_option : SockOpt → ℕ → W → W
  -- `clear_keep_alive_connection`
  pub clear_keep_alive : ℕ → ℕ → ℕ → ℕ → W → W

-- How a call ends: CO_RETURN, or the CO_YIELD after which the second half runs.
pub data Phase : Type 0 where
  returned : Phase
  yielded : Phase

module _ {W : Type 0} (v : FileWaiter W) (sys : Sys W) where
  pub refresh_socket_option : SockOptArg → W → W
  refresh_socket_option arg w =
      let fd = v.cort_fd w in
      let linger_flag = arg.enable_close_by_reset in
      let w1 = if arg.disable_no_delay == 0 then sys.set_option tcp_nodelay fd w else w in
      let w2 =
        if ltb 0 linger_flag
        then sys.set_option (so_linger (if linger_flag == 1 then 0 else linger_flag)) fd w1
        else w1 in
      let w3 = if arg.enable_reuse_address == 0 then w2 else sys.set_option so_reuseaddr fd w2 in
      if is_connected v w then w3 else w

  abbrev pub State : Type 0
  State = Ctrler × W

  -- `set_errno(err); CO_RETURN`, after the file has been closed if there is one.
  abbrev pub give_up : ℕ → State → State × Phase
  give_up err s = (set_errno v err s, returned)

  -- A connection that fails at once.
  pub connect_failed : ℕ → ℕ → State → State × Phase
  unfolding set_errno
  connect_failed sockfd errno (c, w) =
      let w' =
        if errno == eaddrnotavail
        then sys.clear_keep_alive auto_release_count c.ip_v4 c.port_v4 c.type_key w
        else w in
      give_up socket_connect_error (c, sys.close sockfd w')

  -- The end of the first half: the connection is under way.
  pub connect_later : ℕ → State → State × Phase
  connect_later sockfd (c, w) =
      ((c, v.set_poll_request connect_poll_request (v.set_cort_fd sockfd w)), yielded)

  -- `connect_again`, with fuel for the calls that a signal interrupts: `none` if it runs out.
  pub connect_again : ℕ → SockOptArg → ℕ → State → Option (State × Phase)
  unfolding connect_failed connect_later refresh_socket_option
  connect_again zero arg sockfd s = none
  connect_again (suc fuel) arg sockfd (c, w) =
      let (w', status) = sys.connect sockfd c.ip_v4 c.port_v4 w in
      elim status [
        | done n ↦ some ((c, refresh_socket_option arg (v.set_cort_fd sockfd w')), returned)
        | failed errno ↦ elim (errno == eintr) [
          | true ↦ connect_again fuel arg sockfd (c, w')
          | false ↦ some (
              if errno == eisconn
              then ((c, v.set_cort_fd sockfd w'), returned)
              else (if errno == einprogress
                  then connect_later sockfd (c, w')
                  else connect_failed sockfd errno (c, w')))
        ]
      ]

  -- The new file.
  pub with_socket : ℕ → SockOptArg → ℕ → State → Option (State × Phase)
  unfolding connect_again
  with_socket fuel arg sockfd (c, w) =
      let (w', nonblocking) = sys.set_nonblocking sockfd w in
      elim nonblocking [
        | false ↦ some (give_up socket_create_error (c, sys.close sockfd w'))
        | true ↦ connect_again fuel arg sockfd (c, w')
      ]

  pub open_socket : ℕ → SockOptArg → State → Option (State × Phase)
  unfolding with_socket
  open_socket fuel arg (c, w) =
      let (w', result) = sys.socket w in
      elim result [
        | failed errno ↦ some (give_up socket_create_error (c, w'))
        | done sockfd ↦ with_socket fuel arg sockfd (c, w')
      ]

  -- The first half.
  pub try_connect : ℕ → SockOptArg → State → Option (State × Phase)
  unfolding open_socket is_connected set_errno take_timeout
  try_connect fuel arg (c, w) =
      let rest = open_socket fuel arg (take_timeout v (c, w)) in
      elim (is_connected v w) [
        | true ↦ some ((c, w), returned)
        | false ↦ elim ((c.ip_v4 == 0) || (c.port_v4 == 0)) [
          | true ↦ some (give_up socket_invalid_connect_address (c, w))
          | false ↦ rest
        ]
      ]

  -- The second half, when the coroutine is resumed.
  pub connect_resumed : SockOptArg → State → State
  unfolding close_connection refresh_socket_option
  connect_resumed arg (c, w) =
      if v.is_timeout_or_stopped w
      then close_connection v socket_operation_timeout (c, w)
      else (if has connect_reject_events (v.poll_result w)
          then close_connection v socket_connect_rejected (c, w)
          else (if has epollout (v.poll_result w)
              then (c, refresh_socket_option arg w)
              else close_connection v socket_connect_error (c, w)))

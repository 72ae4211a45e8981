-- ===== src/Net/Listener.antt =====
-- net/cort_tcp_listener.cpp: `cort_tcp_listener`, a waiter on a file that listens.
-- The system calls are a record; `bind` is for a file and a port, and a call that fails says `false`.
pub mod Files
pub mod Accepting
use cort_proto.Prelude.{
  ℕ, zero, suc, ◌^◌, ◌-◌, List, [], ◌∷◌, Bool, true, false, not, ◌&&◌, ◌||◌, Option, none, some,
  if◌then◌else◌, ltb, ◌==◌,
}
use cort_proto.Net.{
  has, is_negative, socket_create_error, socket_connect_rejected, epollin, epollout,
}
use cort_proto.Net.Connection.{FileWaiter, SysResult, done, failed}
use cort_proto.Net.Send.{eintr}

abbrev pub socket_bind_error : ℕ
socket_bind_error = 50

abbrev pub socket_listen_error : ℕ
socket_listen_error = 150

abbrev pub socket_invalid_listen_address : ℕ
socket_invalid_listen_address = 255

abbrev pub max_accept_one_loop : ℕ
max_accept_one_loop = 256

-- The options, fields of one bit.
pub record Listener : Type 0 where
  pub listen_port : ℕ
  pub backlog : ℕ
  pub errnum : ℕ
  pub disable_reuse_address : ℕ
  pub enable_accept_after_recv : ℕ
  pub disable_no_delay : ℕ
  pub enable_close_by_reset : ℕ

-- The calls of `setsockopt`.
pub data ListenOpt : Type 0 where
  so_reuseaddr : ListenOpt
  tcp_defer_accept : ListenOpt
  tcp_nodelay : ListenOpt
  so_linger : ℕ → ListenOpt

pub record ListenSys (W : Type 0) : Type 0 where
  pub socket : W → W × SysResult
  pub set_nonblocking : ℕ → W → W × Bool
  pub set_option : ListenOpt → ℕ → W → W
  pub bind : ℕ → ℕ → W → W × Bool
  pub listen : ℕ → ℕ → W → W × Bool
  pub close : ℕ → W → W
  -- `accept4`
  pub accept : ℕ → W → W × SysResult
  -- `errno`, where the last call has not failed
  pub errno : W → ℕ

-- How a call of the second half of `start` ends.
pub data Phase : Type 0 where
  returned : Phase
  again : Phase
  -- it sleeps, and resumes accepting after that
  sleeps : Phase

-- EMFILE, ENFILE, ENOBUFS and ENOMEM
abbrev pub has_no_room : ℕ → Bool
has_no_room errno = ((errno == 24) || (errno == 23)) || ((errno == 105) || (errno == 12))

module _ {W : Type 0} (v : FileWaiter W) (sys : ListenSys W) where
  abbrev pub State : Type 0
  State = Listener × W

  -- RETURN_ERROR
  abbrev pub return_error : ℕ → State → State × ℕ
  return_error x (l, w) = ((record l { errnum = x }, w), x)

  pub stop_listen : State → State
  stop_listen (l, w) = (l, v.close_cort_fd w)

  pub pause_accept : State → State
  pause_accept (l, w) = (l, v.set_poll_request epollout w)

  pub resume_accept : State → State
  resume_accept (l, w) = (l, v.set_poll_request epollin w)

  pub set_options : ℕ → State → W
  set_options sockfd (l, w) =
      let w' = if l.disable_reuse_address == 0 then sys.set_option so_reuseaddr sockfd w else w in
      if l.enable_accept_after_recv == 0 then w' else sys.set_option tcp_defer_accept sockfd w'

  -- The end of `listen_connect`, for a file that is bound.
  pub listen_bound : ℕ → State → State × ℕ
  listen_bound sockfd (l, w) =
      let l' = if l.backlog == 0 then record l { backlog = 128 } else l in
      let (w', listens) = sys.listen sockfd l'.backlog w in
      if listens
      then ((l', v.set_poll_request epollin (v.set_cort_fd sockfd w')), 0)
      else return_error socket_listen_error (l', sys.close sockfd w')

  pub bind_socket : ℕ → State → State × ℕ
  unfolding set_options listen_bound
  bind_socket sockfd (l, w) =
      let (w', bound) = sys.bind sockfd l.listen_port (set_options sockfd (l, w)) in
      if bound
      then listen_bound sockfd (l, w')
      else return_error socket_bind_error (l, sys.close sockfd w')

  pub with_socket : ℕ → State → State × ℕ
  unfolding bind_socket
  with_socket sockfd (l, w) =
      let (w', nonblocking) = sys.set_nonblocking sockfd w in
      if nonblocking
      then bind_socket sockfd (l, w')
      else return_error socket_create_error (l, sys.close sockfd w')

  pub opened : Listener → W × SysResult → State × ℕ
  unfolding with_socket
  opened l (w, done sockfd) = with_socket sockfd (l, w)
  opened l (w, failed errno) = return_error socket_create_error (l, w)

  -- The state, and what the function returns.
  pub listen_connect : State → State × ℕ
  unfolding opened
  listen_connect (l, w) =
      if l.listen_port == 0
      then return_error socket_invalid_listen_address (l, w)
      else opened l (sys.socket w)

  -- The first half of `start`: whether it waits for connections.
  pub start_first : State → State × Bool
  unfolding listen_connect
  start_first (l, w) =
      let ((l', w'), result) = listen_connect (l, w) in
      if not (is_negative (v.cort_fd w))
      then ((l, w), true)
      else (if result == 0
          then ((l', w'), true)
          else ((record l' { errnum = socket_listen_error }, w'), false))

  -- The options of a connection that was accepted.
  pub set_accepted : Listener → ℕ → W → W
  set_accepted l fd w =
      let flag = l.enable_close_by_reset in
      let w' = if l.disable_no_delay == 0 then sys.set_option tcp_nodelay fd w else w in
      if ltb 0 flag then sys.set_option (so_linger (if flag == 1 then 0 else flag)) fd w' else w'

  -- The first loop from `start_accept`: the connections, the last one first, and `thread_errno`. A file
  -- whose number is 0 ends it as an error does, with the `errno` that there is.
  pub accept_some : ℕ → ℕ → Listener → List ℕ → W → (W × List ℕ) × ℕ
  unfolding set_accepted
  accept_some zero listen_fd l accepted w = ((w, accepted), 0)
  accept_some (suc left) listen_fd l accepted w =
      let (w', result) = sys.accept listen_fd w in
      elim result [
        | done fd ↦ elim (ltb 0 fd) [
          | true ↦ accept_some left listen_fd l (fd ∷ accepted) (set_accepted l fd w')
          | false ↦ ((w', accepted), sys.errno w')
        ]
        | failed errno ↦ ((w', accepted), errno)
      ]

  -- `creator` is the program's `ctrler_creator`.
  module _ (creator : ℕ → ℕ → W → W) where
    -- The second loop.
    pub hand_over : Listener → List ℕ → W → W
    hand_over l [] w = w
    hand_over l (fd ∷ accepted) w =
        hand_over l accepted (creator fd (if l.enable_accept_after_recv == 0 then 0 else epollin) w)

    -- `start_accept`, with fuel for its rounds: `none` if it runs out.
    pub start_accept : ℕ → State → Option (State × Phase)
    unfolding accept_some hand_over pause_accept
    start_accept zero s = none
    start_accept (suc fuel) (l, w) =
        let ((w1, accepted), errno) = accept_some max_accept_one_loop (v.cort_fd w) l [] w in
        let w2 = hand_over l accepted w1 in
        elim ((errno == eintr) || (errno == 0)) [
          | true ↦ start_accept fuel (l, w2)
          | false ↦
              some (if has_no_room errno then (pause_accept (l, w2), sleeps) else ((l, w2), again))
        ]

    -- The second half of `start`.
    pub start_resumed : ℕ → State → Option (State × Phase)
    unfolding start_accept stop_listen
    start_resumed fuel (l, w) = elim (v.is_timeout_or_stopped w) [
      | true ↦ some (stop_listen (record l { errnum = socket_listen_error }, w), returned)
      | false ↦ elim (has epollin (v.poll_result w)) [
        | false ↦ some (stop_listen (record l { errnum = socket_connect_rejected }, w), returned)
        | true ↦ start_accept fuel (l, w)
      ]
    ]

-- ===== src/Net/Recv.antt =====
-- net/cort_tcp_ctrler.cpp, `cort_tcp_connection_waiter::try_recv`.
-- `recv w n` is the system call on the connected file for at most `n` bytes, with the bytes that it
-- writes; `alloc w n` is `malloc` or `realloc` for `n` bytes, with what a new block holds; `recv_check`
-- is the program's function.
pub mod Bounds
use cort_proto.Prelude.{
  ℕ, zero, suc, ◌+◌, ◌-◌, ◌%◌, ◌^◌, Bool, true, false, not, ◌&&◌, ◌||◌, Option, none, some,
  if◌then◌else◌, ltb, leb, ◌==◌,
}
use cort_proto.Prelude.Words.{add32, sub32}
use cort_proto.Net.{
  has, epollin, epollrdhup, socket_state_error, socket_remote_canceled, socket_operation_timeout,
  socket_alloc_memory_error, socket_receive_error, socket_received_check_error,
}
use cort_proto.Net.RecvBuffer.{
  RecvBuffer, realloc_recv_buffer, shrink_to_fit, allocates, shrinks, signed_lt,
  unexpected_data_received, default_init_recv_buffer_size,
}
use cort_proto.Net.Connection.{
  FileWaiter, Ctrler, Next, finished, again, SysResult, done, failed, is_connected, set_errno,
  close_connection, take_timeout,
}
use cort_proto.Net.Send.{eintr, eagain}

-- EPOLLIN | EPOLLRDHUP
abbrev pub recv_poll_request : ℕ
recv_poll_request = 0x2001

-- EPOLLHUP | EPOLLERR
abbrev pub recv_stop_events : ℕ
recv_stop_events = 0x18

-- A connection with its parent.
pub record Receiving (W : Type 0) : Type 0 where
  pub ctrler : Ctrler
  pub world : W

-- What a pass from `recv_label` comes to: the end of the call, or `goto recv_label`.
pub data Turn (W : Type 0) : Type 0 where
  stop : Receiving W → Next → Turn W
  recv_label : Receiving W → Turn W

module _ {W : Type 0} (v : FileWaiter W) (recv : W → ℕ → W × SysResult × (ℕ → ℕ))
    (alloc : W → ℕ → W × ℕ × (ℕ → ℕ)) (recv_check : Receiving W → Receiving W × ℕ) where
  abbrev pub buffer : Receiving W → RecvBuffer
  buffer s = s.ctrler.recv_buffer

  abbrev pub set_buffer : RecvBuffer → Receiving W → Receiving W
  set_buffer b s = record s { ctrler = record s.ctrler { recv_buffer = b } }

  abbrev pub close : ℕ → Receiving W → Receiving W
  close err s =
      let (c, w) = close_connection v err (s.ctrler, s.world) in record { ctrler = c; world = w }

  -- `set_poll_request(recv_poll_request); CO_AGAIN`
  abbrev pub recv_again : Receiving W → Turn W
  recv_again s = stop (record s { world = v.set_poll_request recv_poll_request s.world }) again

  -- The buffer is given `size` bytes.
  pub grow : ℕ → Receiving W → Receiving W
  grow size s =
      let (w, block, junk) = alloc s.world size in
      let w' = if allocates size (buffer s) then w else s.world in
      set_buffer (realloc_recv_buffer block junk size (buffer s)) (record s { world = w' })

  pub shrink : Receiving W → Receiving W
  shrink s =
      let (w, block, junk) = alloc s.world (buffer s).recved_size in
      let w' = if shrinks (buffer s) then w else s.world in
      set_buffer (shrink_to_fit block (buffer s)) (record s { world = w' })

  -- A receive that is complete; the other side may have gone.
  pub complete : ℕ → Receiving W → Turn W
  complete poll_event s = stop (if has epollrdhup poll_event then close 0 s else s) finished

  -- The end of the function: more is to be received.
  pub wait_for_more : ℕ → Receiving W → Turn W
  wait_for_more poll_event s =
      if has epollrdhup poll_event
      then stop (close socket_remote_canceled s) finished
      else recv_again s

  -- The test for a block before that.
  pub wait_with_block : ℕ → Receiving W → Turn W
  unfolding wait_for_more
  wait_with_block poll_event s =
      if (buffer s).recv_buffer == 0
      then stop (close socket_alloc_memory_error s) finished
      else wait_for_more poll_event s

  -- Room for the `to_recved_size` bytes that are to be received in total.
  pub make_room : ℕ → ℕ → Receiving W → Turn W
  unfolding wait_with_block grow
  make_room poll_event to_recved_size s =
      let is_full = (buffer s).recv_buffer_size == (buffer s).recved_size in
      let grown = grow to_recved_size s in
      if signed_lt (buffer s).recv_buffer_size to_recved_size
      then (if is_full
          then (if (buffer grown).recv_buffer == 0
              then wait_with_block poll_event (grow to_recved_size grown)
              else recv_label grown)
          else wait_with_block poll_event grown)
      else wait_with_block poll_event s

  -- The check said 0: it does not know how many bytes there will be.
  pub double_room : ℕ → Receiving W → Turn W
  unfolding wait_with_block grow
  double_room poll_event s =
      let grown = grow (add32 (buffer s).recv_buffer_size (buffer s).recv_buffer_size) s in
      if (buffer s).recv_buffer_size == (buffer s).recved_size
      then (if (buffer grown).recv_buffer == 0
          then stop (close socket_alloc_memory_error grown) finished
          else recv_label grown)
      else wait_with_block poll_event s

  -- What the result of `recv_check` leads to.
  pub judge : ℕ → ℕ → Receiving W → Turn W
  unfolding complete double_room make_room shrink
  judge poll_event to_recved_size s =
      let b = buffer s in
      if to_recved_size == b.recved_size
      then complete poll_event (if b.recv_finished_shrink_needed == 0 then s else shrink s)
      else (if to_recved_size == unexpected_data_received
          then stop (close socket_received_check_error s) finished
          else (if to_recved_size == 0
              then double_room poll_event s
              else (if signed_lt 0 to_recved_size
                  then (if signed_lt b.recved_size to_recved_size
                      then make_room poll_event to_recved_size
                          (set_buffer (record b { recv_check_further_needed = 1 }) s)
                      else complete poll_event s)
                  else make_room poll_event (sub32 0 to_recved_size) s)))

  -- `n` bytes have come, those of `bytes`.
  pub receive : ℕ → (ℕ → ℕ) → Receiving W → Receiving W
  receive n bytes s =
      let b = buffer s in
      let bytes' = λ (i : ℕ).
        if leb b.recved_size i && ltb i (b.recved_size + n)
        then bytes (i - b.recved_size)
        else b.bytes i in
      set_buffer (record b { bytes = bytes'; recved_size = add32 b.recved_size n }) s

  -- The rest of a pass when bytes have come.
  pub received : ℕ → Receiving W → Turn W
  unfolding complete wait_for_more judge
  received poll_event s =
      let (s', to_recved_size) = recv_check s in
      if (buffer s).recv_check_further_needed == 0
      then judge poll_event to_recved_size s'
      else (if (buffer s).recved_size == (buffer s).recv_buffer_size
          then complete poll_event s
          else wait_for_more poll_event s)

  -- One pass from `recv_label`.
  pub recv_turn : ℕ → Receiving W → Turn W
  unfolding receive received
  recv_turn poll_event s =
      let (w, result, bytes) =
        recv s.world (sub32 (buffer s).recv_buffer_size (buffer s).recved_size) in
      let s' = record s { world = w } in
      elim result [
        | done n ↦
            (if n == 0
              then stop (close socket_remote_canceled s') finished
              else received poll_event (receive n bytes s'))
        | failed errno ↦
            (if errno == eintr
              then recv_label s'
              else (if errno == eagain
                  then recv_again s'
                  else stop (close socket_receive_error s') finished))
      ]

  -- The passes, with fuel for them: `none` if it runs out.
  pub recv_loop : ℕ → ℕ → Receiving W → Option (Receiving W × Next)
  unfolding recv_turn
  recv_loop zero poll_event s = none
  recv_loop (suc fuel) poll_event s = elim (recv_turn poll_event s) [
    | stop s' next ↦ some (s', next)
    | recv_label s' ↦ recv_loop fuel poll_event s'
  ]

  -- The first block, if there is none.
  pub recv_first : ℕ → ℕ → Receiving W → Option (Receiving W × Next)
  unfolding recv_loop grow
  recv_first fuel poll_event s =
      let grown = grow default_init_recv_buffer_size s in
      let from_grown = recv_loop fuel poll_event grown in
      let from_s = recv_loop fuel poll_event s in
      if (buffer s).recv_buffer == 0
      then (if (buffer grown).recv_buffer == 0
          then some (close socket_alloc_memory_error grown, finished)
          else from_grown)
      else from_s

  pub try_recv : ℕ → Receiving W → Option (Receiving W × Next)
  unfolding recv_first is_connected set_errno close_connection take_timeout
  try_recv fuel s =
      let poll_event = v.poll_result s.world in
      let (c, w) = set_errno v socket_state_error (s.ctrler, s.world) in
      let (c', w') = take_timeout v (s.ctrler, s.world) in
      let rest = recv_first fuel poll_event (record { ctrler = c'; world = w' }) in
      elim (is_connected v s.world) [
        | false ↦ some (record { ctrler = c; world = w }, finished)
        | true ↦ elim (v.is_timeout_or_stopped s.world) [
          | true ↦ some (close socket_operation_timeout s, finished)
          | false ↦ elim (has recv_stop_events poll_event) [
            | true ↦ some (close socket_remote_canceled s, finished)
            | false ↦ elim (has epollin poll_event) [
              | false ↦
                  some (record s { world = v.set_poll_request recv_poll_request s.world }, again)
              | true ↦ rest
            ]
          ]
        ]
      ]

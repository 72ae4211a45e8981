-- ===== src/Net/Recv/Bounds.antt =====
-- `try_recv` does not write outside its buffer.
use cort_proto.Prelude.{ℕ, ◌^◌, ◌≤◌, ◌<◌, ◌≡◌, arith, true, if◌then◌else◌, ◌==◌, branch_if}
use cort_proto.Prelude.Words.{add32, sub32}
use cort_proto.Net.{has, epollrdhup, socket_remote_canceled, socket_receive_error}
use cort_proto.Net.Send.{eintr, eagain}
use cort_proto.Net.RecvBuffer.{RecvBuffer, realloc_recv_buffer, shrink_to_fit, signed_lt}
use cort_proto.Net.RecvBuffer.Realloc.{IsValid}
use cort_proto.Net.Connection.{FileWaiter, finished, SysResult, done, failed, close_connection}
use cort_proto.Net.Recv.{
  Receiving, Turn, stop, recv_label, grow, complete, wait_for_more, wait_with_block, make_room,
  double_room, judge, receive, received, shrink, recv_turn, close, recv_again,
}

realloc-IsValid :
    (block : ℕ) (junk : ℕ → ℕ) (size : ℕ) (b : RecvBuffer)
    → b.recved_size ≤ size
    → size < 2 ^ 31
    → IsValid (realloc_recv_buffer block junk size b)
unfolding realloc_recv_buffer
realloc-IsValid block junk size b fits small = ground arith

shrink-IsValid : (block : ℕ) (b : RecvBuffer) → IsValid b → IsValid (shrink_to_fit block b)
unfolding shrink_to_fit
shrink-IsValid block b v = ground arith

-- The bytes that a system call wrote.
abbrev pub written : SysResult → ℕ
written (done n) = n
written (failed e) = 0

module _ {W : Type 0} (v : FileWaiter W) (recv : W → ℕ → W × SysResult × (ℕ → ℕ))
    (alloc : W → ℕ → W × ℕ × (ℕ → ℕ)) (recv_check : Receiving W → Receiving W × ℕ) where
  abbrev pub Fits : Receiving W → Type 0
  Fits s = IsValid s.ctrler.recv_buffer

  abbrev pub InBounds : Turn W → Type 0
  InBounds (stop s next) = Fits s
  InBounds (recv_label s) = Fits s

  close-Fits : (err : ℕ) (s : Receiving W) → Fits s → Fits (close v recv alloc recv_check err s)
  unfolding close_connection
  close-Fits err s f = f

  complete-InBounds :
      (e : ℕ) (s : Receiving W) → Fits s → InBounds (complete v recv alloc recv_check e s)
  unfolding complete
  complete-InBounds e s f = branch_if Fits (has epollrdhup e) _ s (λ _. close-Fits 0 s f) (λ _. f)

  wait_for_more-InBounds :
      (e : ℕ) (s : Receiving W) → Fits s → InBounds (wait_for_more v recv alloc recv_check e s)
  unfolding wait_for_more close_connection
  wait_for_more-InBounds e s f = branch_if InBounds (has epollrdhup e) _ _ (λ _. f) (λ _. f)

  wait_with_block-InBounds :
      (e : ℕ) (s : Receiving W) → Fits s → InBounds (wait_with_block v recv alloc recv_check e s)
  unfolding wait_with_block
  wait_with_block-InBounds e s f =
      branch_if InBounds (s.ctrler.recv_buffer.recv_buffer == 0) _ _ (λ _. close-Fits _ s f)
        (λ _. wait_for_more-InBounds e s f)

  grow-Fits :
      (size : ℕ) (s : Receiving W)
      → s.ctrler.recv_buffer.recved_size ≤ size
      → size < 2 ^ 31
      → Fits (grow v recv alloc recv_check size s)
  unfolding grow
  grow-Fits size s fits small = realloc-IsValid _ _ size s.ctrler.recv_buffer fits small

  recved-grow :
      (size : ℕ) (s : Receiving W)
      → (grow v recv alloc recv_check size s).ctrler.recv_buffer.recved_size
        ≡ s.ctrler.recv_buffer.recved_size
  unfolding grow realloc_recv_buffer
  recved-grow size s = ground arith

  make_room-InBounds :
      (e to_recved_size : ℕ) (s : Receiving W)
      → Fits s
      → to_recved_size < 2 ^ 31
      → InBounds (make_room v recv alloc recv_check e to_recved_size s)
  unfolding make_room
  make_room-InBounds e to_recved_size s f small =
      branch_if InBounds (signed_lt b.recv_buffer_size to_recved_size) _
        (wait_with_block v recv alloc recv_check e s)
        (λ more.
          branch_if InBounds (b.recv_buffer_size == b.recved_size) _
            (wait_with_block v recv alloc recv_check e grown)
            (λ _.
              branch_if InBounds (grown.ctrler.recv_buffer.recv_buffer == 0)
                (wait_with_block v recv alloc recv_check e
                  (grow v recv alloc recv_check to_recved_size grown))
                (recv_label grown)
                (λ _. wait_with_block-InBounds e _ (
                  grow-Fits to_recved_size grown (rw (recved-grow to_recved_size s) (fits more))
                    small))
                (λ _. grow-Fits to_recved_size s (fits more) small))
            (λ _. wait_with_block-InBounds e grown (grow-Fits to_recved_size s (fits more) small)))
        (λ _. wait_with_block-InBounds e s f)
    where
      b : RecvBuffer
      b = s.ctrler.recv_buffer

      grown : Receiving W
      grown = grow v recv alloc recv_check to_recved_size s

      fits : signed_lt b.recv_buffer_size to_recved_size ≡ true → b.recved_size ≤ to_recved_size
      fits more = ground arith

  double_room-InBounds :
      (e : ℕ) (s : Receiving W)
      → Fits s
      → s.ctrler.recv_buffer.recv_buffer_size < 2 ^ 30
      → InBounds (double_room v recv alloc recv_check e s)
  unfolding double_room close_connection
  double_room-InBounds e s f small =
      let b = s.ctrler.recv_buffer in
      let twice = add32 b.recv_buffer_size b.recv_buffer_size in
      let grown = grow v recv alloc recv_check twice s in
      let grown_fits : Fits grown = grow-Fits twice s (omega arith) (omega arith) in
      branch_if InBounds (b.recv_buffer_size == b.recved_size) _
        (wait_with_block v recv alloc recv_check e s)
        (λ _.
          branch_if InBounds (grown.ctrler.recv_buffer.recv_buffer == 0) _ (recv_label grown)
            (λ _. grown_fits) (λ _. grown_fits))
        (λ _. wait_with_block-InBounds e s f)

  -- What the program's check may say: it keeps the buffer valid, and does not ask for the double of a
  -- buffer of 2 ^ 30 bytes.
  abbrev pub Checks : Receiving W × ℕ → Type 0
  Checks r =
      Fits r.0 × (r.1 < 2 ^ 32) × (r.1 ≡ 0 → r.0.ctrler.recv_buffer.recv_buffer_size < 2 ^ 30)

  judge-InBounds :
      (e to_recved_size : ℕ) (s : Receiving W)
      → Checks (s, to_recved_size)
      → InBounds (judge v recv alloc recv_check e to_recved_size s)
  unfolding judge close_connection shrink
  judge-InBounds e to_recved_size s (f, word, small) =
      branch_if InBounds (to_recved_size == b.recved_size)
        (complete v recv alloc recv_check e shrunk) _ (λ _. complete-InBounds e shrunk shrunk_fits)
        (λ _.
          branch_if InBounds (to_recved_size == 2 ^ 31) _ _ (λ _. f)
            (λ expected.
              branch_if InBounds (to_recved_size == 0) _ _
                (λ z. double_room-InBounds e s f (small (ground arith)))
                (λ _.
                  branch_if InBounds (signed_lt 0 to_recved_size) _ _
                    (λ positive.
                      branch_if InBounds (signed_lt b.recved_size to_recved_size) _ _
                        (λ _. make_room-InBounds e to_recved_size _ further_fits (ground arith))
                        (λ _. complete-InBounds e s f))
                    (λ negative.
                      make_room-InBounds e (sub32 0 to_recved_size) s f (ground arith)))))
    where
      b : RecvBuffer
      b = s.ctrler.recv_buffer

      shrunk : Receiving W
      shrunk = if b.recv_finished_shrink_needed == 0 then s else shrink v recv alloc recv_check s

      shrunk_fits : Fits shrunk
      shrunk_fits =
          branch_if Fits (b.recv_finished_shrink_needed == 0) s (shrink v recv alloc recv_check s)
            (λ _. f) (λ _. shrink-IsValid _ b f)

      further_fits : IsValid (record b { recv_check_further_needed = 1 })
      further_fits = record { inside = f.inside; small = f.small }

  module _ (checks : (s : Receiving W) → Fits s → Checks (recv_check s))
      (reads : (w : W) (n : ℕ) → written (recv w n).1 ≤ n) where
    received-InBounds :
        (e : ℕ) (s : Receiving W) → Fits s → InBounds (received v recv alloc recv_check e s)
    unfolding received
    received-InBounds e s f =
        branch_if InBounds (s.ctrler.recv_buffer.recv_check_further_needed == 0) _ _
          (λ _. judge-InBounds e (recv_check s).1 (recv_check s).0 (checks s f))
          (λ _.
            branch_if InBounds
              (s.ctrler.recv_buffer.recved_size == s.ctrler.recv_buffer.recv_buffer_size) _ _
              (λ _. complete-InBounds e s f) (λ _. wait_for_more-InBounds e s f))

    receive-Fits :
        (n : ℕ) (bytes : ℕ → ℕ) (s : Receiving W)
        → Fits s
        → n ≤ sub32 s.ctrler.recv_buffer.recv_buffer_size s.ctrler.recv_buffer.recved_size
        → Fits (receive v recv alloc recv_check n bytes s)
    unfolding receive
    receive-Fits n bytes s f h = omega arith

    turn_by_result :
        (e : ℕ) (s : Receiving W) (result : SysResult) (bytes : ℕ → ℕ)
        → Fits s
        → written result
          ≤ sub32 s.ctrler.recv_buffer.recv_buffer_size s.ctrler.recv_buffer.recved_size
        → InBounds (elim result [
          | done n ↦
              (if n == 0
                then stop (close v recv alloc recv_check socket_remote_canceled s) finished
                else received v recv alloc recv_check e (receive v recv alloc recv_check n bytes s))
          | failed errno ↦
              (if errno == eintr
                then recv_label s
                else (if errno == eagain
                    then recv_again v recv alloc recv_check s
                    else stop (close v recv alloc recv_check socket_receive_error s) finished))
        ])
    turn_by_result e s (done n) bytes f h =
        branch_if InBounds (n == 0) _ _ (λ _. close-Fits socket_remote_canceled s f)
          (λ _. received-InBounds e _ (receive-Fits n bytes s f h))
    turn_by_result e s (failed errno) bytes f h =
        branch_if InBounds (errno == eintr) _ _ (λ _. f)
          (λ _.
            branch_if InBounds (errno == eagain) _ _ (λ _. f)
              (λ _. close-Fits socket_receive_error s f))

    -- A pass of `try_recv` keeps what has been received within the buffer, and the size of the buffer
    -- a positive `int32_t`, whatever the system call returns, whether or not memory can be allocated,
    -- and however the program's check judges: as long as the system call writes no more than it was
    -- asked for, and the check keeps the buffer valid and does not have a buffer of 2 ^ 30 bytes or
    -- more doubled.
    pub recv_turn-InBounds :
        (poll_event : ℕ) (s : Receiving W)
        → Fits s
        → InBounds (recv_turn v recv alloc recv_check poll_event s)
    unfolding recv_turn
    recv_turn-InBounds e s f =
        let b = s.ctrler.recv_buffer in
        let (w, result, bytes) = recv s.world (sub32 b.recv_buffer_size b.recved_size) in
        turn_by_result e (record s { world = w }) result bytes f
          (reads s.world (sub32 b.recv_buffer_size b.recved_size))

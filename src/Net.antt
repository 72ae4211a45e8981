-- ===== src/Net.antt =====
-- net/cort_tcp_ctrler.h and .cpp: buffers of a TCP connection, and the coroutines that use them.
-- The error codes are those of `cort_socket_error_codes`; the flags and the numbers of `errno` are the
-- values of Linux. An `int` is a 32-bit word, negative from 2 ^ 31 on.
mod Tests
pub mod SendBuffer
pub mod RecvBuffer
pub mod Connection
pub mod Polled
pub mod Send
pub mod Recv
pub mod Connect
pub mod KeepAlive
pub mod Request
pub mod Listener
pub mod Notified
use Prim.Native.Nat.{bit_and}
use cort_proto.Prelude.{ℕ, ◌^◌, Bool, not, ◌==◌, leb}

abbrev pub socket_ok : ℕ
socket_ok = 0

abbrev pub socket_create_error : ℕ
socket_create_error = 1

abbrev pub socket_connect_error : ℕ
socket_connect_error = 2

abbrev pub socket_operation_timeout : ℕ
socket_operation_timeout = 3

abbrev pub socket_connect_rejected : ℕ
socket_connect_rejected = 4

abbrev pub socket_remote_canceled : ℕ
socket_remote_canceled = 5

abbrev pub socket_send_error : ℕ
socket_send_error = 6

abbrev pub socket_alloc_memory_error : ℕ
socket_alloc_memory_error = 7

abbrev pub socket_received_check_error : ℕ
socket_received_check_error = 8

abbrev pub socket_receive_error : ℕ
socket_receive_error = 9

abbrev pub socket_state_error : ℕ
socket_state_error = 80

abbrev pub socket_invalid_connect_address : ℕ
socket_invalid_connect_address = 254

abbrev pub epollin : ℕ
epollin = 0x1

abbrev pub epollout : ℕ
epollout = 0x4

abbrev pub epollerr : ℕ
epollerr = 0x8

abbrev pub epollhup : ℕ
epollhup = 0x10

abbrev pub epollrdhup : ℕ
epollrdhup = 0x2000

-- `(mask & event) != 0`
abbrev pub has : ℕ → ℕ → Bool
has mask event = not (bit_and mask event == 0)

abbrev pub is_negative : ℕ → Bool
is_negative n = leb (2 ^ 31) n

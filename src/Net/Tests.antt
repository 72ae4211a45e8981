-- ===== src/Net/Tests.antt =====
-- A connection with two blocks to send, a file that takes two bytes at a time, and a pool with two
-- connections, and the theorems at these.
mod Calls
mod Listening
use mathlib.Core.List.{append-nil}
use cort_proto.Prelude.{
  ℕ, zero, suc, ◌+◌, ◌-◌, ◌^◌, ◌<◌, ◌≤◌, ◌≡◌, ◌≢◌, ◌⊎◌, inl, inr, refl, sym, arith, Bool, true,
  false, List, [], ◌∷◌, ◌++◌, Option, none, some, take, drop, ◌==◌, ltb, update, min, if◌then◌else◌,
}
use cort_proto.Net.{has, epollout, socket_operation_timeout}
use cort_proto.Net.SendBuffer.{Slot, SendBuffer, get_free_index, advance}
use cort_proto.Net.SendBuffer.Queue.{used, All, IsIn, is_nil}
use cort_proto.Net.SendBuffer.Bytes.{pending, count, owned, IsTagged, advance_sends, advance_frees}
use cort_proto.Net.RecvBuffer.{
  RecvBuffer, realloc_recv_buffer, set_recv_buffer, destroy, shrink_to_fit, clear,
}
use cort_proto.Net.RecvBuffer.Realloc.{
  IsValid, realloc_keeps, destroy-clear, shrink_to_fit_inverted,
}
use cort_proto.Net.Connection.{
  FileWaiter, Ctrler, Next, SysResult, done, failed, is_connected, minus_one,
}
use cort_proto.Net.Send.{Sending, try_send, eintr}
use cort_proto.Net.Send.Stream.{Socket, accepted, Sends, try_send_streams}

-- A file, the bytes that it has taken, and the signals that will interrupt it.
pub record File : Type 0 where
  pub fd : ℕ
  pub request : ℕ
  pub result : ℕ
  pub out : List ℕ
  pub signals : ℕ

abbrev pub waiter : FileWaiter File
waiter = record {
  cort_fd = λ w. w.fd;
  poll_request = λ w. w.request;
  poll_result = λ w. w.result;
  is_timeout_or_stopped = λ w. false;
  set_cort_fd = λ fd w. record w { fd = fd };
  set_poll_request = λ r w. record w { request = r };
  clear_poll_result = λ w. record w { result = 0 };
  close_cort_fd = λ w. record w { fd = minus_one };
  set_timeout = λ n w. w;
  clear_timeout = λ w. w;
  cort_fd-close = λ w. refl;
  cort_fd-set = λ fd w. refl;
  cort_fd-request = λ r w. refl;
  cort_fd-set_timeout = λ n w. refl;
  cort_fd-clear_timeout = λ w. refl;
}

abbrev pub file : File
file = record { fd = 5; request = 5; result = 4; out = []; signals = 1 }

-- The byte at an address is the address.
abbrev mem : ℕ → ℕ
mem k = k

abbrev take_two : ℕ → File → SendBuffer → File × SysResult
take_two zero w b = (record w { out = w.out ++ take 2 (pending mem b) }, done 2)
take_two (suc n) w b = (record w { signals = n }, failed eintr)

abbrev send : File → SendBuffer → ℕ → File × SysResult
send w b n = take_two w.signals w b

take_two_takes :
    (n : ℕ) (w : File) (b : SendBuffer)
    → (take_two n w b).0.out ≡ w.out ++ take (accepted (take_two n w b).1) (pending mem b)
take_two_takes zero w b = refl
take_two_takes (suc n) w b = sym (append-nil w.out)

-- A result that says that a signal came.
abbrev interrupts : SysResult → Bool
interrupts (done m) = false
interrupts (failed e) = e == eintr

take_two_patient :
    (n : ℕ) (w : File) (b : SendBuffer)
    → w.signals ≡ n
    → interrupts (take_two n w b).1 ≡ true
    → (take_two n w b).0.signals < w.signals
take_two_patient zero w b h e = cc
take_two_patient (suc n) w b h e = omega (arith, h)

abbrev socket : Socket waiter send mem
socket = record {
  out = λ w. w.out;
  patience = λ w. w.signals;
  takes = λ w b. take_two_takes w.signals w b;
  patient = λ w b. take_two_patient w.signals w b refl;
  request_keeps = λ n w. refl;
  close_keeps = λ w. refl;
  clear_keeps = λ w. refl;
  set_timeout_keeps = λ n w. refl;
  patience_keeps = λ n w. refl;
}

-- Two blocks, of three and of two bytes, the second of which is not the buffer's own.
abbrev blocks : SendBuffer
blocks = record {
  slots = λ i.
      if i == 0
      then record { iov_base = 100; iov_len = 3; tag = 0 }
      else (if i == 1
          then record { iov_base = 200; iov_len = 2; tag = 2 ^ 31 }
          else record { iov_base = 0; iov_len = 0; tag = 0 });
}

blocks-IsIn : All IsIn (used blocks)
unfolding used
blocks-IsIn = ground arith

blocks-IsTagged : All IsTagged (used blocks)
unfolding used
blocks-IsTagged = ground arith

-- Four bytes are the first block and one byte of the second.
advance_sends_example :
    let r = advance (get_free_index blocks) 4 (blocks, []) in
    (pending mem r.0.0 ≡ drop 4 (pending mem blocks)) × (r.1 ≡ is_nil (used r.0.0))
advance_sends_example = advance_sends mem 4 blocks [] blocks-IsIn

advance_frees_example :
    let r = advance (get_free_index blocks) 4 (blocks, []) in
    count 100 r.0.1 + count 100 (owned (used r.0.0))
    ≡ count 100 [] + count 100 (owned (used blocks))
advance_frees_example = advance_frees 100 4 blocks [] blocks-IsTagged

abbrev empty_buffer : RecvBuffer
empty_buffer = record {
  recv_buffer = 0;
  bytes = λ i. 0;
  recv_buffer_size = 0;
  recved_size = 0;
  recv_check_further_needed = 0;
  recv_finished_shrink_needed = 0;
  is_weak_reference = 0;
}

abbrev pub ctrler : Ctrler
ctrler = record {
  recv_buffer = empty_buffer;
  send_buffer = blocks;
  timeout = 20;
  timecost = 0;
  keep_alive_ms = 0;
  ip_v4 = 0x7f000001;
  port_v4 = 80;
  type_key = 0;
  errnum = 0;
}

abbrev sending : Sending File
sending = record { ctrler = ctrler; world = file; freed = [] }

-- A signal comes first: the fuel is for that call and the next.
try_send_streams_example :
    (r : Sending File × Next) × (try_send waiter send 2 sending ≡ some r)
    × Sends waiter send mem socket sending r
try_send_streams_example =
    try_send_streams waiter send mem socket 2 sending blocks-IsIn (omega arith)

-- Ten bytes of a block of twenty.
abbrev pub half_full : RecvBuffer
half_full = record empty_buffer { recv_buffer = 300; recv_buffer_size = 20; recved_size = 10 }

pub half_full-IsValid : IsValid half_full
half_full-IsValid = record { inside = omega arith; small = omega arith }

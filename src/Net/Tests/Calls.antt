-- ===== src/Net/Tests/Calls.antt =====
-- One pass of a receive, both halves of a connect, and the pool of idle connections.
use cort_proto.Prelude.{
  ℕ, zero, suc, ◌^◌, ◌<◌, ◌≡◌, ◌≢◌, ◌⊎◌, refl, arith, Bool, true, false, none, some, ◌==◌,
}
use cort_proto.Net.{has, epollin, epollout}
use cort_proto.Net.Connection.{SysResult, done, failed, is_connected, minus_one}
use cort_proto.Net.Recv.{Receiving, recv_turn}
use cort_proto.Net.Recv.Bounds.{InBounds, recv_turn-InBounds}
use cort_proto.Net.Connect.{
  Sys, SockOptArg, Phase, State, try_connect, connect_resumed, connect_reject_events,
}
use cort_proto.Net.Connect.Outcome.{Documented, try_connect_returns, connect_resumed_lem}
use cort_proto.Net.KeepAlive.{
  World, Action, find, set, keep_alive, get_keep_alive_connection_client,
}
use cort_proto.Net.KeepAlive.Placed.{IsPlaced, Pools}
use cort_proto.Net.KeepAlive.Placed.Reached.{keeps, gets, Reached, start, call, Reached-IsPlaced}
use cort_proto.Net.Request
use cort_proto.Net.Request.{Request, awaited}
use cort_proto.Net.Request.Ending.{start_lem}
use cort_proto.Net.Tests.{File, waiter, file, ctrler, half_full, half_full-IsValid}

-- The file gives all that is asked for, ones.
abbrev recv : File → ℕ → File × SysResult × (ℕ → ℕ)
recv w n = (w, done n, λ i. 1)

abbrev alloc : File → ℕ → File × ℕ × (ℕ → ℕ)
alloc w n = (w, 900, λ i. 0)

-- The program's check waits for twenty bytes.
abbrev recv_check : Receiving File → Receiving File × ℕ
recv_check s = (s, 20)

abbrev receiving : Receiving File
receiving = record { ctrler = record ctrler { recv_buffer = half_full }; world = file }

recv_turn-InBounds_example :
    InBounds waiter recv alloc recv_check (recv_turn waiter recv alloc recv_check epollin receiving)
recv_turn-InBounds_example =
    recv_turn-InBounds waiter recv alloc recv_check
      (λ s f. (f, omega arith, λ e. absurd (omega (arith, e)))) (λ w n. omega arith) epollin
      receiving half_full-IsValid

-- A signal, then the connection is under way.
abbrev connects : ℕ → File → File × SysResult
connects zero w = (w, failed 115)
connects (suc n) w = (record w { signals = n }, failed 4)

abbrev sys : Sys File
sys = record {
  socket = λ w. (w, done 7);
  set_nonblocking = λ fd w. (w, true);
  connect = λ fd ip port w. connects w.signals w;
  close = λ fd w. w;
  set_option = λ o fd w. w;
  clear_keep_alive = λ count ip port type_key w. w;
}

abbrev interrupts : SysResult → Bool
interrupts (done m) = false
interrupts (failed e) = e == 4

connects_patient :
    (n : ℕ) (w : File)
    → w.signals ≡ n
    → interrupts (connects n w).1 ≡ true
    → (connects n w).0.signals < w.signals
connects_patient zero w h e = ground (arith, e)
connects_patient (suc n) w h e = omega (arith, h)

opens_seven : (fd : ℕ) → done 7 ≡ done fd → fd < 2 ^ 31
opens_seven fd e = ground (arith, e)

abbrev documented : Documented waiter sys
documented = record {
  patience = λ w. w.signals;
  opens = λ w fd e. opens_seven fd e;
  patient = λ fd ip port w. connects_patient w.signals w refl;
  patience_socket = λ w. refl;
  patience_nonblocking = λ fd w. refl;
  patience_timeout = λ n w. refl;
  option_keeps = λ o fd w. refl;
}

abbrev unconnected : File
unconnected = record file { fd = minus_one }

abbrev options : SockOptArg
options = record { disable_no_delay = 0; enable_close_by_reset = 1; enable_reuse_address = 1 }

try_connect_returns_example :
    (r : State waiter sys × Phase) × (try_connect waiter sys 2 options (ctrler, unconnected)
      ≡ some r)
    × ((r.0.0.errnum ≢ 0) ⊎ (is_connected waiter r.0.1 ≡ true) ⊎ (r.0.1.fd ≡ 0))
try_connect_returns_example =
    try_connect_returns waiter sys documented 2 options ctrler unconnected (omega arith)

connect_resumed_lem_example :
    let (c', w') = connect_resumed waiter sys options (ctrler, file) in
    ((c'.errnum ≢ 0) × (w'.fd ≡ minus_one))
    ⊎ (c' ≡ ctrler)
      × (w'.fd ≡ file.fd)
      × (waiter.is_timeout_or_stopped file ≡ false)
      × (has connect_reject_events file.result ≡ false)
      × (has epollout file.result ≡ true)
connect_resumed_lem_example = connect_resumed_lem waiter sys documented options ctrler file

-- What is done to the connections is counted.
abbrev tick : Action → ℕ → ℕ → ℕ
tick a p e = suc e

abbrev none_pooled : World ℕ
none_pooled = record { pool = none; waiter_pos = λ p. 0; key = λ p. 0; env = 0 }

-- The connections 51 and 52 are kept alive under the key 9.
abbrev one_pooled : World ℕ
one_pooled = keep_alive tick 51 1000 9 none_pooled

abbrev two_pooled : World ℕ
two_pooled = keep_alive tick 52 1000 9 one_pooled

one_Reached : Reached tick one_pooled
one_Reached =
    call none_pooled one_pooled (start (λ p. 0) (λ p. 0) 0)
      (keeps 51 1000 9 none_pooled (λ q i h. absurd (omega (arith, h))))

two_Reached : Reached tick two_pooled
unfolding keep_alive find set
two_Reached =
    call one_pooled two_pooled one_Reached (keeps 52 1000 9 one_pooled (λ q i h. ground (arith, h)))

Reached-IsPlaced_example : IsPlaced (get_keep_alive_connection_client tick 9 two_pooled).0
Reached-IsPlaced_example =
    Reached-IsPlaced tick (get_keep_alive_connection_client tick 9 two_pooled).0 (
      call two_pooled (get_keep_alive_connection_client tick 9 two_pooled).0 two_Reached
        (gets 9 two_pooled))

-- A request over the pool with two connections, whose coroutines change nothing.
abbrev request : Request ℕ
request = record {
  ctrler = record ctrler { keep_alive_ms = 100 };
  connection_waiter = 53;
  world = two_pooled;
}

abbrev fresh_client : World ℕ → World ℕ × ℕ
fresh_client w = (w, 54)

start_lem_example :
    let s = awaited tick (λ p e. true) (λ e. e) fresh_client (λ r. r) (λ r. r) (λ r. r) request in
    let r' =
      Request.start tick (λ p e. true) (λ e. e) fresh_client (λ r. r) (λ r. r) (λ r. r) request in
    (r'.connection_waiter ≡ 0)
    × (s.ctrler.errnum ≢ 0 → r'.world.pool ≡ s.world.pool)
    × (s.ctrler.errnum ≡ 0
        → (s.connection_waiter ≢ 0) × (0 < s.ctrler.keep_alive_ms) × (true ≡ true)
        → Pools r'.world s.connection_waiter)
start_lem_example =
    start_lem tick (λ p e. true) (λ e. e) fresh_client (λ r. r) (λ r. r) (λ r. r) request

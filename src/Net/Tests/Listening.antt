-- ===== src/Net/Tests/Listening.antt =====
-- A listener on a machine where two connections wait.
use cort_proto.Prelude.{
  ℕ, zero, suc, ◌+◌, ◌<◌, ◌≡◌, refl, sym, arith, Bool, true, false, some, if◌then◌else◌, ltb, ◌==◌,
}
use cort_proto.Net.Connection.{FileWaiter, SysResult, done, failed, minus_one}
use cort_proto.Net.Listener.{Listener, ListenSys, State, Phase, start_accept}
use cort_proto.Net.Listener.Files.{Files}
use cort_proto.Net.Listener.Accepting.{Handing, goes_on, gives, start_accept_hands_over}

record Host : Type 0 where
  fd : ℕ
  request : ℕ
  -- whether a file has been opened, and not closed since
  is_open : ℕ → Bool
  waiting : ℕ
  accepted : ℕ → ℕ
  handed : ℕ → ℕ

abbrev waiter : FileWaiter Host
waiter = record {
  cort_fd = λ w. w.fd;
  poll_request = λ w. w.request;
  poll_result = λ w. 1;
  is_timeout_or_stopped = λ w. false;
  set_cort_fd = λ fd w. record w { fd = fd };
  set_poll_request = λ r w. record w { request = r };
  clear_poll_result = λ w. w;
  close_cort_fd = λ w. record w { fd = minus_one };
  set_timeout = λ n w. w;
  clear_timeout = λ w. w;
  cort_fd-close = λ w. refl;
  cort_fd-set = λ fd w. refl;
  cort_fd-request = λ r w. refl;
  cort_fd-set_timeout = λ n w. refl;
  cort_fd-clear_timeout = λ w. refl;
}

-- The next connection, or EAGAIN.
abbrev accept_next : ℕ → Host → Host × SysResult
accept_next zero w = (w, failed 11)
accept_next (suc n) w = (
  record w { waiting = n; accepted = λ q. w.accepted q + (if 8 + n == q then 1 else 0) },
  done (8 + n),
)

-- A socket gets the number 7, if that is free.
abbrev open_seven : Bool → Host → Host × SysResult
open_seven true w = (w, failed 24)
open_seven false w = (record w { is_open = λ q. if q == 7 then true else w.is_open q }, done 7)

abbrev sys : ListenSys Host
sys = record {
  socket = λ w. open_seven (w.is_open 7) w;
  set_nonblocking = λ fd w. (w, true);
  set_option = λ o fd w. w;
  bind = λ fd port w. (w, port == 80);
  listen = λ fd n w. (w, true);
  close = λ fd w. record w { is_open = λ q. if q == fd then false else w.is_open q };
  accept = λ fd w. accept_next w.waiting w;
  errno = λ w. 0;
}

abbrev listener : Listener
listener = record {
  listen_port = 80;
  backlog = 0;
  errnum = 0;
  disable_reuse_address = 0;
  enable_accept_after_recv = 1;
  disable_no_delay = 0;
  enable_close_by_reset = 1;
}

abbrev host : Host
host = record {
  fd = 3;
  request = 1;
  is_open = λ q. q == 3;
  waiting = 2;
  accepted = λ q. 0;
  handed = λ q. 0;
}

opens_seven :
    (b : Bool) (w : Host) (fd : ℕ)
    → w.is_open 7 ≡ b
    → (open_seven b w).1 ≡ done fd
    → (w.is_open fd ≡ false)
      × ((q : ℕ) → (open_seven b w).0.is_open q ≡ (if q == fd then true else w.is_open q))
opens_seven true w fd h e = absurd (let e' : failed 24 ≡ done fd = e in cc)
opens_seven false w fd h e =
    let same : 7 ≡ fd = (let e' : done 7 ≡ done fd = e in cc) in rw (sym same) (h, λ q. refl)

fails_seven :
    (b : Bool) (w : Host) (e q : ℕ)
    → (open_seven b w).1 ≡ failed e
    → (open_seven b w).0.is_open q ≡ w.is_open q
fails_seven true w e q h = refl
fails_seven false w e q h = absurd (let h' : done 7 ≡ failed e = h in cc)

abbrev files : Files waiter sys
files = record {
  is_open = λ q w. w.is_open q;
  socket_done = λ w fd e. opens_seven (w.is_open 7) w fd refl e;
  socket_failed = λ w e q h. fails_seven (w.is_open 7) w e q h;
  close_one = λ fd q w. refl;
  nonblocking_keeps = λ fd q w. refl;
  option_keeps = λ o fd q w. refl;
  bind_keeps = λ fd port q w. refl;
  listen_keeps = λ fd n q w. refl;
  set_fd_keeps = λ fd q w. refl;
  request_keeps = λ r q w. refl;
  poll_request-set = λ r w. refl;
}

-- The program takes each connection.
abbrev creator : ℕ → ℕ → Host → Host
creator fd events w = record w { handed = λ q. w.handed q + (if fd == q then 1 else 0) }

accepts_next :
    (n q : ℕ) (w : Host)
    → let (w', r) = accept_next n w in
      (w'.accepted q ≡ w.accepted q + gives q r) × (w'.handed q ≡ w.handed q)
accepts_next zero q w = (omega arith, refl)
accepts_next (suc n) q w = let pos : ltb 0 (8 + n) ≡ true = ground arith in (rw pos refl, refl)

patient_next :
    (n : ℕ) (w : Host)
    → w.waiting ≡ n
    → goes_on (accept_next n w).1 ≡ true
    → (accept_next n w).0.waiting < w.waiting
patient_next zero w h e = ground (arith, e)
patient_next (suc n) w h e = omega (arith, h)

abbrev handing : Handing waiter sys creator
handing = record {
  accepted = λ q w. w.accepted q;
  handed = λ q w. w.handed q;
  patience = λ w. w.waiting;
  accepts = λ q fd w. accepts_next w.waiting q w;
  patient = λ fd w. patient_next w.waiting w refl;
  creates = λ q fd events w. (refl, refl);
  creates_keeps = λ fd events w. refl;
  option_keeps = λ o fd q w. (refl, refl);
  option_patience = λ o fd w. refl;
  request_keeps = λ r q w. (refl, refl);
}

start_accept_hands_over_example :
    (r : State waiter sys × Phase) × (start_accept waiter sys creator 3 (listener, host) ≡ some r)
    × ((q : ℕ) → r.0.1.handed q + 0 ≡ 0 + r.0.1.accepted q)
start_accept_hands_over_example =
    start_accept_hands_over waiter sys creator handing 3 listener host (omega arith)

-- ===== src/Net/Polled.antt =====
-- time/cort_timeout_waiter.h and .cpp, `cort_fd_waiter` with its base class `cort_timeout_waiter`, as the
-- waiter that a TCP connection is built on: the interface of Net/Connection, filled by Time/FdWaiter and
-- Time/Waiter. `this` is the address of the waiter.
use Prim.Native.Nat.{bit_and}
use cort_proto.Prelude.{ℕ, ◌+◌, ◌≡◌, refl, Bool, not, ◌==◌, ◌||◌, branch_if}
use cort_proto.Time.FdWaiter.{
  FdWaiter, Polling, Ctl, set_cort_fd, set_poll_request, close_cort_fd, minus_one, is_negative,
  State,
}
use cort_proto.Time.Waiter.{
  Waiter, Clock, set_timeout, clear_timeout, timeout_masker, stopped_masker,
}
use cort_proto.Net.Connection.{FileWaiter}

-- A waiter in two parts, and what it shares with the others of its thread.
pub record Polled (K : Type 0) : Type 0 where
  pub fd_waiter : FdWaiter
  pub polling : Polling K
  pub timeout_waiter : Waiter
  pub clock : Clock

abbrev pub normal_masker : ℕ
normal_masker = timeout_masker + stopped_masker

cort_fd-set_lem : (fd : ℕ) (w : FdWaiter) → (set_cort_fd fd w).cort_fd ≡ fd
unfolding set_cort_fd
cort_fd-set_lem fd w = refl

module _ {K : Type 0} (epoll_ctl : Ctl → ℕ → ℕ → ℕ → K → K × ℕ) (close : ℕ → K → K) (this : ℕ) where
  pub is_timeout_or_stopped : Polled K → Bool
  is_timeout_or_stopped w = not (bit_and w.timeout_waiter.time_cost_ms normal_masker == 0)

  pub clear_poll_result : Polled K → Polled K
  clear_poll_result w = record w { fd_waiter = record w.fd_waiter { poll_result = 0 } }

  -- A function of the part that waits on a file.
  abbrev pub on_file : (FdWaiter × Polling K → FdWaiter × Polling K) → Polled K → Polled K
  on_file op w = let (v, l) = op (w.fd_waiter, w.polling) in record w { fd_waiter = v; polling = l }

  -- A function of the part that has a timeout.
  abbrev pub on_timer : (Waiter × Clock → Waiter × Clock) → Polled K → Polled K
  on_timer op w =
      let (v, c) = op (w.timeout_waiter, w.clock) in record w { timeout_waiter = v; clock = c }

  cort_fd-close_lem :
      (w : Polled K) → (on_file (close_cort_fd close) w).fd_waiter.cort_fd ≡ minus_one
  unfolding close_cort_fd
  cort_fd-close_lem w =
      branch_if (λ (s : State K). s.0.cort_fd ≡ minus_one) (is_negative w.fd_waiter.cort_fd) _ _
        (λ _. refl) (λ _. refl)

  cort_fd-request_lem :
      (r : ℕ) (w : Polled K)
      → (on_file (λ s. (set_poll_request epoll_ctl this r s).0) w).fd_waiter.cort_fd
        ≡ w.fd_waiter.cort_fd
  unfolding set_poll_request
  cort_fd-request_lem r w =
      branch_if (λ (s : State K × ℕ). s.0.0.cort_fd ≡ w.fd_waiter.cort_fd)
        ((w.fd_waiter.poll_request == r) || is_negative w.fd_waiter.cort_fd) _ _ (λ _. refl)
        (λ _. refl)

  pub polled_waiter : FileWaiter (Polled K)
  polled_waiter = record {
    cort_fd = λ w. w.fd_waiter.cort_fd;
    poll_request = λ w. w.fd_waiter.poll_request;
    poll_result = λ w. w.fd_waiter.poll_result;
    is_timeout_or_stopped = is_timeout_or_stopped;
    set_cort_fd = λ fd w. record w { fd_waiter = set_cort_fd fd w.fd_waiter };
    set_poll_request = λ r. on_file (λ s. (set_poll_request epoll_ctl this r s).0);
    clear_poll_result = clear_poll_result;
    close_cort_fd = on_file (close_cort_fd close);
    set_timeout = λ n. on_timer (set_timeout this n);
    clear_timeout = on_timer clear_timeout;
    cort_fd-close = cort_fd-close_lem;
    cort_fd-set = λ fd w. cort_fd-set_lem fd w.fd_waiter;
    cort_fd-request = cort_fd-request_lem;
    cort_fd-set_timeout = λ n w. refl;
    cort_fd-clear_timeout = λ w. refl;
  }

  pub cort_fd-polled_waiter : (w : Polled K) → polled_waiter.cort_fd w ≡ w.fd_waiter.cort_fd
  unfolding polled_waiter
  cort_fd-polled_waiter w = refl

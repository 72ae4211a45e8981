-- ===== src/Time/FdWaiter/Tests.antt =====
-- A waiter on a file, and the theorems about it.
use cort_proto.Prelude.{
  ℕ, ◌-◌, ◌+◌, ◌%◌, ◌^◌, ◌≡◌, ◌≢◌, refl, arith, Bool, true, ◌==◌, if◌then◌else◌,
}
use cort_proto.Time.FdWaiter.{Polling, World, State, Ctl, close_cort_fd, set_poll_request, on}
use cort_proto.Time.FdWaiter.Balance.{
  IsSound, request, close_fd, Uses, done, more, charge, count_of, Uses-balance,
}
use cort_proto.Time.FdWaiter.Events.{Linked, closed_not_pending}

-- A kernel that accepts everything, and one that refuses.
abbrev accepting : Ctl → ℕ → ℕ → ℕ → ℕ → ℕ × ℕ
accepting op fd ptr events k = (k + 1, 0)

abbrev refusing : Ctl → ℕ → ℕ → ℕ → ℕ → ℕ × ℕ
refusing op fd ptr events k = (k, 2 ^ 32 - 1)

abbrev shut : ℕ → ℕ → ℕ
shut fd k = k

abbrev quiet : Polling ℕ
quiet = record { kernel = 0; epollfd_total_count = 0; cells = λ _. 0 }

-- A waiter at address 50 with file 6, new, watching, and closed.
abbrev holding : State ℕ
holding = (record { ref_data = 0; cort_fd = 6; poll_request = 0; poll_result = 0 }, quiet)

abbrev watching : State ℕ
watching = (set_poll_request accepting 50 1 holding).0

holding-Uses : Uses accepting shut 50 holding (close_cort_fd shut watching)
unfolding set_poll_request
holding-Uses =
    more (request holding 1 (omega arith) refl)
      (more (close_fd watching) (done (close_cort_fd shut watching)))

Uses-balance_example :
    IsSound (close_cort_fd shut watching).0
    × ((count_of (close_cort_fd shut watching) + 0) % 2 ^ 32
        ≡ (0 + charge (close_cort_fd shut watching).0) % 2 ^ 32)
Uses-balance_example = Uses-balance accepting shut 50 holding-Uses (λ e. refl)

-- Two events are pending, at addresses 8 and 9, for the waiters at 50 and 51.
abbrev two_pending : World ℕ
two_pending = record {
  waiters = λ p. record {
    ref_data = if p == 50 then 8 else 9;
    cort_fd = 6;
    poll_request = 1;
    poll_result = 0;
  };
  polling = record { kernel = 0; epollfd_total_count = 2; cells = λ a. if a == 8 then 50 else 51 };
}

abbrev eight_or_nine : ℕ → Bool
eight_or_nine a = if a == 8 then true else a == 9

two_pending-Linked : Linked eight_or_nine two_pending
two_pending-Linked a here = ground arith

closed_not_pending_example :
    Linked eight_or_nine (on (close_cort_fd shut) 51 two_pending)
    × ((a : ℕ)
        → eight_or_nine a ≡ true
        → (on (close_cort_fd shut) 51 two_pending).polling.cells a ≢ 51)
closed_not_pending_example =
    closed_not_pending shut eight_or_nine 51 two_pending (omega arith) refl two_pending-Linked

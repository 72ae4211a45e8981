-- ===== src/Time/Loop/Tests.antt =====
-- A loop with one timer, whose kernel's clock goes on by the time that is waited, and the theorems at it.
use cort_proto.Prelude.{ℕ, ◌+◌, ◌<◌, ◌≤◌, ◌≡◌, refl, arith, [], none, some, ◌⊎◌}
use cort_proto.Time.Timer.{Timer, create, add_timer}
use cort_proto.Time.FdWaiter.{World, minus_one}
use cort_proto.Time.Loop.{
  Host, Calls, Program, wait_and_handle, cort_timer_now_ms_refresh, cort_timer_poll,
}
use cort_proto.Time.Loop.Deadlines.{cort_timer_poll_due}

abbrev calls : Calls ℕ
calls = record {
  now_ms = λ k. (k, k);
  epoll_create = λ k. (k, 5);
  close = λ fd k. k;
  epoll_wait = λ fd n k. (k + n, some []);
}

-- The program destroys the timer when a waiter is resumed.
abbrev program : Program ℕ
program = record {
  resume = λ p w. w;
  resume_on_timeout = λ p w. record w {
    polling = record w.polling { kernel = record w.polling.kernel { eptimer = none } };
  };
}

-- A waiter at 40 is due at 1020.
abbrev timer : Timer
timer = (add_timer 40 20 1000 (create (λ _. 0) 16)).1

abbrev world : World (Host ℕ)
world = record {
  waiters = λ p. record { ref_data = 0; cort_fd = 0; poll_request = 0; poll_result = 0 };
  polling = record {
    kernel = record { kernel = 1000; eptimer = some timer; epfd = 5; current_ms = 1000 };
    epollfd_total_count = 0;
    cells = λ a. 0;
  };
}

its_time_is_up : (cort_timer_poll calls program 1020 world).1 ≡ minus_one
unfolding cort_timer_poll wait_and_handle cort_timer_now_ms_refresh
its_time_is_up = refl

cort_timer_poll_due_example :
    ((1020 ≤ 1000) ⊎ (1000 < 1020) × ((calls.epoll_wait 5 20 1000).1 ≡ some []))
    × ((cort_timer_poll calls program 1020 world).0.waiters ≡ world.waiters)
cort_timer_poll_due_example =
    cort_timer_poll_due calls program 1020 world (omega arith) (omega arith) (omega arith)
      its_time_is_up

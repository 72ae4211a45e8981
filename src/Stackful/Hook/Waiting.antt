-- ===== src/Stackful/Hook/Waiting.antt =====
-- The interface of Stackful/Hook, filled by the models of `cort_fd_waiter` and `cort_timeout_waiter`. `this`
-- is the address of the waiter, `now_ms` reads the clock; the rest of the program, the coroutine of the
-- thread and the sleeper are parameters.
use cort_proto.Prelude.{ℕ, ◌≡◌, refl, ◌∙◌, Bool}
use cort_proto.Time.FdWaiter.{Ctl, remove_cort_fd, set_cort_fd}
use cort_proto.Time.Waiter.{is_set_timeout, get_timeout_time}
use cort_proto.Net.Connection.{minus_one}
use cort_proto.Net.Polled.{Polled, on_file, polled_waiter, cort_fd-polled_waiter}
use cort_proto.Stackful.Hook.{HookWaiter}

module _ {K : Type 0} (epoll_ctl : Ctl → ℕ → ℕ → ℕ → K → K × ℕ) (close : ℕ → K → K) (this : ℕ)
    (now_ms : Polled K → ℕ) (stackless_resume : Polled K → Polled K)
    (set_current_thread_cort : Bool → Polled K → Polled K)
    (await_sleeper : ℕ → Polled K → Polled K × Bool) where
  refresh : Polled K → Polled K × ℕ
  refresh w = (record w { clock = record w.clock { current_ms = now_ms w } }, now_ms w)

  cort_fd-remove_lem :
      (w : Polled K)
      → (on_file epoll_ctl close this (remove_cort_fd epoll_ctl this) w).fd_waiter.cort_fd
        ≡ minus_one
  unfolding remove_cort_fd set_cort_fd
  cort_fd-remove_lem w = refl

  pub hook_waiter : HookWaiter (Polled K)
  hook_waiter = record {
    file = polled_waiter epoll_ctl close this;
    is_set_timeout = λ w. is_set_timeout w.timeout_waiter;
    get_timeout_time = λ w. get_timeout_time w.timeout_waiter;
    cort_timer_now_ms_refresh = refresh;
    remove_cort_fd = on_file epoll_ctl close this (remove_cort_fd epoll_ctl this);
    stackless_resume = stackless_resume;
    set_current_thread_cort = set_current_thread_cort;
    await_sleeper = await_sleeper;
    cort_fd-remove = λ w. cort_fd-polled_waiter epoll_ctl close this _ ∙ cort_fd-remove_lem w;
  }

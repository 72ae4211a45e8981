-- ===== src/Stackful/Hook/Poll/Leaves.antt =====
-- What `poll` and `epoll_wait` leave the coroutine waiting for.
use cort_proto.Prelude.{
  ℕ, ◌*◌, ◌%◌, ◌^◌, ◌≡◌, ◌∙◌, Bool, true, false, Option, none, some, if◌then◌else◌, ltb, ◌==◌,
  branch_if,
}
use cort_proto.Prelude.Words.{sub64}
use cort_proto.Net.{has, epollin}
use cort_proto.Net.RecvBuffer.{signed_lt}
use cort_proto.Net.Connection.{SysResult, done, failed, minus_one}
use cort_proto.Stackful.FdTable.{FdTable}
use cort_proto.Stackful.Hook.{
  HookWaiter, set_new_timeout, clear_new_timeout, wait_events, cort_stackful_yield,
  after_stackful_resume, before_stackless_resume,
}
use cort_proto.Stackful.Hook.Sleep.{cort_hooked_usleep, sleep_limited, milliseconds}
use cort_proto.Stackful.Hook.Events.{pollout, get_epoll_event}
use cort_proto.Stackful.Hook.Poll.{
  PollFd, Calls, limited_timeout, add_polled, poll_one, poll_single, poll_several, poll_in,
  cort_hooked_poll, epoll_wait_in, cort_hooked_epoll_wait,
}

-- What the kernel and the rest of the program leave alone: the file that the coroutine waits for.
pub record KeepsFile {W : Type 0} (h : HookWaiter W) (sys : Calls W) : Type 0 where
  pub resume : (w : W) → h.file.cort_fd (h.stackless_resume w) ≡ h.file.cort_fd w
  pub current :
      (b : Bool) (w : W) → h.file.cort_fd (h.set_current_thread_cort b w) ≡ h.file.cort_fd w
  pub refresh : (w : W) → h.file.cort_fd (h.cort_timer_now_ms_refresh w).0 ≡ h.file.cort_fd w
  pub sleeper : (t : ℕ) (w : W) → h.file.cort_fd (h.await_sleeper t w).0 ≡ h.file.cort_fd w
  pub usleep : (t : ℕ) (w : W) → h.file.cort_fd (sys.usleep t w).0 ≡ h.file.cort_fd w
  pub create : (w : W) → h.file.cort_fd (sys.epoll_create w).0 ≡ h.file.cort_fd w
  pub poll :
      (fds : ℕ → PollFd) (n t : ℕ) (w : W)
      → h.file.cort_fd (sys.poll fds n t w).0 ≡ h.file.cort_fd w
  pub wait : (fd n t : ℕ) (w : W) → h.file.cort_fd (sys.epoll_wait fd n t w).0 ≡ h.file.cort_fd w

module _ {W : Type 0} (h : HookWaiter W) (sys : Calls W) (k : KeepsFile h sys) where
  -- No file is waited for.
  abbrev Free : W → Type 0
  Free w = h.file.cort_fd w ≡ minus_one

  yield-Free : (w : W) → Free w → Free (cort_stackful_yield h w)
  unfolding cort_stackful_yield after_stackful_resume before_stackless_resume
  yield-Free w f = k.current true _ ∙ k.resume _ ∙ k.current false w ∙ f

  clear-Free : (b : Bool) (w : W) → Free w → Free (clear_new_timeout h b w)
  unfolding clear_new_timeout
  clear-Free true w f = h.file.cort_fd-clear_timeout w ∙ f
  clear-Free false w f = f

  sleep_limited-Free :
      (usec end_time now_time : ℕ) (w : W)
      → Free w
      → Free (sleep_limited h usec end_time now_time w)
  unfolding sleep_limited after_stackful_resume
  sleep_limited-Free usec end_time now_time w f =
      let slept = (h.await_sleeper (milliseconds usec) w).0 in
      branch_if Free (ltb now_time end_time) _ w
        (λ _.
          branch_if Free (signed_lt (sub64 end_time now_time % 2 ^ 32 * 1000 % 2 ^ 32) usec) _ _
            (λ _. k.current true _ ∙ k.resume w ∙ f)
            (λ _.
              branch_if Free (milliseconds usec == 0) w _ (λ _. f)
                (λ _.
                  branch_if Free (h.await_sleeper (milliseconds usec) w).1 _ slept
                    (λ _. yield-Free slept (k.sleeper _ w ∙ f)) (λ _. k.sleeper _ w ∙ f))))
        (λ _. f)

  usleep-Free :
      (usec : ℕ) (t : FdTable) (w : W)
      → Free w
      → Free (cort_hooked_usleep h sys.usleep usec (some t) w).0
  unfolding cort_hooked_usleep
  usleep-Free usec t w f =
      branch_if Free (h.is_set_timeout w) _ _
        (λ _.
          sleep_limited-Free usec (h.get_timeout_time w) (h.cort_timer_now_ms_refresh w).1
            (h.cort_timer_now_ms_refresh w).0 (k.refresh w ∙ f))
        (λ _. yield-Free _ (h.file.cort_fd-set_timeout _ w ∙ f))

  abbrev FreeAfter : W × SysResult × (ℕ → PollFd) → Type 0
  FreeAfter r = Free r.0

  abbrev FreeResult : W × SysResult → Type 0
  FreeResult r = Free r.0

  poll_one-Free : (fds : ℕ → PollFd) (timeout : ℕ) (w : W) → Free (poll_one h sys fds timeout w).0
  unfolding poll_one
  poll_one-Free fds timeout w =
      branch_if FreeAfter (h.file.is_timeout_or_stopped w3) _ _ (λ _. h.cort_fd-remove _)
        (λ _.
          clear-Free (set_new_timeout h (signed_lt 0 timeout) timeout w).1 w3 (h.cort_fd-remove _))
    where
      w3 : W
      w3 = h.remove_cort_fd (
          wait_events h (fds 0).fd (get_epoll_event (fds 0).events)
            (set_new_timeout h (signed_lt 0 timeout) timeout w).0)

  poll_single-Free :
      (fds : ℕ → PollFd) (timeout : ℕ) (w : W) → Free w → Free (poll_single h sys fds timeout w).0
  unfolding poll_single
  poll_single-Free fds timeout w f =
      branch_if FreeAfter (has pollout (fds 0).events) _ (poll_one h sys fds timeout w)
        (λ _. by_result (sys.poll fds 1 0 w).1) (λ _. poll_one-Free fds timeout w)
    where
      w' : W
      w' = (sys.poll fds 1 0 w).0

      fds' : ℕ → PollFd
      fds' = (sys.poll fds 1 0 w).2

      by_result :
          (result : SysResult)
          → FreeAfter (elim result [
            | done n ↦ (if n == 0 then poll_one h sys fds' timeout w' else (w', done n, fds'))
            | failed e ↦ (w', failed e, fds')
          ])
      by_result (done n) =
          branch_if FreeAfter (n == 0) _ _ (λ _. poll_one-Free fds' timeout w')
            (λ _. k.poll fds 1 0 w ∙ f)
      by_result (failed e) = k.poll fds 1 0 w ∙ f

  poll_several-Free :
      (epfd : ℕ) (fds : ℕ → PollFd) (nfds timeout : ℕ) (w : W)
      → Free (poll_several h sys epfd fds nfds timeout w).0
  unfolding poll_several
  poll_several-Free epfd fds nfds timeout w =
      branch_if FreeAfter (h.file.is_timeout_or_stopped w2) _ _ (λ _. h.file.cort_fd-close _)
        (λ _. k.poll fds nfds 0 _ ∙ clear-Free started.1 w2 (h.file.cort_fd-close _))
    where
      started : W × Bool
      started = set_new_timeout h (signed_lt 0 timeout) timeout (add_polled h sys epfd nfds fds w)

      w2 : W
      w2 = h.file.close_cort_fd (wait_events h epfd epollin started.0)

  poll_in-Free :
      (fds : ℕ → PollFd) (nfds timeout : ℕ) (t : FdTable) (w : W)
      → Free w
      → Free (poll_in h sys fds nfds timeout t w).0
  unfolding poll_in
  poll_in-Free fds nfds timeout t w f =
      branch_if FreeAfter (nfds == 0) _ _ (λ _. usleep-Free (timeout * 1000 % 2 ^ 32) t w f)
        (λ _.
          branch_if FreeAfter (nfds == 1) _ _ (λ _. poll_single-Free fds timeout w f)
            (λ _. by_epoll (sys.epoll_create w).1))
    where
      w'' : W
      w'' = (sys.epoll_create w).0

      by_epoll :
          (epfd : SysResult)
          → FreeAfter (elim epfd [
            | failed e ↦ (w'', failed e, fds)
            | done n ↦ poll_several h sys n fds nfds timeout w''
          ])
      by_epoll (failed e) = k.create w ∙ f
      by_epoll (done n) = poll_several-Free n fds nfds timeout w''

  limited_timeout-Free : (timeout : ℕ) (w : W) → Free w → Free (limited_timeout h sys timeout w).0
  unfolding limited_timeout
  limited_timeout-Free timeout w f =
      branch_if (λ (r : W × Option ℕ). Free r.0) (h.file.is_timeout_or_stopped w) _ _ (λ _. f)
        (λ _.
          branch_if (λ (r : W × Option ℕ). Free r.0) (h.is_set_timeout w) _ _ (λ _. k.refresh w ∙ f)
            (λ _. f))

  epoll_wait_in-Free :
      (fd maxevents timeout : ℕ) (t : FdTable) (w : W)
      → Free w
      → Free (epoll_wait_in h sys fd maxevents timeout t w).0
  unfolding epoll_wait_in
  epoll_wait_in-Free fd maxevents timeout t w f =
      branch_if FreeResult (maxevents == 0) _ _ (λ _. usleep-Free (timeout * 1000 % 2 ^ 32) t w f)
        (λ _.
          branch_if FreeResult (h.file.is_timeout_or_stopped w2) _ _ (λ _. h.cort_fd-remove _)
            (λ _. k.wait fd maxevents 0 _ ∙ clear-Free started.1 w2 (h.cort_fd-remove _)))
    where
      started : W × Bool
      started = set_new_timeout h (signed_lt 0 timeout) timeout w

      w2 : W
      w2 = h.remove_cort_fd (wait_events h fd epollin started.0)

  -- A `poll` or an `epoll_wait` that a coroutine calls leaves it waiting for no file, on every path: where
  -- it sleeps, where it waits for one file or for an epoll of several, where the time is up, and where a
  -- call fails. Before it waited for none.
  pub cort_hooked_poll_leaves :
      (t : FdTable) (w : W)
      → h.file.cort_fd w ≡ minus_one
      → ((fds : ℕ → PollFd) (nfds timeout : ℕ)
          → h.file.cort_fd (cort_hooked_poll h sys fds nfds timeout (some t) w).0 ≡ minus_one)
        × ((fd maxevents timeout : ℕ)
            → h.file.cort_fd (cort_hooked_epoll_wait h sys fd maxevents timeout (some t) w).0
              ≡ minus_one)
  unfolding cort_hooked_poll cort_hooked_epoll_wait
  cort_hooked_poll_leaves t w f = (
    λ fds nfds timeout. after_poll fds nfds timeout (limited_timeout h sys timeout w).1,
    λ fd maxevents timeout. after_wait fd maxevents timeout (limited_timeout h sys timeout w).1,
  )
    where
      after_poll :
          (fds : ℕ → PollFd) (nfds timeout : ℕ) (left : Option ℕ)
          → FreeAfter (elim left [
            | none ↦ ((limited_timeout h sys timeout w).0, done 0, fds)
            | some timeout' ↦ poll_in h sys fds nfds timeout' t (limited_timeout h sys timeout w).0
          ])
      after_poll fds nfds timeout none = limited_timeout-Free timeout w f
      after_poll fds nfds timeout (some timeout') =
          poll_in-Free fds nfds timeout' t (limited_timeout h sys timeout w).0
            (limited_timeout-Free timeout w f)

      after_wait :
          (fd maxevents timeout : ℕ) (left : Option ℕ)
          → FreeResult (elim left [
            | none ↦ ((limited_timeout h sys timeout w).0, done 0)
            | some timeout' ↦
                epoll_wait_in h sys fd maxevents timeout' t (limited_timeout h sys timeout w).0
          ])
      after_wait fd maxevents timeout none = limited_timeout-Free timeout w f
      after_wait fd maxevents timeout (some timeout') =
          epoll_wait_in-Free fd maxevents timeout' t (limited_timeout h sys timeout w).0
            (limited_timeout-Free timeout w f)

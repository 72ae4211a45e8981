-- ===== src/Stackful/Hook/Poll.antt =====
-- stackful/cort_stackful_fds_waiter.cpp: `cort_hooked_epoll_wait` and `cort_hooked_poll`. What a call
-- writes to the program's array is part of the result. Times are in milliseconds.
pub mod Leaves
use cort_proto.Prelude.{
  ℕ, zero, suc, ◌*◌, ◌%◌, ◌^◌, Option, none, some, if◌then◌else◌, leb, ◌==◌, update,
}
use cort_proto.Prelude.Words.{sub64}
use cort_proto.Net.{has, epollin}
use cort_proto.Net.RecvBuffer.{signed_lt}
use cort_proto.Net.Connection.{SysResult, done, failed}
use cort_proto.Stackful.FdTable.{FdTable}
use cort_proto.Stackful.Hook.{HookWaiter, set_new_timeout, clear_new_timeout, wait_events}
use cort_proto.Stackful.Hook.Sleep.{cort_hooked_usleep}
use cort_proto.Stackful.Hook.Events.{pollout, get_epoll_event, get_poll_event}

pub record PollFd : Type 0 where
  pub fd : ℕ
  pub events : ℕ
  pub revents : ℕ

-- The system calls. A `timeout` is an `int`.
pub record Calls (W : Type 0) : Type 0 where
  pub usleep : ℕ → W → W × SysResult
  pub epoll_create : W → W × SysResult
  -- EPOLL_CTL_ADD of a file with its events
  pub epoll_ctl_add : ℕ → ℕ → ℕ → W → W
  pub epoll_wait : ℕ → ℕ → ℕ → W → W × SysResult
  pub poll : (ℕ → PollFd) → ℕ → ℕ → W → W × SysResult × (ℕ → PollFd)

module _ {W : Type 0} (h : HookWaiter W) (sys : Calls W) where
  -- The start of `epoll_wait` and `poll`: the coroutine's own time limits theirs. `none` where no time
  -- is left.
  unfoldable pub limited_timeout : ℕ → W → W × Option ℕ
  limited_timeout timeout w =
      let end_time = h.get_timeout_time w in
      let (w', now_time) = h.cort_timer_now_ms_refresh w in
      let left = sub64 end_time now_time % 2 ^ 32 in
      if h.file.is_timeout_or_stopped w
      then (w, none)
      else (if h.is_set_timeout w
          then (
            w',
            if leb end_time now_time
                then none
                else some (if signed_lt left timeout then left else timeout),
          )
          else (w, some timeout))

  -- `cort_hooked_epoll_wait` with a coroutine, in the time that is left.
  unfoldable pub epoll_wait_in : ℕ → ℕ → ℕ → FdTable → W → W × SysResult
  unfolding cort_hooked_usleep set_new_timeout clear_new_timeout wait_events
  epoll_wait_in fd maxevents timeout t w =
      let (w1, new_timeout) = set_new_timeout h (signed_lt 0 timeout) timeout w in
      let w2 = h.remove_cort_fd (wait_events h fd epollin w1) in
      if maxevents == 0
      then cort_hooked_usleep h sys.usleep (timeout * 1000 % 2 ^ 32) (some t) w
      else (if h.file.is_timeout_or_stopped w2
          then (w2, done 0)
          else sys.epoll_wait fd maxevents 0 (clear_new_timeout h new_timeout w2))

  unfoldable pub cort_hooked_epoll_wait : ℕ → ℕ → ℕ → Option FdTable → W → W × SysResult
  unfolding limited_timeout epoll_wait_in
  cort_hooked_epoll_wait fd maxevents timeout none w = sys.epoll_wait fd maxevents timeout w
  cort_hooked_epoll_wait fd maxevents timeout (some t) w =
      let (w', left) = limited_timeout timeout w in
      elim left [ none ↦ (w', done 0) | some timeout' ↦ epoll_wait_in fd maxevents timeout' t w' ]

  -- The loop of `poll` over its files, from the last one down.
  unfoldable pub add_polled : ℕ → ℕ → (ℕ → PollFd) → W → W
  add_polled epfd zero fds w = w
  add_polled epfd (suc nnfds) fds w =
      add_polled epfd nnfds fds
        (sys.epoll_ctl_add epfd (fds nnfds).fd (get_epoll_event (fds nnfds).events) w)

  -- The wait for one file.
  unfoldable pub poll_one : (ℕ → PollFd) → ℕ → W → W × SysResult × (ℕ → PollFd)
  unfolding set_new_timeout clear_new_timeout wait_events
  poll_one fds timeout w =
      let (w1, new_timeout) = set_new_timeout h (signed_lt 0 timeout) timeout w in
      let w2 = wait_events h (fds 0).fd (get_epoll_event (fds 0).events) w1 in
      let w3 = h.remove_cort_fd w2 in
      let revents = get_poll_event (h.file.poll_result w2) in
      if h.file.is_timeout_or_stopped w3 then (w3, done 0, fds) else (
        clear_new_timeout h new_timeout w3,
        done 1,
        update fds 0 (record (fds 0) { revents = revents }),
      )

  -- One file, which may be writable at once.
  unfoldable pub poll_single : (ℕ → PollFd) → ℕ → W → W × SysResult × (ℕ → PollFd)
  unfolding poll_one
  poll_single fds timeout w =
      let (w', result, fds') = sys.poll fds 1 0 w in
      let waited = poll_one fds' timeout w' in
      if has pollout (fds 0).events
      then elim result [
        | done n ↦ (if n == 0 then waited else (w', done n, fds'))
        | failed e ↦ (w', failed e, fds')
      ]
      else poll_one fds timeout w

  -- Several files, by an epoll of their own.
  unfoldable pub poll_several : ℕ → (ℕ → PollFd) → ℕ → ℕ → W → W × SysResult × (ℕ → PollFd)
  unfolding add_polled set_new_timeout clear_new_timeout wait_events
  poll_several epfd fds nfds timeout w =
      let (w1, new_timeout) =
        set_new_timeout h (signed_lt 0 timeout) timeout (add_polled epfd nfds fds w) in
      let w2 = h.file.close_cort_fd (wait_events h epfd epollin w1) in
      if h.file.is_timeout_or_stopped w2
      then (w2, done 0, fds)
      else sys.poll fds nfds 0 (clear_new_timeout h new_timeout w2)

  -- `cort_hooked_poll` with a coroutine, in the time that is left.
  unfoldable pub poll_in : (ℕ → PollFd) → ℕ → ℕ → FdTable → W → W × SysResult × (ℕ → PollFd)
  unfolding poll_several poll_single cort_hooked_usleep
  poll_in fds nfds timeout t w =
      let (w', slept) = cort_hooked_usleep h sys.usleep (timeout * 1000 % 2 ^ 32) (some t) w in
      let (w'', epfd) = sys.epoll_create w in
      if nfds == 0
      then (w', slept, fds)
      else (if nfds == 1 then poll_single fds timeout w else elim epfd [
        | failed e ↦ (w'', failed e, fds)
        | done n ↦ poll_several n fds nfds timeout w''
      ])

  unfoldable pub cort_hooked_poll :
      (ℕ → PollFd) → ℕ → ℕ → Option FdTable → W → W × SysResult × (ℕ → PollFd)
  unfolding limited_timeout poll_in
  cort_hooked_poll fds nfds timeout none w = sys.poll fds nfds timeout w
  cort_hooked_poll fds nfds timeout (some t) w =
      let (w', left) = limited_timeout timeout w in
      elim left [ none ↦ (w', done 0, fds) | some timeout' ↦ poll_in fds nfds timeout' t w' ]

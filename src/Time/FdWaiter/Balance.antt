-- ===== src/Time/FdWaiter/Balance.antt =====
-- The number of watched files goes up and down with each waiter.
use cort_proto.Prelude.{ℕ, ◌+◌, ◌%◌, ◌^◌, ◌≡◌, ◌≢◌, refl, arith, true, false, if◌then◌else◌, ◌==◌}
use cort_proto.Prelude.Words.{sub32}
use cort_proto.Time.FdWaiter.{
  FdWaiter, Ctl, ctl_add, ctl_del, State, is_negative, set_cort_fd, arrive, drop_ref, closed,
  close_cort_fd, set_poll_request, remove_poll_request, remove_cort_fd,
}

-- What a waiter has in the count.
abbrev pub charge : FdWaiter → ℕ
charge w = if w.poll_request == 0 then 0 else 1

-- A waiter without a file watches nothing.
abbrev pub IsSound : FdWaiter → Type 0
IsSound w = is_negative w.cort_fd ≡ true → w.poll_request ≡ 0

abbrev pub count_of : {K : Type 0} → State K → ℕ
count_of s = s.1.epollfd_total_count

module _ {K : Type 0} (epoll_ctl : Ctl → ℕ → ℕ → ℕ → K → K × ℕ) (close : ℕ → K → K) (this : ℕ) where
  -- One call on a waiter, as its clients make it: it is asked to watch for something, which the
  -- kernel accepts; what is no longer watched the kernel knows; and the file is not changed while it
  -- is watched.
  pub data Use : State K → State K → Type 0 where
    request :
        (s : State K) (arg : ℕ)
        → arg ≢ 0
        → (set_poll_request epoll_ctl this arg s).1 ≡ 0
        → Use s (set_poll_request epoll_ctl this arg s).0
    remove : (s : State K) → Use s (remove_poll_request epoll_ctl this s)
    remove_fd :
        (s : State K)
        → (epoll_ctl ctl_del s.0.cort_fd this 0 s.1.kernel).1 ≡ 0
        → Use s (remove_cort_fd epoll_ctl this s)
    close_fd : (s : State K) → Use s (close_cort_fd close s)
    assign : (s : State K) (fd : ℕ) → s.0.poll_request ≡ 0 → Use s (set_cort_fd fd s.0, s.1)
    event : (s : State K) (poll_event : ℕ) → Use s (arrive poll_event s.0, s.1)

  pub data Uses : State K → State K → Type 0 where
    done : (s : State K) → Uses s s
    more : {s s' s'' : State K} → Use s s' → Uses s' s'' → Uses s s''

  -- The count has changed as much as the waiter's part in it.
  abbrev Balanced : State K → State K → Type 0
  Balanced s s' =
      IsSound s'.0 × ((count_of s' + charge s.0) % 2 ^ 32 ≡ (count_of s + charge s'.0) % 2 ^ 32)

  Use-Balanced : (s s' : State K) → IsSound s.0 → Use s s' → Balanced s s'
  unfolding set_poll_request remove_poll_request remove_cort_fd close_cort_fd drop_ref closed
      set_cort_fd arrive
  Use-Balanced s _ sound (request _ arg ne ok) = ground arith
  Use-Balanced s _ sound (remove _) = ground arith
  Use-Balanced s _ sound (remove_fd _ ok) = ground arith
  Use-Balanced s _ sound (close_fd _) = ground arith
  Use-Balanced s _ sound (assign _ fd idle) = ground arith
  Use-Balanced s _ sound (event _ e) = ground arith

  -- For any calls on a waiter in which it asks to watch for something, the kernel accepts that, and
  -- what the waiter gives up together with its request the kernel accepts too, and the file is not
  -- changed while it is watched: the number of watched files has changed by exactly what the waiter
  -- came to watch, modulo 2 ^ 32, so a waiter that watches nothing before and after leaves the
  -- number as it was; and a waiter without a file watches nothing.
  pub Uses-balance :
      {s s' : State K}
      → Uses s s'
      → IsSound s.0
      → IsSound s'.0 × ((count_of s' + charge s.0) % 2 ^ 32 ≡ (count_of s + charge s'.0) % 2 ^ 32)
  Uses-balance (done s) sound = (sound, refl)
  Uses-balance (more {s} {s'} step uses) sound =
      let (sound', one) = Use-Balanced s s' sound step in
      let (sound'', rest) = Uses-balance uses sound' in (sound'', omega (arith, one, rest))

  -- `set_poll_request` keeps a request that the kernel has refused. So where a waiter that watches
  -- nothing asks to watch a file, and the kernel refuses, closing it takes one from the number of
  -- watched files that was never added.
  pub refused_request_miscounts :
      (s : State K) (arg : ℕ)
      → is_negative s.0.cort_fd ≡ false
      → s.0.poll_request ≡ 0
      → arg ≢ 0
      → (epoll_ctl ctl_add s.0.cort_fd this arg s.1.kernel).1 ≢ 0
      → count_of (close_cort_fd close (set_poll_request epoll_ctl this arg s).0)
        ≡ sub32 (count_of s) 1
  unfolding set_poll_request close_cort_fd drop_ref
  refused_request_miscounts s arg held idle ne refused = ground arith

-- ===== src/Time/Loop/Deadlines.antt =====
-- When the loop takes the time of a waiter to be up.
use cort_proto.Prelude.{
  ℕ, ◌+◌, ◌-◌, ◌%◌, ◌^◌, ◌≤◌, ◌<◌, ◌≡◌, ◌≢◌, ◌⊎◌, inl, inr, refl, ap, sym, ◌∙◌, arith, List, [],
  ◌∷◌, Option, none, some, leb, ◌==◌, branch_if,
}
use cort_proto.Prelude.Words.{sub64}
use cort_proto.Time.FdWaiter.{World, minus_one}
use cort_proto.Time.Loop.{
  Host, Calls, Program, host, cort_timer_poll, wait_and_handle, handle_events, has_timer,
  cort_timer_now_ms_refresh,
}

module _ {K : Type 0} (sys : Calls K) (program : Program K) where
  -- A time that the clock has reached.
  abbrev Reached : ℕ → World (Host K) → Type 0
  Reached until_ms w = until_ms ≤ (sys.now_ms (host w).kernel).1

  -- A time that the clock has not reached, where a wait for what is left of it gives no event.
  abbrev WaitedFor : ℕ → World (Host K) → Type 0
  WaitedFor until_ms w =
      ((sys.now_ms (host w).kernel).1 < until_ms)
      × ((sys.epoll_wait (host w).epfd (until_ms - (sys.now_ms (host w).kernel).1)
            (sys.now_ms (host w).kernel).0).1
          ≡ some [])

  abbrev IsDue : ℕ → World (Host K) → World (Host K) × ℕ → Type 0
  IsDue until_ms w (w', result) =
      result ≡ minus_one → (Reached until_ms w ⊎ WaitedFor until_ms w) × (w'.waiters ≡ w.waiters)

  -- A wait that tells that the time is up has given no event, and nothing is resumed.
  wait_and_handle-minus_one :
      (until_ms wait_time : ℕ) (w : World (Host K))
      → (wait_and_handle sys program until_ms wait_time w).1 ≡ minus_one
      → ((sys.epoll_wait (host w).epfd wait_time (host w).kernel).1 ≡ some [])
        × ((wait_and_handle sys program until_ms wait_time w).0.waiters ≡ w.waiters)
  unfolding wait_and_handle cort_timer_now_ms_refresh
  wait_and_handle-minus_one until_ms wait_time w =
      by_events (sys.epoll_wait g.epfd wait_time g.kernel).1
    where
      g : Host K
      g = host w

      w' : World (Host K)
      w' = cort_timer_now_ms_refresh sys (record w {
        polling = record w.polling {
          kernel = record g { kernel = (sys.epoll_wait g.epfd wait_time g.kernel).0 };
        };
      })

      by_events :
          (nfds : Option (List (ℕ × ℕ × ℕ)))
          → let r : World (Host K) × ℕ = elim nfds [
            | none ↦ (w', 0)
            | some [] ↦ (w', minus_one)
            | some (e ∷ events) ↦ (handle_events sys program until_ms (e ∷ events) w', 0)
          ] in
            r.1 ≡ minus_one → (nfds ≡ some []) × (r.0.waiters ≡ w.waiters)
      by_events none r = absurd (omega (arith, r))
      by_events (some []) r = (refl, refl)
      by_events (some (e ∷ events)) r = absurd (omega (arith, r))

  -- `cort_timer_poll` tells that a time is up only if the clock has reached it, or if it has waited for
  -- all that the clock said was left of it, and no event came; and it has then resumed no waiter. The
  -- time is a word and not 0, and less than 2 ^ 31 milliseconds away.
  pub cort_timer_poll_due :
      (until_ms : ℕ) (w : World (Host K))
      → until_ms ≢ 0
      → until_ms < 2 ^ 64
      → until_ms < (sys.now_ms (host w).kernel).1 + 2 ^ 31
      → (cort_timer_poll sys program until_ms w).1 ≡ minus_one
      → ((until_ms ≤ (sys.now_ms (host w).kernel).1)
          ⊎ ((sys.now_ms (host w).kernel).1 < until_ms)
            × ((sys.epoll_wait
                  (host w).epfd
                  (until_ms - (sys.now_ms (host w).kernel).1)
                  (sys.now_ms (host w).kernel).0).1
                ≡ some []))
        × ((cort_timer_poll sys program until_ms w).0.waiters ≡ w.waiters)
  unfolding cort_timer_poll cort_timer_now_ms_refresh
  cort_timer_poll_due until_ms w some_time word near =
      let now = (sys.now_ms (host w).kernel).1 in
      let k = (sys.now_ms (host w).kernel).0 in
      let wait_time = sub64 until_ms now % 2 ^ 32 in
      branch_if (IsDue until_ms w) (until_ms == 0) _ _ (λ z. absurd (ground arith))
        (λ _.
          branch_if (IsDue until_ms w) (leb until_ms now) _ _ (λ l r. (inl (ground arith), refl))
            (λ l.
              branch_if (IsDue until_ms w) (has_timer (cort_timer_now_ms_refresh sys w)) _ _
                (λ _ r.
                  let early : now < until_ms = ground arith in
                  let left : wait_time ≡ until_ms - now = omega arith in
                  let (silent, same) =
                    wait_and_handle-minus_one until_ms wait_time (cort_timer_now_ms_refresh sys w)
                      r in
                  (
                    inr (early, ap (λ t. (sys.epoll_wait (host w).epfd t k).1) (sym left) ∙ silent),
                    same,
                  ))
                (λ _ r. absurd (omega (arith, r)))))

-- ===== src/Net/Request/Ending.antt =====
-- What a request leaves behind: it gives its connection up, to the pool only if all went well.
use cort_proto.Prelude.{
  ℕ, ◌<◌, ◌≡◌, ◌≢◌, ◌⊎◌, inl, inr, refl, arith, Bool, true, ◌&&◌, ◌||◌, ltb, ◌==◌, update,
  update_self, branch_if, ==_iff,
}
use cort_proto.Net.KeepAlive.{World, Action, entry, keep_alive, push_back}
use cort_proto.Net.KeepAlive.Placed.{Pools}
use cort_proto.Net.KeepAlive.Placed.Calls.{entry-set}
use cort_proto.Net.Request.{
  Request, clear, keep_idle, on_connection_inactive, on_finish, finish_time_cost, awaited, ended,
  start,
}

keep_alive-Pools :
    {E : Type 0} (act : Action → ℕ → E → E) (p ms k : ℕ) (w : World E)
    → Pools (keep_alive act p ms k w) p
unfolding keep_alive Pools
keep_alive-Pools act p ms k w =
    let dq = entry k w.pool in
    let is_key : update w.key p k p ≡ k = update_self w.key p k in
    let is_pos : update w.waiter_pos p dq.size p ≡ dq.size = update_self w.waiter_pos p dq.size in
    let same : (k == k) ≡ true = ground arith in
    rw (is_key, is_pos, entry-set k k (push_back p dq) w.pool, same)
      (omega arith, update_self dq.get dq.size p)

module _ {E : Type 0} (act : Action → ℕ → E → E) (connected : ℕ → E → Bool) (now : E → ℕ)
    (new_client : World E → World E × ℕ) where
  -- What `clear` leaves.
  abbrev Cleared : Request E → Request E → Type 0
  Cleared r r' = (r'.world.pool ≡ r.world.pool) × ((p : ℕ) → Pools r.world p → Pools r'.world p)

  clear_lem :
      (r : Request E)
      → let r' = clear act connected now new_client r in (r'.connection_waiter ≡ 0) × Cleared r r'
  unfolding clear Pools
  clear_lem r =
      branch_if (λ (r' : Request E). (r'.connection_waiter ≡ 0) × Cleared r r')
        (r.connection_waiter == 0) r _ (λ e. ((==_iff _ 0).0 e, (refl, λ p h. h)))
        (λ _. (refl, (refl, λ p h. h)))

  on_finish_lem :
      (r : Request E)
      → let r' = on_finish act connected now new_client r in
        ((r.connection_waiter ≡ 0) ⊎ (r.ctrler.errnum ≢ 0) → r'.connection_waiter ≡ 0)
        × Cleared r r'
  unfolding on_finish
  on_finish_lem r =
      let cleared = clear_lem r in
      branch_if
        (λ (r' : Request E).
          ((r.connection_waiter ≡ 0) ⊎ (r.ctrler.errnum ≢ 0) → r'.connection_waiter ≡ 0)
          × Cleared r r')
        ((r.connection_waiter == 0) || (r.ctrler.errnum == 0)) r _
        (λ e. ((λ h. ground (arith, e, h)), (refl, λ p h. h))) (λ _. ((λ _. cleared.0), cleared.1))

  -- Whether the connection is to be kept.
  abbrev pub IsKept : Request E → Type 0
  IsKept r =
      (r.connection_waiter ≢ 0)
      × (0 < r.ctrler.keep_alive_ms)
      × (connected r.connection_waiter r.world.env ≡ true)

  keep_idle-Pools :
      (r : Request E)
      → r.ctrler.errnum ≡ 0
      → IsKept r
      → Pools (keep_idle act connected now new_client r).world r.connection_waiter
  unfolding keep_idle
  keep_idle-Pools r ok k =
      branch_if (λ (x : Request E). Pools x.world r.connection_waiter)
        ((ltb 0 r.ctrler.keep_alive_ms && (r.ctrler.errnum == 0))
          && connected r.connection_waiter r.world.env)
        _ r (λ _. keep_alive-Pools act _ _ _ r.world) (λ no. ground (arith, no, ok, k))

  inactive_lem :
      (r : Request E)
      → let r' = on_connection_inactive act connected now new_client r in
        (r'.connection_waiter ≡ 0)
        × (r.ctrler.errnum ≡ 0 → IsKept r → Pools r'.world r.connection_waiter)
  unfolding on_connection_inactive
  inactive_lem r =
      let kept = keep_idle act connected now new_client r in
      branch_if
        (λ (r' : Request E).
          (r'.connection_waiter ≡ 0)
          × (r.ctrler.errnum ≡ 0 → IsKept r → Pools r'.world r.connection_waiter))
        (r.connection_waiter == 0) r _
        (λ e. ((==_iff _ 0).0 e, λ _ k. absurd (k.0 ((==_iff _ 0).0 e))))
        (λ _. ((clear_lem kept).0, λ ok k. (clear_lem kept).1.1 _ (keep_idle-Pools r ok k)))

  ended_lem :
      (s : Request E)
      → let r' = ended act connected now new_client s in
        (r'.connection_waiter ≡ 0)
        × (s.ctrler.errnum ≢ 0 → r'.world.pool ≡ s.world.pool)
        × (s.ctrler.errnum ≡ 0 → IsKept s → Pools r'.world s.connection_waiter)
  unfolding ended finish_time_cost
  ended_lem s =
      let finished =
        λ (t : Request E). on_finish_lem (finish_time_cost act connected now new_client t) in
      let idle = on_connection_inactive act connected now new_client s in
      let inactive = inactive_lem s in
      branch_if
        (λ (t : Request E).
          let r' =
            on_finish act connected now new_client
              (finish_time_cost act connected now new_client t) in
          (r'.connection_waiter ≡ 0)
          × (s.ctrler.errnum ≢ 0 → r'.world.pool ≡ s.world.pool)
          × (s.ctrler.errnum ≡ 0 → IsKept s → Pools r'.world s.connection_waiter))
        (s.ctrler.errnum == 0) idle s
        (λ e. (
          (finished idle).0 (inl inactive.0),
          (λ ne. absurd (ne ((==_iff _ 0).0 e))),
          (λ ok k. (finished idle).1.1 _ (inactive.1 ok k)),
        ))
        (λ e. (
          (finished s).0 (inr (ground (arith, e))),
          (λ _. (finished s).1.0),
          (λ ok. absurd (ground (arith, e, ok))),
        ))

  -- Whatever happens while a request awaits its connection, it holds none when it has ended. If there was an
  -- error, the pool is as it was when the last coroutine that it awaited ended; if there was none, and the
  -- connection is to be kept and is connected, it is in the pool under its key, at the place that it knows.
  pub start_lem :
      (connect send recv : Request E → Request E) (r : Request E)
      → let s = awaited act connected now new_client connect send recv r in
        let r' = start act connected now new_client connect send recv r in
        (r'.connection_waiter ≡ 0)
        × (s.ctrler.errnum ≢ 0 → r'.world.pool ≡ s.world.pool)
        × (s.ctrler.errnum ≡ 0 → IsKept s → Pools r'.world s.connection_waiter)
  unfolding start
  start_lem connect send recv r =
      ended_lem (awaited act connected now new_client connect send recv r)

-- ===== src/Time/Waiter/Timeouts.antt =====
-- The timeouts of waiters and the timer.
use cort_proto.Prelude.{
  ℕ, ◌+◌, ◌^◌, ◌≤◌, ◌≡◌, ◌≢◌, refl, arith, update, update_self, true, false, ◌==◌, Option, none,
  some, branch_if,
}
use cort_proto.Prelude.Words.{add64}
use cort_proto.Time.Timer.{Timer, Entry, add_timer, remove_timer, erase, heap_size_delta}
use cort_proto.Time.Timer.Invariant.{Inv, add_timer-Inv}
use cort_proto.Time.Timer.Next.{remove_timer-Inv, entries-remove_timer}
use cort_proto.Time.Waiter.{
  Waiter, Clock, State, clear_timeout, start_timer, set_timeout, drop_ref, expire, is_timeout,
  is_stopped, get_timeout_time,
}

-- The timer is sound.
abbrev pub IsSound : Option Timer → Type 0
IsSound none = Unit
IsSound (some t) = Inv t

-- A sound timer that is `t` with the entry `e` taken out of its list.
abbrev pub HasLeft : Entry → Timer → Option Timer → Type 0
HasLeft e t o =
    (t' : Timer) × (o ≡ some t')
    × Inv t'
    × ((j : ℕ)
        → t'.entries j ≡ update t.entries e.host_list (erase e.node (t.entries e.host_list)) j)

-- A waiter that is resumed by its timeout has no node any more. Its entry has been taken out of its list in
-- the timer, the other lists are as they were, and the timer is sound; its event's pointer to it, if it
-- has one, is null; and it tells that it was the timeout and not a stop, whatever its flags were.
pub expire_lem :
    (e : Entry) (t : Timer) (w : Waiter) (c : Clock)
    → Inv t
    → let s = expire (record w { that = some e }, record c { eptimer = some t }) in
      HasLeft e t s.1.eptimer
      × (s.0.that ≡ none)
      × (w.ref_data ≢ 0 → s.1.cells w.ref_data ≡ 0)
      × (is_timeout s.0 ≡ true)
      × (is_stopped s.0 ≡ false)
unfolding expire is_timeout is_stopped clear_timeout drop_ref
expire_lem e t w c v =
    let left : HasLeft e t (some (remove_timer e t)) =
      (remove_timer e t, refl, remove_timer-Inv e v, λ j. entries-remove_timer e j v) in
    branch_if Told (w.ref_data == 0) _ _ (λ z. (left, refl, λ n. absurd (ground arith), refl, refl))
      (λ _. (left, refl, λ n. update_self c.cells w.ref_data 0, refl, refl))
  where
    Told : State → Type 0
    Told s =
        HasLeft e t s.1.eptimer
        × (s.0.that ≡ none)
        × (w.ref_data ≢ 0 → s.1.cells w.ref_data ≡ 0)
        × (is_timeout s.0 ≡ true)
        × (is_stopped s.0 ≡ false)

-- A waiter with no node that sets a timeout gets one, in a sound timer, and is due that long after
-- the present time.
pub set_timeout_lem :
    (this timeout_ms : ℕ) (t : Timer) (w : Waiter) (c : Clock)
    → Inv t
    → t.timer_capacity + heap_size_delta ≤ 2 ^ 61
    → let s =
        set_timeout this timeout_ms (record w { that = none }, record c { eptimer = some t }) in
      IsSound s.1.eptimer × (get_timeout_time s.0 ≡ add64 c.current_ms timeout_ms)
unfolding set_timeout clear_timeout start_timer get_timeout_time add_timer
set_timeout_lem this timeout_ms t w c v room =
    (add_timer-Inv this timeout_ms c.current_ms v room, refl)

-- ===== src/Net/Notified/Lifetime.antt =====
-- How long a notified connection lives.
use cort_proto.Prelude.{
  ℕ, ◌+◌, ◌^◌, ◌<◌, ◌≤◌, ◌≡◌, refl, arith, true, false, ◌||◌, leb, ◌==◌, branch_if,
}
use cort_proto.Prelude.Words.{add32, sub32}
use cort_proto.Net.{has}
use cort_proto.Net.Connection.{FileWaiter, minus_one}
use cort_proto.Net.Notified.{
  Held, release, set_errno, close_connection, stop_poll_when_notification, keep_alive,
  remove_keep_alive, idle_stop_events,
}

module _ {W : Type 0} (v : FileWaiter W) (remove_poll_request : W → W) (tell : ℕ → ℕ → W → W) where
  -- A connection without a parent that someone else holds, too, and whose time is up, calls its parent
  -- through the null pointer when it is notified.
  pub stop_poll_calls_null :
      (c : Held W)
      → c.parent ≡ 0
      → 1 < c.ref_count
      → c.ref_count < 2 ^ 32
      → v.is_timeout_or_stopped c.world ≡ true
      → (stop_poll_when_notification v remove_poll_request tell c).null_called ≡ true
  unfolding stop_poll_when_notification release close_connection set_errno
  stop_poll_calls_null c orphan shared word up =
      let e : (c.parent == 0) ≡ true = ground arith in
      let g : leb c.ref_count 1 ≡ false = ground arith in
      let n : (sub32 c.ref_count 1 == 0) ≡ false = ground arith in rw (e, g, n, up, e) refl

  -- A connection of the server that its controller puts aside, and then gives up, has as many holders as
  -- before. When it is notified, without events or because the other side has gone, it is closed, and it
  -- is deleted if it has no other holder.
  pub keep_alive_ends :
      (clear : W → W) (ctrler_creator : ℕ → Held W → Held W) (keep_alive_time : ℕ) (c : Held W)
      → 0 < c.ref_count
      → c.ref_count + 1 < 2 ^ 32
      → ((release v remove_poll_request tell
            (keep_alive v remove_poll_request tell keep_alive_time c)).0.ref_count
          ≡ c.ref_count)
        × ((idle : Held W)
            → ((v.poll_result idle.world == 0) || has idle_stop_events (v.poll_result idle.world))
              ≡ true
            → (v.cort_fd
                  (remove_keep_alive v remove_poll_request tell clear ctrler_creator idle).world
                ≡ minus_one)
              × (idle.ref_count ≤ 1
                  → (remove_keep_alive v remove_poll_request tell clear ctrler_creator
                      idle).is_deleted
                    ≡ true))
  unfolding remove_keep_alive release keep_alive
  keep_alive_ends clear ctrler_creator keep_alive_time c held word =
      let e : leb (add32 c.ref_count 1) 1 ≡ false = ground arith in
      (
        rw e (omega arith),
        λ idle ends. (
          rw ends (
              branch_if (λ (r : Held W × ℕ). v.cort_fd r.0.world ≡ minus_one) (leb idle.ref_count 1)
                _ _ (λ _. v.cort_fd-close idle.world) (λ _. v.cort_fd-close idle.world)),
          λ one. let g : leb idle.ref_count 1 ≡ true = ground arith in rw (ends, g) refl,
        ),
      )

-- ===== src/Net/Notified.antt =====
-- net/cort_tcp_ctrler.cpp, what a connection does when it has finished a job and when it is notified after
-- that, and net/cort_tcp_listener.cpp, `cort_tcp_server_waiter`: a connection of the server that is idle.
-- `tell parent err` is `set_errno` of the controller at `parent`; a call of it through the null pointer
-- sets `null_called` instead.
pub mod Lifetime
use Prim.Native.Nat.{bit_and}
use cort_proto.Prelude.{ℕ, ◌-◌, ◌^◌, Bool, true, false, not, ◌&&◌, ◌||◌, if◌then◌else◌, leb, ◌==◌}
use cort_proto.Prelude.Words.{add32, sub32}
use cort_proto.Net.{has, epollout}
use cort_proto.Net.Connection.{FileWaiter}

-- The functions that a connection has for its callback.
pub data Callback : Type 0 where
  no_callback : Callback
  stop_poll : Callback
  keepalive_server : Callback

pub record Held (W : Type 0) : Type 0 where
  pub world : W
  -- the address of the controller, 0 for none
  pub parent : ℕ
  pub ref_count : ℕ
  pub callback : Callback
  pub is_deleted : Bool
  pub null_called : Bool

-- EPOLLIN | EPOLLRDHUP
abbrev pub idle_poll_request : ℕ
idle_poll_request = 0x2001

-- EPOLLRDHUP | EPOLLERR
abbrev pub idle_stop_events : ℕ
idle_stop_events = 0x2008

module _ {W : Type 0} (v : FileWaiter W) (remove_poll_request : W → W) (tell : ℕ → ℕ → W → W) where
  abbrev on_world : (W → W) → Held W → Held W
  on_world f c = record c { world = f c.world }

  -- `cort_timeout_waiter::release`, and what it returns.
  unfoldable pub release : Held W → Held W × ℕ
  release c =
      let left = sub32 c.ref_count 1 in
      if leb c.ref_count 1
      then (record c { is_deleted = true }, 0)
      else (record c { ref_count = left }, left)

  unfoldable pub set_errno : ℕ → Held W → Held W
  set_errno err c =
      let told =
        if c.parent == 0 then record c { null_called = true } else on_world (tell c.parent err) c in
      on_world v.clear_timeout told

  unfoldable pub close_connection : ℕ → Held W → Held W
  unfolding set_errno
  close_connection err c = set_errno err (on_world v.close_cort_fd c)

  -- `stop_poll_when_notification`
  unfoldable pub stop_poll_when_notification : Held W → Held W
  unfolding release close_connection
  stop_poll_when_notification c =
      let (released, left) = release c in
      let held = if c.parent == 0 then released else c in
      if (c.parent == 0) && (left == 0)
      then held
      else (if v.is_timeout_or_stopped held.world
          then close_connection 0 held
          else on_world (λ w. remove_poll_request (v.clear_timeout w)) held)

  unfoldable pub on_finish : Held W → Held W
  unfolding release
  on_finish c =
      let c' = record (on_world v.clear_poll_result c) { callback = stop_poll } in
      let poll_req = v.poll_request c'.world in
      if c.parent == 0
      then (release c').0
      else (if has epollout poll_req
          then on_world (v.set_poll_request (bit_and (2 ^ 32 - 1 - 4) poll_req)) c'
          else c')

  -- `cort_tcp_server_waiter::keep_alive`
  unfoldable pub keep_alive : ℕ → Held W → Held W
  keep_alive keep_alive_time c = record c {
    world =
        v.clear_poll_result
          (v.set_poll_request idle_poll_request (v.set_timeout keep_alive_time c.world));
    parent = 0;
    callback = keepalive_server;
    ref_count = add32 c.ref_count 1;
  }

  -- `remove_keep_alive` of the listener; `clear` is that of the connection, `ctrler_creator` makes a new
  -- controller that holds it, with the events.
  unfoldable pub remove_keep_alive : (W → W) → (ℕ → Held W → Held W) → Held W → Held W
  unfolding release
  remove_keep_alive clear ctrler_creator c =
      let result = v.poll_result c.world in
      let cleared = record c {
        world = clear c.world;
        parent = 0;
        callback = no_callback;
        ref_count = sub32 c.ref_count 1;
      } in
      if (result == 0) || has idle_stop_events result
      then (release (on_world v.close_cort_fd c)).0
      else ctrler_creator result cleared

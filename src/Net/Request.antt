-- ===== src/Net/Request.antt =====
-- net/cort_tcp_ctrler.cpp and .h: how a `cort_tcp_ctrler` holds its connection, and the default request,
-- `cort_tcp_request_response`. A connection is given by its address, 0 for the null pointer.
-- `connected` is `is_connected` of a connection, `now` is the time in ms, `new_client` is `new` for a
-- connection, and `connect`, `send` and `recv` are what the three coroutines of the connection come to when
-- they are awaited, with all that other coroutines do in the meantime.
pub mod Ending
use cort_proto.Prelude.{
  ℕ, ◌^◌, ◌%◌, Bool, true, false, not, ◌&&◌, ◌||◌, [], ◌∷◌, if◌then◌else◌, ltb, ◌==◌,
}
use cort_proto.Prelude.Words.{sub32}
use cort_proto.Net.{socket_state_error}
use cort_proto.Net.Connection.{Ctrler}
use cort_proto.Net.KeepAlive.{
  World, Action, add_ref, release, set_parent, perform, key_of, keep_alive,
  get_keep_alive_connection_client,
}

pub record Request (E : Type 0) : Type 0 where
  pub ctrler : Ctrler
  -- the pointer in `cort_shared_ptr`
  pub connection_waiter : ℕ
  pub world : World E

module _ {E : Type 0} (act : Action → ℕ → E → E) (connected : ℕ → E → Bool) (now : E → ℕ)
    (new_client : World E → World E × ℕ) where
  abbrev pub set_errno : ℕ → Request E → Request E
  set_errno err r = record r { ctrler = record r.ctrler { errnum = err } }

  -- A call on the connection.
  abbrev pub on_connection : Action → Request E → Request E
  on_connection a r = record r {
    world = record r.world { env = perform act (a ∷ []) r.connection_waiter r.world.env };
  }

  -- `connection_waiter.clear()`
  pub clear : Request E → Request E
  clear r =
      if r.connection_waiter == 0
      then r
      else record (on_connection release r) { connection_waiter = 0 }

  -- `connection_waiter = ptr`
  pub assign : ℕ → Request E → Request E
  unfolding clear
  assign ptr r =
      let r' = record (clear r) { connection_waiter = ptr } in
      if r.connection_waiter == ptr then r else (if ptr == 0 then r' else on_connection add_ref r')

  -- `connection_waiter.init<cort_tcp_connection_waiter_client>()`
  pub init : Request E → Request E
  unfolding clear
  init r =
      let (w, p) = new_client (clear r).world in
      on_connection add_ref (record r { connection_waiter = p; world = w })

  -- The connection that `lock_waiter` takes from the pool.
  pub take_kept : Request E → Request E
  unfolding assign get_keep_alive_connection_client
  take_kept r =
      let c = r.ctrler in
      let (w, p) =
        get_keep_alive_connection_client act (key_of c.ip_v4 c.port_v4 c.type_key) r.world in
      assign p (record r { world = w })

  pub lock_waiter : Request E → Request E
  unfolding take_kept init
  lock_waiter r =
      let kept = if ltb 0 r.ctrler.keep_alive_ms then take_kept r else r in
      let held = if kept.connection_waiter == 0 then init kept else kept in
      on_connection set_parent (if r.connection_waiter == 0 then held else r)

  -- `cort_tcp_ctrler::try_connect`, with `connect`; try_send and try_recv, which need a connection.
  pub try_connect : (Request E → Request E) → Request E → Request E
  unfolding lock_waiter
  try_connect connect r = connect (lock_waiter r)

  pub try_transfer : (Request E → Request E) → Request E → Request E
  unfolding lock_waiter
  try_transfer transfer r =
      if r.connection_waiter == 0 then set_errno socket_state_error r else transfer (lock_waiter r)

  -- The connection is put into the pool, if it is to be kept.
  pub keep_idle : Request E → Request E
  unfolding keep_alive
  keep_idle r =
      let c = r.ctrler in
      let kept = record r {
        world =
            keep_alive act r.connection_waiter c.keep_alive_ms (key_of c.ip_v4 c.port_v4 c.type_key)
              r.world;
      } in
      if (ltb 0 c.keep_alive_ms && (c.errnum == 0)) && connected r.connection_waiter r.world.env
      then kept
      else r

  pub on_connection_inactive : Request E → Request E
  unfolding clear keep_idle
  on_connection_inactive r = if r.connection_waiter == 0 then r else clear (keep_idle r)

  -- `cort_tcp_ctrler::on_finish` up to that of the base class.
  pub on_finish : Request E → Request E
  unfolding clear
  on_finish r = if (r.connection_waiter == 0) || (r.ctrler.errnum == 0) then r else clear r

  pub init_time_cost : Request E → Request E
  init_time_cost r = record r { ctrler = record r.ctrler { timecost = now r.world.env % 2 ^ 32 } }

  pub finish_time_cost : Request E → Request E
  finish_time_cost r = record r {
    ctrler = record r.ctrler { timecost = sub32 (now r.world.env % 2 ^ 32) r.ctrler.timecost };
  }

  -- `start` of the default request up to the last coroutine that it awaits.
  pub awaited :
      (Request E → Request E)
      → (Request E → Request E)
      → (Request E → Request E)
      → Request E
      → Request E
  unfolding lock_waiter init_time_cost
  awaited connect send recv r =
      let connecting = connect (lock_waiter (init_time_cost r)) in
      let sending = send (lock_waiter connecting) in
      let receiving = recv (lock_waiter sending) in
      if connecting.ctrler.errnum == 0
      then (if sending.ctrler.errnum == 0 then receiving else sending)
      else connecting

  -- What follows it: the end of `start`, and `on_finish` of the request.
  pub ended : Request E → Request E
  unfolding on_connection_inactive finish_time_cost on_finish
  ended s =
      on_finish (finish_time_cost (if s.ctrler.errnum == 0 then on_connection_inactive s else s))

  -- `start`, and `on_finish` of the request.
  pub start :
      (Request E → Request E)
      → (Request E → Request E)
      → (Request E → Request E)
      → Request E
      → Request E
  unfolding awaited ended
  start connect send recv r = ended (awaited connect send recv r)

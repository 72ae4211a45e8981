-- ===== src/Net/KeepAlive.antt =====
-- net/cort_tcp_ctrler.cpp: the pool of idle connections, `connection_tcp_pool`.
-- A key is the address, the port and the type in one word. The map is a list in the order of its keys;
-- the null pointer is `none`. What is done to a connection itself is an action on the world.
pub mod Map
pub mod Placed
use cort_proto.Prelude.{
  ℕ, zero, suc, ◌+◌, ◌-◌, ◌*◌, ◌^◌, ◌<◌, ◌≡◌, refl, Bool, true, false, not, List, [], ◌∷◌, Option,
  none, some, length, if◌then◌else◌, ltb, leb, ◌==◌, update,
}

-- `std::vector<cort_tcp_connection_waiter_client*>`
pub record Vec : Type 0 where
  pub get : ℕ → ℕ
  pub size : ℕ

abbrev pub ConnMap : Type 0
ConnMap = List (ℕ × Vec)

-- `ip_v4_key`, the union of the three parts and a word, on a little-endian machine.
abbrev pub key_of : ℕ → ℕ → ℕ → ℕ
key_of ip port type_key = ip + port * 2 ^ 32 + type_key * 2 ^ 48

abbrev pub epoll_in_or_hup : ℕ
epoll_in_or_hup = 0x2001

-- The calls on a connection.
pub data Action : Type 0 where
  clear : Action
  close_cort_fd : Action
  release : Action
  add_ref : Action
  remove_ref : Action
  set_timeout : ℕ → Action
  -- `on_connection_keepalive_timeout_or_readable`
  set_callback_keepalive : Action
  -- `release_when_notification`
  set_callback_release : Action
  remove_parent : Action
  -- to the `cort_tcp_ctrler` that uses it
  set_parent : Action
  set_poll_request : ℕ → Action

-- The pool, the members `waiter_pos` and the key of each connection, and all else.
pub record World (E : Type 0) : Type 0 where
  pub pool : Option ConnMap
  pub waiter_pos : ℕ → ℕ
  pub key : ℕ → ℕ
  pub env : E

-- `back()`
abbrev pub back : Vec → ℕ
back dq = dq.get (dq.size - 1)

-- `pop_back()`
abbrev pub pop_back : Vec → Vec
pop_back dq = record dq { size = dq.size - 1 }

abbrev pub push_back : ℕ → Vec → Vec
push_back p dq = record { get = update dq.get dq.size p; size = dq.size + 1 }

abbrev pub no_connections : Vec
no_connections = record { get = λ i. 0; size = 0 }

unfoldable pub find : ℕ → ConnMap → Option Vec
find k [] = none
find k ((j, dq) ∷ m) = if j == k then some dq else find k m

-- What is done with a pointer or an iterator, and what when it is null or the end.
pub maybe : {A : Type 0} {R : Type 0} → Option A → R → (A → R) → R
maybe none r f = r
maybe (some a) r f = f a

pub maybe-elim :
    {A : Type 0} {R : Type 0} (P : R → Type 0) (o : Option A) (r : R) (f : A → R)
    → (o ≡ none → P r)
    → ((a : A) → o ≡ some a → P (f a))
    → P (maybe o r f)
unfolding maybe
maybe-elim P none r f h g = h refl
maybe-elim P (some a) r f h g = g a refl

-- The entry of `k` is `dq`; a new one is put in its place in the order.
unfoldable pub set : ℕ → Vec → ConnMap → ConnMap
set k dq [] = (k, dq) ∷ []
set k dq ((j, d) ∷ m) =
    if j == k then (k, dq) ∷ m else (if ltb k j then (k, dq) ∷ (j, d) ∷ m else (j, d) ∷ set k dq m)

pub erase : ℕ → ConnMap → ConnMap
erase k [] = []
erase k ((j, d) ∷ m) = if j == k then m else (j, d) ∷ erase k m

-- The vector of `k` has become `dq`; the end of the three functions that take connections out.
pub put_back : ℕ → Vec → ConnMap → Option ConnMap
unfolding set erase
put_back k dq m =
    if dq.size == 0 then (if length m == 1 then none else some (erase k m)) else some (set k dq m)

-- The vector that `operator[]` of the map gives, and the map.
abbrev pub entry : ℕ → Option ConnMap → Vec
entry k none = no_connections
entry k (some m) = elim (find k m) [ none ↦ no_connections | some dq ↦ dq ]

abbrev pub map_of : Option ConnMap → ConnMap
map_of none = []
map_of (some m) = m

-- The entry with the largest vector, the first of these: `k` and `dq` are the best so far.
pub largest : ℕ → Vec → ConnMap → ℕ × Vec
largest k dq [] = (k, dq)
largest k dq ((j, d) ∷ m) = if ltb dq.size d.size then largest j d m else largest k dq m

pub chosen : ℕ → ℕ → ConnMap → Option (ℕ × Vec)
unfolding find largest maybe
chosen ip k [] = none
chosen ip k ((j, d) ∷ m) =
    if ip == 0 then some (largest j d m) else maybe (find k ((j, d) ∷ m)) none (λ dq. some (k, dq))

-- `dq[p->waiter_pos] = last` for the last connection, which gets that position; then `pop_back`.
pub swap_remove : ℕ → Vec → (ℕ → ℕ) → Vec × (ℕ → ℕ)
swap_remove p dq waiter_pos =
    let waiter_pos' = update waiter_pos (back dq) (waiter_pos p) in
    (pop_back (record dq { get = update dq.get (waiter_pos' p) (back dq) }), waiter_pos')

module _ {E : Type 0} (act : Action → ℕ → E → E) where
  abbrev pub perform : List Action → ℕ → E → E
  perform [] p e = e
  perform (a ∷ rest) p e = perform rest p (act a p e)

  -- The source reads through the pointer to the pool; there is a pool whenever this is called.
  pub remove_keep_alive : ℕ → World E → World E
  unfolding swap_remove find put_back maybe
  remove_keep_alive p w = maybe w.pool w (λ m. maybe (find (w.key p) m) w (λ dq.
      let (dq', waiter_pos') = swap_remove p dq w.waiter_pos in
      record w {
        pool = put_back (w.key p) dq' m;
        waiter_pos = waiter_pos';
        env = perform (clear ∷ close_cort_fd ∷ release ∷ []) p w.env;
      }))

  unfoldable pub keep_alive : ℕ → ℕ → ℕ → World E → World E
  unfolding find set
  keep_alive p keep_alive_ms k w =
      let dq = entry k w.pool in
      record {
        pool = some (set k (push_back p dq) (map_of w.pool));
        waiter_pos = update w.waiter_pos p dq.size;
        key = update w.key p k;
        env =
            perform
              (add_ref
                ∷ set_timeout keep_alive_ms
                ∷ set_callback_keepalive
                ∷ remove_parent
                ∷ set_poll_request epoll_in_or_hup
                ∷ [])
              p w.env;
      }

  -- The connection, or 0.
  unfoldable pub get_keep_alive_connection_client : ℕ → World E → World E × ℕ
  unfolding find put_back maybe
  get_keep_alive_connection_client k w =
      maybe w.pool (w, 0)
        (λ m.
          maybe (find k m) (w, 0)
            (λ dq. (
              record w {
                pool = put_back k (pop_back dq) m;
                env = perform (clear ∷ remove_ref ∷ []) (back dq) w.env;
              },
              back dq,
            )))

  -- The loop that takes up to `count` connections off the end: the vector, the effects, and how many.
  pub drop_last : ℕ → Vec → E → ℕ → Vec × E × ℕ
  drop_last zero dq e result = (dq, e, result)
  drop_last (suc count) dq e result =
      let rest =
        drop_last count (pop_back dq)
          (perform (close_cort_fd ∷ set_callback_release ∷ []) (back dq) e) (result + 1) in
      if dq.size == 0 then (dq, e, result) else rest

  -- The number of connections that it closes is returned, too.
  pub clear_keep_alive_connection : ℕ → ℕ → ℕ → ℕ → World E → World E × ℕ
  unfolding chosen drop_last put_back maybe
  clear_keep_alive_connection count ip port type_key w =
      maybe w.pool (w, 0)
        (λ m.
          maybe (chosen ip (key_of ip port type_key) m) (w, 0)
            (λ (k, dq).
              let (dq', env', result) = drop_last count dq w.env 0 in
              (record w { pool = put_back k dq' m; env = env' }, result)))

-- ===== src/Net/KeepAlive/Placed/Calls.antt =====
-- The functions on the pool of idle connections keep every connection in its place.
use cort_proto.Prelude.{
  ℕ, zero, suc, ◌+◌, ◌-◌, ◌<◌, ◌≡◌, ◌≢◌, refl, arith, [], ◌∷◌, Option, none, some, if◌then◌else◌,
  ◌==◌, update,
}
use cort_proto.Net.KeepAlive.{
  Vec, ConnMap, World, Action, close_cort_fd, set_callback_release, find, set, entry, map_of, back,
  pop_back, push_back, maybe, maybe-elim, swap_remove, remove_keep_alive, keep_alive, drop_last,
  largest, chosen, key_of, perform, get_keep_alive_connection_client, clear_keep_alive_connection,
}
use cort_proto.Net.KeepAlive.Map.{Above, IsSorted, Above-weaken, find-Above, find-set, set-IsSorted}
use cort_proto.Net.KeepAlive.Placed.{
  IsFull, HasEntries, IsAtPlace, IsPlaced, Pools, put_back-IsPlacedIn, set-IsFull, set-HasEntries,
  choose-IsAtPlace,
}

swap-IsAtPlace :
    (p k : ℕ) (dq : Vec) (waiter_pos key : ℕ → ℕ)
    → IsAtPlace waiter_pos key k dq
    → waiter_pos p < dq.size
    → IsAtPlace (swap_remove p dq waiter_pos).1 key k (swap_remove p dq waiter_pos).0
unfolding swap_remove
swap-IsAtPlace p k dq waiter_pos key at h i j = ground (arith, at i, at (dq.size - 1))

-- The other vectors do not hold the connection that moves.
swap-other :
    (p k q : ℕ) (dq d : Vec) (waiter_pos key : ℕ → ℕ)
    → IsAtPlace waiter_pos key k dq
    → waiter_pos p < dq.size
    → ¬ (k ≡ q)
    → IsAtPlace waiter_pos key q d
    → IsAtPlace (swap_remove p dq waiter_pos).1 key q d
unfolding swap_remove
swap-other p k q dq d waiter_pos key at h ne at_q i j = ground (arith, at (dq.size - 1), at_q i)

entry-found :
    (k : ℕ) (m : ConnMap) (d : Vec) (pool : Option ConnMap)
    → pool ≡ some m
    → find k m ≡ some d
    → entry k pool ≡ d
entry-found k m d pool e e' = rw e (rw (entry, e') refl)

found-IsPlaced :
    {E : Type 0} (w : World E) (k : ℕ) (m : ConnMap) (d : Vec)
    → IsPlaced w
    → w.pool ≡ some m
    → find k m ≡ some d
    → IsSorted m
      × IsFull m
      × IsAtPlace w.waiter_pos w.key k d
      × ((q : ℕ) → IsAtPlace w.waiter_pos w.key q (entry q (some m)))
unfolding IsPlaced
found-IsPlaced w k m d (s, full, h, at) e e' =
    (rw e at s, rw e at full, rw (entry-found k m d w.pool e e') at (at k), λ q. rw e at (at q))

pop-IsAtPlace :
    (waiter_pos key : ℕ → ℕ) (k : ℕ) (d : Vec)
    → IsAtPlace waiter_pos key k d
    → IsAtPlace waiter_pos key k (pop_back d)
pop-IsAtPlace waiter_pos key k d at i h = at i (omega (arith, h))

-- The best entry so far stands before the others; the result is an entry.
largest-find :
    (k : ℕ) (dq : Vec) (m : ConnMap)
    → Above k m
    → let (k', dq') = largest k dq m in find k' ((k, dq) ∷ m) ≡ some dq'
unfolding largest find
largest-find k dq [] above = ground arith
largest-find k dq ((j, d) ∷ m) (lt, above) = ground (
  arith,
  largest-find j d m above,
  largest-find k dq m (Above-weaken k j m (omega (arith, lt)) above),
  find-Above k k ((j, d) ∷ m) (lt, above),
  find-Above j j m above,
)

chosen-find :
    (ip k j : ℕ) (d : Vec) (m : ConnMap)
    → IsSorted m
    → chosen ip k m ≡ some (j, d)
    → find j m ≡ some d
unfolding chosen maybe
chosen-find ip k j d [] s e = ground arith
chosen-find ip k j d ((i, v) ∷ m) s e = ground (arith, largest-find i v m s)

pub entry-set :
    (k q : ℕ) (dq : Vec) (pool : Option ConnMap)
    → entry q (some (set k dq (map_of pool))) ≡ (if k == q then dq else entry q pool)
unfolding find set
entry-set k q dq none = ground arith
entry-set k q dq (some m) = ground (arith, find-set k q dq m)

push-IsAtPlace :
    (p k : ℕ) (d : Vec) (waiter_pos key : ℕ → ℕ)
    → IsAtPlace waiter_pos key k d
    → ((i : ℕ) → i < d.size → d.get i ≢ p)
    → IsAtPlace (update waiter_pos p d.size) (update key p k) k (push_back p d)
push-IsAtPlace p k d waiter_pos key at new i h = ground (arith, at i, new i)

other-IsAtPlace :
    (p k q : ℕ) (d : Vec) (n : ℕ) (waiter_pos key : ℕ → ℕ)
    → IsAtPlace waiter_pos key q d
    → ((i : ℕ) → i < d.size → d.get i ≢ p)
    → IsAtPlace (update waiter_pos p n) (update key p k) q d
other-IsAtPlace p k q d n waiter_pos key at new i h = ground (arith, at i, new i)

module _ {E : Type 0} (act : Action → ℕ → E → E) where
  pub remove-IsPlaced :
      (p : ℕ) (w : World E) → IsPlaced w → Pools w p → IsPlaced (remove_keep_alive act p w)
  unfolding IsPlaced remove_keep_alive Pools
  remove-IsPlaced p w placed (inside, here) =
      maybe-elim IsPlaced w.pool w _ (λ e. placed)
        (λ m e.
          maybe-elim IsPlaced (find (w.key p) m) w _ (λ e'. placed)
            (λ d e'.
              let (s, full, at_k, at) = found-IsPlaced w (w.key p) m d placed e e' in
              let inside' = rw (entry-found (w.key p) m d w.pool e e') at inside in
              let (d', waiter_pos') = swap_remove p d w.waiter_pos in
              put_back-IsPlacedIn (w.key p) d d' m waiter_pos' w.key s full e'
                (swap-IsAtPlace p (w.key p) d w.waiter_pos w.key at_k inside')
                (λ q ne.
                  swap-other p (w.key p) q d (entry q (some m)) w.waiter_pos w.key at_k inside' ne
                    (at q))))

  pub get-IsPlaced :
      (k : ℕ) (w : World E) → IsPlaced w → IsPlaced (get_keep_alive_connection_client act k w).0
  unfolding IsPlaced get_keep_alive_connection_client
  get-IsPlaced k w placed =
      let P = λ (r : World E × ℕ). IsPlaced r.0 in
      maybe-elim P w.pool (w, 0) _ (λ e. placed)
        (λ m e.
          maybe-elim P (find k m) (w, 0) _ (λ e'. placed)
            (λ d e'.
              let (s, full, at_k, at) = found-IsPlaced w k m d placed e e' in
              put_back-IsPlacedIn k d (pop_back d) m w.waiter_pos w.key s full e'
                (pop-IsAtPlace w.waiter_pos w.key k d at_k) (λ q ne. at q)))

  drop_last_lem :
      (count : ℕ) (dq : Vec) (e : E) (result : ℕ)
      → let (dq', e', result') = drop_last act count dq e result in
        (dq'.get ≡ dq.get) × (dq'.size ≡ dq.size - count) × (dq'.size + result' ≡ dq.size + result)
  unfolding drop_last
  drop_last_lem zero dq e result = (refl, omega arith, refl)
  drop_last_lem (suc count) dq e result = ground (
    arith,
    drop_last_lem count (pop_back dq)
        (perform act (close_cort_fd ∷ set_callback_release ∷ []) (back dq) e) (result + 1),
  )

  pub clear-IsPlaced :
      (count ip port type_key : ℕ) (w : World E)
      → IsPlaced w
      → IsPlaced (clear_keep_alive_connection act count ip port type_key w).0
  unfolding IsPlaced clear_keep_alive_connection
  clear-IsPlaced count ip port type_key w placed =
      let P = λ (r : World E × ℕ). IsPlaced r.0 in
      maybe-elim P w.pool (w, 0) _ (λ e. placed)
        (λ m e.
          maybe-elim P (chosen ip (key_of ip port type_key) m) (w, 0) _ (λ e'. placed)
            (λ (k, d) e'.
              let found = chosen-find ip (key_of ip port type_key) k d m (rw e at placed.0) e' in
              let (s, full, at_k, at) = found-IsPlaced w k m d placed e found in
              let (d', e2, r2) = drop_last act count d w.env 0 in
              let (same_get, less, _) = drop_last_lem count d w.env 0 in
              put_back-IsPlacedIn k d d' m w.waiter_pos w.key s full found
                (λ i h. rw same_get (at_k i (omega (arith, h, less)))) (λ q ne. at q)))

  pub keep-IsPlaced :
      (p ms k : ℕ) (w : World E)
      → IsPlaced w
      → ((q i : ℕ) → i < (entry q w.pool).size → (entry q w.pool).get i ≢ p)
      → IsPlaced (keep_alive act p ms k w)
  unfolding IsPlaced keep_alive HasEntries
  keep-IsPlaced p ms k w (s, full, h, at) new =
      let n = (entry k w.pool).size in
      (
        set-IsSorted k (push_back p (entry k w.pool)) (map_of w.pool) s,
        set-IsFull k (push_back p (entry k w.pool)) (map_of w.pool) (omega arith) full,
        set-HasEntries k (push_back p (entry k w.pool)) (map_of w.pool),
        λ q. rw (entry-set k q (push_back p (entry k w.pool)) w.pool) (
            choose-IsAtPlace (update w.waiter_pos p n) (update w.key p k) k q
              (push_back p (entry k w.pool)) (entry q w.pool)
              (push-IsAtPlace p k (entry k w.pool) w.waiter_pos w.key (at k) (new k))
              (λ ne. other-IsAtPlace p k q (entry q w.pool) n w.waiter_pos w.key (at q) (new q))),
      )

-- ===== src/Net/KeepAlive/Placed/Reached.antt =====
-- The pool as a state machine whose steps are the calls.
use cort_proto.Prelude.{◌≡◌, none, ap, sym, ◌∙◌, arith, ℕ, ◌<◌, ◌≢◌}
use cort_proto.Net.KeepAlive.{
  World, Action, entry, remove_keep_alive, keep_alive, get_keep_alive_connection_client,
  clear_keep_alive_connection,
}
use cort_proto.Net.KeepAlive.Placed.{nil-IsFull, HasEntries, IsAtPlace, IsPlaced, Pools}
use cort_proto.Net.KeepAlive.Placed.Calls.{
  remove-IsPlaced, get-IsPlaced, clear-IsPlaced, keep-IsPlaced,
}

-- The calls on the pool, one after the other. A connection that is kept alive is not yet in the pool,
-- and one that is taken out, when its time is over or it is readable, is.
pub data Step {E : Type 0} (act : Action → ℕ → E → E) : World E → World E → Type 0 where
  keeps :
      (p ms k : ℕ) (w : World E)
      → ((q i : ℕ) → i < (entry q w.pool).size → (entry q w.pool).get i ≢ p)
      → Step act w (keep_alive act p ms k w)
  removes : (p : ℕ) (w : World E) → Pools w p → Step act w (remove_keep_alive act p w)
  gets : (k : ℕ) (w : World E) → Step act w (get_keep_alive_connection_client act k w).0
  clears :
      (count ip port type_key : ℕ) (w : World E)
      → Step act w (clear_keep_alive_connection act count ip port type_key w).0

-- There is no pool at first.
pub data Reached {E : Type 0} (act : Action → ℕ → E → E) : World E → Type 0 where
  start :
      (waiter_pos key : ℕ → ℕ) (e : E)
      → Reached act (record { pool = none; waiter_pos = waiter_pos; key = key; env = e })
  call : (w w' : World E) → Reached act w → Step act w w' → Reached act w'

module _ {E : Type 0} (act : Action → ℕ → E → E) where
  -- Each call keeps the invariant.
  Step-IsPlaced : (w w' : World E) → Step act w w' → IsPlaced w → IsPlaced w'
  Step-IsPlaced _ _ (keeps p ms k w new) placed = keep-IsPlaced act p ms k w placed new
  Step-IsPlaced _ _ (removes p w inside) placed = remove-IsPlaced act p w placed inside
  Step-IsPlaced _ _ (gets k w) placed = get-IsPlaced act k w placed
  Step-IsPlaced _ _ (clears count ip port type_key w) placed =
      clear-IsPlaced act count ip port type_key w placed

  start-IsPlaced :
      (waiter_pos key : ℕ → ℕ) (e : E)
      → IsPlaced (record { pool = none; waiter_pos = waiter_pos; key = key; env = e })
  unfolding IsPlaced HasEntries
  start-IsPlaced waiter_pos key e = (tt, nil-IsFull, tt, λ k i h. absurd (omega (arith, h)))

  -- After any calls to keep a connection alive, to take one out when its time is over, to get one and to close
  -- some, where a connection is only kept alive when it is not pooled and only taken out when it is, every pooled
  -- connection is in its place: the keys are in order and each once, no vector is empty, an empty map is not kept,
  -- and the position and the key of a connection say where it stands.
  pub Reached-IsPlaced : (w : World E) → Reached act w → IsPlaced w
  Reached-IsPlaced _ (start waiter_pos key e) = start-IsPlaced waiter_pos key e
  Reached-IsPlaced _ (call w w' reached step) = Step-IsPlaced w w' step (Reached-IsPlaced w reached)

  IsPlaced-at :
      (w : World E) → IsPlaced w → (k : ℕ) → IsAtPlace w.waiter_pos w.key k (entry k w.pool)
  unfolding IsPlaced
  IsPlaced-at w (_, _, _, at) = at

  -- After any such calls a connection stands at one place of the pool at most: two places that hold it have the
  -- same key and the same position.
  pub Reached-distinct :
      (w : World E) (k k' i i' : ℕ)
      → Reached act w
      → i < (entry k w.pool).size
      → i' < (entry k' w.pool).size
      → (entry k w.pool).get i ≡ (entry k' w.pool).get i'
      → (k ≡ k') × (i ≡ i')
  Reached-distinct w k k' i i' reached h h' same =
      let at = IsPlaced-at w (Reached-IsPlaced w reached) in
      let (pos, key) = at k i h in
      let (pos', key') = at k' i' h' in
      (sym key ∙ ap w.key same ∙ key', sym pos ∙ ap w.waiter_pos same ∙ pos')

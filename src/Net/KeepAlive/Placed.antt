-- ===== src/Net/KeepAlive/Placed.antt =====
-- Every pooled connection knows its place: the invariant of the pool, and the steps that keep it.
pub mod Calls
pub mod Reached
use cort_proto.Prelude.{
  ℕ, zero, suc, ◌+◌, ◌-◌, ◌<◌, ◌≤◌, ◌≡◌, ◌≢◌, ◌⊎◌, refl, arith, Bool, true, false, List, [], ◌∷◌,
  Option, none, some, length, Bool-cases, inl, inr, sym, if◌then◌else◌, ltb, ◌==◌, update,
}
use cort_proto.Net.KeepAlive.{
  Vec, ConnMap, World, Action, close_cort_fd, set_callback_release, find, set, erase, put_back,
  entry, map_of, no_connections, back, pop_back, push_back, maybe, maybe-elim, swap_remove,
  remove_keep_alive, keep_alive, drop_last, largest, chosen, key_of, perform,
  get_keep_alive_connection_client, clear_keep_alive_connection,
}
use cort_proto.Net.KeepAlive.Map.{
  Above, IsSorted, Above-weaken, find-Above, find-set, find-erase, set-IsSorted, erase-IsSorted,
}

-- No entry is empty.
pub IsFull : ConnMap → Type 0
IsFull m = (q : ℕ) (d : Vec) → find q m ≡ some d → 0 < d.size

-- There is no empty map: the functions read its first entry.
pub HasEntries : Option ConnMap → Type 0
HasEntries none = Unit
HasEntries (some []) = ⊥
HasEntries (some (x ∷ m)) = Unit

-- What `put_back` leaves as the vector of its key.
abbrev pub kept : Vec → Vec
kept dq = if dq.size == 0 then no_connections else dq

-- What is found at another key than the only one.
find-other :
    (k q : ℕ) (d : Vec) (m : ConnMap)
    → length m ≡ 1
    → find k m ≡ some d
    → ¬ (k ≡ q)
    → find q m ≡ none
unfolding find
find-other k q d [] n h ne = refl
find-other k q d ((j, v) ∷ []) n h ne = ground arith
find-other k q d ((j, v) ∷ x ∷ m) n h ne = ground arith

pub entry-put_back :
    (k q : ℕ) (dq d : Vec) (m : ConnMap)
    → IsSorted m
    → find k m ≡ some d
    → entry q (put_back k dq m) ≡ (if k == q then kept dq else entry q (some m))
unfolding put_back
entry-put_back k q dq d m s h =
    ground (arith, find-set k q dq m, find-erase k q m s, find-other k q d m)

pub set-HasEntries : (k : ℕ) (dq : Vec) (m : ConnMap) → HasEntries (some (set k dq m))
unfolding HasEntries set
set-HasEntries k dq [] = tt
set-HasEntries k dq ((j, d) ∷ m) = ground arith

pub put_back-HasEntries :
    (k : ℕ) (dq d : Vec) (m : ConnMap) → find k m ≡ some d → HasEntries (put_back k dq m)
unfolding put_back HasEntries find erase
put_back-HasEntries k dq d [] h = ground arith
put_back-HasEntries k dq d (x ∷ []) h = ground (arith, set-HasEntries k dq (x ∷ []))
put_back-HasEntries k dq d ((j, v) ∷ x ∷ m) h = ground (arith, set-HasEntries k dq ((j, v) ∷ x ∷ m))

-- Every pooled connection has its key and the position at which it stands in the vector of that key.
abbrev pub IsAtPlace : (ℕ → ℕ) → (ℕ → ℕ) → ℕ → Vec → Type 0
IsAtPlace waiter_pos key k dq =
    (i : ℕ) → i < dq.size → (waiter_pos (dq.get i) ≡ i) × (key (dq.get i) ≡ k)

abbrev pub IsPlacedIn : Option ConnMap → (ℕ → ℕ) → (ℕ → ℕ) → Type 0
IsPlacedIn pool waiter_pos key =
    IsSorted (map_of pool)
    × IsFull (map_of pool)
    × HasEntries pool
    × ((k : ℕ) → IsAtPlace waiter_pos key k (entry k pool))

unfoldable pub IsPlaced : {E : Type 0} → World E → Type 0
IsPlaced w = IsPlacedIn w.pool w.waiter_pos w.key

-- The connection is in the pool.
unfoldable pub Pools : {E : Type 0} → World E → ℕ → Type 0
Pools w p =
    (w.waiter_pos p < (entry (w.key p) w.pool).size)
    × ((entry (w.key p) w.pool).get (w.waiter_pos p) ≡ p)

pub set-IsFull : (k : ℕ) (dq : Vec) (m : ConnMap) → 0 < dq.size → IsFull m → IsFull (set k dq m)
unfolding IsFull
set-IsFull k dq m h full q v e = ground (arith, find-set k q dq m, full q v)

erase-IsFull : (k : ℕ) (m : ConnMap) → IsSorted m → IsFull m → IsFull (erase k m)
unfolding IsFull
erase-IsFull k m s full q v e = ground (arith, find-erase k q m s, full q v)

pub nil-IsFull : IsFull []
unfolding IsFull find
nil-IsFull q v e = ground arith

put_back-IsSorted :
    (k : ℕ) (dq : Vec) (m : ConnMap) → IsSorted m → IsSorted (map_of (put_back k dq m))
unfolding put_back
put_back-IsSorted k dq m s = ground (arith, set-IsSorted k dq m, erase-IsSorted k m)

put_back-IsFull :
    (k : ℕ) (dq : Vec) (m : ConnMap) → IsSorted m → IsFull m → IsFull (map_of (put_back k dq m))
unfolding put_back
put_back-IsFull k dq m s full =
    ground (arith, set-IsFull k dq m, erase-IsFull k m s full, nil-IsFull)

kept-IsAtPlace :
    (waiter_pos key : ℕ → ℕ) (k : ℕ) (dq : Vec)
    → IsAtPlace waiter_pos key k dq
    → IsAtPlace waiter_pos key k (kept dq)
kept-IsAtPlace waiter_pos key k dq at i h = ground (arith, at i)

pub choose-IsAtPlace :
    (waiter_pos key : ℕ → ℕ) (k q : ℕ) (dq d : Vec)
    → IsAtPlace waiter_pos key k dq
    → (¬ (k ≡ q) → IsAtPlace waiter_pos key q d)
    → IsAtPlace waiter_pos key q (if k == q then dq else d)
choose-IsAtPlace waiter_pos key k q dq d at_k at_q = elim (Bool-cases (k == q)) [
  | inl same ↦ let e : q ≡ k = ground (arith, same) in rw same (rw e at_k)
  | inr other ↦ rw other (at_q (λ e. ground (arith, e, other)))
]

-- A pool stays placed when a vector that was found becomes another that is placed.
pub put_back-IsPlacedIn :
    (k : ℕ) (d dq : Vec) (m : ConnMap) (waiter_pos key : ℕ → ℕ)
    → IsSorted m
    → IsFull m
    → find k m ≡ some d
    → IsAtPlace waiter_pos key k dq
    → ((q : ℕ) → ¬ (k ≡ q) → IsAtPlace waiter_pos key q (entry q (some m)))
    → IsPlacedIn (put_back k dq m) waiter_pos key
put_back-IsPlacedIn k d dq m waiter_pos key s full f at_k at_q = (
  put_back-IsSorted k dq m s,
  put_back-IsFull k dq m s full,
  put_back-HasEntries k dq d m f,
  λ q. rw (entry-put_back k q dq d m s f) (
      choose-IsAtPlace waiter_pos key k q (kept dq) (entry q (some m))
        (kept-IsAtPlace waiter_pos key k dq at_k) (at_q q)),
)

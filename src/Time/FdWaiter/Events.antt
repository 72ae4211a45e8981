-- ===== src/Time/FdWaiter/Events.antt =====
-- Events that are still to be handled when a waiter goes away.
use cort_proto.Prelude.{ℕ, ◌≡◌, ◌≢◌, ◌⊎◌, arith, Bool, true, false}
use cort_proto.Time.FdWaiter.{World, on, is_negative, drop_ref, closed, close_cort_fd}

-- The pointers at the pending addresses: each is null, or its waiter knows where it stands.
abbrev pub Linked : {K : Type 0} → (ℕ → Bool) → World K → Type 0
Linked pending w =
    (a : ℕ)
    → pending a ≡ true
    → (a ≢ 0) × ((w.polling.cells a ≡ 0) ⊎ ((w.waiters (w.polling.cells a)).ref_data ≡ a))

-- Where every pointer in a pending event is null or leads to a waiter that knows it, closing a
-- waiter, of an open file, keeps that, and leaves no pending event with a pointer to the closed
-- waiter.
pub closed_not_pending :
    {K : Type 0} (close : ℕ → K → K) (pending : ℕ → Bool) (p : ℕ) (w : World K)
    → p ≢ 0
    → is_negative (w.waiters p).cort_fd ≡ false
    → Linked pending w
    → Linked pending (on (close_cort_fd close) p w)
      × ((a : ℕ) → pending a ≡ true → (on (close_cort_fd close) p w).polling.cells a ≢ p)
unfolding on close_cort_fd drop_ref closed
closed_not_pending close pending p w ne held links =
    (λ a here. ground (arith, links a here), λ a here stays. ground (arith, links a here))

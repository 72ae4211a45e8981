-- ===== src/Util/PodPool/Laws.antt =====
-- `cort_pod_pool` against the list of its elements.
use mathlib.Core.List.{Perm, perm_append_singleton}
use mathlib.Core.List.Perm
use cort_proto.Prelude.{
  ℕ, zero, suc, ◌+◌, ◌-◌, ◌%◌, ◌^◌, ◌≤◌, ◌<◌, ◌≡◌, refl, sym, arith, ◌==◌, ◌∙◌, List, [], ◌∷◌, ◌++◌,
  ap, ap₂, update, update_self, update_ne, tabulate, tabulate-eq, tabulate-suc,
}
use cort_proto.Util.PodPool.{PodPool, push_back, pop_back, pop_at, pop_front, grown, contents}

pub record IsValid {ℓ} {A : Type ℓ} (q : PodPool A) : Type 0 where
  pub one : 1 ≤ q.the_capacity
  pub small : q.the_capacity ≤ 2 ^ 62
  pub size_in : q.the_size ≤ q.the_capacity

module _ {ℓ} {A : Type ℓ} where
  grown_room :
      (q : PodPool A)
      → IsValid q
      → q.the_size < 2 ^ 61
      → (q.the_size < grown q) × (grown q ≤ 2 ^ 62)
  unfolding grown
  grown_room q v h = ground arith

  contents-push_back :
      (q : PodPool A) (x : A) → IsValid q → contents (push_back q x) ≡ contents q ++ (x ∷ [])
  unfolding push_back
  contents-push_back q x v =
      let size : (q.the_size + 1) % 2 ^ 64 ≡ suc q.the_size = omega arith in
      ap (λ n. tabulate n (update q.ptr q.the_size x)) size
      ∙ tabulate-suc q.the_size (update q.ptr q.the_size x)
      ∙ ap₂ ◌++◌ (tabulate-eq q.the_size _ _ (λ k lt. update_ne q.ptr x (omega arith)))
          (ap (λ y. y ∷ []) (update_self q.ptr q.the_size x))

  -- `push_back` puts its argument behind the elements and keeps their order, and there is room for
  -- the store: the size it leaves is within the capacity it leaves; for fewer than 2 ^ 61 elements.
  pub push_back_lem :
      {q : PodPool A} (x : A)
      → IsValid q
      → q.the_size < 2 ^ 61
      → (contents (push_back q x) ≡ contents q ++ (x ∷ [])) × IsValid (push_back q x)
  push_back_lem {q} x v h =
      (contents-push_back q x v, (let room = grown_room q v h in unfold push_back in omega arith))

  -- `pop_back` undoes `push_back`: it returns the last element and leaves those before it.
  pub pop_back_lem :
      {q : PodPool A}
      → IsValid q
      → 0 < q.the_size
      → (contents q ≡ contents (pop_back q).1 ++ ((pop_back q).0 ∷ [])) × IsValid (pop_back q).1
  unfolding pop_back
  pop_back_lem {q} v h =
      let size : q.the_size ≡ suc ((q.the_size + 2 ^ 64 - 1) % 2 ^ 64) = omega arith in
      (ap (λ n. tabulate n q.ptr) size ∙ tabulate-suc _ q.ptr, omega arith)

  perm_of_eq : {xs ys : List A} → xs ≡ ys → Perm xs ys
  perm_of_eq {xs} e = rw (← e) (Perm.refl xs)

  -- A list given by entries is its last entry and the others.
  last_first : (n : ℕ) (f : ℕ → A) → Perm (tabulate (suc n) f) (f n ∷ tabulate n f)
  last_first n f = rw (tabulate-suc n f) (perm_append_singleton (f n) (tabulate n f))

  -- Dropping the last entry after writing it over entry `p` drops entry `p`.
  tabulate-swap_remove :
      (n p : ℕ) (f : ℕ → A)
      → p ≤ n
      → Perm (tabulate (suc n) f) (f p ∷ tabulate n (update f p (f n)))
  tabulate-swap_remove zero zero f h = Perm.refl _
  tabulate-swap_remove zero (suc p) f h = absurd (omega arith)
  tabulate-swap_remove (suc n) zero f h =
      Perm.trans (Perm.cons (f 0) (last_first n (λ k. f (suc k))))
        (perm_of_eq (ap (λ l. f 0 ∷ f (suc n) ∷ l) (tabulate-eq n _ _ (λ k lt. sym (others k)))))
    where
      others : (k : ℕ) → update f 0 (f (suc n)) (suc k) ≡ f (suc k)
      others k = update_ne f (f (suc n)) (omega arith)
  tabulate-swap_remove (suc n) (suc p) f h =
      Perm.trans (Perm.cons (f 0) (tabulate-swap_remove n p (λ k. f (suc k)) (omega arith))) (
        Perm.trans (Perm.swap (f (suc p)) (f 0) _) (
          perm_of_eq
            (ap₂ (λ h l. f (suc p) ∷ h ∷ l) (sym head) (tabulate-eq n _ _ (λ k lt. same k)))))
    where
      head : update f (suc p) (f (suc n)) 0 ≡ f 0
      head = update_ne f (f (suc n)) (omega arith)

      same :
          (k : ℕ) → update (λ j. f (suc j)) p (f (suc n)) k ≡ update f (suc p) (f (suc n)) (suc k)
      same k = let e : (p == k) ≡ (suc p == suc k) = ground arith in rw e

  -- `pop_at` removes exactly the element at `pos`, one of the elements; the order may change.
  pub pop_at_lem :
      {q : PodPool A} (pos : ℕ)
      → IsValid q
      → pos < q.the_size
      → Perm (contents q) (q.ptr pos ∷ contents (pop_at q pos)) × IsValid (pop_at q pos)
  unfolding pop_at
  pop_at_lem {q} pos v h =
      let size : q.the_size ≡ suc ((q.the_size + 2 ^ 64 - 1) % 2 ^ 64) = omega arith in
      (
        Perm.trans (perm_of_eq (ap (λ n. tabulate n q.ptr) size))
            (tabulate-swap_remove _ pos q.ptr (omega arith)),
        omega arith,
      )

  pop_front-pop_at : (q : PodPool A) → pop_front q ≡ pop_at q 0
  unfolding pop_front pop_at
  pop_front-pop_at q = refl

-- ===== src/Util/PodQueue/Run.antt =====
-- A client of `cort_pod_queue` that tests `empty` before it takes an element, against a list.
use cort_proto.Prelude.{
  ℕ, suc, true, false, ◌+◌, ◌^◌, ◌≤◌, ◌<◌, ◌≡◌, refl, arith, ◌∙◌, List, [], ◌∷◌, ◌++◌, Option, none,
  some, length, ap, ap₂, length-tabulate,
}
use cort_proto.Util.PodQueue.{PodQueue, empty, at, front, push, pop, contents}
use cort_proto.Util.PodQueue.Index.{IsValid}
use cort_proto.Util.PodQueue.Refine.{push_lem, pop_lem, size-push, size-pop, capacity-pop}

pub data Op {ℓ} (A : Type ℓ) : Type ℓ where
  put : A → Op A
  get : Op A

module _ {ℓ} {A : Type ℓ} where
  -- The elements that a client gets, `none` where the queue is empty.
  pub run : PodQueue A → List (Op A) → List (Option A)
  run q [] = []
  run q (put x ∷ ops) = run (push q x) ops
  run q (get ∷ ops) = elim (empty q) [
    | true ↦ none ∷ run q ops
    | false ↦ some (front q) ∷ run (pop q) ops
  ]

  -- The same on a list.
  pub run_list : List A → List (Op A) → List (Option A)
  run_list xs [] = []
  run_list xs (put x ∷ ops) = run_list (xs ++ (x ∷ [])) ops
  run_list [] (get ∷ ops) = none ∷ run_list [] ops
  run_list (x ∷ xs) (get ∷ ops) = some x ∷ run_list xs ops

  -- A queue that has room for `n` more elements within 2 ^ 61.
  abbrev pub Fits : ℕ → PodQueue A → Type 0
  Fits n q = (q.the_size + n ≤ 2 ^ 61) × (q.the_capacity ≤ 2 ^ 61 + 2 ^ 60)

  push-Fits : {q : PodQueue A} (n : ℕ) (x : A) → IsValid q → Fits (suc n) q → Fits n (push q x)
  push-Fits {q} n x v f =
      let lem = push_lem x v (omega arith) in
      let lengths = size-push x v (omega arith) in (omega (arith, lengths), ground (arith, lem.2))

  size-contents : (q : PodQueue A) (xs : List A) → contents q ≡ xs → q.the_size ≡ length xs
  size-contents q xs e = omega (arith, ap length e, length-tabulate q.the_size (at q))

  empty_of_nil : (q : PodQueue A) → contents q ≡ [] → empty q ≡ true
  unfolding empty
  empty_of_nil q e = ground (arith, size-contents q [] e)

  not_empty_of_cons : (q : PodQueue A) (x : A) (xs : List A) → contents q ≡ x ∷ xs → empty q ≡ false
  unfolding empty
  not_empty_of_cons q x xs e = ground (arith, size-contents q (x ∷ xs) e)

  pop-Fits : (q : PodQueue A) (n : ℕ) → IsValid q → 0 < q.the_size → Fits (suc n) q → Fits n (pop q)
  pop-Fits q n v h f = omega (arith, size-pop q v h, capacity-pop q)

  run_refines_from :
      (ops : List (Op A)) (q : PodQueue A) (xs : List A)
      → IsValid q
      → Fits (length ops) q
      → contents q ≡ xs
      → run q ops ≡ run_list xs ops
  unfolding run run_list
  run_refines_from [] q xs v f e = refl
  run_refines_from (put x ∷ ops) q xs v f e =
      let lem = push_lem x v (omega arith) in
      run_refines_from ops (push q x) (xs ++ (x ∷ [])) lem.1 (push-Fits (length ops) x v f)
        (lem.0 ∙ ap (λ l. l ++ (x ∷ [])) e)
  run_refines_from (get ∷ ops) q [] v f e =
      rw (empty_of_nil q e, run) (ap (◌∷◌ none) (run_refines_from ops q [] v (omega arith) e))
  run_refines_from (get ∷ ops) q (x ∷ xs) v f e =
      let some_left : 0 < q.the_size = omega (arith, size-contents q (x ∷ xs) e) in
      let lem = pop_lem v some_left in
      rw (not_empty_of_cons q x xs e, run)
        (ap₂ ◌∷◌ (cc lem.0) (
          run_refines_from ops (pop q) xs lem.1 (pop-Fits q (length ops) v some_left f) (cc lem.0)))

  -- A client sees a valid queue as the list of its elements: whatever it puts and takes, in any
  -- order, it gets what it would get from that list, as long as the elements that it may come to
  -- hold stay within 2 ^ 61.
  pub run_refines :
      (ops : List (Op A)) {q : PodQueue A}
      → IsValid q
      → q.the_size + length ops ≤ 2 ^ 61
      → q.the_capacity ≤ 2 ^ 61
      → run q ops ≡ run_list (contents q) ops
  run_refines ops {q} v h c = run_refines_from ops q (contents q) v (h, omega arith) refl

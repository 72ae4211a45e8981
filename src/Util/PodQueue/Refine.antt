-- ===== src/Util/PodQueue/Refine.antt =====
-- `cort_pod_queue` against the list of its elements.
use cort_proto.Prelude.{
  true, false, length, length-append, length-tabulate, ℕ, true, false, suc, ◌+◌, ◌-◌, ◌/◌, ◌^◌, ◌≤◌,
  ◌<◌, ◌≡◌, refl, arith, ltb, ◌==◌, if◌then◌else◌, Bool-cases, inl, inr, ◌∙◌, [], ◌∷◌, ◌++◌,
  tabulate, tabulate-eq, tabulate-suc, ap, ap₂, sym, ◌≢◌, copy, update_self, update_ne,
}
use cort_proto.Prelude.Words.{add64}
use cort_proto.Util.PodQueue.{PodQueue, empty, cort_mod, at, front, grow, put, push, pop, contents}
use cort_proto.Util.PodQueue.Index.{IsValid, cort_mod_lem}

module _ {ℓ} {A : Type ℓ} where
  -- The cell of the element at `k`, with the reduction written as a test.
  unfoldable pub cell : PodQueue A → ℕ → ℕ
  cell q k =
      if ltb (q.the_begin + k) q.the_capacity
      then q.the_begin + k
      else q.the_begin + k - q.the_capacity

  cort_mod-cell :
      (q : PodQueue A) (k : ℕ)
      → IsValid q
      → k ≤ q.the_capacity
      → cort_mod q.the_capacity (add64 q.the_begin k) ≡ cell q k
  unfolding cell
  cort_mod-cell q k v h =
      let e : add64 q.the_begin k ≡ q.the_begin + k = omega arith in
      rw e (cort_mod_lem q.the_capacity (q.the_begin + k) (omega arith) (omega arith))

  pub at-cell :
      (q : PodQueue A) (k : ℕ) → IsValid q → k ≤ q.the_capacity → at q k ≡ q.ptr (cell q k)
  unfolding at
  at-cell q k v h = ap q.ptr (cort_mod-cell q k v h)

  grow_large :
      (q : PodQueue A)
      → ltb (q.the_capacity / 2) q.the_begin ≡ true
      → grow q ≡ record q {
        ptr =
            copy q.ptr
              (q.the_capacity / 2 + q.the_begin)
              q.the_begin
              (q.the_capacity - q.the_begin);
        the_begin = add64 q.the_begin (q.the_capacity / 2);
        the_capacity = add64 q.the_capacity (q.the_capacity / 2);
      }
  unfolding grow
  grow_large q h = rw h

  grow_small :
      (q : PodQueue A)
      → ltb (q.the_capacity / 2) q.the_begin ≡ false
      → grow q ≡ record q {
        ptr = copy q.ptr q.the_capacity 0 q.the_begin;
        the_capacity = add64 q.the_capacity (q.the_capacity / 2);
      }
  unfolding grow
  grow_small q h = rw h

  grow-IsValid : {q : PodQueue A} → IsValid q → q.the_capacity ≤ 2 ^ 61 → IsValid (grow q)
  grow-IsValid {q} v h = elim (Bool-cases (ltb (q.the_capacity / 2) q.the_begin)) [
    | inl e ↦ rw (grow_large q e) (ground arith)
    | inr e ↦ rw (grow_small q e) (ground arith)
  ]

  -- Growing moves elements, and keeps each at its place in the order.
  ptr-grow :
      (q : PodQueue A) (k : ℕ)
      → IsValid q
      → q.the_capacity ≤ 2 ^ 61
      → k < q.the_capacity
      → (grow q).ptr (cell (grow q) k) ≡ q.ptr (cell q k)
  unfolding cell
  ptr-grow q k v h lt = elim (Bool-cases (ltb (q.the_capacity / 2) q.the_begin)) [
    | inl e ↦ rw (grow_large q e) (ap q.ptr (ground arith))
    | inr e ↦ rw (grow_small q e) (ap q.ptr (ground arith))
  ]

  put-IsValid :
      {q : PodQueue A} (x : A) → IsValid q → q.the_size < q.the_capacity → IsValid (put q x)
  unfolding put
  put-IsValid x v h = omega arith

  cell_ne :
      (q : PodQueue A) (j k : ℕ) → IsValid q → j < k → k < q.the_capacity → cell q k ≢ cell q j
  unfolding cell
  cell_ne q j k v h lt = ground arith

  at-put_below :
      {q : PodQueue A} (x : A) (k : ℕ)
      → IsValid q
      → q.the_size < q.the_capacity
      → k < q.the_size
      → at (put q x) k ≡ at q k
  unfolding put at
  at-put_below {q} x k v h lt =
      rw (cort_mod-cell q k v (omega arith), cort_mod-cell q q.the_size v (omega arith))
        (update_ne q.ptr x (cell_ne q k q.the_size v lt h) ∙ sym (at-cell q k v (omega arith)))

  at-put_last :
      {q : PodQueue A} (x : A)
      → IsValid q
      → q.the_size < q.the_capacity
      → at (put q x) q.the_size ≡ x
  unfolding put at
  at-put_last {q} x v h =
      update_self q.ptr (cort_mod q.the_capacity (add64 q.the_begin q.the_size)) x

  size-put :
      {q : PodQueue A} (x : A)
      → IsValid q
      → q.the_size < q.the_capacity
      → (put q x).the_size ≡ suc q.the_size
  unfolding put
  size-put x v h = omega arith

  contents-put :
      {q : PodQueue A} (x : A)
      → IsValid q
      → q.the_size < q.the_capacity
      → contents (put q x) ≡ contents q ++ (x ∷ [])
  contents-put {q} x v h =
      ap (λ n. tabulate n (at (put q x))) (size-put x v h)
      ∙ tabulate-suc q.the_size (at (put q x))
      ∙ ap₂ ◌++◌ (tabulate-eq q.the_size _ _ (λ k lt. at-put_below x k v h lt))
          (ap (λ y. y ∷ []) (at-put_last x v h))

  size-grow : (q : PodQueue A) → (grow q).the_size ≡ q.the_size
  size-grow q = elim (Bool-cases (ltb (q.the_capacity / 2) q.the_begin)) [
    | inl e ↦ rw (grow_large q e)
    | inr e ↦ rw (grow_small q e)
  ]

  capacity-grow :
      {q : PodQueue A} → IsValid q → (grow q).the_capacity ≡ q.the_capacity + q.the_capacity / 2
  capacity-grow {q} v = elim (Bool-cases (ltb (q.the_capacity / 2) q.the_begin)) [
    | inl e ↦ rw (grow_large q e) (omega arith)
    | inr e ↦ rw (grow_small q e) (omega arith)
  ]

  contents-grow :
      {q : PodQueue A} → IsValid q → q.the_capacity ≤ 2 ^ 61 → contents (grow q) ≡ contents q
  contents-grow {q} v h =
      ap (λ n. tabulate n (at (grow q))) (size-grow q) ∙ tabulate-eq q.the_size _ _ same
    where
      same : (k : ℕ) → k < q.the_size → at (grow q) k ≡ at q k
      same k lt =
          at-cell (grow q) k (grow-IsValid v h) (omega (arith, capacity-grow v))
          ∙ ptr-grow q k v h (omega arith)
          ∙ sym (at-cell q k v (omega arith))

  -- `push` puts its argument behind the elements, keeps their order, keeps the representation valid,
  -- and enlarges the block, by half, exactly when it is full; for fewer than 2 ^ 61 elements.
  pub push_lem :
      {q : PodQueue A} (x : A)
      → IsValid q
      → q.the_size < 2 ^ 61
      → (contents (push q x) ≡ contents q ++ (x ∷ []))
        × IsValid (push q x)
        × ((push q x).the_capacity ≡ (
            if q.the_size == q.the_capacity
            then q.the_capacity + q.the_capacity / 2
            else q.the_capacity))
  unfolding push
  push_lem {q} x v h = elim (Bool-cases (q.the_size == q.the_capacity)) [
    | inl full ↦
        let bound : q.the_capacity ≤ 2 ^ 61 = ground arith in
        let room : (grow q).the_size < (grow q).the_capacity =
          ground (arith, capacity-grow v, size-grow q) in
        rw (full, push)
          (
            contents-put x (grow-IsValid v bound) room
                ∙ ap (λ l. l ++ (x ∷ [])) (contents-grow v bound),
            put-IsValid x (grow-IsValid v bound) room,
            unfold put in capacity-grow v,
          )
    | inr slack ↦
        let room : q.the_size < q.the_capacity = ground arith in
        rw (slack, push) (contents-put x v room, put-IsValid x v room, unfold put in refl)
  ]

  begin-pop : (q : PodQueue A) → IsValid q → (pop q).the_begin ≡ cell q 1
  unfolding pop
  begin-pop q v = cort_mod-cell q 1 v (omega arith)

  pub size-pop : (q : PodQueue A) → IsValid q → 0 < q.the_size → (pop q).the_size ≡ q.the_size - 1
  unfolding pop
  size-pop q v h = omega arith

  pop-IsValid : (q : PodQueue A) → IsValid q → 0 < q.the_size → IsValid (pop q)
  unfolding pop cell
  pop-IsValid q v h = ground (arith, begin-pop q v, size-pop q v h)

  cell-pop :
      (q : PodQueue A) (k : ℕ) → IsValid q → k < q.the_capacity → cell (pop q) k ≡ cell q (suc k)
  unfolding pop cell
  cell-pop q k v lt = ground (arith, begin-pop q v)

  pub at-pop :
      (q : PodQueue A) (k : ℕ)
      → IsValid q
      → 0 < q.the_size
      → k < q.the_size - 1
      → at q (suc k) ≡ at (pop q) k
  at-pop q k v h lt =
      at-cell q (suc k) v (omega arith)
      ∙ sym (ap q.ptr (cell-pop q k v (omega arith)))
      ∙ (unfold pop in sym (at-cell (pop q) k (pop-IsValid q v h) (unfold pop in omega arith)))

  at-front : (q : PodQueue A) → IsValid q → at q 0 ≡ front q
  unfolding cell front
  at-front q v = at-cell q 0 v (omega arith) ∙ ap q.ptr (ground arith)

  contents-pop :
      (q : PodQueue A) → IsValid q → 0 < q.the_size → contents q ≡ front q ∷ contents (pop q)
  contents-pop q v h =
      let size : q.the_size ≡ suc (q.the_size - 1) = omega arith in
      ap (λ n. tabulate n (at q)) size
      ∙ ap₂ ◌∷◌ (at-front q v) (
          tabulate-eq (q.the_size - 1) _ _ (λ k lt. at-pop q k v h lt)
          ∙ ap (λ n. tabulate n (at (pop q))) (sym (size-pop q v h)))

  pub capacity-pop : (q : PodQueue A) → (pop q).the_capacity ≡ q.the_capacity
  unfolding pop
  capacity-pop q = refl

  -- Taking the front element off a queue that is not empty leaves the others in order and the
  -- representation valid, and `front` reads that element.
  pub pop_lem :
      {q : PodQueue A}
      → IsValid q
      → 0 < q.the_size
      → (contents q ≡ front q ∷ contents (pop q)) × IsValid (pop q)
  pop_lem {q} v h = (contents-pop q v h, pop-IsValid q v h)

  pub size-push :
      {q : PodQueue A} (x : A)
      → IsValid q
      → q.the_size < 2 ^ 61
      → (push q x).the_size ≡ q.the_size + 1
  size-push {q} x v h = omega (
    arith,
    ap length (push_lem x v h).0,
    length-append (contents q) (x ∷ []),
    length-tabulate (push q x).the_size (at (push q x)),
    length-tabulate q.the_size (at q),
  )

  pub contents_of_empty : (q : PodQueue A) → empty q ≡ true → contents q ≡ []
  unfolding empty
  contents_of_empty q e = let z : q.the_size ≡ 0 = ground arith in rw z refl

  pub size_of_not_empty : (q : PodQueue A) → empty q ≡ false → 0 < q.the_size
  unfolding empty
  size_of_not_empty q e = ground arith

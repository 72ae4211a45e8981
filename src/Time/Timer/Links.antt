-- ===== src/Time/Timer/Links.antt =====
-- The links between the heap and the lists: each list of the heap knows its place, and a list that
-- has a place stands there.
use cort_proto.Prelude.{
  ℕ, zero, suc, ◌/◌, ◌^◌, ◌<◌, ◌≡◌, ◌≢◌, refl, ap, ◌∙◌, arith, Bool, true, false, ltb, leb, ◌==◌,
  branch, ◌⊎◌, inl, inr, update,
}
use cort_proto.Prelude.Words.{npos}
use cort_proto.Time.Timer.{
  Timer, key, place, settle, up_loop, up_update_heap, down_loop, down_update_heap, least_child,
  left_child,
}

-- `hidden` are the lists that are no longer in the heap, though their `heap_pos` is not yet reset.
module _ (hidden : ℕ → Bool) where
  abbrev pub Linked : (ℕ → ℕ) → (ℕ → ℕ) → ℕ → Type 0
  Linked heap pos n =
      ((i : ℕ) → i < n → (pos (heap i) ≡ i) × (hidden (heap i) ≡ false))
      × ((id : ℕ) → hidden id ≡ false → pos id ≢ npos → (pos id < n) × (heap (pos id) ≡ id))

  -- Two places change their lists.
  module _ (heap pos : ℕ → ℕ) (n old new : ℕ) where
    swapped_heap : ℕ → ℕ → ℕ
    swapped_heap p = update (update heap old (heap new)) new p

    swapped_pos : ℕ → ℕ → ℕ
    swapped_pos p = update (update pos (heap new) old) p new

    Linked-swap :
        (p : ℕ)
        → old < n
        → new < n
        → old ≢ new
        → Linked (update heap old p) (update pos p old) n
        → Linked (swapped_heap p) (swapped_pos p) n
    unfolding swapped_heap swapped_pos
    Linked-swap p ho hn ne (f, g) = (places, lists)
      where
        at_new : update pos p old (heap new) ≡ new
        at_new = ground (arith, f new hn)

        places :
            (i : ℕ)
            → i < n
            → (swapped_pos p (swapped_heap p i) ≡ i) × (hidden (swapped_heap p i) ≡ false)
        places i h = ground (arith, f i h, at_new, f old ho, f new hn)

        lists :
            (id : ℕ)
            → hidden id ≡ false
            → swapped_pos p id ≢ npos
            → (swapped_pos p id < n) × (swapped_heap p (swapped_pos p id) ≡ id)
        lists id v h = ground (arith, g id v, at_new)

  -- The links of a heap, and of one with a hole at `hole`, once the list `p` is put there.
  abbrev pub IsLinked : Timer → Type 0
  IsLinked t = Linked t.timer_heap t.heap_pos t.timer_size

  abbrev pub IsLinkedBut : Timer → ℕ → ℕ → Type 0
  IsLinkedBut t hole p = IsLinked (place t hole p)

  IsLinkedBut-move :
      (t : Timer) (p old new : ℕ)
      → old < t.timer_size
      → new < t.timer_size
      → old ≢ new
      → IsLinkedBut t old p
      → IsLinkedBut (place t old (t.timer_heap new)) new p
  IsLinkedBut-move t p old new ho hn ne l =
      unfold swapped_heap swapped_pos in
      Linked-swap t.timer_heap t.heap_pos t.timer_size old new p ho hn ne l

  -- Who is in the heap.
  abbrev pub Placed : Timer → ℕ → Type 0
  Placed t id = t.heap_pos id ≢ npos

  -- What both loops keep.
  pub record Moved (t t' : Timer) (p hole : ℕ) : Type 0 where
    pub links : IsLinkedBut t' hole p
    pub inside : hole < t'.timer_size
    pub same_size : t'.timer_size ≡ t.timer_size
    pub same_entries : t'.entries ≡ t.entries
    pub same_timeout : t'.timeout ≡ t.timeout
    pub same_capacity : t'.timer_capacity ≡ t.timer_capacity
    pub same_node : t'.next_node ≡ t.next_node
    pub same_placed : (id : ℕ) → (t'.heap_pos id == npos) ≡ (t.heap_pos id == npos)

  abbrev pub MovedBy : Timer → ℕ → Timer × ℕ → Type 0
  MovedBy t p r = Moved t r.0 p r.1

  stays : (t : Timer) (p old : ℕ) → old < t.timer_size → IsLinkedBut t old p → MovedBy t p (t, old)
  stays t p old h l = record {
    links = l;
    inside = h;
    same_size = refl;
    same_entries = refl;
    same_timeout = refl;
    same_capacity = refl;
    same_node = refl;
    same_placed = λ id. refl;
  }

  -- A move that starts by filling the hole.
  after_place :
      (t : Timer) (p old new : ℕ) (r : Timer × ℕ)
      → old < t.timer_size
      → new < t.timer_size
      → old ≢ new
      → t.timer_size < 2 ^ 62
      → IsLinkedBut t old p
      → MovedBy (place t old (t.timer_heap new)) p r
      → MovedBy t p r
  after_place t p old new r ho hn ne small (f, g) m = record {
    links = m.links;
    inside = m.inside;
    same_size = m.same_size;
    same_entries = m.same_entries;
    same_timeout = m.same_timeout;
    same_capacity = m.same_capacity;
    same_node = m.same_node;
    same_placed = λ id. m.same_placed id ∙ ground (arith, f new hn, f old ho);
  }

  pub up_loop-Moved :
      (fuel old my_time p : ℕ) (t : Timer)
      → old < t.timer_size
      → t.timer_size < 2 ^ 62
      → IsLinkedBut t old p
      → MovedBy t p (up_loop fuel old my_time t)
  unfolding up_loop
  up_loop-Moved zero old my_time p t h small l = stays t p old h l
  up_loop-Moved (suc fuel) old my_time p t h small l =
      branch (MovedBy t p) (old == 0) (t, old) climb (λ _. stays t p old h l)
        (λ inner.
          branch (MovedBy t p) (ltb my_time (key t (t.timer_heap (old / 2)))) up (t, old)
            (λ _.
              let ne : old ≢ old / 2 = ground arith in
              let within : old / 2 < t.timer_size = omega arith in
              after_place t p old (old / 2) up h within ne small l (
                up_loop-Moved fuel (old / 2) my_time p (place t old (t.timer_heap (old / 2))) within
                  small (IsLinkedBut-move t p old (old / 2) h within ne l)))
            (λ _. stays t p old h l))
    where
      up : Timer × ℕ
      up = up_loop fuel (old / 2) my_time (place t old (t.timer_heap (old / 2)))

      climb : Timer × ℕ
      climb = elim (ltb my_time (key t (t.timer_heap (old / 2)))) [ true ↦ up | false ↦ (t, old) ]

  -- A chosen child lies behind its parent, and within the heap if the left child does.
  pub least_child_bounds :
      (old : ℕ) (t : Timer)
      → old < t.timer_size
      → t.timer_size < 2 ^ 62
      → leb t.timer_size (left_child old) ≡ false
      → (old < least_child old t) × (least_child old t < t.timer_size)
  unfolding least_child left_child
  least_child_bounds old t h small inner = ground arith

  pub down_loop-Moved :
      (fuel old my_time p : ℕ) (t : Timer)
      → old < t.timer_size
      → t.timer_size < 2 ^ 62
      → IsLinkedBut t old p
      → MovedBy t p (down_loop fuel old my_time t)
  unfolding down_loop
  down_loop-Moved zero old my_time p t h small l = stays t p old h l
  down_loop-Moved (suc fuel) old my_time p t h small l =
      branch (MovedBy t p) (leb t.timer_size (left_child old)) (t, old) sink
        (λ _. stays t p old h l)
        (λ inner.
          branch (MovedBy t p) (ltb (key t (t.timer_heap child)) my_time) down (t, old)
            (λ _.
              let (behind, within) = least_child_bounds old t h small inner in
              after_place t p old child down h within (omega arith) small l (
                down_loop-Moved fuel child my_time p (place t old (t.timer_heap child)) within small
                  (IsLinkedBut-move t p old child h within (omega arith) l)))
            (λ _. stays t p old h l))
    where
      child : ℕ
      child = least_child old t

      down : Timer × ℕ
      down = down_loop fuel child my_time (place t old (t.timer_heap child))

      sink : Timer × ℕ
      sink = elim (ltb (key t (t.timer_heap child)) my_time) [ true ↦ down | false ↦ (t, old) ]

  -- Each loop either changes nothing or moves the hole.
  pub up_loop-stays :
      (fuel old my_time : ℕ) (t : Timer)
      → (up_loop fuel old my_time t ≡ (t, old)) ⊎ ((up_loop fuel old my_time t).1 < old)
  unfolding up_loop
  up_loop-stays zero old my_time t = inl refl
  up_loop-stays (suc fuel) old my_time t =
      ground (arith, up_loop-stays fuel (old / 2) my_time (place t old (t.timer_heap (old / 2))))

  down_loop-stays :
      (fuel old my_time : ℕ) (t : Timer)
      → old < t.timer_size
      → t.timer_size < 2 ^ 62
      → (down_loop fuel old my_time t ≡ (t, old)) ⊎ (old < (down_loop fuel old my_time t).1)
  unfolding down_loop
  down_loop-stays zero old my_time t h small = inl refl
  down_loop-stays (suc fuel) old my_time t h small =
      branch P (leb t.timer_size (left_child old)) (t, old) sink (λ _. inl refl)
        (λ inner.
          let (behind, within) = least_child_bounds old t h small inner in
          branch P (ltb (key t (t.timer_heap child)) my_time) down (t, old)
            (λ _. further behind (down_loop-stays fuel child my_time moved within small))
            (λ _. inl refl))
    where
      P : Timer × ℕ → Type 0
      P r = (r ≡ (t, old)) ⊎ (old < r.1)

      child : ℕ
      child = least_child old t

      moved : Timer
      moved = place t old (t.timer_heap child)

      down : Timer × ℕ
      down = down_loop fuel child my_time moved

      sink : Timer × ℕ
      sink = elim (ltb (key t (t.timer_heap child)) my_time) [ true ↦ down | false ↦ (t, old) ]

      further :
          old < child
          → (down ≡ (moved, child)) ⊎ (child < down.1)
          → (down ≡ (t, old)) ⊎ (old < down.1)
      further behind (inl e) =
          let at : down.1 ≡ child = ap (λ (r : Timer × ℕ). r.1) e in inr (omega arith)
      further behind (inr lt) = inr (omega arith)

  -- What `up_update_heap` and `down_update_heap` keep.
  pub record Sifted (t t' : Timer) : Type 0 where
    pub links : IsLinked t'
    pub same_size : t'.timer_size ≡ t.timer_size
    pub same_entries : t'.entries ≡ t.entries
    pub same_timeout : t'.timeout ≡ t.timeout
    pub same_capacity : t'.timer_capacity ≡ t.timer_capacity
    pub same_node : t'.next_node ≡ t.next_node
    pub same_placed : (id : ℕ) → (t'.heap_pos id == npos) ≡ (t.heap_pos id == npos)

  IsLinkedBut-self :
      (t : Timer) (i : ℕ) → i < t.timer_size → IsLinked t → IsLinkedBut t i (t.timer_heap i)
  IsLinkedBut-self t i h (f, g) =
      (λ j hj. ground (arith, f j hj, f i h), λ id v hid. ground (arith, g id v, f i h))

  Sifted-refl : (t : Timer) → IsLinked t → Sifted t t
  Sifted-refl t l = record {
    links = l;
    same_size = refl;
    same_entries = refl;
    same_timeout = refl;
    same_capacity = refl;
    same_node = refl;
    same_placed = λ id. refl;
  }

  settle-Sifted :
      (t : Timer) (pos : ℕ) (r : Timer × ℕ)
      → pos < t.timer_size
      → t.timer_size < 2 ^ 62
      → IsLinked t
      → MovedBy t (t.timer_heap pos) r
      → (r ≡ (t, pos)) ⊎ (r.1 ≢ pos)
      → Sifted t (settle pos (t.timer_heap pos) r).0
  unfolding settle
  settle-Sifted t pos r h small l m (inl e) =
      let stayed : (pos == pos) ≡ true = ground arith in rw (e, stayed) (Sifted-refl t l)
  settle-Sifted t pos r h small (f, g) m (inr ne) =
      let moved : (r.1 == pos) ≡ false = ground arith in
      rw moved (record {
        links = m.links;
        same_size = m.same_size;
        same_entries = m.same_entries;
        same_timeout = m.same_timeout;
        same_capacity = m.same_capacity;
        same_node = m.same_node;
        same_placed = λ id. ground (arith, m.same_placed id, f pos h, m.inside, m.same_size);
      })

  pub up_update_heap-Sifted :
      (t : Timer) (pos my_time : ℕ)
      → pos < t.timer_size
      → t.timer_size < 2 ^ 62
      → IsLinked t
      → Sifted t (up_update_heap pos my_time t).0
  unfolding up_update_heap
  up_update_heap-Sifted t pos my_time h small l =
      settle-Sifted t pos (up_loop pos pos my_time t) h small l
        (up_loop-Moved pos pos my_time (t.timer_heap pos) t h small (IsLinkedBut-self t pos h l))
        (ground (arith, up_loop-stays pos pos my_time t))

  pub down_update_heap-Sifted :
      (t : Timer) (pos my_time : ℕ)
      → pos < t.timer_size
      → t.timer_size < 2 ^ 62
      → IsLinked t
      → Sifted t (down_update_heap pos my_time t).0
  unfolding down_update_heap
  down_update_heap-Sifted t pos my_time h small l =
      settle-Sifted t pos (down_loop t.timer_size pos my_time t) h small l
        (down_loop-Moved t.timer_size pos my_time (t.timer_heap pos) t h small
          (IsLinkedBut-self t pos h l))
        (ground (arith, down_loop-stays t.timer_size pos my_time t h small))

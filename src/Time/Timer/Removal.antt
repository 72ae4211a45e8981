-- ===== src/Time/Timer/Removal.antt =====
-- `remove_time_out`, after the back of a list has been erased: the heap and the lists agree again.
use cort_proto.Prelude.{
  ℕ, suc, ◌-◌, ◌^◌, ◌≤◌, ◌<◌, ◌≡◌, ◌≢◌, refl, sym, ap, ◌∙◌, arith, true, false, leb, ◌==◌, ◌||◌,
  branch_if, Bool-cases, inl, inr, update, update_self, update_ne, List, [], ◌∷◌,
}
use cort_proto.Prelude.Words.{npos, sub64}
use cort_proto.Time.Timer.{
  Timer, Entry, key, place, is_empty, forget, fill, remove_time_out, down_update_heap,
  short_timer_list_size,
}
use cort_proto.Time.Timer.Links.{Linked, IsLinked, Sifted, down_update_heap-Sifted}
use cort_proto.Time.Timer.Invariant.{Inv, nobody, only}

-- A timer whose list `p`, at `pos` in the heap, has just lost an entry.
pub record Losing (t : Timer) (p pos : ℕ) : Type 0 where
  pub linked : IsLinked nobody t
  pub at_pos : t.timer_heap pos ≡ p
  pub inside : pos < t.timer_size
  pub full : (id : ℕ) → id ≢ p → is_empty (t.entries id) ≡ (t.heap_pos id == npos)
  pub named : (id : ℕ) → is_empty (t.entries id) ≡ false → t.timeout id ≡ id
  pub own_name : t.timeout p ≡ p
  pub short : (id : ℕ) → id < short_timer_list_size → t.timeout id ≡ id
  pub room : t.timer_size ≤ t.timer_capacity
  pub small : t.timer_capacity ≤ 2 ^ 61

pos_of : {t : Timer} {p pos : ℕ} → Losing t p pos → t.heap_pos p ≡ pos
pos_of {t} {p} {pos} l = ap t.heap_pos (sym l.at_pos) ∙ (l.linked.0 pos l.inside).0

-- Without the list `p` at the last place of the heap.
Linked-drop_last :
    (heap pos : ℕ → ℕ) (m p : ℕ)
    → heap m ≡ p
    → Linked nobody heap pos (suc m)
    → Linked (only p) heap pos m
Linked-drop_last heap pos m p e (f, g) =
    (λ i h. ground (arith, f i, f m), λ id v h. ground (arith, g id))

-- The last list takes the place of the list `p`.
Linked-refill :
    (heap pos : ℕ → ℕ) (m k p : ℕ)
    → k < m
    → heap k ≡ p
    → Linked nobody heap pos (suc m)
    → Linked (only p) (update heap k (heap m)) (update pos (heap m) k) m
Linked-refill heap pos m k p h e (f, g) =
    (λ i lt. ground (arith, f i, f m, f k), λ id v q. ground (arith, g id, f m, f k))

Linked-reset :
    (heap pos : ℕ → ℕ) (n p : ℕ)
    → Linked (only p) heap pos n
    → Linked nobody heap (update pos p npos) n
Linked-reset heap pos n p (f, g) = (λ i h. ground (arith, f i h), λ id v h. ground (arith, g id))

-- The heap without the list `p`, whose own `heap_pos` is still the old one.
record Filled (t t' : Timer) (p : ℕ) : Type 0 where
  links : IsLinked (only p) t'
  size : t'.timer_size ≡ t.timer_size - 1
  same_entries : t'.entries ≡ t.entries
  same_timeout : t'.timeout ≡ t.timeout
  same_capacity : t'.timer_capacity ≡ t.timer_capacity
  same_placed : (j : ℕ) → j ≢ p → (t'.heap_pos j == npos) ≡ (t.heap_pos j == npos)

module _ (t : Timer) (p pos : ℕ) (l : Losing t p pos) where
  shrunk : Timer
  shrunk = record t { timer_size = sub64 t.timer_size 1 }

  shrunk_size : shrunk.timer_size ≡ t.timer_size - 1
  unfolding shrunk
  shrunk_size = omega (arith, l.inside, l.room, l.small)

  was : suc shrunk.timer_size ≡ t.timer_size
  was = omega (arith, shrunk_size, l.inside)

  fill-Filled_last : pos ≡ shrunk.timer_size → Filled t shrunk p
  unfolding shrunk
  fill-Filled_last e = record {
    links =
        Linked-drop_last t.timer_heap t.heap_pos shrunk.timer_size p
          (ap t.timer_heap (sym e) ∙ l.at_pos) (rw was l.linked);
    size = shrunk_size;
    same_entries = refl;
    same_timeout = refl;
    same_capacity = refl;
    same_placed = λ j h. refl;
  }

  fill-Filled_inner :
      pos < shrunk.timer_size
      → let last = t.timer_heap shrunk.timer_size in
        Filled t (down_update_heap pos (key shrunk last) (place shrunk pos last)).0 p
  unfolding shrunk
  fill-Filled_inner h = record {
    links = moved.links;
    size = moved.same_size ∙ shrunk_size;
    same_entries = moved.same_entries;
    same_timeout = moved.same_timeout;
    same_capacity = moved.same_capacity;
    same_placed = λ j ne. moved.same_placed j ∙ kept j;
  }
    where
      last : ℕ
      last = t.timer_heap shrunk.timer_size

      refilled : Timer
      refilled = place shrunk pos last

      linked : IsLinked (only p) refilled
      linked =
          Linked-refill t.timer_heap t.heap_pos shrunk.timer_size pos p h l.at_pos (rw was l.linked)

      moved : Sifted (only p) refilled (down_update_heap pos (key shrunk last) refilled).0
      moved =
          down_update_heap-Sifted (only p) refilled pos (key shrunk last) h
            (omega (arith, was, l.room, l.small)) linked

      last_at : t.heap_pos last ≡ shrunk.timer_size
      last_at = (l.linked.0 shrunk.timer_size (omega (arith, was))).0

      kept : (j : ℕ) → (refilled.heap_pos j == npos) ≡ (t.heap_pos j == npos)
      kept j = ground (arith, last_at, was, l.room, l.small, h)

  fill-Filled : Filled t (fill pos shrunk) p
  unfolding fill shrunk
  fill-Filled =
      branch_if (λ f. Filled t f p) (shrunk.timer_size == 0 || pos == shrunk.timer_size) shrunk _
        (λ e. fill-Filled_last (ground (arith, was, l.inside)))
        (λ e. fill-Filled_inner (ground (arith, was, l.inside)))

  forget-Inv : is_empty (t.entries p) ≡ true → Inv (forget p (fill pos shrunk))
  unfolding forget
  forget-Inv none_left = rw own (
      branch_if Inv (leb short_timer_list_size p) _ _
        (λ long. record {
          linked = linked;
          full = λ j.
              by_name (update f.entries p []) j (ap is_empty (update_self f.entries p []))
                (λ ne. rw (update_ne f.entries [] (λ e. ne (sym e))) (others j ne));
          named = λ j h. ground (arith, entries_same j, f_named j, h);
          short = λ j h. rw (update_ne f.timeout {p = p} {q = j} 0 (ground arith)) (f_short j h);
          room = room;
          small = small;
        })
        (λ brief. record {
          linked = linked;
          full = λ j. by_name f.entries j (entries_same p ∙ none_left) (others j);
          named = f_named;
          short = f_short;
          room = room;
          small = small;
        }))
    where
      f : Timer
      f = fill pos shrunk

      own : f.timeout p ≡ p
      own = ap (λ (m : ℕ → ℕ). m p) fill-Filled.same_timeout ∙ l.own_name

      linked : Linked nobody f.timer_heap (update f.heap_pos p npos) f.timer_size
      linked = Linked-reset f.timer_heap f.heap_pos f.timer_size p fill-Filled.links

      entries_same : (j : ℕ) → is_empty (f.entries j) ≡ is_empty (t.entries j)
      entries_same j = ap (λ (m : ℕ → List Entry). is_empty (m j)) fill-Filled.same_entries

      others : (j : ℕ) → j ≢ p → is_empty (f.entries j) ≡ (f.heap_pos j == npos)
      others j ne = entries_same j ∙ l.full j ne ∙ sym (fill-Filled.same_placed j ne)

      by_name :
          (m : ℕ → List Entry) (j : ℕ)
          → is_empty (m p) ≡ true
          → (j ≢ p → is_empty (m j) ≡ (f.heap_pos j == npos))
          → is_empty (m j) ≡ (update f.heap_pos p npos j == npos)
      by_name m j at_p off_p = elim (Bool-cases (p == j)) [
        | inl s ↦ let same : p ≡ j = ground arith in rw (s, ← same) at_p
        | inr s ↦ rw s (off_p (ground arith))
      ]

      f_named : (j : ℕ) → is_empty (f.entries j) ≡ false → f.timeout j ≡ j
      f_named j h =
          ap (λ (m : ℕ → ℕ). m j) fill-Filled.same_timeout ∙ l.named j (sym (entries_same j) ∙ h)

      f_short : (j : ℕ) → j < short_timer_list_size → f.timeout j ≡ j
      f_short j h = ap (λ (m : ℕ → ℕ). m j) fill-Filled.same_timeout ∙ l.short j h

      room : f.timer_size ≤ f.timer_capacity
      room = omega (arith, fill-Filled.size, fill-Filled.same_capacity, l.room)

      small : f.timer_capacity ≤ 2 ^ 61
      small = omega (arith, fill-Filled.same_capacity, l.small)

  keep-Inv : is_empty (t.entries p) ≡ false → Inv (down_update_heap pos (key t p) t).0
  keep-Inv some_left = record {
    linked = moved.links;
    full = λ j. entries_same j ∙ full j ∙ sym (moved.same_placed j);
    named = λ j h. timeouts_same j ∙ l.named j (sym (entries_same j) ∙ h);
    short = λ j h. timeouts_same j ∙ l.short j h;
    room = rw (moved.same_size, moved.same_capacity) l.room;
    small = rw moved.same_capacity l.small;
  }
    where
      moved : Sifted nobody t (down_update_heap pos (key t p) t).0
      moved =
          down_update_heap-Sifted nobody t pos (key t p) l.inside (omega (arith, l.room, l.small))
            l.linked

      entries_same :
          (j : ℕ)
          → is_empty ((down_update_heap pos (key t p) t).0.entries j) ≡ is_empty (t.entries j)
      entries_same j = ap (λ (m : ℕ → List Entry). is_empty (m j)) moved.same_entries

      timeouts_same : (j : ℕ) → (down_update_heap pos (key t p) t).0.timeout j ≡ t.timeout j
      timeouts_same j = ap (λ (m : ℕ → ℕ). m j) moved.same_timeout

      full : (j : ℕ) → is_empty (t.entries j) ≡ (t.heap_pos j == npos)
      full j = elim (Bool-cases (j == p)) [
        | inl s ↦
            let same : j ≡ p = ground arith in
            rw (same, some_left) (ground (arith, pos_of l, l.inside, l.room, l.small))
        | inr s ↦ l.full j (ground arith)
      ]

nil_of_empty : (es : List Entry) → is_empty es ≡ true → es ≡ []
nil_of_empty [] h = refl
nil_of_empty (e ∷ es) h = cc

entries-forget :
    (t : Timer) (p pos j : ℕ) (l : Losing t p pos)
    → is_empty (t.entries p) ≡ true
    → (forget p (fill pos (shrunk t p pos l))).entries j ≡ t.entries j
unfolding forget
entries-forget t p pos j l none_left = rw own (
    branch_if (λ (x : Timer). x.entries j ≡ t.entries j) (leb short_timer_list_size p) _ _
      (λ _. elim (Bool-cases (p == j)) [
        | inl e ↦
            let same_list : p ≡ j = ground arith in
            rw (e, ← same_list) (sym (nil_of_empty (t.entries p) none_left))
        | inr n ↦ rw n kept
      ])
      (λ _. kept))
  where
    filled : Filled t (fill pos (shrunk t p pos l)) p
    filled = fill-Filled t p pos l

    own : (fill pos (shrunk t p pos l)).timeout p ≡ p
    own = ap (λ (m : ℕ → ℕ). m p) filled.same_timeout ∙ l.own_name

    kept : (fill pos (shrunk t p pos l)).entries j ≡ t.entries j
    kept = ap (λ (m : ℕ → List Entry). m j) filled.same_entries

-- It moves lists in the heap, and takes no timer out of any.
pub entries-remove_time_out :
    (t : Timer) (p pos j : ℕ) → Losing t p pos → (remove_time_out pos t).entries j ≡ t.entries j
unfolding remove_time_out shrunk
entries-remove_time_out t p pos j l = rw (l.at_pos) (
    branch_if (λ (x : Timer). x.entries j ≡ t.entries j) (is_empty (t.entries p)) _ _
      (λ e. entries-forget t p pos j l e)
      (λ _.
        ap (λ (m : ℕ → List Entry). m j)
          (down_update_heap-Sifted nobody t pos (key t p) l.inside (omega (arith, l.room, l.small))
            l.linked).same_entries))

pub remove_time_out-Inv : (t : Timer) (p pos : ℕ) → Losing t p pos → Inv (remove_time_out pos t)
unfolding remove_time_out shrunk
remove_time_out-Inv t p pos l = rw (l.at_pos) (
    branch_if Inv (is_empty (t.entries p)) _ _ (λ e. forget-Inv t p pos l e)
      (λ e. keep-Inv t p pos l e))

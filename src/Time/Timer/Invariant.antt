-- ===== src/Time/Timer/Invariant.antt =====
-- What every operation of `cort_timer` keeps, and what it means for the loop that asks for the next
-- timer.
use cort_proto.Prelude.{
  ℕ, suc, ◌+◌, ◌^◌, ◌≤◌, ◌<◌, ◌≡◌, refl, sym, ap, ◌∙◌, arith, Bool, false, ltb, ◌==◌, if◌then◌else◌,
  Bool-cases, inl, inr, update, List, ◌∷◌,
}
use cort_proto.Prelude.Words.{npos, add64}
use cort_proto.Time.Timer.{
  Timer, Entry, place, is_empty, reserve, get_timeout_list, add_time_out, add_timer, up_update_heap,
  short_timer_list_size, create, heap_size_delta,
}
use cort_proto.Time.Timer.Links.{Linked, IsLinked, Sifted, up_update_heap-Sifted}

abbrev pub nobody : ℕ → Bool
nobody id = false

abbrev pub only : ℕ → ℕ → Bool
only p id = id == p

-- A list has a place in the heap exactly if it has a timer, and stands there; a list with a timer
-- has its timeout for its name; the heap has room for its lists.
pub record Inv (t : Timer) : Type 0 where
  pub linked : IsLinked nobody t
  pub full : (id : ℕ) → is_empty (t.entries id) ≡ (t.heap_pos id == npos)
  pub named : (id : ℕ) → is_empty (t.entries id) ≡ false → t.timeout id ≡ id
  pub short : (id : ℕ) → id < short_timer_list_size → t.timeout id ≡ id
  pub room : t.timer_size ≤ t.timer_capacity
  pub small : t.timer_capacity ≤ 2 ^ 61

pub create-Inv : (block : ℕ → ℕ) (capacity : ℕ) → capacity ≤ 2 ^ 61 → Inv (create block capacity)
unfolding create
create-Inv block capacity h = record {
  linked = (λ i p. elim p [ ], λ id v p. absurd (p refl));
  full = λ id. refl;
  named = λ id p. cc;
  short = λ id p. ground arith;
  room = omega arith;
  small = h;
}

-- A list that had no place comes last in the heap.
Linked-append :
    (heap pos : ℕ → ℕ) (n id : ℕ)
    → n < 2 ^ 62
    → pos id ≡ npos
    → Linked nobody heap pos n
    → Linked nobody (update heap n id) (update pos id n) (suc n)
Linked-append heap pos n id h new (f, g) =
    (λ i lt. ground (arith, f i), λ j v p. ground (arith, g j v))

-- What `add_time_out` does to a timer whose list `id` has no place yet.
pub record Added (t t' : Timer) (id : ℕ) : Type 0 where
  pub links : IsLinked nobody t'
  pub same_entries : t'.entries ≡ t.entries
  pub same_timeout : t'.timeout ≡ t.timeout
  pub placed : (j : ℕ) → (t'.heap_pos j == npos) ≡ (if id == j then false else t.heap_pos j == npos)
  pub size : t'.timer_size ≡ suc t.timer_size
  pub room : t'.timer_size ≤ t'.timer_capacity
  pub small : t'.timer_capacity ≤ t.timer_capacity + heap_size_delta

-- The room that `reserve` makes; it touches nothing else.
pub record Reserved (t t' : Timer) : Type 0 where
  pub same_heap : t'.timer_heap ≡ t.timer_heap
  pub same_pos : t'.heap_pos ≡ t.heap_pos
  pub same_size : t'.timer_size ≡ t.timer_size
  pub same_entries : t'.entries ≡ t.entries
  pub same_timeout : t'.timeout ≡ t.timeout
  pub same_node : t'.next_node ≡ t.next_node
  pub room : t'.timer_size < t'.timer_capacity
  pub small : t'.timer_capacity ≤ t.timer_capacity + heap_size_delta

pub reserve-Reserved :
    (t : Timer)
    → t.timer_size ≤ t.timer_capacity
    → t.timer_capacity ≤ 2 ^ 61
    → Reserved t (reserve t)
unfolding reserve
reserve-Reserved t h small = elim (Bool-cases (t.timer_size == t.timer_capacity)) [
  | inl e ↦ rw e (record {
    same_heap = refl;
    same_pos = refl;
    same_size = refl;
    same_entries = refl;
    same_timeout = refl;
    same_node = refl;
    room = ground arith;
    small = ground arith;
  })
  | inr e ↦ rw e (record {
    same_heap = refl;
    same_pos = refl;
    same_size = refl;
    same_entries = refl;
    same_timeout = refl;
    same_node = refl;
    room = ground arith;
    small = ground arith;
  })
]

pub add_time_out-Added :
    (t : Timer) (id time : ℕ)
    → IsLinked nobody t
    → t.heap_pos id ≡ npos
    → t.timer_size ≤ t.timer_capacity
    → t.timer_capacity ≤ 2 ^ 61
    → Added t (add_time_out id time t) id
unfolding add_time_out
add_time_out-Added t id time l new room small = record {
  links = moved.links;
  same_entries = moved.same_entries ∙ r.same_entries;
  same_timeout = moved.same_timeout ∙ r.same_timeout;
  placed = λ j. moved.same_placed j ∙ put j;
  size = moved.same_size ∙ size;
  room = rw (moved.same_size, moved.same_capacity) (omega (arith, r.room, r.same_size, size));
  small = rw (moved.same_capacity) r.small;
}
  where
    r : Reserved t (reserve t)
    r = reserve-Reserved t room small

    size : add64 t.timer_size 1 ≡ suc t.timer_size
    size = omega arith

    grown : Timer
    grown = record (place (reserve t) t.timer_size id) { timer_size = add64 t.timer_size 1 }

    linked : IsLinked nobody grown
    linked =
        rw (r.same_heap, r.same_pos, size)
          (Linked-append t.timer_heap t.heap_pos t.timer_size id (omega arith) new l)

    moved : Sifted nobody grown (up_update_heap t.timer_size time grown).0
    moved = up_update_heap-Sifted nobody grown t.timer_size time (omega arith) (omega arith) linked

    put : (j : ℕ) → (grown.heap_pos j == npos) ≡ (if id == j then false else t.heap_pos j == npos)
    put j = rw r.same_pos (ground arith)

pub found-Inv : (id : ℕ) (t : Timer) → Inv t → Inv (get_timeout_list id t)
unfolding get_timeout_list
found-Inv id t v = elim (Bool-cases (ltb id short_timer_list_size)) [
  | inl e ↦ rw e v
  | inr e ↦ rw e (record {
    linked = v.linked;
    full = v.full;
    named = λ j h. ground (arith, v.named j h);
    short = λ j h. ground (arith, v.short j h);
    room = v.room;
    small = v.small;
  })
]

pub found-timeout : (id : ℕ) (t : Timer) → Inv t → (get_timeout_list id t).timeout id ≡ id
unfolding get_timeout_list
found-timeout id t v = ground (arith, v.short id)

pub found-capacity :
    (id : ℕ) (t : Timer) → (get_timeout_list id t).timer_capacity ≡ t.timer_capacity
unfolding get_timeout_list
found-capacity id t = ground arith

-- A list with a timer more.
module _ (t : Timer) (v : Inv t) (id : ℕ) (named : t.timeout id ≡ id) (e : Entry) where
  unfoldable pub pushed : Timer
  pushed = record t {
    entries = update t.entries id (e ∷ t.entries id);
    next_node = t.next_node + 1;
  }

  pushed_full :
      (j : ℕ) → is_empty (pushed.entries j) ≡ (if id == j then false else t.heap_pos j == npos)
  unfolding pushed
  pushed_full j = elim (Bool-cases (id == j)) [ inl h ↦ rw h | inr h ↦ rw h (v.full j) ]

  pushed_named : (j : ℕ) → is_empty (pushed.entries j) ≡ false → t.timeout j ≡ j
  unfolding pushed
  pushed_named j h = elim (Bool-cases (id == j)) [
    | inl s ↦ let same : id ≡ j = ground arith in rw (← same) named
    | inr s ↦ v.named j (rw s at h)
  ]

  pushed-Inv_placed : (t.heap_pos id == npos) ≡ false → Inv pushed
  unfolding pushed
  pushed-Inv_placed placed = record {
    linked = v.linked;
    full = λ j. pushed_full j ∙ ground (arith, placed);
    named = pushed_named;
    short = v.short;
    room = v.room;
    small = v.small;
  }

  pushed-Inv_new :
      (time : ℕ)
      → t.heap_pos id ≡ npos
      → t.timer_capacity + heap_size_delta ≤ 2 ^ 61
      → Inv (add_time_out id time pushed)
  unfolding pushed
  pushed-Inv_new time new small = record {
    linked = a.links;
    full = λ j.
        ap (λ (m : ℕ → List Entry). is_empty (m j)) a.same_entries
        ∙ pushed_full j
        ∙ sym (a.placed j);
    named = λ j h.
        ap (λ (m : ℕ → ℕ). m j) a.same_timeout
        ∙ pushed_named j (sym (ap (λ (m : ℕ → List Entry). is_empty (m j)) a.same_entries) ∙ h);
    short = λ j h. ap (λ (m : ℕ → ℕ). m j) a.same_timeout ∙ v.short j h;
    room = a.room;
    small = omega (arith, a.small);
  }
    where
      a : Added pushed (add_time_out id time pushed) id
      a = add_time_out-Added pushed id time v.linked new v.room v.small

-- Adding a timer keeps the links between heap and lists, for a heap of fewer than 2 ^ 61 - 64 places.
pub add_timer-Inv :
    (waiter timeout now : ℕ) {t : Timer}
    → Inv t
    → t.timer_capacity + heap_size_delta ≤ 2 ^ 61
    → Inv (add_timer waiter timeout now t).1
unfolding add_timer pushed
add_timer-Inv waiter timeout now {t} v small =
    let found = get_timeout_list timeout t in
    let inv = found-Inv timeout t v in
    let named = found-timeout timeout t v in
    elim (Bool-cases (found.heap_pos timeout == npos)) [
      | inl new ↦ rw new (
          pushed-Inv_new found inv timeout named _ _ (ground arith)
            (rw (found-capacity timeout t) small))
      | inr placed ↦ rw placed (pushed-Inv_placed found inv timeout named _ placed)
    ]

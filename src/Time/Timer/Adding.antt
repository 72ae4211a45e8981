-- ===== src/Time/Timer/Adding.antt =====
-- Adding timers keeps the heap in the order of `up_update_heap`, so the first of it is due first.
use mathlib.Core.Path.{subst}
use cort_proto.Prelude.{
  ℕ, suc, ◌+◌, ◌*◌, ◌/◌, ◌^◌, ◌≤◌, ◌<◌, ◌≡◌, refl, sym, ap, ◌∙◌, arith, true, false, ltb, ◌==◌,
  Bool-cases, inl, inr, update_self, update_ne, branch_if, List, [], ◌∷◌, some, length,
}
use cort_proto.Prelude.Words.{npos, add64}
use cort_proto.Time.Timer.{
  Timer, Entry, key, place, is_empty, back, back_time, reserve, get_timeout_list, add_time_out,
  add_timer, get_next_timer, create, up_update_heap, heap_size_delta, short_timer_list_size,
}
use cort_proto.Time.Timer.Links.{IsLinked}
use cort_proto.Time.Timer.Invariant.{
  Inv, nobody, Added, create-Inv, add_timer-Inv, reserve-Reserved, Reserved, found-Inv,
  found-timeout, found-capacity, pushed, add_time_out-Added,
}
use cort_proto.Time.Timer.Order.{UpOrdered, UpOrdered-root, value, up_update_heap-UpOrdered}

abbrev pub IsOrdered : Timer → Type 0
IsOrdered t = UpOrdered (value t) t.timer_size

back_time-cons :
    (e : Entry) (es : List Entry) → is_empty es ≡ false → back_time (e ∷ es) ≡ back_time es
back_time-cons e [] h = cc
back_time-cons e (d ∷ es) h = refl

back_time-single :
    (e : Entry) (es : List Entry) → is_empty es ≡ true → back_time (e ∷ es) ≡ e.end_time
back_time-single e [] h = refl
back_time-single e (d ∷ es) h = cc

back_time_of_back : (es : List Entry) {e : Entry} → back es ≡ some e → back_time es ≡ e.end_time
back_time_of_back [] h = cc
back_time_of_back (e ∷ []) h = ground arith
back_time_of_back (e ∷ d ∷ es) h = back_time_of_back (d ∷ es) h

-- A timer more in a list that has timers does not change when the list is due.
value-pushed :
    (t : Timer) (v : Inv t) (id : ℕ) (named : t.timeout id ≡ id) (e : Entry) (i : ℕ)
    → i < t.timer_size
    → value (pushed t v id named e) i ≡ value t i
unfolding pushed
value-pushed t v id named e i lt = elim (Bool-cases (id == t.timer_heap i)) [
  | inl s ↦
      let same : id ≡ t.timer_heap i = ground arith in
      rw (s, same)
        (back_time-cons e (t.entries (t.timer_heap i))
          (ground (arith, v.full (t.timer_heap i), v.linked.0 i lt, v.room, v.small)))
  | inr s ↦ rw s
]

value-reserve :
    (t : Timer)
    → t.timer_size ≤ t.timer_capacity
    → t.timer_capacity ≤ 2 ^ 61
    → (i : ℕ) → value (reserve t) i ≡ value t i
value-reserve t h small i = let r = reserve-Reserved t h small in rw (r.same_heap, r.same_entries)

-- A list that gets its place, at the end, and is brought up from there.
add_time_out-IsOrdered :
    (t : Timer) (id : ℕ)
    → IsLinked nobody t
    → t.heap_pos id ≡ npos
    → t.timer_size ≤ t.timer_capacity
    → t.timer_capacity ≤ 2 ^ 61
    → IsOrdered t
    → IsOrdered (add_time_out id (key t id) t)
add_time_out-IsOrdered t id l new room small o = rw (a.size ∙ sym size) (
    unfold add_time_out in
    subst (λ k. UpOrdered (value (up_update_heap t.timer_size k grown).0) grown.timer_size)
      (sym key_same) (up_update_heap-UpOrdered grown t.timer_size (sym size) before))
  where
    a : Added t (add_time_out id (key t id) t) id
    a = add_time_out-Added t id (key t id) l new room small

    r : Reserved t (reserve t)
    r = reserve-Reserved t room small

    grown : Timer
    grown = record (place (reserve t) t.timer_size id) { timer_size = add64 t.timer_size 1 }

    size : grown.timer_size ≡ suc t.timer_size
    size = omega arith

    key_same : key t id ≡ key grown (grown.timer_heap t.timer_size)
    key_same =
        ap (λ (m : ℕ → List Entry). back_time (m id)) (sym r.same_entries)
        ∙ ap (key grown) (sym (update_self (reserve t).timer_heap t.timer_size id))

    earlier : (i : ℕ) → i < t.timer_size → value grown i ≡ value t i
    earlier i lt =
        ap (key grown)
          (update_ne (reserve t).timer_heap {p = t.timer_size} {q = i} id (omega arith))
        ∙ value-reserve t room small i

    before : UpOrdered (value grown) t.timer_size
    before i lt pos = omega (arith, earlier i lt, earlier (i / 2) (omega arith), o i lt pos)

found-IsOrdered : (id : ℕ) (t : Timer) → IsOrdered t → IsOrdered (get_timeout_list id t)
unfolding get_timeout_list
found-IsOrdered id t o = branch_if IsOrdered (ltb id short_timer_list_size) t _ (λ _. o) (λ _. o)

-- Adding a timer keeps the order: each list stands in the heap behind the one at half its place.
pub add_timer-IsOrdered :
    (waiter timeout now : ℕ) {t : Timer}
    → Inv t
    → t.timer_capacity + heap_size_delta ≤ 2 ^ 61
    → IsOrdered t
    → IsOrdered (add_timer waiter timeout now t).1
unfolding add_timer pushed
add_timer-IsOrdered waiter timeout now {t} v small o =
    branch_if IsOrdered (found.heap_pos timeout == npos)
      (add_time_out timeout (add64 now timeout) filled) filled (λ new. fresh (ground arith))
      (λ _. kept)
  where
    found : Timer
    found = get_timeout_list timeout t

    inv : Inv found
    inv = found-Inv timeout t v

    e : Entry
    e = record {
      node = found.next_node;
      waiter = waiter;
      end_time = add64 now timeout;
      host_list = timeout;
    }

    filled : Timer
    filled = pushed found inv timeout (found-timeout timeout t v) e

    found_ordered : IsOrdered found
    found_ordered = found-IsOrdered timeout t o

    kept : IsOrdered filled
    kept i lt pos =
        let at = value-pushed found inv timeout (found-timeout timeout t v) e i lt in
        let half =
          value-pushed found inv timeout (found-timeout timeout t v) e (i / 2) (omega arith) in
        omega (arith, at, half, found_ordered i lt pos)

    due : is_empty (found.entries timeout) ≡ true → key filled timeout ≡ add64 now timeout
    due none_before =
        ap back_time (update_self found.entries timeout (e ∷ found.entries timeout))
        ∙ back_time-single e (found.entries timeout) none_before

    fresh :
        found.heap_pos timeout ≡ npos → IsOrdered (add_time_out timeout (add64 now timeout) filled)
    fresh new =
        subst (λ k. IsOrdered (add_time_out timeout k filled))
          (due (ground (arith, inv.full timeout)))
          (add_time_out-IsOrdered filled timeout inv.linked new inv.room inv.small kept)

first_back : (t : Timer) {e : Entry} → get_next_timer t ≡ some e → value t 0 ≡ e.end_time
unfolding get_next_timer
first_back t {e} next = elim (Bool-cases (t.timer_size == 0)) [
  | inl z ↦ absurd (cc (rw (z, get_next_timer) at next))
  | inr nz ↦ back_time_of_back (t.entries (t.timer_heap 0)) (rw (nz, get_next_timer) at next)
]

-- In a heap so ordered, the timer that the event loop is given next is due no later than any list.
pub get_next_timer-least :
    {t : Timer} {e : Entry} (id : ℕ)
    → Inv t
    → IsOrdered t
    → get_next_timer t ≡ some e
    → is_empty (t.entries id) ≡ false
    → e.end_time ≤ key t id
get_next_timer-least {t} {e} id v o next held =
    let place_of = v.linked.1 id refl (λ z. ground (arith, v.full id, held)) in
    omega (
      arith,
      first_back t next,
      UpOrdered-root (value t) (t.heap_pos id) o place_of.0,
      ap (key t) place_of.1,
    )

add_timer-capacity :
    (waiter timeout now : ℕ) {t : Timer}
    → Inv t
    → (add_timer waiter timeout now t).1.timer_capacity ≤ t.timer_capacity + heap_size_delta
unfolding add_timer pushed
add_timer-capacity waiter timeout now {t} v =
    branch_if Bounded (found.heap_pos timeout == npos)
      (add_time_out timeout (add64 now timeout) filled) filled
      (λ new.
        let a =
          add_time_out-Added filled timeout (add64 now timeout) inv.linked (ground arith) inv.room
            inv.small in
        omega (arith, a.small, found-capacity timeout t))
      (λ _. omega (arith, found-capacity timeout t))
  where
    Bounded : Timer → Type 0
    Bounded t' = t'.timer_capacity ≤ t.timer_capacity + heap_size_delta

    found : Timer
    found = get_timeout_list timeout t

    inv : Inv found
    inv = found-Inv timeout t v

    filled : Timer
    filled = pushed found inv timeout (found-timeout timeout t v) (record {
      node = found.next_node;
      waiter = waiter;
      end_time = add64 now timeout;
      host_list = timeout;
    })

-- The calls of `add_timer`, each with the coroutine, the timeout and the time.
pub record Call : Type 0 where
  pub waiter : ℕ
  pub timeout : ℕ
  pub now : ℕ

unfoldable pub add_all : List Call → Timer → Timer
add_all [] t = t
add_all (c ∷ cs) t = add_all cs (add_timer c.waiter c.timeout c.now t).1

add_all-IsOrdered :
    (cs : List Call) {t : Timer}
    → Inv t
    → IsOrdered t
    → t.timer_capacity + heap_size_delta * length cs ≤ 2 ^ 61
    → Inv (add_all cs t) × IsOrdered (add_all cs t)
unfolding add_all
add_all-IsOrdered [] v o small = (v, o)
add_all-IsOrdered (c ∷ cs) {t} v o small =
    add_all-IsOrdered cs (add_timer-Inv c.waiter c.timeout c.now v (omega arith))
      (add_timer-IsOrdered c.waiter c.timeout c.now v (omega arith) o)
      (omega (arith, add_timer-capacity c.waiter c.timeout c.now v))

create-IsOrdered : (block : ℕ → ℕ) (capacity : ℕ) → IsOrdered (create block capacity)
unfolding create
create-IsOrdered block capacity i lt pos = absurd (omega arith)

-- After any calls of `add_timer` on a new `cort_timer`, and no removal, the timer that the event loop
-- is given next is due no later than the oldest timer of each list that has one; as long as the heap
-- stays within 2 ^ 61 places.
pub add_all_next :
    (block : ℕ → ℕ) (capacity : ℕ) (cs : List Call) {e : Entry} (id : ℕ)
    → capacity + heap_size_delta * length cs ≤ 2 ^ 61
    → get_next_timer (add_all cs (create block capacity)) ≡ some e
    → is_empty ((add_all cs (create block capacity)).entries id) ≡ false
    → e.end_time ≤ key (add_all cs (create block capacity)) id
add_all_next block capacity cs id small =
    let start = create-Inv block capacity (omega arith) in
    let (v, o) =
      add_all-IsOrdered cs start (create-IsOrdered block capacity) (unfold create in small) in
    get_next_timer-least id v o

-- ===== src/Time/Timer/Next.antt =====
-- `remove_timer`, and the timer that the event loop is given next.
use cort_proto.Prelude.{
  ℕ, ◌<◌, ◌≡◌, ◌≢◌, refl, sym, ◌∙◌, arith, true, false, ◌==◌, branch_if, Bool-cases, inl, inr,
  update, update_ne, List, [], ◌∷◌, none, ◌↔◌,
}
use cort_proto.Time.Timer.{
  Timer, Entry, is_empty, is_back, erase, back, remove_timer, get_next_timer,
}
use cort_proto.Time.Timer.Removal.{Losing, remove_time_out-Inv, entries-remove_time_out}
use cort_proto.Time.Timer.Invariant.{Inv}

not_empty_of_is_back : (node : ℕ) (es : List Entry) → is_back node es ≡ true → is_empty es ≡ false
unfolding is_back
not_empty_of_is_back node [] h = cc
not_empty_of_is_back node (e ∷ es) h = refl

not_empty_of_erase :
    (node : ℕ) (es : List Entry) → is_empty (erase node es) ≡ false → is_empty es ≡ false
unfolding erase
not_empty_of_erase node [] h = h
not_empty_of_erase node (e ∷ es) h = refl

back-none : (es : List Entry) → back es ≡ none → is_empty es ≡ true
back-none [] h = refl
back-none (e ∷ []) h = cc
back-none (e ∷ d ∷ es) h = cc (back-none (d ∷ es) h)

-- Erasing a node that is not the last leaves the list with its last.
is_empty-erase :
    (node : ℕ) (es : List Entry) → is_back node es ≡ false → is_empty (erase node es) ≡ is_empty es
unfolding is_back erase
is_empty-erase node [] h = refl
is_empty-erase node (e ∷ []) h = rw h
is_empty-erase node (e ∷ d ∷ es) h = ground arith

module _ (t : Timer) (v : Inv t) (e : Entry) where
  erased : Timer
  erased = record t {
    entries = update t.entries e.host_list (erase e.node (t.entries e.host_list));
  }

  -- No list becomes non-empty.
  erased_empty : (j : ℕ) → is_empty (erased.entries j) ≡ false → is_empty (t.entries j) ≡ false
  unfolding erased erase
  erased_empty j h = elim (Bool-cases (e.host_list == j)) [
    | inl s ↦
        let same_list : e.host_list ≡ j = ground arith in
        rw (← same_list) (not_empty_of_erase e.node (t.entries e.host_list) (rw s at h))
    | inr s ↦ rw s at h
  ]

  erased-Losing :
      is_back e.node (t.entries e.host_list) ≡ true
      → Losing erased e.host_list (t.heap_pos e.host_list)
  unfolding erased
  erased-Losing last = record {
    linked = v.linked;
    at_pos = at.1;
    inside = at.0;
    full = λ j ne.
        rw
          (update_ne t.entries {p = e.host_list} {q = j} (erase e.node (t.entries e.host_list))
            (λ s. ne (sym s)))
          (v.full j);
    named = λ j h. v.named j (erased_empty j h);
    own_name = v.named e.host_list held;
    short = v.short;
    room = v.room;
    small = v.small;
  }
    where
      held : is_empty (t.entries e.host_list) ≡ false
      held = not_empty_of_is_back e.node (t.entries e.host_list) last

      at :
          (t.heap_pos e.host_list < t.timer_size)
          × (t.timer_heap (t.heap_pos e.host_list) ≡ e.host_list)
      at = v.linked.1 e.host_list refl (λ z. ground (arith, v.full e.host_list, held))

  erased-Inv : is_back e.node (t.entries e.host_list) ≡ false → Inv erased
  unfolding erased
  erased-Inv inner = record {
    linked = v.linked;
    full = λ j. same j ∙ v.full j;
    named = λ j h. v.named j (sym (same j) ∙ h);
    short = v.short;
    room = v.room;
    small = v.small;
  }
    where
      same : (j : ℕ) → is_empty (erased.entries j) ≡ is_empty (t.entries j)
      same j = elim (Bool-cases (e.host_list == j)) [
        | inl s ↦
            let same_list : e.host_list ≡ j = ground arith in
            rw (s, ← same_list) (is_empty-erase e.node (t.entries e.host_list) inner)
        | inr s ↦ rw s
      ]

-- Removing a timer keeps the links between heap and lists, whichever entry of whichever list it is:
-- a list with timers left keeps a place in the heap, and one without is taken out of it.
pub remove_timer-Inv : (e : Entry) {t : Timer} → Inv t → Inv (remove_timer e t)
unfolding remove_timer erased
remove_timer-Inv e {t} v =
    branch_if Inv (is_back e.node (t.entries e.host_list)) _ _
      (λ last.
        remove_time_out-Inv (erased t v e) e.host_list (t.heap_pos e.host_list)
          (erased-Losing t v e last))
      (λ inner. erased-Inv t v e inner)

-- Removing a timer takes its entry out of its list, and leaves the other lists as they were.
pub entries-remove_timer :
    (e : Entry) {t : Timer} (j : ℕ)
    → Inv t
    → (remove_timer e t).entries j
      ≡ update t.entries e.host_list (erase e.node (t.entries e.host_list)) j
unfolding remove_timer erased
entries-remove_timer e {t} j v =
    branch_if
      (λ (x : Timer).
        x.entries j ≡ update t.entries e.host_list (erase e.node (t.entries e.host_list)) j)
      (is_back e.node (t.entries e.host_list)) _ _
      (λ last.
        entries-remove_time_out (erased t v e) e.host_list (t.heap_pos e.host_list) j
          (erased-Losing t v e last))
      (λ inner. refl)

-- The event loop is given no timer exactly if no list has one.
pub get_next_timer-none :
    {t : Timer} → Inv t → (get_next_timer t ≡ none) ↔ ((id : ℕ) → is_empty (t.entries id) ≡ true)
unfolding get_next_timer
get_next_timer-none {t} v = (silent, idle)
  where
    unplaced : t.timer_size ≡ 0 → (id : ℕ) → is_empty (t.entries id) ≡ true
    unplaced z id = ground (arith, v.full id, v.linked.1 id)

    first_full : t.timer_size ≢ 0 → is_empty (t.entries (t.timer_heap 0)) ≡ false
    first_full ne = ground (arith, v.full (t.timer_heap 0), v.linked.0 0)

    silent : get_next_timer t ≡ none → (id : ℕ) → is_empty (t.entries id) ≡ true
    silent h = elim (Bool-cases (t.timer_size == 0)) [
      | inl z ↦ unplaced (ground arith)
      | inr nz ↦
          let ne : t.timer_size ≢ 0 = ground arith in
          absurd (
            cc (
              first_full ne,
              back-none (t.entries (t.timer_heap 0)) (rw (nz, get_next_timer) at h),
            ))
    ]

    idle : ((id : ℕ) → is_empty (t.entries id) ≡ true) → get_next_timer t ≡ none
    idle h = elim (Bool-cases (t.timer_size == 0)) [
      | inl z ↦ rw (z, get_next_timer)
      | inr nz ↦
          let ne : t.timer_size ≢ 0 = ground arith in
          absurd (cc (first_full ne, h (t.timer_heap 0)))
    ]

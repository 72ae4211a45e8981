-- ===== src/Time/Timer/Order.antt =====
-- The order of the heap. The two updates disagree on where the parent of a place is:
-- `up_update_heap` compares `i` with `i / 2`, and `down_update_heap` compares `i` with its children
-- `2 * i + 1` and `2 * i + 2`.
use native.Mathlib.Nat.{le_refl, le_trans}
use mathlib.Core.Path.{fun_ext, subst}
use cort_proto.Prelude.{
  ℕ, zero, suc, ◌+◌, ◌*◌, ◌/◌, ◌≤◌, ◌<◌, ◌≡◌, ◌≢◌, refl, sym, arith, true, false, ltb, ◌==◌, inl,
  inr, update, branch, ◌⊎◌,
}
use cort_proto.Time.Timer.Links.{up_loop-stays}
use cort_proto.Time.Timer.{Timer, key, place, up_loop, settle, up_update_heap}

-- `value` orders the places `i < n` as `up_update_heap` sees them.
abbrev pub UpOrdered : (ℕ → ℕ) → ℕ → Type 0
UpOrdered value n = (i : ℕ) → i < n → 0 < i → value (i / 2) ≤ value i

-- The root is then the least.
UpOrdered-root_fuel :
    (fuel i n : ℕ) (value : ℕ → ℕ) → i ≤ fuel → i < n → UpOrdered value n → value 0 ≤ value i
UpOrdered-root_fuel fuel zero n value h lt o = le_refl (value 0)
UpOrdered-root_fuel zero (suc i) n value h lt o = absurd (omega arith)
UpOrdered-root_fuel (suc fuel) (suc i) n value h lt o =
    le_trans (UpOrdered-root_fuel fuel (suc i / 2) n value (omega arith) (omega arith) o)
      (o (suc i) lt (omega arith))

pub UpOrdered-root : {n : ℕ} (value : ℕ → ℕ) (i : ℕ) → UpOrdered value n → i < n → value 0 ≤ value i
UpOrdered-root {n} value i o lt = UpOrdered-root_fuel i i n value (omega arith) lt o

-- In order but at the hole: the list there may be due too early for its place.
abbrev pub UpOrderedBut : (ℕ → ℕ) → ℕ → ℕ → Type 0
UpOrderedBut value n hole =
    ((i : ℕ) → i < n → 0 < i → i ≢ hole → value (i / 2) ≤ value i)
    × ((i : ℕ) → i < n → i / 2 ≡ hole → i ≢ hole → 0 < hole → value (hole / 2) ≤ value i)

module _ (value : ℕ → ℕ) (n hole : ℕ) where
  lifted : ℕ → ℕ
  lifted = update (update value hole (value (hole / 2))) (hole / 2) (value hole)

  UpOrderedBut-lift :
      0 < hole
      → hole < n
      → value hole < value (hole / 2)
      → UpOrderedBut value n hole
      → UpOrderedBut lifted n (hole / 2)
  unfolding lifted
  UpOrderedBut-lift pos lt less (f, g) = (
    λ i h p ne. ground (arith, f i h p, g i h, f (hole / 2)),
    λ i h at ne p. ground (arith, f i h, g i h, f (hole / 2)),
  )

-- The end times in the heap, by place, once the list `p` is put at the hole.
abbrev pub value_but : Timer → ℕ → ℕ → ℕ → ℕ
value_but t hole p i = key t (update t.timer_heap hole p i)

abbrev pub value : Timer → ℕ → ℕ
value t i = key t (t.timer_heap i)

value_but-move :
    (t : Timer) (p old : ℕ)
    → 0 < old
    → value_but (place t old (t.timer_heap (old / 2))) (old / 2) p
      ≡ lifted (value_but t old p) t.timer_size old
unfolding lifted
value_but-move t p old pos = fun_ext λ i. ground arith

-- A loop that has come to its end has put the heap in order.
abbrev Done : Timer → ℕ → Timer × ℕ → Type 0
Done t p r = UpOrdered (value_but r.0 r.1 p) t.timer_size

up_loop-UpOrdered :
    (fuel old my_time p : ℕ) (t : Timer)
    → old ≤ fuel
    → old < t.timer_size
    → my_time ≡ key t p
    → UpOrderedBut (value_but t old p) t.timer_size old
    → Done t p (up_loop fuel old my_time t)
unfolding up_loop
up_loop-UpOrdered zero old my_time p t f h e (o, o') = λ i lt pos. o i lt pos (omega arith)
up_loop-UpOrdered (suc fuel) old my_time p t f h e (o, o') =
    branch (Done t p) (old == 0) (t, old) climb (λ root i lt pos. o i lt pos (ground arith))
      (λ inner.
        branch (Done t p) (ltb my_time (key t (t.timer_heap (old / 2)))) up (t, old)
          (λ less. up_loop-UpOrdered fuel (old / 2) my_time p lower (omega arith) (omega arith) e (
            subst (λ v. UpOrderedBut v t.timer_size (old / 2))
              (sym (value_but-move t p old (ground arith)))
              (UpOrderedBut-lift (value_but t old p) t.timer_size old (ground arith) h
                (ground arith) (o, o'))))
          (λ enough i lt pos. ground (arith, o i lt pos)))
  where
    lower : Timer
    lower = place t old (t.timer_heap (old / 2))

    up : Timer × ℕ
    up = up_loop fuel (old / 2) my_time lower

    climb : Timer × ℕ
    climb = elim (ltb my_time (key t (t.timer_heap (old / 2)))) [ true ↦ up | false ↦ (t, old) ]

value_but_self : (t : Timer) (pos i : ℕ) → value_but t pos (t.timer_heap pos) i ≡ value t i
value_but_self t pos i = ground arith

settle-UpOrdered :
    (t : Timer) (pos : ℕ) (r : Timer × ℕ)
    → Done t (t.timer_heap pos) r
    → (r ≡ (t, pos)) ⊎ (r.1 < pos)
    → UpOrdered (value (settle pos (t.timer_heap pos) r).0) t.timer_size
unfolding settle
settle-UpOrdered t pos r d (inl e) =
    let stayed : (pos == pos) ≡ true = ground arith in
    rw (e, stayed)
      (subst (λ v. UpOrdered v t.timer_size) (fun_ext (value_but_self t pos))
        (subst (Done t (t.timer_heap pos)) e d))
settle-UpOrdered t pos r d (inr lt) = let moved : (r.1 == pos) ≡ false = ground arith in rw moved d

-- `up_update_heap` brings the list at the last place to where it belongs.
pub up_update_heap-UpOrdered :
    (t : Timer) (pos : ℕ)
    → suc pos ≡ t.timer_size
    → UpOrdered (value t) pos
    → UpOrdered (value (up_update_heap pos (key t (t.timer_heap pos)) t).0) t.timer_size
unfolding up_update_heap settle
up_update_heap-UpOrdered t pos last o =
    settle-UpOrdered t pos (up_loop pos pos (key t p) t)
      (up_loop-UpOrdered pos pos (key t p) p t (omega arith) (omega arith) refl (before, behind))
      (up_loop-stays (λ _. false) pos pos (key t p) t)
  where
    p : ℕ
    p = t.timer_heap pos

    before :
        (i : ℕ)
        → i < t.timer_size
        → 0 < i
        → i ≢ pos
        → value_but t pos p (i / 2) ≤ value_but t pos p i
    before i lt ne off = ground (arith, o i)

    behind :
        (i : ℕ)
        → i < t.timer_size
        → i / 2 ≡ pos
        → i ≢ pos
        → 0 < pos
        → value_but t pos p (pos / 2) ≤ value_but t pos p i
    behind i lt at off ne = absurd (omega arith)

-- `value` orders the places as `down_update_heap` sees them.
abbrev pub DownOrdered : (ℕ → ℕ) → ℕ → Type 0
DownOrdered value n =
    (i : ℕ)
    → (2 * i + 1 < n → value i ≤ value (2 * i + 1)) × (2 * i + 2 < n → value i ≤ value (2 * i + 2))

up_loop_rests :
    (pos my_time : ℕ) (t : Timer)
    → 0 < pos
    → value t (pos / 2) ≤ my_time
    → up_loop pos pos my_time t ≡ (t, pos)
unfolding up_loop
up_loop_rests zero my_time t pos h = absurd (omega arith)
up_loop_rests (suc n) my_time t pos h = ground arith

up_update_heap_rests :
    (t : Timer) (pos my_time : ℕ)
    → 0 < pos
    → value t (pos / 2) ≤ my_time
    → (up_update_heap pos my_time t).0 ≡ t
unfolding up_update_heap settle
up_update_heap_rests t pos my_time pos_pos h =
    let self : (pos == pos) ≡ true = ground arith in
    rw (up_loop_rests pos my_time t pos_pos h, self) refl

-- The two updates do not fit together: a list at the right place under `k` that is due before the one
-- at `k`, but not before the one at `k + 1`, is left where it is by `up_update_heap`, so the heap is
-- not in the order that `down_update_heap` relies on.
pub up_update_heap_leaves_disorder :
    (t : Timer) (k : ℕ)
    → 2 * k + 2 < t.timer_size
    → value t (k + 1) ≤ value t (2 * k + 2)
    → value t (2 * k + 2) < value t k
    → ¬ DownOrdered (value (up_update_heap (2 * k + 2) (value t (2 * k + 2)) t).0) t.timer_size
up_update_heap_leaves_disorder t k inside after before o =
    let half : (2 * k + 2) / 2 ≡ k + 1 = omega arith in
    let kept : (up_update_heap (2 * k + 2) (value t (2 * k + 2)) t).0 ≡ t =
      up_update_heap_rests t (2 * k + 2) (value t (2 * k + 2)) (omega arith) (rw half after) in
    let ordered : DownOrdered (value t) t.timer_size =
      subst (λ u. DownOrdered (value u) t.timer_size) kept o in
    let least : value t k ≤ value t (2 * k + 2) = (ordered k).1 inside in omega arith

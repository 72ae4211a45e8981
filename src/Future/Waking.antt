-- ===== src/Future/Waking.antt =====
-- Which coroutines a future resumes, and what it leaves of itself.
use cort_proto.Prelude.{
  ℕ, zero, suc, ◌+◌, ◌^◌, ◌<◌, ◌≡◌, ◌≢◌, refl, sym, ap, ◌∙◌, arith, Bool, true, false, not, List,
  [], ◌∷◌, ◌++◌, none, some, if◌then◌else◌, ◌==◌, Bool-cases, inl, inr,
}
use cort_proto.Prelude.Words.{sub64}
use cort_proto.Util.PodPool.{empty, pop_back}
use cort_proto.Future.{
  Future, returned, release, add_ref, parent_loop, list_loop, leave, after_parents, resumed, resume,
  remove_parent,
}

-- The elements from the last to the first.
abbrev pub last_first : ℕ → (ℕ → ℕ) → List ℕ
last_first zero g = []
last_first (suc n) g = g n ∷ last_first n g

-- The waiters, in the order in which they are to be resumed.
abbrev pub waiters : Future → List ℕ
waiters f =
    (if f.parent == 0 then [] else f.parent ∷ [])
    ++ last_first f.parent_list.the_size f.parent_list.ptr

abbrev pub all_woken : {E : Type 0} → (ℕ → E → E) → List ℕ → E → E
all_woken w [] e = e
all_woken w (p ∷ ps) e = all_woken w ps (w p e)

-- The future when it has resumed all.
abbrev pub set_free : Future → Future
set_free f = record f {
  parent = 0;
  wait_count = 0;
  parent_list = record f.parent_list { the_size = 0 };
}

module _ {E : Type 0} (w : ℕ → E → E) where
  -- Coroutines that leave the future alone.
  abbrev pub quiet : ℕ → Future × E → Future × E
  quiet p (f, e) = (f, w p e)

  -- A future that is set, with `n` coroutines in its list.
  abbrev pub with_list : Future → ℕ → Future
  with_list f n = record f { wait_count = 0; parent_list = record f.parent_list { the_size = n } }

  -- One pass of the second loop.
  list_loop_step :
      (fuel n : ℕ) (f : Future) (e : E)
      → n < 2 ^ 63
      → list_loop quiet (suc fuel) (with_list f (suc n), e)
        ≡ list_loop quiet fuel (with_list f n, w (f.parent_list.ptr n) e)
  unfolding list_loop empty pop_back
  list_loop_step fuel n f e small =
      let less : sub64 (suc n) 1 ≡ n = omega arith in
      let some_left : (suc n == 0) ≡ false = ground arith in
      rw (list_loop, some_left)
        (ap (λ m. list_loop quiet fuel (with_list f m, w (f.parent_list.ptr m) e)) less)

  list_loop_wakes :
      (fuel n : ℕ) (f : Future) (e : E)
      → n < fuel
      → n < 2 ^ 63
      → list_loop quiet fuel (with_list f n, e)
        ≡ some ((with_list f 0, all_woken w (last_first n f.parent_list.ptr) e), false)
  unfolding list_loop empty
  list_loop_wakes zero n f e h small = absurd (omega arith)
  list_loop_wakes (suc fuel) zero f e h small = refl
  list_loop_wakes (suc fuel) (suc n) f e h small =
      list_loop_step fuel n f e (omega arith)
      ∙ list_loop_wakes fuel n f (w (f.parent_list.ptr n) e) (omega arith) (omega arith)

  -- The first loop resumes the parent, if there is one.
  parent_loop_wakes :
      (fuel : ℕ) (f : Future) (e : E)
      → f.wait_count ≡ 0
      → 1 < fuel
      → parent_loop quiet fuel (f, e)
        ≡ some (
          (record f { parent = 0 }, all_woken w (if f.parent == 0 then [] else f.parent ∷ []) e),
          false,
        )
  unfolding parent_loop remove_parent
  parent_loop_wakes zero f e z h = absurd (omega arith)
  parent_loop_wakes (suc zero) f e z h = absurd (omega arith)
  parent_loop_wakes (suc (suc fuel)) f e z h = ground (arith, z)

  release-add_ref :
      (f : Future)
      → f.wait_count ≡ 0
      → f.ref_count ≢ 0
      → f.ref_count < 2 ^ 63
      → release (add_ref f) ≡ f
  unfolding release add_ref
  release-add_ref f z n small = ground arith

  all_woken-append :
      (ps qs : List ℕ) (e : E) → all_woken w (ps ++ qs) e ≡ all_woken w qs (all_woken w ps e)
  all_woken-append [] qs e = refl
  all_woken-append (p ∷ ps) qs e = all_woken-append ps qs (w p e)

  second_half :
      (fuel : ℕ) (b : Bool) (g : Future) (e : E)
      → g.parent_list.the_size + 1 < fuel
      → fuel < 2 ^ 63
      → let f = record g { wait_count = 0 } in
        (elim (parent_loop quiet fuel (f, e)) [
          | none ↦ none
          | some r ↦ after_parents quiet fuel b r
        ])
        ≡ some (leave quiet b returned (set_free f, all_woken w (waiters f) e))
  unfolding after_parents
  second_half fuel b g e h small =
      let f = record g { wait_count = 0 } in
      let n = g.parent_list.the_size in
      let front = if g.parent == 0 then [] else g.parent ∷ [] in
      rw (parent_loop_wakes fuel f e refl (omega arith)) (
        rw
          (
            after_parents,
            list_loop_wakes fuel n (record f { parent = 0 }) (all_woken w front e) (omega arith)
                (omega arith),
          )
          (ap (λ e'. some (leave quiet b returned (set_free f, e')))
            (sym (all_woken-append front (last_first n g.parent_list.ptr) e))))

  counted :
      (fuel : ℕ) (b : Bool) (f : Future) (e : E)
      → not (f.ref_count == 0) ≡ b
      → let f' = record f { wait_count = 0 } in
        resumed quiet fuel (f, e)
        ≡ elim (parent_loop quiet fuel (if b then add_ref f' else f', e)) [
          | none ↦ none
          | some r ↦ after_parents quiet fuel b r
        ]
  unfolding resumed
  counted fuel b f e same =
      let f' = record f { wait_count = 0 } in
      ap
        (λ c. elim (parent_loop quiet fuel (if c then add_ref f' else f', e)) [
          | none ↦ none
          | some r ↦ after_parents quiet fuel c r
        ])
        same

  -- The second half of `start`.
  resumed_wakes :
      (fuel : ℕ) (f : Future) (e : E)
      → f.parent_list.the_size + 1 < fuel
      → fuel < 2 ^ 63
      → f.ref_count < 2 ^ 63
      → resumed quiet fuel (f, e) ≡ some ((set_free f, all_woken w (waiters f) e), returned)
  unfolding leave add_ref
  resumed_wakes fuel f e h small refs = elim (Bool-cases (f.ref_count == 0)) [
    | inl unused ↦ counted fuel false f e (ap not unused) ∙ second_half fuel false f e h small
    | inr used ↦
        counted fuel true f e (ap not used)
        ∙ second_half fuel true (add_ref f) e h small
        ∙ ap (λ g. some ((g, all_woken w (waiters f) e), returned))
            (release-add_ref (set_free f) refl (ground arith) refs)
  ]

  -- When a future is resumed, and the coroutines that it tells leave it alone, `resume` ends, with fuel for
  -- the coroutines in its list, fewer than 2 ^ 63 as its references are: the parent is told first, then those in the list from the last to the first, each once, and then the parent, if
  -- there is one, a second time; nobody waits any more, and the reference count is what it was.
  pub resume_tells :
      (fuel : ℕ) (f : Future) (e : E)
      → f.parent_list.the_size + 1 < fuel
      → fuel < 2 ^ 63
      → f.ref_count < 2 ^ 63
      → resume quiet fuel (f, e)
        ≡ some (
          (set_free f, all_woken w (waiters f ++ (if f.parent == 0 then [] else f.parent ∷ [])) e),
          returned,
        )
  unfolding resume
  resume_tells fuel f e h small refs = elim (Bool-cases (f.parent == 0)) [
    | inl alone ↦
        rw (resume, resumed_wakes fuel f e h small refs, alone)
          (ap (λ e'. some ((set_free f, e'), returned))
            (sym (all_woken-append (last_first f.parent_list.the_size f.parent_list.ptr) [] e)))
    | inr waited ↦
        rw (resume, resumed_wakes fuel f e h small refs, waited)
          (ap (λ e'. some ((set_free f, e'), returned))
            (sym (
              all_woken-append (f.parent ∷ last_first f.parent_list.the_size f.parent_list.ptr)
                (f.parent ∷ []) e)))
  ]

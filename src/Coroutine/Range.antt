-- ===== src/Coroutine/Range.antt =====
-- Starting several coroutines: `cort_wait_range` (and CO_AWAIT_ALL, the same loop over its
-- arguments), and `cort_wait_range_any` with the helper `cort_wait_n`.
-- `start c` is the entry function of the coroutine at `c`, code of the program.
use cort_proto.Prelude.{
  ℕ, suc, ◌+◌, ◌^◌, ◌<◌, ◌≡◌, refl, ◌∙◌, arith, Bool, true, false, ◌==◌, List, [], ◌∷◌, length,
  if◌then◌else◌, update_self,
}
use cort_proto.Prelude.Words.{add64}
use cort_proto.Coroutine.{World, Step, set_parent, set_wait_count}

module _ {E : Type 0} (start : ℕ → Step E) where
  -- CO_AWAIT_MULTI_IMPL_BINARY for each coroutine, with the count so far.
  wait_range_from : ℕ → List ℕ → ℕ → Step E
  wait_range_from this [] current_wait_count w = (w, current_wait_count)
  wait_range_from this (c ∷ cs) current_wait_count w =
      let (w', waited) = start c w in
      wait_range_from this cs
        (if waited == 0 then current_wait_count else add64 current_wait_count 1)
        (if waited == 0 then w' else set_parent waited this w')

  -- `cort_wait_range`: the count of those that wait.
  pub wait_range : ℕ → List ℕ → Step E
  wait_range this cs w =
      let (w', current_wait_count) = wait_range_from this cs 0 w in
      (set_wait_count this current_wait_count w', current_wait_count)

  -- The coroutines, of the list, that had not finished when they were started, in order.
  pub unfinished : ℕ → List ℕ → World E → List ℕ
  unfinished this [] w = []
  unfinished this (c ∷ cs) w =
      let (w', waited) = start c w in
      let rest = unfinished this cs (if waited == 0 then w' else set_parent waited this w') in
      if waited == 0 then rest else waited ∷ rest

  counted :
      (b : Bool) (n x : ℕ) (rest : List ℕ)
      → n + 1 < 2 ^ 64
      → (if b then n else add64 n 1) + length rest ≡ n + length (if b then rest else x ∷ rest)
  counted true n x rest h = refl
  counted false n x rest h = omega arith

  counted_bound :
      (b : Bool) (n m : ℕ) → n + suc m < 2 ^ 64 → (if b then n else add64 n 1) + m < 2 ^ 64
  counted_bound true n m h = omega arith
  counted_bound false n m h = omega arith

  wait_range_from-count :
      (this : ℕ) (cs : List ℕ) (n : ℕ) (w : World E)
      → n + length cs < 2 ^ 64
      → (wait_range_from this cs n w).1 ≡ n + length (unfinished this cs w)
  unfolding wait_range_from unfinished
  wait_range_from-count this [] n w h = omega arith
  wait_range_from-count this (c ∷ cs) n w h =
      let done = (start c w).1 == 0 in
      wait_range_from-count this cs (if done then n else add64 n 1)
        (if done then (start c w).0 else set_parent (start c w).1 this (start c w).0)
        (counted_bound done n (length cs) h)
      ∙ counted done n (start c w).1 _ (omega arith)

  -- `cort_wait_range` leaves in the waiting coroutine the number of those that did not finish at
  -- once, and returns it: it is to be resumed after that many have finished.
  pub wait_range_count :
      (this : ℕ) (cs : List ℕ) (w : World E)
      → length cs < 2 ^ 64
      → (((wait_range this cs w).0.cort this).cort_wait_count ≡ length (unfinished this cs w))
        × ((wait_range this cs w).1 ≡ length (unfinished this cs w))
  unfolding wait_range set_wait_count
  wait_range_count this cs w h =
      let counted = wait_range_from-count this cs 0 w (omega arith) in
      (
        rw (update_self (wait_range_from this cs 0 w).0.cort this _) (omega (arith, counted)),
        omega (arith, counted),
      )

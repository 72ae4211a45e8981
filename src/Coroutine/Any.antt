-- ===== src/Coroutine/Any.antt =====
-- Waiting for any `n` of several coroutines: the loop shared by CO_AWAIT_ANY_N and
-- `cort_wait_range_any`, and what each leaves in the helper coroutine `cort_wait_n`.
-- `start c` is the entry function of the coroutine at `c`; `helper` is the address that
-- `new cort_wait_n()` returned, and `resume_point` its first resume point. `delete` is not modelled:
-- a deleted helper keeps the contents that nobody reads any more.
use cort_proto.Prelude.{
  ℕ, ◌+◌, ◌-◌, ◌^◌, ◌<◌, ◌≤◌, ◌≡◌, ap₂, ◌∙◌, arith, suc, length, Bool-cases, inl, inr, true, false,
  ◌==◌, List, [], ◌∷◌, if◌then◌else◌,
}
use cort_proto.Prelude.Words.{add64, sub64}
use cort_proto.Coroutine.{
  World, Step, fresh, modify, set_parent, set_wait_count, set_last_resumer, set_callback_function,
  set_then,
}

-- How the loop over the coroutines ends.
pub data Outcome (E : Type 0) : Type 0 where
  -- `max_count` coroutines finished at once, the one named last; so many others wait.
  enough : World E → ℕ → ℕ → Outcome E
  -- The list ran out, with so many that wait and so many that finished.
  short : World E → ℕ → ℕ → Outcome E

module _ {E : Type 0} (start : ℕ → Step E) (helper resume_point : ℕ) where
  -- CO_AWAIT_ANY_IMPL for each coroutine in turn.
  unfoldable pub start_any : ℕ → List ℕ → ℕ → ℕ → World E → Outcome E
  start_any max_count [] waited finished w = short w waited finished
  start_any max_count (c ∷ cs) waited finished w =
      let (w', result) = start c w in
      elim (result == 0) [
        | false ↦ start_any max_count cs (add64 waited 1) finished (set_parent result helper w')
        | true ↦ elim (add64 finished 1 == max_count) [
          | true ↦ enough w' waited c
          | false ↦ start_any max_count cs waited (add64 finished 1) w'
        ]
      ]

  -- `cort_wait_n::init_resume_any`
  pub init_resume_any : ℕ → ℕ → World E → World E
  unfolding set_then set_wait_count
  init_resume_any total_wait_count first_wait_count w =
      set_wait_count helper first_wait_count
        (set_then helper (sub64 total_wait_count first_wait_count) w)

  -- `cort_wait_n::start` up to its first CO_YIELD.
  pub start_helper : World E → World E
  unfolding set_callback_function
  start_helper w = set_callback_function helper resume_point w

  -- What both do when enough coroutines have finished: they do not wait.
  go_on : ℕ → World E → ℕ → ℕ → World E × ℕ
  go_on this w waited last =
      let w' = set_last_resumer this last w in
      let helped = start_helper (set_wait_count helper waited w') in
      if waited == 0 then (w', 0) else (helped, 0)

  -- CO_AWAIT_ANY_N, up to setting the callback of the coroutine that waits.
  pub await_any_n : ℕ → ℕ → List ℕ → Step E
  unfolding go_on start_helper init_resume_any set_parent set_last_resumer
  await_any_n n this cs w = elim (start_any n cs 0 0 (modify helper (λ _. fresh) w)) [
    | enough w' waited last ↦ go_on this w' waited last
    | short w' waited finished ↦
        (set_parent helper this (start_helper (init_resume_any waited (sub64 n finished) w')), this)
  ]

  -- `cort_wait_range_any`
  pub wait_range_any : ℕ → ℕ → List ℕ → Step E
  unfolding go_on start_helper set_parent set_wait_count set_last_resumer
  wait_range_any max_count this [] w = (w, 0)
  wait_range_any max_count this (c ∷ cs) w =
      elim (start_any max_count (c ∷ cs) 0 0 (modify helper (λ _. fresh) w)) [
        | enough w' waited last ↦ go_on this w' waited last
        | short w' waited finished ↦
            (start_helper (set_wait_count helper waited (set_parent helper this w')), this)
      ]

  -- What starting the coroutines one after the other gives: 0 for one that finishes at once, and else the
  -- coroutine that is waited for, whose parent is then the helper.
  unfoldable pub results : List ℕ → World E → List ℕ
  results [] w = []
  results (c ∷ cs) w =
      let (w', result) = start c w in
      result ∷ results cs (if result == 0 then w' else set_parent result helper w')

  abbrev pub zeros : List ℕ → ℕ
  zeros [] = 0
  zeros (r ∷ rs) = (if r == 0 then 1 else 0) + zeros rs

  abbrev Counts : ℕ → ℕ → Outcome E → Type 0
  Counts total finished o = (w' : World E) × (o ≡ short w' (total - finished) finished)

  -- The loop counts the zeros, and the others, where the zeros are not enough.
  start_any-Counts :
      (n : ℕ) (cs : List ℕ) (waited finished : ℕ) (w : World E)
      → finished + zeros (results cs w) < n
      → waited + finished + length cs < 2 ^ 63
      → Counts
          (waited + finished + length cs)
          (finished + zeros (results cs w))
          (start_any n cs waited finished w)
  unfolding start_any results
  start_any-Counts n [] waited finished w fewer small =
      (w, ap₂ (short w) (omega arith) (omega arith))
  start_any-Counts n (c ∷ cs) waited finished w fewer small =
      by_result (start c w).1 (start_any-Counts n cs) fewer
    where
      w1 : World E
      w1 = (start c w).0

      by_result :
          (r : ℕ)
          → ((waited finished : ℕ) (w : World E)
              → finished + zeros (results cs w) < n
              → waited + finished + length cs < 2 ^ 63
              → Counts
                  (waited + finished + length cs)
                  (finished + zeros (results cs w))
                  (start_any n cs waited finished w))
          → let rest = zeros (results cs (if r == 0 then w1 else set_parent r helper w1)) in
            finished + ((if r == 0 then 1 else 0) + rest) < n
            → Counts
                (waited + finished + suc (length cs))
                (finished + ((if r == 0 then 1 else 0) + rest))
                (elim (r == 0) [
                  | false ↦ start_any n cs (add64 waited 1) finished (set_parent r helper w1)
                  | true ↦ elim (add64 finished 1 == n) [
                    | true ↦ enough w1 waited c
                    | false ↦ start_any n cs waited (add64 finished 1) w1
                  ]
                ])
      by_result r others = elim (Bool-cases (r == 0)) [
        | inr e ↦ rw e (λ less.
            let w2 = set_parent r helper w1 in
            let word : add64 waited 1 ≡ waited + 1 = omega arith in
            let (x, same) = others (waited + 1) finished w2 (omega arith) (omega arith) in
            rw word (x, same ∙ ap₂ (short x) (omega arith) (omega arith)))
        | inl e ↦ rw e (λ less.
            let word : add64 finished 1 ≡ finished + 1 = omega arith in
            let more : (add64 finished 1 == n) ≡ false = rw word (ground arith) in
            let (x, same) = others waited (finished + 1) w1 (omega arith) (omega arith) in
            rw (more, word) (x, same ∙ ap₂ (short x) (omega arith) (omega arith)))
      ]

  -- What CO_AWAIT_ANY_N is for: where of the coroutines that it starts, one after the other, fewer than
  -- `n` finish at once, and there are at least `n` of them, it waits, and its helper is to be resumed
  -- when as many more have finished as are missing to `n`, tells the coroutine that waits, and then waits
  -- for all the others, which are all but `n`.
  pub await_any_n_counts :
      (n this : ℕ) (cs : List ℕ) (w : World E)
      → let finished = zeros (results cs (modify helper (λ _. fresh) w)) in
        finished < n
        → n ≤ length cs
        → length cs < 2 ^ 63
        → let (w', result) = await_any_n n this cs w in
          (result ≡ this)
          × ((w'.cort helper).cort_wait_count ≡ n - finished)
          × ((w'.cort helper).data10 ≡ length cs - n)
          × ((w'.cort helper).cort_parent ≡ this)
  unfolding await_any_n set_then set_wait_count set_callback_function
  await_any_n_counts n this cs w fewer enough_left small =
      let (w', counts) =
        start_any-Counts n cs 0 0 (modify helper (λ _. fresh) w) (omega arith) (omega arith) in
      rw (counts, await_any_n) (ground arith)

  -- What `cort_wait_range_any` does instead: where fewer than `max_count` coroutines finish at
  -- once, the count that it gives the helper is that of all the others, and nothing of `max_count`
  -- is kept.
  pub wait_range_any_waits_for_all :
      (max_count this c : ℕ) (cs : List ℕ) (w w' : World E) (waited finished : ℕ)
      → start_any max_count (c ∷ cs) 0 0 (modify helper (λ _. fresh) w) ≡ short w' waited finished
      → let h = (wait_range_any max_count this (c ∷ cs) w).0.cort helper in
        (h.cort_wait_count ≡ waited) × (h.cort_parent ≡ this) × (h.data10 ≡ (w'.cort helper).data10)
  unfolding wait_range_any set_callback_function
  wait_range_any_waits_for_all max_count this c cs w w' waited finished e =
      rw (e, wait_range_any) (ground arith)

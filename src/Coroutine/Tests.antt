-- ===== src/Coroutine/Tests.antt =====
-- Coroutines that wait for each other, and the theorems about them at these.
use cort_proto.Prelude.{ℕ, ◌≡◌, refl, arith, ◌==◌, List, [], ◌∷◌, some, if◌then◌else◌}
use cort_proto.Coroutine.{Cort, World, Step, fresh, modify, invoke, resume, set_parent}
use cort_proto.Coroutine.Resume.{Ranked, resume_returns}
use cort_proto.Coroutine.Join.{Children, finish_all, last_of, join}
use cort_proto.Coroutine.Any.{short, start_any, await_any_n, results, await_any_n_counts}

-- Every callback finishes at once, and logs its coroutine.
abbrev log_call : ℕ → ℕ → Step (List ℕ)
log_call f c w = (record w { env = c ∷ w.env }, 0)

abbrev waiting_for : ℕ → Cort
waiting_for p = record fresh { cort_parent = p; data0 = 7 }

-- Coroutine 1 waits for 2 and 3, which have started.
abbrev family : World (List ℕ)
family = record {
  cort = λ c.
      if c == 1
      then record fresh { cort_wait_count = 2; data0 = 7 }
      else if c == 2
      then waiting_for 1
      else if c == 3
      then waiting_for 1
      else fresh;
  env = [];
}

family-Ranked : Ranked (λ c. c) family
family-Ranked c = ground arith

family-Children : Children log_call family 1 (3 ∷ 2 ∷ [])
unfolding invoke
family-Children = (
  refl,
  omega arith,
  (λ c w. (λ q n. refl, refl)),
  (omega arith, tt),
  (refl, omega arith, (λ c w. (λ q n. refl, refl)), tt, tt),
)

resume_returns_example :
    (w : World (List ℕ)) × (resume log_call 4 3 0 family ≡ some w) × Ranked (λ c. c) w
resume_returns_example =
    resume_returns (λ c. c) log_call (λ f c w r. r) 4 3 0 family family-Ranked (omega arith)

join_example :
    (w : World (List ℕ)) × (finish_all log_call 3 3 (2 ∷ []) family
      ≡ resume log_call 2 1 (last_of log_call 3 (2 ∷ [])) w)
    × (w.cort 1 ≡ record (family.cort 1) { cort_wait_count = 0 })
join_example = join log_call 2 1 3 (2 ∷ []) family (omega arith) family-Children refl (omega arith)

-- Coroutines 2 and 4 finish when they are started, the others do not.
abbrev start_some : ℕ → Step (List ℕ)
start_some c w = (w, if c == 2 then 0 else if c == 4 then 0 else c)

-- What is left in memory when the four coroutines have been started.
abbrev started : World (List ℕ)
started =
    modify 7 (λ c. record c { cort_parent = 9 })
      (modify 5 (λ c. record c { cort_parent = 9 })
        (modify 3 (λ c. record c { cort_parent = 9 }) (modify 9 (λ _. fresh) family)))

started_any :
    start_any start_some 9 6 2 (2 ∷ 3 ∷ 5 ∷ 7 ∷ []) 0 0 (modify 9 (λ _. fresh) family)
    ≡ short started 3 1
unfolding start_any set_parent
started_any = refl

-- One of the four finishes at once, so one of the other three is still to finish.
await_any_n_counts_example :
    let (w', result) = await_any_n start_some 9 6 2 1 (2 ∷ 3 ∷ 5 ∷ 7 ∷ []) family in
    (result ≡ 1)
    × ((w'.cort 9).cort_wait_count ≡ 1)
    × ((w'.cort 9).data10 ≡ 2)
    × ((w'.cort 9).cort_parent ≡ 1)
unfolding results
await_any_n_counts_example =
    await_any_n_counts start_some 9 6 2 1 (2 ∷ 3 ∷ 5 ∷ 7 ∷ []) family (omega arith) (omega arith)
      (omega arith)

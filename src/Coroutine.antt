-- ===== src/Coroutine.antt =====
-- cort_proto.h: the coroutine object, its protocol of waiting, and the scheduler `resume`.
-- Pointers, function pointers and the two unions are words, 0 for null, so `data0` holds whichever
-- of the callback, a count and the last resumer was written last, as in the source.
pub mod Resume
pub mod Join
pub mod Range
pub mod Any
mod Tests
use cort_proto.Prelude.{
  ℕ, zero, suc, ◌+◌, ◌-◌, Bool, true, false, ◌≡◌, List, [], ◌∷◌, Option, none, some, if◌then◌else◌,
  ◌==◌, update,
}
use cort_proto.Prelude.Words.{add64, sub64}

-- The data members of `cort_proto`, those of `cort_base` included.
pub record Cort : Type 0 where
  pub cort_parent : ℕ
  pub cort_wait_count : ℕ
  pub data0 : ℕ
  pub data10 : ℕ

-- The constructor `cort_proto()`.
abbrev pub fresh : Cort
fresh = record { cort_parent = 0; cort_wait_count = 0; data0 = 0; data10 = 0 }

-- The coroutines in memory, and all else that the callbacks read and write.
pub record World (E : Type 0) : Type 0 where
  pub cort : ℕ → Cort
  pub env : E

-- What a function that may wait returns: null if it has finished, else the coroutine to wait for.
abbrev pub Step : Type 0 → Type 0
Step E = World E → World E × ℕ

module _ {E : Type 0} where
  abbrev pub modify : ℕ → (Cort → Cort) → World E → World E
  modify p f w = record w { cort = update w.cort p (f (w.cort p)) }

  unfoldable pub set_parent : ℕ → ℕ → World E → World E
  set_parent p arg = modify p (λ c. record c { cort_parent = arg })

  unfoldable pub remove_parent : ℕ → World E → World E
  remove_parent p = modify p (λ c. record c { cort_parent = 0 })

  unfoldable pub set_callback_function : ℕ → ℕ → World E → World E
  set_callback_function p arg = modify p (λ c. record c { data0 = arg })

  unfoldable pub set_last_resumer : ℕ → ℕ → World E → World E
  set_last_resumer p arg = modify p (λ c. record c { data0 = arg })

  unfoldable pub set_wait_count : ℕ → ℕ → World E → World E
  set_wait_count p count = modify p (λ c. record c { cort_wait_count = count })

  unfoldable pub incr_wait_count : ℕ → ℕ → World E → World E
  incr_wait_count p count =
      modify p (λ c. record c { cort_wait_count = add64 c.cort_wait_count count })

  unfoldable pub decr_wait_count : ℕ → ℕ → World E → World E
  decr_wait_count p count =
      modify p (λ c. record c { cort_wait_count = sub64 c.cort_wait_count count })

  unfoldable pub set_then : ℕ → ℕ → World E → World E
  set_then p arg = modify p (λ c. record c { data10 = arg })

  -- `await` on a coroutine not started: `start` is its entry function.
  pub await : ℕ → Step E → Step E
  unfolding set_parent incr_wait_count
  await this start w =
      let (w', waited) = start w in
      if waited == 0 then (w', 0) else (incr_wait_count this 1 (set_parent waited this w'), this)

  -- `until` on a coroutine that has started.
  pub until : ℕ → ℕ → Step E
  unfolding set_parent incr_wait_count
  until this sub_cort w =
      if sub_cort == 0
      then (w, 0)
      else (incr_wait_count this 1 (set_parent sub_cort this w), sub_cort)

-- `call f p` runs the function at address `f` on the coroutine at `p`; it is the code of the
-- program's coroutines.
module _ {E : Type 0} (call : ℕ → ℕ → Step E) where
  pub on_finish : ℕ → Step E
  unfolding set_then
  on_finish this w =
      let func = (w.cort this).data10 in
      if func == 0 then (w, 0) else call func this (set_then this 0 w)

  -- The callback of one round of `resume`; a null callback counts as finished.
  unfoldable pub invoke : ℕ → ℕ → Step E
  invoke callback_function that w =
      if callback_function == 0 then (w, 0) else call callback_function that w

  -- The loop of `resume`, with fuel for its rounds: `none` if the fuel runs out.
  pub resume : ℕ → ℕ → ℕ → World E → Option (World E)
  resume zero that last_resumer w = none
  resume (suc fuel) that last_resumer w =
      let parent_save = (w.cort that).cort_parent in
      let callback_function = (w.cort that).data0 in
      let (w', result) = invoke callback_function that (set_last_resumer that last_resumer w) in
      let w'' = decr_wait_count parent_save 1 w' in
      elim (result == 0) [
        | false ↦ some w'
        | true ↦ elim (parent_save == 0) [
          | true ↦ some w'
          | false ↦ elim ((w''.cort parent_save).cort_wait_count == 0) [
            | true ↦ resume fuel parent_save that w''
            | false ↦ some w''
          ]
        ]
      ]

  pub try_resume : ℕ → ℕ → ℕ → World E → Option (World E)
  unfolding decr_wait_count
  try_resume fuel this resumer w =
      let w' = decr_wait_count this 1 w in
      if (w'.cort this).cort_wait_count == 0 then resume fuel this resumer w' else some w'

-- ===== src/Future.antt =====
-- cort_shared_future.h, `cort_shared_future`: a coroutine that more than one coroutine waits for.
-- A state is the future with all else that the program's coroutines read and write. `wake p` stands for
-- `p->try_resume(this)`, which may run any of them. The result of `delete this`, and of an exception,
-- is kept in `life`.
pub mod Waking
mod Tests
use cort_proto.Prelude.{
  ℕ, zero, suc, ◌+◌, ◌-◌, ◌%◌, ◌^◌, Bool, true, false, not, Option, none, some, if◌then◌else◌, ltb,
  ◌==◌,
}
use cort_proto.Prelude.Words.{add64, sub64}
use cort_proto.Util.PodPool.{PodPool, empty, push_back, pop_back}

pub data Life : Type 0 where
  alive : Life
  deleted : Life
  thrown : Life

pub record Future : Type 0 where
  pub parent : ℕ
  pub wait_count : ℕ
  pub parent_list : PodPool ℕ
  pub ref_count : ℕ
  pub life : Life

-- How a call of `start` ends: CO_RETURN, CO_YIELD, after which the second half runs, or CO_AGAIN, after
-- which the second half runs once more.
pub data Phase : Type 0 where
  returned : Phase
  yielded : Phase
  again : Phase

pub add_parent : ℕ → Future → Future
unfolding push_back
add_parent arg f = if arg == 0 then f else record f { parent_list = push_back f.parent_list arg }

pub remove_parent : Future → Future
remove_parent f = record f { parent = 0 }

unfoldable pub add_ref : Future → Future
add_ref f = record f { ref_count = add64 f.ref_count 1 }

unfoldable pub release : Future → Future
release f =
    if ltb 1 f.ref_count
    then record f { ref_count = sub64 f.ref_count 1 }
    else record f { life = if f.wait_count == 0 then deleted else thrown }

-- The first half of `start`.
pub start : Future → Future × Phase
unfolding add_parent remove_parent
start f =
    if f.wait_count == 0
    then (f, returned)
    else (if f.parent == 0 then f else remove_parent (add_parent f.parent f), yielded)

module _ {E : Type 0} (wake : ℕ → Future × E → Future × E) where
  -- The first loop, with fuel: `none` if it runs out. `true` if the future waits again.
  parent_loop : ℕ → Future × E → Option ((Future × E) × Bool)
  unfolding remove_parent
  parent_loop zero s = none
  parent_loop (suc fuel) (f, e) =
      let s' = wake f.parent (remove_parent f, e) in
      elim (f.parent == 0) [
        | true ↦ some ((f, e), false)
        | false ↦ elim (s'.0.wait_count == 0) [
          | true ↦ parent_loop fuel s'
          | false ↦ some (s', true)
        ]
      ]

  -- The second loop.
  list_loop : ℕ → Future × E → Option ((Future × E) × Bool)
  unfolding empty pop_back
  list_loop zero s = none
  list_loop (suc fuel) (f, e) =
      let (p, rest) = pop_back f.parent_list in
      let s' = wake p (record f { parent_list = rest }, e) in
      elim (empty f.parent_list) [
        | true ↦ some ((f, e), false)
        | false ↦ elim (s'.0.wait_count == 0) [ true ↦ list_loop fuel s' | false ↦ some (s', true) ]
      ]

  -- `if(is_using_ref_count){ this->release(); }`, and the end of the call.
  leave : Bool → Phase → Future × E → (Future × E) × Phase
  unfolding release
  leave is_using_ref_count phase (f, e) = ((if is_using_ref_count then release f else f, e), phase)

  -- What follows the first loop.
  after_parents : ℕ → Bool → (Future × E) × Bool → Option ((Future × E) × Phase)
  unfolding leave list_loop
  after_parents fuel is_using_ref_count (s, true) = some (leave is_using_ref_count again s)
  after_parents fuel is_using_ref_count (s, false) = elim (list_loop fuel s) [
    | none ↦ none
    | some (s', b) ↦ some (leave is_using_ref_count (if b then again else returned) s')
  ]

  -- The second half of `start`, when the future is set.
  unfoldable pub resumed : ℕ → Future × E → Option ((Future × E) × Phase)
  unfolding parent_loop after_parents add_ref
  resumed fuel (f, e) =
      let is_using_ref_count = not (f.ref_count == 0) in
      let f' = record f { wait_count = 0 } in
      elim (parent_loop fuel (if is_using_ref_count then add_ref f' else f', e)) [
        | none ↦ none
        | some r ↦ after_parents fuel is_using_ref_count r
      ]

  -- `cort_proto::resume` of a future that waits, which does not read its last resumer: it has saved the parent, and when the callback has
  -- returned 0, it counts the saved parent down, too, and resumes it if that was the last it waited for.
  unfoldable pub resume : ℕ → Future × E → Option ((Future × E) × Phase)
  unfolding resumed
  resume fuel (f, e) = elim (resumed fuel (f, e)) [
    | none ↦ none
    | some (s, returned) ↦ some (if f.parent == 0 then s else wake f.parent s, returned)
    | some (s, yielded) ↦ some (s, yielded)
    | some (s, again) ↦ some (s, again)
  ]

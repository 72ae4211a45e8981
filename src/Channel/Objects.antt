-- ===== src/Channel/Objects.antt =====
-- cort_channel.h, `cort_channel`, over a queue of plain elements. `try_push` is not in it: it calls a
-- `push_back` that the class does not have.
pub mod Delivery
use cort_proto.Prelude.{ℕ, Bool, true, false, Option, none, some, if◌then◌else◌, ◌||◌, ◌==◌}
use cort_proto.Util.PodQueue.{PodQueue, push, pop, front}
use cort_proto.Channel.{
  Channel, State, is_closed, wait_popable_check, test_try_get, after_push, after_pop,
}

abbrev pub size {ℓ} : {A : Type ℓ} → PodQueue A → ℕ
size q = q.the_size

module _ {A : Type 0} where
  pub get : Channel (PodQueue A) → Option A
  get ch = if (size ch.objects == 0) || is_closed ch then none else some (front ch.objects)

  pub try_get : Channel (PodQueue A) → Channel (PodQueue A) × Option A
  unfolding get
  try_get ch =
      let (ch', waits) = wait_popable_check size ch in
      if test_try_get size ch then (ch', get ch') else (ch, none)

  module _ {E : Type 0} (wake : ℕ → State (PodQueue A) E → State (PodQueue A) E) where
    pub push_object : A → State (PodQueue A) E → State (PodQueue A) E × Bool
    push_object arg (ch, env) =
        if is_closed ch
        then ((ch, env), false)
        else after_push size wake 1 (record ch { objects = push ch.objects arg }, env)

    -- The state, and the number of objects before.
    pub pop_object : State (PodQueue A) E → State (PodQueue A) E × ℕ
    pop_object (ch, env) =
        if size ch.objects == 0
        then ((ch, env), 0)
        else (after_pop size wake (record ch { objects = pop ch.objects }, env), size ch.objects)

-- ===== src/Channel.antt =====
-- cort_channel.h, `cort_channel_proto`: coroutines that wait to receive from a channel, and those that
-- wait because it is full.
-- `O` holds the objects, of which `size` is the subclass's; a state is the channel with all else that
-- the program's coroutines read and write. `wake p` stands for `p->try_resume(this)`, which may run
-- any of them.
pub mod Objects
pub mod EventCount
pub mod Pinned
pub mod Serving
mod Tests
use cort_proto.Prelude.{
  ℕ, zero, suc, ◌+◌, ◌-◌, ◌%◌, ◌^◌, Bool, true, false, not, Option, none, some, if◌then◌else◌, ltb,
  leb, ◌==◌, ◌||◌,
}
use cort_proto.Prelude.Words.{add64, sub64}
use cort_proto.Util.PodQueue.{PodQueue, empty, front, push, pop}

pub record Channel (O : Type 0) : Type 0 where
  pub recvers : PodQueue ℕ
  pub senders : PodQueue ℕ
  -- the parent of `simulate_cort_proto_for_sender`
  pub sender_parent : ℕ
  pub buffer_size : ℕ
  pub cort_parent : ℕ
  pub pinned_object_count : ℕ
  pub objects : O

abbrev pub closed_buffer : ℕ
closed_buffer = 2 ^ 64 - 2

abbrev pub State : Type 0 → Type 0 → Type 0
State O E = Channel O × E

module _ {O : Type 0} where
  unfoldable pub is_closed : Channel O → Bool
  is_closed ch = ch.buffer_size == closed_buffer

  -- A parent of the channel joins those that wait to receive.
  unfoldable pub park_recver : Channel O → Channel O
  park_recver ch =
      if ch.cort_parent == 0
      then ch
      else record ch { cort_parent = 0; recvers = push ch.recvers ch.cort_parent }

  unfoldable pub park_sender : Channel O → Channel O
  park_sender ch =
      if ch.sender_parent == 0
      then ch
      else record ch { sender_parent = 0; senders = push ch.senders ch.sender_parent }

module _ {O : Type 0} (size : O → ℕ) where
  -- Whether the caller is to wait for the channel.
  unfoldable pub wait_popable_check : Channel O → Channel O × Bool
  unfolding is_closed park_recver
  wait_popable_check ch =
      if is_closed ch
      then (ch, false)
      else (if ltb ch.pinned_object_count (size ch.objects)
          then (record ch { pinned_object_count = add64 ch.pinned_object_count 1 }, false)
          else (park_recver ch, true))

  pub test_try_push : ℕ → Channel O → Bool
  unfolding is_closed
  test_try_push delta_count ch =
      if is_closed ch then false else ltb (add64 (size ch.objects) delta_count) ch.buffer_size

  pub test_try_get : Channel O → Bool
  unfolding is_closed
  test_try_get ch = if is_closed ch then false else ltb ch.pinned_object_count (size ch.objects)

module _ {O E : Type 0} (size : O → ℕ) (wake : ℕ → State O E → State O E) where
  -- The loop of `after_push`.
  pub wake_recvers : ℕ → State O E → State O E
  wake_recvers zero s = s
  wake_recvers (suc left) (ch, env) = elim (empty ch.recvers) [
    | true ↦ (ch, env)
    | false ↦ wake_recvers left (
        wake (front ch.recvers) (
          record ch {
            recvers = pop ch.recvers;
            pinned_object_count = add64 ch.pinned_object_count 1;
          },
          env,
        ))
  ]

  -- Whether the caller is to wait for `get_last_sender()`.
  pub after_push : ℕ → State O E → State O E × Bool
  unfolding wake_recvers park_recver park_sender
  after_push product_count_delta (ch, env) =
      let (ch', env') = wake_recvers product_count_delta (park_recver ch, env) in
      if leb (size ch'.objects) ch'.buffer_size
      then ((ch', env'), false)
      else ((park_sender ch', env'), true)

  pub after_pop : State O E → State O E
  after_pop (ch, env) =
      let ch' = record ch { pinned_object_count = sub64 ch.pinned_object_count 1 } in
      if ltb (size ch.objects) ch.buffer_size
      then (ch', env)
      else (if ch.sender_parent == 0
          then (if empty ch.senders
              then (ch', env)
              else wake (front ch.senders) (record ch' { senders = pop ch.senders }, env))
          else wake ch.sender_parent (record ch' { sender_parent = 0 }, env))

  -- The loop of `set_buffer_size`: at most so many senders.
  wake_senders : ℕ → State O E → State O E
  wake_senders zero s = s
  wake_senders (suc left) (ch, env) = elim (empty ch.senders) [
    | true ↦ (ch, env)
    | false ↦
        wake_senders left (wake (front ch.senders) (record ch { senders = pop ch.senders }, env))
  ]

  pub set_buffer_size : ℕ → State O E → State O E
  unfolding wake_senders
  set_buffer_size buffer_size (ch, env) =
      let old_count = ch.buffer_size in
      let ch' = record ch { buffer_size = buffer_size } in
      if ltb old_count buffer_size
      then (if ch.sender_parent == 0
          then wake_senders (buffer_size - old_count) (ch', env)
          else wake_senders (buffer_size - 1 - old_count)
              (wake ch.sender_parent (record ch' { sender_parent = 0 }, env)))
      else (ch', env)

  -- The loops of `awake_all`, on fuel, with `need_recheck`: `none` if the fuel runs out.
  awake_senders : ℕ → Bool → State O E → Option (State O E × Bool)
  awake_senders zero need_recheck s = none
  awake_senders (suc fuel) need_recheck (ch, env) = elim (empty ch.senders) [
    | true ↦ some ((ch, env), need_recheck)
    | false ↦
        awake_senders fuel true
          (wake (front ch.senders) (record ch { senders = pop ch.senders }, env))
  ]

  -- A receiver that is woken has an object pinned for it, if one is left.
  pin : Channel O → Channel O
  pin ch =
      if ltb ch.pinned_object_count (size ch.objects)
      then record ch { pinned_object_count = add64 ch.pinned_object_count 1 }
      else ch

  awake_recvers : ℕ → Bool → State O E → Option (State O E × Bool)
  unfolding pin
  awake_recvers zero need_recheck s = none
  awake_recvers (suc fuel) need_recheck (ch, env) = elim (empty ch.recvers) [
    | true ↦ some ((ch, env), need_recheck)
    | false ↦
        awake_recvers fuel true
          (wake (front ch.recvers) (pin (record ch { recvers = pop ch.recvers }), env))
  ]

  pub awake_all : ℕ → State O E → Option (State O E)
  unfolding awake_senders awake_recvers park_sender park_recver
  awake_all zero s = none
  awake_all (suc fuel) (ch, env) =
      elim (awake_senders fuel (not (ch.sender_parent == 0)) (park_sender ch, env)) [
        | none ↦ none
        | some ((ch', env'), again) ↦
            elim (awake_recvers fuel (again || not (ch'.cort_parent == 0))
              (park_recver ch', env')) [
                | none ↦ none
                | some (s, true) ↦ awake_all fuel s
                | some (s, false) ↦ some s
              ]
      ]

  pub close : ℕ → State O E → Option (State O E)
  unfolding awake_all
  close fuel (ch, env) = awake_all fuel (record ch { buffer_size = closed_buffer }, env)

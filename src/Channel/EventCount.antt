-- ===== src/Channel/EventCount.antt =====
-- cort_channel.h, `cort_event_channel`: the objects are only counted.
use cort_proto.Prelude.{ℕ, Bool, true, false, if◌then◌else◌, ◌==◌}
use cort_proto.Prelude.Words.{add64, sub64}
use cort_proto.Channel.{
  Channel, State, is_closed, wait_popable_check, test_try_get, test_try_push, after_push, after_pop,
}

abbrev pub size : ℕ → ℕ
size event_count = event_count

pub get : Channel ℕ → ℕ
get ch = if is_closed ch then 0 else ch.objects

pub try_get : Channel ℕ → Channel ℕ × ℕ
unfolding get
try_get ch =
    let (ch', waits) = wait_popable_check size ch in
    if test_try_get size ch then (ch', get ch') else (ch, 0)

module _ {E : Type 0} (wake : ℕ → State ℕ E → State ℕ E) where
  pub push_events : ℕ → State ℕ E → State ℕ E × Bool
  push_events count_delta (ch, env) =
      after_push size wake count_delta (record ch { objects = add64 ch.objects count_delta }, env)

  pub try_push : ℕ → State ℕ E → State ℕ E × Bool
  unfolding push_events
  try_push count_delta (ch, env) =
      if test_try_push size count_delta ch
      then ((push_events count_delta (ch, env)).0, true)
      else ((ch, env), false)

  pub pop_event : State ℕ E → State ℕ E × ℕ
  pop_event (ch, env) =
      if ch.objects == 0
      then ((ch, env), 0)
      else (after_pop size wake (record ch { objects = sub64 ch.objects 1 }, env), ch.objects)

-- ===== src/Time/Tests.antt =====
-- Timers that are added and removed, and the theorems about them at these.
use cort_proto.Prelude.{
  true, false, ℕ, ◌+◌, ◌≤◌, ◌≡◌, ◌≢◌, ◌↔◌, refl, arith, true, false, List, [], ◌∷◌, some, none,
  if◌then◌else◌, ◌==◌,
}
use cort_proto.Time.Timer.{
  Timer, Entry, create, key, is_empty, add_timer, remove_timer, get_next_timer, up_update_heap,
  get_timeout_list, add_time_out, reserve, up_loop, settle,
}
use cort_proto.Time.Waiter.{Waiter, Clock, expire, is_timeout, is_stopped}
use cort_proto.Time.Waiter.Timeouts.{HasLeft, expire_lem}
use cort_proto.Time.Timer.Invariant.{Inv, create-Inv, add_timer-Inv}
use cort_proto.Time.Timer.Next.{remove_timer-Inv, get_next_timer-none}
use cort_proto.Time.Timer.Adding.{IsOrdered, Call, add_all, add_all_next}

abbrev idle : Timer
idle = create (λ _. 0) 16

idle-Inv : Inv idle
idle-Inv = create-Inv (λ _. 0) 16 (omega arith)

-- A coroutine at address 40 that waits for 20 ms, from time 1000.
abbrev busy : Timer
busy = (add_timer 40 20 1000 idle).1

idle-IsOrdered : IsOrdered idle
unfolding create
idle-IsOrdered i lt = absurd (omega arith)

busy-Inv : Inv busy
busy-Inv = add_timer-Inv 40 20 1000 idle-Inv (unfold create in omega arith)

add_timer-Inv_example : Inv (add_timer 40 20 1000 idle).1
add_timer-Inv_example = add_timer-Inv 40 20 1000 idle-Inv (unfold create in omega arith)

remove_timer-Inv_example : Inv (remove_timer (add_timer 40 20 1000 idle).0 busy)
remove_timer-Inv_example = remove_timer-Inv (add_timer 40 20 1000 idle).0 busy-Inv

get_next_timer-none_example :
    (get_next_timer busy ≡ none) ↔ ((id : ℕ) → is_empty (busy.entries id) ≡ true)
get_next_timer-none_example = get_next_timer-none busy-Inv

-- Timers of 20 ms at time 1000 and of 5 ms at time 1010: the second is due first.
abbrev calls : List Call
calls =
    record { waiter = 40; timeout = 20; now = 1000 }
    ∷ record { waiter = 41; timeout = 5; now = 1010 }
    ∷ []

abbrev second : Entry
second = record { node = 2; waiter = 41; end_time = 1015; host_list = 5 }

second_next : get_next_timer (add_all calls idle) ≡ some second
unfolding get_next_timer add_all add_timer get_timeout_list add_time_out reserve up_update_heap
    up_loop settle create
second_next = refl

first_held : is_empty ((add_all calls idle).entries 20) ≡ false
unfolding get_next_timer add_all add_timer get_timeout_list add_time_out reserve up_update_heap
    up_loop settle create
first_held = refl

add_all_next_example : 1015 ≤ key (add_all calls idle) 20
add_all_next_example = add_all_next (λ _. 0) 16 calls 20 (omega arith) second_next first_held

-- Five lists in a heap; the list at place 4 is due at 14, the one at place 1 at 30.
abbrev crossed : Timer
crossed = record {
  timer_heap = λ i. i;
  timer_size = 5;
  timer_capacity = 8;
  entries = λ id.
      record { node = id; waiter = 0; end_time = if id == 1 then 30 else id + 10; host_list = id }
      ∷ [];
  timeout = λ id. id;
  heap_pos = λ id. id;
  next_node = 9;
}

-- A coroutine with no timeout, at time 1000.
abbrev waiter : Waiter
waiter = record { that = none; ref_data = 0; start_time_ms = 0; time_cost_ms = 0; ref_count = 1 }

abbrev clock : Clock
clock = record { eptimer = none; current_ms = 1000; cells = λ _. 0 }

expire_lem_example :
    let node = (add_timer 40 20 1000 idle).0 in
    let event : ℕ = 8 in
    let s = expire (
      record waiter { that = some node; ref_data = event },
      record clock { eptimer = some busy },
    ) in
    HasLeft node busy s.1.eptimer
    × (s.0.that ≡ none)
    × (event ≢ 0 → s.1.cells event ≡ 0)
    × (is_timeout s.0 ≡ true)
    × (is_stopped s.0 ≡ false)
expire_lem_example =
    expire_lem (add_timer 40 20 1000 idle).0 busy (record waiter { ref_data = 8 }) clock busy-Inv

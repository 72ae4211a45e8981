-- ===== src/Time/Waiter.antt =====
-- time/cort_timeout_waiter.h and .cpp, `cort_timeout_waiter`: a coroutine with a timeout. The members
-- of its base class are not in it.
pub mod Timeouts
use Prim.Native.Nat.{bit_and}
use cort_proto.Prelude.{
  ℕ, ◌-◌, ◌%◌, ◌^◌, ◌+◌, Bool, true, false, not, Option, none, some, if◌then◌else◌, leb, ◌==◌,
  update,
}
use cort_proto.Prelude.Words.{add32, sub32, sub64, npos}
use cort_proto.Time.Timer.{Timer, Entry, add_timer, remove_timer}

pub record Waiter : Type 0 where
  -- the waiter's node in the timer
  pub that : Option Entry
  -- the address of the event's pointer to this waiter, while events are handled
  pub ref_data : ℕ
  pub start_time_ms : ℕ
  pub time_cost_ms : ℕ
  pub ref_count : ℕ

-- What the waiters of a thread share: the timer, if it exists, the time, and the events' pointers.
pub record Clock : Type 0 where
  pub eptimer : Option Timer
  pub current_ms : ℕ
  pub cells : ℕ → ℕ

abbrev pub timeout_masker : ℕ
timeout_masker = 2 ^ 31

abbrev pub stopped_masker : ℕ
stopped_masker = 2 ^ 30

pub create : Waiter
create = record { that = none; ref_data = 0; start_time_ms = 0; time_cost_ms = 0; ref_count = 0 }

pub is_timeout : Waiter → Bool
is_timeout w = not (bit_and w.time_cost_ms timeout_masker == 0)

pub is_stopped : Waiter → Bool
is_stopped w = not (bit_and w.time_cost_ms stopped_masker == 0)

pub add_ref : Waiter → Waiter
add_ref w = record w { ref_count = add32 w.ref_count 1 }

-- `none` where the waiter is deleted, and what the function returns.
pub release : Waiter → Option Waiter × ℕ
release w =
    let left = sub32 w.ref_count 1 in
    if leb w.ref_count 1 then (none, 0) else (some (record w { ref_count = left }), left)

pub is_set_timeout : Waiter → Bool
is_set_timeout w = elim w.that [ none ↦ false | some e ↦ true ]

-- `no_time_out` is the largest `uint64_t`.
pub get_timeout_time : Waiter → ℕ
get_timeout_time w = elim w.that [ none ↦ npos | some e ↦ e.end_time ]

pub get_time_past : Waiter → Clock → ℕ
get_time_past w c = sub64 c.current_ms w.start_time_ms % 2 ^ 32

abbrev pub State : Type 0
State = Waiter × Clock

pub clear_timeout : State → State
clear_timeout (w, c) = elim w.that [
  | none ↦ (w, c)
  | some e ↦ elim c.eptimer [
    | none ↦ (w, c)
    | some t ↦ (record w { that = none }, record c { eptimer = some (remove_timer e t) })
  ]
]

-- The timer gets its node: the end of `set_timeout`.
start_timer : ℕ → ℕ → State → State
start_timer this timeout_ms (w, c) = elim c.eptimer [
  | none ↦ (w, c)
  | some t ↦
      let (e, t') = add_timer this timeout_ms c.current_ms t in
      (record w { that = some e }, record c { eptimer = some t' })
]

-- `this` is the waiter's address.
pub set_timeout : ℕ → ℕ → State → State
unfolding clear_timeout start_timer
set_timeout this timeout_ms s =
    let (w, c) = clear_timeout s in
    start_timer this timeout_ms (record w { time_cost_ms = 0; start_time_ms = c.current_ms }, c)

drop_ref : State → State
drop_ref (w, c) =
    if w.ref_data == 0
    then (w, c)
    else (record w { ref_data = 0 }, record c { cells = update c.cells w.ref_data 0 })

-- `resume_on_timeout` up to its call of `resume`.
pub expire : State → State
unfolding clear_timeout drop_ref
expire s = let (w, c) = clear_timeout s in drop_ref (record w { time_cost_ms = timeout_masker }, c)

-- `resume_on_stop` up to its call of `resume`.
pub stop : State → State
unfolding clear_timeout drop_ref
stop (w, c) = drop_ref (clear_timeout (record w { time_cost_ms = stopped_masker }, c))

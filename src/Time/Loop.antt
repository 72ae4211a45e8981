-- ===== src/Time/Loop.antt =====
-- time/cort_timeout_waiter.cpp: the event loop of a thread, `cort_timer_loop`, with `cort_timer_poll` and
-- the functions that prepare and destroy it. Times are 64-bit words, in milliseconds; an `int` is a
-- 32-bit word.
pub mod Deadlines
mod Tests
use cort_proto.Prelude.{
  ℕ, zero, suc, ◌+◌, ◌-◌, ◌*◌, ◌%◌, ◌^◌, Bool, true, false, not, ◌&&◌, ◌||◌, List, [], ◌∷◌, map,
  Option, none, some, if◌then◌else◌, ltb, leb, ◌==◌, update,
}
use cort_proto.Prelude.Words.{sub64}
use cort_proto.Time.Timer.{Timer, Entry, get_next_timer}
use cort_proto.Time.FdWaiter.{World, mark, handle, minus_one, is_negative}

-- What the loop knows besides the waiters: `eptimer`, `none` where it is null, `epfd` and `current_ms`.
pub record Host (K : Type 0) : Type 0 where
  pub kernel : K
  pub eptimer : Option Timer
  pub epfd : ℕ
  pub current_ms : ℕ

-- The system calls: the clock; `epoll_create`; `close`; and `epoll_wait epfd wait_time`, with the events
-- that it writes, each with the address of its pointer, the pointer and the flags, `none` where it fails.
pub record Calls (K : Type 0) : Type 0 where
  pub now_ms : K → K × ℕ
  pub epoll_create : K → K × ℕ
  pub close : ℕ → K → K
  pub epoll_wait : ℕ → ℕ → K → K × Option (List (ℕ × ℕ × ℕ))

-- What the program does when a waiter is resumed, by an event or by its timeout.
pub record Program (K : Type 0) : Type 0 where
  pub resume : ℕ → World (Host K) → World (Host K)
  pub resume_on_timeout : ℕ → World (Host K) → World (Host K)

-- The pointers that the kernel writes into the events.
unfoldable pub deliver : List (ℕ × ℕ × ℕ) → (ℕ → ℕ) → ℕ → ℕ
deliver [] cells = cells
deliver ((cell, p, flags) ∷ events) cells = deliver events (update cells cell p)

-- An event's address and flags.
abbrev pub without_pointer : ℕ × ℕ × ℕ → ℕ × ℕ
without_pointer (cell, p, flags) = (cell, flags)

module _ {K : Type 0} where
  abbrev pub host : World (Host K) → Host K
  host w = w.polling.kernel

  abbrev pub set_host : Host K → World (Host K) → World (Host K)
  set_host g w = record w { polling = record w.polling { kernel = g } }

  abbrev pub has_timer : World (Host K) → Bool
  has_timer w = elim (host w).eptimer [ none ↦ false | some t ↦ true ]

  -- `eptimer->get_next_timer()`
  abbrev pub next_timer : World (Host K) → Option Entry
  next_timer w = elim (host w).eptimer [ none ↦ none | some t ↦ get_next_timer t ]

module _ {K : Type 0} (sys : Calls K) where
  unfoldable pub cort_timer_now_ms_refresh : World (Host K) → World (Host K)
  cort_timer_now_ms_refresh w =
      let (k, now) = sys.now_ms (host w).kernel in
      set_host (record (host w) { kernel = k; current_ms = now }) w

  -- `timer` is the new one. The signals that it ignores are left out.
  unfoldable pub cort_timer_init : Timer → World (Host K) → World (Host K) × ℕ
  unfolding cort_timer_now_ms_refresh
  cort_timer_init timer w =
      let g = host w in
      let t : Option Timer = elim g.eptimer [ none ↦ some timer | some t ↦ some t ] in
      let (k, fd) = sys.epoll_create g.kernel in
      let opened = set_host (record g { kernel = k; eptimer = t; epfd = fd }) w in
      if (g.epfd == 0) || is_negative g.epfd
      then (if (fd == 0) || is_negative fd
          then (opened, minus_one)
          else (cort_timer_now_ms_refresh opened, 0))
      else (cort_timer_now_ms_refresh (set_host (record g { eptimer = t }) w), 0)

  -- Its first half, which `cort_timer_destroy` repeats.
  unfoldable pub cort_timer_destroy_later : World (Host K) → World (Host K)
  cort_timer_destroy_later w =
      let g = host w in
      let closed = set_host (record g { kernel = sys.close g.epfd g.kernel; epfd = 0 }) w in
      if (g.epfd == 0) || is_negative g.epfd || not (w.polling.epollfd_total_count == 0)
      then w
      else closed

  -- `stop_timers` is the destructor of `cort_timer`, which stops the waiters that have a timeout.
  unfoldable pub cort_timer_destroy :
      (World (Host K) → World (Host K)) → World (Host K) → World (Host K)
  unfolding cort_timer_destroy_later
  cort_timer_destroy stop_timers w =
      let w' = stop_timers (cort_timer_destroy_later w) in
      set_host (record (host w') { eptimer = none }) w'

  module _ (program : Program K) where
    -- The test after each event.
    abbrev pub stops : ℕ → World (Host K) → Bool
    stops until_ms w =
        (not (has_timer w) && not (until_ms == 0)) || (not (has_timer w) && ((host w).epfd == 0))

    -- The events that `epoll_wait` has given.
    unfoldable pub handle_events : ℕ → List (ℕ × ℕ × ℕ) → World (Host K) → World (Host K)
    unfolding deliver mark handle
    handle_events until_ms events w =
        let cells = deliver events w.polling.cells in
        let marks = map without_pointer events in
        (handle program.resume (stops until_ms) marks
          (mark marks (record w { polling = record w.polling { cells = cells } }))).0

    -- The call of `epoll_wait`, and what follows it.
    unfoldable pub wait_and_handle : ℕ → ℕ → World (Host K) → World (Host K) × ℕ
    unfolding handle_events cort_timer_now_ms_refresh
    wait_and_handle until_ms wait_time w =
        let g = host w in
        let (k, nfds) = sys.epoll_wait g.epfd wait_time g.kernel in
        let w' = cort_timer_now_ms_refresh (set_host (record g { kernel = k }) w) in
        elim nfds [
          | none ↦ (w', 0)
          | some [] ↦ (w', minus_one)
          | some (e ∷ events) ↦ (handle_events until_ms (e ∷ events) w', 0)
        ]

    -- The world, and what the function returns. `continue` ends its loop too.
    unfoldable pub cort_timer_poll : ℕ → World (Host K) → World (Host K) × ℕ
    unfolding wait_and_handle cort_timer_now_ms_refresh
    cort_timer_poll until_ms w =
        let w' = cort_timer_now_ms_refresh w in
        let wait_time = sub64 until_ms (host w').current_ms % 2 ^ 32 in
        if until_ms == 0
        then wait_and_handle until_ms 1000 w
        else (if leb until_ms (host w').current_ms
            then (w', minus_one)
            else (if has_timer w' then wait_and_handle until_ms wait_time w' else (w', 0)))

    -- One turn of the loop over the timers, for the next of them.
    unfoldable pub timer_turn : Entry → World (Host K) → World (Host K)
    unfolding cort_timer_poll
    timer_turn ptimer w =
        let (w', result) = cort_timer_poll ptimer.end_time w in
        if has_timer w' && is_negative result
        then program.resume_on_timeout ptimer.waiter w'
        else w'

    -- `cort_timer_loop`, with fuel for its turns: `none` if it runs out. Whatever a turn does, the next
    -- one is for the next timer if there is one, and else for the watched files if there are any.
    unfoldable pub cort_timer_loop : ℕ → World (Host K) → Option (World (Host K))
    unfolding timer_turn cort_timer_poll
    cort_timer_loop zero w = none
    cort_timer_loop (suc fuel) w = elim (next_timer w) [
      | some ptimer ↦ cort_timer_loop fuel (timer_turn ptimer w)
      | none ↦ elim (w.polling.epollfd_total_count == 0) [
        | true ↦ some w
        | false ↦ cort_timer_loop fuel (cort_timer_poll 0 w).0
      ]
    ]

-- ===== src/Time/FdWaiter.antt =====
-- time/cort_timeout_waiter.h and .cpp, `cort_fd_waiter`: watching a file with epoll, and the number of
-- watched files that keeps the event loop running. The members of its base class are not in it but
-- for `ref_data`. An `int` is a 32-bit word, negative from 2 ^ 31 on.
pub mod Balance
pub mod Events
mod Tests
use cort_proto.Prelude.{
  ℕ, ◌^◌, ◌-◌, Bool, ◌&&◌, ◌||◌, if◌then◌else◌, leb, ◌==◌, update, true, false, List, [], ◌∷◌,
}
use cort_proto.Prelude.Words.{add32, sub32}

pub record FdWaiter : Type 0 where
  -- the address of the event's pointer to this waiter, while events are handled
  pub ref_data : ℕ
  pub cort_fd : ℕ
  pub poll_request : ℕ
  pub poll_result : ℕ

-- What the waiters of a thread share: the kernel, the count, and the pointers in the events.
pub record Polling (K : Type 0) : Type 0 where
  pub kernel : K
  pub epollfd_total_count : ℕ
  pub cells : ℕ → ℕ

-- EPOLL_CTL_ADD, EPOLL_CTL_MOD and EPOLL_CTL_DEL
pub data Ctl : Type 0 where
  ctl_add : Ctl
  ctl_mod : Ctl
  ctl_del : Ctl

abbrev pub is_negative : ℕ → Bool
is_negative n = leb (2 ^ 31) n

abbrev pub minus_one : ℕ
minus_one = 2 ^ 32 - 1

-- The constructor; that of the base class sets `ref_data`.
pub create : FdWaiter
create = record { ref_data = 0; cort_fd = minus_one; poll_request = 0; poll_result = 0 }

unfoldable pub set_cort_fd : ℕ → FdWaiter → FdWaiter
set_cort_fd fd w = record w { cort_fd = fd }

-- `resume_on_poll` up to its call of `resume`.
unfoldable pub arrive : ℕ → FdWaiter → FdWaiter
arrive poll_event w = record w { poll_result = poll_event; ref_data = 0 }

-- The waiter after `close_cort_fd`.
pub closed : FdWaiter → FdWaiter
closed w = record w { cort_fd = minus_one; poll_request = 0; poll_result = 0 }

-- A waiter, and what it shares.
abbrev pub State : Type 0 → Type 0
State K = FdWaiter × Polling K

module _ {K : Type 0} where
  -- `if(this->ref_data != 0){ *this->ref_data = 0; this->ref_data = 0; }`
  pub drop_ref : State K → State K
  drop_ref (w, l) =
      if w.ref_data == 0
      then (w, l)
      else (record w { ref_data = 0 }, record l { cells = update l.cells w.ref_data 0 })

  -- `close` is the system call.
  unfoldable pub close_cort_fd : (ℕ → K → K) → State K → State K
  unfolding drop_ref closed
  close_cort_fd close (w, l) =
      let (w', l') = drop_ref (w, l) in
      if is_negative w.cort_fd then (closed w, l) else (
        closed w',
        record l' {
          kernel = close w.cort_fd l.kernel;
          epollfd_total_count =
              if w.poll_request == 0 then l.epollfd_total_count else sub32 l.epollfd_total_count 1;
        },
      )

-- `epoll_ctl op fd ptr events` is the system call on the event queue of the thread.
module _ {K : Type 0} (epoll_ctl : Ctl → ℕ → ℕ → ℕ → K → K × ℕ) where
  -- The state, and what the function returns; `this` is the waiter's address.
  unfoldable pub set_poll_request : ℕ → ℕ → State K → State K × ℕ
  set_poll_request this arg_poll_request (w, l) =
      let op = if w.poll_request == 0 then ctl_add else ctl_mod in
      let (kernel', result) = epoll_ctl op w.cort_fd this arg_poll_request l.kernel in
      if (w.poll_request == arg_poll_request) || is_negative w.cort_fd
      then ((record w { poll_result = 0 }, l), 0)
      else (
        (
          record w { poll_result = 0; poll_request = arg_poll_request },
          record l {
            kernel = kernel';
            epollfd_total_count =
                if (w.poll_request == 0) && (result == 0)
                then add32 l.epollfd_total_count 1
                else l.epollfd_total_count;
          },
        ),
        result,
      )

  -- It returns 0 in every case.
  pub remove_poll_request : ℕ → State K → State K
  unfolding drop_ref
  remove_poll_request this (w, l) =
      let (kernel', result) = epoll_ctl ctl_del w.cort_fd this 0 l.kernel in
      if is_negative w.cort_fd || (w.poll_request == 0)
      then (w, l)
      else (if result == 0
          then drop_ref (
            record w { poll_request = 0 },
            record l { kernel = kernel'; epollfd_total_count = sub32 l.epollfd_total_count 1 },
          )
          else (w, record l { kernel = kernel' }))

  unfoldable pub remove_cort_fd : ℕ → State K → State K
  unfolding remove_poll_request set_cort_fd
  remove_cort_fd this s = let (w, l) = remove_poll_request this s in (set_cort_fd minus_one w, l)

-- The waiters of a thread, by address, and what they share.
pub record World (K : Type 0) : Type 0 where
  pub waiters : ℕ → FdWaiter
  pub polling : Polling K

module _ {K : Type 0} where
  -- A member function called on the waiter at `p`.
  unfoldable pub on : (State K → State K) → ℕ → World K → World K
  on op p w =
      let (v, l) = op (w.waiters p, w.polling) in
      record { waiters = update w.waiters p v; polling = l }

  -- The first loop over the events in `cort_timer_poll`; an event is the address of its pointer, and
  -- its flags.
  unfoldable pub mark : List (ℕ × ℕ) → World K → World K
  mark [] w = w
  mark ((cell, flags) ∷ events) w =
      let p = w.polling.cells cell in
      mark events
        (record w { waiters = update w.waiters p (record (w.waiters p) { ref_data = cell }) })

  -- The second loop, and the events left when it ends early. `resume p` is the program's: it resumes
  -- the waiter at `p`. `stop` is the test of `eptimer` and `epfd` after it.
  unfoldable pub handle :
      (ℕ → World K → World K) → (World K → Bool) → List (ℕ × ℕ) → World K → World K × List (ℕ × ℕ)
  unfolding on arrive
  handle resume stop [] w = (w, [])
  handle resume stop ((cell, flags) ∷ events) w =
      let p = w.polling.cells cell in
      let w' = resume p (on (λ s. (arrive flags s.0, s.1)) p w) in
      elim (p == 0) [
        | true ↦ handle resume stop events w
        | false ↦ elim (stop w') [ true ↦ (w', events) | false ↦ handle resume stop events w' ]
      ]

-- ===== src/Stackful/Hook/Select.antt =====
-- stackful/cort_stackful_fds_waiter.cpp, `cort_hooked_select`. A set of files is a function, and its
-- pointer may be null: `none`. What a call writes to the program's sets is part of the result.
pub mod Registered
use Prim.Native.Nat.{bit_or}
use cort_proto.Prelude.{
  ℕ, zero, suc, ◌+◌, ◌-◌, ◌*◌, ◌/◌, ◌%◌, ◌^◌, Bool, true, false, not, ◌&&◌, Option, none, some,
  if◌then◌else◌, leb, ◌==◌,
}
use cort_proto.Prelude.Words.{add64, sub32}
use cort_proto.Net.{epollin, epollout}
use cort_proto.Net.Connection.{SysResult, done, failed}
use cort_proto.Stackful.FdTable.{FdTable}
use cort_proto.Stackful.Hook.{HookWaiter, set_new_timeout, clear_new_timeout, wait_events}
use cort_proto.Stackful.Hook.Sleep.{cort_hooked_usleep}
use cort_proto.Stackful.Hook.Poll.{Calls}

abbrev pub epollpri : ℕ
epollpri = 0x2

-- A set of files.
abbrev pub FdSet : Type 0
FdSet = ℕ → Bool

-- `fd_set*`
abbrev pub FdSets : Type 0
FdSets = Option FdSet

-- The three sets of `select`: of reading, of writing, of exceptions.
pub record Selected : Type 0 where
  pub readfds : FdSets
  pub writefds : FdSets
  pub exceptfds : FdSets

abbrev pub is_set : FdSets → ℕ → Bool
is_set none fd = false
is_set (some s) fd = s fd

-- the timeout's seconds and microseconds; `none` where the pointer is null
abbrev pub Timeval : Type 0
Timeval = Option (ℕ × ℕ)

-- `FD_ZERO`, where there is a set.
abbrev pub fd_zero : FdSets → FdSets
fd_zero none = none
fd_zero (some s) = some (λ fd. false)

-- Whether `select` is only to sleep.
abbrev pub has_sets : Selected → Bool
has_sets s = elim s.readfds [
  | some r ↦ true
  | none ↦ elim s.exceptfds [
    | some e ↦ true
    | none ↦ elim s.writefds [ some w ↦ true | none ↦ false ]
  ]
]

-- The events of a file in the sets.
unfoldable pub selected_events : ℕ → Selected → ℕ
selected_events fd s =
    let e1 = if is_set s.readfds fd then bit_or 0 epollin else 0 in
    let e2 = if is_set s.writefds fd then bit_or e1 epollout else e1 in
    if is_set s.exceptfds fd then bit_or e2 epollpri else e2

-- `tv_sec * 1000 + tv_usec/1000`, and the time of a sleep in microseconds as an `int`.
abbrev pub timeval_ms : ℕ × ℕ → ℕ
timeval_ms (sec, usec) = add64 (sec * 1000) (usec / 1000)

abbrev pub timeval_us : ℕ × ℕ → ℕ
timeval_us (sec, usec) = (sec * 1000 * 1000 + usec) % 2 ^ 32

module _ {W : Type 0} (h : HookWaiter W) (sys : Calls W)
    (select : ℕ → Selected → Timeval → W → W × SysResult × Selected) where
  unfoldable pub add_file : ℕ → ℕ → Selected → W → W
  unfolding selected_events
  add_file epfd fd s w =
      let e1 = selected_events fd s in if e1 == 0 then w else sys.epoll_ctl_add epfd fd e1 w

  -- The loop over the files, with fuel for its turns: `none` if it runs out.
  unfoldable pub add_selected : ℕ → ℕ → ℕ → Selected → W → Option W
  unfolding add_file
  add_selected zero epfd nnfds s w = none
  add_selected (suc fuel) epfd nnfds s w =
      let fd = sub32 nnfds 1 in
      elim (fd == 0) [ true ↦ some w | false ↦ add_selected fuel epfd fd s (add_file epfd fd s w) ]

  -- The wait, once the files have been added.
  unfoldable pub select_wait : ℕ → ℕ → Selected → Timeval → W → W × SysResult × Selected
  unfolding set_new_timeout clear_new_timeout wait_events
  select_wait epfd nfds s timeout w =
      let ms : ℕ = elim timeout [ none ↦ 0 | some t ↦ timeval_ms t ] in
      let (w1, new_timeout) = set_new_timeout h (not (ms == 0)) ms w in
      let w2 = h.file.close_cort_fd (wait_events h epfd epollin w1) in
      if h.file.is_timeout_or_stopped w2
      then (w2, done 0, s)
      else select nfds s (some (0, 0)) (clear_new_timeout h new_timeout w2)

  -- `cort_hooked_select` with a coroutine.
  unfoldable pub select_in : ℕ → ℕ → Selected → Timeval → W → Option (W × SysResult × Selected)
  unfolding add_selected select_wait
  select_in fuel nfds s timeout w =
      let (w', epfd) = sys.epoll_create w in
      if h.file.is_timeout_or_stopped w then some (w, done 0, s) else elim epfd [
        | failed e ↦ some (w', failed e, s)
        | done n ↦ elim (add_selected fuel n nfds s w') [
          | none ↦ none
          | some w'' ↦ some (select_wait n nfds s timeout w'')
        ]
      ]

  -- What it does when no file is writable yet.
  unfoldable pub select_later :
      ℕ → ℕ → Selected → Timeval → Option FdTable → W → Option (W × SysResult × Selected)
  unfolding select_in cort_hooked_usleep
  select_later fuel nfds s timeout waiter w =
      let waited : Option (W × SysResult × Selected) = elim waiter [
        | none ↦ some (select nfds s timeout w)
        | some t ↦ select_in fuel nfds s timeout w
      ] in
      elim timeout [
        | none ↦ waited
        | some t ↦
            let (w', _) = cort_hooked_usleep h sys.usleep (timeval_us t) waiter w in
            if has_sets s then waited else some (w', done 0, s)
      ]

  unfoldable pub cort_hooked_select :
      ℕ → ℕ → Selected → Timeval → Option FdTable → W → Option (W × SysResult × Selected)
  unfolding select_later
  cort_hooked_select fuel nfds s timeout waiter w = elim s.writefds [
    | none ↦ select_later fuel nfds s timeout waiter w
    | some wrfs ↦
        let only : Selected = record { readfds = none; writefds = some wrfs; exceptfds = none } in
        let (w', result, only') = select nfds only (some (0, 0)) w in
        let s' : Selected = record {
          readfds = fd_zero s.readfds;
          writefds = only'.writefds;
          exceptfds = fd_zero s.exceptfds;
        } in
        let later = select_later fuel nfds s timeout waiter w' in
        elim result [
          | done n ↦ (if n == 0 then later else some (w', done n, s'))
          | failed e ↦ some (w', failed e, s')
        ]
  ]

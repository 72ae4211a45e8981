-- ===== src/Stackful/Tests/Hooks.antt =====
-- The replaced system calls.
use cort_proto.Prelude.{
  ℕ, zero, suc, ◌+◌, ◌<◌, ◌≤◌, ◌≡◌, ◌⊎◌, inl, inr, refl, arith, Bool, true, false, none, some,
}
use cort_proto.Net.{epollin}
use cort_proto.Net.Connection.{FileWaiter, SysResult, done, failed}
use cort_proto.Stackful.FdTable.{FdInfo, FdTable, minus_one, plain, find_fd_waiter}
use cort_proto.Stackful.FdTable.Map.{info_of}
use cort_proto.Stackful.Hook.{
  HookWaiter, hooked, before_stackless_resume, after_stackful_resume, cort_stackful_yield,
  wait_events,
}
use cort_proto.Stackful.Hook.Io.{io_hook}
use cort_proto.Stackful.Hook.Io.Blocking.{is_interrupt, Documented, Blocked, io_hook_returns}
use cort_proto.Stackful.Hook.Connect.{cort_hooked_connect}
use cort_proto.Stackful.Hook.Connect.Outcome
use cort_proto.Stackful.Hook.Connect.Outcome.{Waited, cort_hooked_connect_returns}
use cort_proto.Stackful.Hook.Events.{get_epoll_event, get_poll_event}
use cort_proto.Stackful.Hook.Events.Roundtrip.{events_of, get_poll_event-get_epoll_event}
use cort_proto.Stackful.Hook.Files.{cort_hooked_socket, cort_hooked_close, cort_hooked_accept4}
use cort_proto.Stackful.Hook.Files.Opened.{known, close-socket, cort_hooked_accept4_forgets}
use cort_proto.Stackful.Hook.Poll.{PollFd, Calls, cort_hooked_poll, cort_hooked_epoll_wait}
use cort_proto.Stackful.Hook.Poll.Leaves.{KeepsFile, cort_hooked_poll_leaves}
use cort_proto.Stackful.Hook.Select.{Selected, Timeval, add_selected}
use cort_proto.Stackful.Hook.Select.Registered.{add_down_to_one, add_selected_lem}
use cort_proto.Stackful.Tests.{table, table-IsMap}

-- A coroutine: its file, whether its time is up, whether a timeout is set, how often a call will fail,
-- and the number of files that an epoll has been given.
record Host : Type 0 where
  fd : ℕ
  timed_out : Bool
  limited : Bool
  failures : ℕ
  added : ℕ

abbrev waiter : FileWaiter Host
waiter = record {
  cort_fd = λ w. w.fd;
  poll_request = λ w. 0;
  poll_result = λ w. 4;
  is_timeout_or_stopped = λ w. w.timed_out;
  set_cort_fd = λ fd w. record w { fd = fd };
  set_poll_request = λ r w. w;
  clear_poll_result = λ w. w;
  close_cort_fd = λ w. record w { fd = minus_one };
  set_timeout = λ n w. record w { timed_out = false; limited = true };
  clear_timeout = λ w. record w { limited = false };
  cort_fd-close = λ w. refl;
  cort_fd-set = λ fd w. refl;
  cort_fd-request = λ r w. refl;
  cort_fd-set_timeout = λ n w. refl;
  cort_fd-clear_timeout = λ w. refl;
}

-- The rest of the program runs until the coroutine's time is up, if it has one, or else until its file
-- is ready, once for each call that fails; after that the coroutine is stopped.
abbrev resumes : Bool → ℕ → Host → Host
resumes true n w = record w { timed_out = true; limited = false }
resumes false zero w = record w { timed_out = true }
resumes false (suc n) w = record w { failures = n }

abbrev coroutine : HookWaiter Host
coroutine = record {
  file = waiter;
  is_set_timeout = λ w. w.limited;
  get_timeout_time = λ w. 1000;
  cort_timer_now_ms_refresh = λ w. (w, 900);
  remove_cort_fd = λ w. record w { fd = minus_one };
  stackless_resume = λ w. resumes w.limited w.failures w;
  set_current_thread_cort = λ b w. w;
  await_sleeper = λ t w. (w, true);
  cort_fd-remove = λ w. refl;
}

abbrev host : Host
host = record { fd = minus_one; timed_out = false; limited = false; failures = 2; added = 0 }

-- A call that would block until the file has been ready, is then interrupted, and then gives five bytes.
abbrev fails : ℕ → Host → Host × SysResult
fails zero w = (w, done 5)
fails (suc zero) w = (record w { failures = 0 }, failed 4)
fails (suc (suc n)) w = (w, failed 11)

abbrev read : Host → Host × SysResult
read w = fails w.failures w

fails_interrupted :
    (n : ℕ) (w : Host)
    → w.failures ≡ n
    → is_interrupt (fails n w).1 ≡ true
    → (fails n w).0.failures < w.failures
fails_interrupted zero w h e = cc
fails_interrupted (suc zero) w h e = omega (arith, h)
fails_interrupted (suc (suc n)) w h e = cc

fails_keeps : (n : ℕ) (w : Host) → (fails n w).0.failures ≤ w.failures
fails_keeps zero w = omega arith
fails_keeps (suc zero) w = omega arith
fails_keeps (suc (suc n)) w = omega arith

fails_file : (n : ℕ) (w : Host) → (fails n w).0.fd ≡ w.fd
fails_file zero w = refl
fails_file (suc zero) w = refl
fails_file (suc (suc n)) w = refl

resumes_lem :
    (b : Bool) (n : ℕ) (w : Host)
    → w.failures ≡ n
    → ((resumes b n w).timed_out ≡ true) ⊎ ((resumes b n w).failures < w.failures)
resumes_lem true n w h = inl refl
resumes_lem false zero w h = inl refl
resumes_lem false (suc n) w h = inr (omega (arith, h))

waits :
    (fd events : ℕ) (w : Host)
    → let w' = coroutine.remove_cort_fd (wait_events coroutine fd events w) in
      (w'.timed_out ≡ true) ⊎ (w'.failures < w.failures)
unfolding wait_events cort_stackful_yield after_stackful_resume before_stackless_resume
waits fd events w = resumes_lem w.limited w.failures (record w { fd = fd }) refl

abbrev documented : Documented coroutine read
documented = record {
  patience = λ w. w.failures;
  interrupted = λ w. fails_interrupted w.failures w refl;
  patience_call = λ w. fails_keeps w.failures w;
  waited = waits;
  patience_set = λ t w. omega arith;
  patience_clear = λ w. omega arith;
  keeps_file = λ w. fails_file w.failures w;
}

abbrev seven : FdInfo
seven = record { fd = 7; read_timeout = 50; write_timeout = 0; other_info = 0 }

seven_known : hooked 7 (some table) ≡ some seven
unfolding hooked
seven_known = refl

io_hook_returns_example :
    (r : Host × SysResult) × (io_hook coroutine read 3 7 epollin
        (λ (i : FdInfo). i.read_timeout)
        (some table)
        host
      ≡ some r)
    × Blocked coroutine read documented r
io_hook_returns_example =
    io_hook_returns coroutine read documented 3 7 epollin (λ (i : FdInfo). i.read_timeout)
      (some table) seven host seven_known (omega arith) refl

-- A connection that is interrupted, is under way, and is then writable.
abbrev connects : ℕ → Host → Host × SysResult
connects zero w = (w, failed 115)
connects (suc n) w = (record w { failures = n }, failed 4)

abbrev connect : ℕ → Host → Host × SysResult
connect fd w = connects w.failures w

abbrev so_error : ℕ → Host → Host × ℕ
so_error fd w = (w, 111)

connects_patient :
    (n : ℕ) (w : Host)
    → w.failures ≡ n
    → is_interrupt (connects n w).1 ≡ true
    → (connects n w).0.failures < w.failures
connects_patient zero w h e = cc
connects_patient (suc n) w h e = omega (arith, h)

connects_file : (n : ℕ) (w : Host) → (connects n w).0.fd ≡ w.fd
connects_file zero w = refl
connects_file (suc n) w = refl

abbrev connect_documented : Outcome.Documented coroutine connect so_error
connect_documented = record {
  patience = λ w. w.failures;
  patient = λ fd w. connects_patient w.failures w refl;
  keeps_file = λ fd w. connects_file w.failures w;
  error_keeps_file = λ fd w. refl;
  error_finished = λ fd w. refl;
}

cort_hooked_connect_returns_example :
    (r : Host × SysResult) × (cort_hooked_connect coroutine connect so_error 3 7 (some table) host
      ≡ some r)
    × Waited coroutine connect so_error connect_documented 7 r
cort_hooked_connect_returns_example =
    cort_hooked_connect_returns coroutine connect so_error connect_documented 3 7 (some table) seven
      host seven_known (omega arith) refl

get_poll_event-get_epoll_event_example :
    (get_poll_event (get_epoll_event 0x2005) ≡ events_of 0x2005)
    × (get_epoll_event (get_poll_event 0x2005) ≡ events_of 0x2005)
get_poll_event-get_epoll_event_example = get_poll_event-get_epoll_event 0x2005

reading_and_writing : events_of 0x2005 ≡ 5
reading_and_writing = refl

-- A socket has number 9, and so has a connection.
abbrev socket : ℕ → ℕ → ℕ → Host → Host × SysResult
socket domain type protocol w = (w, done 9)

abbrev close : ℕ → Host → Host × SysResult
close fd w = (w, done 0)

abbrev accept4 : ℕ → ℕ → Host → Host × SysResult
accept4 fd flags w = (w, done 9)

nine_unknown : info_of 9 table ≡ none
unfolding find_fd_waiter
nine_unknown = refl

close-socket_example :
    (known 9 (cort_hooked_socket socket 2 1 0 (some table, host)).0.0 ≡ some (plain 9))
    × (known 7
          (cort_hooked_close close 9 (cort_hooked_socket socket 2 1 0 (some table, host)).0).0.0
        ≡ info_of 7 table)
close-socket_example =
    close-socket socket close 2 1 0 9 7 table host table-IsMap (omega arith) refl (omega arith)
      nine_unknown

cort_hooked_accept4_forgets_example :
    (t' : FdTable) × (cort_hooked_accept4 coroutine accept4 1 7 0 (some table, host)
      ≡ some ((some t', host), done 9))
    × (t'.reserved_count ≡ suc table.reserved_count)
    × (t'.fds_array table.reserved_count ≡ plain 7)
    × ((op : Host → Host × SysResult) (event : ℕ) (whattimeout : FdInfo → ℕ) (x : Host)
        → io_hook coroutine op 0 9 event whattimeout (some t') x ≡ some (op x))
cort_hooked_accept4_forgets_example =
    cort_hooked_accept4_forgets coroutine accept4 0 7 0 9 table seven host host table-IsMap
      (omega arith) seven_known refl (omega arith) (omega arith) nine_unknown

abbrev usleep : ℕ → Host → Host × SysResult
usleep usec w = (w, done 0)

abbrev calls : Calls Host
calls = record {
  usleep = usleep;
  epoll_create = λ w. (w, done 9);
  epoll_ctl_add = λ epfd fd events w. record w { added = w.added + 1 };
  epoll_wait = λ fd n t w. (w, done 1);
  poll = λ fds n t w. (w, done 1, fds);
}

abbrev select : ℕ → Selected → Timeval → Host → Host × SysResult × Selected
select n s t w = (w, done 1, s)

-- Every file is to be read.
abbrev all_files : Selected
all_files = record { readfds = some (λ fd. true); writefds = none; exceptfds = none }

three_files :
    add_selected coroutine calls select 3 9 3 all_files host
    ≡ some (add_down_to_one coroutine calls select 9 2 all_files host)
three_files =
    add_selected_lem coroutine calls select 3 9 2 all_files host (omega arith) (omega arith)

resume_keeps : (b : Bool) (n : ℕ) (w : Host) → (resumes b n w).fd ≡ w.fd
resume_keeps true n w = refl
resume_keeps false zero w = refl
resume_keeps false (suc n) w = refl

keeps_file : KeepsFile coroutine calls
keeps_file = record {
  resume = λ w. resume_keeps w.limited w.failures w;
  current = λ b w. refl;
  refresh = λ w. refl;
  sleeper = λ t w. refl;
  usleep = λ t w. refl;
  create = λ w. refl;
  poll = λ fds n t w. refl;
  wait = λ fd n t w. refl;
}

cort_hooked_poll_leaves_example :
    ((fds : ℕ → PollFd) (nfds timeout : ℕ)
      → (cort_hooked_poll coroutine calls fds nfds timeout (some table) host).0.fd ≡ minus_one)
    × ((fd maxevents timeout : ℕ)
        → (cort_hooked_epoll_wait coroutine calls fd maxevents timeout (some table) host).0.fd
          ≡ minus_one)
cort_hooked_poll_leaves_example = cort_hooked_poll_leaves coroutine calls keeps_file table host refl

-- ===== src/Lib.antt =====
-- A model of the cort_proto coroutine library, with the properties that make its parts correct.
--
-- A coroutine is an object (cort_proto.h) with a callback to run when it is resumed, a parent that
-- waits for it, and the number of coroutines that it waits for itself. A coroutine that finishes is
-- reported to its parent by `resume`, which resumes the parent when it was the last one. The
-- scheduler is nothing else; it is driven by the timers (time/cort_timeout_waiter.cpp), which resume
-- the coroutines whose time has come, from a heap of lists of timers. A channel (cort_channel.h) keeps
-- its objects and the coroutines that wait for it in the queues of cort_util.h, and resumes them as
-- objects come and go. A waiter on a file asks epoll to watch it, and is resumed by the event loop.
-- A TCP connection (net/cort_tcp_ctrler.cpp) is such a waiter: it connects, sends from the blocks of a
-- send buffer, receives into a receive buffer, and may be kept in a pool when it is idle.
--
-- Which file models what:
--   Prelude            the names and lemmas that the others share: Boolean tests, lists, memory as a
--                      function, machine words
--   Util/PodPool       cort_util.h, `cort_pod_pool`
--   Util/PodQueue      cort_util.h, `cort_pod_queue`; the block of memory is a function from indices,
--                      the size, the capacity and the first index are the members
--   Coroutine          cort_proto.h, `cort_proto`: the members, one function for each member function,
--                      with the memory of all coroutines as a function from addresses
--   Coroutine/Range    cort_proto.h, `cort_wait_range` and CO_AWAIT_ALL
--   Coroutine/Any      cort_proto.h, CO_AWAIT_ANY_N and `cort_wait_range_any`
--   Time/Timer         time/cort_timeout_waiter.cpp, `cort_timer`: the heap, the lists of timers with
--                      one timeout, and the operations on both
--   Time/Waiter        time/cort_timeout_waiter.h and .cpp, `cort_timeout_waiter`: setting and clearing
--                      a timeout, and what its end does before it resumes the coroutine
--   Time/FdWaiter      time/cort_timeout_waiter.h and .cpp, `cort_fd_waiter`: the requests to epoll, the
--                      number of watched files, and the loops of `cort_timer_poll` over the events
--   Future             cort_shared_future.h, `cort_shared_future`: a coroutine that many wait for
--   Time/Loop          time/cort_timeout_waiter.cpp: `cort_timer_poll`, `cort_timer_loop`, and what prepares
--                      and destroys them
--   Net                net/cort_tcp_ctrler.h, the error codes and the flags
--   Net/SendBuffer     net/cort_tcp_ctrler.h, `send_buffer_ctrl`, and the loop of `try_send` over it
--   Net/RecvBuffer     net/cort_tcp_ctrler.h, `recv_buffer_ctrl`
--   Net/Connection     net/cort_tcp_ctrler.h and .cpp: the members of `cort_tcp_ctrler`, `set_errno` and
--                      `close_connection` of a connection, and the interface of the waiter below it
--   Net/Connect        net/cort_tcp_ctrler.cpp, `cort_tcp_connection_waiter::try_connect`
--   Net/Send           the same, `try_send`
--   Net/Recv           the same, `try_recv`
--   Net/KeepAlive      the same, `connection_tcp_pool`: the pool of idle connections
--   Net/Polled         time/cort_timeout_waiter.h, the two parts of a `cort_fd_waiter` together, which fill
--                      the interface of Net/Connection
--   Net/Request        net/cort_tcp_ctrler.cpp, how a `cort_tcp_ctrler` holds its connection, and
--                      `cort_tcp_request_response`; time/cort_timeout_waiter.h, `cort_shared_ptr`
--   Net/Notified       net/cort_tcp_ctrler.cpp and net/cort_tcp_listener.cpp: a connection that has finished
--                      or is notified, and an idle connection of the server
--   Stackful/FdTable   stackful/cort_stackful_fds_waiter.h, the table of the files of a coroutine
--   Stackful/Hook      stackful/cort_stackful_fds_waiter.cpp: the interface of such a coroutine, and the
--                      parts that its calls share
--   Stackful/Hook/Io, Connect, Files, Sleep, Events, Poll, Select
--                      the same, the calls that stand for the system calls
--   Stackful/Hook/Waiting
--                      time/cort_timeout_waiter.h, `cort_fd_waiter`, which fills that interface
--   Stackful/Storage   stackful/cort_stackful.cpp and .h, the variables of a coroutine
--   Stackful/Versions  the same, the places that are given to the variables
--   Stackful/Stack     the same, the stack and where it starts
--   Net/Listener       net/cort_tcp_listener.cpp, `cort_tcp_listener`: listening and accepting
--   Channel            cort_channel.h, `cort_channel_proto`: coroutines that wait to receive or to send
--   Channel/Objects    cort_channel.h, `cort_channel`, over a queue of plain elements
--   Channel/EventCount cort_channel.h, `cort_event_channel`
-- The children of a module hold its proofs, named for what they prove; Tests holds runs at concrete
-- inputs.
--
-- The code of the program's coroutines is a parameter: `call f c w` runs the function at address
-- `f` on the coroutine at `c` in the world `w`, and `start c` is the entry function of the
-- coroutine at `c`. In a channel and in a future, `wake p` stands for `p->try_resume(this)`; for a
-- waiter on a file, `epoll_ctl` and `close` are the system calls. A connection is over any waiter
-- on a file (Net/Connection, `FileWaiter`), and the calls of the sockets interface are parameters;
-- what a theorem relies on is a hypothesis on them, in a record of what is documented of them where
-- there are several (Net/Send/Stream, `Socket`; Net/Connect/Outcome, `Documented`). `size_t` and
-- `uint64_t` are natural numbers with the arithmetic modulo 2 ^ 64 written out, `uint32_t` and
-- `int` modulo 2 ^ 32. Allocation succeeds, but for the buffers of a connection, where the code
-- tests it. The loop of `resume` runs on fuel: one round more than the rank of the coroutine in the
-- order of waiting is enough. The loops of the heap run on fuel that is at least the number of
-- steps: the place for the way up, the size of the heap for the way down. `awake_all` of a channel
-- runs on fuel and may return nothing: whether it ends is up to the coroutines that it resumes. A
-- call of `connect` or `send` that a signal interrupts is made again on fuel: more than the signals
-- that may come is enough; for a listener, more than the connections that wait and the signals that
-- may come.
--
-- A coroutine with a stack of its own (stackful/) is such a waiter too. It calls the functions that
-- stand for the system calls; where one would block, it names its file and its timeout to the waiter
-- and lets the rest of the program run until it is resumed. What the rest of the program does meanwhile
-- is a parameter. The files that it has opened are in its table; those that it has not are left to the
-- system call. A call that would block, or that a signal
-- interrupts, is made again on fuel: more than the interruptions and the times that its file is told to
-- be ready is enough. The event loop takes fuel for its turns; whether it ends is up to the program.
--
-- Not modelled: the macros that cut a function into resume points, the destructor of the timer, the
-- switch between two stacks, which is assembly and a parameter, the clock by the counter of the
-- processor, and the time that a finished waiter took.
pub mod Prelude
pub mod Util
pub mod Coroutine
pub mod Time
pub mod Channel
pub mod Future
pub mod Net
pub mod Stackful

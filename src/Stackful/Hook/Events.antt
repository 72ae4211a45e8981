-- ===== src/Stackful/Hook/Events.antt =====
-- stackful/cort_stackful_fds_waiter.cpp: the events of `poll` and those of epoll, each as the other's,
-- by the values of Linux.
pub mod Roundtrip
use cort_proto.Prelude.{ℕ, ◌+◌, ◌^◌, Bool, if◌then◌else◌, ◌==◌}
use Prim.Native.Nat.{bit_or}
use cort_proto.Net.{has, epollin, epollout, epollhup, epollerr}

abbrev pub pollin : ℕ
pollin = 0x1

abbrev pub pollout : ℕ
pollout = 0x4

abbrev pub pollerr : ℕ
pollerr = 0x8

abbrev pub pollhup : ℕ
pollhup = 0x10

abbrev pub pollrdnorm : ℕ
pollrdnorm = 0x40

abbrev pub pollwrnorm : ℕ
pollwrnorm = 0x100

-- the numbers that both have: EPOLLRDNORM and EPOLLWRNORM
abbrev pub epollrdnorm : ℕ
epollrdnorm = 0x40

abbrev pub epollwrnorm : ℕ
epollwrnorm = 0x100

-- `if( event & tested ) result |= flag`
abbrev pub or_if : Bool → ℕ → ℕ → ℕ
or_if test flag result = if test then bit_or result flag else result

unfoldable pub get_epoll_event : ℕ → ℕ
get_epoll_event e =
    let r1 = or_if (has pollin e) epollin 0 in
    let r2 = or_if (has pollout e) epollout r1 in
    let r3 = or_if (has pollhup e) epollhup r2 in
    let r4 = or_if (has pollerr e) epollerr r3 in
    let r5 = or_if (has pollrdnorm e) epollrdnorm r4 in or_if (has pollwrnorm e) epollwrnorm r5

unfoldable pub get_poll_event : ℕ → ℕ
get_poll_event e =
    let r1 = or_if (has epollin e) pollin 0 in
    let r2 = or_if (has epollout e) pollout r1 in
    let r3 = or_if (has epollhup e) pollhup r2 in
    let r4 = or_if (has epollerr e) pollerr r3 in
    let r5 = or_if (has epollrdnorm e) pollrdnorm r4 in or_if (has epollwrnorm e) pollwrnorm r5

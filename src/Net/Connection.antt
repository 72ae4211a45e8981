-- ===== src/Net/Connection.antt =====
-- net/cort_tcp_ctrler.h and .cpp: `cort_tcp_ctrler`, whose connection is a coroutine that waits on a
-- file, and the connection's part in it.
-- What the connection uses of the waiter on a file and of its timeout is an interface, with the laws
-- that its clients need.
use cort_proto.Prelude.{ℕ, ◌^◌, ◌-◌, ◌≡◌, List, Bool, not, ◌&&◌, ltb, ◌==◌, if◌then◌else◌}
use cort_proto.Net.{is_negative}
use cort_proto.Net.SendBuffer
use cort_proto.Net.RecvBuffer
use cort_proto.Net.SendBuffer.{Slot, SendBuffer}
use cort_proto.Net.RecvBuffer.{RecvBuffer}

-- `minus_one` is the `int` -1.
abbrev pub minus_one : ℕ
minus_one = 2 ^ 32 - 1

-- A `cort_fd_waiter` in a world: its members, its operations, and what they leave alone.
pub record FileWaiter (W : Type 0) : Type 0 where
  pub cort_fd : W → ℕ
  pub poll_request : W → ℕ
  pub poll_result : W → ℕ
  pub is_timeout_or_stopped : W → Bool
  pub set_cort_fd : ℕ → W → W
  pub set_poll_request : ℕ → W → W
  pub clear_poll_result : W → W
  pub close_cort_fd : W → W
  pub set_timeout : ℕ → W → W
  pub clear_timeout : W → W
  pub cort_fd-close : (w : W) → cort_fd (close_cort_fd w) ≡ minus_one
  pub cort_fd-set : (fd : ℕ) (w : W) → cort_fd (set_cort_fd fd w) ≡ fd
  pub cort_fd-request : (r : ℕ) (w : W) → cort_fd (set_poll_request r w) ≡ cort_fd w
  pub cort_fd-set_timeout : (t : ℕ) (w : W) → cort_fd (set_timeout t w) ≡ cort_fd w
  pub cort_fd-clear_timeout : (w : W) → cort_fd (clear_timeout w) ≡ cort_fd w

-- `cort_tcp_ctrler`, but for `connection_waiter` and the base class.
pub record Ctrler : Type 0 where
  pub recv_buffer : RecvBuffer
  pub send_buffer : SendBuffer
  pub timeout : ℕ
  pub timecost : ℕ
  pub keep_alive_ms : ℕ
  pub ip_v4 : ℕ
  pub port_v4 : ℕ
  pub type_key : ℕ
  pub errnum : ℕ

-- How a call of an entry function ends: CO_RETURN, or CO_AGAIN, which calls it again when the
-- coroutine is resumed.
pub data Next : Type 0 where
  finished : Next
  again : Next

-- The constructor, over the memory of the send buffer.
pub create : (ℕ → Slot) → Ctrler
create slots = record {
  recv_buffer = RecvBuffer.create;
  send_buffer = SendBuffer.create slots;
  timeout = 0;
  timecost = 0;
  keep_alive_ms = 0;
  ip_v4 = 0;
  port_v4 = 0;
  type_key = 0;
  errnum = 0;
}

-- `cort_tcp_ctrler::clear`, with the addresses freed so far.
pub clear : Ctrler × List ℕ → Ctrler × List ℕ
clear (c, freed) =
    let (b, freed') = SendBuffer.clear (c.send_buffer, freed) in
    (record c { recv_buffer = RecvBuffer.clear c.recv_buffer; send_buffer = b; errnum = 0 }, freed')

pub set_dest_addr : ℕ → ℕ → Ctrler → Ctrler
set_dest_addr ip port c = record c { ip_v4 = ip; port_v4 = port }

-- What a system call returns: a number that is not negative, or `errno`.
pub data SysResult : Type 0 where
  done : ℕ → SysResult
  failed : ℕ → SysResult

module _ {W : Type 0} (v : FileWaiter W) where
  open v use {
    cort_fd, poll_request, poll_result, is_timeout_or_stopped, set_timeout, clear_timeout,
    close_cort_fd,
  }

  -- `get_cort_fd() > 0`
  unfoldable pub is_connected : W → Bool
  is_connected w = ltb 0 (cort_fd w) && not (is_negative (cort_fd w))

  -- The connection's `set_errno`, on its parent.
  unfoldable pub set_errno : ℕ → Ctrler × W → Ctrler × W
  set_errno err (c, w) = (record c { errnum = err }, clear_timeout w)

  unfoldable pub close_connection : ℕ → Ctrler × W → Ctrler × W
  unfolding set_errno
  close_connection err (c, w) = set_errno err (c, close_cort_fd w)

  -- The start of `try_connect`, `try_send` and `try_recv`: a timeout that the parent has asked for.
  unfoldable pub take_timeout : Ctrler × W → Ctrler × W
  take_timeout (c, w) =
      if c.timeout == 0 then (c, w) else (record c { timeout = 0 }, set_timeout c.timeout w)

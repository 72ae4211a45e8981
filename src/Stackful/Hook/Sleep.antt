-- ===== src/Stackful/Hook/Sleep.antt =====
-- stackful/cort_stackful_fds_waiter.cpp, `cort_hooked_usleep`. Times are 64-bit words, in milliseconds.
use cort_proto.Prelude.{ℕ, ◌*◌, ◌/◌, ◌%◌, ◌^◌, Option, none, some, if◌then◌else◌, ltb, ◌==◌}
use cort_proto.Prelude.Words.{sub32, sub64}
use cort_proto.Net.{is_negative}
use cort_proto.Net.RecvBuffer.{signed_lt}
use cort_proto.Net.Connection.{SysResult, done}
use cort_proto.Stackful.FdTable.{FdTable}
use cort_proto.Stackful.Hook.{HookWaiter, cort_stackful_yield, after_stackful_resume}

-- `(time_ms_t)(usec/1000)`: the division of an `int` goes towards 0.
abbrev pub milliseconds : ℕ → ℕ
milliseconds usec = if is_negative usec then sub64 0 (sub32 0 usec / 1000) else usec / 1000

module _ {W : Type 0} (h : HookWaiter W) where
  -- The time is limited already: it sleeps until `end_time`, or the time asked for.
  unfoldable pub sleep_limited : ℕ → ℕ → ℕ → W → W
  unfolding cort_stackful_yield after_stackful_resume
  sleep_limited usec end_time now_time w =
      let left = sub64 end_time now_time % 2 ^ 32 in
      let sleep_time = milliseconds usec in
      let (w', waits) = h.await_sleeper sleep_time w in
      if ltb now_time end_time
      then (if signed_lt (left * 1000 % 2 ^ 32) usec
          then after_stackful_resume h (h.stackless_resume w)
          else (if sleep_time == 0 then w else (if waits then cort_stackful_yield h w' else w')))
      else w

  -- `usleep` is the system call.
  unfoldable pub cort_hooked_usleep :
      (ℕ → W → W × SysResult) → ℕ → Option FdTable → W → W × SysResult
  unfolding sleep_limited cort_stackful_yield
  cort_hooked_usleep usleep usec none w = usleep usec w
  cort_hooked_usleep usleep usec (some t) w =
      let end_time = h.get_timeout_time w in
      let (w', now_time) = h.cort_timer_now_ms_refresh w in
      (
        if h.is_set_timeout w
            then sleep_limited usec end_time now_time w'
            else cort_stackful_yield h (h.file.set_timeout (milliseconds usec) w),
        done 0,
      )

-- ===== src/Stackful/Hook/Connect/Outcome.antt =====
-- A replaced `connect` blocks its coroutine, and returns.
use cort_proto.Prelude.{
  ℕ, zero, suc, ◌<◌, ◌≡◌, ◌⊎◌, inl, inr, refl, ap, ◌∙◌, arith, Bool, true, false, not, ◌||◌, Option,
  some, if◌then◌else◌, ◌==◌, branch_if, branch,
}
use cort_proto.Net.{has, epollout}
use cort_proto.Net.Send.{eintr, einprogress}
use cort_proto.Net.Connect.{eisconn, connect_poll_request, connect_reject_events}
use cort_proto.Net.Connection.{SysResult, done, failed, minus_one}
use cort_proto.Stackful.FdTable.{FdInfo, FdTable}
use cort_proto.Stackful.Hook.{HookWaiter, set_new_timeout, clear_new_timeout, wait_events, hooked}
use cort_proto.Stackful.Hook.Connect.{
  connected, wait_connection, connect_again, cort_hooked_connect,
}
use cort_proto.Stackful.Hook.Io.Blocking.{is_interrupt}

-- That a call has not waited for the connection.
abbrev pub is_unfinished : SysResult → Bool
is_unfinished (done n) = false
is_unfinished (failed e) = (e == eintr) || (e == einprogress)

-- That a call says that the connection is made.
abbrev pub is_made : SysResult → Bool
is_made (done n) = true
is_made (failed e) = e == eisconn

abbrev pub is_success : SysResult → Bool
is_success (done n) = true
is_success (failed e) = false

-- What the kernel does: an interruption uses up some patience, and the error of a socket is neither that
-- it has been interrupted nor that it is under way.
pub record Documented {W : Type 0} (h : HookWaiter W) (connect : ℕ → W → W × SysResult)
    (so_error : ℕ → W → W × ℕ) : Type 0 where
  pub patience : W → ℕ
  pub patient :
      (fd : ℕ) (w : W)
      → is_interrupt (connect fd w).1 ≡ true
      → patience (connect fd w).0 < patience w
  pub keeps_file : (fd : ℕ) (w : W) → h.file.cort_fd (connect fd w).0 ≡ h.file.cort_fd w
  pub error_keeps_file : (fd : ℕ) (w : W) → h.file.cort_fd (so_error fd w).0 ≡ h.file.cort_fd w
  pub error_finished : (fd : ℕ) (w : W) → is_unfinished (failed (so_error fd w).1) ≡ false

module _ {W : Type 0} (h : HookWaiter W) (connect : ℕ → W → W × SysResult)
    (so_error : ℕ → W → W × ℕ) (d : Documented h connect so_error) where
  -- A world in which the connection is made: `connect` has just said so, or a wait for the events of the
  -- file has just ended, in time, and the file was told to be writable and not to be rejected.
  abbrev pub Established : ℕ → W → Type 0
  Established fd w =
      ((u : W) × (is_made (connect fd u).1 ≡ true) × (w ≡ (connect fd u).0))
      ⊎ (u : W) × (b : Bool) × (w
          ≡ clear_new_timeout h b (h.remove_cort_fd (wait_events h fd connect_poll_request u)))
        × (h.file.is_timeout_or_stopped (h.remove_cort_fd (wait_events h fd connect_poll_request u))
            ≡ false)
        × (has connect_reject_events (h.file.poll_result (wait_events h fd connect_poll_request u))
            ≡ false)
        × (has epollout (h.file.poll_result (wait_events h fd connect_poll_request u)) ≡ true)

  -- How a call ends: it is not interrupted or under way, it waits for no file, and if it succeeds, the
  -- connection is made.
  abbrev pub Waited : ℕ → W × SysResult → Type 0
  Waited fd (w, r) =
      (is_unfinished r ≡ false)
      × (h.file.cort_fd w ≡ minus_one)
      × (is_success r ≡ true → Established fd w)

  connected-Waited :
      (fd event : ℕ) (w : W)
      → h.file.cort_fd w ≡ minus_one
      → (has connect_reject_events event ≡ false → has epollout event ≡ true → Established fd w)
      → Waited fd (connected h connect so_error fd event w)
  unfolding connected
  connected-Waited fd event w closed made =
      branch_if (Waited fd) (has connect_reject_events event) _ _ (λ _. (refl, closed, λ e. cc))
        (λ accepted.
          branch_if (Waited fd) (has epollout event) _ _
            (λ writable. (refl, closed, λ _. made accepted writable))
            (λ _.
              branch_if (λ (e : ℕ). Waited fd ((so_error fd w).0, failed e))
                ((so_error fd w).1 == 0) _ _
                (λ _. (refl, d.error_keeps_file fd w ∙ closed, λ e. cc))
                (λ _. (d.error_finished fd w, d.error_keeps_file fd w ∙ closed, λ e. cc))))

  cort_fd-clear_new_timeout :
      (b : Bool) (w : W)
      → h.file.cort_fd w ≡ minus_one
      → h.file.cort_fd (clear_new_timeout h b w) ≡ minus_one
  unfolding clear_new_timeout
  cort_fd-clear_new_timeout true w closed = h.file.cort_fd-clear_timeout w ∙ closed
  cort_fd-clear_new_timeout false w closed = closed

  wait_connection-Waited :
      (fd : ℕ) (info : FdInfo) (w : W)
      → h.file.cort_fd w ≡ minus_one
      → Waited fd (wait_connection h connect so_error fd info w)
  unfolding wait_connection
  wait_connection-Waited fd info w closed =
      branch_if (Waited fd) (h.file.is_timeout_or_stopped w) _ _ (λ _. (refl, closed, λ e. cc))
        (λ _.
          branch_if (Waited fd) (h.file.is_timeout_or_stopped w3) _ _
            (λ _. (refl, h.cort_fd-remove _, λ e. cc))
            (λ in_time.
              connected-Waited fd (h.file.poll_result w2) (clear_new_timeout h b w3) no_file
                (λ accepted writable. inr (w1, b, refl, in_time, accepted, writable))))
    where
      timeout : ℕ
      timeout = info.write_timeout

      wanted : Bool
      wanted = not (timeout == 0)

      w1 : W
      w1 = (set_new_timeout h wanted timeout w).0

      b : Bool
      b = (set_new_timeout h wanted timeout w).1

      w2 : W
      w2 = wait_events h fd connect_poll_request w1

      w3 : W
      w3 = h.remove_cort_fd w2

      no_file : h.file.cort_fd (clear_new_timeout h b w3) ≡ minus_one
      no_file = cort_fd-clear_new_timeout b w3 (h.cort_fd-remove w2)

  connect_again_returns :
      (fuel fd : ℕ) (info : FdInfo) (w : W)
      → d.patience w < fuel
      → h.file.cort_fd w ≡ minus_one
      → (r : W × SysResult) × (connect_again h connect so_error fuel fd info w ≡ some r)
        × Waited fd r
  unfolding connect_again
  connect_again_returns zero fd info w less closed = absurd (omega arith)
  connect_again_returns (suc fuel) fd info w less closed =
      by_result (connect fd w).1 refl
        (λ e. connect_again_returns fuel fd info w' (omega (arith, d.patient fd w e)) closed')
    where
      w' : W
      w' = (connect fd w).0

      closed' : h.file.cort_fd w' ≡ minus_one
      closed' = d.keeps_file fd w ∙ closed

      given :
          (x : W × SysResult) → Waited fd x → (r : W × SysResult) × (some x ≡ some r) × Waited fd r
      given x k = (x, refl, k)

      by_result :
          (status : SysResult)
          → (connect fd w).1 ≡ status
          → (is_interrupt status ≡ true
              → (r : W × SysResult) × (connect_again h connect so_error fuel fd info w' ≡ some r)
                × Waited fd r)
          → (r : W × SysResult) × (elim status [
            | done n ↦ some (w', done 0)
            | failed errno ↦ elim (errno == eintr) [
              | true ↦ connect_again h connect so_error fuel fd info w'
              | false ↦ some (
                  if errno == eisconn
                  then (w', done 0)
                  else (if errno == einprogress
                      then wait_connection h connect so_error fd info w'
                      else (w', failed errno)))
            ]
          ]
              ≡ some r)
            × Waited fd r
      by_result (done n) e rest =
          given (w', done 0) (refl, closed', λ _. inl (w, ap is_made e, refl))
      by_result (failed errno) e rest =
          branch (λ (o : Option (W × SysResult)). (r : W × SysResult) × (o ≡ some r) × Waited fd r)
            (errno == eintr) _ _ rest
            (λ n. given _ (
              branch_if (Waited fd) (errno == eisconn) _ _
                (λ again. (refl, closed', λ _. inl (w, ap is_made e ∙ again, refl)))
                (λ _.
                  branch_if (Waited fd) (errno == einprogress) _ _
                    (λ _. wait_connection-Waited fd info w' closed')
                    (λ u. (rw (n, u) refl, closed', λ s. cc)))))

  -- With more fuel than patience, a replaced `connect` of a file that the coroutine knows returns. It tells
  -- neither that it has been interrupted nor that the connection is under way, and the coroutine waits for
  -- no file any more. It tells success only if the system call has said that the connection is made, or if
  -- the coroutine has waited for the file until this was told to be writable, in time and without an error.
  pub cort_hooked_connect_returns :
      (fuel fd : ℕ) (waiter : Option FdTable) (info : FdInfo) (w : W)
      → hooked fd waiter ≡ some info
      → d.patience w < fuel
      → h.file.cort_fd w ≡ minus_one
      → (r : W × SysResult) × (cort_hooked_connect h connect so_error fuel fd waiter w ≡ some r)
        × Waited fd r
  unfolding cort_hooked_connect
  cort_hooked_connect_returns fuel fd waiter info w known less closed =
      rw (cort_hooked_connect, known) (connect_again_returns fuel fd info w less closed)

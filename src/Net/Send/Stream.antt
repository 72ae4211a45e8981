-- ===== src/Net/Send/Stream.antt =====
-- `try_send` as the kernel sees it: the bytes come in order, each once.
use cort_proto.Prelude.{
  ℕ, zero, suc, ◌<◌, ◌≡◌, ◌≢◌, ◌⊎◌, inl, inr, refl, sym, ap, ap₂, ◌∙◌, arith, Bool, true, false,
  ◌||◌, List, [], ◌∷◌, ◌++◌, Option, some, take, drop, if◌then◌else◌, ◌==◌, ==_iff, branch,
  branch_if,
}
use mathlib.Core.List.{append_assoc, append-nil}
use cort_proto.Net.{
  has, socket_state_error, socket_remote_canceled, socket_operation_timeout, socket_send_error,
}
use cort_proto.Net.SendBuffer.{Slot, SendBuffer, get_free_index, advance}
use cort_proto.Net.SendBuffer.Queue.{used, All, IsIn, is_nil}
use cort_proto.Net.SendBuffer.Bytes.{pending, advance_sends, advance-All-IsIn, used_of_free_index}
use cort_proto.Net.Connection.{
  FileWaiter, Ctrler, Next, finished, again, SysResult, done, failed, is_connected, set_errno,
  close_connection, take_timeout,
}
use cort_proto.Net.Send.{
  Sending, send_again, sent_some, send_label, send_rest, waits_to_send, try_send, eintr, eagain,
  einprogress, send_stop_events, fail,
}

-- The bytes that a system call accepted.
abbrev pub accepted : SysResult → ℕ
accepted (done n) = n
accepted (failed e) = 0

abbrev is_interrupt : SysResult → Bool
is_interrupt (done n) = false
is_interrupt (failed e) = e == eintr

-- What is documented of the system call, with `out`, the bytes that the kernel has taken so far: it
-- takes the first bytes of what is to be sent, as many as it says; a signal does not interrupt it for
-- ever; nothing else gives it bytes.
pub record Socket {W : Type 0} (v : FileWaiter W) (send : W → SendBuffer → ℕ → W × SysResult)
    (mem : ℕ → ℕ) : Type 0 where
  pub out : W → List ℕ
  pub patience : W → ℕ
  pub takes :
      (w : W) (b : SendBuffer)
      → let (w', r) = send w b (get_free_index b) in
        out w' ≡ out w ++ take (accepted r) (pending mem b)
  pub patient :
      (w : W) (b : SendBuffer)
      → let (w', r) = send w b (get_free_index b) in
        is_interrupt r ≡ true → patience w' < patience w
  pub request_keeps : (n : ℕ) (w : W) → out (v.set_poll_request n w) ≡ out w
  pub close_keeps : (w : W) → out (v.close_cort_fd w) ≡ out w
  pub clear_keeps : (w : W) → out (v.clear_timeout w) ≡ out w
  pub set_timeout_keeps : (n : ℕ) (w : W) → out (v.set_timeout n w) ≡ out w
  pub patience_keeps : (n : ℕ) (w : W) → patience (v.set_timeout n w) ≡ patience w

take-drop : (n : ℕ) (xs : List ℕ) → take n xs ++ drop n xs ≡ xs
take-drop zero xs = refl
take-drop (suc n) [] = refl
take-drop (suc n) (x ∷ xs) = ap (◌∷◌ x) (take-drop n xs)

nil_of_is_nil : (ss : List Slot) → is_nil ss ≡ true → ss ≡ []
unfolding is_nil
nil_of_is_nil [] e = refl
nil_of_is_nil (s ∷ ss) e = cc

module _ {W : Type 0} (v : FileWaiter W) (send : W → SendBuffer → ℕ → W × SysResult) (mem : ℕ → ℕ)
    (k : Socket v send mem) where
  -- What the kernel has taken, and what is still to be sent after it.
  abbrev pub stream : Sending W → List ℕ
  stream s = k.out s.world ++ pending mem s.ctrler.send_buffer

  -- An end of a call that was made in the state `s`.
  abbrev pub Sends : Sending W → Sending W × Next → Type 0
  Sends s r =
      (stream r.0 ≡ stream s)
      × All IsIn (used r.0.ctrler.send_buffer)
      × (r.1 ≡ finished → (r.0.ctrler.errnum ≢ 0) ⊎ (used r.0.ctrler.send_buffer ≡ []))

  abbrev pub Returns : Sending W → Option (Sending W × Next) → Type 0
  Returns s o = (r : Sending W × Next) × (o ≡ some r) × Sends s r

  send_again-Sends :
      (s : Sending W) → All IsIn (used s.ctrler.send_buffer) → Sends s (send_again v send s)
  unfolding send_again
  send_again-Sends s h =
      (ap (λ o. o ++ pending mem s.ctrler.send_buffer) (k.request_keeps _ s.world), h, λ e. cc)

  fail-Sends :
      (err : ℕ) (s : Sending W)
      → err ≢ 0
      → All IsIn (used s.ctrler.send_buffer)
      → Sends s (fail v send (close_connection v err) s)
  unfolding close_connection
  fail-Sends err s ne h = (
    ap (λ o. o ++ pending mem s.ctrler.send_buffer)
        (k.clear_keeps (v.close_cort_fd s.world) ∙ k.close_keeps s.world),
    h,
    λ _. inl ne,
  )

  -- A state after `w` took `n` of the bytes to be sent.
  sent_some-Sends :
      (n : ℕ) (s : Sending W) (w : W)
      → k.out w ≡ k.out s.world ++ take n (pending mem s.ctrler.send_buffer)
      → All IsIn (used s.ctrler.send_buffer)
      → Sends s (sent_some v send (get_free_index s.ctrler.send_buffer) n (record s { world = w }))
  unfolding sent_some send_again
  sent_some-Sends n s w took h =
      branch_if (Sends s) (advance index n (b, s.freed)).1 (rest, finished) (send_again v send rest)
        (λ all. (same, kept, λ _. inr (no_slot all)))
        (λ part. let sends = send_again-Sends rest kept in (sends.0 ∙ same, sends.1, sends.2))
    where
      b : SendBuffer
      b = s.ctrler.send_buffer

      index : ℕ
      index = get_free_index b

      rest : Sending W
      rest = record s {
        ctrler = record s.ctrler { send_buffer = (advance index n (b, s.freed)).0.0 };
        world = w;
        freed = (advance index n (b, s.freed)).0.1;
      }

      kept : All IsIn (used rest.ctrler.send_buffer)
      kept = advance-All-IsIn n b s.freed h

      same : stream rest ≡ stream s
      same =
          ap₂ ◌++◌ took (advance_sends mem n b s.freed h).0
          ∙ append_assoc (k.out s.world) (take n (pending mem b)) (drop n (pending mem b))
          ∙ ap (λ l. k.out s.world ++ l) (take-drop n (pending mem b))

      no_slot : (advance index n (b, s.freed)).1 ≡ true → used rest.ctrler.send_buffer ≡ []
      no_slot all =
          nil_of_is_nil (used rest.ctrler.send_buffer)
            (sym (advance_sends mem n b s.freed h).1 ∙ all)

  interrupted-Sends :
      (s : Sending W) (w : W) (o : Option (Sending W × Next))
      → k.out w ≡ k.out s.world
      → Returns (record s { world = w }) o
      → Returns s o
  interrupted-Sends s w o same (r, e, (stream_same, kept, ends)) =
      (r, e, (stream_same ∙ ap (λ l. l ++ pending mem s.ctrler.send_buffer) same, kept, ends))

  -- One round of `send_label`, by what the system call returned.
  label_round :
      (s : Sending W) (w : W) (result : SysResult) (o : Option (Sending W × Next))
      → k.out w ≡ k.out s.world ++ take (accepted result) (pending mem s.ctrler.send_buffer)
      → All IsIn (used s.ctrler.send_buffer)
      → (is_interrupt result ≡ true → Returns (record s { world = w }) o)
      → Returns s (elim result [
        | done sent ↦
            some
              (sent_some v send (get_free_index s.ctrler.send_buffer) sent (record s { world = w }))
        | failed errno ↦ elim (errno == eintr) [
          | true ↦ o
          | false ↦ some (
              if (errno == eagain) || (errno == einprogress)
              then send_again v send (record s { world = w })
              else fail v send (close_connection v socket_send_error) (record s { world = w }))
        ]
      ])
  label_round s w (done sent) o took h goes_on = (_, refl, sent_some-Sends sent s w took h)
  label_round s w (failed errno) o took h goes_on =
      branch (Returns s) (errno == eintr) o _ (λ e. interrupted-Sends s w o same (goes_on e))
        (λ _. interrupted-Sends s w _ same (
          branch_if (λ r. Returns s' (some r)) ((errno == eagain) || (errno == einprogress))
            (send_again v send s') (fail v send (close_connection v socket_send_error) s')
            (λ _. (_, refl, send_again-Sends s' h))
            (λ _. (_, refl, fail-Sends socket_send_error s' (omega arith) h))))
    where
      s' : Sending W
      s' = record s { world = w }

      same : k.out w ≡ k.out s.world
      same = took ∙ append-nil (k.out s.world)

  send_label-Returns :
      (fuel : ℕ) (s : Sending W)
      → All IsIn (used s.ctrler.send_buffer)
      → k.patience s.world < fuel
      → Returns s (send_label v send fuel (get_free_index s.ctrler.send_buffer) s)
  unfolding send_label
  send_label-Returns zero s h lt = absurd (omega arith)
  send_label-Returns (suc fuel) s h lt =
      let (w, result) = send s.world s.ctrler.send_buffer (get_free_index s.ctrler.send_buffer) in
      label_round s w result
        (send_label v send fuel (get_free_index s.ctrler.send_buffer) (record s { world = w }))
        (k.takes s.world s.ctrler.send_buffer) h
        (λ e.
          send_label-Returns fuel (record s { world = w }) h
            (omega (arith, k.patient s.world s.ctrler.send_buffer e)))

  send_rest-Returns :
      (fuel : ℕ) (s : Sending W)
      → All IsIn (used s.ctrler.send_buffer)
      → k.patience s.world < fuel
      → Returns s (send_rest v send fuel s)
  unfolding send_rest
  send_rest-Returns fuel s h lt =
      branch (Returns s) (get_free_index s.ctrler.send_buffer == 0) (some (s, finished)) _
        (λ e. (
          _,
          refl,
          (refl, h, λ _. inr (used_of_free_index s.ctrler.send_buffer ((==_iff _ 0).0 e))),
        ))
        (λ _. send_label-Returns fuel s h lt)

  -- The state after the parent's timeout has been taken.
  timed : Sending W → Sending W
  timed s = let (c, w) = take_timeout v (s.ctrler, s.world) in record s { ctrler = c; world = w }

  timed_lem :
      (s : Sending W)
      → ((timed s).ctrler.send_buffer ≡ s.ctrler.send_buffer)
        × (k.out (timed s).world ≡ k.out s.world)
        × (k.patience (timed s).world ≡ k.patience s.world)
  unfolding timed take_timeout
  timed_lem s =
      branch_if
        (λ (r : Ctrler × W).
          (r.0.send_buffer ≡ s.ctrler.send_buffer)
          × (k.out r.1 ≡ k.out s.world)
          × (k.patience r.1 ≡ k.patience s.world))
        (s.ctrler.timeout == 0) (s.ctrler, s.world)
        (record s.ctrler { timeout = 0 }, v.set_timeout s.ctrler.timeout s.world)
        (λ _. (refl, refl, refl))
        (λ _. (refl, k.set_timeout_keeps _ s.world, k.patience_keeps _ s.world))

  -- A call of `try_send` returns, if the fuel is more than the signals that may interrupt the system
  -- call; what the kernel has taken, followed by what is still to be sent, is as it was, so no byte is
  -- lost, sent twice or sent out of order, on any path, errors included; and it finishes only with an
  -- error or with nothing left to be sent.
  pub try_send_streams :
      (fuel : ℕ) (s : Sending W)
      → All IsIn (used s.ctrler.send_buffer)
      → k.patience s.world < fuel
      → (r : Sending W × Next) × (try_send v send fuel s ≡ some r) × Sends s r
  unfolding try_send timed
  try_send_streams fuel s h lt =
      branch (Returns s) (is_connected v s.world) connected
        (some (fail v send (set_errno v socket_state_error) s))
        (λ _.
          branch (Returns s) (has send_stop_events (v.poll_result s.world))
            (some (closing socket_remote_canceled)) open_yet
            (λ _. (_, refl, fail-Sends socket_remote_canceled s (omega arith) h))
            (λ _.
              branch (Returns s) (v.is_timeout_or_stopped s.world)
                (some (closing socket_operation_timeout)) in_time
                (λ _. (_, refl, fail-Sends socket_operation_timeout s (omega arith) h))
                (λ _.
                  branch (Returns s) (waits_to_send v send s.world) (some (s, again)) rest
                    (λ _. (_, refl, (refl, h, λ e. cc))) (λ _. rest_returns))))
        (λ _. (_, refl, state_error))
    where
      closing : ℕ → Sending W × Next
      closing err = fail v send (close_connection v err) s

      rest : Option (Sending W × Next)
      rest = send_rest v send fuel (timed s)

      in_time : Option (Sending W × Next)
      in_time = elim (waits_to_send v send s.world) [ true ↦ some (s, again) | false ↦ rest ]

      open_yet : Option (Sending W × Next)
      open_yet = elim (v.is_timeout_or_stopped s.world) [
        | true ↦ some (closing socket_operation_timeout)
        | false ↦ in_time
      ]

      connected : Option (Sending W × Next)
      connected = elim (has send_stop_events (v.poll_result s.world)) [
        | true ↦ some (closing socket_remote_canceled)
        | false ↦ open_yet
      ]

      state_error : Sends s (fail v send (set_errno v socket_state_error) s)
      state_error =
          unfold set_errno in
          (
            ap (λ o. o ++ pending mem s.ctrler.send_buffer) (k.clear_keeps s.world),
            h,
            λ _. inl (omega arith),
          )

      rest_returns : Returns s rest
      rest_returns =
          let (buffer, out, patience) = timed_lem s in
          let (r, e, (stream_same, kept, ends)) =
            send_rest-Returns fuel (timed s) (rw buffer h) (rw patience lt) in
          (r, e, (stream_same ∙ ap₂ ◌++◌ out (ap (pending mem) buffer), kept, ends))

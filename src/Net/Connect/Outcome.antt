-- ===== src/Net/Connect/Outcome.antt =====
-- What a call of `try_connect` leaves behind.
use cort_proto.Prelude.{
  ℕ, zero, suc, ◌^◌, ◌<◌, ◌≡◌, ◌≢◌, ◌⊎◌, inl, inr, refl, ◌∙◌, arith, Bool, true, false, ◌||◌,
  Option, some, if◌then◌else◌, ltb, ◌==◌, branch, branch_if, Bool-cases, ==_iff,
}
use cort_proto.Net.{socket_create_error, has, epollout}
use cort_proto.Net.Connection.{
  FileWaiter, Ctrler, SysResult, done, failed, is_connected, set_errno, close_connection,
  take_timeout, minus_one,
}
use cort_proto.Net.Send.{eintr, einprogress}
use cort_proto.Net.Connect.{
  Sys, SockOpt, SockOptArg, Phase, returned, State, give_up, refresh_socket_option, connect_failed,
  connect_later, connect_again, with_socket, open_socket, try_connect, connect_resumed, eisconn,
  connect_reject_events, tcp_nodelay, so_linger,
}

abbrev pub is_interrupt : SysResult → Bool
is_interrupt (done n) = false
is_interrupt (failed e) = e == eintr

-- What is documented of the system calls: a file that is opened has an `int` that is not negative for its
-- number; signals do not interrupt `connect` for ever; nothing but the
-- waiter changes which file it waits on.
pub record Documented {W : Type 0} (v : FileWaiter W) (sys : Sys W) : Type 0 where
  pub patience : W → ℕ
  pub opens : (w : W) (fd : ℕ) → (sys.socket w).1 ≡ done fd → fd < 2 ^ 31
  pub patient :
      (fd ip port : ℕ) (w : W)
      → is_interrupt (sys.connect fd ip port w).1 ≡ true
      → patience (sys.connect fd ip port w).0 < patience w
  pub patience_socket : (w : W) → patience (sys.socket w).0 ≡ patience w
  pub patience_nonblocking : (fd : ℕ) (w : W) → patience (sys.set_nonblocking fd w).0 ≡ patience w
  pub patience_timeout : (n : ℕ) (w : W) → patience (v.set_timeout n w) ≡ patience w
  pub option_keeps :
      (o : SockOpt) (fd : ℕ) (w : W) → v.cort_fd (sys.set_option o fd w) ≡ v.cort_fd w

module _ {W : Type 0} (v : FileWaiter W) (sys : Sys W) (d : Documented v sys) where
  -- The waiter has a file.
  abbrev pub HasFile : W → Type 0
  HasFile w = (is_connected v w ≡ true) ⊎ (v.cort_fd w ≡ 0)

  -- An end of the call: it has set an error, or the waiter has the file.
  abbrev pub Ends : State v sys × Phase → Type 0
  Ends r = (r.0.0.errnum ≢ 0) ⊎ (is_connected v r.0.1 ≡ true) ⊎ (v.cort_fd r.0.1 ≡ 0)

  abbrev pub Returns : Option (State v sys × Phase) → Type 0
  Returns o = (r : State v sys × Phase) × (o ≡ some r) × Ends r

  HasFile-of_fd : (w : W) (fd : ℕ) → v.cort_fd w ≡ fd → fd < 2 ^ 31 → HasFile w
  unfolding is_connected
  HasFile-of_fd w fd e small = elim (Bool-cases (fd == 0)) [
    | inl z ↦ inr (e ∙ (==_iff fd 0).0 z)
    | inr n ↦ inl (rw e (ground arith))
  ]

  cort_fd-refresh :
      (arg : SockOptArg) (w : W) → v.cort_fd (refresh_socket_option v sys arg w) ≡ v.cort_fd w
  unfolding refresh_socket_option
  cort_fd-refresh arg w =
      branch_if Same (is_connected v w) _ w
        (λ _.
          branch_if Same (arg.enable_reuse_address == 0) _ _ (λ _. lingers)
            (λ _. d.option_keeps _ _ _ ∙ lingers))
        (λ _. refl)
    where
      Same : W → Type 0
      Same w' = v.cort_fd w' ≡ v.cort_fd w

      delay : W
      delay = if arg.disable_no_delay == 0 then sys.set_option tcp_nodelay (v.cort_fd w) w else w

      delays : Same delay
      delays =
          branch_if Same (arg.disable_no_delay == 0) (sys.set_option tcp_nodelay (v.cort_fd w) w) w
            (λ _. d.option_keeps _ _ _) (λ _. refl)

      flag : ℕ
      flag = arg.enable_close_by_reset

      lingering : W
      lingering = sys.set_option (so_linger (if flag == 1 then 0 else flag)) (v.cort_fd w) delay

      lingers : Same (if ltb 0 flag then lingering else delay)
      lingers =
          branch_if Same (ltb 0 flag) lingering delay (λ _. d.option_keeps _ _ _ ∙ delays)
            (λ _. delays)

  module _ (arg : SockOptArg) (sockfd : ℕ) (small : sockfd < 2 ^ 31) where
    set-HasFile : (w : W) → HasFile (v.set_cort_fd sockfd w)
    set-HasFile w = HasFile-of_fd (v.set_cort_fd sockfd w) sockfd (v.cort_fd-set sockfd w) small

    after_connect :
        (c : Ctrler) (w : W) (status : SysResult) (o : Option (State v sys × Phase))
        → (is_interrupt status ≡ true → Returns o)
        → Returns (elim status [
          | done n ↦ some ((c, refresh_socket_option v sys arg (v.set_cort_fd sockfd w)), returned)
          | failed errno ↦ elim (errno == eintr) [
            | true ↦ o
            | false ↦ some (
                if errno == eisconn
                then ((c, v.set_cort_fd sockfd w), returned)
                else (if errno == einprogress
                    then connect_later v sys sockfd (c, w)
                    else connect_failed v sys sockfd errno (c, w)))
          ]
        ])
    unfolding connect_later connect_failed set_errno
    after_connect c w (done n) o goes_on = (
      _,
      refl,
      inr (
          HasFile-of_fd _ sockfd
            (cort_fd-refresh arg (v.set_cort_fd sockfd w) ∙ v.cort_fd-set sockfd w) small),
    )
    after_connect c w (failed errno) o goes_on = branch Returns (errno == eintr) o _ goes_on (λ _.
        branch_if (λ r. Returns (some r)) (errno == eisconn) _ _
          (λ _. (_, refl, inr (set-HasFile w)))
          (λ _.
            branch_if (λ r. Returns (some r)) (errno == einprogress)
              (connect_later v sys sockfd (c, w)) (connect_failed v sys sockfd errno (c, w))
              (λ _. (
                _,
                refl,
                inr (HasFile-of_fd _ sockfd (v.cort_fd-request _ _ ∙ v.cort_fd-set sockfd w) small),
              ))
              (λ _. (_, refl, inl (omega arith)))))

    connect_again-Returns :
        (fuel : ℕ) (c : Ctrler) (w : W)
        → d.patience w < fuel
        → Returns (connect_again v sys fuel arg sockfd (c, w))
    unfolding connect_again
    connect_again-Returns zero c w h = absurd (omega arith)
    connect_again-Returns (suc fuel) c w h =
        let (w', status) = sys.connect sockfd c.ip_v4 c.port_v4 w in
        after_connect c w' status (connect_again v sys fuel arg sockfd (c, w')) (λ e.
          connect_again-Returns fuel c w' (omega (arith, d.patient sockfd c.ip_v4 c.port_v4 w e)))

    with_socket-Returns :
        (fuel : ℕ) (c : Ctrler) (w : W)
        → d.patience w < fuel
        → Returns (with_socket v sys fuel arg sockfd (c, w))
    unfolding with_socket set_errno
    with_socket-Returns fuel c w h =
        let (w', nonblocking) = sys.set_nonblocking sockfd w in
        branch Returns nonblocking (connect_again v sys fuel arg sockfd (c, w')) _
          (λ _. connect_again-Returns fuel c w' (omega (arith, d.patience_nonblocking sockfd w)))
          (λ _. (_, refl, inl (omega arith)))

  opened :
      (fuel : ℕ) (arg : SockOptArg) (c : Ctrler) (w : W) (result : SysResult)
      → ((fd : ℕ) → result ≡ done fd → fd < 2 ^ 31)
      → d.patience w < fuel
      → Returns (elim result [
        | failed errno ↦ some (give_up v sys socket_create_error (c, w))
        | done sockfd ↦ with_socket v sys fuel arg sockfd (c, w)
      ])
  unfolding set_errno
  opened fuel arg c w (done fd) opens h = with_socket-Returns arg fd (opens fd refl) fuel c w h
  opened fuel arg c w (failed errno) opens h = (_, refl, inl (omega arith))

  open_socket-Returns :
      (fuel : ℕ) (arg : SockOptArg) (c : Ctrler) (w : W)
      → d.patience w < fuel
      → Returns (open_socket v sys fuel arg (c, w))
  unfolding open_socket
  open_socket-Returns fuel arg c w h =
      let (w', result) = sys.socket w in
      opened fuel arg c w' result (d.opens w) (omega (arith, d.patience_socket w))

  -- `try_connect` returns, if the fuel is more than the signals that may interrupt `connect`, and on
  -- every path an error is set, or the waiter has a file that counts as connected, or it has the file 0,
  -- which does not: whether it was connected before, is connected at once, or waits for the connection to
  -- be made.
  pub try_connect_returns :
      (fuel : ℕ) (arg : SockOptArg) (c : Ctrler) (w : W)
      → d.patience w < fuel
      → (r : State v sys × Phase) × (try_connect v sys fuel arg (c, w) ≡ some r)
        × ((r.0.0.errnum ≢ 0) ⊎ (is_connected v r.0.1 ≡ true) ⊎ (v.cort_fd r.0.1 ≡ 0))
  unfolding try_connect set_errno take_timeout
  try_connect_returns fuel arg c w h =
      branch Returns (is_connected v w) (some ((c, w), returned)) _ (λ e. (_, refl, inr (inl e)))
        (λ _.
          branch Returns ((c.ip_v4 == 0) || (c.port_v4 == 0)) _
            (open_socket v sys fuel arg (take_timeout v (c, w))) (λ _. (_, refl, inl (omega arith)))
            (λ _.
              branch_if (λ (s : State v sys). Returns (open_socket v sys fuel arg s))
                (c.timeout == 0) (c, w) (record c { timeout = 0 }, v.set_timeout c.timeout w)
                (λ _. open_socket-Returns fuel arg c w h)
                (λ _.
                  open_socket-Returns fuel arg _ _
                    (omega (arith, d.patience_timeout c.timeout w)))))

  -- The second half ends the same way: an error is set and the waiter has no file, or the waiter has
  -- the file that it had, the error is as it was, and the connection was reported to be writable, in
  -- time and with no sign that it was rejected.
  pub connect_resumed_lem :
      (arg : SockOptArg) (c : Ctrler) (w : W)
      → let (c', w') = connect_resumed v sys arg (c, w) in
        ((c'.errnum ≢ 0) × (v.cort_fd w' ≡ minus_one))
        ⊎ (c' ≡ c)
          × (v.cort_fd w' ≡ v.cort_fd w)
          × (v.is_timeout_or_stopped w ≡ false)
          × (has connect_reject_events (v.poll_result w) ≡ false)
          × (has epollout (v.poll_result w) ≡ true)
  unfolding connect_resumed close_connection set_errno
  connect_resumed_lem arg c w =
      branch_if Resumed (v.is_timeout_or_stopped w) _ _ (λ _. inl (omega arith, no_file))
        (λ in_time.
          branch_if Resumed (has connect_reject_events (v.poll_result w)) _ _
            (λ _. inl (omega arith, no_file))
            (λ accepted.
              branch_if Resumed (has epollout (v.poll_result w)) _ _
                (λ writable. inr (refl, cort_fd-refresh arg w, in_time, accepted, writable))
                (λ _. inl (omega arith, no_file))))
    where
      Resumed : State v sys → Type 0
      Resumed (c', w') =
          ((c'.errnum ≢ 0) × (v.cort_fd w' ≡ minus_one))
          ⊎ (c' ≡ c)
            × (v.cort_fd w' ≡ v.cort_fd w)
            × (v.is_timeout_or_stopped w ≡ false)
            × (has connect_reject_events (v.poll_result w) ≡ false)
            × (has epollout (v.poll_result w) ≡ true)

      no_file : v.cort_fd (v.clear_timeout (v.close_cort_fd w)) ≡ minus_one
      no_file = v.cort_fd-clear_timeout (v.close_cort_fd w) ∙ v.cort_fd-close w

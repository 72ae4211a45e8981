-- ===== src/Stackful/Hook/Io/Blocking.antt =====
-- A replaced system call blocks its coroutine, and returns.
use cort_proto.Prelude.{
  ℕ, zero, suc, ◌≤◌, ◌<◌, ◌≡◌, ◌⊎◌, inl, inr, refl, sym, ◌∙◌, arith, Bool, true, false, not, ◌&&◌,
  Option, some, if◌then◌else◌, ◌==◌, branch_if,
}
use cort_proto.Net.Send.{eintr, eagain}
use cort_proto.Net.Connection.{SysResult, done, failed, minus_one}
use cort_proto.Stackful.FdTable.{FdInfo, FdTable}
use cort_proto.Stackful.Hook.{HookWaiter, set_new_timeout, clear_new_timeout, wait_events, hooked}
use cort_proto.Stackful.Hook.Io.{Turn, stop, next, block, turn, io_loop, io_hook}

abbrev pub is_interrupt : SysResult → Bool
is_interrupt (done n) = false
is_interrupt (failed e) = e == eintr

abbrev pub would_block : SysResult → Bool
would_block (done n) = false
would_block (failed e) = e == eagain

-- What the kernel and the rest of the program do. A call that has been interrupted uses up some
-- patience; a call that would block does not, but a wait for the file does, unless it ends because the
-- time is up or the coroutine is stopped: so the interruptions are finite in number, and so are the times
-- that the file is told to be ready. Nothing gives patience back, and a call leaves the file that is
-- waited for.
pub record Documented {W : Type 0} (h : HookWaiter W) (io_operation : W → W × SysResult)
    : Type 0 where
  pub patience : W → ℕ
  pub interrupted :
      (w : W) → is_interrupt (io_operation w).1 ≡ true → patience (io_operation w).0 < patience w
  pub patience_call : (w : W) → patience (io_operation w).0 ≤ patience w
  pub waited :
      (fd events : ℕ) (w : W)
      → let w' = h.remove_cort_fd (wait_events h fd events w) in
        (h.file.is_timeout_or_stopped w' ≡ true) ⊎ (patience w' < patience w)
  pub patience_set : (t : ℕ) (w : W) → patience (h.file.set_timeout t w) ≤ patience w
  pub patience_clear : (w : W) → patience (h.file.clear_timeout w) ≤ patience w
  pub keeps_file : (w : W) → h.file.cort_fd (io_operation w).0 ≡ h.file.cort_fd w

module _ {W : Type 0} (h : HookWaiter W) (io_operation : W → W × SysResult)
    (d : Documented h io_operation) where
  -- How a call of the hook ends: no interruption is told, EAGAIN is told only where the time is up or
  -- the coroutine has been stopped, and no file is waited for.
  abbrev pub Blocked : W × SysResult → Type 0
  Blocked (w, r) =
      (is_interrupt r ≡ false)
      × (would_block r ≡ true → h.file.is_timeout_or_stopped w ≡ true)
      × (h.file.cort_fd w ≡ minus_one)

  abbrev TurnOk : ℕ → Turn W → Type 0
  TurnOk p (stop w r) = Blocked (w, r)
  TurnOk p (next w) = (d.patience w < p) × (h.file.cort_fd w ≡ minus_one)

  set_new_timeout-patience :
      (b : Bool) (t : ℕ) (w : W) → d.patience (set_new_timeout h b t w).0 ≤ d.patience w
  unfolding set_new_timeout
  set_new_timeout-patience b t w =
      branch_if (λ (r : W × Bool). d.patience r.0 ≤ d.patience w) (b && not (h.is_set_timeout w))
        (h.file.set_timeout t w, true) (w, false) (λ _. d.patience_set t w) (λ _. omega arith)

  clear_new_timeout_lem :
      (b : Bool) (w : W)
      → (d.patience (clear_new_timeout h b w) ≤ d.patience w)
        × (h.file.cort_fd (clear_new_timeout h b w) ≡ h.file.cort_fd w)
  unfolding clear_new_timeout
  clear_new_timeout_lem true w = (d.patience_clear w, h.file.cort_fd-clear_timeout w)
  clear_new_timeout_lem false w = (omega arith, refl)

  block-TurnOk :
      (p fd event timeout : ℕ) (w : W)
      → d.patience w ≤ p
      → h.file.cort_fd w ≡ minus_one
      → TurnOk p (block h fd event timeout w)
  unfolding block
  block-TurnOk p fd event timeout w less closed =
      branch_if (TurnOk p) (h.file.is_timeout_or_stopped w) _ _ (λ e. (refl, λ _. e, closed))
        (λ _.
          branch_if (TurnOk p) (h.file.is_timeout_or_stopped w2) _ _
            (λ e. (refl, λ _. e, h.cort_fd-remove _))
            (λ in_time.
              let (waits, keeps) = clear_new_timeout_lem (set_new_timeout h _ _ w).1 w2 in
              (
                omega (
                  arith,
                  waits,
                  used_up in_time,
                  set_new_timeout-patience (not (timeout == 0)) timeout w,
                ),
                keeps ∙ h.cort_fd-remove _,
              )))
    where
      w1 : W
      w1 = (set_new_timeout h (not (timeout == 0)) timeout w).0

      w2 : W
      w2 = h.remove_cort_fd (wait_events h fd event w1)

      used_up : h.file.is_timeout_or_stopped w2 ≡ false → d.patience w2 < d.patience w1
      used_up in_time = elim (d.waited fd event w1) [
        | inl up ↦ absurd (let e : true ≡ false = sym up ∙ in_time in cc)
        | inr less ↦ less
      ]

  turn_by_result :
      (p fd event timeout : ℕ) (w : W) (r : SysResult)
      → d.patience w ≤ p
      → (is_interrupt r ≡ true → d.patience w < p)
      → h.file.cort_fd w ≡ minus_one
      → TurnOk p (elim r [
        | done n ↦ stop w (done n)
        | failed errno ↦
            (if errno == eagain
              then block h fd event timeout w
              else (if errno == eintr then next w else stop w (failed errno)))
      ])
  turn_by_result p fd event timeout w (done n) le less closed = (refl, λ e. cc, closed)
  turn_by_result p fd event timeout w (failed errno) le less closed =
      branch_if (TurnOk p) (errno == eagain) _ _ (λ e. block-TurnOk p fd event timeout w le closed)
        (λ ne.
          branch_if (TurnOk p) (errno == eintr) _ _ (λ e. (less e, closed))
            (λ n. (n, λ e. cc, closed)))

  io_loop_returns :
      (fuel fd event timeout : ℕ) (w : W)
      → d.patience w < fuel
      → h.file.cort_fd w ≡ minus_one
      → (r : W × SysResult) × (io_loop h io_operation fuel fd event timeout w ≡ some r) × Blocked r
  unfolding io_loop turn
  io_loop_returns zero fd event timeout w less closed = absurd (omega arith)
  io_loop_returns (suc fuel) fd event timeout w less closed =
      by_turn (turn h io_operation fd event timeout w)
        (turn_by_result (d.patience w) fd event timeout (io_operation w).0 (io_operation w).1
          (d.patience_call w) (d.interrupted w) (d.keeps_file w ∙ closed))
        (λ w' l. io_loop_returns fuel fd event timeout w' (omega arith))
    where
      by_turn :
          (x : Turn W)
          → TurnOk (d.patience w) x
          → ((w' : W)
              → d.patience w' < d.patience w
              → h.file.cort_fd w' ≡ minus_one
              → (r : W × SysResult) × (io_loop h io_operation fuel fd event timeout w' ≡ some r)
                × Blocked r)
          → (r : W × SysResult) × (elim x [
            | stop w' result ↦ some (w', result)
            | next w' ↦ io_loop h io_operation fuel fd event timeout w'
          ]
              ≡ some r)
            × Blocked r
      by_turn (stop w' r) k rest = ((w', r), refl, k)
      by_turn (next w') (l, k) rest = rest w' l k

  -- With more fuel than patience, that is than interruptions and times that the file is told to be ready, a
  -- replaced system call of a file that the coroutine knows returns: it does not tell an interruption, it tells EAGAIN only where the time is up or the coroutine has been
  -- stopped, and it leaves the coroutine waiting for no file, as it was.
  pub io_hook_returns :
      (fuel fd event : ℕ) (whattimeout : FdInfo → ℕ) (waiter : Option FdTable) (info : FdInfo)
      (w : W)
      → hooked fd waiter ≡ some info
      → d.patience w < fuel
      → h.file.cort_fd w ≡ minus_one
      → (r : W × SysResult) × (io_hook h io_operation fuel fd event whattimeout waiter w ≡ some r)
        × Blocked r
  unfolding io_hook
  io_hook_returns fuel fd event whattimeout waiter info w known less closed =
      rw (io_hook, known) (io_loop_returns fuel fd event (whattimeout info) w less closed)

-- ===== src/Net/Listener/Accepting.antt =====
-- What becomes of the connections that a listener accepts.
use cort_proto.Prelude.{
  ℕ, zero, suc, ◌+◌, ◌<◌, ◌≤◌, ◌≡◌, refl, ◌∙◌, arith, Bool, true, false, ◌||◌, List, [], ◌∷◌,
  Option, some, if◌then◌else◌, ltb, ◌==◌, branch, branch_if,
}
use cort_proto.Net.Connection.{FileWaiter, SysResult, done, failed}
use cort_proto.Net.{epollin, epollout}
use cort_proto.Net.Send.{eintr}
use cort_proto.Net.Listener.{
  Listener, ListenOpt, ListenSys, State, Phase, tcp_nodelay, max_accept_one_loop, set_accepted,
  accept_some, hand_over, start_accept, pause_accept, has_no_room,
}

-- A result after which the listener goes on: a connection, or a signal.
abbrev pub goes_on : SysResult → Bool
goes_on (done fd) = true
goes_on (failed e) = (e == eintr) || (e == 0)

abbrev same_file : ℕ → ℕ → ℕ
same_file q fd = if fd == q then 1 else 0

-- A connection with the number `q` is accepted: a file that is not 0.
abbrev pub gives : ℕ → SysResult → ℕ
gives q (done fd) = if ltb 0 fd then (if fd == q then 1 else 0) else 0
gives q (failed e) = 0

abbrev pub times : ℕ → List ℕ → ℕ
times q [] = 0
times q (fd ∷ fds) = (if fd == q then 1 else 0) + times q fds

-- What the calls do to a record of them, which says how often `accept4` has given each number and how
-- often it was handed over to the program, and to what is left of the connections that wait and the
-- signals that may come.
pub record Handing {W : Type 0} (v : FileWaiter W) (sys : ListenSys W) (creator : ℕ → ℕ → W → W)
    : Type 0 where
  pub accepted : ℕ → W → ℕ
  pub handed : ℕ → W → ℕ
  pub patience : W → ℕ
  pub accepts :
      (q fd : ℕ) (w : W)
      → let (w', r) = sys.accept fd w in
        (accepted q w' ≡ accepted q w + gives q r) × (handed q w' ≡ handed q w)
  pub patient :
      (fd : ℕ) (w : W)
      → let (w', r) = sys.accept fd w in goes_on r ≡ true → patience w' < patience w
  pub creates :
      (q fd events : ℕ) (w : W)
      → (handed q (creator fd events w) ≡ handed q w + (if fd == q then 1 else 0))
        × (accepted q (creator fd events w) ≡ accepted q w)
  pub creates_keeps : (fd events : ℕ) (w : W) → patience (creator fd events w) ≡ patience w
  pub option_keeps :
      (o : ListenOpt) (fd q : ℕ) (w : W)
      → (accepted q (sys.set_option o fd w) ≡ accepted q w)
        × (handed q (sys.set_option o fd w) ≡ handed q w)
  pub option_patience :
      (o : ListenOpt) (fd : ℕ) (w : W) → patience (sys.set_option o fd w) ≡ patience w
  pub request_keeps :
      (r q : ℕ) (w : W)
      → (accepted q (v.set_poll_request r w) ≡ accepted q w)
        × (handed q (v.set_poll_request r w) ≡ handed q w)

module _ {W : Type 0} (v : FileWaiter W) (sys : ListenSys W) (creator : ℕ → ℕ → W → W)
    (d : Handing v sys creator) where
  -- Nothing that is recorded changes.
  abbrev Same : ℕ → W → W → Type 0
  Same q w w' =
      (d.accepted q w' ≡ d.accepted q w)
      × (d.handed q w' ≡ d.handed q w)
      × (d.patience w' ≡ d.patience w)

  option-Same : (o : ListenOpt) (fd q : ℕ) (w : W) → Same q w (sys.set_option o fd w)
  option-Same o fd q w =
      ((d.option_keeps o fd q w).0, (d.option_keeps o fd q w).1, d.option_patience o fd w)

  Same-trans : (q : ℕ) {a b c : W} → Same q a b → Same q b c → Same q a c
  Same-trans q f g = (g.0 ∙ f.0, g.1 ∙ f.1, g.2 ∙ f.2)

  set_accepted-Same : (l : Listener) (fd q : ℕ) (w : W) → Same q w (set_accepted v sys l fd w)
  unfolding set_accepted
  set_accepted-Same l fd q w =
      let delay =
        branch_if (Same q w) (l.disable_no_delay == 0) _ w (λ _. option-Same tcp_nodelay fd q w)
          (λ _. (refl, refl, refl)) in
      branch_if (Same q w) (ltb 0 l.enable_close_by_reset) _ _
        (λ _. Same-trans q delay (option-Same _ fd q _)) (λ _. delay)

  -- The first loop puts into its array what it accepts, and hands over nothing.
  abbrev Batch : List ℕ → ℕ → W → (W × List ℕ) × ℕ → Type 0
  Batch before left w ((w', accepted), errno) =
      ((q : ℕ)
        → (d.accepted q w' + times q before ≡ d.accepted q w + times q accepted)
          × (d.handed q w' ≡ d.handed q w))
      × (goes_on (failed errno) ≡ true
          → (d.patience w' ≤ d.patience w) × (0 < left → d.patience w' < d.patience w))

  accept_some-Batch :
      (left fd : ℕ) (l : Listener) (accepted : List ℕ) (w : W)
      → Batch accepted left w (accept_some v sys left fd l accepted w)
  unfolding accept_some
  accept_some-Batch zero fd l accepted w =
      (λ q. (refl, refl), λ _. (omega arith, λ lt. absurd (omega (arith, lt))))
  accept_some-Batch (suc left) fd l accepted w =
      by_result (sys.accept fd w).0 (sys.accept fd w).1 (λ q. d.accepts q fd w) (d.patient fd w)
        (λ a x. accept_some-Batch left fd l (a ∷ accepted) x)
    where
      by_result :
          (w' : W) (r : SysResult)
          → ((q : ℕ)
              → (d.accepted q w' ≡ d.accepted q w + gives q r) × (d.handed q w' ≡ d.handed q w))
          → (goes_on r ≡ true → d.patience w' < d.patience w)
          → ((a : ℕ) (x : W)
              → Batch (a ∷ accepted) left x (accept_some v sys left fd l (a ∷ accepted) x))
          → Batch accepted (suc left) w (elim r [
            | done a ↦ elim (ltb 0 a) [
              | true ↦ accept_some v sys left fd l (a ∷ accepted) (set_accepted v sys l a w')
              | false ↦ ((w', accepted), sys.errno w')
            ]
            | failed errno ↦ ((w', accepted), errno)
          ])
      by_result w' (done a) more less others =
          branch (Batch accepted (suc left) w) (ltb 0 a) _ _
            (λ e.
              let rest = others a (set_accepted v sys l a w') in
              let kept = set_accepted-Same l a 0 w' in
              (
                λ q.
                    let same = set_accepted-Same l a q w' in
                    let given : gives q (done a) ≡ same_file q a = rw e refl in
                    (
                      omega (arith, (rest.0 q).0, same.0, (more q).0, given),
                      (rest.0 q).1 ∙ same.1 ∙ (more q).1,
                    ),
                λ g.
                    let r = rest.1 g in
                    (
                      omega (arith, r.0, kept.2, less refl),
                      λ _. omega (arith, r.0, kept.2, less refl),
                    ),
              ))
            (λ e. (
              λ q.
                  let given : gives q (done a) ≡ 0 = rw e refl in
                  (omega (arith, (more q).0, given), (more q).1),
              λ g. (omega (arith, less refl), λ _. less refl),
            ))
      by_result w' (failed errno) more less others =
          (λ q. (omega (arith, (more q).0), (more q).1), λ g. (omega (arith, less g), λ _. less g))

  hand_over_lem :
      (l : Listener) (accepted : List ℕ) (w : W)
      → let w' = hand_over v sys creator l accepted w in
        ((q : ℕ)
          → (d.handed q w' ≡ d.handed q w + times q accepted) × (d.accepted q w' ≡ d.accepted q w))
        × (d.patience w' ≡ d.patience w)
  unfolding hand_over
  hand_over_lem l [] w = (λ q. (omega arith, refl), refl)
  hand_over_lem l (fd ∷ accepted) w =
      let events = if l.enable_accept_after_recv == 0 then 0 else epollin in
      let (rest, same) = hand_over_lem l accepted (creator fd events w) in
      (
        λ q.
            let made = d.creates q fd events w in
            (omega (arith, (rest q).0, made.0), (rest q).1 ∙ made.1),
        same ∙ d.creates_keeps fd events w,
      )

  -- Between two states, every number has been handed over as often as it has been accepted.
  abbrev pub HandsOver : W → W → Type 0
  HandsOver w w' = (q : ℕ) → d.handed q w' + d.accepted q w ≡ d.handed q w + d.accepted q w'

  -- A round of accepting that returns, with all that it has accepted handed over.
  abbrev pub Returns : W → Option (State v sys × Phase) → Type 0
  Returns w o = (r : State v sys × Phase) × (o ≡ some r) × HandsOver w r.0.1

  -- The listener stops accepting, if the fuel is more than the connections that wait and the signals that may
  -- come; and by then it has handed over to the program each file that it has accepted, as often as it was
  -- accepted: none is lost, none is handed over twice, and no other is. A file whose number is 0 counts as
  -- not accepted.
  pub start_accept_hands_over :
      (fuel : ℕ) (l : Listener) (w : W)
      → d.patience w < fuel
      → (r : State v sys × Phase) × (start_accept v sys creator fuel (l, w) ≡ some r)
        × ((q : ℕ) → d.handed q r.0.1 + d.accepted q w ≡ d.handed q w + d.accepted q r.0.1)
  unfolding start_accept pause_accept
  start_accept_hands_over zero l w lt = absurd (omega (arith, lt))
  start_accept_hands_over (suc fuel) l w lt =
      let ((w1, accepted), errno) = accept_some v sys max_accept_one_loop (v.cort_fd w) l [] w in
      let (batch, less) = accept_some-Batch max_accept_one_loop (v.cort_fd w) l [] w in
      let w2 = hand_over v sys creator l accepted w1 in
      let (handed, same) = hand_over_lem l accepted w1 in
      let round : HandsOver w w2 =
        λ q. omega (arith, (batch q).0, (batch q).1, (handed q).0, (handed q).1) in
      branch (Returns w) ((errno == eintr) || (errno == 0))
        (start_accept v sys creator fuel (l, w2)) _
        (λ e.
          let (r, runs, rest) =
            start_accept_hands_over fuel l w2 (omega (arith, lt, same, (less e).1 (omega arith))) in
          (r, runs, λ q. omega (arith, rest q, round q)))
        (λ _.
          branch_if (λ r. Returns w (some r)) (has_no_room errno) _ _
            (λ _. (
              _,
              refl,
              λ q.
                  let kept = d.request_keeps epollout q w2 in
                  omega (arith, kept.0, kept.1, round q),
            ))
            (λ _. (_, refl, round)))

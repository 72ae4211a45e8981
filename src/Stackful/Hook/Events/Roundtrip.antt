-- ===== src/Stackful/Hook/Events/Roundtrip.antt =====
-- The two conversions undo each other.
use cort_proto.Prelude.{ℕ, ◌≡◌, refl, Bool, true, false, ◌&&◌, ◌==◌, ==_iff, arith}
use mathlib.Core.Bool.{and-eq-true_iff}
use cort_proto.Net.{has}
use cort_proto.Stackful.Hook.Events.{
  pollin, pollout, pollerr, pollhup, pollrdnorm, pollwrnorm, or_if, get_epoll_event, get_poll_event,
}

-- The events with these of the six flags: of reading, writing, hanging up, an error, and the two of
-- normal data.
abbrev pub flags : Bool → Bool → Bool → Bool → Bool → Bool → ℕ
flags a b c d e f =
    or_if f pollwrnorm
      (or_if e pollrdnorm (or_if d pollerr (or_if c pollhup (or_if b pollout (or_if a pollin 0)))))

abbrev both : (Bool → Bool) → Bool
both p = p true && p false

both_lem : (p : Bool → Bool) → both p ≡ true → (b : Bool) → p b ≡ true
both_lem p h true = ground (arith, h)
both_lem p h false = ground (arith, h)

undone : Bool → Bool → Bool → Bool → Bool → Bool → Bool
unfolding get_epoll_event get_poll_event
undone a b c d e f =
    let x = flags a b c d e f in (get_poll_event x == x) && (get_epoll_event x == x)

undone_always :
    both (λ a. both (λ b. both (λ c. both (λ d. both (λ e. both (λ f. undone a b c d e f))))))
    ≡ true
unfolding undone
undone_always = refl

undone_lem :
    (a b c d e f : Bool)
    → (get_poll_event (flags a b c d e f) ≡ flags a b c d e f)
      × (get_epoll_event (flags a b c d e f) ≡ flags a b c d e f)
unfolding undone
undone_lem a b c d e f =
    let h1 =
      both_lem
        (λ x.
          both (λ b'. both (λ c'. both (λ d'. both (λ e'. both (λ f'. undone x b' c' d' e' f'))))))
        undone_always a in
    let h2 =
      both_lem (λ x. both (λ c'. both (λ d'. both (λ e'. both (λ f'. undone a x c' d' e' f'))))) h1
        b in
    let h3 = both_lem (λ x. both (λ d'. both (λ e'. both (λ f'. undone a b x d' e' f')))) h2 c in
    let h4 = both_lem (λ x. both (λ e'. both (λ f'. undone a b c x e' f'))) h3 d in
    let h5 = both_lem (λ x. both (λ f'. undone a b c d x f')) h4 e in
    let h6 = both_lem (λ x. undone a b c d e x) h5 f in
    let (p, q) = (and-eq-true_iff _ _).0 h6 in ((==_iff _ _).0 p, (==_iff _ _).0 q)

-- Those of the six events that `e` has.
abbrev pub events_of : ℕ → ℕ
events_of e =
    flags (has pollin e) (has pollout e) (has pollhup e) (has pollerr e) (has pollrdnorm e)
      (has pollwrnorm e)

-- Events of `poll` that are taken to those of epoll and back, or the other way round, are the same ones,
-- for the six that both know; no other event is left. So events among the six come back as they were.
pub get_poll_event-get_epoll_event :
    (e : ℕ)
    → (get_poll_event (get_epoll_event e) ≡ events_of e)
      × (get_epoll_event (get_poll_event e) ≡ events_of e)
unfolding get_epoll_event get_poll_event
get_poll_event-get_epoll_event e =
    undone_lem (has pollin e) (has pollout e) (has pollhup e) (has pollerr e) (has pollrdnorm e)
      (has pollwrnorm e)

-- ===== src/Channel/Serving.antt =====
-- Receivers are served in the order in which they came.
use cort_proto.Prelude.{
  ℕ, zero, suc, ◌≡◌, refl, Bool, true, false, leb, ◌==◌, branch_if, Bool-cases, inl, inr, List, [],
  ◌∷◌, take, drop,
}
use cort_proto.Util.PodQueue.{empty, front, contents}
use cort_proto.Util.PodQueue.Index.{IsValid}
use cort_proto.Util.PodQueue.Refine.{pop_lem, contents_of_empty, size_of_not_empty}
use cort_proto.Channel.{Channel, State, park_recver, park_sender, wake_recvers, after_push}

-- The coroutines are resumed one after the other.
pub served : {E : Type 0} → (ℕ → E → E) → List ℕ → E → E
served note [] env = env
served note (p ∷ ps) env = served note ps (note p env)

module _ {O E : Type 0} (size : O → ℕ) (note : ℕ → E → E) where
  -- A program whose coroutines do not use this channel when they are resumed.
  abbrev pub apart : ℕ → State O E → State O E
  apart p (ch, env) = (ch, note p env)

  wake_recvers_serves :
      (n : ℕ) (ch : Channel O) (env : E)
      → IsValid ch.recvers
      → (contents (wake_recvers size apart n (ch, env)).0.recvers ≡ drop n (contents ch.recvers))
        × ((wake_recvers size apart n (ch, env)).1 ≡ served note (take n (contents ch.recvers)) env)
  unfolding wake_recvers served
  wake_recvers_serves zero ch env v = (refl, refl)
  wake_recvers_serves (suc n) ch env v = elim (Bool-cases (empty ch.recvers)) [
    | inl e ↦
        let none_wait = contents_of_empty ch.recvers e in
        rw (e, wake_recvers, none_wait) (refl, refl)
    | inr e ↦
        let lem = pop_lem v (size_of_not_empty ch.recvers e) in
        rw (e, wake_recvers, lem.0) (wake_recvers_serves n _ (note (front ch.recvers) env) lem.1)
  ]

  -- `push` resumes the coroutines that wait to receive in the order in which they came, as many as
  -- there are new objects, and the others still wait, in order; for a program whose coroutines do not
  -- use the channel meanwhile.
  pub after_push_serves :
      (count : ℕ) (ch : Channel O) (env : E)
      → IsValid (park_recver ch).recvers
      → let waiting = contents (park_recver ch).recvers in
        (contents (after_push size apart count (ch, env)).0.0.recvers ≡ drop count waiting)
        × ((after_push size apart count (ch, env)).0.1 ≡ served note (take count waiting) env)
  unfolding after_push
  after_push_serves count ch env v =
      let s : State O E = wake_recvers size apart count (park_recver ch, env) in
      branch_if P (leb (size s.0.objects) s.0.buffer_size) (s, false) ((park_sender s.0, s.1), true)
        (λ _. wake_recvers_serves count (park_recver ch) env v)
        (λ _. rw (recvers-park_sender s.0) (wake_recvers_serves count (park_recver ch) env v))
    where
      P : State O E × Bool → Type 0
      P r =
          (contents r.0.0.recvers ≡ drop count (contents (park_recver ch).recvers))
          × (r.0.1 ≡ served note (take count (contents (park_recver ch).recvers)) env)

      recvers-park_sender : (c : Channel O) → (park_sender c).recvers ≡ c.recvers
      recvers-park_sender c =
          unfold park_sender in
          branch_if (λ (d : Channel O). d.recvers ≡ c.recvers) (c.sender_parent == 0) c _
            (λ _. refl) (λ _. refl)

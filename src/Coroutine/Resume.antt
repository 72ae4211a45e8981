-- ===== src/Coroutine/Resume.antt =====
-- Termination of `resume`.
use cort_proto.Prelude.{
  ℕ, zero, suc, ◌<◌, ◌≡◌, ◌≢◌, refl, arith, Bool, true, false, ◌==◌, ==_iff, Bool-cases, inl, inr,
  Option, some, update,
}
use cort_proto.Coroutine.{Cort, World, Step, resume, invoke, set_last_resumer, decr_wait_count}

-- A write that keeps the parent of the object keeps the parents of all.
pub parent-update :
    (mem : ℕ → Cort) (p : ℕ) (c : Cort) (q : ℕ)
    → c.cort_parent ≡ (mem p).cort_parent
    → (update mem p c q).cort_parent ≡ (mem q).cort_parent
parent-update mem p c q e = elim (Bool-cases (p == q)) [
  | inl same ↦ rw same (let eq = (==_iff p q).0 same in rw (← eq) e)
  | inr other ↦ rw other
]

module _ {E : Type 0} (rank : ℕ → ℕ) where
  -- Nobody waits for itself, directly or through others: the rank falls from a coroutine to the one
  -- that waits for it.
  abbrev pub Ranked : World E → Type 0
  Ranked w = (c : ℕ) → (w.cort c).cort_parent ≢ 0 → rank (w.cort c).cort_parent < rank c

  Ranked-modify :
      (w : World E) (p : ℕ) (c : Cort)
      → c.cort_parent ≡ (w.cort p).cort_parent
      → Ranked w
      → Ranked (record w { cort = update w.cort p c })
  Ranked-modify w p c e r q = rw (parent-update w.cort p c q e) (r q)

  abbrev Returns : Option (World E) → Type 0
  Returns o = (w' : World E) × (o ≡ some w') × Ranked w'

  Returns-branch :
      (b : Bool) {x y : Option (World E)}
      → (b ≡ false → Returns x)
      → (b ≡ true → Returns y)
      → Returns (elim b [ false ↦ x | true ↦ y ])
  Returns-branch true f g = g refl
  Returns-branch false f g = f refl

  invoke-Ranked :
      (call : ℕ → ℕ → Step E)
      → ((f c : ℕ) (w : World E) → Ranked w → Ranked (call f c w).0)
      → (f that : ℕ) (w : World E) → Ranked w
      → Ranked (invoke call f that w).0
  unfolding invoke
  invoke-Ranked call keeps f that w r = elim (Bool-cases (f == 0)) [
    | inl e ↦ rw (e) r
    | inr e ↦ rw (e) (keeps f that w r)
  ]

  -- If every callback keeps the parents in the order of some rank, `resume` returns, with the parents
  -- in that order: one round more than the rank of the coroutine is enough.
  pub resume_returns :
      (call : ℕ → ℕ → Step E)
      → ((f c : ℕ) (w : World E) → Ranked w → Ranked (call f c w).0)
      → (fuel that last_resumer : ℕ) (w : World E) → Ranked w
      → rank that < fuel
      → (w' : World E) × (resume call fuel that last_resumer w ≡ some w') × Ranked w'
  unfolding resume
  resume_returns call keeps zero that last_resumer w r h = absurd (omega arith)
  resume_returns call keeps (suc fuel) that last_resumer w r h =
      Returns-branch finished {x = some w'} {y = climbing} (λ _. (w', refl, r'))
        (λ _.
          Returns-branch (parent == 0) {x = counting} {y = some w'}
            (λ awaited.
              Returns-branch ready {x = some w''} {y = upwards} (λ _. (w'', refl, r''))
                (λ _. resume_returns call keeps fuel parent that w'' r'' (below awaited)))
            (λ _. (w', refl, r')))
    where
      parent : ℕ
      parent = (w.cort that).cort_parent

      marked : World E
      marked = set_last_resumer that last_resumer w

      marked-Ranked : Ranked marked
      marked-Ranked = unfold set_last_resumer in Ranked-modify w that _ refl r

      w' : World E
      w' = (invoke call (w.cort that).data0 that marked).0

      r' : Ranked w'
      r' = invoke-Ranked call keeps (w.cort that).data0 that marked marked-Ranked

      w'' : World E
      w'' = decr_wait_count parent 1 w'

      r'' : Ranked w''
      r'' = unfold decr_wait_count in Ranked-modify w' parent _ refl r'

      finished : Bool
      finished = (invoke call (w.cort that).data0 that marked).1 == 0

      ready : Bool
      ready = (w''.cort parent).cort_wait_count == 0

      upwards : Option (World E)
      upwards = resume call fuel parent that w''

      counting : Option (World E)
      counting = elim ready [ false ↦ some w'' | true ↦ upwards ]

      climbing : Option (World E)
      climbing = elim (parent == 0) [ false ↦ counting | true ↦ some w' ]

      below : (parent == 0) ≡ false → rank parent < fuel
      below e = omega (arith, r that (λ z. ground arith))

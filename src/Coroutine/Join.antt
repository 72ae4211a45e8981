-- ===== src/Coroutine/Join.antt =====
-- Waiting for several coroutines: the one that waits is resumed when the last of them finishes.
use mathlib.Core.Path.{subst}
use cort_proto.Prelude.{
  ℕ, suc, ◌^◌, ◌<◌, ◌≡◌, ◌≢◌, sym, ap, ◌∙◌, arith, Bool, true, false, ◌==◌, ==_iff, List, [], ◌∷◌,
  Option, some, none, update_self, update_ne, length,
}
use cort_proto.Prelude.Words.{sub64}
use cort_proto.Coroutine.{Cort, World, Step, resume, invoke, set_last_resumer, decr_wait_count}

module _ {E : Type 0} (call : ℕ → ℕ → Step E) where
  -- A callback that finishes its coroutine at once, and leaves the members of the other coroutines as
  -- they are (a null one does).
  abbrev pub Finishes : ℕ → Type 0
  Finishes f =
      (c : ℕ) (w : World E)
      → ((q : ℕ) → c ≢ q → (invoke call f c w).0.cort q ≡ w.cort q) × ((invoke call f c w).1 ≡ 0)

  abbrev pub Absent : ℕ → List ℕ → Type 0
  Absent c [] = Unit
  Absent c (d ∷ ds) = (c ≢ d) × Absent c ds

  -- Different coroutines that `p` waits for, each with a callback that finishes.
  abbrev pub Children : World E → ℕ → List ℕ → Type 0
  Children w p [] = Unit
  Children w p (c ∷ cs) =
      ((w.cort c).cort_parent ≡ p)
      × (c ≢ p)
      × Finishes (w.cort c).data0
      × Absent c cs
      × Children w p cs

  -- The coroutines `c ∷ cs` are resumed from outside, one after the other.
  pub finish_all : ℕ → ℕ → List ℕ → World E → Option (World E)
  finish_all fuel c [] w = resume call fuel c 0 w
  finish_all fuel c (d ∷ ds) w = elim (resume call fuel c 0 w) [
    | none ↦ none
    | some w' ↦ finish_all fuel d ds w'
  ]

  pub last_of : ℕ → List ℕ → ℕ
  last_of c [] = c
  last_of c (d ∷ ds) = last_of d ds

  -- The world after the callback of `c`, and after its parent `p` has been told.
  ran : World E → ℕ → World E
  ran w c = (invoke call (w.cort c).data0 c (set_last_resumer c 0 w)).0

  told : World E → ℕ → ℕ → World E
  told w c p = decr_wait_count p 1 (ran w c)

  abbrev Round : ℕ → ℕ → World E → ℕ → Type 0
  Round fuel c w p =
      resume call (suc fuel) c 0 w ≡ elim (((told w c p).cort p).cort_wait_count == 0) [
        | true ↦ resume call fuel p c (told w c p)
        | false ↦ some (told w c p)
      ]

  resume_child :
      (fuel c : ℕ) (w : World E)
      → (w.cort c).cort_parent ≢ 0
      → Finishes (w.cort c).data0
      → Round fuel c w (w.cort c).cort_parent
  unfolding resume ran told
  resume_child fuel c w ne f =
      let done : ((invoke call (w.cort c).data0 c (set_last_resumer c 0 w)).1 == 0) ≡ true =
        (==_iff _ 0).1 (f c (set_last_resumer c 0 w)).1 in
      let waits : ((w.cort c).cort_parent == 0) ≡ false = ground arith in rw (resume, done, waits)

  ran-cort :
      (w : World E) (c q : ℕ) → Finishes (w.cort c).data0 → c ≢ q → (ran w c).cort q ≡ w.cort q
  unfolding ran set_last_resumer
  ran-cort w c q f ne = (f c (set_last_resumer c 0 w)).0 q ne ∙ update_ne w.cort _ ne

  told-other :
      (w : World E) (c p q : ℕ)
      → Finishes (w.cort c).data0
      → c ≢ q
      → p ≢ q
      → (told w c p).cort q ≡ w.cort q
  unfolding told decr_wait_count
  told-other w c p q f ne np = update_ne (ran w c).cort _ np ∙ ran-cort w c q f ne

  told-parent :
      (w : World E) (c p : ℕ)
      → Finishes (w.cort c).data0
      → c ≢ p
      → (told w c p).cort p
        ≡ record (w.cort p) { cort_wait_count = sub64 (w.cort p).cort_wait_count 1 }
  unfolding told decr_wait_count
  told-parent w c p f ne =
      update_self (ran w c).cort p _
      ∙ ap (λ (d : Cort). record d { cort_wait_count = sub64 d.cort_wait_count 1 })
          (ran-cort w c p f ne)

  Children-told :
      (w : World E) (c p : ℕ) (cs : List ℕ)
      → Finishes (w.cort c).data0
      → Absent c cs
      → Children w p cs
      → Children (told w c p) p cs
  Children-told w c p [] f a h = tt
  Children-told w c p (d ∷ ds) f a h =
      let same = told-other w c p d f a.0 (λ e. h.1 (sym e)) in
      (
        ap (λ (o : Cort). o.cort_parent) same ∙ h.0,
        h.1,
        subst (λ (o : Cort). Finishes o.data0) (sym same) h.2,
        h.3,
        Children-told w c p ds f a.1 h.4,
      )

  count-told :
      (w : World E) (c p n : ℕ)
      → Finishes (w.cort c).data0
      → c ≢ p
      → (w.cort p).cort_wait_count ≡ suc n
      → n < 2 ^ 63
      → (told w c p).cort p ≡ record (w.cort p) { cort_wait_count = n }
  count-told w c p n f ne count small =
      told-parent w c p f ne
      ∙ ap (λ k. record (w.cort p) { cort_wait_count = k }) (rw count (omega arith))

  branch_true : (b : Bool) (x y : Option (World E)) → b ≡ true → elim b [ true ↦ x | false ↦ y ] ≡ x
  branch_true b x y e = rw e

  branch_false :
      (b : Bool) (x y : Option (World E)) → b ≡ false → elim b [ true ↦ x | false ↦ y ] ≡ y
  branch_false b x y e = rw e

  -- One of several coroutines finishes: `p` goes on waiting.
  resume_earlier :
      (fuel c p n : ℕ) (w : World E)
      → (w.cort c).cort_parent ≡ p
      → p ≢ 0
      → Finishes (w.cort c).data0
      → (told w c p).cort p ≡ record (w.cort p) { cort_wait_count = suc n }
      → resume call (suc fuel) c 0 w ≡ some (told w c p)
  resume_earlier fuel c p n w e ne f count =
      let more : (((told w c p).cort p).cort_wait_count == 0) ≡ false =
        ap (λ (o : Cort). o.cort_wait_count == 0) count ∙ ground arith in
      subst (Round fuel c w) e (resume_child fuel c w (λ z. ne (sym e ∙ z)) f)
      ∙ branch_false _ _ _ more

  -- The last one finishes: `p` is resumed.
  resume_last :
      (fuel c p : ℕ) (w : World E)
      → (w.cort c).cort_parent ≡ p
      → p ≢ 0
      → Finishes (w.cort c).data0
      → (told w c p).cort p ≡ record (w.cort p) { cort_wait_count = 0 }
      → resume call (suc fuel) c 0 w ≡ resume call fuel p c (told w c p)
  resume_last fuel c p w e ne f count =
      let none_left : (((told w c p).cort p).cort_wait_count == 0) ≡ true =
        ap (λ (o : Cort). o.cort_wait_count == 0) count in
      subst (Round fuel c w) e (resume_child fuel c w (λ z. ne (sym e ∙ z)) f)
      ∙ branch_true _ _ _ none_left

  finish_more :
      (fuel c d : ℕ) (ds : List ℕ) (w : World E) {w' : World E}
      → resume call fuel c 0 w ≡ some w'
      → finish_all fuel c (d ∷ ds) w ≡ finish_all fuel d ds w'
  unfolding finish_all
  finish_more fuel c d ds w e = rw (e, finish_all)

  -- A coroutine waits for different coroutines, fewer than 2 ^ 63 and as many as its count says; each of
  -- these is its child and has a callback that finishes it at once, in any world, and leaves the members
  -- of the other coroutines as they are. When they are resumed one after the other, in whatever order, it is
  -- not resumed by those that finish first; the last one to finish resumes it, passing itself as the last
  -- resumer, with the count at 0 and the other members as they were.
  pub join :
      (fuel p c : ℕ) (cs : List ℕ) (w : World E)
      → p ≢ 0
      → Children w p (c ∷ cs)
      → (w.cort p).cort_wait_count ≡ suc (length cs)
      → length cs < 2 ^ 63
      → (w' : World E) × (finish_all (suc fuel) c cs w ≡ resume call fuel p (last_of c cs) w')
        × (w'.cort p ≡ record (w.cort p) { cort_wait_count = 0 })
  unfolding finish_all last_of
  join fuel p c [] w ne h count small =
      let zero_left = count-told w c p 0 h.2 h.1 count (omega arith) in
      (told w c p, resume_last fuel c p w h.0 ne h.2 zero_left, zero_left)
  join fuel p c (d ∷ ds) w ne h count small =
      let left = count-told w c p (suc (length ds)) h.2 h.1 count small in
      let (w', runs, at_p) =
        join fuel p d ds (told w c p) ne (Children-told w c p (d ∷ ds) h.2 h.3 h.4)
          (ap (λ (o : Cort). o.cort_wait_count) left) (omega arith) in
      (
        w',
        finish_more (suc fuel) c d ds w (resume_earlier fuel c p (length ds) w h.0 ne h.2 left)
            ∙ runs,
        at_p ∙ ap (λ (o : Cort). record o { cort_wait_count = 0 }) left,
      )

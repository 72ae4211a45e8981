-- ===== src/Util/PodQueue/Display.antt =====
-- What `display` writes, against the elements that the queue holds.
use native.Mathlib.Nat.{mod-eq_of_lt, mod-eq-sub-mod}
use cort_proto.Prelude.{
  ℕ, Bool, true, false, zero, suc, ◌+◌, ◌-◌, ◌%◌, ◌≤◌, ◌<◌, ◌≡◌, refl, sym, arith, ltb, Bool-cases,
  inl, inr, ◌∙◌, List, [], ◌∷◌, ◌++◌, if◌then◌else◌, tabulate, tabulate-eq, tabulate-suc, ap, ap₂,
}
use cort_proto.Util.PodQueue.{
  PodQueue, Piece, item, sep, eol, display, display_from, contents, at, pop,
}
use cort_proto.Util.PodQueue.Index.{IsValid}
use cort_proto.Util.PodQueue.Refine.{cell, at-cell, at-pop, size-pop}

module _ {ℓ} {A : Type ℓ} where
  -- The elements among the pieces.
  pub items : List (Piece A) → List A
  items [] = []
  items (item a ∷ ps) = a ∷ items ps
  items (sep ∷ ps) = items ps
  items (eol ∷ ps) = items ps

  items_sep : (b : Bool) (ps : List (Piece A)) → items (if b then sep ∷ ps else ps) ≡ items ps
  unfolding items
  items_sep true ps = refl
  items_sep false ps = refl

  items-append_eol : (ps : List (Piece A)) → items (ps ++ (eol ∷ [])) ≡ items ps
  unfolding items
  items-append_eol [] = refl
  items-append_eol (item a ∷ ps) = ap (◌∷◌ a) (items-append_eol ps)
  items-append_eol (sep ∷ ps) = items-append_eol ps
  items-append_eol (eol ∷ ps) = items-append_eol ps

  -- The cell that round `k` of the loop writes.
  shown : PodQueue A → ℕ → A
  shown q k = q.ptr ((q.the_begin + suc k) % q.the_capacity)

  items-display_from :
      (q : PodQueue A) (left size : ℕ)
      → items (display_from q left size) ≡ tabulate left (λ k. shown q (size + k))
  unfolding items display_from shown
  items-display_from q zero size = refl
  items-display_from q (suc left) size =
      ap₂ ◌∷◌ (ap (λ i. q.ptr ((q.the_begin + i) % q.the_capacity)) (omega arith)) (
        items_sep (ltb (size + 1) q.the_size) (display_from q left (size + 1))
        ∙ items-display_from q left (size + 1)
        ∙ tabulate-eq left _ _
            (λ k _. ap (λ i. q.ptr ((q.the_begin + i) % q.the_capacity)) (omega arith)))

  shown-at :
      (q : PodQueue A) (k : ℕ) → IsValid q → suc k ≤ q.the_capacity → shown q k ≡ at q (suc k)
  unfolding shown cell
  shown-at q k v h = ap q.ptr index ∙ sym (at-cell q (suc k) v h)
    where
      index : (q.the_begin + suc k) % q.the_capacity ≡ cell q (suc k)
      index = elim (Bool-cases (ltb (q.the_begin + suc k) q.the_capacity)) [
        | inl e ↦ rw e (mod-eq_of_lt (ground arith))
        | inr e ↦
            let below : q.the_begin + suc k - q.the_capacity < q.the_capacity = omega arith in
            rw e (mod-eq-sub-mod (ground arith) ∙ mod-eq_of_lt below)
      ]

  -- `display` of a queue that is not empty does not write its oldest element: it writes the others
  -- in order, and then the cell behind the last one, which is no element.
  pub display_skips_oldest :
      {q : PodQueue A}
      → IsValid q
      → 0 < q.the_size
      → items (display q)
        ≡ contents (pop q) ++ (q.ptr ((q.the_begin + q.the_size) % q.the_capacity) ∷ [])
  unfolding display
  display_skips_oldest {q} v h =
      items-append_eol (display_from q q.the_size 0)
      ∙ items-display_from q q.the_size 0
      ∙ ap (λ n. tabulate n (λ k. shown q (0 + k))) size
      ∙ tabulate-suc (q.the_size - 1) (λ k. shown q (0 + k))
      ∙ ap₂ ◌++◌ (tabulate-eq (q.the_size - 1) _ _ others ∙ popped) (ap (λ a. a ∷ []) last)
    where
      size : q.the_size ≡ suc (q.the_size - 1)
      size = omega arith

      others : (k : ℕ) → k < q.the_size - 1 → shown q (0 + k) ≡ at (pop q) k
      others k lt =
          let e : 0 + k ≡ k = omega arith in
          ap (shown q) e ∙ shown-at q k v (omega arith) ∙ at-pop q k v h lt

      popped : tabulate (q.the_size - 1) (at (pop q)) ≡ contents (pop q)
      popped = ap (λ n. tabulate n (at (pop q))) (sym (size-pop q v h))

      last : shown q (0 + (q.the_size - 1)) ≡ q.ptr ((q.the_begin + q.the_size) % q.the_capacity)
      last = unfold shown in ap (λ i. q.ptr ((q.the_begin + i) % q.the_capacity)) (omega arith)

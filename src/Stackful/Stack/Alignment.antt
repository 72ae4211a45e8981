-- ===== src/Stackful/Stack/Alignment.antt =====
-- Where a stack starts.
use Prim.Native.Nat.{bit_and, bit_xor}
use cort_proto.Prelude.{
  ℕ, zero, suc, ◌*◌, ◌%◌, ◌/◌, ◌^◌, ◌+◌, ◌-◌, ◌≤◌, ◌<◌, ◌≡◌, refl, ap, ◌∙◌, arith, Bool, true, ◌&&◌,
  if◌then◌else◌, ltb, ◌==◌, ==_iff, Bool-cases, inl, inr,
}
use mathlib.Core.Bool.{and-eq-true_iff}
use cort_proto.Prelude.Words.{add64, sub64, bit_and-ones}
use cort_proto.Stackful.Stack.{Stack, stack_start}

abbrev all_below : ℕ → (ℕ → Bool) → Bool
all_below zero p = true
all_below (suc n) p = p n && all_below n p

all_below_lem : (n : ℕ) (p : ℕ → Bool) → all_below n p ≡ true → (k : ℕ) → k < n → p k ≡ true
all_below_lem zero p h k l = absurd (omega arith)
all_below_lem (suc n) p h k l =
    let (here, before) = (and-eq-true_iff (p n) (all_below n p)).0 h in
    elim (Bool-cases (k == n)) [
      | inl e ↦ ap p ((==_iff k n).0 e) ∙ here
      | inr e ↦ all_below_lem n p before k (ground arith)
    ]

-- How far below a top with these four low digits the stack starts.
abbrev below_top : ℕ → ℕ
below_top r = if ltb r 8 then r + 8 else r - 8

bit_xor_eight : (r : ℕ) → r < 16 → bit_xor r 8 ≡ below_top r
bit_xor_eight r h = (==_iff _ _).0 (all_below_lem 16 (λ r. bit_xor r 8 == below_top r) refl r h)

-- The stack starts at an address that is 8 above a multiple of 16, within the last 16 bytes of its block
-- or at their end: the block has at least 16 bytes and does not pass the end of the memory.
pub stack_start-IsAligned :
    (s : Stack)
    → s.stack_base + s.stack_size < 2 ^ 64
    → 16 ≤ s.stack_size
    → (stack_start s % 16 ≡ 8)
      × (s.stack_base ≤ stack_start s)
      × (stack_start s ≤ s.stack_base + s.stack_size)
      × (s.stack_base + s.stack_size ≤ stack_start s + 15)
unfolding stack_start
stack_start-IsAligned s fits large =
    let top = s.stack_base + s.stack_size in
    let e : add64 s.stack_base s.stack_size ≡ top = omega arith in
    let split : top ≡ top / 16 * 16 + top % 16 = omega arith in
    let low : bit_and top 0x0f ≡ top % 16 =
      ap (λ x. bit_and x 0x0f) split ∙ bit_and-ones 4 (top / 16) (top % 16) (omega arith) in
    let back : bit_xor (top % 16) 8 ≡ below_top (top % 16) =
      bit_xor_eight (top % 16) (omega arith) in
    let start : stack_start s ≡ sub64 top (below_top (top % 16)) =
      ap (λ t. sub64 t (bit_xor (bit_and t 0x0f) 8)) e
      ∙ ap (λ d. sub64 top (bit_xor d 8)) low
      ∙ ap (sub64 top) back in
    elim (Bool-cases (ltb (top % 16) 8)) [
      | inl f ↦
          let d : below_top (top % 16) ≡ top % 16 + 8 = rw f refl in ground (arith, start, d, f)
      | inr f ↦
          let d : below_top (top % 16) ≡ top % 16 - 8 = rw f refl in ground (arith, start, d, f)
    ]

-- ===== src/Util/PodQueue/Index.antt =====
-- The index arithmetic of `cort_pod_queue`: the branch-free reduction, and the representation
-- invariant.
use Prim.Native.Nat.{bit_and}
use cort_proto.Prelude.{
  ℕ, ◌+◌, ◌-◌, ◌/◌, ◌^◌, ◌≤◌, ◌<◌, ◌≡◌, ap, ◌∙◌, arith, ltb, if◌then◌else◌, Bool-cases, inl, inr,
}
use cort_proto.Prelude.Words.{sub64, bit_and-zero, bit_and-ones}
use cort_proto.Util.PodQueue.{PodQueue, cort_mod}

-- No index, and no sum of two indices, leaves 64 bits.
pub record IsValid {ℓ} {A : Type ℓ} (q : PodQueue A) : Type 0 where
  pub two : 2 ≤ q.the_capacity
  pub small : q.the_capacity ≤ 2 ^ 62
  pub begin_in : q.the_begin < q.the_capacity
  pub size_in : q.the_size ≤ q.the_capacity

bit_and-all : (c : ℕ) → c ≤ 2 ^ 63 → bit_and c (2 ^ 64 - 1) ≡ c
bit_and-all c h =
    let e : c ≡ 0 + c = omega arith in
    ap (λ t. bit_and t (2 ^ 64 - 1)) e ∙ bit_and-ones 64 0 c (omega arith)

-- CORT_MOD takes an index below twice the capacity into the block: it subtracts the capacity
-- exactly if the index has reached it.
pub cort_mod_lem :
    (capacity i : ℕ)
    → capacity ≤ 2 ^ 63
    → i < capacity + capacity
    → cort_mod capacity i ≡ (if ltb i capacity then i else i - capacity)
unfolding cort_mod
cort_mod_lem capacity i hc hi = elim (Bool-cases (ltb i capacity)) [
  | inl inside ↦
      let mask : sub64 0 (sub64 (sub64 capacity i) 1 / 2 ^ 63) ≡ 0 = ground arith in
      rw (inside, mask, bit_and-zero) (ground arith)
  | inr outside ↦
      let mask : sub64 0 (sub64 (sub64 capacity i) 1 / 2 ^ 63) ≡ 2 ^ 64 - 1 = ground arith in
      rw (outside, mask, bit_and-all capacity hc) (ground arith)
]

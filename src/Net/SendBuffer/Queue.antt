-- ===== src/Net/SendBuffer/Queue.antt =====
-- The blocks of a send buffer as a list, and the bytes in them.
use cort_proto.Prelude.{
  ℕ, zero, suc, ◌+◌, ◌-◌, ◌^◌, ◌<◌, ◌≡◌, ◌≢◌, arith, Bool, true, false, List, [], ◌∷◌,
  if◌then◌else◌, ltb, leb, ◌==◌, Bool-cases, inl, inr, ==_iff,
}
use cort_proto.Net.SendBuffer.{
  Slot, SendBuffer, max_send_queue_size, get_free_index, free_slot, cut, advance,
}

used_from : ℕ → ℕ → SendBuffer → List Slot
used_from zero i b = []
used_from (suc left) i b =
    if (b.slots i).iov_base == 0 then [] else b.slots i ∷ used_from left (i + 1) b

-- The slots in use.
unfoldable pub used : SendBuffer → List Slot
unfolding used_from
used b = used_from max_send_queue_size 0 b

-- What taking `sent` bytes off is to do, on a list.
unfoldable pub advance_list : ℕ → List Slot → List Slot
advance_list sent [] = []
advance_list sent (s ∷ ss) =
    if leb s.iov_len sent then advance_list (sent - s.iov_len) ss else cut sent s ∷ ss

-- The addresses that it frees.
unfoldable pub freed_list : ℕ → List Slot → List ℕ → List ℕ
freed_list sent [] freed = freed
freed_list sent (s ∷ ss) freed =
    if leb s.iov_len sent then freed_list (sent - s.iov_len) ss (free_slot s freed) else freed

unfoldable pub is_nil : List Slot → Bool
is_nil [] = true
is_nil (s ∷ ss) = false

-- Where the slots from 0 on are `ss`, the loop does what the list says, in all that it returns.
abbrev pub Advances : ℕ → SendBuffer → List ℕ → List Slot → (SendBuffer × List ℕ) × Bool → Type 0
Advances sent b freed ss r =
    (used r.0.0 ≡ advance_list sent ss)
    × (r.0.1 ≡ freed_list sent ss freed)
    × (r.1 ≡ is_nil (advance_list sent ss))

-- A slot whose bytes have addresses, and are no more than a `ssize_t` counts.
abbrev pub IsIn : Slot → Type 0
IsIn s = (s.iov_base + s.iov_len < 2 ^ 64) × (s.iov_len < 2 ^ 63)

is_counted : {n : ℕ} → n < 2 ^ 63 → ltb n (2 ^ 63) ≡ true
is_counted h = ground arith

module _ (sent : ℕ) (b : SendBuffer) (freed : List ℕ) where
  advance_0 : (b.slots 0).iov_base ≡ 0 → Advances sent b freed [] (advance 0 sent (b, freed))
  unfolding used advance advance_list freed_list is_nil
  advance_0 e0 = ground arith

  advance_1 :
      (b.slots 0).iov_base ≢ 0
      → (b.slots 1).iov_base ≡ 0
      → IsIn (b.slots 0)
      → Advances sent b freed (b.slots 0 ∷ []) (advance 1 sent (b, freed))
  unfolding used advance advance_list freed_list is_nil
  advance_1 n0 e1 i0 = ground arith

  advance_2 :
      (b.slots 0).iov_base ≢ 0
      → (b.slots 1).iov_base ≢ 0
      → (b.slots 2).iov_base ≡ 0
      → IsIn (b.slots 0)
      → IsIn (b.slots 1)
      → Advances sent b freed (b.slots 0 ∷ b.slots 1 ∷ []) (advance 2 sent (b, freed))
  unfolding used advance advance_list freed_list is_nil
  advance_2 n0 n1 e2 i0 i1 = ground arith

  advance_3 :
      (b.slots 0).iov_base ≢ 0
      → (b.slots 1).iov_base ≢ 0
      → (b.slots 2).iov_base ≢ 0
      → IsIn (b.slots 0)
      → IsIn (b.slots 1)
      → IsIn (b.slots 2)
      → Advances sent b freed (b.slots 0 ∷ b.slots 1 ∷ b.slots 2 ∷ []) (advance 3 sent (b, freed))
  unfolding used advance advance_list freed_list is_nil
  advance_3 n0 n1 n2 i0 i1 i2 =
      rw (is_counted i0.1, is_counted i1.1, is_counted i2.1)
        (elim (Bool-cases (leb (b.slots 0).iov_len sent)) [
          | inr e ↦ rw e (ground arith)
          | inl e ↦ rw e (ground arith)
        ])

abbrev pub All : (Slot → Type 0) → List Slot → Type 0
All P [] = Unit
All P (s ∷ ss) = P s × All P ss

-- The array and its shifting do to the blocks in use what the list says.
pub advance_lem :
    (sent : ℕ) (b : SendBuffer) (freed : List ℕ)
    → All IsIn (used b)
    → Advances sent b freed (used b) (advance (get_free_index b) sent (b, freed))
unfolding used get_free_index
advance_lem sent b freed = elim (Bool-cases ((b.slots 0).iov_base == 0)) [
  | inl e0 ↦ rw e0 (λ _. advance_0 sent b freed ((==_iff _ 0).0 e0))
  | inr n0 ↦ elim (Bool-cases ((b.slots 1).iov_base == 0)) [
    | inl e1 ↦ rw (n0, e1) (λ h. advance_1 sent b freed (ground arith) (ground arith) h.0)
    | inr n1 ↦ elim (Bool-cases ((b.slots 2).iov_base == 0)) [
      | inl e2 ↦
          rw (n0, n1, e2)
            (λ h. advance_2 sent b freed (ground arith) (ground arith) (ground arith) h.0 h.1.0)
      | inr n2 ↦
          rw (n0, n1, n2)
            (λ h.
              advance_3 sent b freed (ground arith) (ground arith) (ground arith) h.0 h.1.0 h.1.1.0)
    ]
  ]
]

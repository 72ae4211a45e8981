-- ===== src/Net/SendBuffer/Bytes.antt =====
-- What is still to be sent, byte by byte, and which blocks are freed.
use mathlib.Core.Path.{fun_ext}
use cort_proto.Prelude.{
  ℕ, zero, suc, ◌+◌, ◌-◌, ◌^◌, ◌≤◌, ◌<◌, ◌≡◌, refl, sym, ap, ap₂, ◌∙◌, ◌⊎◌, arith, List, [], ◌∷◌,
  ◌++◌, if◌then◌else◌, leb, ◌==◌, drop, tabulate, Bool-cases, inl, inr,
}
use cort_proto.Net.SendBuffer.{Slot, SendBuffer, get_free_index, free_slot, cut, advance}
use cort_proto.Net.SendBuffer.Queue.{used, advance_list, freed_list, is_nil, All, IsIn, advance_lem}

abbrev pub block : (ℕ → ℕ) → Slot → List ℕ
block mem s = tabulate s.iov_len (λ k. mem (s.iov_base + k))

abbrev pub bytes : (ℕ → ℕ) → List Slot → List ℕ
bytes mem [] = []
bytes mem (s ∷ ss) = block mem s ++ bytes mem ss

-- The bytes that are still to be sent.
abbrev pub pending : (ℕ → ℕ) → SendBuffer → List ℕ
pending mem b = bytes mem (used b)

drop-block_over :
    (n len : ℕ) (f : ℕ → ℕ) (rest : List ℕ)
    → len ≤ n
    → drop n (tabulate len f ++ rest) ≡ drop (n - len) rest
drop-block_over n zero f rest h = ap (λ m. drop m rest) (omega arith)
drop-block_over zero (suc len) f rest h = absurd (omega arith)
drop-block_over (suc n) (suc len) f rest h =
    drop-block_over n len (λ k. f (suc k)) rest (omega arith) ∙ ap (λ m. drop m rest) (omega arith)

drop-block_in :
    (n len : ℕ) (f : ℕ → ℕ) (rest : List ℕ)
    → n < len
    → drop n (tabulate len f ++ rest) ≡ tabulate (len - n) (λ k. f (n + k)) ++ rest
drop-block_in zero len f rest h =
    ap₂ (λ m g. tabulate m g ++ rest) (omega arith) (fun_ext (λ k. ap f (omega arith)))
drop-block_in (suc n) zero f rest h = absurd (omega arith)
drop-block_in (suc n) (suc len) f rest h =
    drop-block_in n len (λ k. f (suc k)) rest (omega arith)
    ∙ ap₂ (λ m g. tabulate m g ++ rest) (omega arith) (fun_ext (λ k. ap f (omega arith)))

block-cut :
    (mem : ℕ → ℕ) (sent : ℕ) (s : Slot)
    → IsIn s
    → sent < s.iov_len
    → block mem (cut sent s) ≡ tabulate (s.iov_len - sent) (λ k. mem (s.iov_base + (sent + k)))
block-cut mem sent s i h = ap₂ tabulate (omega arith) (fun_ext (λ k. ap mem (omega arith)))

bytes-advance_list :
    (mem : ℕ → ℕ) (sent : ℕ) (ss : List Slot)
    → All IsIn ss
    → bytes mem (advance_list sent ss) ≡ drop sent (bytes mem ss)
unfolding advance_list
bytes-advance_list mem zero [] h = refl
bytes-advance_list mem (suc sent) [] h = refl
bytes-advance_list mem sent (s ∷ ss) h = elim (Bool-cases (leb s.iov_len sent)) [
  | inl all ↦ rw all (
      bytes-advance_list mem (sent - s.iov_len) ss h.1
      ∙ sym (
          drop-block_over sent s.iov_len (λ k. mem (s.iov_base + k)) (bytes mem ss) (ground arith)))
  | inr part ↦ rw part (
      ap (λ l. l ++ bytes mem ss) (block-cut mem sent s h.0 (ground arith))
      ∙ sym
          (drop-block_in sent s.iov_len (λ k. mem (s.iov_base + k)) (bytes mem ss) (ground arith)))
]

-- What was sent is taken off the front of what was to be sent, whatever the blocks are that it came
-- from, where their bytes have addresses and a `ssize_t` counts them; and the loop says that all was sent
-- exactly if no block is left.
pub advance_sends :
    (mem : ℕ → ℕ) (sent : ℕ) (b : SendBuffer) (freed : List ℕ)
    → All IsIn (used b)
    → let r = advance (get_free_index b) sent (b, freed) in
      (pending mem r.0.0 ≡ drop sent (pending mem b)) × (r.1 ≡ is_nil (used r.0.0))
advance_sends mem sent b freed h =
    let (same_slots, _, all) = advance_lem sent b freed h in
    (
      ap (bytes mem) same_slots ∙ bytes-advance_list mem sent (used b) h,
      all ∙ ap is_nil (sym same_slots),
    )

abbrev pub count : ℕ → List ℕ → ℕ
count a [] = 0
count a (x ∷ xs) = (if x == a then 1 else 0) + count a xs

-- The addresses that `malloc` gave for the blocks that the buffer owns.
abbrev pub owned : List Slot → List ℕ
owned [] = []
owned (s ∷ ss) = free_slot s (owned ss)

-- The tag of a slot, which counts what was sent of it, does not leave its half of the range.
abbrev pub IsTagged : Slot → Type 0
IsTagged s =
    IsIn s
    × ((s.tag ≤ s.iov_base) × (s.tag + s.iov_len < 2 ^ 31)
        ⊎ (2 ^ 31 ≤ s.tag) × (s.tag + s.iov_len < 2 ^ 32))

owned-cut :
    (sent : ℕ) (s : Slot) (rest : List ℕ)
    → IsTagged s
    → sent < s.iov_len
    → free_slot (cut sent s) rest ≡ free_slot s rest
owned-cut sent s rest h lt = ground arith

count-freed_list :
    (a sent : ℕ) (ss : List Slot) (freed : List ℕ)
    → All IsTagged ss
    → count a (freed_list sent ss freed) + count a (owned (advance_list sent ss))
      ≡ count a freed + count a (owned ss)
unfolding freed_list advance_list
count-freed_list a sent [] freed h = refl
count-freed_list a sent (s ∷ ss) freed h = elim (Bool-cases (leb s.iov_len sent)) [
  | inl all ↦
      rw all (ground (arith, count-freed_list a (sent - s.iov_len) ss (free_slot s freed) h.1))
  | inr part ↦
      rw part (ap (λ l. count a freed + count a l) (owned-cut sent s (owned ss) h.0 (ground arith)))
]

All-IsIn : (ss : List Slot) → All IsTagged ss → All IsIn ss
All-IsIn [] h = tt
All-IsIn (s ∷ ss) h = (h.0.0, All-IsIn ss h.1)

-- Every block that the buffer owns is freed once, at the address that `malloc` gave for it, when all
-- of it has been sent, or is still owned under that address; a block that it does not own is not freed.
pub advance_frees :
    (a sent : ℕ) (b : SendBuffer) (freed : List ℕ)
    → All IsTagged (used b)
    → let r = advance (get_free_index b) sent (b, freed) in
      count a r.0.1 + count a (owned (used r.0.0)) ≡ count a freed + count a (owned (used b))
advance_frees a sent b freed h =
    let (same_slots, same_freed, _) = advance_lem sent b freed (All-IsIn (used b) h) in
    rw (same_slots, same_freed) (count-freed_list a sent (used b) freed h)

advance_list-All-IsIn : (sent : ℕ) (ss : List Slot) → All IsIn ss → All IsIn (advance_list sent ss)
unfolding advance_list
advance_list-All-IsIn sent [] h = tt
advance_list-All-IsIn sent (s ∷ ss) h = elim (Bool-cases (leb s.iov_len sent)) [
  | inl all ↦ rw all (advance_list-All-IsIn (sent - s.iov_len) ss h.1)
  | inr part ↦ rw part ((let i = h.0 in ground arith), h.1)
]

pub advance-All-IsIn :
    (sent : ℕ) (b : SendBuffer) (freed : List ℕ)
    → All IsIn (used b)
    → All IsIn (used (advance (get_free_index b) sent (b, freed)).0.0)
advance-All-IsIn sent b freed h =
    let (same_slots, _, _) = advance_lem sent b freed h in
    rw same_slots (advance_list-All-IsIn sent (used b) h)

pub used_of_free_index : (b : SendBuffer) → get_free_index b ≡ 0 → used b ≡ []
unfolding used get_free_index
used_of_free_index b e = ground arith

-- ===== src/Stackful/Versions/Growth.antt =====
-- When the list of versions grows, and when a place is written outside it.
use cort_proto.Prelude.{
  ℕ, zero, suc, ◌+◌, ◌≤◌, ◌&&◌, Bool-cases, inl, inr, refl, ◌^◌, ◌<◌, ◌≡◌, ◌≢◌, arith, true, false,
  leb, ◌==◌, or-true, or-false,
}
use cort_proto.Prelude.Words.{add32, sub32}
use cort_proto.Net.RecvBuffer.{signed_lt}
use cort_proto.Stackful.Storage.{Meta}
use cort_proto.Stackful.Versions.{
  Versions, next_index, cort_stackful_local_storage_register,
  cort_stackful_local_storage_unregister,
}

-- The loop for the next place ends within as many turns as the list has entries: more turns find the
-- same place.
pub next_index_fuel :
    (count more last_index : ℕ) (list : ℕ → ℕ)
    → list 0 < 2 ^ 31
    → last_index + 1 < 2 ^ 31
    → list 0 ≤ last_index + suc count
    → next_index (suc (count + more)) last_index list ≡ next_index (suc count) last_index list
unfolding next_index
next_index_fuel zero more last_index list small low enough =
    let e : signed_lt (add32 last_index 1) (list 0) ≡ false = ground arith in
    rw (next_index, e) refl
next_index_fuel (suc count) more last_index list small low enough =
    let next = add32 last_index 1 in
    let e : suc count + more ≡ suc (count + more) = omega arith in
    elim (Bool-cases (signed_lt next (list 0) && signed_lt 0 (list next))) [
      | inl f ↦
          let l : signed_lt next (list 0) ≡ true = ground (arith, f) in
          rw (next_index, f, e)
            (next_index_fuel count more next list small (ground (arith, l)) (ground (arith, l)))
      | inr f ↦ rw (next_index, f) refl
    ]

-- Every entry of the block is in use, and the list says so.
pub record IsFull (v : Versions) : Type 0 where
  pub some_block : 0 < v.allocated
  pub small : v.allocated < 2 ^ 31
  pub size : v.version_list 0 ≡ v.allocated
  pub last : v.local_last_index ≡ v.allocated

-- A full list grows when another variable registers, which is then written inside the block. But when
-- one of its variables, not the last that there is, has unregistered before, the list does not grow, and
-- the next variable to register is written outside the block.
pub overrun-unregister :
    (m : Meta) (v : Versions)
    → IsFull v
    → 0 < m.offset
    → m.offset < v.allocated
    → sub32 v.local_count 1 ≢ 0
    → ((cort_stackful_local_storage_register v).0.overrun ≡ v.overrun)
      × ((cort_stackful_local_storage_register
            (cort_stackful_local_storage_unregister m v)).0.overrun
          ≡ true)
unfolding cort_stackful_local_storage_register cort_stackful_local_storage_unregister
overrun-unregister m v f positive inside others =
    let e : (v.allocated == 0) ≡ false = ground (arith, f.some_block) in
    let g : (v.version_list 0 == v.local_last_index) ≡ true = ground (arith, f.size, f.last) in
    let larger : leb (v.local_last_index + 32) v.local_last_index ≡ false = ground arith in
    let h : (sub32 v.local_count 1 == 0) ≡ false = ground arith in
    let apart : (m.offset == 0) ≡ false = ground arith in
    let less : signed_lt m.offset (v.version_list 0) ≡ true = ground (arith, f.size, f.small) in
    let short : (m.offset == v.local_last_index) ≡ false = ground (arith, f.last) in
    let behind : leb v.allocated v.local_last_index ≡ true = ground (arith, f.last) in
    (
      rw (e, g, larger) (or-false v.overrun),
      rw (h, apart, less, e, short, behind) (or-true v.overrun),
    )

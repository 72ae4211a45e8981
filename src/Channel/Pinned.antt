-- ===== src/Channel/Pinned.antt =====
-- The objects pinned for receivers that are under way.
use cort_proto.Prelude.{ℕ, suc, ◌^◌, ◌≤◌, ◌<◌, ◌≡◌, arith, false}
use cort_proto.Channel.{Channel, is_closed, park_recver, wait_popable_check}

module _ {O : Type 0} (size : O → ℕ) where
  -- No more objects are pinned than there are.
  abbrev pub Covered : Channel O → Type 0
  Covered ch = (ch.pinned_object_count ≤ size ch.objects) × (size ch.objects < 2 ^ 64)

  -- A coroutine that is let on to receive finds an object pinned for it, and no other coroutine's.
  pub wait_popable_check-Covered :
      (ch : Channel O)
      → Covered ch
      → Covered (wait_popable_check size ch).0
        × ((wait_popable_check size ch).1 ≡ false
            → is_closed ch ≡ false
            → (wait_popable_check size ch).0.pinned_object_count ≡ suc ch.pinned_object_count)
  unfolding wait_popable_check park_recver
  wait_popable_check-Covered ch c = ground arith

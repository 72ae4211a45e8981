-- ===== src/Channel/Objects/Delivery.antt =====
-- Objects through a `cort_channel`: who is let on to receive gets one.
use cort_proto.Prelude.{◌≡◌, arith, false, some}
use cort_proto.Util.PodQueue.{PodQueue, front}
use cort_proto.Channel.{Channel, is_closed, wait_popable_check}
use cort_proto.Channel.Objects.{size, get}
use cort_proto.Channel.Pinned.{Covered}

module _ {A : Type 0} where
  -- A coroutine that `wait_popable` lets on without waiting, on an open channel, gets the oldest
  -- object, which is there.
  pub get-wait_popable :
      (ch : Channel (PodQueue A))
      → Covered size ch
      → is_closed ch ≡ false
      → (wait_popable_check size ch).1 ≡ false
      → get (wait_popable_check size ch).0 ≡ some (front ch.objects)
  unfolding get wait_popable_check
  get-wait_popable ch c held let_on = ground arith

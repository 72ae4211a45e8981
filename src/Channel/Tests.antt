-- ===== src/Channel/Tests.antt =====
-- A channel with coroutines that wait for it, and the theorems about it.
use cort_proto.Prelude.{ℕ, ◌+◌, ◌≡◌, refl, arith, List, [], ◌∷◌, take, drop, some}
use cort_proto.Util.PodQueue.{PodQueue, front, contents}
use cort_proto.Util.PodQueue.Index.{IsValid}
use cort_proto.Channel.{Channel, after_push, wait_popable_check, park_recver, is_closed}
use cort_proto.Channel.Pinned.{Covered}
use cort_proto.Channel.Serving.{served, apart, after_push_serves}
use cort_proto.Channel.Objects.{size, get}
use cort_proto.Channel.Objects.Delivery.{get-wait_popable}

-- 21, 22 and 23 wait.
abbrev three : PodQueue ℕ
three = record { ptr = λ i. i + 20; the_size = 3; the_capacity = 16; the_begin = 1 }

abbrev none_waits : PodQueue ℕ
none_waits = record { ptr = λ i. 0; the_size = 0; the_capacity = 16; the_begin = 0 }

abbrev waited_for : Channel ℕ
waited_for = record {
  recvers = three;
  senders = none_waits;
  sender_parent = 0;
  buffer_size = 4;
  cort_parent = 0;
  pinned_object_count = 0;
  objects = 2;
}

abbrev log : ℕ → List ℕ → List ℕ
log p done = p ∷ done

three-IsValid : IsValid (park_recver waited_for).recvers
unfolding park_recver
three-IsValid = omega arith

after_push_serves_example :
    (contents (after_push (λ o. o) (apart (λ o. o) log) 2 (waited_for, [])).0.0.recvers
      ≡ drop 2 (contents (park_recver waited_for).recvers))
    × ((after_push (λ o. o) (apart (λ o. o) log) 2 (waited_for, [])).0.1
        ≡ served log (take 2 (contents (park_recver waited_for).recvers)) [])
after_push_serves_example = after_push_serves (λ o. o) log 2 waited_for [] three-IsValid

-- Objects 20 to 22 in the channel, one of them pinned.
abbrev stocked : Channel (PodQueue ℕ)
stocked = record {
  recvers = three;
  senders = none_waits;
  sender_parent = 0;
  buffer_size = 4;
  cort_parent = 0;
  pinned_object_count = 1;
  objects = three;
}

stocked-Covered : Covered size stocked
stocked-Covered = omega arith

objects-IsValid : IsValid stocked.objects
objects-IsValid = omega arith

get-wait_popable_example : get (wait_popable_check size stocked).0 ≡ some (front stocked.objects)
unfolding is_closed wait_popable_check
get-wait_popable_example = get-wait_popable stocked stocked-Covered refl refl

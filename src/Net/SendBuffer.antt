-- ===== src/Net/SendBuffer.antt =====
-- net/cort_tcp_ctrler.h, `send_buffer_ctrl`: up to three blocks of bytes to be sent, and the loop of
-- `try_send` that takes what was sent off them.
-- `malloc` is given by the address that it returned, `free` by the list of the addresses freed so far.
pub mod Queue
pub mod Bytes
use cort_proto.Prelude.{
  ℕ, zero, suc, ◌+◌, ◌-◌, ◌%◌, ◌^◌, Bool, true, false, List, [], ◌∷◌, if◌then◌else◌, ltb, leb, ◌==◌,
  ◌&&◌, not, update, copy,
}
use cort_proto.Prelude.Words.{add64, sub64, add32}

-- One entry of `send_data` and of `send_data_tag`.
pub record Slot : Type 0 where
  pub iov_base : ℕ
  pub iov_len : ℕ
  pub tag : ℕ

pub record SendBuffer : Type 0 where
  pub slots : ℕ → Slot

abbrev pub max_send_queue_size : ℕ
max_send_queue_size = 3

-- A block that the buffer does not own.
abbrev pub weak_tag : ℕ
weak_tag = 2 ^ 31

abbrev pub is_strong : Slot → Bool
is_strong s = ltb s.tag (2 ^ 31)

-- The conversion of an `int32_t` to `size_t`.
abbrev pub to_size : ℕ → ℕ
to_size n = if ltb n (2 ^ 31) then n else n + (2 ^ 64 - 2 ^ 32)

abbrev pub set_slot : ℕ → Slot → SendBuffer → SendBuffer
set_slot i s b = record { slots = update b.slots i s }

-- `send_data[i].iov_base = 0`
abbrev pub erase : ℕ → SendBuffer → SendBuffer
erase i b = set_slot i (record (b.slots i) { iov_base = 0 }) b

-- The constructor, over the memory of the object.
pub create : (ℕ → Slot) → SendBuffer
create slots = erase 0 (record { slots = slots })

pub free_from : ℕ → ℕ → SendBuffer → ℕ
free_from zero i b = i
free_from (suc left) i b =
    let rest = free_from left (i + 1) b in if (b.slots i).iov_base == 0 then i else rest

unfoldable pub get_free_index : SendBuffer → ℕ
unfolding free_from
get_free_index b = free_from max_send_queue_size 0 b

pub empty : SendBuffer → Bool
empty b = (b.slots 0).iov_base == 0

-- The block goes into the first free slot, and the slot behind it is marked free.
fill : ℕ → Slot → SendBuffer → SendBuffer
fill index s b =
    let b' = set_slot index s b in
    if index == max_send_queue_size - 1 then b' else erase (index + 1) b'

-- The buffer, and the result: null if there is no free slot.
pub set_send_buffer : ℕ → ℕ → SendBuffer → SendBuffer × ℕ
unfolding get_free_index fill
set_send_buffer src_buffer arg_size b =
    let index = get_free_index b in
    if index == max_send_queue_size then (b, 0) else (
      fill index (record { iov_base = src_buffer; iov_len = to_size arg_size; tag = weak_tag }) b,
      src_buffer,
    )

-- `block` is what `malloc` returns.
pub alloc_send_buffer : ℕ → ℕ → SendBuffer → SendBuffer × ℕ
unfolding get_free_index fill
alloc_send_buffer block arg_size b =
    let index = get_free_index b in
    if index == max_send_queue_size
    then (b, 0)
    else (fill index (record { iov_base = block; iov_len = to_size arg_size; tag = 0 }) b, block)

-- The memory, too, is returned: the bytes are copied into the block if there is one.
pub copy_send_buffer : ℕ → ℕ → ℕ → (ℕ → ℕ) × SendBuffer → ((ℕ → ℕ) × SendBuffer) × ℕ
unfolding alloc_send_buffer get_free_index
copy_send_buffer block src_buffer arg_size (mem, b) =
    let (b', result) = alloc_send_buffer block arg_size b in
    let room = not (get_free_index b == max_send_queue_size) in
    (
      (if room && not (block == 0) then copy mem block src_buffer (to_size arg_size) else mem, b'),
      result,
    )

-- `free((char*)iov_base - tag)` for a block of its own.
abbrev pub free_slot : Slot → List ℕ → List ℕ
free_slot s freed = if is_strong s then sub64 s.iov_base s.tag ∷ freed else freed

clear_from : ℕ → ℕ → SendBuffer → List ℕ → List ℕ
clear_from zero i b freed = freed
clear_from (suc left) i b freed =
    let rest = clear_from left (i + 1) b (free_slot (b.slots i) freed) in
    if (b.slots i).iov_base == 0 then freed else rest

pub clear : SendBuffer × List ℕ → SendBuffer × List ℕ
unfolding clear_from
clear (b, freed) = (erase 0 b, clear_from max_send_queue_size 0 b freed)

-- The inner loop of `try_send`, which moves the slots from `i` on to those from `j` on.
move_ahead : ℕ → ℕ → ℕ → SendBuffer → SendBuffer
move_ahead zero i j b = erase j b
move_ahead (suc left) i j b =
    let rest = move_ahead left (i + 1) (j + 1) (set_slot j (b.slots i) b) in
    if (b.slots i).iov_base == 0 then erase j b else rest

-- A slot of which `sent` bytes have been sent.
abbrev pub cut : ℕ → Slot → Slot
cut sent s = record {
  iov_base = add64 s.iov_base sent;
  iov_len = sub64 s.iov_len sent;
  tag = add32 s.tag sent;
}

-- `current_sended_size >= (ssize_t)iov_len`, for a count that is not negative: a length from 2 ^ 63 on is
-- a negative `ssize_t`.
abbrev pub covers : ℕ → ℕ → Bool
covers sent iov_len = if ltb iov_len (2 ^ 63) then leb iov_len sent else true

-- `current_sended_size -= iov_len`, where it covers that.
abbrev pub taken_off : ℕ → ℕ → ℕ
taken_off sent iov_len = if ltb iov_len (2 ^ 63) then sent - iov_len else sent + (2 ^ 64 - iov_len)

-- The loop of `try_send` over the slots from `i` on, `left` of them in use, with `sent` bytes sent of
-- these, the value of a `ssize_t` that is not negative; whether all was sent.
advance_from : ℕ → ℕ → ℕ → SendBuffer × List ℕ → (SendBuffer × List ℕ) × Bool
unfolding move_ahead
advance_from zero i sent (b, freed) = ((b, freed), true)
advance_from (suc left) i sent (b, freed) =
    let s = b.slots i in
    let left_over = taken_off sent s.iov_len in
    let rest = advance_from left (i + 1) left_over (erase i b, free_slot s freed) in
    let b' = set_slot i (cut sent s) b in
    if covers sent s.iov_len
    then rest
    else ((if i == 0 then b' else move_ahead (suc left) i 0 b', freed), false)

pub advance : ℕ → ℕ → SendBuffer × List ℕ → (SendBuffer × List ℕ) × Bool
unfolding advance_from
advance send_last_index sent s = advance_from send_last_index 0 sent s

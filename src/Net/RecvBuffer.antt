-- ===== src/Net/RecvBuffer.antt =====
-- net/cort_tcp_ctrler.h, `recv_buffer_ctrl`: the block that bytes are received into.
-- `bytes` are those of the block at `recv_buffer`; `malloc` and `realloc` are given by the address that
-- they return, and `malloc` by what its block holds. A `recv_buffer_size_t` is a 32-bit word, negative
-- from 2 ^ 31 on.
pub mod Realloc
use cort_proto.Prelude.{
  ℕ, ◌+◌, ◌-◌, ◌%◌, ◌^◌, ◌<◌, Bool, true, false, if◌then◌else◌, ltb, leb, ◌==◌, ◌&&◌, ◌||◌, not,
  List, [], ◌∷◌,
}

pub record RecvBuffer : Type 0 where
  pub recv_buffer : ℕ
  pub bytes : ℕ → ℕ
  pub recv_buffer_size : ℕ
  pub recved_size : ℕ
  pub recv_check_further_needed : ℕ
  pub recv_finished_shrink_needed : ℕ
  pub is_weak_reference : ℕ

abbrev pub unexpected_data_received : ℕ
unexpected_data_received = 2 ^ 31

abbrev pub default_init_recv_buffer_size : ℕ
default_init_recv_buffer_size = 4096 - 64

-- `a > b` for signed words: both are moved up by 2 ^ 31.
abbrev pub signed_lt : ℕ → ℕ → Bool
signed_lt a b = ltb ((a + 2 ^ 31) % 2 ^ 32) ((b + 2 ^ 31) % 2 ^ 32)

pub create : RecvBuffer
create = record {
  recv_buffer = 0;
  bytes = λ i. 0;
  recv_buffer_size = 0;
  recved_size = 0;
  recv_check_further_needed = 0;
  recv_finished_shrink_needed = 0;
  is_weak_reference = 0;
}

-- Whether `realloc_recv_buffer` calls `malloc` or `realloc`.
abbrev pub allocates : ℕ → RecvBuffer → Bool
allocates new_buffer_size b =
    ((b.recv_buffer == 0) || (b.is_weak_reference == 1))
    || (signed_lt b.recv_buffer_size new_buffer_size || (b.recv_finished_shrink_needed == 1))

-- `malloc` and `realloc` give the address `block`, or 0; a new block holds `junk`.
unfoldable pub realloc_recv_buffer : ℕ → (ℕ → ℕ) → ℕ → RecvBuffer → RecvBuffer
realloc_recv_buffer block junk new_buffer_size b =
    if (b.recv_buffer == 0) || (b.is_weak_reference == 1)
    then record b {
      recv_buffer = block;
      bytes = junk;
      is_weak_reference = 0;
      recv_buffer_size = new_buffer_size;
    }
    else (if signed_lt b.recv_buffer_size new_buffer_size || (b.recv_finished_shrink_needed == 1)
        then record b { recv_buffer = block; recv_buffer_size = new_buffer_size }
        else record b { recv_buffer_size = new_buffer_size })

-- `held` are the bytes of the block at `buf`; the addresses freed so far are passed on.
pub set_recv_buffer : ℕ → (ℕ → ℕ) → ℕ → RecvBuffer × List ℕ → RecvBuffer × List ℕ
set_recv_buffer buf held buf_size (b, freed) = (
  record b {
    recv_buffer = buf;
    bytes = held;
    recv_buffer_size = buf_size;
    recved_size = 0;
    recv_check_further_needed = 0;
    recv_finished_shrink_needed = 0;
    is_weak_reference = 1;
  },
  if (b.is_weak_reference == 0) && not (b.recv_buffer == 0) then b.recv_buffer ∷ freed else freed,
)

-- The destructor: the addresses freed after it.
pub destroy : RecvBuffer × List ℕ → List ℕ
destroy (b, freed) =
    if not (b.recv_buffer == 0) && (b.is_weak_reference == 0) then b.recv_buffer ∷ freed else freed

-- Whether `shrink_to_fit` calls `realloc`.
abbrev pub shrinks : RecvBuffer → Bool
shrinks b =
    not (b.recv_buffer == 0)
    && (signed_lt b.recved_size b.recv_buffer_size && not (b.is_weak_reference == 0))

-- `realloc` gives the address `block`, or 0.
unfoldable pub shrink_to_fit : ℕ → RecvBuffer → RecvBuffer
shrink_to_fit block b =
    if shrinks b then record b { recv_buffer = block; recv_buffer_size = b.recved_size } else b

pub clear : RecvBuffer → RecvBuffer
clear b = record b {
  recved_size = 0;
  recv_check_further_needed = 0;
  recv_finished_shrink_needed = 0;
  is_weak_reference = 0;
}

-- ===== src/Net/RecvBuffer/Realloc.antt =====
-- When the receive buffer keeps what it has received, and when it does not.
use cort_proto.Prelude.{ℕ, ◌^◌, ◌<◌, ◌≤◌, ◌≡◌, ◌≢◌, arith, List, ◌∷◌}
use cort_proto.Net.RecvBuffer.{
  RecvBuffer, realloc_recv_buffer, set_recv_buffer, destroy, shrink_to_fit, clear,
}

-- What has been received lies in the block, whose size is a positive `int32_t`.
pub record IsValid (b : RecvBuffer) : Type 0 where
  pub inside : b.recved_size ≤ b.recv_buffer_size
  pub small : b.recv_buffer_size < 2 ^ 31

-- A block that the buffer owns is given a new size, not below what was received, with what it
-- received kept.
pub realloc_keeps :
    (block : ℕ) (junk : ℕ → ℕ) (size : ℕ) (b : RecvBuffer)
    → IsValid b
    → b.recv_buffer ≢ 0
    → b.is_weak_reference ≡ 0
    → b.recved_size ≤ size
    → size < 2 ^ 31
    → let b' = realloc_recv_buffer block junk size b in
      IsValid b' × (b'.bytes ≡ b.bytes) × (b'.recved_size ≡ b.recved_size)
unfolding realloc_recv_buffer
realloc_keeps block junk size b v held strong fits small = ground arith

-- A block that the program lends to the buffer, when there is one, is not the buffer's to free. But
-- `clear` forgets that it was lent: the destructor leaves a lent block alone only without a `clear`,
-- and after one it frees it.
pub destroy-clear :
    (buf : ℕ) (held : ℕ → ℕ) (size : ℕ) (b : RecvBuffer) (freed : List ℕ)
    → buf ≢ 0
    → let (lent, freed') = set_recv_buffer buf held size (b, freed) in
      (destroy (lent, freed') ≡ freed') × (destroy (clear lent, freed') ≡ buf ∷ freed')
unfolding set_recv_buffer destroy clear
destroy-clear buf held size b freed ne = ground arith

-- `shrink_to_fit` shrinks only blocks that the buffer does not own, by `realloc`, and leaves those
-- that it owns as they are.
pub shrink_to_fit_inverted :
    (block : ℕ) (b : RecvBuffer)
    → IsValid b
    → b.recv_buffer ≢ 0
    → b.recved_size < b.recv_buffer_size
    → (b.is_weak_reference ≡ 0 → shrink_to_fit block b ≡ b)
      × (b.is_weak_reference ≡ 1 → (shrink_to_fit block b).recv_buffer ≡ block)
unfolding shrink_to_fit
shrink_to_fit_inverted block b v held room = ground arith

-- ===== src/Stackful/Stack.antt =====
-- stackful/cort_stackful.h and .cpp: the stack of a coroutine, and where it starts, on a 64-bit machine.
-- An operation gives the stack and the block that it frees, if any. An address is a 64-bit word.
pub mod Alignment
use Prim.Native.Nat.{bit_and, bit_xor}
use cort_proto.Prelude.{
  ℕ, ◌*◌, ◌%◌, ◌^◌, ◌+◌, ◌-◌, Bool, true, false, Option, none, some, if◌then◌else◌,
}
use cort_proto.Prelude.Words.{add64, sub64}

pub record Stack : Type 0 where
  pub stack_base : ℕ
  pub stack_size : ℕ
  pub is_strong_ref : Bool

abbrev pub default_stack_size : ℕ
default_stack_size = 24 * 1024

-- The constructor.
pub create : Stack
create = record { stack_base = 0; stack_size = 0; is_strong_ref = false }

pub set_stack : ℕ → ℕ → Stack → Stack × Option ℕ
set_stack stack_ptr stack_total_size s = (
  record { stack_base = stack_ptr; stack_size = stack_total_size; is_strong_ref = false },
  if s.is_strong_ref then some s.stack_base else none,
)

-- `block` is what `realloc` or `malloc` gives; `realloc` frees the old block.
pub alloc_stack : ℕ → ℕ → Stack → Stack × Option ℕ
alloc_stack block stack_total_size s = (
  record { stack_base = block; stack_size = stack_total_size; is_strong_ref = true },
  if s.is_strong_ref then some s.stack_base else none,
)

-- What the destructor frees of it.
pub destroy : Stack → Option ℕ
destroy s = if s.is_strong_ref then some s.stack_base else none

-- The address that `stackful_start` gives the stack pointer.
unfoldable pub stack_start : Stack → ℕ
stack_start s =
    let sp_top = add64 s.stack_base s.stack_size in
    sub64 sp_top (bit_xor (bit_and sp_top 0x0f) (bit_and (1 * 8) 0x0f))

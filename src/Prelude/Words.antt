-- ===== src/Prelude/Words.antt =====
-- Machine words: `size_t` and `uint64_t` arithmetic modulo 2 ^ 64, `uint32_t` modulo 2 ^ 32, and
-- the laws of `&` with a mask.
use Prim.Native.Nat.{
  ℕ, zero, suc, ◌+◌, ◌-◌, ◌*◌, ◌/◌, ◌%◌, ◌^◌, ◌≤◌, min, bit_and, digits, bit_and-bitwise,
}
use mathlib.Core.Path.{◌≡◌, refl, ap}
use native.Mathlib.Omega.{arith}

abbrev pub add64 : ℕ → ℕ → ℕ
add64 a b = (a + b) % 2 ^ 64

abbrev pub sub64 : ℕ → ℕ → ℕ
sub64 a b = (a + 2 ^ 64 - b) % 2 ^ 64

abbrev pub add32 : ℕ → ℕ → ℕ
add32 a b = (a + b) % 2 ^ 32

abbrev pub sub32 : ℕ → ℕ → ℕ
sub32 a b = (a + 2 ^ 32 - b) % 2 ^ 32

-- `(size_t)(-1)`
abbrev pub npos : ℕ
npos = 2 ^ 64 - 1

-- `2 ^ k` and `2 ^ k - 1`, by doubling.
abbrev pub power : ℕ → ℕ
power zero = 1
power (suc k) = power k * 2

abbrev pub ones : ℕ → ℕ
ones zero = 0
ones (suc k) = ones k * 2 + 1

-- `a & m` as it is defined: on fuel, from the lowest digit up.
abbrev meet : ℕ → ℕ → ℕ → ℕ
meet fuel a m = digits (λ rest. 0) min fuel a m

meet-zero : (fuel a : ℕ) → meet fuel a 0 ≡ 0
meet-zero zero a = refl
meet-zero (suc fuel) zero = refl
meet-zero (suc fuel) (suc a) = omega (arith, meet-zero fuel (suc a / 2))

pub bit_and-zero : (a : ℕ) → bit_and a 0 ≡ 0
bit_and-zero a = omega (arith, bit_and-bitwise a 0, meet-zero a a)

-- A mask of `k` ones keeps the `k` low digits, `kept`.
meet-ones :
    (k fuel high kept a : ℕ)
    → a ≡ high * power k + kept
    → kept ≤ ones k
    → a ≤ fuel
    → meet fuel a (ones k) ≡ kept
meet-ones zero fuel high kept a e h enough = omega (arith, meet-zero fuel a)
meet-ones (suc k) zero high kept a e h enough = omega arith
meet-ones (suc k) (suc fuel) high kept zero e h enough = omega arith
meet-ones (suc k) (suc fuel) high kept (suc a) e h enough =
    let below : ones (suc k) / 2 ≡ ones k = omega arith in
    omega (
      arith,
      ap (meet fuel (suc a / 2)) below,
      meet-ones k fuel high (kept / 2) (suc a / 2) (omega arith) (omega arith) (omega arith),
    )

pub bit_and-ones :
    (k high kept : ℕ) → kept ≤ ones k → bit_and (high * power k + kept) (ones k) ≡ kept
bit_and-ones k high kept h =
    let a = high * power k + kept in
    omega (arith, bit_and-bitwise a (ones k), meet-ones k a high kept a refl h (omega arith))

-- ===== src/Prelude/Store.antt =====
-- Memory as a function from addresses.
use Prim.Native.Nat.{ℕ, ◌+◌, ◌-◌}
use mathlib.Core.Path.{◌≡◌}
use mathlib.Core.Logic.{◌≢◌}
use mathlib.Core.Bool.{true, false, ◌&&◌}
use native.Mathlib.Omega.{arith}
use cort_proto.Prelude.Tests.{leb, ltb, ◌==◌, if◌then◌else◌}

-- Where the cell `q` comes from in `memcpy(mem + dst, mem + src, n)`.
abbrev pub origin : ℕ → ℕ → ℕ → ℕ → ℕ
origin dst src n q = if leb dst q && ltb q (dst + n) then src + (q - dst) else q

module _ {ℓ} {A : Type ℓ} where
  -- `mem[p] = v`
  abbrev pub update : (ℕ → A) → ℕ → A → ℕ → A
  update mem p v q = if p == q then v else mem q

  -- `memcpy(mem + dst, mem + src, n)`, for blocks that do not overlap.
  abbrev pub copy : (ℕ → A) → ℕ → ℕ → ℕ → ℕ → A
  copy mem dst src n q = mem (origin dst src n q)

  pub update_self : (mem : ℕ → A) (p : ℕ) (v : A) → update mem p v p ≡ v
  update_self mem p v = let e : (p == p) ≡ true = ground arith in rw e

  pub update_ne : (mem : ℕ → A) {p q : ℕ} (v : A) → p ≢ q → update mem p v q ≡ mem q
  update_ne mem {p} {q} v h = let e : (p == q) ≡ false = ground arith in rw e

-- ===== src/Prelude/Bits.antt =====
-- A single bit of a word, at any position.
use Prim.Native.Nat.{ℕ, ◌+◌, ◌-◌, ◌*◌, ◌/◌, ◌%◌, ◌^◌, ◌<◌, ◌≤◌}
use mathlib.Core.Path.{◌≡◌}
use mathlib.Core.Logic.{inl, inr}
use mathlib.Core.Bool.{Bool, true, false}
use native.Mathlib.Omega.{arith}
use native.Mathlib.Nat.{one-le-pow, add-div_right, div-eq-sub-div, le-div_iff_mul-le}
use libmoon.Prelude.Tests.{◌==◌, if◌then◌else◌, Bool-cases}

-- `w & (1 << k)`
abbrev pub has_bit : ℕ → ℕ → Bool
has_bit k w = w / 2 ^ k % 2 == 1

-- `w | 1 << k` and `w & ~(1 << k)`
pub with_bit : ℕ → ℕ → ℕ
with_bit k w = if has_bit k w then w else w + 2 ^ k

pub without_bit : ℕ → ℕ → ℕ
without_bit k w = if has_bit k w then w - 2 ^ k else w

power_pos : (k : ℕ) → 0 < 2 ^ k
power_pos k = one-le-pow k 2 (omega arith)

pub has_bit-with_bit : (k w : ℕ) → has_bit k (with_bit k w) ≡ true
unfolding with_bit
has_bit-with_bit k w = elim (Bool-cases (has_bit k w)) [
  | inl set ↦ ground arith
  | inr clear ↦ ground (arith, add-div_right w (power_pos k))
]

pub has_bit-without_bit : (k w : ℕ) → has_bit k (without_bit k w) ≡ false
unfolding without_bit
has_bit-without_bit k w = elim (Bool-cases (has_bit k w)) [
  | inl set ↦
      let some_quotient : 1 ≤ w / 2 ^ k = ground arith in
      let large : 1 * 2 ^ k ≤ w = (le-div_iff_mul-le (power_pos k)).0 some_quotient in
      ground (arith, div-eq-sub-div {m = 2 ^ k} {n = w} (power_pos k) (omega (arith, large)))
  | inr clear ↦ ground arith
]

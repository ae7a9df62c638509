-- ===== src/Tsc/Tests.antt =====
-- A counter that has just passed 2 ^ 32.
use libmoon.Prelude.{ℕ, ◌+◌, ◌/◌, ◌%◌, ◌^◌, ◌≡◌, refl, arith}
use libmoon.Tsc.{read_rdtsc, read_rdtscp}

halves : (t : ℕ) → read_rdtsc (t / 2 ^ 32, t % 2 ^ 32) ≡ t
unfolding read_rdtsc
halves t = omega arith

passed : read_rdtscp (1, 7) ≡ 2 ^ 32 + 7
unfolding read_rdtscp
passed = refl

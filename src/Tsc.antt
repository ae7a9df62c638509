-- ===== src/Tsc.antt =====
-- src/rdtsc.h and `read_rdtsc` of src/util.c: the time stamp counter of the CPU, which its
-- instructions leave in the halves edx and eax. The instruction is an argument: what it leaves there.
mod Tests
use libmoon.Prelude.{ℕ, ◌+◌, ◌*◌, ◌/◌, ◌%◌, ◌^◌, ◌<◌, ◌≡◌, arith}

-- `union tsc_t`: the 64 bits of the two halves, on a little-endian CPU.
pub record TscT : Type 0 where
  pub lo_32 : ℕ
  pub hi_32 : ℕ

pub tsc_64 : TscT → ℕ
tsc_64 tsc = tsc.lo_32 + tsc.hi_32 * 2 ^ 32

-- `edx` and `eax` after RDTSC
pub read_rdtsc : ℕ × ℕ → ℕ
unfolding tsc_64
read_rdtsc (edx, eax) = tsc_64 (record { lo_32 = eax; hi_32 = edx })

-- after RDTSCP
pub read_rdtscp : ℕ × ℕ → ℕ
unfolding tsc_64
read_rdtscp (edx, eax) = tsc_64 (record { lo_32 = eax; hi_32 = edx })

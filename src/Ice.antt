-- ===== src/Ice.antt =====
-- src/ice.c: the PTP timer of an E810 card, whose 64 bits are read in two halves.
-- `timer k` is the value of the timer when the function makes its k-th register read; `rd32` of the
-- driver and the macros that give the addresses of the two registers are outside.
pub mod ReadTimer
pub mod Limits
mod Tests
use libmoon.Prelude.{ℕ, ◌+◌, ◌*◌, ◌/◌, ◌%◌, ◌^◌, ltb, if◌then◌else◌}

-- GLTSYN_TIME_L and GLTSYN_TIME_H at the value `t` of the timer.
abbrev pub time_l : ℕ → ℕ
time_l t = t % 2 ^ 32

abbrev pub time_h : ℕ → ℕ
time_h t = t / 2 ^ 32 % 2 ^ 32

pub ice_read_current_timer : (ℕ → ℕ) → ℕ
ice_read_current_timer timer =
    let time_l1 = time_l (timer 0) in
    let time_h1 = time_h (timer 1) in
    let time_l2 = time_l (timer 2) in
    if ltb time_l2 time_l1
    then time_h (timer 4) * 2 ^ 32 + time_l (timer 3)
    else time_h1 * 2 ^ 32 + time_l1

-- ===== src/Ice/ReadTimer.antt =====
-- Reading a counter in two halves while it runs.
use libmoon.Prelude.{
  ℕ, ◌+◌, ◌*◌, ◌/◌, ◌^◌, ◌≤◌, ◌<◌, ◌≡◌, ◌⊎◌, inl, inr, arith, ltb, ltb→lt, ltb→le, Bool-cases,
}
use libmoon.Ice.{time_l, time_h, ice_read_current_timer}

-- The reads of a timer that runs forward, and that has 64 bits.
pub record Runs (timer : ℕ → ℕ) : Type 0 where
  pub forward : (k : ℕ) → timer k ≤ timer (k + 1)
  pub bits : (k : ℕ) → timer k < 2 ^ 64

halves : (a b : ℕ) → a / 2 ^ 32 ≡ b / 2 ^ 32 → b < 2 ^ 64 → time_h b * 2 ^ 32 + time_l a ≡ a
halves a b e h = omega arith

-- Whenever the low half overflows, `ice_read_current_timer` returns a value that the timer had at one
-- of the reads, if the reads together take less than 2 ^ 32 ticks.
pub ice_read_current_timer_lem :
    (timer : ℕ → ℕ)
    → Runs timer
    → timer 4 < timer 0 + 2 ^ 32
    → (ice_read_current_timer timer ≡ timer 0) ⊎ (ice_read_current_timer timer ≡ timer 3)
unfolding ice_read_current_timer
ice_read_current_timer_lem timer r short =
    let f0 = r.forward 0 in
    let f1 = r.forward 1 in
    let f2 = r.forward 2 in
    let f3 = r.forward 3 in
    elim (Bool-cases (ltb (time_l (timer 2)) (time_l (timer 0)))) [
      | inl wrapped ↦
          let less = ltb→lt (time_l (timer 2)) (time_l (timer 0)) wrapped in
          let same : timer 3 / 2 ^ 32 ≡ timer 4 / 2 ^ 32 = omega arith in
          inr (ground (arith, halves (timer 3) (timer 4) same (r.bits 4)))
      | inr straight ↦
          let least = ltb→le (time_l (timer 2)) (time_l (timer 0)) straight in
          let same : timer 0 / 2 ^ 32 ≡ timer 1 / 2 ^ 32 = omega arith in
          inl (ground (arith, halves (timer 0) (timer 1) same (r.bits 1)))
    ]

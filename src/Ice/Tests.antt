-- ===== src/Ice/Tests.antt =====
-- A timer that advances by 3 from read to read, and whose low half overflows after the first.
use libmoon.Prelude.{ℕ, ◌+◌, ◌-◌, ◌*◌, ◌^◌, ◌≡◌, ◌⊎◌, refl, arith, min}
use libmoon.Ice.{ice_read_current_timer}
use libmoon.Ice.ReadTimer.{Runs, ice_read_current_timer_lem}

abbrev timer : ℕ → ℕ
timer k = 2 ^ 32 - 2 + 3 * min k 10

timer-Runs : Runs timer
timer-Runs = record { forward = λ k. omega arith; bits = λ k. omega arith }

reads_again : ice_read_current_timer timer ≡ 2 ^ 32 + 7
unfolding ice_read_current_timer
reads_again = refl

ice_read_current_timer_lem_example :
    (ice_read_current_timer timer ≡ 2 ^ 32 - 2) ⊎ (ice_read_current_timer timer ≡ 2 ^ 32 + 7)
ice_read_current_timer_lem_example = ice_read_current_timer_lem timer timer-Runs (omega arith)

-- ===== src/Lifecycle/Tests.antt =====
-- The life of a run at concrete times, in cycles of a 1 GHz counter.
use libmoon.Prelude.{ℕ, ◌≡◌, refl, true, false, none, [], ◌∷◌, arith}
use libmoon.Lifecycle.{Lifecycle, never, initial, handler, is_running, set_runtime, runtime}
use libmoon.Lifecycle.Running.{replay, signal_is_final}

abbrev ghz : ℕ
ghz = 1000000000

-- One second of run time from cycle 5 on.
abbrev one_second : Lifecycle
one_second = record { stop_at = 1000000005; signal_at = never }

starts : (set_runtime ghz 5 1000 initial ≡ one_second) × (is_running ghz 5 0 one_second ≡ true)
unfolding set_runtime is_running
starts = (refl, refl)

second_signal_aborts : handler 8 (record one_second { signal_at = 7 }) ≡ none
unfolding handler
second_signal_aborts = refl

signal_is_final_example :
    is_running ghz 100 0 (record { stop_at = 1000000050; signal_at = 40 }) ≡ false
unfolding handler replay set_runtime
signal_is_final_example =
    signal_is_final ghz 40 100 ((50, runtime 1000) ∷ []) one_second
      (record one_second { signal_at = 40 }) {end = record { stop_at = 1000000050; signal_at = 40 }}
      (omega arith) (omega arith) (omega arith) refl refl

-- ===== src/Lifecycle.antt =====
-- src/lifecycle.hpp and src/lifecycle.cpp: when the tasks of a run have to stop.
-- The time stamp counter and its frequency (`rte_rdtsc`, `rte_get_tsc_hz`) are read from outside.
pub mod Running
mod Tests
use libmoon.Prelude.{
  ℕ, ◌+◌, ◌-◌, ◌*◌, ◌/◌, ◌%◌, ◌^◌, Bool, ◌&&◌, Option, none, some, ltb, if◌then◌else◌, sub64, ◌==◌,
  ◌≡◌, ◌≤◌, List, [], ◌∷◌,
}

-- (uint64_t) -1
abbrev pub never : ℕ
never = 2 ^ 64 - 1

-- The two static variables.
pub record Lifecycle : Type 0 where
  pub stop_at : ℕ
  pub signal_at : ℕ

abbrev pub initial : Lifecycle
initial = record { stop_at = never; signal_at = never }

-- `handler` at the time `now`; `none` is `std::abort`.
pub handler : ℕ → Lifecycle → Option Lifecycle
handler now l = if l.signal_at == never then some (record l { signal_at = now }) else none

-- `is_running`, with `hz` the frequency
unfoldable pub is_running : ℕ → ℕ → ℕ → Lifecycle → Bool
is_running hz now extra_time l =
    let extra_time_cycles : ℕ = extra_time * hz % 2 ^ 64 / 1000 in
    let time : ℕ = sub64 now extra_time_cycles in ltb time l.signal_at && ltb time l.stop_at

pub set_runtime : ℕ → ℕ → ℕ → Lifecycle → Lifecycle
set_runtime hz now run_time l = record l {
  stop_at = (now + run_time * hz % 2 ^ 64 / 1000) % 2 ^ 64;
}

-- What changes the two variables.
pub data Event : Type 0 where
  signal : Event
  runtime : ℕ → Event

abbrev pub react : ℕ → ℕ → Event → Lifecycle → Option Lifecycle
react hz now signal l = handler now l
react hz now (runtime run_time) l = some (set_runtime hz now run_time l)

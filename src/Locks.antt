-- ===== src/Locks.antt =====
-- src/lock.cpp: the locks that tasks share, each a `std::recursive_timed_mutex`.
-- A mutex is who holds it and how often. A task is a number. `none` of a lock is that the caller has
-- to wait; `none` of an unlock is undefined, since the caller does not hold the mutex.
pub mod Exclusion
mod Tests
use libmoon.Prelude.{
  ℕ, zero, suc, ◌+◌, ◌-◌, Bool, true, false, Option, none, some, List, [], ◌∷◌, ◌==◌, if◌then◌else◌,
}

-- The holder, and one less than the number of times that it holds the mutex.
pub data Mutex : Type 0 where
  free : Mutex
  held : ℕ → ℕ → Mutex

unfoldable pub make_lock : Mutex
make_lock = free

unfoldable pub lock_lock : ℕ → Mutex → Option Mutex
lock_lock t free = some (held t 0)
lock_lock t (held s depth) = if s == t then some (held s (suc depth)) else none

unfoldable pub lock_unlock : ℕ → Mutex → Option Mutex
lock_unlock t free = none
lock_unlock t (held s depth) =
    if s == t then elim depth [ zero ↦ some free | suc d ↦ some (held s d) ] else none

-- `fails`: the standard lets the call fail on a free mutex, too. The number returned is a `bool` in
-- 32 bits.
unfoldable pub lock_try_lock : Bool → ℕ → Mutex → ℕ × Mutex
lock_try_lock fails t m =
    let got : ℕ × Mutex = elim (lock_lock t m) [ none ↦ (0, m) | some m' ↦ (1, m') ] in
    if fails then (0, m) else got

-- `later`: the mutex after the microseconds, if the call does not get it at once. This call may fail
-- spuriously, too.
pub lock_try_lock_for : Bool → ℕ → Mutex → Mutex → ℕ × Mutex
lock_try_lock_for fails t m later = elim (lock_lock t m) [
  | none ↦ lock_try_lock fails t later
  | some m' ↦ if fails then (0, later) else (1, m')
]

-- What a task does: it asks for the lock or gives it back.
pub data LockCall : Type 0 where
  locks unlocks : ℕ → LockCall
  tries : Bool → ℕ → LockCall  -- does it fail spuriously?

-- A call that has to wait has not taken effect.
unfoldable pub take_effect : LockCall → Mutex → Option Mutex
take_effect (locks t) m = lock_lock t m
take_effect (unlocks t) m = lock_unlock t m
take_effect (tries fails t) m = some (lock_try_lock fails t m).1

-- The state after the calls in the order in which they take effect.
pub take_effects : List LockCall → Mutex → Option Mutex
take_effects [] m = some m
take_effects (c ∷ cs) m = elim (take_effect c m) [ none ↦ none | some m' ↦ take_effects cs m' ]

-- ===== src/Locks/Exclusion.antt =====
-- One holder at a time, for as long as it has not given back every lock that it took.
use libmoon.Prelude.{
  ℕ, zero, suc, ◌+◌, ◌≡◌, ◌≢◌, ◌⊎◌, inl, inr, refl, Option, none, some, List, [], ◌∷◌, ◌==◌, arith,
  if◌then◌else◌, Option-cases, Bool-cases,
}
use libmoon.Locks.{
  Mutex, free, held, make_lock, lock_lock, lock_unlock, lock_try_lock, LockCall, locks, unlocks,
  tries, take_effect, take_effects,
}

-- How often the task holds the mutex.
abbrev pub times_held : ℕ → Mutex → ℕ
times_held t free = 0
times_held t (held s depth) = if s == t then suc depth else 0

-- The locks that the task got, and those that it gave back, in a run from `m`.
abbrev pub gained : ℕ → LockCall → Mutex → ℕ
gained t (locks s) m = if s == t then 1 else 0
gained t (unlocks s) m = 0
gained t (tries fails s) m = if s == t then (lock_try_lock fails s m).0 else 0

abbrev pub given_back : ℕ → LockCall → ℕ
given_back t (locks s) = 0
given_back t (unlocks s) = if s == t then 1 else 0
given_back t (tries fails s) = 0

abbrev pub or_same : Option Mutex → Mutex → Mutex
or_same none m = m
or_same (some m') m = m'

abbrev pub all_gained : ℕ → List LockCall → Mutex → ℕ
all_gained t [] m = 0
all_gained t (c ∷ cs) m = gained t c m + all_gained t cs (or_same (take_effect c m) m)

abbrev pub all_given_back : ℕ → List LockCall → ℕ
all_given_back t [] = 0
all_given_back t (c ∷ cs) = given_back t c + all_given_back t cs

one_call :
    (t : ℕ) (c : LockCall) (m m' : Mutex)
    → take_effect c m ≡ some m'
    → times_held t m + gained t c m ≡ times_held t m' + given_back t c
unfolding take_effect lock_lock lock_unlock lock_try_lock
one_call t (locks s) free m' h = ground arith
one_call t (locks s) (held r d) m' h = ground arith
one_call t (unlocks s) free m' h = ground arith
one_call t (unlocks s) (held r zero) m' h = ground arith
one_call t (unlocks s) (held r (suc d)) m' h = ground arith
one_call t (tries fails s) free m' h = ground arith
one_call t (tries fails s) (held r d) m' h = ground arith

balance :
    (t : ℕ) (cs : List LockCall) (m end : Mutex)
    → take_effects cs m ≡ some end
    → times_held t m + all_gained t cs m ≡ times_held t end + all_given_back t cs
unfolding take_effects
balance t [] m end h = ground arith
balance t (c ∷ cs) m end h = elim (Option-cases (take_effect c m)) [
  | inl waits ↦ ground (arith, waits)
  | inr (m', done) ↦
      let rest : take_effects cs m' ≡ some end = rw (done, take_effects) at h in
      rw done (omega (arith, one_call t c m m' done, balance t cs m' end rest))
]

one_holder : (s t : ℕ) (m : Mutex) → s ≢ t → (times_held s m ≡ 0) ⊎ (times_held t m ≡ 0)
one_holder s t free h = inl refl
one_holder s t (held r d) h = elim (Bool-cases (r == s)) [
  | inl same ↦ inr (ground arith)
  | inr apart ↦ inl (ground arith)
]

-- In whatever order the calls of all tasks on a new lock take effect, none of them an unlock by a task
-- that does not hold it: of two tasks, one has given back every lock that it got.
take_effects-exclusion :
    (s t : ℕ) (cs : List LockCall) (end : Mutex)
    → s ≢ t
    → take_effects cs make_lock ≡ some end
    → (all_gained s cs make_lock ≡ all_given_back s cs)
      ⊎ (all_gained t cs make_lock ≡ all_given_back t cs)
unfolding make_lock
take_effects-exclusion s t cs end h done = elim (one_holder s t end h) [
  | inl none_s ↦ inl (omega (arith, balance s cs free end done))
  | inr none_t ↦ inr (omega (arith, balance t cs free end done))
]

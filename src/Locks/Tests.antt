-- ===== src/Locks/Tests.antt =====
-- Two tasks: the first takes the lock twice, the second tries, and gets it when it is given back.
use libmoon.Prelude.{◌≡◌, refl, some, none, true, false, List, [], ◌∷◌}
use libmoon.Locks.{
  make_lock, lock_try_lock_for, lock_lock, lock_try_lock, take_effect, lock_unlock, held, free,
  LockCall, locks, unlocks, tries, take_effects,
}

abbrev calls : List LockCall
calls = locks 1 ∷ tries false 1 ∷ tries false 2 ∷ unlocks 1 ∷ unlocks 1 ∷ locks 2 ∷ []

abbrev too_soon : List LockCall
too_soon = locks 1 ∷ locks 2 ∷ []

waits : take_effects too_soon make_lock ≡ none
unfolding take_effects take_effect lock_lock make_lock
waits = refl

given_in_time : lock_try_lock_for false 2 (held 1 0) free ≡ (1, held 2 0)
unfolding lock_try_lock_for lock_try_lock lock_lock
given_in_time = refl

failed_on_free : lock_try_lock true 2 free ≡ (0, free)
unfolding lock_try_lock
failed_on_free = refl

turn_over : take_effects calls make_lock ≡ some (held 2 0)
unfolding take_effects take_effect lock_lock lock_try_lock lock_unlock make_lock
turn_over = refl

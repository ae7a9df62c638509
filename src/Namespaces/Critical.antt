-- ===== src/Namespaces/Critical.antt =====
-- A task that holds the mutex of a namespace has the namespace for itself.
use libmoon.Prelude.{ℕ, ◌≡◌}
use libmoon.Locks.{held}
use libmoon.Namespaces.Locked.{LockableMap, Action, change_by, IsBy}

-- One action while the task holds the mutex.
record Inside (t : ℕ) (a : Action) (e : ℕ) (ns ns' : LockableMap) : Type 0 where
  by : IsBy t a
  lock : ns'.lock ≡ held t e
  map : ns'.map ≡ change_by t a ns.map

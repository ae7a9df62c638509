-- ===== src/Namespaces/Locked.antt =====
-- One namespace with its mutex, which `namespace_get_lock` hands to tasks: a task that holds it makes
-- several calls while the others wait. A mutex is that of src/lock.cpp (Locks), a task is a number.
use libmoon.Prelude.{
  Text, ℕ, zero, suc, ◌≡◌, Option, none, some, List, [], ◌∷◌, ◌==◌, if◌then◌else◌, ◌&&◌, not,
}
use libmoon.Locks.{Mutex, lock_lock, lock_unlock, LockCall, locks, unlocks, tries, take_effect}
use libmoon.Namespaces.{TextMap, insert, erase}

-- `lockable_map<std::string, std::string>`
pub record LockableMap : Type 0 where
  pub map : TextMap Text
  pub lock : Mutex

unfoldable pub namespace_get_lock : LockableMap → Mutex
namespace_get_lock ns = ns.lock

-- What a task does with a namespace: `uses` is a call of src/lock.cpp on its mutex, `reads` is
-- `namespace_retrieve` or `namespace_iterate`.
pub data Action : Type 0 where
  uses : LockCall → Action
  stores : ℕ → Text → Text → Action
  deletes : ℕ → Text → Action
  reads : ℕ → Action

abbrev pub with_lock : TextMap Text → Option Mutex → Option LockableMap
with_lock map none = none
with_lock map (some m) = some (record { map = map; lock = m })

abbrev pub unlock_after : ℕ → TextMap Text → Option Mutex → Option LockableMap
unlock_after t map none = none
unlock_after t map (some m) = with_lock map (lock_unlock t m)

-- A function of the namespace under its `std::lock_guard`. No other task's call comes in between, for
-- each waits for the mutex; `none` means that this call waits too.
unfoldable pub guarded : ℕ → (TextMap Text → TextMap Text) → LockableMap → Option LockableMap
guarded t f ns = unlock_after t (f ns.map) (lock_lock t ns.lock)

unfoldable pub act : Action → LockableMap → Option LockableMap
act (uses c) ns = with_lock ns.map (take_effect c (namespace_get_lock ns))
act (stores t key value) ns = guarded t (insert key value) ns
act (deletes t key) ns = guarded t (erase key) ns
act (reads t) ns = guarded t (λ m. m) ns

abbrev pub then_acts : Option LockableMap → (LockableMap → Option LockableMap) → Option LockableMap
then_acts none f = none
then_acts (some ns) f = f ns

-- Actions in the order in which they take effect.
unfoldable pub acts : List Action → LockableMap → Option LockableMap
acts [] ns = some ns
acts (a ∷ rest) ns = then_acts (act a ns) (acts rest)

-- How deep the task holds the mutex after an action, from `held t d` on; `none` means that it has
-- given it back.
abbrev pub depth_after : ℕ → Action → ℕ → Option ℕ
depth_after t (uses (locks s)) d = some (if s == t then suc d else d)
depth_after t (uses (tries fails s)) d = some (if s == t && not fails then suc d else d)
depth_after t (uses (unlocks s)) zero = if s == t then none else some zero
depth_after t (uses (unlocks s)) (suc d) = some (if s == t then d else suc d)
depth_after t (stores s key value) d = some d
depth_after t (deletes s key) d = some d
depth_after t (reads s) d = some d

-- The task does not give the mutex back.
abbrev pub IsInside : ℕ → List Action → Option ℕ → Type 0
IsInside t rest none = ⊥
IsInside t [] (some d) = Unit
IsInside t (a ∷ rest) (some d) = IsInside t rest (depth_after t a d)

-- The task's own changes of the map.
abbrev pub change_by : ℕ → Action → TextMap Text → TextMap Text
change_by t (uses c) m = m
change_by t (stores s key value) m = if s == t then insert key value m else m
change_by t (deletes s key) m = if s == t then erase key m else m
change_by t (reads s) m = m

abbrev pub changes_by : ℕ → List Action → TextMap Text → TextMap Text
changes_by t [] m = m
changes_by t (a ∷ rest) m = changes_by t rest (change_by t a m)

-- The task does it, or it is a try of another, which gets nothing.
abbrev pub IsBy : ℕ → Action → Type 0
IsBy t (uses (locks s)) = s ≡ t
IsBy t (uses (unlocks s)) = s ≡ t
IsBy t (uses (tries fails s)) = Unit
IsBy t (stores s key value) = s ≡ t
IsBy t (deletes s key) = s ≡ t
IsBy t (reads s) = s ≡ t

abbrev pub AllBy : ℕ → List Action → Type 0
AllBy t [] = Unit
AllBy t (a ∷ rest) = IsBy t a × AllBy t rest

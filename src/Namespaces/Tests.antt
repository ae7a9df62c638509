-- ===== src/Namespaces/Tests.antt =====
-- Two namespaces, named "a" and "b", with a key each.
use libmoon.Prelude.{Text, ◌≡◌, refl, false, none, some, List, [], ◌∷◌}
use libmoon.Namespaces.{
  Namespaces, initial, create_or_get_namespace, namespace_iterate, namespace_store,
  namespace_delete, namespace_retrieve,
}
use libmoon.Locks.{held, locks, unlocks, tries, take_effect, lock_lock, lock_unlock}
use libmoon.Namespaces.Locked.{
  LockableMap, namespace_get_lock, Action, uses, stores, reads, guarded, act, acts,
}
use libmoon.Namespaces.Shared.{
  Call, store, delete, retrieve, iterate, Reply, done, value, entries, serve, run, nowhere,
  AreAnswers,
}
use libmoon.Namespaces.Refine.{run_lem}
use libmoon.Namespaces.Laws.{IsValid}

abbrev a : Text
a = 97 ∷ []

abbrev b : Text
b = 98 ∷ []

abbrev one : Namespaces
one = record { directory = (a, 0) ∷ []; maps = [] ∷ [] }

abbrev two : Namespaces
two = record { directory = (a, 0) ∷ (b, 1) ∷ []; maps = ((a, b) ∷ []) ∷ ((b, a) ∷ []) ∷ [] }

first_name : create_or_get_namespace a initial ≡ (0, one)
unfolding create_or_get_namespace
first_name = refl

lists_all : namespace_iterate 1 two ≡ some ((b, a) ∷ [])
unfolding namespace_iterate
lists_all = refl

initial-IsValid : IsValid initial
initial-IsValid = record { leads = λ name ns h. cc; apart = λ name name' ns h k. cc }

-- Both namespaces have a value under the same key; the value in the first is replaced.
abbrev script : List Call
script =
    store a a b
    ∷ store b a a
    ∷ store a a a
    ∷ delete b a
    ∷ retrieve a a
    ∷ retrieve b a
    ∷ iterate a
    ∷ []

script_replies :
    run initial script
    ≡ some (
      done ∷ done ∷ done ∷ done ∷ value (some a) ∷ value none ∷ entries ((a, a) ∷ []) ∷ [],
      record { directory = (a, 0) ∷ (b, 1) ∷ []; maps = ((a, a) ∷ []) ∷ [] ∷ [] },
    )
unfolding run serve create_or_get_namespace namespace_store namespace_delete namespace_retrieve
    namespace_iterate
script_replies = refl

run_lem_example :
    (rs : List Reply) × (end : Namespaces) × (run initial script ≡ some (rs, end))
    × AreAnswers nowhere script rs
run_lem_example = run_lem script

-- Task 1 replaces a value that it has read, while task 2 tries to get the mutex.
abbrev taken : LockableMap
taken = record { map = (a, b) ∷ []; lock = held 1 0 }

abbrev replaces : List Action
replaces = reads 1 ∷ uses (tries false 2) ∷ uses (locks 1) ∷ stores 1 a a ∷ uses (unlocks 1) ∷ []

-- A store of task 2 waits.
kept_out : acts (reads 1 ∷ stores 2 a a ∷ []) taken ≡ none
unfolding acts act guarded take_effect lock_lock lock_unlock namespace_get_lock
kept_out = refl

-- ===== src/Namespaces.antt =====
-- src/namespaces.cpp: the global maps that tasks share. A text is the list of its bytes; texts are
-- compared by `same`. A `ns*` is the number of its map: maps are never freed, so a pointer stays
-- good, and one that the program never got is a fault. Each function holds the mutex of the map it
-- works on for its whole body, so calls on one map are one after the other.
pub mod Laws
pub mod Shared
pub mod Refine
pub mod Locked
pub mod Critical
mod Tests
use libmoon.Prelude.{
  ℕ, zero, suc, ◌+◌, ◌≡◌, refl, Bool, true, false, Option, none, some, List, [], ◌∷◌, ◌++◌,
  if◌then◌else◌, ◌==◌, ◌&&◌, length, get_elem?, set, Text,
}

abbrev pub same : Text → Text → Bool
same [] [] = true
same [] (b ∷ t) = false
same (a ∷ s) [] = false
same (a ∷ s) (b ∷ t) = if a == b then same s t else false

abbrev pub TextMap : Type 0 → Type 0
TextMap V = List (Text × V)

abbrev pub find : {V : Type 0} → Text → TextMap V → Option V
find k [] = none
find k ((j, v) ∷ m) = if same k j then some v else find k m

-- `map[k] = v`
abbrev pub insert : {V : Type 0} → Text → V → TextMap V → TextMap V
insert k v [] = (k, v) ∷ []
insert k v ((j, w) ∷ m) = if same k j then (j, v) ∷ m else (j, w) ∷ insert k v m

abbrev pub erase : {V : Type 0} → Text → TextMap V → TextMap V
erase k [] = []
erase k ((j, w) ∷ m) = if same k j then erase k m else (j, w) ∷ erase k m

-- `namespaces.map`, and the map behind each pointer.
pub record Namespaces : Type 0 where
  pub directory : TextMap ℕ
  pub maps : List (TextMap Text)

abbrev pub initial : Namespaces
initial = record { directory = []; maps = [] }

-- The pointer that was found, or that of a new empty map, which the directory gets.
abbrev pub found_or_new : Text → Namespaces → Option ℕ → ℕ × Namespaces
found_or_new name s (some ns) = (ns, s)
found_or_new name s none = (
  length s.maps,
  record { directory = insert name (length s.maps) s.directory; maps = s.maps ++ ([] ∷ []) },
)

pub create_or_get_namespace : Text → Namespaces → ℕ × Namespaces
create_or_get_namespace name s = found_or_new name s (find name s.directory)

abbrev pub change :
    ℕ → (TextMap Text → TextMap Text) → Namespaces → Option (TextMap Text) → Option Namespaces
change ns f s none = none
change ns f s (some m) = some (record s { maps = set s.maps ns (f m) })

-- `none` is a pointer that leads nowhere.
pub namespace_store : ℕ → Text → Text → Namespaces → Option Namespaces
namespace_store ns key value s = change ns (insert key value) s (get_elem? s.maps ns)

pub namespace_delete : ℕ → Text → Namespaces → Option Namespaces
namespace_delete ns key s = change ns (erase key) s (get_elem? s.maps ns)

abbrev pub look_up : Text → Option (TextMap Text) → Option (Option Text)
look_up key none = none
look_up key (some m) = some (find key m)

-- The value, or nullptr (the inner `none`).
pub namespace_retrieve : ℕ → Text → Namespaces → Option (Option Text)
namespace_retrieve ns key s = look_up key (get_elem? s.maps ns)

-- The keys and values that the callback is called with; their order is that of the model's list.
pub namespace_iterate : ℕ → Namespaces → Option (TextMap Text)
namespace_iterate ns s = get_elem? s.maps ns

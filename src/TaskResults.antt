-- ===== src/TaskResults.antt =====
-- src/task-results.cpp: the results of tasks by their number. Each function takes the mutex for its
-- whole body, so calls are one after the other. A result is a text, kept by its bytes.
pub mod Laws
pub mod Refine
mod Tests
use libmoon.Prelude.{ℕ, ◌+◌, ◌%◌, ◌^◌, Option, none, some, List, [], ◌∷◌, if◌then◌else◌, ◌==◌}

abbrev pub Text : Type 0
Text = List ℕ

-- The three static variables: the map, and the counter that starts at 1.
pub record TaskResults : Type 0 where
  pub results : List (ℕ × Text)
  pub task_id_ctr : ℕ

abbrev pub initial : TaskResults
initial = record { results = []; task_id_ctr = 1 }

abbrev pub find : ℕ → List (ℕ × Text) → Option Text
find id [] = none
find id ((j, v) ∷ m) = if id == j then some v else find id m

-- `emplace` leaves a value that is there.
abbrev pub emplace : ℕ → Text → List (ℕ × Text) → List (ℕ × Text)
emplace id v [] = (id, v) ∷ []
emplace id v ((j, w) ∷ m) = if id == j then (j, w) ∷ m else (j, w) ∷ emplace id v m

abbrev pub erase : ℕ → List (ℕ × Text) → List (ℕ × Text)
erase id [] = []
erase id ((j, w) ∷ m) = if id == j then erase id m else (j, w) ∷ erase id m

pub task_generate_id : TaskResults → ℕ × TaskResults
task_generate_id s = (s.task_id_ctr, record s { task_id_ctr = (s.task_id_ctr + 1) % 2 ^ 64 })

pub task_store_result : ℕ → Text → TaskResults → TaskResults
task_store_result task_id result s = record s { results = emplace task_id result s.results }

abbrev pub hand_over : ℕ → TaskResults → Option Text → Option Text × TaskResults
hand_over task_id s none = (none, s)
hand_over task_id s (some v) = (some v, record s { results = erase task_id s.results })

-- The copy that the caller gets, or nullptr.
pub task_get_result : ℕ → TaskResults → Option Text × TaskResults
task_get_result task_id s = hand_over task_id s (find task_id s.results)

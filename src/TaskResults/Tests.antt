-- ===== src/TaskResults/Tests.antt =====
-- Results of tasks 7 and 8.
use libmoon.Prelude.{List, some, none, ◌≡◌, refl, [], ◌∷◌}
use libmoon.TaskResults.{TaskResults, initial, task_generate_id, task_store_result, task_get_result}
use libmoon.TaskResults.Refine.{
  Call, generate_id, store_result, get_result, number, done, result, serve, run, answers, at_start,
  run-initial,
}

abbrev seven : TaskResults
seven = record initial { results = (7, 1 ∷ 2 ∷ []) ∷ [] }

first_id : (task_generate_id initial).0 ≡ 1
unfolding task_generate_id
first_id = refl

-- A second result for a task is dropped, and a result is handed over once.
abbrev script : List Call
script =
    generate_id
    ∷ generate_id
    ∷ store_result 1 (104 ∷ [])
    ∷ store_result 1 (105 ∷ [])
    ∷ get_result 2
    ∷ get_result 1
    ∷ get_result 1
    ∷ []

script_replies :
    run initial script
    ≡ number 1 ∷ number 2 ∷ done ∷ done ∷ result none ∷ result (some (104 ∷ [])) ∷ result none ∷ []
unfolding run serve task_generate_id task_store_result task_get_result
script_replies = refl

run-initial_example : run initial script ≡ answers at_start script
run-initial_example = run-initial script

-- ===== src/TaskResults/Laws.antt =====
-- A result is handed over once, to the task that has its number.
use libmoon.Prelude.{
  ℕ, zero, suc, ◌+◌, ◌%◌, ◌^◌, ◌≤◌, ◌<◌, ◌≡◌, ◌≢◌, refl, none, some, List, [], ◌∷◌, arith,
  Option-cases, inl, inr, if◌then◌else◌, ◌==◌,
}
use mathlib.Core.Path.{subst}
use libmoon.TaskResults.{
  Text, TaskResults, find, emplace, erase, task_generate_id, task_store_result, task_get_result,
}

pub find-emplace :
    (id j : ℕ) (v : Text) (m : List (ℕ × Text))
    → find id m ≡ none
    → find j (emplace id v m) ≡ (if j == id then some v else find j m)
find-emplace id j v [] h = refl
find-emplace id j v ((k, w) ∷ m) h = ground (arith, find-emplace id j v m)

erase-absent : (id : ℕ) (m : List (ℕ × Text)) → find id m ≡ none → erase id m ≡ m
erase-absent id [] h = refl
erase-absent id ((k, w) ∷ m) h = ground (arith, erase-absent id m)

erase-emplace :
    (id : ℕ) (v : Text) (m : List (ℕ × Text)) → find id m ≡ none → erase id (emplace id v m) ≡ m
erase-emplace id v [] h = ground arith
erase-emplace id v ((k, w) ∷ m) h = ground (arith, erase-emplace id v m, erase-absent id m)

pub find-erase :
    (id j : ℕ) (m : List (ℕ × Text)) → find j (erase id m) ≡ (if j == id then none else find j m)
find-erase id j [] = ground arith
find-erase id j ((k, w) ∷ m) = ground (arith, find-erase id j m)

pub emplace-present :
    (id : ℕ) (v w : Text) (m : List (ℕ × Text)) → find id m ≡ some w → emplace id v m ≡ m
emplace-present id v w [] h = cc
emplace-present id v w ((k, u) ∷ m) h = ground (arith, emplace-present id v w m)

-- A result that is stored under a number that has none is got back, and the store is as it was.
get_result-store_result :
    (id : ℕ) (v : Text) (s : TaskResults)
    → find id s.results ≡ none
    → task_get_result id (task_store_result id v s) ≡ (some v, s)
unfolding task_get_result task_store_result
get_result-store_result id v s h =
    ground (arith, find-emplace id id v s.results h, erase-emplace id v s.results h)

-- Getting the result of one task takes it away: the same number has none afterwards, and every other
-- has what it had.
get_result_once :
    (id j : ℕ) (s : TaskResults)
    → let after = (task_get_result id s).1 in
      ((task_get_result id after).0 ≡ none)
      × (j ≢ id → (task_get_result j after).0 ≡ (task_get_result j s).0)
unfolding task_get_result
get_result_once id j s = elim (Option-cases (find id s.results)) [
  | inl absent ↦ (ground arith, λ ne. ground arith)
  | inr (v, present) ↦
      (ground (arith, find-erase id id s.results), λ ne. ground (arith, find-erase id j s.results))
]

-- The numbers that `n` calls in a row give out.
pub generate : ℕ → TaskResults → List ℕ
generate zero s = []
generate (suc n) s = let (id, s') = task_generate_id s in id ∷ generate n s'

-- Every number of the list is at least `lo`, and they increase.
abbrev pub IsIncreasing : ℕ → List ℕ → Type 0
IsIncreasing lo [] = Unit
IsIncreasing lo (id ∷ ids) = (lo ≤ id) × IsIncreasing (id + 1) ids

-- The numbers of tasks increase, so no two tasks have one number, until the 64-bit counter wraps.
generate-IsIncreasing :
    (n : ℕ) (s : TaskResults)
    → s.task_id_ctr + n < 2 ^ 64
    → IsIncreasing s.task_id_ctr (generate n s)
unfolding generate task_generate_id
generate-IsIncreasing zero s h = tt
generate-IsIncreasing (suc n) s h =
    let next : (s.task_id_ctr + 1) % 2 ^ 64 ≡ s.task_id_ctr + 1 = omega arith in
    (
      omega arith,
      subst (λ k. IsIncreasing k (generate n (task_generate_id s).1)) next
          (generate-IsIncreasing n (task_generate_id s).1 (omega arith)),
    )

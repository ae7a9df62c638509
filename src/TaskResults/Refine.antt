-- ===== src/TaskResults/Refine.antt =====
-- Any calls of all tasks, in the order in which they take effect, against a partial map.
use libmoon.Prelude.{
  ℕ, ◌+◌, ◌%◌, ◌^◌, ◌≡◌, refl, Option, none, some, List, [], ◌∷◌, arith, Option-cases, inl, inr,
  if◌then◌else◌, ◌==◌,
}
use libmoon.TaskResults.{
  Text, TaskResults, initial, find, emplace, task_generate_id, task_store_result, task_get_result,
}
use libmoon.TaskResults.Laws.{find-emplace, find-erase, emplace-present}

pub data Call : Type 0 where
  generate_id : Call
  store_result : ℕ → Text → Call
  get_result : ℕ → Call

pub data Reply : Type 0 where
  number : ℕ → Reply
  done : Reply
  result : Option Text → Reply

unfoldable pub serve : TaskResults → Call → Reply × TaskResults
serve s generate_id = let (id, after) = task_generate_id s in (number id, after)
serve s (store_result id v) = (done, task_store_result id v s)
serve s (get_result id) = let (v, after) = task_get_result id s in (result v, after)

unfoldable pub run : TaskResults → List Call → List Reply
run s [] = []
run s (c ∷ cs) = let (r, after) = serve s c in r ∷ run after cs

-- What is promised: the next number, and the results that wait for the task with their number.
pub record Waiting : Type 0 where
  pub next : ℕ
  pub waits : ℕ → Option Text

abbrev pub or_else : Option Text → Text → Option Text
or_else none v = some v
or_else (some w) v = some w

abbrev pub effect : Waiting → Call → Waiting
effect w generate_id = record w { next = (w.next + 1) % 2 ^ 64 }
effect w (store_result id v) = record w {
  waits = λ j. if j == id then or_else (w.waits id) v else w.waits j;
}
effect w (get_result id) = record w { waits = λ j. if j == id then none else w.waits j }

abbrev pub answer : Waiting → Call → Reply
answer w generate_id = number w.next
answer w (store_result id v) = done
answer w (get_result id) = result (w.waits id)

abbrev pub answers : Waiting → List Call → List Reply
answers w [] = []
answers w (c ∷ cs) = answer w c ∷ answers (effect w c) cs

abbrev pub at_start : Waiting
at_start = record { next = 1; waits = λ id. none }

record Keeps (w : Waiting) (s : TaskResults) : Type 0 where
  counter : s.task_id_ctr ≡ w.next
  agrees : (id : ℕ) → find id s.results ≡ w.waits id

find-emplace_any :
    (id j : ℕ) (v : Text) (m : List (ℕ × Text))
    → find j (emplace id v m) ≡ (if j == id then or_else (find id m) v else find j m)
find-emplace_any id j v m = elim (Option-cases (find id m)) [
  | inl new ↦ ground (arith, find-emplace id j v m new)
  | inr (w, old) ↦ ground (arith, emplace-present id v w m old)
]

serve-Keeps :
    (w : Waiting) (s : TaskResults) (c : Call)
    → Keeps w s
    → ((serve s c).0 ≡ answer w c) × Keeps (effect w c) (serve s c).1
unfolding serve task_generate_id task_store_result task_get_result
serve-Keeps w s generate_id k = ground (arith, k.counter)
serve-Keeps w s (store_result id v) k = (
  refl,
  record {
    counter = k.counter;
    agrees = λ j. ground (arith, find-emplace_any id j v s.results, k.agrees id, k.agrees j);
  },
)
serve-Keeps w s (get_result id) k = elim (Option-cases (find id s.results)) [
  | inl absent ↦ (
    ground (arith, k.agrees id),
    record {
      counter = ground (arith, k.counter);
      agrees = λ j. ground (arith, k.agrees id, k.agrees j);
    },
  )
  | inr (v, present) ↦ (
    ground (arith, k.agrees id),
    record {
      counter = ground (arith, k.counter);
      agrees = λ j. ground (arith, find-erase id j s.results, k.agrees j);
    },
  )
]

run-answers : (w : Waiting) (s : TaskResults) (cs : List Call) → Keeps w s → run s cs ≡ answers w cs
unfolding run
run-answers w s [] k = refl
run-answers w s (c ∷ cs) k =
    let (reply, keeps) = serve-Keeps w s c k in
    rw (reply, run-answers (effect w c) (serve s c).1 cs keeps) refl

-- Any sequence of calls from the start of the program gets the replies of a counter from 1 on, which
-- wraps at 2 ^ 64, and of one partial map from numbers to results that is empty at first: a store
-- under a number that has none sets it, a store under one that has one changes nothing, and a get
-- hands out what the number has and takes it away.
pub run-initial : (cs : List Call) → run initial cs ≡ answers at_start cs
run-initial cs = run-answers at_start initial cs (record { counter = refl; agrees = λ id. refl })

-- ===== src/Barrier/Tests.antt =====
-- A barrier for the threads 1 and 2.
use libmoon.Prelude.{ℕ, ◌+◌, ◌<◌, ◌≡◌, refl, List, [], ◌∷◌, arith}
use libmoon.Barrier.{Barrier, make_barrier, barrier_reinit, resumes, Run, here, arrives, wakes}
use libmoon.Barrier.Release.{barrier_wait_lem}
use libmoon.Barrier.Reinit.{barrier_reinit_strands}

-- Thread 2 has arrived last and passed; thread 1 is woken.
abbrev released : Barrier
released = record { n = 0; asleep = []; woken = 1 ∷ []; passed = 2 ∷ [] }

both_arrive : Run (make_barrier 2) 2 released
unfolding make_barrier
both_arrive = arrives (arrives here 1) 2

shut_in :
    Run
      (barrier_reinit 2 released)
      0
      (record { n = 2; asleep = 1 ∷ []; woken = []; passed = 2 ∷ [] })
unfolding barrier_reinit
shut_in = wakes here (resumes (record released { n = 2 }) 1 refl)

barrier_wait_lem_example :
    (2 < 2 → ◌≡◌ {A = List ℕ} (2 ∷ []) [])
    × (◌≡◌ {A = ℕ} 2 2 → (◌≡◌ {A = List ℕ} [] []) × (1 + 1 ≡ 2))
barrier_wait_lem_example =
    barrier_wait_lem 2 (omega arith) (omega arith) {k = 2} {b = released} both_arrive (omega arith)

barrier_reinit_strands_example : ◌≡◌ {A = List ℕ} (2 ∷ []) (2 ∷ [])
barrier_reinit_strands_example =
    barrier_reinit_strands {m = 2} {k = 0} released (omega arith) (omega arith) shut_in

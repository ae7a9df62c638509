-- ===== src/Pipes.antt =====
-- src/pipe.cpp: queues between tasks. The two queues of moodycamel under lib/ are parameters, with
-- what their comments promise: `items` is what a queue holds, for the one of a single producer and a
-- single consumer the oldest first. An object is an address, 0 is NULL, and an object is enqueued
-- unless memory runs out.
pub mod Queues
pub mod Order
mod Tests
use libmoon.Prelude.{
  ℕ, zero, suc, ◌+◌, ◌≡◌, Bool, true, false, Option, none, some, List, [], ◌∷◌, ◌++◌, if◌then◌else◌,
}
use libmoon.Pipes.Queues.{Queue}

-- `ok ? data : nullptr`
abbrev pub or_null : Option ℕ → ℕ
or_null none = 0
or_null (some data_ptr) = data_ptr

module _ (api : Queue) where
  pub pipe_spsc_new : ℕ → api.Q
  pipe_spsc_new capacity = api.new capacity

  pub pipe_spsc_enqueue : api.Q → ℕ → api.Q
  pipe_spsc_enqueue queue data_ptr = (api.enqueue queue data_ptr).1

  pub pipe_spsc_try_enqueue : api.Q → ℕ → Bool × api.Q
  pipe_spsc_try_enqueue queue data_ptr = api.try_enqueue queue data_ptr

  pub pipe_spsc_try_dequeue : api.Q → ℕ × api.Q
  pipe_spsc_try_dequeue queue = let (ok, queue') = api.try_dequeue queue in (or_null ok, queue')

  pub pipe_spsc_count : api.Q → ℕ
  pipe_spsc_count queue = api.size_approx queue

  pub pipe_mpmc_new : ℕ → api.Q
  pipe_mpmc_new capacity = api.new capacity

  pub pipe_mpmc_enqueue : api.Q → ℕ → api.Q
  pipe_mpmc_enqueue queue data_ptr = (api.enqueue queue data_ptr).1

  pub pipe_mpmc_try_enqueue : api.Q → ℕ → Bool × api.Q
  pipe_mpmc_try_enqueue queue data_ptr = api.try_enqueue queue data_ptr

  pub pipe_mpmc_try_dequeue : api.Q → ℕ × api.Q
  pipe_mpmc_try_dequeue queue = let (ok, queue') = api.try_dequeue queue in (or_null ok, queue')

  pub pipe_mpmc_count : api.Q → ℕ
  pipe_mpmc_count queue = api.size_approx queue

-- What a task does with a pipe.
pub data PipeCall : Type 0 where
  enqueues try_enqueues : ℕ → PipeCall
  try_dequeues : PipeCall

-- What a call took, which `enqueue` does not tell its caller, and what it handed out: NULL is nothing.
abbrev pub accepted : Bool → ℕ → List ℕ
accepted ok data_ptr = if ok then data_ptr ∷ [] else []

abbrev pub not_null : ℕ → List ℕ
not_null zero = []
not_null (suc p) = suc p ∷ []

module _ (api : Queue) where
  pub serve_spsc : PipeCall → api.Q → List ℕ × List ℕ × api.Q
  serve_spsc (enqueues x) q = (accepted (api.enqueue q x).0 x, [], pipe_spsc_enqueue api q x)
  serve_spsc (try_enqueues x) q =
      let (ok, q') = pipe_spsc_try_enqueue api q x in (accepted ok x, [], q')
  serve_spsc try_dequeues q = let (x, q') = pipe_spsc_try_dequeue api q in ([], not_null x, q')

  pub serve_mpmc : PipeCall → api.Q → List ℕ × List ℕ × api.Q
  serve_mpmc (enqueues x) q = (accepted (api.enqueue q x).0 x, [], pipe_mpmc_enqueue api q x)
  serve_mpmc (try_enqueues x) q =
      let (ok, q') = pipe_mpmc_try_enqueue api q x in (accepted ok x, [], q')
  serve_mpmc try_dequeues q = let (x, q') = pipe_mpmc_try_dequeue api q in ([], not_null x, q')

-- The calls of all tasks, in the order in which they take effect.
pub pipe_run :
    {Q : Type 0} → (PipeCall → Q → List ℕ × List ℕ × Q) → List PipeCall → Q → List ℕ × List ℕ × Q
pipe_run serve [] q = ([], [], q)
pipe_run serve (c ∷ cs) q =
    let (taken, given, q1) = serve c q in
    let (takens, givens, end) = pipe_run serve cs q1 in (taken ++ takens, given ++ givens, end)

-- ===== src/Barrier.antt =====
-- src/barrier.cpp: a barrier of `std::mutex` and `std::condition_variable`. Threads are numbers.
-- The mutex makes each part of `barrier_wait` between its waits one step: the arrival, and every
-- return from the wait, which checks `b->n == 0` and waits on if it is not.
pub mod Release
pub mod Reinit
mod Tests
use libmoon.Prelude.{
  ℕ, ◌+◌, ◌-◌, ◌%◌, ◌^◌, true, suc, List, [], ◌∷◌, ◌++◌, ◌≡◌, if◌then◌else◌, ◌==◌, contains,
}

-- `struct barrier`, and the threads inside `barrier_wait`: those that sleep on `cond`, those that
-- `notify_all` has woken and that have still to check, and those that have returned.
pub record Barrier : Type 0 where
  pub n : ℕ
  pub asleep : List ℕ
  pub woken : List ℕ
  pub passed : List ℕ

pub make_barrier : ℕ → Barrier
make_barrier n = record { n = n; asleep = []; woken = []; passed = [] }

abbrev pub remove : ℕ → List ℕ → List ℕ
remove t [] = []
remove t (u ∷ us) = if t == u then us else u ∷ remove t us

-- The start of `barrier_wait` in thread `t`: `--b->n` on a size_t. `wait` checks its predicate before
-- it sleeps, and finds it false, since the count is not 0.
abbrev pub arrive : ℕ → Barrier → Barrier
arrive t b =
    let n : ℕ = (b.n + 2 ^ 64 - 1) % 2 ^ 64 in
    if n == 0
    then record { n = n; asleep = []; woken = b.woken ++ b.asleep; passed = t ∷ b.passed }
    else record b { n = n; asleep = t ∷ b.asleep }

-- A woken thread has the mutex again, and checks.
abbrev pub resume : ℕ → Barrier → Barrier
resume t b =
    if b.n == 0
    then record b { woken = remove t b.woken; passed = t ∷ b.passed }
    else record b { woken = remove t b.woken; asleep = t ∷ b.asleep }

pub barrier_reinit : ℕ → Barrier → Barrier
barrier_reinit n b = record b { n = n }

-- A thread that is inside `barrier_wait` goes on: it checks after a notification, or wakes from its
-- sleep without one.
pub data Wake : Barrier → Barrier → Type 0 where
  resumes : (b : Barrier) (t : ℕ) → contains t b.woken ≡ true → Wake b (resume t b)
  spurious :
      (b : Barrier) (t : ℕ)
      → contains t b.asleep ≡ true
      → Wake b (record b { asleep = remove t b.asleep; woken = t ∷ b.woken })

-- What can have become of a barrier after `k` more arrivals, in whatever order the threads run.
pub data Run (b : Barrier) : ℕ → Barrier → Type 0 where
  here : Run b 0 b
  arrives : {k : ℕ} {c : Barrier} → Run b k c → (t : ℕ) → Run b (suc k) (arrive t c)
  wakes : {k : ℕ} {c d : Barrier} → Run b k c → Wake c d → Run b k d

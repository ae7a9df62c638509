-- ===== src/Pipes/Queues.antt =====
-- What pipe.cpp uses of `ReaderWriterQueue` and `ConcurrentQueue`.
use libmoon.Prelude.{ℕ, ◌≡◌, Bool, true, false, Option, none, some, List, [], ◌∷◌, ◌++◌}

pub record Queue : Type 1 where
  pub Q : Type 0
  pub items : Q → List ℕ
  pub new : ℕ → Q
  pub enqueue : Q → ℕ → Bool × Q
  pub try_enqueue : Q → ℕ → Bool × Q
  pub try_dequeue : Q → Option ℕ × Q
  pub size_approx : Q → ℕ
  -- "Returns false only if memory allocation fails."
  pub enqueue_done :
      (q : Q) (x : ℕ) → (enqueue q x).0 ≡ true → items (enqueue q x).1 ≡ items q ++ (x ∷ [])
  pub enqueue_failed : (q : Q) (x : ℕ) → (enqueue q x).0 ≡ false → items (enqueue q x).1 ≡ items q
  -- "Enqueues a copy of element if there is room in the queue. Returns true if the element was
  -- enqueued, false otherwise."
  pub try_enqueue_done :
      (q : Q) (x : ℕ) → (try_enqueue q x).0 ≡ true → items (try_enqueue q x).1 ≡ items q ++ (x ∷ [])
  pub try_enqueue_failed :
      (q : Q) (x : ℕ) → (try_enqueue q x).0 ≡ false → items (try_enqueue q x).1 ≡ items q
  -- "Attempts to dequeue an element; if the queue is empty, returns false instead."
  pub try_dequeue_empty : (q : Q) → (try_dequeue q).0 ≡ none → items (try_dequeue q).1 ≡ items q
  pub try_dequeue_done :
      (q : Q) (x : ℕ)
      → (try_dequeue q).0 ≡ some x
      → (before after : List ℕ) × (items q ≡ before ++ x ∷ after)
        × (items (try_dequeue q).1 ≡ before ++ after)

-- The queue of one producer and one consumer hands out the oldest element.
abbrev pub IsFifo : Queue → Type 0
IsFifo api =
    (q : api.Q) (x : ℕ)
    → (api.try_dequeue q).0 ≡ some x
    → api.items q ≡ x ∷ api.items (api.try_dequeue q).1

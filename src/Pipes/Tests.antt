-- ===== src/Pipes/Tests.antt =====
-- A queue that is a list and has room for two objects.
use libmoon.Prelude.{
  ℕ, ◌≡◌, refl, Bool, true, false, Option, none, some, List, [], ◌∷◌, ◌++◌, arith, length, ltb,
  if◌then◌else◌,
}
use libmoon.Pipes.Queues.{Queue}
use libmoon.Pipes.{
  PipeCall, enqueues, try_enqueues, try_dequeues, serve_spsc, pipe_run, pipe_spsc_enqueue,
  pipe_spsc_try_enqueue, pipe_spsc_try_dequeue,
}

abbrev put : List ℕ → ℕ → Bool × List ℕ
put q x = if ltb (length q) 2 then (true, q ++ (x ∷ [])) else (false, q)

abbrev take_first : List ℕ → Option ℕ × List ℕ
take_first [] = (none, [])
take_first (x ∷ q) = (some x, q)

put_done : (q : List ℕ) (x : ℕ) → (put q x).0 ≡ true → (put q x).1 ≡ q ++ (x ∷ [])
put_done q x h = ground arith

put_failed : (q : List ℕ) (x : ℕ) → (put q x).0 ≡ false → (put q x).1 ≡ q
put_failed q x h = ground arith

take_first-order : (q : List ℕ) (x : ℕ) → (take_first q).0 ≡ some x → q ≡ x ∷ (take_first q).1
take_first-order [] x h = cc
take_first-order (y ∷ q) x h = cc

take_first-empty : (q : List ℕ) → (take_first q).0 ≡ none → (take_first q).1 ≡ q
take_first-empty [] h = refl
take_first-empty (y ∷ q) h = cc

abbrev two_places : Queue
two_places = record {
  Q = List ℕ;
  items = λ q. q;
  new = λ capacity. [];
  enqueue = put;
  try_enqueue = put;
  try_dequeue = take_first;
  size_approx = λ q. length q;
  enqueue_done = put_done;
  enqueue_failed = put_failed;
  try_enqueue_done = put_done;
  try_enqueue_failed = put_failed;
  try_dequeue_empty = take_first-empty;
  try_dequeue_done = λ q x h. ([], (take_first q).1, take_first-order q x h, refl);
}

-- The third object does not fit; NULL goes in and looks like nothing when it comes out.
abbrev calls : List PipeCall
calls =
    try_enqueues 7 ∷ try_enqueues 0 ∷ try_enqueues 9 ∷ try_dequeues ∷ try_dequeues ∷ enqueues 8 ∷ []

ran : pipe_run (serve_spsc two_places) calls [] ≡ (7 ∷ 0 ∷ 8 ∷ [], 7 ∷ [], 8 ∷ [])
unfolding pipe_run serve_spsc pipe_spsc_enqueue pipe_spsc_try_enqueue pipe_spsc_try_dequeue
ran = refl

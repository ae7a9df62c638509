-- ===== src/Pipes/Order.antt =====
-- Which objects come out of a pipe.
use libmoon.Prelude.{
  ℕ, zero, suc, ◌+◌, ◌≡◌, ◌≢◌, refl, sym, ap, ◌∙◌, List, [], ◌∷◌, ◌++◌, arith, append-nil,
  append_assoc, append_chain, if◌then◌else◌, ◌==◌, Bool-cases, inl, inr, Option-cases,
}
use libmoon.Pipes.Queues.{Queue, IsFifo}
use libmoon.Pipes.{
  pipe_spsc_enqueue, pipe_mpmc_enqueue, pipe_spsc_try_enqueue, pipe_spsc_try_dequeue,
  pipe_mpmc_try_enqueue, pipe_mpmc_try_dequeue, PipeCall, enqueues, try_enqueues, try_dequeues,
  not_null, serve_spsc, serve_mpmc, pipe_run,
}

-- How often `v` is in the list.
abbrev pub count_of : ℕ → List ℕ → ℕ
count_of v [] = 0
count_of v (x ∷ xs) = (if x == v then 1 else 0) + count_of v xs

count_of-append : (v : ℕ) (xs ys : List ℕ) → count_of v (xs ++ ys) ≡ count_of v xs + count_of v ys
count_of-append v [] ys = omega arith
count_of-append v (x ∷ xs) ys = omega (arith, count_of-append v xs ys)

count_of-not_null : (v x : ℕ) → v ≢ 0 → count_of v (not_null x) ≡ count_of v (x ∷ [])
count_of-not_null zero x h = absurd (h refl)
count_of-not_null (suc v) zero h = ground arith
count_of-not_null (suc v) (suc x) h = refl

count_of-middle :
    (v x : ℕ) (before after : List ℕ)
    → count_of v (before ++ x ∷ after) ≡ count_of v (x ∷ []) + count_of v (before ++ after)
count_of-middle v x before after =
    omega (arith, count_of-append v before (x ∷ after), count_of-append v before after)

module _ (api : Queue) where
  serve_mpmc_count :
      (v : ℕ) (c : PipeCall) (q : api.Q)
      → v ≢ 0
      → count_of v (api.items q) + count_of v (serve_mpmc api c q).0
        ≡ count_of v (serve_mpmc api c q).1 + count_of v (api.items (serve_mpmc api c q).2)
  unfolding serve_mpmc pipe_mpmc_enqueue pipe_mpmc_try_enqueue pipe_mpmc_try_dequeue
  serve_mpmc_count v (enqueues x) q h = elim (Bool-cases (api.enqueue q x).0) [
    | inl ok ↦
        rw (ok, api.enqueue_done q x ok) (omega (arith, count_of-append v (api.items q) (x ∷ [])))
    | inr failed ↦ rw (failed, api.enqueue_failed q x failed) (omega arith)
  ]
  serve_mpmc_count v (try_enqueues x) q h = elim (Bool-cases (api.try_enqueue q x).0) [
    | inl ok ↦
        rw (ok, api.try_enqueue_done q x ok)
          (omega (arith, count_of-append v (api.items q) (x ∷ [])))
    | inr failed ↦ rw (failed, api.try_enqueue_failed q x failed) (omega arith)
  ]
  serve_mpmc_count v try_dequeues q h = elim (Option-cases (api.try_dequeue q).0) [
    | inl empty ↦ rw (empty, api.try_dequeue_empty q empty) (omega arith)
    | inr (x, got) ↦
        let (before, after, was, is) = api.try_dequeue_done q x got in
        rw (got, was, is) (omega (arith, count_of-not_null v x h, count_of-middle v x before after))
  ]

  -- However the tasks that share a pipe of many producers and consumers take turns: for every object
  -- but NULL, the times that it was in the pipe at the start and those that the pipe took it are
  -- together the times that the pipe handed it out and those that it is still in it.
  pipe_run-mpmc_count :
      (v : ℕ) (cs : List PipeCall) (q : api.Q)
      → v ≢ 0
      → let (taken, given, end) = pipe_run (serve_mpmc api) cs q in
        count_of v (api.items q) + count_of v taken ≡ count_of v given + count_of v (api.items end)
  unfolding pipe_run
  pipe_run-mpmc_count v [] q h = omega arith
  pipe_run-mpmc_count v (c ∷ cs) q h =
      let (taken, given, q1) = serve_mpmc api c q in
      let (takens, givens, end) = pipe_run (serve_mpmc api) cs q1 in
      omega (
        arith,
        serve_mpmc_count v c q h,
        pipe_run-mpmc_count v cs q1 h,
        count_of-append v taken takens,
        count_of-append v given givens,
      )

-- The objects of a list without NULL.
abbrev pub not_nulls : List ℕ → List ℕ
not_nulls [] = []
not_nulls (x ∷ xs) = not_null x ++ not_nulls xs

not_nulls-append : (xs ys : List ℕ) → not_nulls (xs ++ ys) ≡ not_nulls xs ++ not_nulls ys
not_nulls-append [] ys = refl
not_nulls-append (x ∷ xs) ys =
    ap (λ r. not_null x ++ r) (not_nulls-append xs ys)
    ∙ sym (append_assoc (not_null x) (not_nulls xs) (not_nulls ys))

module _ (api : Queue) (fifo : IsFifo api) where
  serve_spsc_order :
      (c : PipeCall) (q : api.Q)
      → (serve_spsc api c q).1 ++ not_nulls (api.items (serve_spsc api c q).2)
        ≡ not_nulls (api.items q) ++ not_nulls (serve_spsc api c q).0
  unfolding serve_spsc pipe_spsc_enqueue pipe_spsc_try_enqueue pipe_spsc_try_dequeue
  serve_spsc_order (enqueues x) q = elim (Bool-cases (api.enqueue q x).0) [
    | inl ok ↦ rw (ok, api.enqueue_done q x ok) (not_nulls-append (api.items q) (x ∷ []))
    | inr failed ↦
        rw (failed, api.enqueue_failed q x failed) (sym (append-nil (not_nulls (api.items q))))
  ]
  serve_spsc_order (try_enqueues x) q = elim (Bool-cases (api.try_enqueue q x).0) [
    | inl ok ↦ rw (ok, api.try_enqueue_done q x ok) (not_nulls-append (api.items q) (x ∷ []))
    | inr failed ↦
        rw (failed, api.try_enqueue_failed q x failed) (sym (append-nil (not_nulls (api.items q))))
  ]
  serve_spsc_order try_dequeues q = elim (Option-cases (api.try_dequeue q).0) [
    | inl empty ↦
        rw (empty, api.try_dequeue_empty q empty) (sym (append-nil (not_nulls (api.items q))))
    | inr (x, got) ↦
        rw got (ap not_nulls (sym (fifo q x got)) ∙ sym (append-nil (not_nulls (api.items q))))
  ]

  -- On a pipe of one producer and one consumer, whose queue hands out the oldest element: the objects
  -- handed out, followed by those in the pipe, are those that were in the pipe at the start followed
  -- by those that it took, in that order, where NULL is left out of all of them.
  pipe_run-spsc_order :
      (cs : List PipeCall) (q : api.Q)
      → let (taken, given, end) = pipe_run (serve_spsc api) cs q in
        given ++ not_nulls (api.items end) ≡ not_nulls (api.items q) ++ not_nulls taken
  unfolding pipe_run
  pipe_run-spsc_order [] q = sym (append-nil (not_nulls (api.items q)))
  pipe_run-spsc_order (c ∷ cs) q =
      let (taken, given, q1) = serve_spsc api c q in
      let (takens, givens, end) = pipe_run (serve_spsc api) cs q1 in
      rw (not_nulls-append taken takens) (
        append_chain (not_nulls (api.items q)) (not_nulls (api.items q1))
          (not_nulls (api.items end)) given givens (not_nulls taken) (not_nulls takens)
          (serve_spsc_order c q) (pipe_run-spsc_order cs q1))

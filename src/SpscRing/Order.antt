-- ===== src/SpscRing/Order.antt =====
-- The order of the buffers, and what the counts say.
use libmoon.Prelude.{
  ℕ, ◌+◌, ◌≡◌, ◌↔◌, inl, inr, refl, sym, ap, ◌∙◌, true, List, [], ◌∷◌, ◌++◌, length, take, arith,
  append-nil, append_chain, take_all, take-append-drop, ==_iff, leb, Bool-cases, leb→le, leb→lt,
}
use libmoon.RteRing.{RteRing}
use libmoon.SpscRing.{
  ring_enqueue, ring_dequeue, ring_count, ring_free_count, ring_empty, ring_full, RingCall,
  enqueues, dequeues, serve, serve_each,
}

nil_of : (xs : List ℕ) → length xs ≡ 0 → xs ≡ []
nil_of [] h = refl
nil_of (x ∷ xs) h = absurd (omega (arith, h))

module _ (api : RteRing) where
  -- One call: all of a batch or nothing of it, at the end of the queue or from its front.
  pub serve_order :
      (c : RingCall) (r : api.Ring)
      → (api.items r ++ (serve api c r).0 ≡ (serve api c r).1 ++ api.items (serve api c r).2)
        × (api.space (serve api c r).2 ≡ api.space r)
  unfolding serve ring_enqueue ring_dequeue
  serve_order (enqueues obj) r =
      elim (Bool-cases (leb (length (api.items r) + length obj) (api.space r))) [
        | inl fits ↦
            let (n, items, space) = api.enqueue_bulk_fits r obj (leb→le _ _ fits) in
            (
              ap (λ k. api.items r ++ take k obj) n
                  ∙ ap (λ t. api.items r ++ t) (take_all (length obj) obj (omega arith))
                  ∙ sym items,
              space,
            )
        | inr full ↦
            rw (api.enqueue_bulk_full r obj (leb→lt _ _ full)) (append-nil (api.items r), refl)
      ]
  serve_order (dequeues n) r = elim (Bool-cases (leb n (length (api.items r)))) [
    | inl ready ↦
        let (obj, items, space) = api.dequeue_bulk_ready r n (leb→le _ _ ready) in
        (append-nil (api.items r) ∙ rw (obj, items) (sym (take-append-drop n (api.items r))), space)
    | inr short ↦
        rw (api.dequeue_bulk_short r n (leb→lt _ _ short)) (append-nil (api.items r), refl)
  ]

  empty_iff : (r : api.Ring) → (ring_empty api r ≡ true) ↔ (ring_count api r ≡ 0)
  unfolding ring_empty ring_count
  empty_iff r = (
    λ h. api.count_lem r ∙ ap length ((api.empty_lem r).0 ((==_iff (api.empty r) 1).0 h)),
    λ h.
        (==_iff (api.empty r) 1).1
          ((api.empty_lem r).1 (nil_of (api.items r) (sym (api.count_lem r) ∙ h))),
  )

  full_iff : (r : api.Ring) → (ring_full api r ≡ true) ↔ (ring_free_count api r ≡ 0)
  unfolding ring_full ring_free_count
  full_iff r = (
    λ h. omega (arith, (api.full_lem r).0 ((==_iff (api.full r) 1).0 h), api.free_count_lem r),
    λ h.
        (==_iff (api.full r) 1).1
          ((api.full_lem r).1 (omega (arith, h, api.free_count_lem r, api.items_fit r))),
  )

  -- After any sequence of bulk calls of the producer and the consumer, the buffers handed out,
  -- followed by those in the ring, are the buffers that were in the ring at the start followed by
  -- those taken, in that order; the used and the free places together are the capacity, which is the
  -- one at the start; `ring_empty` says whether there are no buffers, and `ring_full` whether there is
  -- no free place.
  serve_each_order :
      (cs : List RingCall) (r : api.Ring)
      → let (taken, given, end) = serve_each api cs r in
        (given ++ api.items end ≡ api.items r ++ taken)
        × (ring_count api end + ring_free_count api end ≡ api.space r)
        × ((ring_empty api end ≡ true) ↔ (ring_count api end ≡ 0))
        × ((ring_full api end ≡ true) ↔ (ring_free_count api end ≡ 0))
  unfolding serve_each ring_count ring_free_count ring_empty ring_full
  serve_each_order [] r = (
    sym (append-nil (api.items r)),
    omega (arith, api.count_lem r, api.free_count_lem r, api.items_fit r),
    empty_iff r,
    full_iff r,
  )
  serve_each_order (c ∷ cs) r =
      let (order, space) = serve_order c r in
      let (orders, sizes, empty, full) = serve_each_order cs (serve api c r).2 in
      (
        append_chain (api.items r) (api.items (serve api c r).2)
            (api.items (serve_each api cs (serve api c r).2).2) (serve api c r).1
            (serve_each api cs (serve api c r).2).1 (serve api c r).0
            (serve_each api cs (serve api c r).2).0 (sym order) orders,
        sizes ∙ space,
        empty,
        full,
      )

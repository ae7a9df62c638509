-- ===== src/PktSizedRing/Refine.antt =====
-- A packet-sized ring implements its specification, call by call and over any sequence of calls.
use libmoon.Prelude.{
  ℕ, ◌+◌, ◌-◌, ◌^◌, ◌≤◌, ◌<◌, ◌≡◌, refl, sym, List, [], ◌∷◌, ◌++◌, arith, add32, ap, length, take,
  min, length-take, append-nil, take_all, append_chain, take-min-length, ◌∙◌,
}
use native.Mathlib.Decide.{dec_le, dec_lt}
use libmoon.RteRing.{RteRing}
use libmoon.RteRing.Calls.{
  Call, enqueue_bulk, enqueue_burst, enqueue, dequeue_bulk, dequeue_burst, dequeue, Reply, offered,
  handed_out, taken, IsOffer, AllOffers,
}
use libmoon.PktSizedRing.{
  PsRing, psring_enqueue_bulk, psring_enqueue_burst, psring_enqueue, psring_dequeue_bulk,
  psring_dequeue_burst, psring_dequeue, serve,
}
use libmoon.PktSizedRing.Queue

module _ (api : RteRing) where
  abbrev queue : PsRing api → List ℕ
  queue psr = api.items psr.ring

  abbrev Spec : PsRing api → Call → Reply × List ℕ
  Spec psr c = Queue.serve psr.capacity (api.space psr.ring) (queue psr) c

  -- A call's outcome is the specification's, and it changes neither capacity nor space.
  pub record Refines (psr : PsRing api) (spec : Reply × List ℕ) (out : Reply × PsRing api)
      : Type 0 where
    pub reply : out.0 ≡ spec.0
    pub queue_after : queue out.1 ≡ spec.1
    pub capacity : out.1.capacity ≡ psr.capacity
    pub space : api.space out.1.ring ≡ api.space psr.ring

  no_wrap :
      (psr : PsRing api) (n : ℕ)
      → n < 2 ^ 31
      → add32 (api.count psr.ring) n ≡ length (queue psr) + n
  no_wrap psr n h =
      omega (arith, api.count_lem psr.ring, api.items_fit psr.ring, api.space_limit psr.ring)

  enqueue_bulk-Refines :
      (psr : PsRing api) (obj : List ℕ)
      → length obj < 2 ^ 31
      → Refines psr (Spec psr (enqueue_bulk obj)) (serve api psr (enqueue_bulk obj))
  unfolding serve psring_enqueue_bulk Queue.serve
  enqueue_bulk-Refines psr obj h =
      elim (dec_le (length (queue psr) + length obj) (api.space psr.ring)) [
        | yes fits ↦ ground (
          arith,
          no_wrap psr (length obj) h,
          api.enqueue_bulk_fits psr.ring obj fits,
          append-nil (queue psr),
          take_all (length obj) obj,
        )
        | no full ↦ ground (
          arith,
          no_wrap psr (length obj) h,
          api.enqueue_bulk_full psr.ring obj (omega arith),
          append-nil (queue psr),
          take_all (length obj) obj,
        )
      ]

  -- The ring underneath cuts a batch of at most `k` buffers to its free entries.
  burst_lem :
      (psr : PsRing api) (obj : List ℕ) (k : ℕ)
      → let (n, ring) = api.sp_enqueue_burst psr.ring (take k obj) in
        let taken : ℕ = min (length obj) (min k (api.space psr.ring - length (queue psr))) in
        (n ≡ taken)
        × (api.items ring ≡ queue psr ++ take taken obj)
        × (api.space ring ≡ api.space psr.ring)
  burst_lem psr obj k =
      let free = api.space psr.ring - length (queue psr) in
      let (count, items, space) = api.enqueue_burst_lem psr.ring (take k obj) in
      (
        count ∙ omega (arith, length-take free (take k obj), length-take k obj),
        items ∙ ap (λ l. queue psr ++ l) (take-min-length free k obj),
        space,
      )

  enqueue_burst-Refines :
      (psr : PsRing api) (obj : List ℕ)
      → length obj < 2 ^ 31
      → Refines psr (Spec psr (enqueue_burst obj)) (serve api psr (enqueue_burst obj))
  unfolding serve psring_enqueue_burst Queue.serve
  enqueue_burst-Refines psr obj h = elim (dec_lt psr.capacity (length (queue psr))) [
    | yes over ↦ ground (arith, api.count_lem psr.ring, append-nil (queue psr))
    | no within ↦ ground (
      arith,
      no_wrap psr (length obj) h,
      api.count_lem psr.ring,
      burst_lem psr obj (psr.capacity - length (queue psr)),
      burst_lem psr obj (length obj),
    )
  ]

  enqueue-Refines :
      (psr : PsRing api) (obj : ℕ)
      → Refines psr (Spec psr (enqueue obj)) (serve api psr (enqueue obj))
  unfolding serve psring_enqueue Queue.serve
  enqueue-Refines psr obj = elim (dec_lt (length (queue psr)) (api.space psr.ring)) [
    | yes fits ↦ ground (
      arith,
      no_wrap psr 1,
      api.enqueue_fits psr.ring obj fits,
      append-nil (queue psr),
      take_all 1 (obj ∷ []),
    )
    | no full ↦ ground (
      arith,
      no_wrap psr 1,
      api.enqueue_full psr.ring obj (omega arith),
      append-nil (queue psr),
      take_all 1 (obj ∷ []),
    )
  ]

  dequeue_bulk-Refines :
      (psr : PsRing api) (n : ℕ)
      → Refines psr (Spec psr (dequeue_bulk n)) (serve api psr (dequeue_bulk n))
  unfolding serve psring_dequeue_bulk Queue.serve
  dequeue_bulk-Refines psr n = elim (dec_le n (length (queue psr))) [
    | yes ready ↦ ground (arith, api.dequeue_bulk_ready psr.ring n ready)
    | no short ↦ ground (arith, api.dequeue_bulk_short psr.ring n (omega arith))
  ]

  dequeue_burst-Refines :
      (psr : PsRing api) (n : ℕ)
      → Refines psr (Spec psr (dequeue_burst n)) (serve api psr (dequeue_burst n))
  unfolding serve psring_dequeue_burst Queue.serve
  dequeue_burst-Refines psr n = ground (arith, api.dequeue_burst_lem psr.ring n)

  dequeue-Refines :
      (psr : PsRing api) (q : List ℕ)
      → api.items psr.ring ≡ q
      → Refines psr
          (Queue.serve psr.capacity (api.space psr.ring) q dequeue)
          (serve api psr dequeue)
  unfolding serve psring_dequeue Queue.serve
  dequeue-Refines psr [] e = ground (arith, api.dequeue_empty psr.ring e)
  dequeue-Refines psr (x ∷ xs) e = ground (arith, api.dequeue_ready psr.ring x xs e)

  -- Each call on a packet-sized ring, with a batch of fewer than 2 ^ 31 buffers, returns the number
  -- and hands out the buffers that the bounded queue `Queue.serve` does, leaves that queue behind,
  -- and changes neither the capacity nor the size of the ring underneath.
  pub serve-Refines :
      (psr : PsRing api) (c : Call) → IsOffer c → Refines psr (Spec psr c) (serve api psr c)
  serve-Refines psr (enqueue_bulk obj) h = enqueue_bulk-Refines psr obj h
  serve-Refines psr (enqueue_burst obj) h = enqueue_burst-Refines psr obj h
  serve-Refines psr (enqueue obj) h = enqueue-Refines psr obj
  serve-Refines psr (dequeue_bulk n) h = dequeue_bulk-Refines psr n
  serve-Refines psr (dequeue_burst n) h = dequeue_burst-Refines psr n
  serve-Refines psr dequeue h = dequeue-Refines psr (queue psr) refl

  -- A ring within its capacity is still within it after any call.
  pub serve_within :
      (psr : PsRing api) (c : Call)
      → IsOffer c
      → length (queue psr) ≤ psr.capacity
      → length (queue (serve api psr c).1) ≤ (serve api psr c).1.capacity
  serve_within psr c h within =
      let r = serve-Refines psr c h in
      omega (
        arith,
        ap length r.queue_after,
        r.capacity,
        Queue.serve-le-capacity psr.capacity (api.space psr.ring) (queue psr) c within,
      )

  -- A client's calls in order: the replies, and the ring after them.
  unfoldable pub run : PsRing api → List Call → List Reply × PsRing api
  run psr [] = ([], psr)
  run psr (c ∷ cs) = let (r, psr') = serve api psr c in let (rs, end) = run psr' cs in (r ∷ rs, end)

  pub call_order :
      (psr : PsRing api) (c : Call)
      → IsOffer c
      → (serve api psr c).0.objs ++ queue (serve api psr c).1
        ≡ queue psr ++ take (serve api psr c).0.returned (offered c)
  call_order psr c h =
      let r = serve-Refines psr c h in
      rw (r.reply, r.queue_after)
        (Queue.serve_order psr.capacity (api.space psr.ring) (queue psr) c)

  -- Over any sequence of calls with batches of fewer than 2 ^ 31 buffers, a ring that starts within
  -- its capacity ends within it, the capacity is as it was, and the buffers handed out, followed by
  -- those still in the ring, are the buffers that the ring held and those that the calls took, in
  -- order: none is lost, repeated or overtaken.
  pub run_order :
      (psr : PsRing api) (cs : List Call)
      → AllOffers cs
      → length (queue psr) ≤ psr.capacity
      → let (rs, end) = run psr cs in
        (handed_out rs ++ queue end ≡ queue psr ++ taken cs rs)
        × (length (queue end) ≤ end.capacity)
        × (end.capacity ≡ psr.capacity)
  unfolding run
  run_order psr [] h within = (sym (append-nil (queue psr)), within, refl)
  run_order psr (c ∷ cs) h within =
      let (r, psr') = serve api psr c in
      let (order, end_within, capacity) = run_order psr' cs h.1 (serve_within psr c h.0 within) in
      (
        append_chain (queue psr) (queue psr') (queue (run psr' cs).1) r.objs
            (handed_out (run psr' cs).0) (take r.returned (offered c)) (taken cs (run psr' cs).0)
            (call_order psr c h.0) order,
        end_within,
        capacity ∙ (serve-Refines psr c h.0).capacity,
      )

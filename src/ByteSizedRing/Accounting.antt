-- ===== src/ByteSizedRing/Accounting.antt =====
-- The byte count of the ring is the sum of the lengths of the packets in it.
use libmoon.Prelude.{
  ℕ, ◌+◌, ◌^◌, ◌≤◌, ◌<◌, ◌≡◌, refl, ◌⊎◌, inl, inr, List, [], ◌∷◌, ◌++◌, arith, length, take,
  take-append-drop, ap, append-nil, take_all,
}
use native.Mathlib.Decide.{dec_le, dec_lt}
use libmoon.RteRing.{RteRing}
use libmoon.ByteSizedRing.{
  BsRing, sub_sizes, bsring_enqueue_bulk, bsring_enqueue, bsring_dequeue_bulk, bsring_dequeue_burst,
  bsring_dequeue,
}
use libmoon.ByteSizedRing.Sizes.{total, total-append, add_sizes-eq, sub_sizes-eq}

module _ (api : RteRing) (pkt_len : ℕ → ℕ) where
  abbrev pub queue : BsRing api → List ℕ
  queue bsr = api.items bsr.ring

  pub record IsAccounted (bsr : BsRing api) : Type 0 where
    pub exact : bsr.bytes_used ≡ total pkt_len (queue bsr)
    pub within : bsr.bytes_used ≤ bsr.capacity
    pub limit : bsr.capacity < 2 ^ 31

  -- What an enqueue has done: of the offered buffers the first `n` have joined the queue.
  pub record Added (bsr : BsRing api) (obj : List ℕ) (out : ℕ × BsRing api) : Type 0 where
    pub accounted : IsAccounted out.1
    pub joined : queue out.1 ≡ queue bsr ++ take out.0 obj
    pub same_capacity : out.1.capacity ≡ bsr.capacity

  -- What a dequeue has done: the buffers it hands out came off the front of the queue.
  pub record Removed (bsr : BsRing api) (out : List ℕ × BsRing api) : Type 0 where
    pub accounted : IsAccounted out.1
    pub left : out.0 ++ queue out.1 ≡ queue bsr
    pub same_capacity : out.1.capacity ≡ bsr.capacity

  -- The batch's bytes fit under the capacity, and its buffers into the ring underneath.
  abbrev pub Fits : BsRing api → List ℕ → Type 0
  Fits bsr obj =
      (total pkt_len (queue bsr) + total pkt_len obj ≤ bsr.capacity)
      × (length (queue bsr) + length obj ≤ api.space bsr.ring)

  -- What a single enqueue asks: the bytes stay below the capacity, and there is a free entry.
  abbrev pub Below : BsRing api → ℕ → Type 0
  Below bsr obj =
      (total pkt_len (queue bsr) + pkt_len obj < bsr.capacity)
      × (length (queue bsr) < api.space bsr.ring)

  -- A bulk call on a ring whose byte count is exact, with a batch of fewer than 2 ^ 31 bytes, takes
  -- the whole batch if its bytes and its buffers fit, and else changes nothing; the byte count is
  -- exact and within the capacity after it.
  pub bsring_enqueue_bulk_lem :
      (bsr : BsRing api) (obj : List ℕ)
      → IsAccounted bsr
      → total pkt_len obj < 2 ^ 31
      → let out = bsring_enqueue_bulk api pkt_len bsr obj in
        Added bsr obj out
        × ((Fits bsr obj × (out.0 ≡ length obj)) ⊎ ((¬ Fits bsr obj) × (out.0 ≡ 0) × (out.1 ≡ bsr)))
  unfolding bsring_enqueue_bulk
  bsring_enqueue_bulk_lem bsr obj v h =
      elim (dec_le (length (queue bsr) + length obj) (api.space bsr.ring)) [
        | yes free ↦ elim (dec_le (bsr.bytes_used + total pkt_len obj) bsr.capacity) [
          | yes fits ↦ (
            ground (
              arith,
              api.enqueue_bulk_fits bsr.ring obj free,
              take_all (length obj) obj,
              add_sizes-eq pkt_len 0 obj,
              total-append pkt_len (queue bsr) obj,
            ),
            inl (
                ground
                  (arith, api.enqueue_bulk_fits bsr.ring obj free, add_sizes-eq pkt_len 0 obj)),
          )
          | no over ↦ (
            ground (arith, add_sizes-eq pkt_len 0 obj, append-nil (queue bsr)),
            inr (ground (arith, add_sizes-eq pkt_len 0 obj)),
          )
        ]
        | no full ↦ (
          ground (arith, api.enqueue_bulk_full bsr.ring obj (omega arith), append-nil (queue bsr)),
          inr (ground (arith, api.enqueue_bulk_full bsr.ring obj (omega arith))),
        )
      ]

  -- A single enqueue on a ring whose byte count is exact, of a buffer of fewer than 2 ^ 31 bytes,
  -- joins the buffer when the ring stays below its capacity in bytes and has a free entry, and else
  -- changes nothing; the byte count is exact and within the capacity after it.
  pub bsring_enqueue_lem :
      (bsr : BsRing api) (obj : ℕ)
      → IsAccounted bsr
      → pkt_len obj < 2 ^ 31
      → let out = bsring_enqueue api pkt_len bsr obj in
        Added bsr (obj ∷ []) out
        × ((Below bsr obj × (out.0 ≡ 1)) ⊎ ((¬ Below bsr obj) × (out.0 ≡ 0) × (out.1 ≡ bsr)))
  unfolding bsring_enqueue
  bsring_enqueue_lem bsr obj v h = elim (dec_lt (length (queue bsr)) (api.space bsr.ring)) [
    | yes free ↦ elim (dec_lt (bsr.bytes_used + pkt_len obj) bsr.capacity) [
      | yes fits ↦ (
        ground (
          arith,
          api.enqueue_fits bsr.ring obj free,
          total-append pkt_len (queue bsr) (obj ∷ []),
        ),
        inl (ground (arith, api.enqueue_fits bsr.ring obj free)),
      )
      | no over ↦ (ground (arith, append-nil (queue bsr)), inr (ground arith))
    ]
    | no full ↦ (
      ground (arith, api.enqueue_full bsr.ring obj (omega arith), append-nil (queue bsr)),
      inr (ground (arith, api.enqueue_full bsr.ring obj (omega arith))),
    )
  ]

  Removed-intro :
      (bsr : BsRing api) (objs : List ℕ) (ring : api.Ring)
      → IsAccounted bsr
      → objs ++ api.items ring ≡ queue bsr
      → Removed bsr
          (objs, record bsr { ring = ring; bytes_used = sub_sizes pkt_len bsr.bytes_used objs })
  Removed-intro bsr objs ring v e = ground (
    arith,
    ap (total pkt_len) e,
    total-append pkt_len objs (api.items ring),
    sub_sizes-eq pkt_len bsr.bytes_used objs,
  )

  pub bsring_dequeue_burst-Removed :
      (bsr : BsRing api) (n : ℕ)
      → IsAccounted bsr
      → Removed bsr (bsring_dequeue_burst api pkt_len bsr n)
  unfolding bsring_dequeue_burst
  bsring_dequeue_burst-Removed bsr n v =
      let (objs, items, space) = api.dequeue_burst_lem bsr.ring n in
      Removed-intro bsr (api.sc_dequeue_burst bsr.ring n).0 (api.sc_dequeue_burst bsr.ring n).1 v
        (rw (objs, items) (take-append-drop n (queue bsr)))

  pub bsring_dequeue_bulk-Removed :
      (bsr : BsRing api) (n : ℕ)
      → IsAccounted bsr
      → Removed bsr (bsring_dequeue_bulk api pkt_len bsr n)
  unfolding bsring_dequeue_bulk
  bsring_dequeue_bulk-Removed bsr n v = elim (dec_le n (length (queue bsr))) [
    | yes ready ↦
        let (objs, items, space) = api.dequeue_bulk_ready bsr.ring n ready in
        Removed-intro bsr (api.sc_dequeue_bulk bsr.ring n).0 (api.sc_dequeue_bulk bsr.ring n).1 v
          (rw (objs, items) (take-append-drop n (queue bsr)))
    | no short ↦
        Removed-intro bsr (api.sc_dequeue_bulk bsr.ring n).0 (api.sc_dequeue_bulk bsr.ring n).1 v
          (rw (api.dequeue_bulk_short bsr.ring n (omega arith)) refl)
  ]

  dequeue_from :
      (bsr : BsRing api) (q : List ℕ)
      → queue bsr ≡ q
      → IsAccounted bsr
      → Removed bsr (bsring_dequeue api pkt_len bsr)
  unfolding bsring_dequeue
  dequeue_from bsr [] e v = ground (arith, api.dequeue_empty bsr.ring e)
  dequeue_from bsr (x ∷ xs) e v =
      ground (arith, api.dequeue_ready bsr.ring x xs e, ap (total pkt_len) e)

  -- A single dequeue from a ring whose byte count is exact hands out the front of the queue, if there
  -- is one, and the byte count is exact and within the capacity after it.
  pub bsring_dequeue-Removed :
      (bsr : BsRing api) → IsAccounted bsr → Removed bsr (bsring_dequeue api pkt_len bsr)
  bsring_dequeue-Removed bsr v = dequeue_from bsr (queue bsr) refl v

-- ===== src/ByteSizedRing/Threads/Safety.antt =====
-- However the producer and the consumer of a byte-sized ring are interleaved.
use libmoon.Prelude.{
  ℕ, ◌+◌, ◌-◌, ◌%◌, ◌^◌, ◌≤◌, ◌<◌, ◌≡◌, refl, sym, ap, ◌∙◌, List, [], ◌∷◌, ◌++◌, arith, take,
  append-nil, append_assoc, take_all, length, false, contains, take-append-drop, ◌==◌,
}
use native.Mathlib.Decide.{dec_le, dec_lt}
use libmoon.RteRing.{RteRing}
use libmoon.ByteSizedRing.{BsRing}
use libmoon.ByteSizedRing.Sizes.{total, total-append, add_sizes-eq, total-take-drop}
use libmoon.ByteSizedRing.Accounting.{IsAccounted}
use libmoon.ByteSizedRing.Threads.{
  Producer, outside, tested_bulk, tested_one, has_put, Request, bulk, one, Consumer, ready,
  subtracting, Demand, demand_bulk, demand_burst, demand_one, at_most_one, Threads, test_bulk,
  test_one, was_put, produce_from, was_given, dequeue_by, consume_from, Turn, produces, consumes,
  writes, write_len, take_turn, take_turns,
}

-- Sums of the lengths that are in the memory.
module _ (pkt_len : ℕ → ℕ) where
  -- The bytes that the producer has tested for, and those that it has put and not counted.
  abbrev pub tested_bytes : Producer → ℕ
  tested_bytes outside = 0
  tested_bytes (tested_bulk obj) = total pkt_len obj
  tested_bytes (tested_one x) = pkt_len x
  tested_bytes (has_put objs) = 0

  abbrev pub put_bytes : Producer → ℕ
  put_bytes outside = 0
  put_bytes (tested_bulk obj) = 0
  put_bytes (tested_one x) = 0
  put_bytes (has_put objs) = total pkt_len objs

  abbrev pub given_bytes : Consumer → ℕ
  given_bytes ready = 0
  given_bytes (subtracting objs) = total pkt_len objs

-- The buffers of a call in progress whose lengths it has read, or has still to read.
abbrev pub produced : Producer → List ℕ
produced outside = []
produced (tested_bulk obj) = obj
produced (tested_one x) = x ∷ []
produced (has_put objs) = objs

abbrev pub consumed : Consumer → List ℕ
consumed ready = []
consumed (subtracting objs) = objs

total-write_len :
    (p len : ℕ) (m : ℕ → ℕ) (xs : List ℕ)
    → contains p xs ≡ false
    → total (write_len p len m) xs ≡ total m xs
total-write_len p len m [] h = refl
total-write_len p len m (x ∷ xs) h = ground (arith, total-write_len p len m xs)

-- So none of the counts of a call in progress changes with the length of a buffer outside of it.
tested-write_len :
    (p len : ℕ) (m : ℕ → ℕ) (c : Producer)
    → contains p (produced c) ≡ false
    → (tested_bytes (write_len p len m) c ≡ tested_bytes m c)
      × (put_bytes (write_len p len m) c ≡ put_bytes m c)
tested-write_len p len m outside h = (refl, refl)
tested-write_len p len m (tested_bulk obj) h = (total-write_len p len m obj h, refl)
tested-write_len p len m (tested_one x) h = (ground arith, refl)
tested-write_len p len m (has_put objs) h = (refl, total-write_len p len m objs h)

given-write_len :
    (p len : ℕ) (m : ℕ → ℕ) (c : Consumer)
    → contains p (consumed c) ≡ false
    → given_bytes (write_len p len m) c ≡ given_bytes m c
given-write_len p len m ready h = refl
given-write_len p len m (subtracting objs) h = total-write_len p len m objs h

module _ (api : RteRing) where
  abbrev pub ring_bytes : Threads api → ℕ
  ring_bytes s = total s.pkt_len (api.items s.bsr.ring)

  record IsInStep (start : BsRing api) (s : Threads api) : Type 0 where
    counted :
        s.bsr.bytes_used
        ≡ (ring_bytes s
            + given_bytes s.pkt_len s.consumer
            + 2 ^ 32
            - put_bytes s.pkt_len s.producer)
          % 2 ^ 32
    room :
        ring_bytes s + given_bytes s.pkt_len s.consumer + tested_bytes s.pkt_len s.producer
        ≤ s.bsr.capacity
    put : put_bytes s.pkt_len s.producer ≤ s.bsr.capacity
    limit : s.bsr.capacity < 2 ^ 31
    order : s.given ++ api.items s.bsr.ring ≡ api.items start.ring ++ s.taken
    same : s.bsr.capacity ≡ start.capacity

  -- A request is of fewer than 2 ^ 31 bytes. The length of a packet changes only while its buffer is
  -- not in the ring and no call has read it or has still to read it.
  abbrev pub IsSafe : Turn → Threads api → Type 0
  IsSafe (produces (bulk obj)) s = total s.pkt_len obj < 2 ^ 31
  IsSafe (produces (one x)) s = s.pkt_len x < 2 ^ 31
  IsSafe (consumes d) s = Unit
  IsSafe (writes p len) s =
      (contains p (api.items s.bsr.ring) ≡ false)
      × (contains p (produced s.producer) ≡ false)
      × (contains p (consumed s.consumer) ≡ false)

  -- The buffers that join the ring are among those that the test was for.
  was_put-IsInStep :
      (start : BsRing api) (objs : List ℕ) (ring : api.Ring) (s : Threads api)
      → put_bytes s.pkt_len s.producer ≡ 0
      → total s.pkt_len objs ≤ tested_bytes s.pkt_len s.producer
      → api.items ring ≡ api.items s.bsr.ring ++ objs
      → IsInStep start s
      → IsInStep start (was_put api s objs ring)
  was_put-IsInStep start objs ring s none_put fits e v = ground (
    arith,
    ap (total s.pkt_len) e,
    total-append s.pkt_len (api.items s.bsr.ring) objs,
    append_assoc s.given (api.items s.bsr.ring) objs,
    append_assoc (api.items start.ring) s.taken objs,
  )

  unchanged-IsInStep :
      (start : BsRing api) (ring : api.Ring) (s : Threads api)
      → put_bytes s.pkt_len s.producer ≡ 0
      → api.items ring ≡ api.items s.bsr.ring
      → IsInStep start s
      → IsInStep start (record s { bsr = record (s.bsr) { ring = ring }; producer = outside })
  unchanged-IsInStep start ring s none_put e v = ground (arith, ap (total s.pkt_len) e)

  sign : (rc : ℕ) → ¬ (rc ≡ 0) → (rc == 0) ≡ false
  sign rc h = ground arith

  produce-IsInStep :
      (start : BsRing api) (p : Producer) (r : Request) (s : Threads api)
      → s.producer ≡ p
      → IsSafe (produces r) s
      → IsInStep start s
      → IsInStep start (produce_from api p r s)
  unfolding produce_from test_bulk test_one
  produce-IsInStep start outside (bulk obj) s e h v = ground (arith, add_sizes-eq s.pkt_len 0 obj)
  produce-IsInStep start outside (one x) s e h v = ground arith
  produce-IsInStep start (tested_bulk obj) r s e h v =
      elim (dec_le (length (api.items s.bsr.ring) + length obj) (api.space s.bsr.ring)) [
        | yes free ↦
            let (n, items, space) = api.enqueue_bulk_fits s.bsr.ring obj free in
            was_put-IsInStep start (take (api.sp_enqueue_bulk s.bsr.ring obj).0 obj)
              (api.sp_enqueue_bulk s.bsr.ring obj).1 s (ap (put_bytes s.pkt_len) e)
              (omega (
                arith,
                ap (tested_bytes s.pkt_len) e,
                total-take-drop s.pkt_len (api.sp_enqueue_bulk s.bsr.ring obj).0 obj,
              ))
              (rw n (
                items
                ∙ ap (λ l. api.items s.bsr.ring ++ l)
                    (sym (take_all (length obj) obj (omega arith)))))
              v
        | no full ↦ rw (api.enqueue_bulk_full s.bsr.ring obj (omega arith)) (
            was_put-IsInStep start [] s.bsr.ring s (ap (put_bytes s.pkt_len) e) (omega arith)
              (sym (append-nil (api.items s.bsr.ring))) v)
      ]
  produce-IsInStep start (tested_one x) r s e h v =
      elim (dec_lt (length (api.items s.bsr.ring)) (api.space s.bsr.ring)) [
        | yes free ↦
            let (rc, items, space) = api.enqueue_fits s.bsr.ring x free in
            rw rc (
              was_put-IsInStep start (x ∷ []) (api.sp_enqueue s.bsr.ring x).1 s
                (ap (put_bytes s.pkt_len) e) (omega (arith, ap (tested_bytes s.pkt_len) e)) items v)
        | no full ↦
            let (rc, same) = api.enqueue_full s.bsr.ring x (omega arith) in
            rw (sign (api.sp_enqueue s.bsr.ring x).0 rc) (
              unchanged-IsInStep start (api.sp_enqueue s.bsr.ring x).1 s
                (ap (put_bytes s.pkt_len) e) (ap api.items same) v)
      ]
  produce-IsInStep start (has_put objs) r s e h v = ground (
    arith,
    ap (put_bytes s.pkt_len) e,
    ap (tested_bytes s.pkt_len) e,
    add_sizes-eq s.pkt_len 0 objs,
  )

  -- The buffers that leave the ring are the first of it.
  was_given-IsInStep :
      (start : BsRing api) (objs : List ℕ) (ring : api.Ring) (s : Threads api)
      → given_bytes s.pkt_len s.consumer ≡ 0
      → api.items s.bsr.ring ≡ objs ++ api.items ring
      → IsInStep start s
      → IsInStep start (was_given api s (objs, ring))
  was_given-IsInStep start objs ring s none_given e v = ground (
    arith,
    ap (total s.pkt_len) e,
    total-append s.pkt_len objs (api.items ring),
    append_assoc s.given objs (api.items ring),
  )

  dequeue_one :
      (start : BsRing api) (q : List ℕ) (s : Threads api)
      → api.items s.bsr.ring ≡ q
      → given_bytes s.pkt_len s.consumer ≡ 0
      → IsInStep start s
      → IsInStep start (was_given api s (dequeue_by api demand_one s.bsr.ring))
  dequeue_one start [] s e none_given v =
      was_given-IsInStep start (at_most_one (api.sc_dequeue s.bsr.ring).0)
        (api.sc_dequeue s.bsr.ring).1 s none_given (rw (api.dequeue_empty s.bsr.ring e) refl) v
  dequeue_one start (x ∷ xs) s e none_given v =
      let (obj, items, space) = api.dequeue_ready s.bsr.ring x xs e in
      was_given-IsInStep start (at_most_one (api.sc_dequeue s.bsr.ring).0)
        (api.sc_dequeue s.bsr.ring).1 s none_given (rw (obj, items) e) v

  consume-IsInStep :
      (start : BsRing api) (c : Consumer) (d : Demand) (s : Threads api)
      → s.consumer ≡ c
      → IsInStep start s
      → IsInStep start (consume_from api c d s)
  unfolding consume_from
  consume-IsInStep start ready (demand_bulk n) s e v =
      elim (dec_le n (length (api.items s.bsr.ring))) [
        | yes there ↦
            let (objs, items, space) = api.dequeue_bulk_ready s.bsr.ring n there in
            was_given-IsInStep start (api.sc_dequeue_bulk s.bsr.ring n).0
              (api.sc_dequeue_bulk s.bsr.ring n).1 s (ap (given_bytes s.pkt_len) e)
              (rw (objs, items) (sym (take-append-drop n (api.items s.bsr.ring)))) v
        | no short ↦
            was_given-IsInStep start (api.sc_dequeue_bulk s.bsr.ring n).0
              (api.sc_dequeue_bulk s.bsr.ring n).1 s (ap (given_bytes s.pkt_len) e)
              (rw (api.dequeue_bulk_short s.bsr.ring n (omega arith)) refl) v
      ]
  consume-IsInStep start ready (demand_burst n) s e v =
      let (objs, items, space) = api.dequeue_burst_lem s.bsr.ring n in
      was_given-IsInStep start (api.sc_dequeue_burst s.bsr.ring n).0
        (api.sc_dequeue_burst s.bsr.ring n).1 s (ap (given_bytes s.pkt_len) e)
        (rw (objs, items) (sym (take-append-drop n (api.items s.bsr.ring)))) v
  consume-IsInStep start ready demand_one s e v =
      dequeue_one start (api.items s.bsr.ring) s refl (ap (given_bytes s.pkt_len) e) v
  consume-IsInStep start (subtracting []) d s e v = ground (arith, ap (given_bytes s.pkt_len) e)
  consume-IsInStep start (subtracting (x ∷ xs)) d s e v =
      ground (arith, ap (given_bytes s.pkt_len) e)

  take_turn-IsInStep :
      (start : BsRing api) (t : Turn) (s : Threads api)
      → IsSafe t s
      → IsInStep start s
      → IsInStep start (take_turn api t s)
  unfolding take_turn
  take_turn-IsInStep start (produces r) s h v = produce-IsInStep start s.producer r s refl h v
  take_turn-IsInStep start (writes p len) s h v =
      let (ring, producer, consumer) = h in
      ground (
        arith,
        total-write_len p len s.pkt_len (api.items s.bsr.ring) ring,
        tested-write_len p len s.pkt_len s.producer producer,
        given-write_len p len s.pkt_len s.consumer consumer,
      )
  take_turn-IsInStep start (consumes d) s h v = consume-IsInStep start s.consumer d s refl v

  abbrev pub AllSafe : List Turn → Threads api → Type 0
  AllSafe [] s = Unit
  AllSafe (t ∷ ts) s = IsSafe t s × AllSafe ts (take_turn api t s)

  take_turns-IsInStep :
      (start : BsRing api) (ts : List Turn) (s : Threads api)
      → AllSafe ts s
      → IsInStep start s
      → IsInStep start (take_turns api ts s)
  unfolding take_turns
  take_turns-IsInStep start [] s h v = v
  take_turns-IsInStep start (t ∷ ts) s h v =
      take_turns-IsInStep start ts (take_turn api t s) h.1 (take_turn-IsInStep start t s h.0 v)

  -- A ring with no call in progress, in a memory.
  abbrev pub at_rest : (ℕ → ℕ) → BsRing api → Threads api
  at_rest pkt_len bsr = record {
    bsr = bsr;
    pkt_len = pkt_len;
    producer = outside;
    consumer = ready;
    taken = [];
    given = [];
  }

  at_rest-IsInStep :
      (pkt_len : ℕ → ℕ) (bsr : BsRing api)
      → IsAccounted api pkt_len bsr
      → IsInStep bsr (at_rest pkt_len bsr)
  at_rest-IsInStep pkt_len bsr v = ground (arith, append-nil (api.items bsr.ring))

  -- A producer and a consumer run on a ring of a capacity below 2 ^ 31 whose byte count is exact and
  -- within it, the producer with bulk and single enqueues of fewer than 2 ^ 31 bytes, the consumer
  -- with any dequeues. The length of a packet changes only while its buffer is not in the ring, nor
  -- in a call in progress of either side: so not between an enqueue and the addition after it, not
  -- even if the consumer has the buffer by then. However the steps are interleaved, the packets in
  -- the ring never exceed its capacity in bytes. The buffers handed out followed by those in the
  -- ring are those it held and those it took, in order. The byte count is, modulo 2 ^ 32, the bytes
  -- in the ring with those handed out and not yet subtracted, less those put and not yet added.
  pub take_turns_counted :
      (pkt_len : ℕ → ℕ) (bsr : BsRing api) (ts : List Turn)
      → IsAccounted api pkt_len bsr
      → AllSafe ts (at_rest pkt_len bsr)
      → let s = take_turns api ts (at_rest pkt_len bsr) in
        (ring_bytes s ≤ bsr.capacity)
        × (s.given ++ api.items s.bsr.ring ≡ api.items bsr.ring ++ s.taken)
        × (s.bsr.bytes_used
            ≡ (ring_bytes s
                + given_bytes s.pkt_len s.consumer
                + 2 ^ 32
                - put_bytes s.pkt_len s.producer)
              % 2 ^ 32)
  take_turns_counted pkt_len bsr ts v h =
      let start = at_rest pkt_len bsr in
      let w = take_turns-IsInStep bsr ts start h (at_rest-IsInStep pkt_len bsr v) in
      (omega (arith, w.room, w.same), w.order, w.counted)

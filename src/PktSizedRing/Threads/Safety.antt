-- ===== src/PktSizedRing/Threads/Safety.antt =====
-- However the producer and the consumer of a packet-sized ring are interleaved.
use libmoon.Prelude.{
  ℕ, ◌+◌, ◌-◌, ◌^◌, ◌≤◌, ◌<◌, ◌≡◌, refl, sym, ap, ◌∙◌, List, [], ◌∷◌, ◌++◌, arith, take, append-nil,
  append_assoc, take_all, length, add32, take_own_length, length-append, length-take, take-nil,
}
use native.Mathlib.Decide.{dec_le, dec_lt}
use libmoon.RteRing.{RteRing}
use libmoon.RteRing.Calls.{dequeue_bulk, dequeue_burst, dequeue}
use libmoon.PktSizedRing.{PsRing, serve}
use libmoon.PktSizedRing.Refine.{serve-Refines, call_order}
use libmoon.PktSizedRing.Threads.{
  Offer, offer_bulk, offer_burst, offer_one, Demand, demand_bulk, demand_burst, demand_one,
  Producer, outside, passed, Threads, test_count, was_put, put_one, put_offer, produce_from,
  dequeue_by, consume, Turn, produces, consumes, take_turn, take_turns,
}

module _ (api : RteRing) where
  abbrev queue : Threads api → List ℕ
  queue s = api.items s.psr.ring

  -- The packets that the producer has tested for.
  abbrev pub offered : Offer → ℕ
  offered (offer_bulk obj) = length obj
  offered (offer_burst obj) = length obj
  offered (offer_one x) = 1

  abbrev tested : Producer → ℕ
  tested outside = 0
  tested (passed p) = offered p

  record IsInStep (start : PsRing api) (s : Threads api) : Type 0 where
    room : length (queue s) + tested s.producer ≤ start.capacity
    order : s.given ++ queue s ≡ api.items start.ring ++ s.taken
    same : s.psr.capacity ≡ start.capacity

  abbrev pub IsSmall : Turn → Type 0
  IsSmall (produces r) = offered r < 2 ^ 31
  IsSmall (consumes d) = Unit

  count_wrap :
      (ring : api.Ring) (n : ℕ)
      → n < 2 ^ 31
      → add32 (api.count ring) n ≡ length (api.items ring) + n
  count_wrap ring n h = omega (arith, api.count_lem ring, api.items_fit ring, api.space_limit ring)

  -- The buffers that join the ring are among those that the test was for.
  was_put-IsInStep :
      (start : PsRing api) (objs : List ℕ) (out : ℕ × api.Ring) (s : Threads api)
      → length (take out.0 objs) ≤ tested s.producer
      → api.items out.1 ≡ queue s ++ take out.0 objs
      → IsInStep start s
      → IsInStep start (was_put api s objs out)
  was_put-IsInStep start objs out s fits e v = ground (
    arith,
    ap length e,
    length-append (queue s) (take out.0 objs),
    append_assoc s.given (queue s) (take out.0 objs),
    append_assoc (api.items start.ring) s.taken (take out.0 objs),
  )

  test_count-IsInStep :
      (start : PsRing api) (r : Offer) (s : Threads api)
      → s.producer ≡ outside
      → offered r < 2 ^ 31
      → IsInStep start s
      → IsInStep start (test_count api r s)
  unfolding test_count
  test_count-IsInStep start (offer_bulk obj) s e h v =
      ground (arith, count_wrap s.psr.ring (length obj) h)
  test_count-IsInStep start (offer_burst obj) s e h v = ground (
    arith,
    count_wrap s.psr.ring (length obj) h,
    api.count_lem s.psr.ring,
    length-take (s.psr.capacity - length (queue s)) obj,
    length-take (length obj) obj,
  )
  test_count-IsInStep start (offer_one x) s e h v = ground (arith, count_wrap s.psr.ring 1)

  put_offer-IsInStep :
      (start : PsRing api) (p : Offer) (s : Threads api)
      → s.producer ≡ passed p
      → IsInStep start s
      → IsInStep start (put_offer api p s)
  unfolding put_offer
  put_offer-IsInStep start (offer_bulk obj) s e v =
      was_put-IsInStep start obj (api.sp_enqueue_bulk s.psr.ring obj) s
        (omega (arith, ap tested e, length-take (api.sp_enqueue_bulk s.psr.ring obj).0 obj))
        (elim (dec_le (length (queue s) + length obj) (api.space s.psr.ring)) [
          | yes fits ↦
              ground (arith, api.enqueue_bulk_fits s.psr.ring obj fits, take_all (length obj) obj)
          | no full ↦
              ground
                (arith, api.enqueue_bulk_full s.psr.ring obj (omega arith), append-nil (queue s))
        ])
        v
  put_offer-IsInStep start (offer_burst obj) s e v =
      let free = api.space s.psr.ring - length (queue s) in
      let (n, items, space) = api.enqueue_burst_lem s.psr.ring obj in
      was_put-IsInStep start obj (api.sp_enqueue_burst s.psr.ring obj) s
        (omega (arith, ap tested e, length-take (api.sp_enqueue_burst s.psr.ring obj).0 obj))
        (items ∙ ap (λ l. queue s ++ l) (sym (ap (λ k. take k obj) n ∙ take_own_length free obj))) v
  put_offer-IsInStep start (offer_one x) s e v =
      was_put-IsInStep start (x ∷ []) (put_one api (api.sp_enqueue s.psr.ring x)) s
        (omega
          (arith, ap tested e, length-take (put_one api (api.sp_enqueue s.psr.ring x)).0 (x ∷ [])))
        (elim (dec_lt (length (queue s)) (api.space s.psr.ring)) [
          | yes fits ↦ ground (arith, api.enqueue_fits s.psr.ring x fits)
          | no full ↦
              ground (arith, api.enqueue_full s.psr.ring x (omega arith), append-nil (queue s))
        ])
        v

  took_nothing : (psr : PsRing api) (n : ℕ) → api.items psr.ring ++ take n [] ≡ api.items psr.ring
  took_nothing psr n =
      ap (λ l. api.items psr.ring ++ l) (take-nil n) ∙ append-nil (api.items psr.ring)

  dequeue_by_lem :
      (d : Demand) (psr : PsRing api)
      → let (objs, after) = dequeue_by api d psr in
        (objs ++ api.items after.ring ≡ api.items psr.ring) × (after.capacity ≡ psr.capacity)
  unfolding serve
  dequeue_by_lem (demand_bulk n) psr = (
    call_order api psr (dequeue_bulk n) (omega arith)
        ∙ took_nothing psr (serve api psr (dequeue_bulk n)).0.returned,
    (serve-Refines api psr (dequeue_bulk n) (omega arith)).capacity,
  )
  dequeue_by_lem (demand_burst n) psr = (
    call_order api psr (dequeue_burst n) (omega arith)
        ∙ took_nothing psr (serve api psr (dequeue_burst n)).0.returned,
    (serve-Refines api psr (dequeue_burst n) (omega arith)).capacity,
  )
  dequeue_by_lem demand_one psr = (
    call_order api psr dequeue (omega arith) ∙ took_nothing psr (serve api psr dequeue).0.returned,
    (serve-Refines api psr dequeue (omega arith)).capacity,
  )

  consume-IsInStep :
      (start : PsRing api) (d : Demand) (s : Threads api)
      → IsInStep start s
      → IsInStep start (consume api d s)
  unfolding consume
  consume-IsInStep start d s v =
      let (objs, after) = dequeue_by api d s.psr in
      let (left, capacity) = dequeue_by_lem d s.psr in
      record {
        room = omega (arith, v.room, ap length left, length-append objs (api.items after.ring));
        order =
            append_assoc s.given objs (api.items after.ring)
            ∙ ap (λ l. s.given ++ l) left
            ∙ v.order;
        same = capacity ∙ v.same;
      }

  take_turn-IsInStep :
      (start : PsRing api) (p : Producer) (t : Turn) (s : Threads api)
      → s.producer ≡ p
      → IsSmall t
      → IsInStep start s
      → IsInStep start (take_turn api t s)
  unfolding take_turn
  take_turn-IsInStep start outside (produces r) s e h v =
      rw (ap (λ p. produce_from api p r s) e) (test_count-IsInStep start r s e h v)
  take_turn-IsInStep start (passed p) (produces r) s e h v =
      rw (ap (λ p. produce_from api p r s) e) (put_offer-IsInStep start p s e v)
  take_turn-IsInStep start p (consumes d) s e h v = consume-IsInStep start d s v

  abbrev pub AllSmall : List Turn → Type 0
  AllSmall [] = Unit
  AllSmall (t ∷ ts) = IsSmall t × AllSmall ts

  take_turns-IsInStep :
      (start : PsRing api) (ts : List Turn) (s : Threads api)
      → AllSmall ts
      → IsInStep start s
      → IsInStep start (take_turns api ts s)
  unfolding take_turns
  take_turns-IsInStep start [] s h v = v
  take_turns-IsInStep start (t ∷ ts) s h v =
      take_turns-IsInStep start ts (take_turn api t s) h.1
        (take_turn-IsInStep start s.producer t s refl h.0 v)

  -- A ring with no call in progress.
  abbrev pub at_rest : PsRing api → Threads api
  at_rest psr = record { psr = psr; producer = outside; taken = []; given = [] }

  -- A producer and a consumer run on a ring that is within its capacity, the producer with offers of
  -- fewer than 2 ^ 31 buffers. However their steps are interleaved, dequeues between the test of the
  -- capacity and the enqueue included, the ring never holds more packets than its capacity, and the
  -- buffers handed out followed by those in the ring are those it held and those it took, in order.
  pub take_turns_within :
      (psr : PsRing api) (ts : List Turn)
      → length (api.items psr.ring) ≤ psr.capacity
      → AllSmall ts
      → let s = take_turns api ts (at_rest psr) in
        (length (api.items s.psr.ring) ≤ psr.capacity)
        × (s.given ++ api.items s.psr.ring ≡ api.items psr.ring ++ s.taken)
        × (s.psr.capacity ≡ psr.capacity)
  take_turns_within psr ts within h =
      let start : IsInStep psr (at_rest psr) = record {
        room = omega (arith, within);
        order = sym (append-nil (api.items psr.ring));
        same = refl;
      } in
      let v = take_turns-IsInStep psr ts (at_rest psr) h start in
      (omega (arith, v.room), v.order, v.same)

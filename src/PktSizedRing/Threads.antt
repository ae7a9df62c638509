-- ===== src/PktSizedRing/Threads.antt =====
-- src/pktsizedring.cpp: a packet-sized ring whose producer and whose consumer run on two cores.
-- An enqueue has two steps, `rte_ring_count` with the test of the capacity and the enqueue on the
-- ring underneath; the consumer may dequeue between them. A dequeue is one call on that ring.
pub mod Safety
pub mod Alone
mod Tests
use libmoon.Prelude.{
  ℕ, ◌+◌, ◌-◌, ◌^◌, ◌<◌, Option, none, some, List, [], ◌∷◌, ◌++◌, length, take, ltb, leb,
  if◌then◌else◌, add32, ◌==◌,
}
use libmoon.RteRing.{RteRing}
use libmoon.PktSizedRing.{PsRing, psring_dequeue_bulk, psring_dequeue_burst, psring_dequeue}

pub data Offer : Type 0 where
  offer_bulk offer_burst : List ℕ → Offer
  offer_one : ℕ → Offer

pub data Demand : Type 0 where
  demand_bulk demand_burst : ℕ → Demand
  demand_one : Demand

-- The producer is outside of its calls, or has passed the test and goes on to enqueue these.
pub data Producer : Type 0 where
  outside : Producer
  passed : Offer → Producer

module _ (api : RteRing) where
  -- `taken` and `given` are all buffers that the ring has taken and handed out, in order.
  pub record Threads : Type 0 where
    pub psr : PsRing api
    pub producer : Producer
    pub taken : List ℕ
    pub given : List ℕ

  pub test_count : Offer → Threads → Threads
  test_count (offer_bulk obj) s =
      if ltb (add32 (api.count s.psr.ring) (length obj)) s.psr.capacity
      then record s { producer = passed (offer_bulk obj) }
      else s
  test_count (offer_burst obj) s =
      let count = api.count s.psr.ring in
      let num_to_add =
        if ltb s.psr.capacity (add32 count (length obj))
        then s.psr.capacity - count
        else length obj in
      if ltb s.psr.capacity count
      then s
      else record s { producer = passed (offer_burst (take num_to_add obj)) }
  test_count (offer_one x) s =
      if leb (add32 (api.count s.psr.ring) 1) s.psr.capacity
      then record s { producer = passed (offer_one x) }
      else s

  abbrev pub was_put : Threads → List ℕ → ℕ × api.Ring → Threads
  was_put s obj (n, ring) = record s {
    psr = record (s.psr) { ring = ring };
    producer = outside;
    taken = s.taken ++ take n obj;
  }

  -- The number of buffers that `sp_enqueue` has added, from its result.
  abbrev pub put_one : ℕ × api.Ring → ℕ × api.Ring
  put_one (rc, ring) = (if rc == 0 then 1 else 0, ring)

  pub put_offer : Offer → Threads → Threads
  put_offer (offer_bulk obj) s = was_put s obj (api.sp_enqueue_bulk s.psr.ring obj)
  put_offer (offer_burst obj) s = was_put s obj (api.sp_enqueue_burst s.psr.ring obj)
  put_offer (offer_one x) s = was_put s (x ∷ []) (put_one (api.sp_enqueue s.psr.ring x))

  -- The next step of the producer; an offer begins a call only when there is none.
  abbrev pub produce_from : Producer → Offer → Threads → Threads
  produce_from outside r s = test_count r s
  produce_from (passed p) r s = put_offer p s

  abbrev pub dequeue_by : Demand → PsRing api → List ℕ × PsRing api
  dequeue_by (demand_bulk n) psr = psring_dequeue_bulk api psr n
  dequeue_by (demand_burst n) psr = psring_dequeue_burst api psr n
  dequeue_by demand_one psr = psring_dequeue api psr

  pub consume : Demand → Threads → Threads
  consume d s =
      let (objs, psr) = dequeue_by d s.psr in record s { psr = psr; given = s.given ++ objs }

-- Whose step is next.
pub data Turn : Type 0 where
  produces : Offer → Turn
  consumes : Demand → Turn

module _ (api : RteRing) where
  pub take_turn : Turn → Threads api → Threads api
  take_turn (produces r) s = produce_from api s.producer r s
  take_turn (consumes d) s = consume api d s

  -- A schedule.
  pub take_turns : List Turn → Threads api → Threads api
  take_turns [] s = s
  take_turns (t ∷ ts) s = take_turns ts (take_turn t s)

-- ===== src/ByteSizedRing/Threads.antt =====
-- src/bytesizedring.cpp: a byte-sized ring whose producer and whose consumer run on two cores.
-- A step is what the code does to shared memory at once: one load or one update of the atomic
-- `bytes_used`, or one call on the ring underneath, which is made for one producer and one consumer.
-- The producer calls `bsring_enqueue_bulk` and `bsring_enqueue`, the consumer any of its calls. The
-- memory with the lengths of the packets is shared, too, so that it can change between two steps. A
-- loop that adds up lengths reads all of them in one step.
pub mod Safety
mod Tests
use libmoon.Prelude.{
  ℕ, ◌^◌, ◌<◌, Bool, Option, none, some, List, [], ◌∷◌, ◌++◌, take, ltb, if◌then◌else◌, add32,
  sub32, ◌==◌,
}
use libmoon.RteRing.{RteRing}
use libmoon.ByteSizedRing.{BsRing, add_sizes}

-- Where the producer stands in its call, with the local variables that are live there.
pub data Producer : Type 0 where
  outside : Producer
  tested_bulk : List ℕ → Producer  -- the test of the capacity has passed
  tested_one : ℕ → Producer
  has_put : List ℕ → Producer  -- the buffers are in the ring, and not in `bytes_used`

pub data Request : Type 0 where
  bulk : List ℕ → Request
  one : ℕ → Request

-- The consumer, with the buffers whose lengths it has still to subtract.
pub data Consumer : Type 0 where
  ready : Consumer
  subtracting : List ℕ → Consumer

pub data Demand : Type 0 where
  demand_bulk demand_burst : ℕ → Demand
  demand_one : Demand

-- `sc_dequeue` as a list of at most one buffer.
abbrev pub at_most_one : Option ℕ → List ℕ
at_most_one none = []
at_most_one (some x) = x ∷ []

-- The memory after a write to the field `pkt_len` of the buffer at `p`.
abbrev pub write_len : ℕ → ℕ → (ℕ → ℕ) → ℕ → ℕ
write_len p len pkt_len q = if q == p then len else pkt_len q

module _ (api : RteRing) where
  -- `taken` and `given` are all buffers that the ring has taken and handed out, in order.
  pub record Threads : Type 0 where
    pub bsr : BsRing api
    pub pkt_len : ℕ → ℕ  -- of the buffer at each address
    pub producer : Producer
    pub consumer : Consumer
    pub taken : List ℕ
    pub given : List ℕ

  -- The load of `bytes_used`, and the test.
  pub test_bulk : List ℕ → Threads → Threads
  test_bulk obj s =
      if ltb s.bsr.capacity (add32 s.bsr.bytes_used (add_sizes s.pkt_len 0 obj))
      then s
      else record s { producer = tested_bulk obj }

  pub test_one : ℕ → Threads → Threads
  test_one x s =
      if ltb (add32 s.bsr.bytes_used (s.pkt_len x)) s.bsr.capacity
      then record s { producer = tested_one x }
      else s

  -- After the enqueue.
  abbrev pub was_put : Threads → List ℕ → api.Ring → Threads
  was_put s objs ring = record s {
    bsr = record (s.bsr) { ring = ring };
    producer = has_put objs;
    taken = s.taken ++ objs;
  }

  abbrev pub one_put : Threads → ℕ → ℕ × api.Ring → Threads
  one_put s x (rc, ring) =
      if rc == 0
      then was_put s (x ∷ []) ring
      else record s { bsr = record (s.bsr) { ring = ring }; producer = outside }

  -- The update of `bytes_used`.
  abbrev pub add_up : List ℕ → Threads → Threads
  add_up objs s = record s {
    bsr = record (s.bsr) { bytes_used = add32 s.bsr.bytes_used (add_sizes s.pkt_len 0 objs) };
    producer = outside;
  }

  -- The next step of the producer; a request begins a call only when there is none.
  pub produce_from : Producer → Request → Threads → Threads
  produce_from outside (bulk obj) s = test_bulk obj s
  produce_from outside (one x) s = test_one x s
  produce_from (tested_bulk obj) r s =
      let (n, ring) = api.sp_enqueue_bulk s.bsr.ring obj in was_put s (take n obj) ring
  produce_from (tested_one x) r s = one_put s x (api.sp_enqueue s.bsr.ring x)
  produce_from (has_put objs) r s = add_up objs s

  abbrev pub was_given : Threads → List ℕ × api.Ring → Threads
  was_given s (objs, ring) = record s {
    bsr = record (s.bsr) { ring = ring };
    consumer = subtracting objs;
    given = s.given ++ objs;
  }

  abbrev pub dequeue_by : Demand → api.Ring → List ℕ × api.Ring
  dequeue_by (demand_bulk n) ring = api.sc_dequeue_bulk ring n
  dequeue_by (demand_burst n) ring = api.sc_dequeue_burst ring n
  dequeue_by demand_one ring = let (obj, ring') = api.sc_dequeue ring in (at_most_one obj, ring')

  pub consume_from : Consumer → Demand → Threads → Threads
  consume_from ready d s = was_given s (dequeue_by d s.bsr.ring)
  consume_from (subtracting []) d s = record s { consumer = ready }
  consume_from (subtracting (x ∷ xs)) d s = record s {
    bsr = record (s.bsr) { bytes_used = sub32 s.bsr.bytes_used (s.pkt_len x) };
    consumer = subtracting xs;
  }

-- Whose step is next, with what it asks for if it is outside of its calls.
pub data Turn : Type 0 where
  produces : Request → Turn
  consumes : Demand → Turn
  writes : ℕ → ℕ → Turn  -- some task gives the packet in the buffer this length

module _ (api : RteRing) where
  pub take_turn : Turn → Threads api → Threads api
  take_turn (produces r) s = produce_from api s.producer r s
  take_turn (consumes d) s = consume_from api s.consumer d s
  take_turn (writes p len) s = record s { pkt_len = write_len p len s.pkt_len }

  -- A schedule.
  pub take_turns : List Turn → Threads api → Threads api
  take_turns [] s = s
  take_turns (t ∷ ts) s = take_turns ts (take_turn t s)

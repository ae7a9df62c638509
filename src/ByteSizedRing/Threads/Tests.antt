-- ===== src/ByteSizedRing/Threads/Tests.antt =====
-- Interleaved runs of a byte-sized ring on a list, and the theorems at concrete inputs.
use libmoon.Prelude.{ℕ, ◌+◌, ◌-◌, ◌%◌, ◌^◌, ◌≤◌, ◌≡◌, refl, List, [], ◌∷◌, ◌++◌, arith}
use libmoon.RteRing.Fifo.{fifo}
use libmoon.ByteSizedRing.{BsRing}
use libmoon.ByteSizedRing.Accounting.{IsAccounted}
use libmoon.ByteSizedRing.Threads.{
  bulk, one, writes, demand_one, produce_from, test_bulk, test_one, consume_from, Turn, produces,
  consumes, take_turn, take_turns,
}
use libmoon.ByteSizedRing.Threads.Safety.{
  ring_bytes, given_bytes, put_bytes, at_rest, take_turns_counted,
}

-- The buffer at address `p` holds a packet of `p` bytes.
abbrev sizes : ℕ → ℕ
sizes p = p

abbrev empty : BsRing fifo
empty = record { ring = record { objs = []; size = 7 }; capacity = 1000; bytes_used = 0 }

-- The producer is between its enqueue and its addition when the consumer does a whole dequeue.
abbrev overtaken : List Turn
overtaken =
    produces (bulk (400 ∷ [])) ∷ produces (bulk []) ∷ consumes demand_one ∷ consumes demand_one ∷ []

empty-IsAccounted : IsAccounted fifo sizes empty
empty-IsAccounted = omega arith

-- The count has then gone below 0, and wrapped.
overtaken_wraps :
    let s = take_turns fifo overtaken (at_rest fifo sizes empty) in
    (s.bsr.bytes_used ≡ 2 ^ 32 - 400) × (s.given ≡ 400 ∷ [])
unfolding take_turns take_turn produce_from test_bulk test_one consume_from
overtaken_wraps = (refl, refl)

-- The next two steps bring it back.
overtaken_settles :
    let after = take_turns fifo overtaken (at_rest fifo sizes empty) in
    take_turns fifo (produces (bulk []) ∷ consumes demand_one ∷ []) after
    ≡ record (at_rest fifo sizes empty) { taken = 400 ∷ []; given = 400 ∷ [] }
unfolding take_turns take_turn produce_from test_bulk test_one consume_from
overtaken_settles = refl

-- The buffer goes through the ring, gets a packet of 60 bytes, and is enqueued again.
abbrev reused : List Turn
reused =
    produces (bulk (400 ∷ []))
    ∷ produces (bulk [])
    ∷ consumes demand_one
    ∷ consumes demand_one
    ∷ produces (bulk [])
    ∷ consumes demand_one
    ∷ writes 400 60
    ∷ produces (one 400)
    ∷ produces (one 400)
    ∷ []

-- If it gets that packet as soon as it is subtracted, before it is added, the count is 340 too low.
abbrev too_early : List Turn
too_early =
    produces (bulk (400 ∷ []))
    ∷ produces (bulk [])
    ∷ consumes demand_one
    ∷ consumes demand_one
    ∷ consumes demand_one
    ∷ writes 400 60
    ∷ produces (bulk [])
    ∷ []

too_early_drifts :
    let s = take_turns fifo too_early (at_rest fifo sizes empty) in
    (s.bsr.bytes_used ≡ 2 ^ 32 - 340) × (fifo.items s.bsr.ring ≡ [])
unfolding take_turns take_turn produce_from test_bulk test_one consume_from
too_early_drifts = (refl, refl)

take_turns_counted_example :
    let s = take_turns fifo reused (at_rest fifo sizes empty) in
    (ring_bytes fifo s ≤ 1000)
    × (s.given ++ fifo.items s.bsr.ring ≡ s.taken)
    × (s.bsr.bytes_used
        ≡ (ring_bytes fifo s
            + given_bytes s.pkt_len s.consumer
            + 2 ^ 32
            - put_bytes s.pkt_len s.producer)
          % 2 ^ 32)
unfolding take_turns take_turn produce_from test_bulk test_one consume_from
take_turns_counted_example =
    take_turns_counted fifo sizes empty reused empty-IsAccounted (ground arith)

-- ===== src/PktSizedRing/Threads/Tests.antt =====
-- Interleaved runs of a packet-sized ring on a list, and the theorems at concrete inputs.
use libmoon.Prelude.{◌≤◌, ◌≡◌, refl, List, [], ◌∷◌, ◌++◌, length, arith}
use libmoon.RteRing.Fifo.{fifo}
use libmoon.PktSizedRing.{PsRing, psring_dequeue_bulk}
use libmoon.PktSizedRing.Threads.{
  offer_burst, offer_one, demand_bulk, test_count, put_offer, consume, Turn, produces, consumes,
  take_turn, take_turns,
}
use libmoon.PktSizedRing.Threads.Safety.{at_rest, take_turns_within}

-- Three packets of at most five, in a ring with seven usable entries.
abbrev three : PsRing fifo
three = record { ring = record { objs = 10 ∷ 11 ∷ 12 ∷ []; size = 7 }; capacity = 5 }

-- The burst is cut to two buffers before a dequeue makes room for two more.
abbrev late : List Turn
late =
    produces (offer_burst (13 ∷ 14 ∷ 15 ∷ []))
    ∷ consumes (demand_bulk 2)
    ∷ produces (offer_one 0)
    ∷ []

late_run :
    let s = take_turns fifo late (at_rest fifo three) in
    (s.psr.ring.objs ≡ 12 ∷ 13 ∷ 14 ∷ []) × (s.given ≡ 10 ∷ 11 ∷ [])
unfolding take_turns take_turn test_count put_offer consume psring_dequeue_bulk
late_run = (refl, refl)

take_turns_within_example :
    let s = take_turns fifo late (at_rest fifo three) in
    (length (fifo.items s.psr.ring) ≤ 5)
    × (s.given ++ fifo.items s.psr.ring ≡ 10 ∷ 11 ∷ 12 ∷ s.taken)
    × (s.psr.capacity ≡ 5)
take_turns_within_example = take_turns_within fifo three late (omega arith) (omega arith)

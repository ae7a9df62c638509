-- ===== src/PktSizedRing/Tests.antt =====
-- Runs of a packet-sized ring on a list, and the theorems at concrete inputs.
use libmoon.Prelude.{◌^◌, ◌≤◌, ◌≡◌, refl, some, List, [], ◌∷◌, ◌++◌, arith, length}
use libmoon.RteRing.Fifo.{fifo}
use libmoon.RteRing.Calls.{Call, enqueue_burst, enqueue, dequeue_bulk, dequeue, handed_out, taken}
use libmoon.PktSizedRing.{
  PsRing, clamp_capacity, psring_count, serve, round_up, psring_enqueue_bulk, psring_enqueue_burst,
  psring_enqueue, psring_dequeue_bulk, psring_dequeue,
}
use libmoon.PktSizedRing.Queue
use libmoon.PktSizedRing.Refine.{Refines, serve-Refines, run, run_order}

-- Three packets of at most five, in a ring with seven usable entries.
abbrev three : PsRing fifo
three = record { ring = record { objs = 10 ∷ 11 ∷ 12 ∷ []; size = 7 }; capacity = 5 }

abbrev script : List Call
script = enqueue_burst (13 ∷ 14 ∷ 15 ∷ []) ∷ enqueue 16 ∷ dequeue_bulk 2 ∷ enqueue 17 ∷ dequeue ∷ []

-- The burst takes two of three buffers, the full ring refuses the next, and order is kept.
run-script :
    (handed_out (run fifo three script).0 ≡ 10 ∷ 11 ∷ 12 ∷ [])
    × (psring_count fifo (run fifo three script).1 ≡ 3)
unfolding run serve psring_enqueue_burst psring_enqueue psring_dequeue_bulk psring_dequeue
    psring_count
run-script = (refl, refl)

-- A bulk call stops one packet short of the capacity, which a burst reaches.
bulk_stops_short :
    ((psring_enqueue_bulk fifo three (13 ∷ 14 ∷ [])).0 ≡ 0)
    × ((psring_enqueue_burst fifo three (13 ∷ 14 ∷ [])).0 ≡ 2)
unfolding psring_enqueue_bulk psring_enqueue_burst
bulk_stops_short = (refl, refl)

capacity_above_limit :
    (clamp_capacity (2 ^ 30) ≡ 268435455) × (round_up 29 268435455 1 ≡ some (2 ^ 28))
unfolding round_up
capacity_above_limit = (refl, refl)

serve-Refines_example :
    Refines fifo three
      (Queue.serve 5 7 (10 ∷ 11 ∷ 12 ∷ []) (enqueue_burst (13 ∷ 14 ∷ 15 ∷ [])))
      (serve fifo three (enqueue_burst (13 ∷ 14 ∷ 15 ∷ [])))
serve-Refines_example = serve-Refines fifo three (enqueue_burst (13 ∷ 14 ∷ 15 ∷ [])) (omega arith)

run_order_example :
    let (rs, end) = run fifo three script in
    (handed_out rs ++ fifo.items end.ring ≡ 10 ∷ 11 ∷ 12 ∷ taken script rs)
    × (length (fifo.items end.ring) ≤ end.capacity)
    × (end.capacity ≡ 5)
run_order_example = run_order fifo three script (omega arith) (omega arith)

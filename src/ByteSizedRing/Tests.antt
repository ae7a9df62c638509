-- ===== src/ByteSizedRing/Tests.antt =====
-- Runs of a byte-sized ring on a list, and the theorems at concrete inputs.
use libmoon.Prelude.{
  suc, take, ◌⊎◌, ℕ, ◌+◌, ◌^◌, ◌≤◌, ◌<◌, ◌/◌, ◌≡◌, refl, none, some, List, [], ◌∷◌, ◌++◌, arith,
}
use libmoon.RteRing.{mbuf_bs_ring}
use libmoon.RteRing.Fifo.{Buffer, fifo}
use libmoon.RteRing.Calls.{Call, enqueue_bulk, enqueue, dequeue, Reply, handed_out, taken}
use libmoon.PktSizedRing.Create.{IsTight}
use libmoon.ByteSizedRing.{
  BsRing, wrap, create_bsring, bsring_enqueue_burst, bsring_enqueue_bulk, num_to_add, count_fitting,
  fill_gaps, grow, bsring_count, bsring_capacity, bsring_bytesused,
}
use libmoon.ByteSizedRing.Accounting.{IsAccounted}
use libmoon.ByteSizedRing.EnqueueBurst.{Bursts, bsring_enqueue_burst_lem}
use libmoon.ByteSizedRing.Sizes.{total}
use libmoon.ByteSizedRing.BurstLoops.{enqueue_burst_past_end}
use libmoon.ByteSizedRing.Overflow.{bulk_over_capacity}
use libmoon.ByteSizedRing.Create.{create_bsring_lem}
use libmoon.ByteSizedRing.Order.{run, run-IsAccounted}

-- The buffer at address `p` holds a packet of `p` bytes.
abbrev sizes : ℕ → ℕ
sizes p = p

-- 100 of 1000 bytes used, with seven usable entries; and the same with one entry, which is taken.
abbrev roomy : BsRing fifo
roomy = record { ring = record { objs = 100 ∷ []; size = 7 }; capacity = 1000; bytes_used = 100 }

abbrev script : List Call
script = enqueue_bulk (400 ∷ 500 ∷ []) ∷ enqueue 60 ∷ dequeue ∷ enqueue 60 ∷ []

roomy-IsAccounted : IsAccounted fifo sizes roomy
roomy-IsAccounted = omega arith

-- The lone packet of a ring with 100 bytes used is dequeued after a burst that did not count its
-- second buffer: the byte count of the ring is wrong by 70 from then on.
burst_then_drift :
    (after : BsRing fifo) × (bsring_enqueue_burst fifo sizes roomy (950 ∷ 70 ∷ [])
      ≡ some (0, after))
    × (bsring_bytesused fifo after ≡ 100)
    × (bsring_count fifo after ≡ 2)
    × (bsring_capacity fifo after ≡ 1000)
unfolding bsring_enqueue_burst num_to_add count_fitting fill_gaps bsring_bytesused bsring_count
    bsring_capacity
burst_then_drift = (_, refl, refl, refl, refl)

abbrev empty_thousand : BsRing fifo
empty_thousand = record { ring = record { objs = []; size = 7 }; capacity = 1000; bytes_used = 0 }

ring_for_a_megabyte : grow 30 (1000000 / 60) 1 ≡ some 32768
unfolding grow
ring_for_a_megabyte = refl

-- The first buffer does not fit, and the other two join the ring uncounted.
bsring_enqueue_burst_lem_example :
    let batch : List ℕ = 950 ∷ 70 ∷ 60 ∷ [] in
    let k = num_to_add fifo sizes roomy batch in
    ((total sizes (take k batch) ≤ 900)
      × ((k ≡ 3) ⊎ (total sizes (take k batch) ≡ 900) ⊎ (900 < total sizes (take (suc k) batch))))
    × (out : ℕ × BsRing fifo) × (bsring_enqueue_burst fifo sizes roomy batch ≡ some out)
    × Bursts fifo sizes roomy batch out
bsring_enqueue_burst_lem_example =
    bsring_enqueue_burst_lem fifo sizes roomy (950 ∷ 70 ∷ 60 ∷ []) roomy-IsAccounted (omega arith)
      (omega arith)

create_bsring_lem_example :
    (j : ℕ) × (create_bsring fifo 0 6000
      ≡ some (wrap fifo 6000 (fifo.create (mbuf_bs_ring 0) (2 ^ j)), 1))
    × (j ≤ 27)
    × (100 ≤ 2 ^ j)
    × IsTight 100 j
    × ((ring : Buffer)
        → fifo.create (mbuf_bs_ring 0) (2 ^ j) ≡ some ring
        → (fifo.items ring ≡ []) × (fifo.space ring + 1 ≡ 2 ^ j))
create_bsring_lem_example = create_bsring_lem fifo 0 6000 (omega arith)

abbrev tiny : BsRing fifo
tiny = record { ring = record { objs = []; size = 0 }; capacity = 100; bytes_used = 0 }

tiny_made : create_bsring fifo 0 100 ≡ some (some tiny, 1)
unfolding create_bsring grow
tiny_made = refl

run-IsAccounted_example :
    (rs : List Reply) × (end : BsRing fifo) × (run fifo sizes roomy script ≡ some (rs, end))
    × (handed_out rs ++ fifo.items end.ring ≡ 100 ∷ taken script rs)
    × IsAccounted fifo sizes end
    × (end.capacity ≡ 1000)
run-IsAccounted_example = run-IsAccounted fifo sizes roomy script (omega arith) roomy-IsAccounted

-- 3,000,000,000 bytes, all of them free.
abbrev huge : BsRing fifo
huge = record { ring = record { objs = []; size = 7 }; capacity = 3000000000; bytes_used = 0 }

enqueue_burst_past_end_example : bsring_enqueue_burst fifo sizes huge (60 ∷ 64 ∷ []) ≡ none
enqueue_burst_past_end_example =
    enqueue_burst_past_end fifo sizes huge 60 (64 ∷ []) (omega arith) (omega arith) (omega arith)

-- Two packets of almost 2 ^ 31 bytes each, and a capacity for both.
abbrev nearly_full : BsRing fifo
nearly_full = record {
  ring = record { objs = 2147483647 ∷ 2147483646 ∷ []; size = 7 };
  capacity = 4294967295;
  bytes_used = 4294967293;
}

bulk_over_capacity_example :
    let (n, after) = bsring_enqueue_bulk fifo sizes nearly_full (1000 ∷ []) in
    (n ≡ 1)
    × (fifo.items after.ring ≡ 2147483647 ∷ 2147483646 ∷ 1000 ∷ [])
    × (4294967295 < total sizes (fifo.items after.ring))
    × (after.bytes_used < 4294967293)
bulk_over_capacity_example =
    bulk_over_capacity fifo sizes nearly_full (1000 ∷ []) refl (omega arith) (omega arith)
      (omega arith) (omega arith) (omega arith)

-- ===== src/SpscRing/Tests.antt =====
-- A ring with three usable places: the second batch does not fit, the third call finds one buffer too
-- few.
use libmoon.Prelude.{◌≡◌, refl, some, List, [], ◌∷◌}
use libmoon.RteRing.Fifo.{fifo, Buffer}
use libmoon.SpscRing.{
  create_ring, RingCall, enqueues, dequeues, serve_each, serve, ring_enqueue, ring_dequeue,
}

abbrev fresh : Buffer
fresh = record { objs = []; size = 3 }

abbrev calls : List RingCall
calls = enqueues (7 ∷ 8 ∷ []) ∷ enqueues (1 ∷ 2 ∷ []) ∷ dequeues 1 ∷ dequeues 2 ∷ []

created : create_ring fifo 5 4 ≡ (some fresh, 6)
unfolding create_ring
created = refl

served : serve_each fifo calls fresh ≡ (7 ∷ 8 ∷ [], 7 ∷ [], record fresh { objs = 8 ∷ [] })
unfolding serve_each serve ring_enqueue ring_dequeue
served = refl

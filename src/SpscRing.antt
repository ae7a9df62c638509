-- ===== src/SpscRing.antt =====
-- src/ring.c: the ring of DPDK for one producer and one consumer, without a limit of its own.
pub mod Order
mod Tests
use libmoon.Prelude.{
  ℕ, zero, suc, ◌+◌, ◌≡◌, Bool, true, false, Option, none, some, List, [], ◌∷◌, ◌++◌, length, take,
  add32, ◌==◌,
}
use libmoon.RteRing.{RteRing, mbuf_ring}

module _ (api : RteRing) where
  -- On the static counter `ring_cnt`: the ring, or NULL, and the counter after it.
  pub create_ring : ℕ → ℕ → Option api.Ring × ℕ
  create_ring ring_cnt count = (api.create (mbuf_ring ring_cnt) count, add32 ring_cnt 1)

  pub ring_enqueue : api.Ring → List ℕ → ℕ × api.Ring
  ring_enqueue r obj = api.sp_enqueue_bulk r obj

  pub ring_dequeue : api.Ring → ℕ → List ℕ × api.Ring
  ring_dequeue r n = api.sc_dequeue_bulk r n

  pub ring_count : api.Ring → ℕ
  ring_count r = api.count r

  pub ring_free_count : api.Ring → ℕ
  ring_free_count r = api.free_count r

  pub ring_empty : api.Ring → Bool
  ring_empty r = api.empty r == 1

  pub ring_full : api.Ring → Bool
  ring_full r = api.full r == 1

-- A call of the producer or the consumer.
pub data RingCall : Type 0 where
  enqueues : List ℕ → RingCall
  dequeues : ℕ → RingCall

module _ (api : RteRing) where
  -- The buffers that the ring took, those that it handed out, and the ring.
  pub serve : RingCall → api.Ring → List ℕ × List ℕ × api.Ring
  serve (enqueues obj) r = let (n, r') = ring_enqueue api r obj in (take n obj, [], r')
  serve (dequeues n) r = let (obj, r') = ring_dequeue api r n in ([], obj, r')

  pub serve_each : List RingCall → api.Ring → List ℕ × List ℕ × api.Ring
  serve_each [] r = ([], [], r)
  serve_each (c ∷ cs) r =
      let (taken, given, r1) = serve c r in
      let (takens, givens, end) = serve_each cs r1 in (taken ++ takens, given ++ givens, end)

-- ===== src/Traffic/Forward.antt =====
-- Packets on their way through a ring to the wire.
use libmoon.Prelude.{
  ℕ, ◌^◌, ◌<◌, ◌≤◌, ◌≡◌, ◌∙◌, ap, sym, refl, some, List, [], ◌∷◌, ◌++◌, length, take, append-nil,
  append_assoc, arith, take-nil, length-take,
}
use libmoon.RteRing.{RteRing}
use libmoon.RteRing.Calls.{Reply, enqueue_burst, dequeue_burst}
use libmoon.PktSizedRing.{PsRing, psring_enqueue_burst, psring_dequeue_burst, serve}
use libmoon.PktSizedRing.Queue
use libmoon.PktSizedRing.Refine.{serve_within, call_order, serve-Refines}
use libmoon.Device.{TxQueue}
use libmoon.Device.Send.{Drains, dpdk_send_all_packets_lem}
use libmoon.Traffic.{Event, arrives, relays, Relay, took, step, steps}

module _ (rings : RteRing) (tx : TxQueue) (d : Drains tx) where
  abbrev waiting : Relay rings tx → List ℕ
  waiting s = rings.items s.psr.ring

  -- A call's batch is at most as large as the size of an array on the Lua side and of a burst.
  abbrev pub IsSmall : Event → Type 0
  IsSmall (arrives bufs) = length bufs < 2 ^ 31
  IsSmall (relays n) = n < 2 ^ 16

  abbrev pub AllSmall : List Event → Type 0
  AllSmall [] = Unit
  AllSmall (e ∷ es) = IsSmall e × AllSmall es

  -- Since `start`, nothing is lost or overtaken, and the ring is within its capacity.
  record IsOnWay (start s : Relay rings tx) : Type 0 where
    order : tx.wire s.queue ++ waiting s ≡ tx.wire start.queue ++ waiting start ++ s.taken
    within : length (waiting s) ≤ s.psr.capacity
    same : s.psr.capacity ≡ start.psr.capacity

  arrives-IsOnWay :
      (start s : Relay rings tx) (bufs : List ℕ)
      → length bufs < 2 ^ 31
      → IsOnWay start s
      → IsOnWay start (took rings tx s bufs (psring_enqueue_burst rings s.psr bufs))
  unfolding serve
  arrives-IsOnWay start s bufs h v =
      let (n, psr) = psring_enqueue_burst rings s.psr bufs in
      record {
        order =
            ap (λ l. tx.wire s.queue ++ l) (call_order rings s.psr (enqueue_burst bufs) h)
            ∙ sym (append_assoc (tx.wire s.queue) (waiting s) (take n bufs))
            ∙ ap (λ l. l ++ take n bufs) v.order
            ∙ append_assoc (tx.wire start.queue ++ waiting start) s.taken (take n bufs);
        within = serve_within rings s.psr (enqueue_burst bufs) h v.within;
        same = (serve-Refines rings s.psr (enqueue_burst bufs) h).capacity ∙ v.same;
      }

  took_nothing : (q : List ℕ) (n : ℕ) → q ++ take n [] ≡ q
  took_nothing q n = ap (λ l. q ++ l) (take-nil n) ∙ append-nil q

  relays-IsOnWay :
      (start s : Relay rings tx) (n : ℕ)
      → n < 2 ^ 16
      → IsOnWay start s
      → (s' : Relay rings tx) × (step rings tx d.most s (relays n) ≡ some s') × IsOnWay start s'
  unfolding step serve Queue.serve
  relays-IsOnWay start s n h v =
      let (bufs, psr) = psring_dequeue_burst rings s.psr n in
      let left = call_order rings s.psr (dequeue_burst n) (omega arith) in
      let refines = serve-Refines rings s.psr (dequeue_burst n) (omega arith) in
      let batch : length bufs ≡ length (take n (waiting s)) =
        ap (λ (r : Reply). length r.objs) refines.reply in
      let (end, sent, wire) =
        dpdk_send_all_packets_lem tx d s.queue bufs
          (omega (arith, batch, length-take n (waiting s))) in
      (
        record s { psr = psr; queue = end },
        rw sent refl,
        record {
          order =
              ap (λ l. l ++ rings.items psr.ring) wire
              ∙ append_assoc (tx.wire s.queue) bufs (rings.items psr.ring)
              ∙ ap (λ l. tx.wire s.queue ++ l) (left ∙ took_nothing (waiting s) _)
              ∙ v.order;
          within = serve_within rings s.psr (dequeue_burst n) (omega arith) v.within;
          same = refines.capacity ∙ v.same;
        },
      )

  steps-IsOnWay :
      (start s : Relay rings tx) (es : List Event)
      → AllSmall es
      → IsOnWay start s
      → (end : Relay rings tx) × (steps rings tx d.most s es ≡ some end) × IsOnWay start end
  unfolding steps step
  steps-IsOnWay start s [] h v = (s, refl, v)
  steps-IsOnWay start s (arrives bufs ∷ es) h v =
      steps-IsOnWay start (took rings tx s bufs (psring_enqueue_burst rings s.psr bufs)) es h.1
        (arrives-IsOnWay start s bufs h.0 v)
  steps-IsOnWay start s (relays n ∷ es) h v =
      let (s', went, v') = relays-IsOnWay start s n h.0 v in
      let (end, ended, v'') = steps-IsOnWay start s' es h.1 v' in (end, rw (went, ended) refl, v'')

  -- Batches of fewer than 2 ^ 31 buffers arrive in a ring that is within its capacity, in any order
  -- with a task that takes out fewer than 2 ^ 16 at a time and sends them on a card that takes
  -- nothing at most `most` times in a row. Every step ends. What has gone out followed by what is in
  -- the ring is what had gone out and was in the ring at the start, and then all packets that the
  -- ring took, in order; and the ring is within its capacity.
  pub steps_lem :
      (psr : PsRing rings) (q : tx.Queue) (es : List Event)
      → AllSmall es
      → length (rings.items psr.ring) ≤ psr.capacity
      → (end : Relay rings tx) × (steps rings tx d.most
            (record { psr = psr; queue = q; taken = [] })
            es
          ≡ some end)
        × (tx.wire end.queue ++ rings.items end.psr.ring
            ≡ tx.wire q ++ rings.items psr.ring ++ end.taken)
        × (length (rings.items end.psr.ring) ≤ psr.capacity)
  steps_lem psr q es h within =
      let start : Relay rings tx = record { psr = psr; queue = q; taken = [] } in
      let (end, ran, v) = steps-IsOnWay start start es h (record {
        order = sym (append-nil (tx.wire q ++ rings.items psr.ring));
        within = within;
        same = refl;
      }) in
      (end, ran, v.order, omega (arith, v.within, v.same))

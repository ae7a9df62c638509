-- ===== src/Traffic.antt =====
-- The parts of src/ together, as scripts put them together: buffers of a mempool are sent on a
-- transmit queue (src/memory.c, src/device.c), and packets that one task puts into a packet-sized
-- ring another takes out and sends (src/pktsizedring.cpp, src/device.c).
pub mod Generate
pub mod Forward
mod Tests
use libmoon.Prelude.{ℕ, suc, ◌*◌, Option, none, some, List, [], ◌∷◌, ◌++◌, take, length}
use libmoon.Memory.{Mem, Mempool, Outcome, done, fault, running, alloc_mbufs}
use libmoon.Device.{TxQueue, dpdk_send_all_packets}
use libmoon.RteRing.{RteRing}
use libmoon.PktSizedRing.{PsRing, psring_enqueue_burst, psring_dequeue_burst}

module _ (tx : TxQueue) where
  -- Fuel that is enough for a card that takes nothing at most `most` times in a row.
  abbrev pub send_all : ℕ → List ℕ → tx.Queue → Option tx.Queue
  send_all most bufs q = dpdk_send_all_packets tx (suc (length bufs) * suc most) q bufs

  abbrev pub keep_mem : Mem → Option tx.Queue → Option (Mem × tx.Queue)
  keep_mem mem none = none
  keep_mem mem (some q) = some (mem, q)

  abbrev pub send_when : ℕ → List ℕ → tx.Queue → Outcome → Option (Mem × tx.Queue)
  send_when most bufs q (done mem) = keep_mem mem (send_all most bufs q)
  send_when most bufs q fault = none
  send_when most bufs q running = none

-- A task fills its array with buffers of the pool and sends the array: the pool after it, and the
-- memory and the queue unless something has gone wrong.
module _ (pools : Mempool) (tx : TxQueue) where
  pub generate : ℕ → pools.Pool → List ℕ → ℕ → Mem → tx.Queue → pools.Pool × Option (Mem × tx.Queue)
  generate most mp bufs pkt_len mem q =
      let (mp', bufs', out) = alloc_mbufs pools (length bufs) mp bufs (length bufs) pkt_len mem in
      (mp', send_when tx most bufs' q out)

-- A batch arrives in the ring, or the sending task takes up to a number of packets out and sends
-- them.
pub data Event : Type 0 where
  arrives : List ℕ → Event
  relays : ℕ → Event

module _ (rings : RteRing) (tx : TxQueue) where
  pub record Relay : Type 0 where
    pub psr : PsRing rings
    pub queue : tx.Queue
    -- all packets that the ring has taken
    pub taken : List ℕ

  abbrev pub took : Relay → List ℕ → ℕ × PsRing rings → Relay
  took s bufs (n, psr) = record s { psr = psr; taken = s.taken ++ take n bufs }

  abbrev pub sent_on : Relay → PsRing rings → Option tx.Queue → Option Relay
  sent_on s psr none = none
  sent_on s psr (some q) = some (record s { psr = psr; queue = q })

  pub step : ℕ → Relay → Event → Option Relay
  step most s (arrives bufs) = some (took s bufs (psring_enqueue_burst rings s.psr bufs))
  step most s (relays n) =
      let (bufs, psr) = psring_dequeue_burst rings s.psr n in
      sent_on s psr (send_all tx most bufs s.queue)

  abbrev pub then_steps : Option Relay → (Relay → Option Relay) → Option Relay
  then_steps none f = none
  then_steps (some s) f = f s

  pub steps : ℕ → Relay → List Event → Option Relay
  steps most s [] = some s
  steps most s (e ∷ es) = then_steps (step most s e) (λ s'. steps most s' es)

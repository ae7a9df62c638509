-- ===== src/Traffic/Tests.antt =====
-- A pool that is a list of addresses, a card that takes every packet at once, and a ring on a list.
use libmoon.Prelude.{
  ℕ, ◌≡◌, ◌≤◌, refl, ap, sym, Option, none, some, List, [], ◌∷◌, ◌++◌, arith, length, take, drop,
  leb, if◌then◌else◌, length-take, take_all,
}
use libmoon.Memory.{Mem, Mempool}
use libmoon.Memory.AllocMbufs.{Prepared}
use libmoon.Device.{TxQueue, dpdk_send_all_packets, send_loop}
use libmoon.Device.Send.{Drains}
use libmoon.RteRing.Fifo.{fifo}
use libmoon.PktSizedRing.{PsRing, psring_enqueue_burst, psring_dequeue_burst}
use libmoon.Traffic.{generate, Event, arrives, relays, Relay, step, steps}
use libmoon.Traffic.Generate.{generate_lem}
use libmoon.Traffic.Forward.{steps_lem}

abbrev get : List ℕ → ℕ → Option (List ℕ) × List ℕ
get pool n = if leb n (length pool) then (some (take n pool), drop n pool) else (none, pool)

get_size : (pool : List ℕ) (n : ℕ) (objs : List ℕ) → (get pool n).0 ≡ some objs → length objs ≡ n
get_size pool n objs e = ground (arith, length-take n pool)

abbrev pools : Mempool
pools = record {
  Pool = List ℕ;
  pool_create = λ name n cache priv room socket. some [];
  headroom = 128;
  get_bulk = get;
  reset = λ m. record m { pkt_len = 0; data_len = 0; rest = 0 };
  get_bulk_size = get_size;
  reset_refcnt = λ m. refl;
}

abbrev stale : Mem
stale p = record { refcnt = 0; pkt_len = p; data_len = p; rest = 9 }

abbrev eager : TxQueue
eager = record {
  Queue = List ℕ;
  wire = λ q. q;
  tx_burst = λ q pkts. (length pkts, q ++ pkts);
  tx_burst_takes =
      λ q pkts. (omega arith, ap (λ l. q ++ l) (sym (take_all (length pkts) pkts (omega arith))));
}

abbrev eager_drains : Drains eager
eager_drains = record {
  most = 0;
  patience = λ q. 0;
  patience_bound = λ q. omega arith;
  stalls = λ q pkts h e. absurd (omega arith);
}

generate_lem_example :
    (mem' : Mem) × (end : List ℕ) × ((generate pools eager 0
        (4 ∷ 5 ∷ 6 ∷ 7 ∷ [])
        (0 ∷ 0 ∷ 0 ∷ [])
        60
        stale
        (9 ∷ [])).1
      ≡ some (mem', end))
    × (end ≡ 9 ∷ 4 ∷ 5 ∷ 6 ∷ [])
    × Prepared pools 60 stale (4 ∷ 5 ∷ 6 ∷ []) mem'
generate_lem_example =
    generate_lem pools eager eager_drains (4 ∷ 5 ∷ 6 ∷ 7 ∷ []) (0 ∷ 0 ∷ 0 ∷ []) 60 stale (9 ∷ [])
      {objs = 4 ∷ 5 ∷ 6 ∷ []} (omega arith) (omega arith) refl

-- Three packets of at most five, in a ring with seven usable entries.
abbrev three : PsRing fifo
three = record { ring = record { objs = 10 ∷ 11 ∷ 12 ∷ []; size = 7 }; capacity = 5 }

abbrev events : List Event
events = arrives (13 ∷ 14 ∷ 15 ∷ []) ∷ relays 4 ∷ arrives (16 ∷ []) ∷ relays 1 ∷ []

-- The ring takes two of the first batch.
events_run :
    steps fifo eager 0 (record { psr = three; queue = []; taken = [] }) events
    ≡ some (record {
      psr = record { ring = record { objs = 16 ∷ []; size = 7 }; capacity = 5 };
      queue = 10 ∷ 11 ∷ 12 ∷ 13 ∷ 14 ∷ [];
      taken = 13 ∷ 14 ∷ 16 ∷ [];
    })
unfolding steps step psring_enqueue_burst psring_dequeue_burst dpdk_send_all_packets send_loop
events_run = refl

steps_lem_example :
    (end : Relay fifo eager) × (steps fifo eager 0
        (record { psr = three; queue = []; taken = [] })
        events
      ≡ some end)
    × (end.queue ++ fifo.items end.psr.ring ≡ 10 ∷ 11 ∷ 12 ∷ end.taken)
    × (length (fifo.items end.psr.ring) ≤ 5)
steps_lem_example = steps_lem fifo eager eager_drains three [] events (omega arith) (omega arith)

-- ===== src/Traffic/Generate.antt =====
-- Buffers of a pool go out on the wire.
use libmoon.Prelude.{
  ℕ, ◌^◌, ◌<◌, ◌≡◌, ◌∙◌, ap, refl, ◌∷◌, some, List, [], ◌++◌, length, drop, append-nil, arith,
}
use libmoon.Memory.{Mem, Mempool}
use libmoon.Memory.AllocMbufs.{Prepared, alloc_mbufs_lem}
use libmoon.Device.{TxQueue}
use libmoon.Device.Send.{Drains, dpdk_send_all_packets_lem}
use libmoon.Traffic.{generate}

drop_all : (xs : List ℕ) → drop (length xs) xs ≡ []
drop_all [] = refl
drop_all (x ∷ xs) = drop_all xs

module _ (pools : Mempool) (tx : TxQueue) (d : Drains tx) where
  -- A task with an array of at least one and fewer than 2 ^ 16 buffers fills it from the pool, which
  -- has enough, and sends it on a card that takes nothing at most `most` times in a row. It ends, and
  -- what has gone out are exactly the pool's buffers in their order, each with one owner and the
  -- wanted length; no other buffer has changed.
  pub generate_lem :
      (mp : pools.Pool) (bufs : List ℕ) (pkt_len : ℕ) (mem : Mem) (q : tx.Queue) {objs : List ℕ}
      → 0 < length bufs
      → length bufs < 2 ^ 16
      → (pools.get_bulk mp (length bufs)).0 ≡ some objs
      → (mem' : Mem) × (end : tx.Queue) × ((generate pools tx d.most mp bufs pkt_len mem q).1
          ≡ some (mem', end))
        × (tx.wire end ≡ tx.wire q ++ objs)
        × Prepared pools pkt_len mem objs mem'
  unfolding generate
  generate_lem mp bufs pkt_len mem q {objs} some_left small got =
      let size : length objs ≡ length bufs = pools.get_bulk_size mp (length bufs) objs got in
      let (mem', ended, array, prepared) =
        alloc_mbufs_lem pools mp bufs (length bufs) pkt_len mem some_left (omega (arith, small))
          got in
      let whole : objs ++ drop (length bufs) bufs ≡ objs =
        ap (λ l. objs ++ l) (drop_all bufs) ∙ append-nil objs in
      let (end, sent, wire) = dpdk_send_all_packets_lem tx d q objs (omega (arith, size)) in
      (mem', end, rw (ended, array, whole, sent) refl, wire, prepared)

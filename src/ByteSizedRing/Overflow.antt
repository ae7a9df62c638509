-- ===== src/ByteSizedRing/Overflow.antt =====
-- What the 32-bit sum of `bsring_enqueue_bulk` does on a ring of almost 2 ^ 32 bytes.
use libmoon.Prelude.{ℕ, ◌+◌, ◌^◌, ◌≤◌, ◌<◌, ◌≡◌, List, ◌++◌, arith, length, take_all}
use libmoon.RteRing.{RteRing}
use libmoon.ByteSizedRing.{BsRing, bsring_enqueue_bulk}
use libmoon.ByteSizedRing.Sizes.{total, total-append, add_sizes-eq}
use libmoon.ByteSizedRing.Accounting.{queue}

module _ (api : RteRing) (pkt_len : ℕ → ℕ) where
  -- On a ring of a capacity below 2 ^ 32 whose byte count is exact and within it, with entries free for
  -- the batch: a batch of fewer than 2 ^ 32 bytes that makes 2 ^ 32 or more together with those in
  -- the ring joins the ring, although the ring then holds more bytes than its capacity, and the byte
  -- count is lower than before.
  pub bulk_over_capacity :
      (bsr : BsRing api) (obj : List ℕ)
      → bsr.bytes_used ≡ total pkt_len (queue api pkt_len bsr)
      → bsr.bytes_used ≤ bsr.capacity
      → bsr.capacity < 2 ^ 32
      → total pkt_len obj < 2 ^ 32
      → 2 ^ 32 ≤ bsr.bytes_used + total pkt_len obj
      → length (queue api pkt_len bsr) + length obj ≤ api.space bsr.ring
      → let (n, bsr') = bsring_enqueue_bulk api pkt_len bsr obj in
        (n ≡ length obj)
        × (queue api pkt_len bsr' ≡ queue api pkt_len bsr ++ obj)
        × (bsr.capacity < total pkt_len (queue api pkt_len bsr'))
        × (bsr'.bytes_used < bsr.bytes_used)
  unfolding bsring_enqueue_bulk
  bulk_over_capacity bsr obj exact within limit small over free = ground (
    arith,
    add_sizes-eq pkt_len 0 obj,
    api.enqueue_bulk_fits bsr.ring obj free,
    take_all (length obj) obj,
    total-append pkt_len (queue api pkt_len bsr) obj,
  )

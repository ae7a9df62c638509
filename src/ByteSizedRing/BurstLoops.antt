-- ===== src/ByteSizedRing/BurstLoops.antt =====
-- The two loops of `bsring_enqueue_burst`.
use libmoon.Prelude.{
  ℕ, suc, ◌+◌, ◌-◌, ◌^◌, ◌≤◌, ◌<◌, ◌≡◌, ◌⊎◌, refl, none, some, List, [], ◌∷◌, ◌++◌, arith, length,
  take, sub32, append-nil, take_all, take-nil,
}
use libmoon.RteRing.{RteRing}
use libmoon.ByteSizedRing.{
  BsRing, count_fitting, num_to_add, fill_gaps, from_first, bsring_enqueue_burst,
}
use libmoon.ByteSizedRing.Sizes.{
  total, total-append, total-take-drop, add_sizes-eq, AllSmall, count_fitting-Fitting,
}
use libmoon.ByteSizedRing.Accounting.{queue, IsAccounted, Added}

module _ (api : RteRing) (pkt_len : ℕ → ℕ) where
  room :
      (bsr : BsRing api)
      → IsAccounted api pkt_len bsr
      → sub32 bsr.capacity bsr.bytes_used ≡ bsr.capacity - bsr.bytes_used
  room bsr v = omega arith

  -- On a ring whose byte count is exact, with fewer than 2 ^ 31 buffers, each of fewer than 2 ^ 31
  -- bytes, the first loop of a burst passes on a prefix of the batch whose bytes fit under the
  -- capacity, and this prefix is the whole batch, or fills the ring to the byte, or cannot be one
  -- buffer longer.
  pub num_to_add_lem :
      (bsr : BsRing api) (obj : List ℕ)
      → IsAccounted api pkt_len bsr
      → length obj < 2 ^ 31
      → AllSmall pkt_len obj
      → let k = num_to_add api pkt_len bsr obj in
        let free : ℕ = bsr.capacity - bsr.bytes_used in
        (total pkt_len (take k obj) ≤ free)
        × ((k ≡ length obj)
            ⊎ (total pkt_len (take k obj) ≡ free)
            ⊎ (free < total pkt_len (take (suc k) obj)))
  unfolding num_to_add
  num_to_add_lem bsr obj v n s =
      let f = count_fitting-Fitting pkt_len (bsr.capacity - bsr.bytes_used) obj (omega arith) n s in
      rw (room bsr v) (f.fits, f.maximal)

  -- So under these conditions it passes on no more than the batch.
  pub num_to_add-le :
      (bsr : BsRing api) (obj : List ℕ)
      → IsAccounted api pkt_len bsr
      → length obj < 2 ^ 31
      → AllSmall pkt_len obj
      → num_to_add api pkt_len bsr obj ≤ length obj
  unfolding num_to_add
  num_to_add-le bsr obj v n s =
      let f = count_fitting-Fitting pkt_len (bsr.capacity - bsr.bytes_used) obj (omega arith) n s in
      rw (room bsr v) (ground (arith, f.rounds, f.some_round))

  -- On a ring of a capacity below 2 ^ 32 with 2 ^ 31 bytes or more left under it, a burst of at least
  -- one and fewer than 2 ^ 32 - 1 buffers, of any lengths, passes more buffers on to the ring
  -- underneath than the array has: `bytes_remaining` is negative from the start, no buffer is
  -- counted, and the number is then one less than 0.
  pub enqueue_burst_past_end :
      (bsr : BsRing api) (x : ℕ) (obj : List ℕ)
      → bsr.capacity < 2 ^ 32
      → bsr.bytes_used + 2 ^ 31 ≤ bsr.capacity
      → suc (length obj) < 2 ^ 32 - 1
      → bsring_enqueue_burst api pkt_len bsr (x ∷ obj) ≡ none
  unfolding bsring_enqueue_burst num_to_add count_fitting
  enqueue_burst_past_end bsr x obj limit large n = ground arith

  whole_batch :
      (bsr : BsRing api) (obj : List ℕ)
      → IsAccounted api pkt_len bsr
      → length obj < 2 ^ 31
      → AllSmall pkt_len obj
      → bsr.bytes_used + total pkt_len obj < bsr.capacity
      → num_to_add api pkt_len bsr obj ≡ length obj
  whole_batch bsr obj v n s h = ground (
    arith,
    num_to_add_lem bsr obj v n s,
    total-take-drop pkt_len (num_to_add api pkt_len bsr obj) obj,
    total-take-drop pkt_len (suc (num_to_add api pkt_len bsr obj)) obj,
  )

  from_first_whole :
      (bsr : BsRing api) (obj : List ℕ)
      → IsAccounted api pkt_len bsr
      → bsr.bytes_used + total pkt_len obj < bsr.capacity
      → length (queue api pkt_len bsr) + length obj ≤ api.space bsr.ring
      → let out = from_first api pkt_len bsr obj (length obj) in
        Added api pkt_len bsr obj out × (out.0 ≡ length obj)
  from_first_whole bsr obj v h free = rw (take_all (length obj) obj (omega arith)) (
      ground (
        arith,
        api.enqueue_burst_lem bsr.ring obj,
        take_all (api.space bsr.ring - length (queue api pkt_len bsr)) obj,
        take_all (length obj) obj,
        add_sizes-eq pkt_len 0 obj,
        total-append pkt_len (queue api pkt_len bsr) obj,
      ))

  -- A burst of fewer than 2 ^ 31 buffers, each of fewer than 2 ^ 31 bytes, whose bytes stay below the
  -- capacity and whose buffers fit into the ring underneath, on a ring whose byte count is exact,
  -- joins the ring whole, and the byte count stays exact.
  enqueue_burst_whole :
      (bsr : BsRing api) (obj : List ℕ)
      → IsAccounted api pkt_len bsr
      → length obj < 2 ^ 31
      → AllSmall pkt_len obj
      → bsr.bytes_used + total pkt_len obj < bsr.capacity
      → length (queue api pkt_len bsr) + length obj ≤ api.space bsr.ring
      → (out : ℕ × BsRing api) × (bsring_enqueue_burst api pkt_len bsr obj ≡ some out)
        × Added api pkt_len bsr obj out
        × (out.0 ≡ length obj)
  unfolding bsring_enqueue_burst
  enqueue_burst_whole bsr obj v n s h free =
      let whole = whole_batch bsr obj v n s h in
      let (added, count) = from_first_whole bsr obj v h free in
      (from_first api pkt_len bsr obj (length obj), rw whole (ground arith), added, count)

  -- The second loop takes a buffer for enqueued when `rte_ring_sp_enqueue` does not return 0. So a
  -- burst of a buffer that is too large and one that fits, on a ring with at least 60 free bytes
  -- and a free entry, puts the second into the ring, returns 0 and leaves the byte count alone.
  pub enqueue_burst_uncounted :
      (bsr : BsRing api) (x y : ℕ)
      → IsAccounted api pkt_len bsr
      → bsr.bytes_used + 60 ≤ bsr.capacity
      → bsr.capacity < bsr.bytes_used + pkt_len x
      → pkt_len x < 2 ^ 31
      → bsr.bytes_used + pkt_len y ≤ bsr.capacity
      → length (queue api pkt_len bsr) < api.space bsr.ring
      → (bsr' : BsRing api) × (bsring_enqueue_burst api pkt_len bsr (x ∷ y ∷ []) ≡ some (0, bsr'))
        × (queue api pkt_len bsr' ≡ queue api pkt_len bsr ++ (y ∷ []))
        × (bsr'.bytes_used ≡ bsr.bytes_used)
        × (bsr'.capacity ≡ bsr.capacity)
  unfolding bsring_enqueue_burst num_to_add count_fitting fill_gaps
  enqueue_burst_uncounted bsr x y v gap large small fits free =
      let ring : api.Ring = (api.sp_enqueue_burst bsr.ring []).1 in
      let count = api.enqueue_burst_lem bsr.ring [] in
      let first = take-nil {A = ℕ} (api.space bsr.ring - length (queue api pkt_len bsr)) in
      let own = append-nil (queue api pkt_len bsr) in
      let second = api.enqueue_fits ring y in
      (
        (from_first api pkt_len bsr (x ∷ y ∷ []) 0).1,
        ground (arith, count, first, own, second),
        ground (arith, count, first, own, second),
        ground (arith, count, first, own, second),
        refl,
      )

-- ===== src/ByteSizedRing/EnqueueBurst.antt =====
-- `bsring_enqueue_burst` on any batch.
use libmoon.Prelude.{
  zero, suc, ℕ, ◌+◌, ◌-◌, ◌^◌, ◌≤◌, ◌<◌, ◌≡◌, refl, sym, ap, ◌∙◌, ◌⊎◌, inl, inr, some, List, [],
  ◌∷◌, ◌++◌, arith, length, take, drop, ltb, if◌then◌else◌, Bool-cases, length-take, length-append,
  drop_past, length-drop, take-take, take_own_length, min,
}
use mathlib.Core.Path.{subst}
use native.Mathlib.Decide.{dec_le}
use libmoon.RteRing.{RteRing}
use libmoon.ByteSizedRing.{
  BsRing, Burst, num_to_add, fill_gaps, start_burst, finish_burst, from_first, bsring_enqueue_burst,
}
use libmoon.ByteSizedRing.Sizes.{total, total-take-drop, add_sizes-eq, AllSmall}
use libmoon.ByteSizedRing.Accounting.{queue, IsAccounted}
use libmoon.ByteSizedRing.BurstLoops.{num_to_add_lem, num_to_add-le}
use libmoon.ByteSizedRing.Gaps.{fitting, Filled, Filled-empty, fill_gaps_lem}

module _ (pkt_len : ℕ → ℕ) where
  AllSmall-drop : (k : ℕ) (xs : List ℕ) → AllSmall pkt_len xs → AllSmall pkt_len (drop k xs)
  AllSmall-drop zero xs s = s
  AllSmall-drop (suc k) [] s = s
  AllSmall-drop (suc k) (x ∷ xs) s = AllSmall-drop k xs s.1

  total-take-le : (k : ℕ) (xs : List ℕ) → total pkt_len (take k xs) ≤ total pkt_len xs
  total-take-le k xs = omega (arith, total-take-drop pkt_len k xs)

module _ (api : RteRing) (pkt_len : ℕ → ℕ) where
  -- The entries that are free in the ring underneath.
  abbrev pub free_entries : BsRing api → ℕ
  free_entries bsr = api.space bsr.ring - length (queue api pkt_len bsr)

  -- What the first loop has joined to the ring.
  abbrev pub first_joined : BsRing api → List ℕ → List ℕ
  first_joined bsr obj = take (free_entries bsr) (take (num_to_add api pkt_len bsr obj) obj)

  -- The second loop is passed over when the first has enqueued the whole batch.
  second_loop :
      (free n : ℕ) (b : Burst api.Ring) (rest : List ℕ)
      → (n ≤ b.num_added → rest ≡ [])
      → Filled api pkt_len free b rest (fill_gaps api pkt_len b rest)
      → Filled api pkt_len free b rest
          (if ltb b.num_added n then fill_gaps api pkt_len b rest else b)
  second_loop free n b rest whole f = elim (Bool-cases (ltb b.num_added n)) [
    | inl part ↦ rw part f
    | inr all ↦ rw (all, whole (ground arith)) (Filled-empty api pkt_len free b)
  ]

  -- The burst as the second loop finds it.
  abbrev after_first : BsRing api → List ℕ → api.Ring → Burst api.Ring
  after_first bsr obj ring =
      let first = first_joined bsr obj in
      record {
        ring = ring;
        num_added = length first;
        bytes_added = total pkt_len first;
        bytes_remaining = bsr.capacity - bsr.bytes_used - total pkt_len first;
      }

  start_burst-after_first :
      (bsr : BsRing api) (obj : List ℕ) (n : ℕ) (ring : api.Ring)
      → IsAccounted api pkt_len bsr
      → n ≡ length (first_joined bsr obj)
      → take n obj ≡ first_joined bsr obj
      → total pkt_len (first_joined bsr obj) ≤ bsr.capacity - bsr.bytes_used
      → start_burst api pkt_len bsr obj (n, ring) ≡ after_first bsr obj ring
  start_burst-after_first bsr obj n ring v e own le =
      ground (arith, add_sizes-eq pkt_len 0 (first_joined bsr obj))

  -- What a burst has done: the first buffers, and then those that fit and find a free entry, have
  -- joined the queue; the first are counted, and others that are lost.
  pub record Bursts (bsr : BsRing api) (obj : List ℕ) (out : ℕ × BsRing api) : Type 0 where
    pub lost : List ℕ
    pub joined :
        let first = first_joined bsr obj in
        let left : ℕ = bsr.capacity - bsr.bytes_used - total pkt_len first in
        queue api pkt_len out.1
        ≡ queue api pkt_len bsr
          ++ first
          ++ take
              (free_entries bsr - length first)
              (fitting pkt_len left (drop (num_to_add api pkt_len bsr obj) obj))
    pub returned : out.0 ≡ length (first_joined bsr obj) + length lost
    pub counted :
        out.1.bytes_used
        ≡ bsr.bytes_used + total pkt_len (first_joined bsr obj) + total pkt_len lost
    pub within : out.1.bytes_used ≤ bsr.capacity
    pub same_capacity : out.1.capacity ≡ bsr.capacity
    pub none_lost :
        let first = first_joined bsr obj in
        let left : ℕ = bsr.capacity - bsr.bytes_used - total pkt_len first in
        (lost ≡ [])
        ⊎ (free_entries bsr - length first
            < length (fitting pkt_len left (drop (num_to_add api pkt_len bsr obj) obj)))

  finish_burst-Bursts :
      (bsr : BsRing api) (obj : List ℕ) (ring : api.Ring) (b : Burst api.Ring)
      → IsAccounted api pkt_len bsr
      → total pkt_len (first_joined bsr obj) ≤ bsr.capacity - bsr.bytes_used
      → api.items ring ≡ queue api pkt_len bsr ++ first_joined bsr obj
      → Filled api pkt_len
          (free_entries bsr - length (first_joined bsr obj))
          (after_first bsr obj ring)
          (drop (num_to_add api pkt_len bsr obj) obj)
          b
      → Bursts bsr obj (finish_burst api bsr b)
  finish_burst-Bursts bsr obj ring b v le e f =
      let first = first_joined bsr obj in
      let left : ℕ = bsr.capacity - bsr.bytes_used - total pkt_len first in
      let rest = fitting pkt_len left (drop (num_to_add api pkt_len bsr obj) obj) in
      let free : ℕ = free_entries bsr - length first in
      record {
        lost = f.lost;
        joined = f.joined ∙ ap (λ l. l ++ take free rest) e;
        returned = f.counted;
        counted = omega (arith, f.bytes, f.within);
        within = omega (arith, f.bytes, f.within);
        same_capacity = refl;
        none_lost = elim (dec_le (length rest) free) [
          | yes all ↦ inl (f.none_lost all)
          | no short ↦ inr (omega arith)
        ];
      }

  enqueue_burst-Bursts :
      (bsr : BsRing api) (obj : List ℕ)
      → IsAccounted api pkt_len bsr
      → length obj < 2 ^ 31
      → AllSmall pkt_len obj
      → Bursts bsr obj (from_first api pkt_len bsr obj (num_to_add api pkt_len bsr obj))
  enqueue_burst-Bursts bsr obj v h s =
      let k = num_to_add api pkt_len bsr obj in
      let first = first_joined bsr obj in
      let (count, items, space) = api.enqueue_burst_lem bsr.ring (take k obj) in
      let ring = (api.sp_enqueue_burst bsr.ring (take k obj)).1 in
      let own : take (api.sp_enqueue_burst bsr.ring (take k obj)).0 obj ≡ first =
        rw (count, take-take (free_entries bsr) k obj)
          (take_own_length (min (free_entries bsr) k) obj) in
      let le : total pkt_len first ≤ bsr.capacity - bsr.bytes_used = omega (
        arith,
        (num_to_add_lem api pkt_len bsr obj v h s).0,
        total-take-le pkt_len (free_entries bsr) (take k obj),
      ) in
      let start : Burst api.Ring = after_first bsr obj ring in
      let rest : List ℕ = drop k obj in
      let free : ℕ = free_entries bsr - length first in
      let fills =
        fill_gaps_lem api pkt_len free start rest
          (omega (
            arith,
            ap length items,
            length-append (queue api pkt_len bsr) first,
            space,
            api.items_fit bsr.ring,
            length-take (free_entries bsr) (take k obj),
          ))
          (omega (arith, le, v.limit))
          (omega (
            arith,
            length-take (free_entries bsr) (take k obj),
            length-take k obj,
            length-drop k obj,
          ))
          (AllSmall-drop pkt_len k obj s) in
      let whole : length obj ≤ length first → rest ≡ [] = λ all.
        drop_past k obj
          (omega (arith, all, length-take (free_entries bsr) (take k obj), length-take k obj)) in
      subst
        (λ b. Bursts bsr obj (
          finish_burst api bsr
            (if ltb b.num_added (length obj) then fill_gaps api pkt_len b rest else b)))
        (sym (
          start_burst-after_first bsr obj (api.sp_enqueue_burst bsr.ring (take k obj)).0 ring v
            count own le))
        (finish_burst-Bursts bsr obj ring
          (if ltb (length first) (length obj) then fill_gaps api pkt_len start rest else start) v le
          items (second_loop free (length obj) start rest whole fills))

  -- A burst of fewer than 2 ^ 31 buffers, each of fewer than 2 ^ 31 bytes, on a ring of a capacity
  -- below 2 ^ 31 whose byte count is exact and within it. The burst reads no buffer behind the end of
  -- the array. The first loop passes on a prefix of the batch whose bytes fit under the capacity: the
  -- whole batch, or one that fills the ring to the byte, or the longest that fits. Of the prefix as
  -- many buffers join the ring as it has free entries, and they are counted. Of the buffers behind
  -- the prefix, those of at most as many bytes as are then left, if 60 or more are, join the ring
  -- too while it has free entries, and neither the result nor the byte count counts them; only when
  -- there are more of them than free entries, others are counted that have not joined. The byte
  -- count ends within the capacity.
  pub bsring_enqueue_burst_lem :
      (bsr : BsRing api) (obj : List ℕ)
      → IsAccounted api pkt_len bsr
      → length obj < 2 ^ 31
      → AllSmall pkt_len obj
      → let k = num_to_add api pkt_len bsr obj in
        let unused : ℕ = bsr.capacity - bsr.bytes_used in
        ((total pkt_len (take k obj) ≤ unused)
          × ((k ≡ length obj)
              ⊎ (total pkt_len (take k obj) ≡ unused)
              ⊎ (unused < total pkt_len (take (suc k) obj))))
        × (out : ℕ × BsRing api) × (bsring_enqueue_burst api pkt_len bsr obj ≡ some out)
        × Bursts bsr obj out
  unfolding bsring_enqueue_burst
  bsring_enqueue_burst_lem bsr obj v h s =
      let out = from_first api pkt_len bsr obj (num_to_add api pkt_len bsr obj) in
      (
        num_to_add_lem api pkt_len bsr obj v h s,
        out,
        ground (arith, num_to_add-le api pkt_len bsr obj v h s),
        enqueue_burst-Bursts bsr obj v h s,
      )

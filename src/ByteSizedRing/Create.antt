-- ===== src/ByteSizedRing/Create.antt =====
-- The size of the ring that `create_bsring` asks for.
use libmoon.Prelude.{
  ℕ, zero, suc, ◌+◌, ◌/◌, ◌^◌, ◌≤◌, ◌<◌, ◌≡◌, refl, true, inl, inr, Bool-cases, leb, le→leb, some,
  [], arith, ltb, ltb→lt, ltb→le, add32, Option-cases,
}
use native.Mathlib.Nat.{pow-suc, pow-le-pow_right}
use native.Mathlib.Decide.{dec_lt}
use libmoon.RteRing.{RteRing, mbuf_bs_ring}
use libmoon.PktSizedRing.Create.{IsTight}
use libmoon.ByteSizedRing.{size_limit, grow, BsRing, wrap, create_bsring, bsring_enqueue}

pow-le-27 : (k : ℕ) → k ≤ 27 → 2 ^ k ≤ 2 ^ 27
pow-le-27 k h = pow-le-pow_right {n = 2} (omega arith) h

lt_of_pow : (k : ℕ) → 2 ^ k < 2 ^ 27 → k < 27
lt_of_pow k h = elim (dec_lt k 27) [
  | yes lt ↦ lt
  | no ge ↦
      absurd (omega (arith, pow-le-pow_right {n = 2} (omega arith) {i = 27} {j = k} (omega arith)))
]

-- From 2 ^ k, with rounds enough to reach 2 ^ 27, the loop ends at a power of two that is no smaller
-- than `count_min`, and no larger than needed.
grow-pow :
    (fuel k count_min : ℕ)
    → k + fuel ≡ 30
    → count_min ≤ 2 ^ 27
    → k ≤ 27
    → IsTight count_min k
    → (j : ℕ) × (grow fuel count_min (2 ^ k) ≡ some (2 ^ j))
      × (j ≤ 27)
      × (count_min ≤ 2 ^ j)
      × IsTight count_min j
unfolding grow
grow-pow zero k count_min e h small p = absurd (omega arith)
grow-pow (suc fuel) k count_min e h small p = elim (Bool-cases (ltb (2 ^ k) count_min)) [
  | inl more ↦
      let within : leb (2 ^ k) size_limit ≡ true = le→leb _ _ (omega (arith, pow-le-27 k small)) in
      rw (more, within, ← pow-suc 2 k)
        (grow-pow fuel (suc k) count_min (omega arith) h
          (lt_of_pow k (omega (arith, ltb→lt _ _ more)))
          (inl (omega (arith, pow-suc 2 k, ltb→lt _ _ more))))
  | inr done ↦ rw done (k, refl, small, ltb→le _ _ done, p)
]

module _ (api : RteRing) where
  -- `create_bsring` terminates for every uint32_t capacity: it asks for a ring of 2 ^ j entries, the
  -- first power of two that is no smaller than capacity / 60, and j is at most 27; a ring that is
  -- there is empty, keeps the capacity, counts no byte and has 2 ^ j - 1 usable entries.
  pub create_bsring_lem :
      (ring_cnt capacity : ℕ)
      → capacity < 2 ^ 32
      → (j : ℕ) × (create_bsring api ring_cnt capacity
          ≡ some (wrap api capacity (api.create (mbuf_bs_ring ring_cnt) (2 ^ j)), add32 ring_cnt 1))
        × (j ≤ 27)
        × (capacity / 60 ≤ 2 ^ j)
        × IsTight (capacity / 60) j
        × ((ring : api.Ring)
            → api.create (mbuf_bs_ring ring_cnt) (2 ^ j) ≡ some ring
            → (api.items ring ≡ []) × (api.space ring + 1 ≡ 2 ^ j))
  unfolding create_bsring
  create_bsring_lem ring_cnt capacity h =
      let (j, runs, small, enough, tight) =
        grow-pow 30 0 (capacity / 60) (omega arith) (omega arith) (omega arith) (inr refl) in
      (
        j,
        rw runs refl,
        small,
        enough,
        tight,
        λ ring made. api.create_empty (mbuf_bs_ring ring_cnt) j (omega arith) ring made,
      )

  small_create :
      (ring_cnt capacity : ℕ)
      → capacity < 120
      → create_bsring api ring_cnt capacity
        ≡ some (wrap api capacity (api.create (mbuf_bs_ring ring_cnt) 1), add32 ring_cnt 1)
  unfolding create_bsring grow
  small_create ring_cnt capacity h = ground arith

  full_from_start :
      (pkt_len : ℕ → ℕ) (ring_cnt obj : ℕ) (bsr : BsRing api)
      → api.create (mbuf_bs_ring ring_cnt) 1 ≡ some bsr.ring
      → (bsring_enqueue api pkt_len bsr obj).0 ≡ 0
  unfolding bsring_enqueue
  full_from_start pkt_len ring_cnt obj bsr e =
      let (empty, space) = api.create_empty (mbuf_bs_ring ring_cnt) 0 (omega arith) bsr.ring e in
      ground (arith, api.enqueue_full bsr.ring obj (omega arith))

  -- A capacity below 120 bytes asks for a ring of one entry, of which none is usable: a new ring of
  -- that capacity refuses any buffer, however small.
  create_bsring_unusable :
      (ring_cnt capacity : ℕ) {bsr : BsRing api} {next : ℕ}
      → capacity < 120
      → create_bsring api ring_cnt capacity ≡ some (some bsr, next)
      → (pkt_len : ℕ → ℕ) (obj : ℕ) → (bsring_enqueue api pkt_len bsr obj).0 ≡ 0
  create_bsring_unusable ring_cnt capacity {bsr} {next} h made pkt_len obj =
      elim (Option-cases (api.create (mbuf_bs_ring ring_cnt) 1)) [
        | inl none_made ↦ ground (arith, small_create ring_cnt capacity h)
        | inr (ring, e) ↦
            full_from_start pkt_len ring_cnt obj bsr
              (ground (arith, small_create ring_cnt capacity h))
      ]

-- ===== src/PktSizedRing/Create.antt =====
-- The size of the ring that `create_psring` asks for.
use libmoon.Prelude.{
  ℕ, zero, suc, ◌+◌, ◌*◌, ◌%◌, ◌^◌, ◌≤◌, ◌<◌, ◌≡◌, refl, ◌⊎◌, inl, inr, Bool-cases, some, [], arith,
  ltb, ltb→lt, ltb→le, add32, ap,
}
use native.Mathlib.Nat.{pow-suc, pow-le-pow_right}
use native.Mathlib.Decide.{dec_le}
use libmoon.RteRing.{RteRing, mbuf_ps_ring}
use libmoon.PktSizedRing.{size_limit, clamp_capacity, round_up, wrap, create_psring}

pow-le-28 : (k : ℕ) → k ≤ 28 → 2 ^ k ≤ 2 ^ 28
pow-le-28 k h = pow-le-pow_right {n = 2} (omega arith) h

double_pow : (k : ℕ) → k ≤ 28 → 2 ^ k * 2 % 2 ^ 32 ≡ 2 ^ suc k
double_pow k h = omega (arith, pow-suc 2 k, pow-le-28 k h)

-- No smaller power of two holds the capacity.
abbrev pub IsTight : ℕ → ℕ → Type 0
IsTight capacity k = (2 ^ k < 2 * capacity) ⊎ (k ≡ 0)

-- From 2 ^ k, with rounds enough to reach 2 ^ 28, the loop ends at the least power of two that is
-- no smaller than the capacity.
round_up-pow :
    (fuel k capacity : ℕ)
    → k + fuel ≡ 29
    → capacity ≤ 2 ^ 28
    → IsTight capacity k
    → (j : ℕ) × (round_up fuel capacity (2 ^ k) ≡ some (2 ^ j))
      × (j ≤ 28)
      × (capacity ≤ 2 ^ j)
      × IsTight capacity j
unfolding round_up
round_up-pow zero k capacity e h p =
    let last : k ≡ 29 = omega arith in absurd (omega (arith, ap (λ (n : ℕ). 2 ^ n) last))
round_up-pow (suc fuel) k capacity e h p =
    let small : k ≤ 28 = omega arith in
    elim (Bool-cases (ltb (2 ^ k) capacity)) [
      | inl more ↦
          rw (more, double_pow k small)
            (round_up-pow fuel (suc k) capacity (omega arith) h
              (inl (omega (arith, pow-suc 2 k, ltb→lt _ _ more))))
      | inr done ↦ rw done (k, refl, small, ltb→le _ _ done, p)
    ]

least_pow : (capacity j i : ℕ) → IsTight capacity j → capacity ≤ 2 ^ i → 2 ^ j ≤ 2 ^ i
least_pow capacity j i t h = elim (dec_le j i) [
  | yes le ↦ pow-le-pow_right {n = 2} (omega arith) le
  | no gt ↦ absurd (
      omega (
        arith,
        pow-suc 2 i,
        pow-le-pow_right {n = 2} (omega arith) {i = suc i} {j = j} (omega arith),
      ))
]

pub clamp_capacity-le : (capacity : ℕ) → clamp_capacity capacity ≤ size_limit
clamp_capacity-le capacity = ground arith

module _ (api : RteRing) where
  -- `create_psring` terminates for every capacity: it asks for a ring of 2 ^ j entries, the least
  -- power of two that is no smaller than the clamped capacity, j is at most 28, and when the ring is
  -- there it is empty, has 2 ^ j - 1 usable entries and keeps the clamped capacity.
  create_psring_lem :
      (ring_cnt capacity : ℕ)
      → (j : ℕ) × (create_psring api ring_cnt capacity
          ≡ some (
            wrap api (clamp_capacity capacity) (api.create (mbuf_ps_ring ring_cnt) (2 ^ j)),
            add32 ring_cnt 1,
          ))
        × (j ≤ 28)
        × (clamp_capacity capacity ≤ 2 ^ j)
        × ((i : ℕ) → clamp_capacity capacity ≤ 2 ^ i → 2 ^ j ≤ 2 ^ i)
        × ((ring : api.Ring)
            → api.create (mbuf_ps_ring ring_cnt) (2 ^ j) ≡ some ring
            → (api.items ring ≡ []) × (api.space ring + 1 ≡ 2 ^ j))
  unfolding create_psring
  create_psring_lem ring_cnt capacity =
      let (j, runs, small, enough, tight) =
        round_up-pow 29 0 (clamp_capacity capacity) (omega arith)
          (omega (arith, clamp_capacity-le capacity)) (inr refl) in
      (
        j,
        rw runs refl,
        small,
        enough,
        λ i h. least_pow (clamp_capacity capacity) j i tight h,
        λ ring made. api.create_empty (mbuf_ps_ring ring_cnt) j (omega arith) ring made,
      )

-- ===== src/Timestamping/Clocks.antt =====
-- What a round measures, and that the median puts up with rounds that were disturbed.
use libmoon.Prelude.{
  ℕ, zero, ◌+◌, ◌-◌, ◌/◌, ◌%◌, ◌^◌, ◌<◌, ◌≤◌, ◌≡◌, ◌≢◌, refl, ap, ◌∙◌, false, List, [], ◌∷◌, length,
  arith, ◌==◌, if◌then◌else◌, get_or, Bool-cases, inl, inr, suc,
}
use native.Mathlib.Decide.{dec_lt}
use libmoon.Timestamping.{
  Registers, Order, greater, rank, cmp, distance, offset_of, measure_once, measure, reset, adjust,
  libmoon_sync_clocks,
}

-- Two clocks that show `t + a` and `t + b` at the time `t`, read at the times t0 to t3: when the
-- second and the fourth read take the same time, and no counter overflows, the offset that a round
-- of `libmoon_sync_clocks` computes is a - b, as a 32-bit number.
offset_of_lem :
    (a b t0 t1 t2 t3 : ℕ)
    → t0 ≤ t1
    → t1 ≤ t2
    → t2 ≤ t3
    → t1 - t0 ≡ t3 - t2
    → t3 + a < 2 ^ 32
    → t3 + b < 2 ^ 32
    → offset_of (t0 + a) (t1 + b) (t2 + b) (t3 + a) ≡ (a + 2 ^ 32 - b) % 2 ^ 32
offset_of_lem a b t0 t1 t2 t3 h1 h2 h3 even fit fit' =
    let half : distance ((t0 + a) + (t2 + b)) ((t1 + b) + (t3 + a)) / 2 ≡ t1 - t0 = ground arith in
    rw half (omega arith)

abbrev pub hit : ℕ → ℕ → ℕ
hit v x = if x == v then 1 else 0

abbrev pub count : ℕ → List ℕ → ℕ
count v [] = 0
count v (x ∷ xs) = hit v x + count v xs

-- No neighbours in the wrong order.
abbrev pub IsOrdered : List ℕ → Type 0
IsOrdered [] = Unit
IsOrdered (x ∷ []) = Unit
IsOrdered (x ∷ y ∷ xs) = (cmp x y ≢ greater) × IsOrdered (y ∷ xs)

-- What `qsort` does with this comparison.
pub record Sorts (qsort : (ℕ → ℕ → Order) → List ℕ → List ℕ) : Type 0 where
  pub sorted : (xs : List ℕ) → IsOrdered (qsort cmp xs)
  pub same_counts : (v : ℕ) (xs : List ℕ) → count v (qsort cmp xs) ≡ count v xs
  pub same_length : (xs : List ℕ) → length (qsort cmp xs) ≡ length xs

in_order : (x y : ℕ) → cmp x y ≢ greater → rank x ≤ rank y
in_order x y h = ground arith

hit_le : (v x : ℕ) → hit v x ≤ 1
hit_le v x = ground arith

rank_inj : (v x : ℕ) → v < 2 ^ 32 → x < 2 ^ 32 → rank x ≡ rank v → x ≡ v
rank_inj v x h k e = omega arith

module _ (place : ℕ → ℕ) (v : ℕ) where
  miss : (x : ℕ) → place x ≢ place v → hit v x ≡ 0
  miss x h = ground (arith, λ (e : x ≡ v). h (ap place e))

  -- Of seven numbers in order, four of which are `v`, the middle one is in the place of `v`.
  median :
      (a b c d e f g : ℕ)
      → place a ≤ place b
      → place b ≤ place c
      → place c ≤ place d
      → place d ≤ place e
      → place e ≤ place f
      → place f ≤ place g
      → 4 ≤ count v (a ∷ b ∷ c ∷ d ∷ e ∷ f ∷ g ∷ [])
      → place d ≡ place v
  median a b c d e f g ab bc cd de ef fg often = elim (dec_lt (place d) (place v)) [
    | yes low ↦ absurd (
        omega (
          arith,
          miss a (omega arith),
          miss b (omega arith),
          miss c (omega arith),
          miss d (omega arith),
          hit_le v e,
          hit_le v f,
          hit_le v g,
        ))
    | no high ↦ elim (dec_lt (place v) (place d)) [
      | yes high ↦ absurd (
          omega (
            arith,
            miss d (omega arith),
            miss e (omega arith),
            miss f (omega arith),
            miss g (omega arith),
            hit_le v a,
            hit_le v b,
            hit_le v c,
          ))
      | no low ↦ omega arith
    ]
  ]

-- The same of a list.
middle :
    (v : ℕ) (xs : List ℕ)
    → length xs ≡ 7
    → IsOrdered xs
    → 4 ≤ count v xs
    → rank (get_or xs 3 0) ≡ rank v
middle v (a ∷ b ∷ c ∷ d ∷ e ∷ f ∷ g ∷ []) l o often =
    let (ab, (bc, (cd, (de, (ef, (fg, u)))))) = o in
    median rank v a b c d e f g (in_order a b ab) (in_order b c bc) (in_order c d cd)
      (in_order d e de) (in_order e f ef) (in_order f g fg) often
middle v [] l o often = absurd (omega arith)
middle v (a ∷ []) l o often = absurd (omega arith)
middle v (a ∷ b ∷ []) l o often = absurd (omega arith)
middle v (a ∷ b ∷ c ∷ []) l o often = absurd (omega arith)
middle v (a ∷ b ∷ c ∷ d ∷ []) l o often = absurd (omega arith)
middle v (a ∷ b ∷ c ∷ d ∷ e ∷ []) l o often = absurd (omega arith)
middle v (a ∷ b ∷ c ∷ d ∷ e ∷ f ∷ []) l o often = absurd (omega arith)
middle v (a ∷ b ∷ c ∷ d ∷ e ∷ f ∷ g ∷ h ∷ xs) l o often = absurd (omega arith)

-- All are 32-bit numbers.
abbrev AllWords : List ℕ → Type 0
AllWords [] = Unit
AllWords (x ∷ xs) = (x < 2 ^ 32) × AllWords xs

count-get_or : (xs : List ℕ) (i : ℕ) → i < length xs → 0 < count (get_or xs i 0) xs
count-get_or [] i h = absurd (omega arith)
count-get_or (x ∷ xs) zero h = ground arith
count-get_or (x ∷ xs) (suc i) h = omega (arith, count-get_or xs i (omega arith))

count-AllWords : (v : ℕ) (xs : List ℕ) → AllWords xs → 0 < count v xs → v < 2 ^ 32
count-AllWords v [] h some_hit = absurd (omega arith)
count-AllWords v (x ∷ xs) (h, hs) some_hit = elim (Bool-cases (x == v)) [
  | inl same ↦ ground arith
  | inr other ↦ count-AllWords v xs hs (ground arith)
]

module _ (api : Registers) where
  length-measure :
      (runs port1 port2 timl : ℕ) (s : api.Cards)
      → length (measure api runs port1 port2 timl s).0 ≡ runs
  unfolding measure
  length-measure zero port1 port2 timl s = refl
  length-measure (suc runs) port1 port2 timl s =
      ap suc (length-measure runs port1 port2 timl (measure_once api port1 port2 timl s).1)

  measure-AllWords :
      (runs port1 port2 timl : ℕ) (s : api.Cards) → AllWords (measure api runs port1 port2 timl s).0
  unfolding measure
  measure-AllWords zero port1 port2 timl s = tt
  measure-AllWords (suc runs) port1 port2 timl s =
      (omega arith, measure-AllWords runs port1 port2 timl (measure_once api port1 port2 timl s).1)

  module _ (qsort : (ℕ → ℕ → Order) → List ℕ → List ℕ) (sorts : Sorts qsort) where
    chosen :
        (v : ℕ) (offsets : List ℕ)
        → length offsets ≡ 7
        → AllWords offsets
        → 4 ≤ count v offsets
        → get_or (qsort cmp offsets) 3 0 ≡ v
    chosen v offsets seven words often =
        let ordered : List ℕ = qsort cmp offsets in
        let d : ℕ = get_or ordered 3 0 in
        let v_hit : 0 < count v offsets = omega arith in
        let d_hit : 0 < count d offsets = omega (
          arith,
          sorts.same_counts d offsets,
          sorts.same_length offsets,
          count-get_or ordered 3 (omega (arith, sorts.same_length offsets)),
        ) in
        rank_inj v d (count-AllWords v offsets words v_hit) (count-AllWords d offsets words d_hit) (
          middle v ordered (sorts.same_length offsets ∙ seven) (sorts.sorted offsets)
            (omega (arith, sorts.same_counts v offsets)))

    -- `libmoon_sync_clocks` only resets the timers when both ports are one. Of two ports, when at least
    -- four of the seven rounds measure the same offset, it is by this offset that the clock of the
    -- second port is adjusted, whatever the other three rounds say.
    pub libmoon_sync_clocks_lem :
        (port1 port2 timl timh adjl adjh v : ℕ) (s : api.Cards)
        → let s1 = reset api port1 port2 timl timh s in
          let s2 = api.write_reg32 port2 timl 0 (api.write_reg32 port1 timl 0 s1) in
          let (offsets, s3) = measure api 7 port1 port2 timl s2 in
          let end = libmoon_sync_clocks api qsort port1 port2 timl timh adjl adjh s in
          (port1 ≡ port2 → end ≡ s1)
          × (port1 ≢ port2 → 4 ≤ count v offsets → end ≡ adjust api port2 adjl adjh v s3)
    unfolding libmoon_sync_clocks
    libmoon_sync_clocks_lem port1 port2 timl timh adjl adjh v s = (
      λ same. ground arith,
      λ two often.
          let s2 =
            api.write_reg32 port2 timl 0
              (api.write_reg32 port1 timl 0 (reset api port1 port2 timl timh s)) in
          let (offsets, s3) = measure api 7 port1 port2 timl s2 in
          let differ : port1 == port2 ≡ false = ground arith in
          rw differ (
            ap (λ offs. adjust api port2 adjl adjh offs s3)
              (chosen v offsets (length-measure 7 port1 port2 timl s2)
                (measure-AllWords 7 port1 port2 timl s2) often)),
    )

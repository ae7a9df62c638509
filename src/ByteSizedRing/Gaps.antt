-- ===== src/ByteSizedRing/Gaps.antt =====
-- The second loop of `bsring_enqueue_burst`, on any buffers.
use libmoon.Prelude.{
  ℕ, zero, suc, ◌+◌, ◌-◌, ◌^◌, ◌≤◌, ◌<◌, ◌≡◌, refl, ap, ◌∙◌, true, false, List, [], ◌∷◌, ◌++◌,
  arith, length, take, sub32, add32, append-nil, append_assoc, length-append, take-nil, ltb, leb,
  if◌then◌else◌, ◌==◌, ◌&&◌,
}
use native.Mathlib.Decide.{dec_le, dec_lt}
use libmoon.RteRing.{RteRing}
use libmoon.ByteSizedRing.{Burst, try_one, fits_in, fill_gaps}
use libmoon.ByteSizedRing.Sizes.{total, AllSmall}

module _ (pkt_len : ℕ → ℕ) where
  -- The buffers of at most `r` bytes.
  abbrev pub at_most : ℕ → List ℕ → List ℕ
  at_most r [] = []
  at_most r (x ∷ xs) = if leb (pkt_len x) r then x ∷ at_most r xs else at_most r xs

  -- Those that the loop finds fit, with `r` bytes free: none if there are fewer than 60.
  abbrev pub fitting : ℕ → List ℕ → List ℕ
  fitting r xs = if ltb r 60 then [] else at_most r xs

module _ (api : RteRing) (pkt_len : ℕ → ℕ) where
  -- What the loop has done, with `free` free entries: the first `free` of the fitting buffers are in
  -- the ring, uncounted; the `lost` ones are counted and not in the ring.
  pub record Filled (free : ℕ) (b : Burst api.Ring) (xs : List ℕ) (out : Burst api.Ring)
      : Type 0 where
    pub joined :
        api.items out.ring ≡ api.items b.ring ++ take free (fitting pkt_len b.bytes_remaining xs)
    pub lost : List ℕ
    pub counted : out.num_added ≡ b.num_added + length lost
    pub bytes : out.bytes_added ≡ b.bytes_added + total pkt_len lost
    pub within : total pkt_len lost ≤ b.bytes_remaining
    pub no_more : length lost ≤ length xs
    pub none_lost : length (fitting pkt_len b.bytes_remaining xs) ≤ free → lost ≡ []

  -- Nothing is tried with fewer than 60 bytes left.
  Filled-stop :
      (free : ℕ) (b : Burst api.Ring) (xs : List ℕ) → b.bytes_remaining < 60 → Filled free b xs b
  Filled-stop free b xs h = record {
    joined = ground (arith, append-nil (api.items b.ring), take-nil {A = ℕ} free);
    lost = [];
    counted = omega arith;
    bytes = omega arith;
    within = omega arith;
    no_more = omega arith;
    none_lost = λ h. refl;
  }

  pub Filled-empty : (free : ℕ) (b : Burst api.Ring) → Filled free b [] b
  Filled-empty free b = record {
    joined = ground (arith, append-nil (api.items b.ring), take-nil {A = ℕ} free);
    lost = [];
    counted = omega arith;
    bytes = omega arith;
    within = omega arith;
    no_more = omega arith;
    none_lost = λ h. refl;
  }

  -- A buffer that is too large is passed over.
  Filled-skip :
      (free : ℕ) (b : Burst api.Ring) (x : ℕ) (xs : List ℕ) (out : Burst api.Ring)
      → b.bytes_remaining < pkt_len x
      → Filled free b xs out
      → Filled free b (x ∷ xs) out
  Filled-skip free b x xs out large f = ground arith

  -- A buffer that fits takes a free entry, and is not counted.
  Filled-join :
      (free : ℕ) (b : Burst api.Ring) (ring : api.Ring) (x : ℕ) (xs : List ℕ) (out : Burst api.Ring)
      → pkt_len x ≤ b.bytes_remaining
      → 60 ≤ b.bytes_remaining
      → api.items ring ≡ api.items b.ring ++ (x ∷ [])
      → Filled free (record b { ring = ring }) xs out
      → Filled (suc free) b (x ∷ xs) out
  Filled-join free b ring x xs out fits enough e f = record {
    joined =
        f.joined
        ∙ ground (
          arith,
          append_assoc (api.items b.ring) (x ∷ [])
              (take free (at_most pkt_len b.bytes_remaining xs)),
        );
    lost = f.lost;
    counted = f.counted;
    bytes = f.bytes;
    within = f.within;
    no_more = omega (arith, f.no_more);
    none_lost = λ h. f.none_lost (ground arith);
  }

  -- A buffer that fits in bytes and finds no free entry is counted, and lost.
  Filled-lose :
      (b b' : Burst api.Ring) (x : ℕ) (xs : List ℕ) (out : Burst api.Ring)
      → pkt_len x ≤ b.bytes_remaining
      → 60 ≤ b.bytes_remaining
      → b'.ring ≡ b.ring
      → b'.num_added ≡ b.num_added + 1
      → b'.bytes_added ≡ b.bytes_added + pkt_len x
      → b'.bytes_remaining ≡ b.bytes_remaining - pkt_len x
      → Filled 0 b' xs out
      → Filled 0 b (x ∷ xs) out
  Filled-lose b b' x xs out fits enough same num bytes left f = record {
    joined = f.joined ∙ ap (λ r. api.items r ++ []) same;
    lost = x ∷ f.lost;
    counted = omega (arith, f.counted);
    bytes = omega (arith, f.bytes);
    within = omega (arith, f.within);
    no_more = omega (arith, f.no_more);
    none_lost = λ h. absurd (ground arith);
  }

  abbrev Fills : List ℕ → Type 0
  Fills xs =
      (free : ℕ) (b : Burst api.Ring)
      → length (api.items b.ring) + free ≡ api.space b.ring
      → b.bytes_added + b.bytes_remaining < 2 ^ 31
      → b.num_added + length xs < 2 ^ 32
      → Filled free b xs (fill_gaps api pkt_len b xs)

  try_one-Filled :
      (free : ℕ) (b : Burst api.Ring) (x : ℕ) (xs : List ℕ)
      → length (api.items b.ring) + free ≡ api.space b.ring
      → b.bytes_added + b.bytes_remaining < 2 ^ 31
      → b.num_added + suc (length xs) < 2 ^ 32
      → pkt_len x ≤ b.bytes_remaining
      → 60 ≤ b.bytes_remaining
      → Fills xs
      → Filled free b
          (x ∷ xs)
          (fill_gaps api pkt_len (try_one api pkt_len b x (api.sp_enqueue b.ring x)) xs)
  try_one-Filled zero b x xs e h n fits enough fills =
      let (rc, same) = api.enqueue_full b.ring x (omega arith) in
      let failed : ((api.sp_enqueue b.ring x).0 == 0) ≡ false = ground arith in
      rw (failed, same)
        (Filled-lose b
          (record {
            ring = b.ring;
            num_added = add32 b.num_added 1;
            bytes_added = add32 b.bytes_added (pkt_len x);
            bytes_remaining = sub32 b.bytes_remaining (pkt_len x);
          })
          x xs _ fits enough refl (omega arith) (omega arith) (omega arith)
          (fills 0 _ e (omega arith) (omega arith)))
  try_one-Filled (suc free) b x xs e h n fits enough fills =
      let (rc, items, space) = api.enqueue_fits b.ring x (omega arith) in
      rw rc (
        Filled-join free b (api.sp_enqueue b.ring x).1 x xs _ fits enough items (
          fills free (record b { ring = (api.sp_enqueue b.ring x).1 })
            (omega (arith, ap length items, space, length-append (api.items b.ring) (x ∷ []))) h
            (omega arith)))

  pub fill_gaps_lem :
      (free : ℕ) (b : Burst api.Ring) (xs : List ℕ)
      → length (api.items b.ring) + free ≡ api.space b.ring
      → b.bytes_added + b.bytes_remaining < 2 ^ 31
      → b.num_added + length xs < 2 ^ 32
      → AllSmall pkt_len xs
      → Filled free b xs (fill_gaps api pkt_len b xs)
  unfolding fill_gaps
  fill_gaps_lem free b [] e h n s = Filled-empty free b
  fill_gaps_lem free b (x ∷ xs) e h n s = elim (dec_lt b.bytes_remaining 60) [
    | yes low ↦
        let stops : (leb 60 b.bytes_remaining && ltb b.bytes_remaining (2 ^ 31)) ≡ false =
          ground arith in
        rw stops (Filled-stop free b (x ∷ xs) low)
    | no enough ↦
        let goes_on : (leb 60 b.bytes_remaining && ltb b.bytes_remaining (2 ^ 31)) ≡ true =
          ground arith in
        rw goes_on (elim (dec_le (pkt_len x) b.bytes_remaining) [
          | no large ↦
              let skips : fits_in api pkt_len b x ≡ false = ground arith in
              rw skips (
                Filled-skip free b x xs _ (omega arith)
                  (fill_gaps_lem free b xs e h (omega arith) s.1))
          | yes fits ↦
              let tries : fits_in api pkt_len b x ≡ true = ground arith in
              rw tries (
                try_one-Filled free b x xs e h n fits (omega arith)
                  (λ free b e h n. fill_gaps_lem free b xs e h n s.1))
        ])
  ]

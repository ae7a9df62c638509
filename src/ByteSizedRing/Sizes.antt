-- ===== src/ByteSizedRing/Sizes.antt =====
-- The sums of packet lengths that the byte-sized ring keeps in uint32_t.
use libmoon.Prelude.{
  ℕ, zero, suc, ◌+◌, ◌-◌, ◌^◌, ◌≤◌, ◌<◌, ◌≡◌, refl, true, false, ◌⊎◌, List, [], ◌∷◌, ◌++◌, arith,
  length, take, drop, add32, sub32, take-append-drop, ap, sym, ◌∙◌, if◌then◌else◌,
}
use native.Mathlib.Decide.{dec_le}
use libmoon.ByteSizedRing.{add_sizes, sub_sizes, count_fitting, is_negative, is_positive}

sub32_lem : (a b : ℕ) → a < 2 ^ 31 → b ≤ a → sub32 a b ≡ a - b
sub32_lem a b h le = omega arith

module _ (pkt_len : ℕ → ℕ) where
  -- The bytes of a list of buffers, without wrap.
  abbrev pub total : List ℕ → ℕ
  total [] = 0
  total (x ∷ xs) = pkt_len x + total xs

  pub total-append : (xs ys : List ℕ) → total (xs ++ ys) ≡ total xs + total ys
  total-append [] ys = omega arith
  total-append (x ∷ xs) ys = omega (arith, total-append xs ys)

  pub total-take-drop : (n : ℕ) (xs : List ℕ) → total (take n xs) + total (drop n xs) ≡ total xs
  total-take-drop n xs =
      sym (total-append (take n xs) (drop n xs)) ∙ ap total (take-append-drop n xs)

  pub add_sizes-eq :
      (t : ℕ) (xs : List ℕ) → t + total xs < 2 ^ 32 → add_sizes pkt_len t xs ≡ t + total xs
  add_sizes-eq t [] h = omega arith
  add_sizes-eq t (x ∷ xs) h = omega (arith, add_sizes-eq (add32 t (pkt_len x)) xs (omega arith))

  pub sub_sizes-eq :
      (t : ℕ) (xs : List ℕ) → t < 2 ^ 32 → total xs ≤ t → sub_sizes pkt_len t xs ≡ t - total xs
  sub_sizes-eq t [] b h = omega arith
  sub_sizes-eq t (x ∷ xs) b h =
      omega (arith, sub_sizes-eq (sub32 t (pkt_len x)) xs (omega arith) (omega arith))

  abbrev pub AllSmall : List ℕ → Type 0
  AllSmall [] = Unit
  AllSmall (x ∷ xs) = (pkt_len x < 2 ^ 31) × AllSmall xs

  -- The number of buffers that the first loop of a burst passes on, from its result.
  abbrev pub passed_on : ℕ × ℕ → ℕ
  passed_on (bytes_remaining, rounds) =
      if is_negative bytes_remaining then sub32 rounds 1 else rounds

  -- The first loop of a burst, started with `r` bytes free, passes on a prefix of the batch that
  -- fits, and stops only at the batch's end, when no byte is left, or before a buffer too large.
  pub record Fitting (r : ℕ) (xs : List ℕ) (out : ℕ × ℕ) : Type 0 where
    pub rounds : out.1 ≤ length xs
    pub some_round : is_negative out.0 ≡ true → 0 < out.1
    pub fits : total (take (passed_on out) xs) ≤ r
    pub maximal :
        (passed_on out ≡ length xs)
        ⊎ (total (take (passed_on out) xs) ≡ r)
        ⊎ (r < total (take (suc (passed_on out)) xs))

  -- The loop stops at once when no byte is left or the count is negative.
  count_fitting-stop :
      (w : ℕ) (xs : List ℕ) → is_positive w ≡ false → count_fitting pkt_len w xs ≡ (w, 0)
  unfolding count_fitting
  count_fitting-stop w [] h = refl
  count_fitting-stop w (x ∷ xs) h = rw h

  Fitting-zero : (xs : List ℕ) → Fitting 0 xs (0, 0)
  Fitting-zero xs = ground arith

  -- A round whose buffer does not fit is the last, and is taken back.
  Fitting-last :
      (r x : ℕ) (xs : List ℕ)
      → r < pkt_len x
      → pkt_len x < 2 ^ 31
      → Fitting r (x ∷ xs) (sub32 r (pkt_len x), 1)
  Fitting-last r x xs h s = ground arith

  -- A round whose buffer fits puts it in front of what the later rounds pass on.
  Fitting-round :
      (r x : ℕ) (xs : List ℕ) (out : ℕ × ℕ)
      → r < 2 ^ 31
      → pkt_len x ≤ r
      → length xs < 2 ^ 31
      → Fitting (r - pkt_len x) xs out
      → Fitting r (x ∷ xs) (out.0, suc out.1)
  Fitting-round r x xs out h le n f = ground arith

  pub count_fitting-Fitting :
      (r : ℕ) (xs : List ℕ)
      → r < 2 ^ 31
      → length xs < 2 ^ 31
      → AllSmall xs
      → Fitting r xs (count_fitting pkt_len r xs)
  unfolding count_fitting
  count_fitting-Fitting r [] h n s = ground arith
  count_fitting-Fitting zero (x ∷ xs) h n s = Fitting-zero (x ∷ xs)
  count_fitting-Fitting (suc r) (x ∷ xs) h n s =
      let positive : is_positive (suc r) ≡ true = ground arith in
      rw positive (elim (dec_le (pkt_len x) (suc r)) [
        | yes le ↦ rw (sub32_lem (suc r) (pkt_len x) h le) (
            Fitting-round (suc r) x xs (count_fitting pkt_len (suc r - pkt_len x) xs) h le
              (omega arith)
              (count_fitting-Fitting (suc r - pkt_len x) xs (omega arith) (omega arith) s.1))
        | no gt ↦
            rw (count_fitting-stop (sub32 (suc r) (pkt_len x)) xs (ground arith))
              (Fitting-last (suc r) x xs (omega arith) s.0)
      ])

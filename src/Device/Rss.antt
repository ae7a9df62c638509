-- ===== src/Device/Rss.antt =====
-- src/device.c: the key that spreads the packets of a card over its receive queues, so that the two
-- directions of a connection meet in one queue. The card computes the Toeplitz hash of the addresses
-- and ports with this key.
use mathlib.Core.Path.{subst}
use libmoon.Prelude.{
  ℕ, zero, suc, ◌+◌, ◌-◌, ◌*◌, ◌/◌, ◌%◌, ◌^◌, ◌≤◌, ◌<◌, ◌≡◌, refl, sym, ap, ◌∙◌, Bool, true, false,
  ◌&&◌, List, [], ◌∷◌, ◌++◌, arith, length, length-append, get_or, ◌==◌, ==_iff, Bool-cases, inl,
  inr, if◌then◌else◌,
}
use libmoon.Device.{symm_rss_hash_key}

-- Bit `i` of the key, the highest bit of the first byte first.
abbrev pub key_bit : ℕ → Bool
key_bit i = get_or symm_rss_hash_key (i / 8) 0 / 2 ^ (7 - i % 8) % 2 == 1

abbrev pub differ : Bool → Bool → Bool
differ true true = false
differ true false = true
differ false b = b

module _ (key : ℕ → Bool) where
  -- The part that the bits of the input have in a bit of the hash: each set bit adds the bit of the
  -- key at its position from `i` on.
  abbrev pub hash_from : ℕ → List Bool → Bool
  hash_from i [] = false
  hash_from i (b ∷ bs) = differ (b && key i) (hash_from (suc i) bs)

-- Bit `j` of the 32 bits of the Toeplitz hash.
abbrev pub toeplitz : List Bool → ℕ → Bool
toeplitz bits j = hash_from key_bit j bits

abbrev all_agree : ℕ → (ℕ → Bool) → Bool
all_agree zero key = true
all_agree (suc n) key =
    if key n
    then (if key (n + 16) then all_agree n key else false)
    else if key (n + 16)
    then false
    else all_agree n key

period : (n i : ℕ) (key : ℕ → Bool) → all_agree n key ≡ true → i < n → key (i + 16) ≡ key i
period zero i key h k = absurd (omega (arith, k))
period (suc n) i key h k = elim (Bool-cases (i == n)) [
  | inl last ↦ subst (λ m. key (m + 16) ≡ key m) (sym ((==_iff i n).0 last)) (agree_at n key h)
  | inr before ↦ period n i key (agree_before n key h) (ground arith)
]
  where
    agree_at : (n : ℕ) (key : ℕ → Bool) → all_agree (suc n) key ≡ true → key (n + 16) ≡ key n
    agree_at n key h = ground arith

    agree_before : (n : ℕ) (key : ℕ → Bool) → all_agree (suc n) key ≡ true → all_agree n key ≡ true
    agree_before n key h = ground arith

repeats : (i : ℕ) → i < 304 → key_bit (i + 16) ≡ key_bit i
repeats i h = period 304 i key_bit refl h

differ_comm : (a b : Bool) → differ a b ≡ differ b a
differ_comm true true = refl
differ_comm true false = refl
differ_comm false true = refl
differ_comm false false = refl

differ_assoc : (a b c : Bool) → differ (differ a b) c ≡ differ a (differ b c)
differ_assoc true true true = refl
differ_assoc true true false = refl
differ_assoc true false c = refl
differ_assoc false b c = refl

differ_swap : (a b c d : Bool) → differ a (differ b (differ c d)) ≡ differ b (differ a (differ d c))
differ_swap a b c d =
    sym (differ_assoc a b (differ c d))
    ∙ ap (λ r. differ r (differ c d)) (differ_comm a b)
    ∙ differ_assoc b a (differ c d)
    ∙ ap (λ r. differ b (differ a r)) (differ_comm c d)

module _ (key : ℕ → Bool) (repeats : (i : ℕ) → i < 304 → key (i + 16) ≡ key i) where
  shift_16 :
      (i : ℕ) (bs : List Bool)
      → i + 16 + length bs ≤ 320
      → hash_from key (i + 16) bs ≡ hash_from key i bs
  shift_16 i [] h = refl
  shift_16 i (b ∷ bs) h =
      ap (λ k. differ (b && k) (hash_from key (suc (i + 16)) bs)) (repeats i (omega (arith, h)))
      ∙ ap (λ m. differ (b && key i) (hash_from key m bs)) (omega arith)
      ∙ ap (differ (b && key i)) (shift_16 (suc i) bs (omega (arith, h)))

  shift :
      (n i : ℕ) (bs : List Bool)
      → i + 16 * n + length bs ≤ 320
      → hash_from key (i + 16 * n) bs ≡ hash_from key i bs
  shift zero i bs h = ap (λ m. hash_from key m bs) (omega arith)
  shift (suc n) i bs h =
      ap (λ m. hash_from key m bs) (omega arith)
      ∙ shift_16 (i + 16 * n) bs (omega (arith, h))
      ∙ shift n i bs (omega (arith, h))

  hash_from-append :
      (i : ℕ) (xs ys : List Bool)
      → hash_from key i (xs ++ ys) ≡ differ (hash_from key i xs) (hash_from key (i + length xs) ys)
  hash_from-append i [] ys = ap (λ m. hash_from key m ys) (omega arith)
  hash_from-append i (x ∷ xs) ys =
      ap (differ (x && key i)) (hash_from-append (suc i) xs ys)
      ∙ sym (
          differ_assoc (x && key i) (hash_from key (suc i) xs)
            (hash_from key (suc i + length xs) ys))
      ∙ ap (λ m. differ (hash_from key i (x ∷ xs)) (hash_from key m ys)) (omega arith)

  -- A first part of whole 16-bit words does not move what follows.
  hash_from-words :
      (n j : ℕ) (xs ys : List Bool)
      → length xs ≡ 16 * n
      → j + 16 * n + length ys ≤ 320
      → hash_from key j (xs ++ ys) ≡ differ (hash_from key j xs) (hash_from key j ys)
  hash_from-words n j xs ys h fits =
      hash_from-append j xs ys
      ∙ ap (λ m. differ (hash_from key j xs) (hash_from key (j + m) ys)) h
      ∙ ap (differ (hash_from key j xs)) (shift n j ys fits)

  tuple_lem :
      (j : ℕ) (s d p q : List Bool)
      → j < 32
      → length s ≡ 32
      → length d ≡ 32
      → length p ≡ 16
      → length q ≡ 16
      → hash_from key j (s ++ (d ++ (p ++ q)))
        ≡ differ
            (hash_from key j s)
            (differ (hash_from key j d) (differ (hash_from key j p) (hash_from key j q)))
  tuple_lem j s d p q hj hs hd hp hq =
      hash_from-words 2 j s (d ++ (p ++ q)) hs
        (omega (arith, hj, hd, hp, hq, length-append d (p ++ q), length-append p q))
      ∙ ap (differ (hash_from key j s)) (
          hash_from-words 2 j d (p ++ q) hd (omega (arith, hj, hp, hq, length-append p q))
          ∙ ap (differ (hash_from key j d)) (hash_from-words 1 j p q hp (omega (arith, hj, hq))))

-- The Toeplitz hash of two IPv4 addresses of 32 bits and two ports of 16 bits, with the symmetric key
-- of the code, is in each of its 32 bits the one with the two addresses and the two ports exchanged.
pub toeplitz_symmetric :
    (j : ℕ) (src dst src_port dst_port : List Bool)
    → j < 32
    → length src ≡ 32
    → length dst ≡ 32
    → length src_port ≡ 16
    → length dst_port ≡ 16
    → toeplitz (src ++ (dst ++ (src_port ++ dst_port))) j
      ≡ toeplitz (dst ++ (src ++ (dst_port ++ src_port))) j
toeplitz_symmetric j s d p q hj hs hd hp hq =
    tuple_lem key_bit repeats j s d p q hj hs hd hp hq
    ∙ differ_swap (hash_from key_bit j s) (hash_from key_bit j d) (hash_from key_bit j p)
        (hash_from key_bit j q)
    ∙ sym (tuple_lem key_bit repeats j d s q p hj hd hs hq hp)

-- ===== src/Checksum/OnesSum.antt =====
-- The ones' complement sum of RFC 1071, the specification of every checksum here, and the ways in
-- which the code reaches it.
use libmoon.Prelude.{
  ℕ, ◌+◌, ◌-◌, ◌%◌, ◌^◌, ◌<◌, ◌≡◌, ap, List, [], ◌∷◌, arith, ltb, if◌then◌else◌, ◌==◌, ◌∙◌,
}
use native.Mathlib.Nat.{add_assoc, zero-add}
use libmoon.Checksum.{fold_halves, add_word}

-- Addition of 16-bit words with end-around carry.
abbrev pub ones_add : ℕ → ℕ → ℕ
ones_add a b = if ltb 65535 (a + b) then (a + b) % 2 ^ 16 + 1 else a + b

unfoldable pub ones_sum_from : ℕ → List ℕ → ℕ
ones_sum_from acc [] = acc
ones_sum_from acc (w ∷ ws) = ones_sum_from (ones_add acc w) ws

unfoldable pub ones_sum : List ℕ → ℕ
unfolding ones_sum_from
ones_sum = ones_sum_from 0

abbrev pub plain_sum : List ℕ → ℕ
plain_sum [] = 0
plain_sum (w ∷ ws) = w + plain_sum ws

abbrev pub AllWords : List ℕ → Type 0
AllWords [] = Unit
AllWords (w ∷ ws) = (w < 2 ^ 16) × AllWords ws

-- The word that stands for a sum: its residue modulo 65535, in 1 to 65535, and 0 for 0.
abbrev pub word_of : ℕ → ℕ
word_of n = if n == 0 then 0 else (n - 1) % 65535 + 1

pub word_of-small : (n : ℕ) → n < 2 ^ 16 → word_of n ≡ n
word_of-small n h = ground arith

pub word_of-lt : (n : ℕ) → word_of n < 2 ^ 16
word_of-lt n = ground arith

-- Two sums of one residue stand for one word, unless one of them alone is 0.
pub word_of-eq : (a b : ℕ) → a % 65535 ≡ b % 65535 → 0 < a → 0 < b → word_of a ≡ word_of b
word_of-eq a b e pa pb = ground arith

ones_add-word_of : (a b : ℕ) → a < 2 ^ 16 → b < 2 ^ 16 → ones_add a b ≡ word_of (a + b)
ones_add-word_of a b ha hb = ground arith

word_of-add : (a b : ℕ) → word_of (word_of a + b) ≡ word_of (a + b)
word_of-add a b = ground arith

ones_sum_from-eq :
    (acc : ℕ) (ws : List ℕ)
    → acc < 2 ^ 16
    → AllWords ws
    → ones_sum_from acc ws ≡ word_of (acc + plain_sum ws)
unfolding ones_sum_from
ones_sum_from-eq acc [] h all = ground arith
ones_sum_from-eq acc (w ∷ ws) h all =
    ones_sum_from-eq (ones_add acc w) ws
      (omega (arith, ones_add-word_of acc w h all.0, word_of-lt (acc + w))) all.1
    ∙ ap (λ k. word_of (k + plain_sum ws)) (ones_add-word_of acc w h all.0)
    ∙ word_of-add (acc + w) (plain_sum ws)
    ∙ ap word_of (add_assoc acc w (plain_sum ws))

-- The end-around carry loses nothing: the sum is the word that stands for the plain sum.
pub ones_sum-eq : (ws : List ℕ) → AllWords ws → ones_sum ws ≡ word_of (plain_sum ws)
unfolding ones_sum
ones_sum-eq ws all = ones_sum_from-eq 0 ws (omega arith) all ∙ ap word_of (zero-add (plain_sum ws))

-- The two folds of `get_ipv4_psd_sum`.
pub fold32-eq :
    (s : ℕ)
    → s < 2 ^ 64
    → (fold_halves (2 ^ 32) s < 2 ^ 32) × (word_of (fold_halves (2 ^ 32) s) ≡ word_of s)
fold32-eq s h = (ground arith, ground arith)

pub fold16-eq : (s : ℕ) → s < 2 ^ 32 → fold_halves (2 ^ 16) s ≡ word_of s
fold16-eq s h = ground arith

-- The loop step of `get_16b_sum` is the end-around addition.
pub add_word-eq : (a b : ℕ) → a < 2 ^ 16 → b < 2 ^ 16 → add_word a b ≡ ones_add a b
add_word-eq a b ha hb = ground arith

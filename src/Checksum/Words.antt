-- ===== src/Checksum/Words.antt =====
-- Packets as lists of 16-bit words.
use libmoon.Prelude.{
  ℕ, zero, suc, ◌+◌, ◌-◌, ◌*◌, ◌/◌, ◌%◌, ◌^◌, ◌<◌, ◌≡◌, refl, ap, List, [], ◌∷◌, ◌++◌, arith,
  length, set, get_or, drop, store16,
}
use libmoon.Checksum.OnesSum.{plain_sum, word_of, AllWords}
use libmoon.Checksum.Ipv6.{words}

-- A word that is stored in a packet is stored in its words.
pub words-set :
    (pkt : List ℕ) (o i k v : ℕ)
    → i ≡ 2 * o
    → k ≡ i + 1
    → k < length pkt
    → words (set (set pkt i (v % 256)) k (v / 256)) ≡ set (words pkt) o v
words-set [] o i k v e e' h = absurd (omega arith)
words-set (a ∷ []) o zero zero v e e' h = absurd (omega arith)
words-set (a ∷ []) o (suc i) zero v e e' h = absurd (omega arith)
words-set (a ∷ []) o i (suc k) v e e' h = absurd (omega arith)
words-set (a ∷ b ∷ pkt) zero zero zero v e e' h = absurd (omega arith)
words-set (a ∷ b ∷ pkt) zero zero (suc zero) v e e' h = ap (λ w. w ∷ words pkt) (omega arith)
words-set (a ∷ b ∷ pkt) zero zero (suc (suc k)) v e e' h = absurd (omega arith)
words-set (a ∷ b ∷ pkt) zero (suc i) k v e e' h = absurd (omega arith)
words-set (a ∷ b ∷ pkt) (suc o) zero k v e e' h = absurd (omega arith)
words-set (a ∷ b ∷ pkt) (suc o) (suc zero) k v e e' h = absurd (omega arith)
words-set (a ∷ b ∷ pkt) (suc o) (suc (suc i)) zero v e e' h = absurd (omega arith)
words-set (a ∷ b ∷ pkt) (suc o) (suc (suc i)) (suc zero) v e e' h = absurd (omega arith)
words-set (a ∷ b ∷ pkt) (suc o) (suc (suc i)) (suc (suc k)) v e e' h =
    ap (λ ws. (a + 256 * b) ∷ ws) (words-set pkt o i k v (omega arith) (omega arith) (omega arith))

pub words-store16 :
    (pkt : List ℕ) (o v : ℕ)
    → 2 * o + 1 < length pkt
    → words (store16 pkt (2 * o) v) ≡ set (words pkt) o v
words-store16 pkt o v h = words-set pkt o (2 * o) (2 * o + 1) v refl refl h

pub length-words : (pkt : List ℕ) (o : ℕ) → 2 * o + 1 < length pkt → o < length (words pkt)
length-words [] o h = absurd (omega arith)
length-words (a ∷ []) o h = omega arith
length-words (a ∷ b ∷ pkt) zero h = omega arith
length-words (a ∷ b ∷ pkt) (suc o) h = omega (arith, length-words pkt o (omega arith))

pub drop-set : (n o j v : ℕ) (ws : List ℕ) → o ≡ n + j → drop n (set ws o v) ≡ set (drop n ws) j v
drop-set zero o j v ws e = ap (λ k. set ws k v) (omega arith)
drop-set (suc n) o j v [] e = refl
drop-set (suc n) zero j v (w ∷ ws) e = absurd (omega arith)
drop-set (suc n) (suc o) j v (w ∷ ws) e = drop-set n o j v ws (omega arith)

pub plain_sum-set :
    (ws : List ℕ) (j v : ℕ)
    → j < length ws
    → plain_sum (set ws j v) + get_or ws j 0 ≡ plain_sum ws + v
plain_sum-set [] j v h = absurd (omega arith)
plain_sum-set (w ∷ ws) zero v h = omega arith
plain_sum-set (w ∷ ws) (suc j) v h = omega (arith, plain_sum-set ws j v (omega arith))

pub get_or-set : (ws : List ℕ) (j v : ℕ) → j < length ws → get_or (set ws j v) j 0 ≡ v
get_or-set [] j v h = absurd (omega arith)
get_or-set (w ∷ ws) zero v h = refl
get_or-set (w ∷ ws) (suc j) v h = get_or-set ws j v (omega arith)

pub plain_sum-append : (xs ys : List ℕ) → plain_sum (xs ++ ys) ≡ plain_sum xs + plain_sum ys
plain_sum-append [] ys = omega arith
plain_sum-append (x ∷ xs) ys = omega (arith, plain_sum-append xs ys)

pub AllWords-append : (xs ys : List ℕ) → AllWords xs → AllWords ys → AllWords (xs ++ ys)
AllWords-append [] ys a b = b
AllWords-append (x ∷ xs) ys a b = (a.0, AllWords-append xs ys a.1 b)

pub AllWords-set : (ws : List ℕ) (j v : ℕ) → AllWords ws → v < 2 ^ 16 → AllWords (set ws j v)
AllWords-set [] j v a h = tt
AllWords-set (w ∷ ws) zero v a h = (h, a.1)
AllWords-set (w ∷ ws) (suc j) v a h = (a.0, AllWords-set ws j v a.1 h)

pub AllWords-drop : (n : ℕ) (ws : List ℕ) → AllWords ws → AllWords (drop n ws)
AllWords-drop zero ws a = a
AllWords-drop (suc n) [] a = a
AllWords-drop (suc n) (w ∷ ws) a = AllWords-drop n ws a.1

-- The pseudo header sums to `p`, the other words of the segment to `r`.
pub complement_lem : (p r : ℕ) → word_of (p + (r + (65535 - word_of (r + word_of p)))) ≡ 65535
complement_lem p r = ground arith

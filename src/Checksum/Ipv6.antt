-- ===== src/Checksum/Ipv6.antt =====
-- The sum over bytes, and the IPv6 pseudo-header sum.
use libmoon.Prelude.{
  ℕ, ◌+◌, ◌*◌, ◌/◌, ◌%◌, ◌^◌, ◌<◌, ◌≡◌, List, [], ◌∷◌, ◌++◌, arith, ap, sym, ◌∙◌, IsBytes, length,
}
use libmoon.Checksum.{sum_16b, get_16b_sum, Ipv6Hdr, ipv6_psd_header, get_ipv6_psd_sum}
use libmoon.Checksum.OnesSum.{
  ones_sum, ones_sum_from, ones_sum-eq, plain_sum, word_of, AllWords, ones_add, add_word-eq,
}

-- The 16-bit words of a block of bytes, as a little-endian CPU loads them; an odd byte at the end is
-- a word of its own.
abbrev pub words : List ℕ → List ℕ
words [] = []
words (a ∷ []) = a ∷ []
words (a ∷ b ∷ bytes) = (a + 256 * b) ∷ words bytes

pub words-AllWords : (bytes : List ℕ) → IsBytes bytes → AllWords (words bytes)
words-AllWords [] h = tt
words-AllWords (a ∷ []) h = omega arith
words-AllWords (a ∷ b ∷ bytes) h = (omega arith, words-AllWords bytes h.1.1)

-- The code's loop, with the fold that follows it.
sum_16b-eq :
    (acc : ℕ) (bytes : List ℕ)
    → acc < 2 ^ 16
    → IsBytes bytes
    → (sum_16b acc bytes / 2 ^ 16 + sum_16b acc bytes % 2 ^ 16) % 2 ^ 16
      ≡ ones_sum_from acc (words bytes)
unfolding sum_16b ones_sum_from
sum_16b-eq acc [] h b = omega arith
sum_16b-eq acc (x ∷ []) h b = ground arith
sum_16b-eq acc (x ∷ y ∷ bytes) h b =
    rw (add_word-eq acc (x + 256 * y) h (omega arith))
      (sum_16b-eq (ones_add acc (x + 256 * y)) bytes (ground arith) b.1.1)

-- The sum of a block of bytes, of even or odd length, is the ones' complement sum of its words.
get_16b_sum_lem : (bytes : List ℕ) → IsBytes bytes → get_16b_sum bytes ≡ ones_sum (words bytes)
unfolding get_16b_sum ones_sum
get_16b_sum_lem bytes b = sum_16b-eq 0 bytes (omega arith) b

-- The pseudo header of RFC 8200, section 8.1: the addresses, the payload length in 32 bits, three
-- zero bytes and the next header. The length is what the CPU loaded: its low byte came first.
abbrev pub rfc8200_header : Ipv6Hdr → List ℕ
rfc8200_header h =
    h.addrs ++ (0 ∷ 0 ∷ h.payload_len % 256 ∷ h.payload_len / 256 ∷ 0 ∷ 0 ∷ 0 ∷ h.proto ∷ [])

pub record IsIpv6 (h : Ipv6Hdr) : Type 0 where
  pub payload : h.payload_len < 2 ^ 16
  pub proto : h.proto < 256
  pub addresses : IsBytes h.addrs
  pub sixteen_each : length h.addrs ≡ 32

plain_sum-append :
    (xs ys zs : List ℕ)
    → length xs % 2 ≡ 0
    → plain_sum (words ys) ≡ plain_sum (words zs)
    → plain_sum (words (xs ++ ys)) ≡ plain_sum (words (xs ++ zs))
plain_sum-append [] ys zs h e = e
plain_sum-append (x ∷ []) ys zs h e = absurd (omega arith)
plain_sum-append (x ∷ y ∷ xs) ys zs h e = omega (arith, plain_sum-append xs ys zs (omega arith) e)

IsBytes-append : (xs ys : List ℕ) → IsBytes xs → IsBytes ys → IsBytes (xs ++ ys)
IsBytes-append [] ys a b = b
IsBytes-append (x ∷ xs) ys a b = (a.0, IsBytes-append xs ys a.1 b)

pub rfc8200_header-IsBytes : (h : Ipv6Hdr) → IsIpv6 h → IsBytes (rfc8200_header h)
rfc8200_header-IsBytes h v =
    IsBytes-append h.addrs _ v.addresses (omega (arith, v.payload, v.proto))

-- For a header whose fields are in range, the IPv6 pseudo-header sum is the ones' complement sum of
-- the words of the pseudo header of RFC 8200, though the code keeps the payload length in the other
-- half of its 32 bits.
pub get_ipv6_psd_sum_lem :
    (h : Ipv6Hdr) → IsIpv6 h → get_ipv6_psd_sum h ≡ ones_sum (words (rfc8200_header h))
unfolding get_ipv6_psd_sum
get_ipv6_psd_sum_lem h v =
    let sent : IsBytes (ipv6_psd_header h) = IsBytes-append h.addrs _ v.addresses (omega arith) in
    let spec : IsBytes (rfc8200_header h) = rfc8200_header-IsBytes h v in
    get_16b_sum_lem (ipv6_psd_header h) sent
    ∙ ones_sum-eq (words (ipv6_psd_header h)) (words-AllWords (ipv6_psd_header h) sent)
    ∙ ap word_of (plain_sum-append h.addrs _ _ (omega (arith, v.sixteen_each)) (omega arith))
    ∙ sym (ones_sum-eq (words (rfc8200_header h)) (words-AllWords (rfc8200_header h) spec))

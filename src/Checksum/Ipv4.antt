-- ===== src/Checksum/Ipv4.antt =====
-- The IPv4 pseudo-header sum.
use libmoon.Prelude.{
  ℕ, ◌+◌, ◌-◌, ◌*◌, ◌/◌, ◌%◌, ◌^◌, ◌≤◌, ◌<◌, ◌≡◌, ◌≢◌, List, [], ◌∷◌, arith, ap, sym, ◌∙◌,
}
use libmoon.Checksum.{Ipv4Hdr, fold_halves, sign_extend, payload_length, get_ipv4_psd_sum}
use libmoon.Checksum.OnesSum.{ones_sum, ones_sum-eq, plain_sum, word_of, fold32-eq, fold16-eq}

-- The two bytes of a 16-bit word the other way round.
abbrev pub swap16 : ℕ → ℕ
swap16 x = x % 256 * 256 + x / 256

-- The 16-bit words of the pseudo header of RFC 768 and RFC 793, as a little-endian CPU loads them:
-- the addresses, a zero byte and the protocol, and the length of the payload, which is the total
-- length less that of the header.
abbrev pub ipv4_words : ℕ → Ipv4Hdr → List ℕ
ipv4_words header_len h =
    h.src_addr % 2 ^ 16
    ∷ h.src_addr / 2 ^ 16
    ∷ h.dst_addr % 2 ^ 16
    ∷ h.dst_addr / 2 ^ 16
    ∷ h.next_proto_id * 256
    ∷ swap16 (swap16 h.total_length - header_len)
    ∷ []

-- The fields have their widths, and the total length covers a header without options.
pub record IsIpv4 (h : Ipv4Hdr) : Type 0 where
  pub src : h.src_addr < 2 ^ 32
  pub dst : h.dst_addr < 2 ^ 32
  pub proto : h.next_proto_id < 256
  pub len : h.total_length < 2 ^ 16
  pub covers : 20 ≤ swap16 h.total_length

word_of-cong :
    (a b : ℕ) → a % 65535 ≡ b % 65535 → (a ≡ 0 → b ≡ 0) → (b ≡ 0 → a ≡ 0) → word_of a ≡ word_of b
word_of-cong a b e f g = ground arith

-- The two folds together.
fold-eq : (s : ℕ) → s < 2 ^ 64 → fold_halves (2 ^ 16) (fold_halves (2 ^ 32) s) ≡ word_of s
fold-eq s h = let (small, same) = fold32-eq s h in fold16-eq (fold_halves (2 ^ 32) s) small ∙ same

-- What the code adds up, before the conversion of the protocol to 64 bits.
abbrev pub plain_total : Ipv4Hdr → ℕ
plain_total h =
    h.src_addr + h.dst_addr + (h.next_proto_id * 2 ^ 24 + swap16 (swap16 h.total_length - 20))

words_total : (h : Ipv4Hdr) → IsIpv4 h → ones_sum (ipv4_words 20 h) ≡ word_of (plain_total h)
words_total h v =
    ones_sum-eq (ipv4_words 20 h) (omega arith)
    ∙ word_of-cong (plain_sum (ipv4_words 20 h)) (plain_total h) (omega arith) (λ e. omega arith)
        (λ e. omega arith)

word_of_ne : (n : ℕ) → 2 ^ 32 ≤ n → word_of (n - 2 ^ 32) ≢ word_of n
word_of_ne n h e = ground arith

module _ (bswap16 : ℕ → ℕ) (swaps : (x : ℕ) → x < 2 ^ 16 → bswap16 x ≡ swap16 x) where
  -- For a total length that covers the header, the short cut for totals below 256 and the byte swap
  -- both give the payload's length in network byte order.
  pub payload_length_lem :
      (len : ℕ)
      → len < 2 ^ 16
      → 20 ≤ swap16 len
      → payload_length bswap16 len ≡ swap16 (swap16 len - 20)
  unfolding payload_length
  payload_length_lem len h covers =
      ground (arith, swaps len h, swaps ((swap16 len + 2 ^ 64 - 20) % 2 ^ 16) (omega arith))

  -- For a header without options, that is of 20 bytes, whose fields are in range and whose total
  -- length covers it, with a protocol number below 128, the IPv4 pseudo-header sum is the ones'
  -- complement sum of the words of the pseudo header.
  pub get_ipv4_psd_sum_lem :
      (header_len : ℕ) (h : Ipv4Hdr)
      → header_len ≡ 20
      → IsIpv4 h
      → h.next_proto_id < 128
      → get_ipv4_psd_sum bswap16 h ≡ ones_sum (ipv4_words header_len h)
  unfolding get_ipv4_psd_sum
  get_ipv4_psd_sum_lem header_len h plain v low =
      rw (plain, payload_length_lem h.total_length v.len v.covers)
        (ap (λ s. fold_halves (2 ^ 16) (fold_halves (2 ^ 32) s)) (ground arith)
          ∙ fold-eq (plain_total h) (omega arith)
          ∙ sym (words_total h v))

  -- For a header without options whose fields are in range and whose total length covers it, with a
  -- protocol number from 128 on, whose addresses, protocol (as the last byte of a 32-bit word) and
  -- payload length in network order sum to 2 ^ 32 or more: the IPv4 pseudo-header sum is not the ones'
  -- complement sum of the words of the pseudo header, since the sign of the shifted protocol, an
  -- `int`, is extended to 64 bits.
  pub get_ipv4_psd_sum_high :
      (h : Ipv4Hdr)
      → IsIpv4 h
      → 128 ≤ h.next_proto_id
      → 2 ^ 32 ≤ plain_total h
      → get_ipv4_psd_sum bswap16 h ≢ ones_sum (ipv4_words 20 h)
  unfolding get_ipv4_psd_sum
  get_ipv4_psd_sum_high h v high over e =
      let sum : (h.src_addr
              + h.dst_addr
              + sign_extend (h.next_proto_id * 2 ^ 24 + swap16 (swap16 h.total_length - 20)))
            % 2 ^ 64
          ≡ plain_total h - 2 ^ 32 =
        ground arith in
      let e' : fold_halves (2 ^ 16) (
            fold_halves (2 ^ 32) (
              (h.src_addr
                + h.dst_addr
                + sign_extend (h.next_proto_id * 2 ^ 24 + swap16 (swap16 h.total_length - 20)))
              % 2 ^ 64))
          ≡ ones_sum (ipv4_words 20 h) =
        rw (payload_length_lem h.total_length v.len v.covers) at e in
      word_of_ne (plain_total h) over (
        sym (fold-eq (plain_total h - 2 ^ 32) (omega arith))
        ∙ ap (λ s. fold_halves (2 ^ 16) (fold_halves (2 ^ 32) s)) (sym sum)
        ∙ e'
        ∙ words_total h v)

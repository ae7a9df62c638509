-- ===== src/Checksum/Offload.antt =====
-- What the card makes of a packet whose checksum word holds the sum of the pseudo header.
use libmoon.Prelude.{
  ℕ, ◌+◌, ◌-◌, ◌*◌, ◌^◌, ◌≤◌, ◌<◌, ◌≡◌, ap, ◌∙◌, List, ◌++◌, arith, IsBytes, length, set, get_or,
  drop, load8, load16, store16, length-set, length-store16, length-drop,
}
use libmoon.Checksum.{
  ipv4_hdr, ipv6_hdr, calc_ipv4_pseudo_header_checksum, calc_ipv6_pseudo_header_checksum,
}
use libmoon.Checksum.OnesSum.{ones_sum, ones_sum-eq, plain_sum, word_of, word_of-lt, AllWords}
use libmoon.Checksum.Ipv4.{swap16, ipv4_words, get_ipv4_psd_sum_lem}
use libmoon.Checksum.Packet.{ipv4_hdr-IsIpv4, ipv6_hdr-IsIpv6}
use libmoon.Checksum.Ipv6.{
  words, words-AllWords, rfc8200_header-IsBytes, rfc8200_header, get_ipv6_psd_sum_lem,
}
use libmoon.Checksum.Words.{
  words-store16, length-words, drop-set, plain_sum-set, get_or-set, plain_sum-append,
  AllWords-append, AllWords-set, AllWords-drop, complement_lem,
}
use libmoon.Checksum.Kept.{ipv4_hdr_kept, ipv6_hdr_kept}

-- A card that is told to check sum the segment that starts at word `start` of the packet, with its
-- checksum at word `offset`: it sums the words of the segment up, with what the checksum holds, and
-- stores the complement there. (That UDP asks for 65535 in place of 0 is left out.)
pub record Card (start offset : ℕ) : Type 0 where
  pub offload : List ℕ → List ℕ
  pub fills :
      (pkt : List ℕ)
      → 2 * offset + 1 < length pkt
      → offload pkt ≡ store16 pkt (2 * offset) (65535 - ones_sum (drop start (words pkt)))

module _ (start offset : ℕ) (card : Card start offset) where
  -- The words of the segment on the wire, when the seed `c` was in the checksum.
  wire_words :
      (pkt : List ℕ) (j c : ℕ)
      → offset ≡ start + j
      → 2 * offset + 1 < length pkt
      → let seeded = set (drop start (words pkt)) j c in
        drop start (words (card.offload (store16 pkt (2 * offset) c)))
        ≡ set seeded j (65535 - ones_sum seeded)
  wire_words pkt j c e h =
      let inside : 2 * offset + 1 < length (store16 pkt (2 * offset) c) =
        omega (arith, length-store16 pkt (2 * offset) c) in
      let seeded : drop start (words (store16 pkt (2 * offset) c))
          ≡ set (drop start (words pkt)) j c =
        ap (drop start) (words-store16 pkt offset c h) ∙ drop-set start offset j c (words pkt) e in
      ap (λ p. drop start (words p)) (card.fills (store16 pkt (2 * offset) c) inside)
      ∙ ap (drop start) (words-store16 (store16 pkt (2 * offset) c) offset _ inside)
      ∙ drop-set start offset j _ (words (store16 pkt (2 * offset) c)) e
      ∙ ap (λ ws. set ws j (65535 - ones_sum ws)) seeded

  -- What the checksum holds at last is the complement of the rest.
  filled_sum :
      (pseudo seeded : List ℕ) (j : ℕ)
      → AllWords pseudo
      → AllWords seeded
      → j < length seeded
      → get_or seeded j 0 ≡ ones_sum pseudo
      → ones_sum (pseudo ++ set seeded j (65535 - ones_sum seeded)) ≡ 65535
  filled_sum pseudo seeded j ws ss h at =
      let x : ℕ = 65535 - ones_sum seeded in
      let p : ℕ = plain_sum pseudo in
      let r : ℕ = plain_sum (set seeded j 0) in
      let c_eq : ones_sum pseudo ≡ word_of p = ones_sum-eq pseudo ws in
      let whole : plain_sum seeded ≡ r + word_of p =
        omega (arith, plain_sum-set seeded j 0 h, at, c_eq) in
      let x_eq : x ≡ 65535 - word_of (r + word_of p) =
        ap (λ s. 65535 - s) (ones_sum-eq seeded ss ∙ ap word_of whole) in
      let total : plain_sum (pseudo ++ set seeded j x)
          ≡ p + (r + (65535 - word_of (r + word_of p))) =
        omega (
          arith,
          plain_sum-append pseudo (set seeded j x),
          plain_sum-set seeded j x h,
          at,
          c_eq,
          whole,
          x_eq,
        ) in
      ones_sum-eq (pseudo ++ set seeded j x)
        (AllWords-append pseudo (set seeded j x) ws (AllWords-set seeded j x ss (omega arith)))
      ∙ ap word_of total
      ∙ complement_lem p r

  offload_valid :
      (pseudo pkt : List ℕ) (j : ℕ)
      → AllWords pseudo
      → IsBytes pkt
      → offset ≡ start + j
      → 2 * offset + 1 < length pkt
      → ones_sum
          (pseudo ++ drop start (words (card.offload (store16 pkt (2 * offset) (ones_sum pseudo)))))
        ≡ 65535
  offload_valid pseudo pkt j ws b e h =
      let c : ℕ = ones_sum pseudo in
      let seg : List ℕ = drop start (words pkt) in
      let seeded : List ℕ = set seg j c in
      let sum : c ≡ word_of (plain_sum pseudo) = ones_sum-eq pseudo ws in
      let seg_words : AllWords seg = AllWords-drop start (words pkt) (words-AllWords pkt b) in
      let within : j < length seg =
        omega (arith, length-words pkt offset h, length-drop start (words pkt)) in
      let seeded_words : AllWords seeded =
        AllWords-set seg j c seg_words (omega (arith, sum, word_of-lt (plain_sum pseudo))) in
      ap (λ ws'. ones_sum (pseudo ++ ws')) (wire_words pkt j c e h)
      ∙ filled_sum pseudo seeded j ws seeded_words (omega (arith, within, length-set seg j c))
          (get_or-set seg j c within)

  -- What no store at the checksum changes, neither the code nor the card does.
  offload_kept :
      {A : Type 0} (f : List ℕ → A)
      → ((pkt : List ℕ) (v : ℕ) → f (store16 pkt (2 * offset) v) ≡ f pkt)
      → (pkt : List ℕ) (c : ℕ) → 2 * offset + 1 < length pkt
      → f (card.offload (store16 pkt (2 * offset) c)) ≡ f pkt
  offload_kept f kept pkt c h =
      ap f
        (card.fills (store16 pkt (2 * offset) c) (omega (arith, length-store16 pkt (2 * offset) c)))
      ∙ kept (store16 pkt (2 * offset) c) _
      ∙ kept pkt c

module _ (bswap16 : ℕ → ℕ) (swaps : (x : ℕ) → x < 2 ^ 16 → bswap16 x ≡ swap16 x) where
  ipv4_words-AllWords :
      (pkt : List ℕ)
      → IsBytes pkt
      → 20 ≤ swap16 (load16 pkt 16)
      → AllWords (ipv4_words 20 (ipv4_hdr pkt))
  ipv4_words-AllWords pkt b h =
      let v = ipv4_hdr-IsIpv4 pkt b h in omega (arith, v.src, v.dst, v.proto, v.len)

  -- An IPv4 packet without options, whose total length covers the header and whose protocol is below
  -- 128, gets the seed from `calc_ipv4_pseudo_header_checksum`, in a checksum word behind the IPv4
  -- header, and the card then stores the complement of the ones' complement sum of the segment there.
  -- In what it sends, the words of the pseudo header and of the segment sum to 65535, so that a
  -- receiver finds the checksum right.
  pub calc_ipv4-offload :
      (offset : ℕ) (card : Card 17 offset) (pkt : List ℕ)
      → IsBytes pkt
      → 17 ≤ offset
      → 2 * offset + 1 < length pkt
      → 20 ≤ swap16 (load16 pkt 16)
      → load8 pkt 23 < 128
      → let sent = card.offload (calc_ipv4_pseudo_header_checksum bswap16 offset pkt) in
        ones_sum (ipv4_words 20 (ipv4_hdr sent) ++ drop 17 (words sent)) ≡ 65535
  unfolding calc_ipv4_pseudo_header_checksum
  calc_ipv4-offload offset card pkt b behind inside covers low =
      rw
        (get_ipv4_psd_sum_lem bswap16 swaps 20 (ipv4_hdr pkt) (λ i. 20)
          (ipv4_hdr-IsIpv4 pkt b covers) low)
        (ap
            (λ h. ones_sum (
              ipv4_words 20 h
              ++ drop 17 (
                  words (
                    card.offload
                      (store16 pkt (2 * offset) (ones_sum (ipv4_words 20 (ipv4_hdr pkt))))))))
            (offload_kept 17 offset card ipv4_hdr
              (λ p v. ipv4_hdr_kept p (2 * offset) v (omega arith)) pkt _ inside)
          ∙ offload_valid 17 offset card (ipv4_words 20 (ipv4_hdr pkt)) pkt (offset - 17)
              (ipv4_words-AllWords pkt b covers) b (omega arith) inside)

-- An IPv6 packet without extension headers, which holds the whole IPv6 header, gets the seed from
-- `calc_ipv6_pseudo_header_checksum`, in a checksum word behind the IPv6 header, and the card then
-- stores the complement of the ones' complement sum of the segment there. In what it sends, the words
-- of the pseudo header of RFC 8200 and of the segment sum to 65535, so that a receiver finds the
-- checksum right.
pub calc_ipv6-offload :
    (offset : ℕ) (card : Card 27 offset) (pkt : List ℕ)
    → IsBytes pkt
    → 27 ≤ offset
    → 2 * offset + 1 < length pkt
    → let sent = card.offload (calc_ipv6_pseudo_header_checksum offset pkt) in
      ones_sum (words (rfc8200_header (ipv6_hdr sent)) ++ drop 27 (words sent)) ≡ 65535
unfolding calc_ipv6_pseudo_header_checksum
calc_ipv6-offload offset card pkt b behind inside =
    let v = ipv6_hdr-IsIpv6 pkt b (omega arith) in
    rw (get_ipv6_psd_sum_lem (ipv6_hdr pkt) v) (
      ap
        (λ h. ones_sum (
          words (rfc8200_header h)
          ++ drop 27 (
              words (
                card.offload
                  (store16 pkt (2 * offset) (ones_sum (words (rfc8200_header (ipv6_hdr pkt)))))))))
        (offload_kept 27 offset card ipv6_hdr (λ p v. ipv6_hdr_kept p (2 * offset) v (omega arith))
          pkt _ inside)
      ∙ offload_valid 27 offset card (words (rfc8200_header (ipv6_hdr pkt))) pkt (offset - 27)
          (words-AllWords (rfc8200_header (ipv6_hdr pkt)) (rfc8200_header-IsBytes (ipv6_hdr pkt) v))
          b (omega arith) inside)

-- ===== src/Checksum/Packet.antt =====
-- Writing the sums into the packets.
use libmoon.Prelude.{
  ℕ, zero, suc, ◌+◌, ◌*◌, ◌^◌, ◌≤◌, ◌<◌, ◌≡◌, ◌≢◌, List, [], ◌∷◌, arith, ◌∙◌, IsBytes, length,
  load8, load16, load16-store16, load8-store16_ne, load8-lt, load16-lt, load32-lt, length-store16,
  take, drop, length-take, length-drop,
}
use libmoon.Checksum.{
  ipv4_hdr, ipv6_hdr, calc_ipv4_pseudo_header_checksum, calc_ipv6_pseudo_header_checksum,
  get_ipv4_psd_sum, get_ipv6_psd_sum,
}
use libmoon.Checksum.OnesSum.{ones_sum}
use libmoon.Checksum.Ipv4.{IsIpv4, swap16, ipv4_words, get_ipv4_psd_sum_lem}
use libmoon.Checksum.Ipv6.{IsIpv6, words, rfc8200_header, get_ipv6_psd_sum_lem}

-- Two packets differ in the checksum word only.
pub record OnlyWord (offset : ℕ) (pkt pkt' : List ℕ) : Type 0 where
  pub same_length : length pkt' ≡ length pkt
  pub others : (j : ℕ) → 2 * offset ≢ j → 2 * offset + 1 ≢ j → load8 pkt' j ≡ load8 pkt j

pub ipv4_hdr-IsIpv4 :
    (pkt : List ℕ) → IsBytes pkt → 20 ≤ swap16 (load16 pkt 16) → IsIpv4 (ipv4_hdr pkt)
ipv4_hdr-IsIpv4 pkt b h = record {
  src = load32-lt pkt 26 b;
  dst = load32-lt pkt 30 b;
  proto = load8-lt pkt 23 b;
  len = load16-lt pkt 16 b;
  covers = h;
}

module _ (bswap16 : ℕ → ℕ) (swaps : (x : ℕ) → x < 2 ^ 16 → bswap16 x ≡ swap16 x) where
  -- The IPv4 checksum word, when it lies in the packet, becomes the ones' complement sum of the
  -- packet's pseudo header, and no other byte changes, if the header's total length covers the header
  -- and its protocol is below 128.
  calc_ipv4_lem :
      (offset : ℕ) (pkt : List ℕ)
      → IsBytes pkt
      → 2 * offset + 1 < length pkt
      → 20 ≤ swap16 (load16 pkt 16)
      → load8 pkt 23 < 128
      → let pkt' = calc_ipv4_pseudo_header_checksum bswap16 offset pkt in
        (load16 pkt' (2 * offset) ≡ ones_sum (ipv4_words 20 (ipv4_hdr pkt)))
        × OnlyWord offset pkt pkt'
  unfolding calc_ipv4_pseudo_header_checksum
  calc_ipv4_lem offset pkt b inside covers low =
      let csum : ℕ = get_ipv4_psd_sum bswap16 (ipv4_hdr pkt) in
      (
        load16-store16 pkt (2 * offset) csum inside
            ∙ get_ipv4_psd_sum_lem bswap16 swaps 20 (ipv4_hdr pkt) (λ i. 20)
                (ipv4_hdr-IsIpv4 pkt b covers) low,
        record {
          same_length = length-store16 pkt (2 * offset) csum;
          others = λ j p q. load8-store16_ne pkt (2 * offset) j csum p q;
        },
      )

pub IsBytes-take : (n : ℕ) (xs : List ℕ) → IsBytes xs → IsBytes (take n xs)
IsBytes-take zero xs b = tt
IsBytes-take (suc n) [] b = tt
IsBytes-take (suc n) (x ∷ xs) b = (b.0, IsBytes-take n xs b.1)

pub IsBytes-drop : (n : ℕ) (xs : List ℕ) → IsBytes xs → IsBytes (drop n xs)
IsBytes-drop zero xs b = b
IsBytes-drop (suc n) [] b = tt
IsBytes-drop (suc n) (x ∷ xs) b = IsBytes-drop n xs b.1

pub ipv6_hdr-IsIpv6 : (pkt : List ℕ) → IsBytes pkt → 54 ≤ length pkt → IsIpv6 (ipv6_hdr pkt)
ipv6_hdr-IsIpv6 pkt b h = record {
  payload = load16-lt pkt 18 b;
  proto = load8-lt pkt 20 b;
  addresses = IsBytes-take 32 (drop 22 pkt) (IsBytes-drop 22 pkt b);
  sixteen_each = omega (arith, length-take 32 (drop 22 pkt), length-drop 22 pkt);
}

-- In a packet that holds the whole IPv6 header, the checksum word, when it lies in the packet, becomes
-- the ones' complement sum of the pseudo header of RFC 8200, and no other byte changes.
calc_ipv6_lem :
    (offset : ℕ) (pkt : List ℕ)
    → IsBytes pkt
    → 54 ≤ length pkt
    → 2 * offset + 1 < length pkt
    → let pkt' = calc_ipv6_pseudo_header_checksum offset pkt in
      (load16 pkt' (2 * offset) ≡ ones_sum (words (rfc8200_header (ipv6_hdr pkt))))
      × OnlyWord offset pkt pkt'
unfolding calc_ipv6_pseudo_header_checksum
calc_ipv6_lem offset pkt b whole inside =
    let csum : ℕ = get_ipv6_psd_sum (ipv6_hdr pkt) in
    (
      load16-store16 pkt (2 * offset) csum inside
          ∙ get_ipv6_psd_sum_lem (ipv6_hdr pkt) (ipv6_hdr-IsIpv6 pkt b whole),
      record {
        same_length = length-store16 pkt (2 * offset) csum;
        others = λ j p q. load8-store16_ne pkt (2 * offset) j csum p q;
      },
    )

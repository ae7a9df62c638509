-- ===== src/Checksum/Tests.antt =====
-- Checksums of concrete packets, and the theorems at them.
use libmoon.Prelude.{
  ℕ, ◌+◌, ◌*◌, ◌^◌, ◌<◌, ◌≡◌, ◌≢◌, refl, List, [], ◌∷◌, ◌++◌, arith, replicate, ◌-◌, drop, store16,
}
use libmoon.Checksum.{
  Ipv4Hdr, Ipv6Hdr, ipv4_hdr, ipv6_hdr, get_ipv4_psd_sum, get_16b_sum,
  calc_ipv4_pseudo_header_checksum, calc_ipv6_pseudo_header_checksum,
  calc_ipv4_pseudo_header_checksums, calc_ipv6_pseudo_header_checksums,
}
use libmoon.Checksum.Offload.{Card, calc_ipv4-offload, calc_ipv6-offload}
use libmoon.Checksum.OnesSum.{ones_sum}
use libmoon.Checksum.Ipv4.{swap16, ipv4_words, IsIpv4, get_ipv4_psd_sum_lem, get_ipv4_psd_sum_high}
use libmoon.Checksum.Ipv6.{words, rfc8200_header, IsIpv6}

-- 10.0.0.1 to 10.0.0.2, UDP, 46 bytes in all; and SCTP between addresses with high last bytes.
abbrev udp : Ipv4Hdr
udp = record {
  total_length = 46 * 256;
  next_proto_id = 17;
  src_addr = 0x0100_000a;
  dst_addr = 0x0200_000a;
}

abbrev sctp : Ipv4Hdr
sctp = record udp { next_proto_id = 132; src_addr = 0xfe00_000a }

abbrev udp6 : Ipv6Hdr
udp6 = record { payload_len = 8 * 256; proto = 17; addrs = replicate 32 1 }

-- An Ethernet frame of that UDP packet, 60 bytes, its checksum word at 40.
abbrev frame : List ℕ
frame =
    replicate 12 2
    ++ (8
        ∷ 0
        ∷ 69
        ∷ 0
        ∷ 0
        ∷ 46
        ∷ 0
        ∷ 0
        ∷ 0
        ∷ 0
        ∷ 64
        ∷ 17
        ∷ 0
        ∷ 0
        ∷ 10
        ∷ 0
        ∷ 0
        ∷ 1
        ∷ 10
        ∷ 0
        ∷ 0
        ∷ 2
        ∷ replicate 26 0)

abbrev frame6 : List ℕ
frame6 = replicate 14 2 ++ (96 ∷ 0 ∷ 0 ∷ 0 ∷ 0 ∷ 8 ∷ 17 ∷ 64 ∷ replicate 40 1)

udp_sum : (get_ipv4_psd_sum swap16 udp ≡ swap16 (0x0a00 + 0x0001 + 0x0a00 + 0x0002 + 17 + 26))
unfolding get_ipv4_psd_sum
udp_sum = refl

odd_block : get_16b_sum (0xff ∷ 0xff ∷ 1 ∷ []) ≡ 1
unfolding get_16b_sum
odd_block = refl

batches :
    (calc_ipv4_pseudo_header_checksums swap16 20 (frame ∷ [])
      ≡ calc_ipv4_pseudo_header_checksum swap16 20 frame ∷ [])
    × (calc_ipv6_pseudo_header_checksums 30 (frame6 ∷ [])
        ≡ calc_ipv6_pseudo_header_checksum 30 frame6 ∷ [])
unfolding calc_ipv4_pseudo_header_checksums calc_ipv6_pseudo_header_checksums
batches = (refl, refl)

swaps : (x : ℕ) → x < 2 ^ 16 → swap16 x ≡ swap16 x
swaps x h = refl

udp-IsIpv4 : IsIpv4 udp
udp-IsIpv4 = omega arith

sctp-IsIpv4 : IsIpv4 sctp
sctp-IsIpv4 = omega arith

udp6-IsIpv6 : IsIpv6 udp6
udp6-IsIpv6 = omega arith

get_ipv4_psd_sum_lem_example : get_ipv4_psd_sum swap16 udp ≡ ones_sum (ipv4_words 20 udp)
get_ipv4_psd_sum_lem_example =
    get_ipv4_psd_sum_lem swap16 swaps 20 udp refl udp-IsIpv4 (omega arith)

get_ipv4_psd_sum_high_example : get_ipv4_psd_sum swap16 sctp ≢ ones_sum (ipv4_words 20 sctp)
get_ipv4_psd_sum_high_example =
    get_ipv4_psd_sum_high swap16 swaps sctp sctp-IsIpv4 (omega arith) (omega arith)

-- The frame's UDP segment starts at byte 34, its checksum is at byte 40.
abbrev card : Card 17 20
card = record {
  offload = λ pkt. store16 pkt 40 (65535 - ones_sum (drop 17 (words pkt)));
  fills = λ pkt h. refl;
}

-- The checksum at byte 60.
abbrev card6 : Card 27 30
card6 = record {
  offload = λ pkt. store16 pkt 60 (65535 - ones_sum (drop 27 (words pkt)));
  fills = λ pkt h. refl;
}

calc_ipv4-offload_example :
    let sent = card.offload (calc_ipv4_pseudo_header_checksum swap16 20 frame) in
    ones_sum (ipv4_words 20 (ipv4_hdr sent) ++ drop 17 (words sent)) ≡ 65535
calc_ipv4-offload_example =
    calc_ipv4-offload swap16 swaps 20 card frame (omega arith) (omega arith) (omega arith)
      (omega arith) (omega arith)

calc_ipv6-offload_example :
    let sent = card6.offload (calc_ipv6_pseudo_header_checksum 30 frame6) in
    ones_sum (words (rfc8200_header (ipv6_hdr sent)) ++ drop 27 (words sent)) ≡ 65535
calc_ipv6-offload_example =
    calc_ipv6-offload 30 card6 frame6 (omega arith) (omega arith) (omega arith)

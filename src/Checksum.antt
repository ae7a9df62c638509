-- ===== src/Checksum.antt =====
-- src/util.c: the pseudo-header checksums that a packet generator writes for the network card.
-- A packet is the list of its bytes. `rte_bswap16` (DPDK) is a parameter.
pub mod OnesSum
pub mod Ipv4
pub mod Ipv6
pub mod Packet
pub mod Words
pub mod Kept
pub mod Offload
mod Tests
use libmoon.Prelude.{
  ℕ, ◌+◌, ◌-◌, ◌*◌, ◌/◌, ◌%◌, ◌^◌, List, [], ◌∷◌, ◌++◌, map, ltb, if◌then◌else◌, ◌==◌, load8,
  load16, load32, store16, take, drop,
}

-- The fields of `struct rte_ipv4_hdr` that the checksum reads, as the CPU loads them.
pub record Ipv4Hdr : Type 0 where
  pub total_length : ℕ
  pub next_proto_id : ℕ
  pub src_addr : ℕ
  pub dst_addr : ℕ

-- `lower += upper; if (lower < upper) lower++;` on the halves of a `2 * w`-bit word
abbrev pub fold_halves : ℕ → ℕ → ℕ
fold_halves half sum =
    let lower : ℕ = sum % half in
    let upper : ℕ = sum / half % half in
    let folded : ℕ = (lower + upper) % half in
    if ltb folded upper then (folded + 1) % half else folded

-- An `int` that is converted to `uint64_t`: the sign bit is extended.
abbrev pub sign_extend : ℕ → ℕ
sign_extend w = if ltb w (2 ^ 31) then w else w + 2 ^ 64 - 2 ^ 32

-- The IP header behind the 14 bytes of the Ethernet header.
abbrev pub ipv4_hdr : List ℕ → Ipv4Hdr
ipv4_hdr pkt = record {
  total_length = load16 pkt 16;
  next_proto_id = load8 pkt 23;
  src_addr = load32 pkt 26;
  dst_addr = load32 pkt 30;
}

module _ (bswap16 : ℕ → ℕ) where
  -- The length of the payload, in network byte order; `sizeof` makes the subtraction 64 bits wide.
  pub payload_length : ℕ → ℕ
  payload_length len =
      if len % 256 == 0
      then (len / 256 + 2 ^ 64 - 20) % 2 ^ 64 * 256 % 2 ^ 16
      else bswap16 ((bswap16 len + 2 ^ 64 - 20) % 2 ^ 16)

  pub get_ipv4_psd_sum : Ipv4Hdr → ℕ
  unfolding payload_length
  get_ipv4_psd_sum ip_hdr =
      let len : ℕ = payload_length ip_hdr.total_length in
      let sum : ℕ =
        (ip_hdr.src_addr + ip_hdr.dst_addr + sign_extend (ip_hdr.next_proto_id * 2 ^ 24 + len))
        % 2 ^ 64 in
      fold_halves (2 ^ 16) (fold_halves (2 ^ 32) sum)

  -- `((uint16_t*) data)[offset] = csum`, for an offset that is not negative
  pub calc_ipv4_pseudo_header_checksum : ℕ → List ℕ → List ℕ
  calc_ipv4_pseudo_header_checksum offset pkt =
      store16 pkt (2 * offset) (get_ipv4_psd_sum (ipv4_hdr pkt))

  pub calc_ipv4_pseudo_header_checksums : ℕ → List (List ℕ) → List (List ℕ)
  calc_ipv4_pseudo_header_checksums offset = map (calc_ipv4_pseudo_header_checksum offset)

-- `sum += *ptr16; if (sum > UINT16_MAX) sum -= UINT16_MAX;`
abbrev pub add_word : ℕ → ℕ → ℕ
add_word sum word =
    let raised : ℕ = (sum + word) % 2 ^ 32 in if ltb 65535 raised then raised - 65535 else raised

-- The loop of `get_16b_sum` and the odd byte after it.
pub sum_16b : ℕ → List ℕ → ℕ
sum_16b sum [] = sum
sum_16b sum (a ∷ []) = (sum + a) % 2 ^ 32
sum_16b sum (a ∷ b ∷ bytes) = sum_16b (add_word sum (a + 256 * b)) bytes

pub get_16b_sum : List ℕ → ℕ
unfolding sum_16b
get_16b_sum bytes = let sum = sum_16b 0 bytes in (sum / 2 ^ 16 + sum % 2 ^ 16) % 2 ^ 16

-- The fields of `struct rte_ipv6_hdr` that the checksum reads: the addresses as bytes, the payload
-- length as the CPU loads it.
pub record Ipv6Hdr : Type 0 where
  pub payload_len : ℕ
  pub proto : ℕ
  pub addrs : List ℕ

-- The 40 bytes of `union ipv6_psd_header`, as the CPU stores them.
abbrev pub ipv6_psd_header : Ipv6Hdr → List ℕ
ipv6_psd_header h =
    h.addrs ++ (h.payload_len % 256 ∷ h.payload_len / 256 ∷ 0 ∷ 0 ∷ 0 ∷ 0 ∷ 0 ∷ h.proto ∷ [])

pub get_ipv6_psd_sum : Ipv6Hdr → ℕ
unfolding get_16b_sum
get_ipv6_psd_sum ip_hdr = get_16b_sum (ipv6_psd_header ip_hdr)

abbrev pub ipv6_hdr : List ℕ → Ipv6Hdr
ipv6_hdr pkt = record {
  payload_len = load16 pkt 18;
  proto = load8 pkt 20;
  addrs = take 32 (drop 22 pkt);
}

pub calc_ipv6_pseudo_header_checksum : ℕ → List ℕ → List ℕ
calc_ipv6_pseudo_header_checksum offset pkt =
    store16 pkt (2 * offset) (get_ipv6_psd_sum (ipv6_hdr pkt))

pub calc_ipv6_pseudo_header_checksums : ℕ → List (List ℕ) → List (List ℕ)
calc_ipv6_pseudo_header_checksums offset = map (calc_ipv6_pseudo_header_checksum offset)

-- ===== src/Checksum/Kept.antt =====
-- A store behind the IP header leaves the header.
use libmoon.Prelude.{
  ℕ, zero, suc, ◌+◌, ◌-◌, ◌/◌, ◌%◌, ◌≤◌, ◌<◌, ◌≡◌, refl, ap, ◌∙◌, List, [], ◌∷◌, arith, set, drop,
  load8, load16, load32, take, store16, load8-store16_ne,
}
use libmoon.Checksum.{ipv4_hdr, ipv6_hdr}
use libmoon.Checksum.Words.{drop-set}

-- A word behind what is loaded.
pub load8_kept : (pkt : List ℕ) (i j v : ℕ) → j < i → load8 (store16 pkt i v) j ≡ load8 pkt j
load8_kept pkt i j v h =
    load8-store16_ne pkt i j v (λ e. absurd (omega arith)) (λ e. absurd (omega arith))

pub load16_kept : (pkt : List ℕ) (i j v : ℕ) → j + 1 < i → load16 (store16 pkt i v) j ≡ load16 pkt j
load16_kept pkt i j v h =
    omega (arith, load8_kept pkt i j v (omega arith), load8_kept pkt i (j + 1) v h)

pub load32_kept : (pkt : List ℕ) (i j v : ℕ) → j + 3 < i → load32 (store16 pkt i v) j ≡ load32 pkt j
load32_kept pkt i j v h =
    omega (arith, load16_kept pkt i j v (omega arith), load16_kept pkt i (j + 2) v (omega arith))

pub ipv4_hdr_kept : (pkt : List ℕ) (i v : ℕ) → 34 ≤ i → ipv4_hdr (store16 pkt i v) ≡ ipv4_hdr pkt
ipv4_hdr_kept pkt i v h =
    let len = load16_kept pkt i 16 v (omega (arith, h)) in
    let proto = load8_kept pkt i 23 v (omega (arith, h)) in
    let src = load32_kept pkt i 26 v (omega (arith, h)) in
    let dst = load32_kept pkt i 30 v (omega (arith, h)) in
    λ k. record {
      total_length = len k;
      next_proto_id = proto k;
      src_addr = src k;
      dst_addr = dst k;
    }

pub take-set : (n i v : ℕ) (xs : List ℕ) → n ≤ i → take n (set xs i v) ≡ take n xs
take-set zero i v xs h = refl
take-set (suc n) i v [] h = refl
take-set (suc n) zero v (x ∷ xs) h = absurd (omega arith)
take-set (suc n) (suc i) v (x ∷ xs) h = ap (λ l. x ∷ l) (take-set n i v xs (omega arith))

pub addrs_kept :
    (pkt : List ℕ) (i v : ℕ) → 54 ≤ i → take 32 (drop 22 (set pkt i v)) ≡ take 32 (drop 22 pkt)
addrs_kept pkt i v h =
    ap (take 32) (drop-set 22 i (i - 22) v pkt (omega arith))
    ∙ take-set 32 (i - 22) v (drop 22 pkt) (omega arith)

pub ipv6_hdr_kept : (pkt : List ℕ) (i v : ℕ) → 54 ≤ i → ipv6_hdr (store16 pkt i v) ≡ ipv6_hdr pkt
ipv6_hdr_kept pkt i v h =
    let len = load16_kept pkt i 18 v (omega (arith, h)) in
    let proto = load8_kept pkt i 20 v (omega (arith, h)) in
    let addrs =
      addrs_kept (set pkt i (v % 256)) (i + 1) (v / 256) (omega arith)
      ∙ addrs_kept pkt i (v % 256) h in
    λ k. record { payload_len = len k; proto = proto k; addrs = addrs k }

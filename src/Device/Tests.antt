-- ===== src/Device/Tests.antt =====
-- A card that sets up at most three queues, and one that takes two packets at every other call.
use libmoon.Prelude.{
  ℕ, zero, ◌+◌, ◌/◌, ◌%◌, ◌^◌, ◌==◌, ◌≡◌, ◌≤◌, ◌<◌, ◌≢◌, refl, Bool, true, false, none, some, List,
  [], ◌∷◌, ◌++◌, length, take, arith, suc, ltb, if◌then◌else◌, sym, append-nil,
}
use libmoon.Device.Rss.{toeplitz, toeplitz_symmetric}
use libmoon.Device.{
  DevInfo, DeviceConfig, EthCall, dev_start, Ports, dpdk_configure_device, dpdk_get_socket, mtu_of,
  TxQueue, dpdk_send_all_packets, dpdk_send_single_packet, dpdk_try_send_single_packet, other,
}
use libmoon.Device.Configure.{plan, until_error, dpdk_configure_device_lem}
use libmoon.Device.Send.{Drains, dpdk_send_all_packets_lem}

-- The state counts the calls; from the fourth on they fail.
abbrev eth : ℕ → EthCall → ℕ × ℕ
eth calls c = (if ltb calls 3 then 0 else 22, suc calls)

abbrev cfg : DeviceConfig
cfg = record {
  port = 2;
  mempools = λ i. 100 + i;
  rx_queues = 1;
  tx_queues = 1;
  rx_descs = 0;
  tx_descs = 64;
  drop_enable = true;
  enable_rss = false;
  disable_offloads = false;
  strip_vlan = true;
  rss_mask = λ bit. true;
  enable_rss_symm = false;
}

abbrev info : DevInfo
info = record {
  driver = other;
  flow_type_rss_offloads = λ bit. false;
  rx_offload_capa = λ o. true;
  tx_offload_capa = λ o. false;
  max_mtu = 9710;
  pci = some (4294967295, 4096);
}

abbrev ports : Ports eth
ports = record { dev = 0; registers = λ p. none }

socket_unknown : dpdk_get_socket info ≡ 0
unfolding dpdk_get_socket
socket_unknown = refl

mtu_kept : mtu_of info ≡ 9710
unfolding mtu_of
mtu_kept = refl

dpdk_configure_device_lem_example :
    let (rc, after) = dpdk_configure_device eth cfg info ports in
    let before = until_error eth (plan cfg info) 0 in
    ((rc, after.dev) ≡ until_error eth (plan cfg info ++ (dev_start 2 ∷ [])) 0)
    × (before.0 ≡ 0 → after.registers 2 ≡ some 4096)
    × (before.0 ≢ 0 → after.registers 2 ≡ none)
    × ((p : ℕ) → p ≢ 2 → after.registers p ≡ none)
dpdk_configure_device_lem_example = dpdk_configure_device_lem eth cfg info ports

-- The packets that are out, and whether the card is busy.
abbrev burst : List ℕ × Bool → List ℕ → ℕ × (List ℕ × Bool)
burst (sent, true) pkts = (0, (sent, false))
burst (sent, false) pkts = (length (take 2 pkts), (sent ++ take 2 pkts, true))

burst_takes :
    (q : List ℕ × Bool) (pkts : List ℕ)
    → ((burst q pkts).0 ≤ length pkts) × ((burst q pkts).1.0 ≡ q.0 ++ take (burst q pkts).0 pkts)
burst_takes (sent, true) pkts = (omega arith, sym (append-nil sent))
burst_takes (sent, false) [] = (omega arith, refl)
burst_takes (sent, false) (x ∷ []) = (omega arith, refl)
burst_takes (sent, false) (x ∷ y ∷ pkts) = (omega arith, refl)

abbrev slow : TxQueue
slow = record {
  Queue = List ℕ × Bool;
  wire = λ q. q.0;
  tx_burst = burst;
  tx_burst_takes = burst_takes;
}

abbrev waits : List ℕ × Bool → ℕ
waits (sent, true) = 1
waits (sent, false) = 0

waits_bound : (q : List ℕ × Bool) → waits q ≤ 1
waits_bound (sent, true) = omega arith
waits_bound (sent, false) = omega arith

waits_stalls :
    (q : List ℕ × Bool) (pkts : List ℕ)
    → 0 < length pkts
    → (burst q pkts).0 ≡ 0
    → waits (burst q pkts).1 < waits q
waits_stalls (sent, true) pkts h e = omega arith
waits_stalls (sent, false) [] h e = absurd (omega arith)
waits_stalls (sent, false) (x ∷ []) h e = absurd (omega arith)
waits_stalls (sent, false) (x ∷ y ∷ pkts) h e = absurd (omega arith)

abbrev slow_drains : Drains slow
slow_drains = record {
  most = 1;
  patience = waits;
  patience_bound = waits_bound;
  stalls = waits_stalls;
}

single_waits : dpdk_send_single_packet slow 2 ([], true) 7 ≡ some (7 ∷ [], true)
unfolding dpdk_send_single_packet
single_waits = refl

try_gives_up : dpdk_try_send_single_packet slow ([], true) 7 ≡ (0, ([], false))
unfolding dpdk_try_send_single_packet
try_gives_up = refl

dpdk_send_all_packets_lem_example :
    (end : List ℕ × Bool) × (dpdk_send_all_packets slow 8 ([], true) (7 ∷ 8 ∷ 9 ∷ []) ≡ some end)
    × (end.0 ≡ 7 ∷ 8 ∷ 9 ∷ [])
dpdk_send_all_packets_lem_example =
    dpdk_send_all_packets_lem slow slow_drains ([], true) (7 ∷ 8 ∷ 9 ∷ []) (omega arith)

-- The highest bit first.
abbrev bits : ℕ → ℕ → List Bool
bits zero n = []
bits (suc k) n = (n / 2 ^ k % 2 == 1) ∷ bits k n

-- From 10.0.0.1 port 80 to 10.0.0.2 port 1234.
toeplitz_symmetric_example :
    toeplitz (bits 32 167772161 ++ (bits 32 167772162 ++ (bits 16 80 ++ bits 16 1234))) 3
    ≡ toeplitz (bits 32 167772162 ++ (bits 32 167772161 ++ (bits 16 1234 ++ bits 16 80))) 3
toeplitz_symmetric_example =
    toeplitz_symmetric 3 (bits 32 167772161) (bits 32 167772162) (bits 16 80) (bits 16 1234)
      (omega arith) refl refl refl refl

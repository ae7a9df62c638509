-- ===== src/Device.antt =====
-- src/device.c: setting up a network card, and sending on it.
-- A mask of offloads is the set of its flags. The card and its driver (rte_ethdev.h) are parameters.
pub mod Configure
pub mod Send
pub mod Rss
mod Tests
use libmoon.Prelude.{
  ℕ, zero, suc, ◌+◌, ◌-◌, ◌*◌, ◌%◌, ◌^◌, ◌≡◌, ◌≤◌, ◌<◌, Bool, true, false, ◌&&◌, ◌||◌, not, Option,
  none, some, List, [], ◌∷◌, ◌++◌, length, take, drop, leb, if◌then◌else◌, add32, sub32, ◌==◌,
}

pub data Driver : Type 0 where
  net_iavf net_ixgbe net_i40e net_e1000_igb mlx5_pci other : Driver

-- RTE_ETH_RX_OFFLOAD_CHECKSUM stands for the three of them.
pub data RxOffload : Type 0 where
  rx_ipv4_cksum rx_udp_cksum rx_tcp_cksum rx_vlan_strip rx_vlan_extend rx_timestamp rx_scatter :
      RxOffload

pub data TxOffload : Type 0 where
  tx_vlan_insert tx_ipv4_cksum tx_udp_cksum tx_tcp_cksum tx_mbuf_fast_free : TxOffload

-- `struct rte_eth_dev_info`: the fields that the code reads. `pci` is the NUMA node (an `int`) and the
-- address of the first memory resource of a PCI device.
pub record DevInfo : Type 0 where
  pub driver : Driver
  pub flow_type_rss_offloads : ℕ → Bool
  pub rx_offload_capa : RxOffload → Bool
  pub tx_offload_capa : TxOffload → Bool
  pub max_mtu : ℕ
  pub pci : Option (ℕ × ℕ)

-- `struct libmoon_device_config`
pub record DeviceConfig : Type 0 where
  pub port : ℕ
  pub mempools : ℕ → ℕ
  pub rx_queues : ℕ
  pub tx_queues : ℕ
  pub rx_descs : ℕ
  pub tx_descs : ℕ
  pub drop_enable : Bool
  pub enable_rss : Bool
  pub disable_offloads : Bool
  pub strip_vlan : Bool
  pub rss_mask : ℕ → Bool
  pub enable_rss_symm : Bool

-- `struct rte_eth_conf`: what varies of it. `rss` is `rss_conf`, the symmetric key or none, with the
-- mask; without RSS it is zero.
pub record PortConf : Type 0 where
  pub rss : Option (Bool × (ℕ → Bool))
  pub rx_offloads : RxOffload → Bool
  pub tx_offloads : TxOffload → Bool
  pub mtu : ℕ

abbrev pub is_mlx5 : Driver → Bool
is_mlx5 mlx5_pci = true
is_mlx5 net_iavf = false
is_mlx5 net_ixgbe = false
is_mlx5 net_i40e = false
is_mlx5 net_e1000_igb = false
is_mlx5 other = false

-- `is_ixgbe_device || is_i40e_device || is_igb_device`
abbrev pub loses_packets : Driver → Bool
loses_packets net_ixgbe = true
loses_packets net_i40e = true
loses_packets net_e1000_igb = true
loses_packets net_iavf = false
loses_packets mlx5_pci = false
loses_packets other = false

abbrev pub wanted_rx : DeviceConfig → Driver → RxOffload → Bool
wanted_rx cfg driver rx_ipv4_cksum = not cfg.disable_offloads
wanted_rx cfg driver rx_udp_cksum = not cfg.disable_offloads
wanted_rx cfg driver rx_tcp_cksum = not cfg.disable_offloads
wanted_rx cfg driver rx_vlan_strip = not cfg.disable_offloads && cfg.strip_vlan
wanted_rx cfg driver rx_vlan_extend = not cfg.disable_offloads && not (loses_packets driver)
wanted_rx cfg driver rx_timestamp = not cfg.disable_offloads
wanted_rx cfg driver rx_scatter = is_mlx5 driver

pub rx_offloads_of : DeviceConfig → DevInfo → RxOffload → Bool
rx_offloads_of cfg info o = wanted_rx cfg info.driver o && info.rx_offload_capa o

abbrev pub wanted_tx : DeviceConfig → TxOffload → Bool
wanted_tx cfg tx_mbuf_fast_free = true
wanted_tx cfg tx_vlan_insert = not cfg.disable_offloads
wanted_tx cfg tx_ipv4_cksum = not cfg.disable_offloads
wanted_tx cfg tx_udp_cksum = not cfg.disable_offloads
wanted_tx cfg tx_tcp_cksum = not cfg.disable_offloads

pub tx_offloads_of : DeviceConfig → DevInfo → TxOffload → Bool
tx_offloads_of cfg info o = wanted_tx cfg o && info.tx_offload_capa o

pub mtu_of : DevInfo → ℕ
mtu_of info = elim info.driver [
  | net_iavf ↦ sub32 info.max_mtu 4
  | mlx5_pci ↦ 9000
  | net_ixgbe ↦ info.max_mtu
  | net_i40e ↦ info.max_mtu
  | net_e1000_igb ↦ info.max_mtu
  | other ↦ info.max_mtu
]

pub port_conf : DeviceConfig → DevInfo → PortConf
port_conf cfg info = record {
  rss =
      if cfg.enable_rss
      then some (cfg.enable_rss_symm, λ bit. cfg.rss_mask bit && info.flow_type_rss_offloads bit)
      else none;
  rx_offloads = rx_offloads_of cfg info;
  tx_offloads = tx_offloads_of cfg info;
  mtu = mtu_of info;
}

abbrev node_of : Option (ℕ × ℕ) → ℕ
node_of none = 0
node_of (some (node, addr)) = if node == 2 ^ 32 - 1 then 0 else node % 256

pub dpdk_get_socket : DevInfo → ℕ
dpdk_get_socket info = node_of info.pci

-- 40 bytes
abbrev key_pairs : ℕ → List ℕ
key_pairs zero = []
key_pairs (suc n) = 109 ∷ 90 ∷ key_pairs n

abbrev pub symm_rss_hash_key : List ℕ
symm_rss_hash_key = key_pairs 20

-- The calls of rte_ethdev.h that set up a port, with what varies in their arguments.
pub data EthCall : Type 0 where
  dev_configure : ℕ → ℕ → ℕ → PortConf → EthCall
  tx_queue_setup : ℕ → ℕ → ℕ → ℕ → (TxOffload → Bool) → EthCall
  rx_queue_setup : ℕ → ℕ → ℕ → ℕ → Bool → (RxOffload → Bool) → ℕ → EthCall
  dev_start : ℕ → EthCall

abbrev pub tx_call : DeviceConfig → DevInfo → ℕ → EthCall
tx_call cfg info i =
    tx_queue_setup cfg.port i (if cfg.tx_descs == 0 then 256 else cfg.tx_descs)
      (dpdk_get_socket info) (tx_offloads_of cfg info)

abbrev pub rx_call : DeviceConfig → DevInfo → ℕ → EthCall
rx_call cfg info i =
    rx_queue_setup cfg.port i (if cfg.rx_descs == 0 then 512 else cfg.rx_descs)
      (dpdk_get_socket info) cfg.drop_enable (rx_offloads_of cfg info) (cfg.mempools i)

-- `RTE_DEV_TO_PCI(dev_info.device)->mem_resource[0].addr`, or NULL
abbrev pub register_base : Option (ℕ × ℕ) → Option ℕ
register_base none = none
register_base (some (node, addr)) = some addr

-- A call returns 0 or an error code.
module _ {Dev : Type 0} (eth : Dev → EthCall → ℕ × Dev) where
  -- `if (rc) return rc;`
  abbrev pub and_then : ℕ × Dev → (Dev → ℕ × Dev) → ℕ × Dev
  and_then (rc, dev) next = if rc == 0 then next dev else (rc, dev)

  -- The loop over the queues `i`, of which `left` are left.
  pub setup_queues : (ℕ → EthCall) → ℕ → ℕ → Dev → ℕ × Dev
  setup_queues call zero i dev = (0, dev)
  setup_queues call (suc left) i dev = and_then (eth dev (call i)) (setup_queues call left (suc i))

  -- The driver's state, and the array `registers`.
  pub record Ports : Type 0 where
    pub dev : Dev
    pub registers : ℕ → Option ℕ

  abbrev pub start : DeviceConfig → DevInfo → Ports → ℕ × Dev → ℕ × Ports
  start cfg info ports (rc, dev) = (
    rc,
    record {
      dev = dev;
      registers = λ p. if p == cfg.port then register_base info.pci else ports.registers p;
    },
  )

  pub set_up : DeviceConfig → DevInfo → Dev → ℕ × Dev
  set_up cfg info dev =
      and_then (eth dev (dev_configure cfg.port cfg.rx_queues cfg.tx_queues (port_conf cfg info)))
        (λ dev.
          and_then (setup_queues (tx_call cfg info) cfg.tx_queues 0 dev)
            (setup_queues (rx_call cfg info) cfg.rx_queues 0))

  abbrev pub finish : DeviceConfig → DevInfo → Ports → ℕ × Dev → ℕ × Ports
  finish cfg info ports (rc, dev) =
      if rc == 0
      then start cfg info ports (eth dev (dev_start cfg.port))
      else (rc, record ports { dev = dev })

  pub dpdk_configure_device : DeviceConfig → DevInfo → Ports → ℕ × Ports
  dpdk_configure_device cfg info ports = finish cfg info ports (set_up cfg info ports.dev)

-- rte_ethdev.h: a transmit queue, and what has gone out on it.
pub record TxQueue : Type 1 where
  pub Queue : Type 0
  pub wire : Queue → List ℕ
  pub tx_burst : Queue → List ℕ → ℕ × Queue
  -- "the number of output packets actually stored in transmit descriptors"
  pub tx_burst_takes :
      (q : Queue) (pkts : List ℕ)
      → ((tx_burst q pkts).0 ≤ length pkts)
        × (wire (tx_burst q pkts).1 ≡ wire q ++ take (tx_burst q pkts).0 pkts)

module _ (api : TxQueue) where
  -- `dpdk_send_all_packets` on fuel, with `sent` packets sent; `none` means that the fuel ran out.
  unfoldable pub send_loop : ℕ → api.Queue → List ℕ → ℕ → ℕ → Option api.Queue
  send_loop zero q pkts num_pkts sent = none
  send_loop (suc fuel) q pkts num_pkts sent =
      let (n, q') = api.tx_burst q (take (sub32 num_pkts sent % 2 ^ 16) (drop sent pkts)) in
      let rest = send_loop fuel q' pkts num_pkts (add32 sent n) in
      if leb num_pkts (add32 sent n) then some q' else rest

  unfoldable pub dpdk_send_all_packets : ℕ → api.Queue → List ℕ → Option api.Queue
  dpdk_send_all_packets fuel q pkts = send_loop fuel q pkts (length pkts) 0

  -- `dpdk_send_single_packet` on fuel.
  pub dpdk_send_single_packet : ℕ → api.Queue → ℕ → Option api.Queue
  dpdk_send_single_packet zero q pkt = none
  dpdk_send_single_packet (suc fuel) q pkt =
      let (sent, q') = api.tx_burst q (pkt ∷ []) in
      let rest = dpdk_send_single_packet fuel q' pkt in if sent == 0 then rest else some q'

  pub dpdk_try_send_single_packet : api.Queue → ℕ → ℕ × api.Queue
  dpdk_try_send_single_packet q pkt = api.tx_burst q (pkt ∷ [])

-- ===== src/Filter/Types.antt =====
-- src/filter.c: the structures of DPDK that the flow director is shown from, and what is printed.
use Prim.Native.String.{String}
use libmoon.Prelude.{ℕ, List, [], ◌∷◌}

-- A text, a number in decimal padded on the right to a width, a number in hexadecimal padded with
-- zeros on the left to a width.
pub data Piece : Type 0 where
  text : String → Piece
  decimal : ℕ → ℕ → Piece
  hex : ℕ → ℕ → Piece

-- 0, -ENOTSUP, or another error
pub data Ret : Type 0 where
  ok not_supported : Ret
  failed : ℕ → Ret

pub data FlexType : Type 0 where
  raw_payload l2_payload_type l3_payload l4_payload : FlexType
  unknown_payload : ℕ → FlexType

-- `struct rte_eth_flex_payload_cfg`
pub record FlexPayload : Type 0 where
  pub flex_type : FlexType
  pub src_offset : List ℕ

-- `struct rte_eth_fdir_flex_mask`
pub record FlexMask : Type 0 where
  pub flow_type : ℕ
  pub mask : List ℕ

-- `struct rte_eth_fdir_masks`, its numbers in the byte order of the CPU
pub record FdirMasks : Type 0 where
  pub vlan_tci_mask : ℕ
  pub ipv4_src_ip : ℕ
  pub ipv4_dst_ip : ℕ
  pub src_port_mask : ℕ
  pub dst_port_mask : ℕ
  pub ipv6_src_ip : ℕ → ℕ
  pub ipv6_dst_ip : ℕ → ℕ

pub data FdirMode : Type 0 where
  none_mode signature perfect perfect_mac_vlan perfect_tunnel : FdirMode

-- `struct rte_eth_fdir_info`
pub record FdirInfo : Type 0 where
  pub mode : FdirMode
  pub flow_types_mask : ℕ
  pub mask : FdirMasks
  pub guarant_spc : ℕ
  pub best_spc : ℕ
  pub max_flexpayload : ℕ
  pub flex_payload_limit : ℕ
  pub flex_payload_unit : ℕ
  pub max_flex_payload_segment_num : ℕ
  pub flex_bitmask_unit : ℕ
  pub max_flex_bitmask_num : ℕ
  pub nb_payloads : ℕ
  pub flex_set : List FlexPayload
  pub nb_flexmasks : ℕ
  pub flex_mask : List FlexMask

-- `struct rte_eth_fdir_stats`
pub record FdirStats : Type 0 where
  pub collision : ℕ
  pub free : ℕ
  pub maxhash : ℕ
  pub maxlen : ℕ
  pub add : ℕ
  pub remove : ℕ
  pub f_add : ℕ
  pub f_remove : ℕ
  pub guarant_cnt : ℕ
  pub best_cnt : ℕ

pub data FlowType : Type 0 where
  flow_raw flow_ipv4 flow_frag_ipv4 flow_ipv4_tcp flow_ipv4_udp flow_ipv4_sctp : FlowType
  flow_ipv4_other flow_ipv6 flow_frag_ipv6 flow_ipv6_tcp flow_ipv6_udp : FlowType
  flow_ipv6_sctp flow_ipv6_other flow_l2_payload flow_port flow_vxlan flow_geneve : FlowType
  flow_nvgre flow_vxlan_gpe : FlowType

abbrev pub flowtype_str_table : List (String × FlowType)
flowtype_str_table =
    ("raw", flow_raw)
    ∷ ("ipv4", flow_ipv4)
    ∷ ("ipv4-frag", flow_frag_ipv4)
    ∷ ("ipv4-tcp", flow_ipv4_tcp)
    ∷ ("ipv4-udp", flow_ipv4_udp)
    ∷ ("ipv4-sctp", flow_ipv4_sctp)
    ∷ ("ipv4-other", flow_ipv4_other)
    ∷ ("ipv6", flow_ipv6)
    ∷ ("ipv6-frag", flow_frag_ipv6)
    ∷ ("ipv6-tcp", flow_ipv6_tcp)
    ∷ ("ipv6-udp", flow_ipv6_udp)
    ∷ ("ipv6-sctp", flow_ipv6_sctp)
    ∷ ("ipv6-other", flow_ipv6_other)
    ∷ ("l2_payload", flow_l2_payload)
    ∷ ("port", flow_port)
    ∷ ("vxlan", flow_vxlan)
    ∷ ("geneve", flow_geneve)
    ∷ ("nvgre", flow_nvgre)
    ∷ ("vxlan-gpe", flow_vxlan_gpe)
    ∷ []

-- What the code uses of DPDK. The drivers write to the structures that they are given.
pub record Fdir : Type 0 where
  -- the ports of RTE_ETH_FOREACH_DEV
  pub ports : List ℕ
  pub i40e_info : ℕ → FdirInfo → Ret × FdirInfo
  pub i40e_stats : ℕ → FdirStats → Ret × FdirStats
  pub ixgbe_info : ℕ → FdirInfo → Ret × FdirInfo
  pub ixgbe_stats : ℕ → FdirStats → Ret × FdirStats
  -- RTE_ETH_FLOW_..., RTE_ETH_FLOW_UNKNOWN and RTE_ETH_FLOW_MAX
  pub ftype : FlowType → ℕ
  pub flow_unknown : ℕ
  pub flow_max : ℕ
  -- `strerror`
  pub strerror : ℕ → String

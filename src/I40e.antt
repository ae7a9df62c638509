-- ===== src/I40e.antt =====
-- src/i40e.c: what the driver of the card knows about a port.
-- The driver is a parameter: its structures, and `i40e_aq_get_link_info`, which is given a cleared
-- status and leaves one; its result is not looked at.
pub mod Links
mod Tests
use libmoon.Prelude.{ℕ, zero, ◌%◌, Bool, true, false, not, ◌==◌, if◌then◌else◌}

-- I40E_LINK_SPEED_*, with any other number
pub data AqSpeed : Type 0 where
  speed_100mb speed_1gb speed_10gb speed_20gb speed_25gb speed_40gb : AqSpeed
  other_speed : ℕ → AqSpeed

-- `struct i40e_link_status`
pub record AqLink : Type 0 where
  pub link_info : ℕ
  pub link_speed : AqSpeed

-- RTE_ETH_SPEED_NUM_*
pub data SpeedNum : Type 0 where
  num_none num_100m num_1g num_10g num_20g num_25g num_40g num_unknown : SpeedNum

-- `struct rte_eth_link`
pub record EthLink : Type 0 where
  pub link_speed : SpeedNum
  pub full_duplex : Bool
  pub link_autoneg : Bool
  pub link_status : ℕ

-- What the code reads of the private data of a port and of its configuration.
pub record Port : Type 0 where
  pub hw_port : ℕ
  pub main_vsi_seid : ℕ
  pub speed_fixed : Bool

pub dpdk_get_i40e_hw_port : Port → ℕ
dpdk_get_i40e_hw_port port = port.hw_port

pub dpdk_get_i40e_vsi_seid : Port → ℕ
dpdk_get_i40e_vsi_seid port = port.main_vsi_seid

-- The cleared status; no speed of the list is 0.
abbrev pub cleared : AqLink
cleared = record { link_info = 0; link_speed = other_speed 0 }

-- The `switch`; I40E_AQ_LINK_UP is bit 0.
pub parse_speed : ℕ → AqSpeed → SpeedNum
parse_speed status speed_100mb = num_100m
parse_speed status speed_1gb = num_1g
parse_speed status speed_10gb = num_10g
parse_speed status speed_20gb = num_20g
parse_speed status speed_25gb = num_25g
parse_speed status speed_40gb = num_40g
parse_speed status (other_speed n) = if status == 0 then num_none else num_unknown

pub i40e_get_link_status_workaround : (AqLink → AqLink) → Port → EthLink → EthLink
i40e_get_link_status_workaround get_link_info port link =
    let link_status = get_link_info cleared in
    let up : ℕ = link_status.link_info % 2 in
    record link {
      link_status = up;
      link_speed = parse_speed up link_status.link_speed;
      full_duplex = true;
      link_autoneg = not port.speed_fixed;
    }

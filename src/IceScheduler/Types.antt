-- ===== src/IceScheduler/Types.antt =====
-- src/tx_scheduler_ice.c: the structures of the driver that it works on, and what it calls of it.
use libmoon.Prelude.{ℕ, Bool, true, false, Option}

-- `enum ice_status`: success, the two errors that the code makes, and those of the driver.
pub data Status : Type 0 where
  success err_cfg err_param : Status
  aq_error : ℕ → Status

abbrev pub is_error : Status → Bool
is_error success = false
is_error err_cfg = true
is_error err_param = true
is_error (aq_error code) = true

-- `struct ice_aqc_txsched_elem`: the fields that the code reads or writes; `rest` are the others.
pub record Elem : Type 0 where
  pub elem_type : ℕ
  pub valid_sections : ℕ
  pub generic : ℕ
  pub flags : ℕ
  pub rest : ℕ

-- `struct ice_aqc_txsched_elem_data`
pub record ElemData : Type 0 where
  pub parent_teid : ℕ
  pub node_teid : ℕ
  pub elem : Elem

-- `struct ice_sched_node`
pub record SchedNode : Type 0 where
  pub info : ElemData
  pub parent : Option ℕ
  pub sibling : Option ℕ
  pub agg_id : ℕ
  pub tc_num : ℕ

pub data Opcode : Type 0 where
  cfg_sched_elems : Opcode

-- `struct ice_aq_desc` with its `params.sched_elem_cmd`
pub record Desc : Type 0 where
  pub opcode : Opcode
  pub flags : ℕ
  pub num_elem_req : ℕ

pub data AggType : Type 0 where
  agg_vsi agg_agg agg_q agg_qg agg_other : AggType

-- What the code uses of the driver. `Dev` is the card. The masks are those of single bits.
pub record IceDriver : Type 1 where
  pub Dev : Type 0
  pub default_flags : Opcode → ℕ
  -- `ice_aq_send_cmd`: the status, and `num_elem_resp` as the answer leaves it
  pub aq_send_cmd : Dev → Desc → ElemData → ℕ → Status × ℕ × Dev
  -- ICE_AQ_FLAG_RD, ICE_AQC_ELEM_VALID_CIR and ICE_AQC_ELEM_GENERIC_MODE_M
  pub flag_rd : ℕ
  pub valid_cir : ℕ
  pub mode_m : ℕ
  -- ICE_AQC_ELEM_TYPE_TC and ICE_AQC_ELEM_TYPE_LEAF
  pub type_tc : ℕ
  pub type_leaf : ℕ
  -- `sizeof(struct ice_aqc_txsched_elem_data)`
  pub elem_size : ℕ
  -- ICE_AGG_LAYER_OFFSET
  pub agg_layer_offset : ℕ
  pub is_vsi_valid : ℕ → Bool
  -- `ice_get_vsi_ctx(...)->sched.vsi_node[tc]`; the outer `none` is a NULL context
  pub vsi_node : ℕ → Option (ℕ → Option ℕ)
  pub get_tc_node : ℕ → Option ℕ
  pub get_node : ℕ → Option ℕ
  -- `ice_get_lan_q_ctx(hw, vsi, tc, queue)->q_teid`
  pub lan_q_teid : ℕ → ℕ → ℕ → Option ℕ
  pub find_node_by_teid : Option ℕ → ℕ → Option ℕ

-- `struct ice_port_info`; `with_hw` is whether its `hw` is set.
pub record PortInfo : Type 0 where
  pub with_hw : Bool
  pub sib_head : ℕ → ℕ → Option ℕ
  pub root : Option ℕ
  pub num_tx_sched_layers : ℕ
  pub sw_entry_point_layer : ℕ

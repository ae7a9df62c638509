-- ===== src/IceScheduler.antt =====
-- src/tx_scheduler_ice.c: switching the transmit scheduler of an E810 card to packets per second.
-- A `struct ice_sched_node*` is an address, `none` is NULL, and the nodes are a function from
-- addresses. The driver under the code (ice_sched.h, ice_common.h) is a parameter; the CPU is
-- little-endian, so that CPU_TO_LE16 and LE16_TO_CPU do nothing.
pub mod Agg
pub mod Update
pub mod Pps
mod Types
mod Tests
pub use Types.*
use libmoon.Prelude.{
  ℕ, zero, suc, ◌+◌, ◌-◌, ◌*◌, ◌%◌, ◌^◌, Bool, true, false, not, Option, none, some, ◌==◌, ltb,
  if◌then◌else◌, with_bit, without_bit,
}

pub ice_sched_get_agg_layer : ℕ → PortInfo → ℕ
ice_sched_get_agg_layer offset hw =
    let layer : ℕ = (hw.num_tx_sched_layers - offset) % 2 ^ 8 in
    if ltb (offset + 1) hw.num_tx_sched_layers
    then (if ltb hw.sw_entry_point_layer layer then layer else hw.sw_entry_point_layer)
    else hw.sw_entry_point_layer

pub ice_sched_get_first_node : (ℕ → SchedNode) → PortInfo → ℕ → ℕ → Option ℕ
ice_sched_get_first_node nodes pi parent layer = pi.sib_head (nodes parent).tc_num layer

-- The `while` of `ice_sched_get_agg_node` on fuel; the outer `none` means that the fuel ran out.
pub find_agg : ℕ → (ℕ → SchedNode) → ℕ → Option ℕ → Option (Option ℕ)
find_agg zero nodes agg_id _ = none
find_agg (suc fuel) nodes agg_id none = some none
find_agg (suc fuel) nodes agg_id (some p) =
    let rest = find_agg fuel nodes agg_id (nodes p).sibling in
    if (nodes p).agg_id == agg_id then some (some p) else rest

module _ (api : IceDriver) where
  -- The state: the nodes, the card, and whether `sched_lock` is held.
  pub record Hw : Type 0 where
    pub nodes : ℕ → SchedNode
    pub dev : api.Dev
    pub locked : Bool

  pub ice_aqc_send_sched_elem_cmd : api.Dev → Opcode → ℕ → ElemData → ℕ → ℕ → Status × ℕ × api.Dev
  ice_aqc_send_sched_elem_cmd dev opc elems_req buf buf_size elems_resp =
      let desc : Desc = record {
        opcode = opc;
        flags = with_bit api.flag_rd (api.default_flags opc);
        num_elem_req = elems_req;
      } in
      let (status, num_elem_resp, dev') = api.aq_send_cmd dev desc buf buf_size in
      (status, if is_error status then elems_resp else num_elem_resp, dev')

  pub ice_aq_cfg_sched_elems : api.Dev → ℕ → ElemData → ℕ → ℕ → Status × ℕ × api.Dev
  unfolding ice_aqc_send_sched_elem_cmd
  ice_aq_cfg_sched_elems dev = ice_aqc_send_sched_elem_cmd dev cfg_sched_elems

  -- The copy of `info` that is sent: what is reserved in this call is cleared.
  abbrev pub request : SchedNode → ElemData → ElemData
  request node info = record info {
    parent_teid = 0;
    elem = record (info.elem) {
      valid_sections =
          if node.info.elem.elem_type == api.type_tc
          then without_bit api.valid_cir info.elem.valid_sections
          else info.elem.valid_sections;
      elem_type = 0;
      flags = 0;
    };
  }

  abbrev pub set_elem : (ℕ → SchedNode) → ℕ → Elem → ℕ → SchedNode
  set_elem nodes p elem q =
      if q == p
      then record (nodes p) { info = record ((nodes p).info) { elem = elem } }
      else nodes q

  -- The end of `ice_sched_update_elem`, on the answer to its command.
  abbrev pub answered : Hw → ℕ → ElemData → Status × ℕ × api.Dev → Status × Hw
  answered hw p info (status, elem_cfgd, dev) =
      if is_error status
      then (err_cfg, record hw { dev = dev })
      else if elem_cfgd == 1
      then (status, record hw { dev = dev; nodes = set_elem hw.nodes p info.elem })
      else (err_cfg, record hw { dev = dev })

  pub ice_sched_update_elem : Hw → ℕ → ElemData → Status × Hw
  unfolding ice_aq_cfg_sched_elems
  ice_sched_update_elem hw p info =
      answered hw p info
        (ice_aq_cfg_sched_elems hw.dev 1 (request (hw.nodes p) info) api.elem_size 0)

  pub ice_sched_get_agg_node : ℕ → (ℕ → SchedNode) → PortInfo → ℕ → ℕ → Option (Option ℕ)
  unfolding ice_sched_get_first_node ice_sched_get_agg_layer
  ice_sched_get_agg_node fuel nodes pi tc_node agg_id =
      if pi.with_hw
      then find_agg fuel nodes agg_id (
          ice_sched_get_first_node nodes pi tc_node
            (ice_sched_get_agg_layer api.agg_layer_offset pi))
      else some none

  abbrev pub of_context : ℕ → Option (ℕ → Option ℕ) → Option ℕ
  of_context tc none = none
  of_context tc (some vsi_node) = vsi_node tc

  abbrev pub parent_of : (ℕ → SchedNode) → Option ℕ → Option ℕ
  parent_of nodes none = none
  parent_of nodes (some child) = (nodes child).parent

  abbrev agg_below : ℕ → (ℕ → SchedNode) → PortInfo → ℕ → Option ℕ → Option (Option ℕ)
  agg_below fuel nodes pi id none = some none
  agg_below fuel nodes pi id (some tc_node) = ice_sched_get_agg_node fuel nodes pi tc_node id

  -- The outer `none` means that the fuel ran out.
  pub ice_sched_get_node_by_id_type :
      ℕ → (ℕ → SchedNode) → PortInfo → ℕ → AggType → ℕ → Option (Option ℕ)
  ice_sched_get_node_by_id_type fuel nodes pi id agg_vsi tc =
      let vsi_handle : ℕ = id % 2 ^ 16 in
      some (if api.is_vsi_valid vsi_handle then of_context tc (api.vsi_node vsi_handle) else none)
  ice_sched_get_node_by_id_type fuel nodes pi id agg_agg tc =
      agg_below fuel nodes pi id (api.get_tc_node tc)
  ice_sched_get_node_by_id_type fuel nodes pi id agg_q tc = some (api.get_node id)
  ice_sched_get_node_by_id_type fuel nodes pi id agg_qg tc =
      some (parent_of nodes (api.get_node id))
  ice_sched_get_node_by_id_type fuel nodes pi id agg_other tc = some none

  -- `buf = node->info`, with the mode bit set or cleared
  abbrev pub with_mode : Bool → ElemData → ElemData
  with_mode pps info = record info {
    elem = record (info.elem) {
      generic =
          if pps
          then with_bit api.mode_m info.elem.generic
          else without_bit api.mode_m info.elem.generic;
    };
  }

  abbrev pub acquire : Hw → Hw
  acquire hw = record hw { locked = true }

  -- `exit_...:` the lock is given back; the Boolean is whether the error message is printed.
  abbrev pub release : Status × Hw → Bool × Hw
  release (status, hw) = (is_error status, record hw { locked = false })

  abbrev pub set_mode : Bool → Hw → ℕ → Status × Hw
  set_mode pps hw p = ice_sched_update_elem hw p (with_mode pps (hw.nodes p).info)

  abbrev pub set_found : Bool → Hw → Option ℕ → Status × Hw
  set_found pps hw none = (err_param, hw)
  set_found pps hw (some p) = set_mode pps hw p

  abbrev pub by_id : Bool → Hw → Option (Option ℕ) → Status × Hw
  by_id pps hw none = (err_param, hw)
  by_id pps hw (some node) = set_found pps hw node

  -- `port_info` of the port, if it has one, and the index of its main VSI; looking that up does not
  -- loop, so no fuel is needed.
  pub ice_tx_sched_set_pps_port : Option PortInfo → ℕ → Bool → Hw → Bool × Hw
  unfolding ice_sched_update_elem ice_sched_get_node_by_id_type
  ice_tx_sched_set_pps_port none main_vsi pps hw = (true, hw)
  ice_tx_sched_set_pps_port (some pi) main_vsi pps hw =
      release
        (by_id pps (acquire hw) (ice_sched_get_node_by_id_type 0 hw.nodes pi main_vsi agg_vsi 0))

  abbrev pub set_leaf : Bool → Hw → Option ℕ → Status × Hw
  set_leaf pps hw none = (err_param, hw)
  set_leaf pps hw (some p) =
      if (hw.nodes p).info.elem.elem_type == api.type_leaf
      then set_mode pps hw p
      else (err_param, hw)

  abbrev pub by_teid : Bool → Hw → PortInfo → Option ℕ → Status × Hw
  by_teid pps hw pi none = (err_param, hw)
  by_teid pps hw pi (some q_teid) = set_leaf pps hw (api.find_node_by_teid pi.root q_teid)

  -- `none` is the use of a NULL `port_info`, which this function does not look for.
  pub ice_tx_sched_set_pps_queue : Option PortInfo → ℕ → ℕ → Bool → Hw → Option (Bool × Hw)
  unfolding ice_sched_update_elem
  ice_tx_sched_set_pps_queue none main_vsi queue pps hw = none
  ice_tx_sched_set_pps_queue (some pi) main_vsi queue pps hw = some (
      if api.is_vsi_valid main_vsi
      then release (by_teid pps (acquire hw) pi (api.lan_q_teid main_vsi 0 queue))
      else (true, hw))

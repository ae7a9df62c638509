-- ===== src/IceScheduler/Tests.antt =====
-- A card with two queues: node 5 is the VSI's, node 7 the leaf of queue 1, node 8 no leaf.
use libmoon.Prelude.{
  ℕ, ◌+◌, ◌≡◌, refl, true, false, none, some, [], ◌∷◌, arith, ◌==◌, if◌then◌else◌,
}
use libmoon.IceScheduler.{
  success, aq_error, ElemData, SchedNode, IceDriver, PortInfo, Hw, ice_sched_get_agg_layer,
  ice_sched_get_agg_node, ice_tx_sched_set_pps_port, ice_tx_sched_set_pps_queue,
  ice_sched_update_elem, ice_sched_get_node_by_id_type, agg_qg, request,
}
use libmoon.IceScheduler.Agg.{first_with, ice_sched_get_agg_node_lem}
use libmoon.IceScheduler.Update.{IsRequest, Answered, ice_sched_update_elem_lem}
use libmoon.IceScheduler.Pps.{Switched, ice_tx_sched_set_pps_port_lem}

-- The card counts its commands, and refuses all but the first.
abbrev driver : IceDriver
driver = record {
  Dev = ℕ;
  default_flags = λ opc. 0;
  aq_send_cmd = λ dev desc buf size. (if dev == 0 then success else aq_error 5, 1, dev + 1);
  flag_rd = 10;
  valid_cir = 1;
  mode_m = 0;
  type_tc = 2;
  type_leaf = 5;
  elem_size = 56;
  agg_layer_offset = 6;
  is_vsi_valid = λ vsi. vsi == 3;
  vsi_node = λ vsi. some (λ tc. if tc == 0 then some 5 else none);
  get_tc_node = λ tc. some 2;
  get_node = λ teid. some teid;
  lan_q_teid = λ vsi tc queue. some (queue + 6);
  find_node_by_teid = λ root teid. some teid;
}

abbrev elem : ℕ → ElemData
elem p = record {
  parent_teid = 1;
  node_teid = p;
  elem = record {
    elem_type = if p == 7 then 5 else 2;
    valid_sections = 3;
    generic = 4;
    flags = 0;
    rest = 0;
  };
}

abbrev nodes : ℕ → SchedNode
nodes p = record {
  info = elem p;
  parent = if p == 7 then some 5 else none;
  sibling = if p == 5 then some 6 else none;
  agg_id = p + 10;
  tc_num = 0;
}

abbrev port : PortInfo
port = record {
  with_hw = true;
  sib_head = λ tc layer. if layer == 3 then some 5 else none;
  root = some 0;
  num_tx_sched_layers = 9;
  sw_entry_point_layer = 2;
}

abbrev idle : Hw driver
idle = record { nodes = nodes; dev = 0; locked = false }

third_layer : ice_sched_get_agg_layer 6 port ≡ 3
unfolding ice_sched_get_agg_layer
third_layer = refl

queue_group : ice_sched_get_node_by_id_type driver 0 nodes port 7 agg_qg 0 ≡ some (some 5)
unfolding ice_sched_get_node_by_id_type
queue_group = refl

no_port_info : ice_tx_sched_set_pps_port driver none 3 true idle ≡ (true, idle)
unfolding ice_tx_sched_set_pps_port
no_port_info = refl

no_leaf :
    ice_tx_sched_set_pps_queue driver (some port) 3 2 true idle
    ≡ some (true, record idle { locked = false })
unfolding ice_tx_sched_set_pps_queue
no_leaf = refl

ice_sched_get_agg_node_lem_example :
    ice_sched_get_agg_node driver 3 nodes port 2 16 ≡ some (first_with nodes 16 (5 ∷ 6 ∷ []))
ice_sched_get_agg_node_lem_example =
    ice_sched_get_agg_node_lem driver 3 nodes port 2 16 (5 ∷ 6 ∷ []) refl (omega arith)
      (omega arith) (refl, (refl, refl))

ice_sched_update_elem_lem_example :
    let (result, after) = ice_sched_update_elem driver idle 5 (elem 9) in
    (after.dev ≡ 1)
    × IsRequest driver (nodes 5) (elem 9) (request driver (nodes 5) (elem 9))
    × Answered driver idle 5 (elem 9) success 1 result after
ice_sched_update_elem_lem_example = ice_sched_update_elem_lem driver idle 5 (elem 9)

ice_tx_sched_set_pps_port_lem_example :
    let (failed, after) = ice_tx_sched_set_pps_port driver (some port) 3 true idle in
    Switched driver true (some 5) idle failed after
ice_tx_sched_set_pps_port_lem_example =
    ice_tx_sched_set_pps_port_lem driver port 3 true idle (omega arith)

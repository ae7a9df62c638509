-- ===== src/IceScheduler/Agg.antt =====
-- The search for an aggregator among the nodes of a layer.
use libmoon.Prelude.{
  ℕ, zero, suc, ◌-◌, ◌^◌, ◌<◌, leb, max, ◌≡◌, refl, true, Option, none, some, List, [], ◌∷◌, length,
  arith, ◌==◌, if◌then◌else◌,
}
use libmoon.IceScheduler.{
  SchedNode, PortInfo, IceDriver, find_agg, ice_sched_get_agg_layer, ice_sched_get_first_node,
  ice_sched_get_agg_node,
}

-- The nodes that hang together by `sibling`, from `start` to a NULL.
abbrev pub Chain : (ℕ → SchedNode) → Option ℕ → List ℕ → Type 0
Chain nodes start [] = start ≡ none
Chain nodes start (p ∷ ps) = (start ≡ some p) × Chain nodes (nodes p).sibling ps

abbrev pub first_with : (ℕ → SchedNode) → ℕ → List ℕ → Option ℕ
first_with nodes agg_id [] = none
first_with nodes agg_id (p ∷ ps) =
    if (nodes p).agg_id == agg_id then some p else first_with nodes agg_id ps

find_agg_lem :
    (fuel : ℕ) (nodes : ℕ → SchedNode) (agg_id : ℕ) (start : Option ℕ) (ps : List ℕ)
    → length ps < fuel
    → Chain nodes start ps
    → find_agg fuel nodes agg_id start ≡ some (first_with nodes agg_id ps)
unfolding find_agg
find_agg_lem zero nodes agg_id start ps h c = absurd (omega arith)
find_agg_lem (suc fuel) nodes agg_id none [] h c = refl
find_agg_lem (suc fuel) nodes agg_id (some p) [] h c = cc
find_agg_lem (suc fuel) nodes agg_id none (q ∷ qs) h c = cc
find_agg_lem (suc fuel) nodes agg_id (some p) (q ∷ qs) h c =
    ground (arith, find_agg_lem fuel nodes agg_id (nodes q).sibling qs)

-- The layer of the aggregators: it is `offset` layers above the leaves of a tree that is high enough,
-- but not above the entry point of the software, which it is in a lower tree.
abbrev pub agg_layer : ℕ → ℕ → ℕ → ℕ
agg_layer offset layers entry =
    if leb layers (suc offset) then entry else max (layers - offset) entry

ice_sched_get_agg_layer_lem :
    (offset : ℕ) (pi : PortInfo)
    → pi.num_tx_sched_layers < 2 ^ 8
    → ice_sched_get_agg_layer offset pi
      ≡ agg_layer offset pi.num_tx_sched_layers pi.sw_entry_point_layer
unfolding ice_sched_get_agg_layer
ice_sched_get_agg_layer_lem offset pi h = ground arith

-- On a port that has its card, of fewer than 2 ^ 8 layers: with more fuel than the layer of the
-- aggregators has nodes in the traffic class, `ice_sched_get_agg_node` ends and finds the first of
-- them with the wanted number, or none if there is none. The layer is the number of layers less
-- ICE_AGG_LAYER_OFFSET, or the entry point of the software where that is greater; it is the entry
-- point, too, when there are at most ICE_AGG_LAYER_OFFSET + 1 layers.
pub ice_sched_get_agg_node_lem :
    (api : IceDriver) (fuel : ℕ) (nodes : ℕ → SchedNode) (pi : PortInfo) (tc_node agg_id : ℕ)
    (ps : List ℕ)
    → pi.with_hw ≡ true
    → pi.num_tx_sched_layers < 2 ^ 8
    → length ps < fuel
    → Chain nodes
        (pi.sib_head
          (nodes tc_node).tc_num
          (agg_layer api.agg_layer_offset pi.num_tx_sched_layers pi.sw_entry_point_layer))
        ps
    → ice_sched_get_agg_node api fuel nodes pi tc_node agg_id ≡ some (first_with nodes agg_id ps)
unfolding ice_sched_get_agg_node ice_sched_get_first_node
ice_sched_get_agg_node_lem api fuel nodes pi tc_node agg_id ps h layers enough c =
    rw (h, ice_sched_get_agg_layer_lem api.agg_layer_offset pi layers)
      (find_agg_lem fuel nodes agg_id
        (pi.sib_head (nodes tc_node).tc_num
          (agg_layer api.agg_layer_offset pi.num_tx_sched_layers pi.sw_entry_point_layer))
        ps enough c)

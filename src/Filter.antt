-- ===== src/Filter.antt =====
-- src/filter.c: showing the flow director of a card, that is the filters that it has in hardware.
-- What is printed is the list of its pieces; a use of an array out of range is a fault, `none`. The
-- drivers (rte_pmd_i40e.h, rte_pmd_ixgbe.h) and the numbers that DPDK gives to flow types are
-- parameters.
pub mod Types
pub mod Print
pub mod FlowTypes
pub mod Infos
mod Tests
use Prim.Native.String.{String}
use libmoon.Prelude.{
  ℕ, zero, suc, ◌+◌, ◌-◌, ◌%◌, ◌^◌, Bool, true, false, not, ◌&&◌, Option, none, some, List, [], ◌∷◌,
  ◌++◌, length, get_elem?, ◌==◌, ltb, has_bit, if◌then◌else◌,
}
use libmoon.Filter.Types.{
  Piece, text, decimal, hex, Ret, ok, not_supported, failed, FlexType, raw_payload, l2_payload_type,
  l3_payload, l4_payload, unknown_payload, FlexPayload, FlexMask, FdirMasks, FdirMode, none_mode,
  signature, perfect, perfect_mac_vlan, perfect_tunnel, FdirInfo, FdirStats, FlowType,
  flowtype_str_table, Fdir,
}
use libmoon.Filter.Print.{
  print_byte, each, then_newline, ◌then_print◌, print_fdir_mask, print_fdir_flex_payload,
}

abbrev pub is_port : ℕ → List ℕ → Bool
is_port port_id [] = false
is_port port_id (pid ∷ pids) = if port_id == pid then true else is_port port_id pids

-- `enum print_warning`: whether it is ENABLED_WARN
pub port_id_is_invalid : List ℕ → ℕ → Bool → Bool × List Piece
port_id_is_invalid pids port_id warning =
    if port_id == 65535
    then (false, [])
    else if is_port port_id pids
    then (false, [])
    else (true, if warning then text "Invalid port " ∷ decimal 0 port_id ∷ text "\n" ∷ [] else [])

module _ (api : Fdir) where
  abbrev pub search_table : ℕ → List (String × FlowType) → Option String
  search_table flow_type [] = none
  search_table flow_type ((str, t) ∷ table) =
      if api.ftype t == flow_type then some str else search_table flow_type table

  pub flowtype_to_str : ℕ → Option String
  flowtype_to_str flow_type = search_table flow_type flowtype_str_table

  abbrev pub or_unknown : Option String → String
  or_unknown none = "unknown"
  or_unknown (some p) = p

  abbrev pub mask_title : FlexMask → List Piece
  mask_title mask =
      text "\n    " ∷ text (or_unknown (flowtype_to_str mask.flow_type)) ∷ text ":\t" ∷ []

  abbrev pub print_mask : ℕ → List FlexMask → ℕ → Option (List Piece)
  print_mask num flex_mask i = elim (get_elem? flex_mask i) [
    | none ↦ none
    | some mask ↦ some (mask_title mask) then_print each num 0 (print_byte mask.mask)
  ]

  pub print_fdir_flex_mask : FdirInfo → ℕ → Option (List Piece)
  unfolding each
  print_fdir_flex_mask conf num =
      then_newline (each conf.nb_flexmasks 0 (print_mask num conf.flex_mask))

  -- The loop of `print_fdir_flow_type` from `i` on.
  pub print_types : ℕ → ℕ → ℕ → List Piece
  unfolding flowtype_to_str
  print_types zero i flow_types_mask = []
  print_types (suc left) i flow_types_mask =
      let rest = print_types left (suc i) flow_types_mask in
      if has_bit i flow_types_mask
      then text " " ∷ text (or_unknown (flowtype_to_str i)) ∷ rest
      else rest

  pub print_fdir_flow_type : ℕ → List Piece
  unfolding print_types
  print_fdir_flow_type flow_types_mask =
      print_types (api.flow_max - api.flow_unknown) api.flow_unknown flow_types_mask
      ++ (text "\n" ∷ [])

  -- `if (!ret) ret = ..._get_fdir_stats(...)`
  abbrev pub with_stats :
      (FdirStats → Ret × FdirStats) → FdirStats → Ret × FdirInfo → Ret × FdirInfo × FdirStats
  with_stats get_stats stats (ok, info) = let (ret, stats') = get_stats stats in (ret, info, stats')
  with_stats get_stats stats (not_supported, info) = (not_supported, info, stats)
  with_stats get_stats stats (failed code, info) = (failed code, info, stats)

  abbrev pub try_ixgbe : ℕ → Ret × FdirInfo × FdirStats → Ret × FdirInfo × FdirStats
  try_ixgbe port_id (ok, info, stats) = (ok, info, stats)
  try_ixgbe port_id (not_supported, info, stats) =
      with_stats (api.ixgbe_stats port_id) stats (api.ixgbe_info port_id info)
  try_ixgbe port_id (failed code, info, stats) = (failed code, info, stats)

  abbrev pub complain : ℕ → Ret → List Piece
  complain port_id ok = []
  complain port_id not_supported =
      text "\n FDIR is not supported on port " ∷ decimal 2 port_id ∷ text "\n" ∷ []
  complain port_id (failed code) =
      text "programming error: (" ∷ text (api.strerror code) ∷ text ")\n" ∷ []

  pub get_fdir_info : ℕ → FdirInfo → FdirStats → (Ret × FdirInfo × FdirStats) × List Piece
  get_fdir_info port_id info stats =
      let got =
        try_ixgbe port_id
          (with_stats (api.i40e_stats port_id) stats (api.i40e_info port_id info)) in
      (got, complain port_id got.0)

  abbrev pub mode_name : FdirMode → String
  mode_name perfect = "  PERFECT\n"
  mode_name perfect_mac_vlan = "  PERFECT-MAC-VLAN\n"
  mode_name perfect_tunnel = "  PERFECT-TUNNEL\n"
  mode_name signature = "  SIGNATURE\n"
  mode_name none_mode = "  DISABLE\n"

  abbrev pub shows_types : FdirMode → Bool
  shows_types perfect = true
  shows_types perfect_mac_vlan = false
  shows_types perfect_tunnel = false
  shows_types signature = true
  shows_types none_mode = true

  -- The lines from the head to the mask.
  abbrev pub print_head : ℕ → FdirInfo → List Piece
  print_head port_id info =
      text "\n  ######################## FDIR infos for port "
      ∷ decimal 2 port_id
      ∷ text "     ########################\n  MODE: "
      ∷ text (mode_name info.mode)
      ∷ ((if shows_types info.mode
            then text "  SUPPORTED FLOW TYPE: " ∷ print_fdir_flow_type info.flow_types_mask
            else [])
          ++ (text "  FLEX PAYLOAD INFO:\n  max_len:       "
              ∷ decimal 10 info.max_flexpayload
              ∷ text "  payload_limit: "
              ∷ decimal 10 info.flex_payload_limit
              ∷ text "\n  payload_unit:  "
              ∷ decimal 10 info.flex_payload_unit
              ∷ text "  payload_seg:   "
              ∷ decimal 10 info.max_flex_payload_segment_num
              ∷ text "\n  bitmask_unit:  "
              ∷ decimal 10 info.flex_bitmask_unit
              ∷ text "  bitmask_num:   "
              ∷ decimal 10 info.max_flex_bitmask_num
              ∷ text "\n  MASK: "
              ∷ print_fdir_mask info.mask))

  abbrev pub print_tail : FdirInfo → FdirStats → List Piece
  print_tail info stat =
      text "  guarant_count: "
      ∷ decimal 10 stat.guarant_cnt
      ∷ text "  best_count:    "
      ∷ decimal 0 stat.best_cnt
      ∷ text "\n  guarant_space: "
      ∷ decimal 10 info.guarant_spc
      ∷ text "  best_space:    "
      ∷ decimal 0 info.best_spc
      ∷ text "\n  collision:     "
      ∷ decimal 10 stat.collision
      ∷ text "  free:          "
      ∷ decimal 0 stat.free
      ∷ text "\n  maxhash:       "
      ∷ decimal 10 stat.maxhash
      ∷ text "  maxlen:        "
      ∷ decimal 0 stat.maxlen
      ∷ text "\n  add:\t         "
      ∷ decimal 10 stat.add
      ∷ text "  remove:        "
      ∷ decimal 0 stat.remove
      ∷ text "\n  f_add:         "
      ∷ decimal 10 stat.f_add
      ∷ text "  f_remove:      "
      ∷ decimal 0 stat.f_remove
      ∷ text "\n  ####################################################\n"
      ∷ []

  abbrev pub flex_parts : FdirInfo → Option (List Piece)
  flex_parts info =
      (if ltb 0 info.nb_payloads
        then some (text "  FLEX PAYLOAD SRC OFFSET:" ∷ [])
          then_print print_fdir_flex_payload info info.max_flexpayload
        else some [])
      then_print (if ltb 0 info.nb_flexmasks
          then some (text "  FLEX MASK CFG:" ∷ [])
            then_print print_fdir_flex_mask info info.max_flexpayload
          else some [])

  abbrev pub show : ℕ → Ret × FdirInfo × FdirStats → Option (List Piece)
  show port_id (ok, info, stat) =
      some (print_head port_id info)
      then_print flex_parts info
      then_print some (print_tail info stat)
  show port_id (not_supported, info, stat) = some []
  show port_id (failed code, info, stat) = some []

  -- `zero_info` and `zero_stat` are the structures after `memset`; the port is an `int`, of which the
  -- callees take 16 bits.
  pub fdir_get_infos : FdirInfo → FdirStats → ℕ → Option (List Piece)
  unfolding port_id_is_invalid get_fdir_info
  fdir_get_infos zero_info zero_stat port_id =
      let id : ℕ = port_id % 2 ^ 16 in
      let (invalid, warned) = port_id_is_invalid api.ports id true in
      let (got, complaint) = get_fdir_info id zero_info zero_stat in
      if invalid then some warned else some complaint then_print show port_id got

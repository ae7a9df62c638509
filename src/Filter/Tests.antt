-- ===== src/Filter/Tests.antt =====
-- A card of the ixgbe driver at port 0 with one flexible payload; flow types have the numbers of
-- their places in the table.
use libmoon.Prelude.{
  ℕ, zero, suc, ◌≤◌, get_elem?, length, ◌≡◌, ◌≢◌, refl, true, false, none, some, List, [], ◌∷◌,
  arith, ◌==◌, if◌then◌else◌, ◌⊎◌, sym, ap, ◌∙◌,
}
use libmoon.Filter.Types.{
  Piece, text, decimal, ok, not_supported, failed, raw_payload, FlexPayload, FdirMasks, signature,
  FdirInfo, FdirStats, FlowType, flow_raw, flow_ipv4, flow_frag_ipv4, flow_ipv4_tcp, flow_ipv4_udp,
  flow_ipv4_sctp, flow_ipv4_other, flow_ipv6, flow_frag_ipv6, flow_ipv6_tcp, flow_ipv6_udp,
  flow_ipv6_sctp, flow_ipv6_other, flow_l2_payload, flow_port, flow_vxlan, flow_geneve, flow_nvgre,
  flow_vxlan_gpe, Fdir,
}
use libmoon.Filter.Print.{print_fdir_flex_payload}
use libmoon.Filter.{
  complain, print_fdir_flow_type, get_fdir_info, fdir_get_infos, port_id_is_invalid, is_port,
}
use libmoon.Filter.Infos.{Fits, fdir_get_infos_lem}

abbrev place : FlowType → ℕ
place flow_raw = 1
place flow_ipv4 = 2
place flow_frag_ipv4 = 3
place flow_ipv4_tcp = 4
place flow_ipv4_udp = 5
place flow_ipv4_sctp = 6
place flow_ipv4_other = 7
place flow_ipv6 = 8
place flow_frag_ipv6 = 9
place flow_ipv6_tcp = 10
place flow_ipv6_udp = 11
place flow_ipv6_sctp = 12
place flow_ipv6_other = 13
place flow_l2_payload = 14
place flow_port = 18
place flow_vxlan = 19
place flow_geneve = 20
place flow_nvgre = 21
place flow_vxlan_gpe = 22

abbrev type_at : ℕ → FlowType
type_at n =
    if n == 1
    then flow_raw
    else if n == 2
    then flow_ipv4
    else if n == 3
    then flow_frag_ipv4
    else if n == 4
    then flow_ipv4_tcp
    else if n == 5
    then flow_ipv4_udp
    else if n == 6
    then flow_ipv4_sctp
    else if n == 7
    then flow_ipv4_other
    else if n == 8
    then flow_ipv6
    else if n == 9
    then flow_frag_ipv6
    else if n == 10
    then flow_ipv6_tcp
    else if n == 11
    then flow_ipv6_udp
    else if n == 12
    then flow_ipv6_sctp
    else if n == 13
    then flow_ipv6_other
    else if n == 14
    then flow_l2_payload
    else if n == 18
    then flow_port
    else if n == 19
    then flow_vxlan
    else if n == 20
    then flow_geneve
    else if n == 21
    then flow_nvgre
    else flow_vxlan_gpe

type_at-place : (t : FlowType) → type_at (place t) ≡ t
type_at-place flow_raw = refl
type_at-place t = refl

abbrev no_masks : FdirMasks
no_masks = record {
  vlan_tci_mask = 0;
  ipv4_src_ip = 0;
  ipv4_dst_ip = 0;
  src_port_mask = 0;
  dst_port_mask = 0;
  ipv6_src_ip = λ i. 0;
  ipv6_dst_ip = λ i. 0;
}

abbrev blank : FdirInfo
blank = record {
  mode = signature;
  flow_types_mask = 0;
  mask = no_masks;
  guarant_spc = 0;
  best_spc = 0;
  max_flexpayload = 0;
  flex_payload_limit = 0;
  flex_payload_unit = 0;
  max_flex_payload_segment_num = 0;
  flex_bitmask_unit = 0;
  max_flex_bitmask_num = 0;
  nb_payloads = 0;
  flex_set = [];
  nb_flexmasks = 0;
  flex_mask = [];
}

abbrev flexible : FdirInfo
flexible = record blank {
  max_flexpayload = 2;
  nb_payloads = 1;
  flex_set = record { flex_type = raw_payload; src_offset = 12 ∷ 13 ∷ [] } ∷ [];
}

abbrev no_stats : FdirStats
no_stats = record {
  collision = 0;
  free = 0;
  maxhash = 0;
  maxlen = 0;
  add = 0;
  remove = 0;
  f_add = 0;
  f_remove = 0;
  guarant_cnt = 0;
  best_cnt = 0;
}

abbrev card : Fdir
card = record {
  ports = 0 ∷ 1 ∷ [];
  i40e_info = λ port info. (not_supported, info);
  i40e_stats = λ port stats. (ok, stats);
  ixgbe_info = λ port info. (if port == 0 then ok else failed 19, flexible);
  ixgbe_stats = λ port stats. (ok, stats);
  ftype = place;
  flow_unknown = 0;
  flow_max = 24;
  strerror = λ code. "No such device";
}

known_types :
    print_fdir_flow_type card 36
    ≡ text " " ∷ text "ipv4" ∷ text " " ∷ text "ipv4-udp" ∷ text "\n" ∷ []
unfolding print_fdir_flow_type
known_types = refl

offsets_shown :
    print_fdir_flex_payload flexible 2
    ≡ some
        (text "\n    RAW:  " ∷ text "  " ∷ decimal 5 12 ∷ text "  " ∷ decimal 5 13 ∷ text "\n" ∷ [])
unfolding print_fdir_flex_payload
offsets_shown = refl

offsets_past_end : print_fdir_flex_payload flexible 3 ≡ none
unfolding print_fdir_flex_payload
offsets_past_end = refl

all_ports_pass : port_id_is_invalid [] 65535 true ≡ (false, [])
unfolding port_id_is_invalid
all_ports_pass = refl

place_inj : (t u : FlowType) → place t ≡ place u → t ≡ u
place_inj t u h = sym (type_at-place t) ∙ ap type_at h ∙ type_at-place u

one_offset :
    (i : ℕ) (cfg : FlexPayload)
    → get_elem? flexible.flex_set i ≡ some cfg
    → 2 ≤ length cfg.src_offset
one_offset zero cfg h = ground arith
one_offset (suc i) cfg h = cc

flexible-Fits : Fits flexible
flexible-Fits = record {
  payloads = omega arith;
  offsets = one_offset;
  flexmasks = omega arith;
  masks = λ i mask h. cc;
}

fdir_get_infos_lem_example :
    (out : List Piece) × (fdir_get_infos card blank no_stats 0 ≡ some out)
    × (◌≢◌ {A = ℕ} 0 65535
        → is_port 0 (0 ∷ 1 ∷ []) ≡ false
        → out ≡ text "Invalid port " ∷ decimal 0 0 ∷ text "\n" ∷ [])
    × ((◌≡◌ {A = ℕ} 0 65535) ⊎ (is_port 0 (0 ∷ 1 ∷ []) ≡ true) → ok ≢ ok → out ≡ complain card 0 ok)
unfolding get_fdir_info
fdir_get_infos_lem_example = fdir_get_infos_lem card blank no_stats 0 (λ h. flexible-Fits)

-- ===== src/Filter/FlowTypes.antt =====
-- The names of flow types.
use Prim.Native.String.{String}
use libmoon.Prelude.{
  ℕ, ◌≡◌, ◌≢◌, refl, ap, none, some, List, [], ◌∷◌, arith, ◌==◌, ◌⊎◌, inl, inr, Bool-cases, ◌∙◌,
}
use libmoon.Filter.Types.{
  FlowType, flow_raw, flow_ipv4, flow_frag_ipv4, flow_ipv4_tcp, flow_ipv4_udp, flow_ipv4_sctp,
  flow_ipv4_other, flow_ipv6, flow_frag_ipv6, flow_ipv6_tcp, flow_ipv6_udp, flow_ipv6_sctp,
  flow_ipv6_other, flow_l2_payload, flow_port, flow_vxlan, flow_geneve, flow_nvgre, flow_vxlan_gpe,
  flowtype_str_table, Fdir,
}
use libmoon.Filter.{search_table, flowtype_to_str}

-- What each flow type is called.
abbrev pub name : FlowType → String
name flow_raw = "raw"
name flow_ipv4 = "ipv4"
name flow_frag_ipv4 = "ipv4-frag"
name flow_ipv4_tcp = "ipv4-tcp"
name flow_ipv4_udp = "ipv4-udp"
name flow_ipv4_sctp = "ipv4-sctp"
name flow_ipv4_other = "ipv4-other"
name flow_ipv6 = "ipv6"
name flow_frag_ipv6 = "ipv6-frag"
name flow_ipv6_tcp = "ipv6-tcp"
name flow_ipv6_udp = "ipv6-udp"
name flow_ipv6_sctp = "ipv6-sctp"
name flow_ipv6_other = "ipv6-other"
name flow_l2_payload = "l2_payload"
name flow_port = "port"
name flow_vxlan = "vxlan"
name flow_geneve = "geneve"
name flow_nvgre = "nvgre"
name flow_vxlan_gpe = "vxlan-gpe"

-- Every entry of the table is the name of its type.
abbrev AllNamed : List (String × FlowType) → Type 0
AllNamed [] = Unit
AllNamed ((str, t) ∷ table) = (str ≡ name t) × AllNamed table

abbrev Has : FlowType → List (String × FlowType) → Type 0
Has t [] = ⊥
Has t ((str, u) ∷ table) = (u ≡ t) ⊎ Has t table

flowtype_str_table-AllNamed : AllNamed flowtype_str_table
flowtype_str_table-AllNamed = ground arith

flowtype_str_table-Has : (t : FlowType) → Has t flowtype_str_table
flowtype_str_table-Has flow_raw = ground arith
flowtype_str_table-Has t = ground arith

module _ (api : Fdir) where
  search_table_lem :
      ((t u : FlowType) → api.ftype t ≡ api.ftype u → t ≡ u)
      → (t : FlowType) (table : List (String × FlowType)) → AllNamed table
      → Has t table
      → search_table api (api.ftype t) table ≡ some (name t)
  search_table_lem distinct t [] named has = absurd has
  search_table_lem distinct t ((str, u) ∷ table) named has =
      elim (Bool-cases (api.ftype u == api.ftype t)) [
        | inl same ↦ rw same (ap some (named.0 ∙ ap name (distinct u t (ground arith))))
        | inr other ↦ rw other (elim has [
          | inl e ↦ absurd (ground (arith, ap api.ftype e))
          | inr later ↦ search_table_lem distinct t table named.1 later
        ])
      ]

  search_table-none :
      (flow_type : ℕ) (table : List (String × FlowType))
      → ((t : FlowType) → api.ftype t ≢ flow_type)
      → search_table api flow_type table ≡ none
  search_table-none flow_type [] h = refl
  search_table-none flow_type ((str, t) ∷ table) h =
      ground (arith, h t, search_table-none flow_type table)

  -- When DPDK gives no number to two flow types, `flowtype_to_str` finds the name of each flow type by
  -- its number, and none for a number that is no flow type's.
  flowtype_to_str_lem :
      ((t u : FlowType) → api.ftype t ≡ api.ftype u → t ≡ u)
      → ((t : FlowType) → flowtype_to_str api (api.ftype t) ≡ some (name t))
        × ((flow_type : ℕ)
            → ((t : FlowType) → api.ftype t ≢ flow_type)
            → flowtype_to_str api flow_type ≡ none)
  unfolding flowtype_to_str
  flowtype_to_str_lem distinct = (
    λ t.
        search_table_lem distinct t flowtype_str_table flowtype_str_table-AllNamed
          (flowtype_str_table-Has t),
    λ flow_type h. search_table-none flow_type flowtype_str_table h,
  )

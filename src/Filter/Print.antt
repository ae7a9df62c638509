-- ===== src/Filter/Print.antt =====
-- src/filter.c: the loops that print, and the parts that depend on no driver.
use libmoon.Prelude.{ℕ, zero, suc, Option, none, some, List, [], ◌∷◌, ◌++◌, get_elem?}
use libmoon.Filter.Types.{
  Piece, text, decimal, hex, FlexType, raw_payload, l2_payload_type, l3_payload, l4_payload,
  unknown_payload, FlexPayload, FdirMasks, FdirInfo,
}

-- A `for` over `left` numbers from `i` on, whose body prints or faults.
unfoldable pub each : ℕ → ℕ → (ℕ → Option (List Piece)) → Option (List Piece)
each zero i body = some []
each (suc left) i body = elim (body i) [
  | none ↦ none
  | some out ↦ elim (each left (suc i) body) [ none ↦ none | some outs ↦ some (out ++ outs) ]
]

abbrev pub then_newline : Option (List Piece) → Option (List Piece)
then_newline none = none
then_newline (some out) = some (out ++ (text "\n" ∷ []))

-- Two prints, one after the other.
infixr 20 ◌then_print◌
abbrev pub ◌then_print◌ : Option (List Piece) → Option (List Piece) → Option (List Piece)
none then_print b = none
some out then_print none = none
some out then_print some outs = some (out ++ outs)

abbrev pub print_ip : (ℕ → ℕ) → List Piece
print_ip ip =
    text "0x"
    ∷ hex 8 (ip 0)
    ∷ text ",0x"
    ∷ hex 8 (ip 1)
    ∷ text ",0x"
    ∷ hex 8 (ip 2)
    ∷ text ",0x"
    ∷ hex 8 (ip 3)
    ∷ []

pub print_fdir_mask : FdirMasks → List Piece
print_fdir_mask mask =
    text "\n    vlan_tci: 0x"
    ∷ hex 4 mask.vlan_tci_mask
    ∷ text ", src_ipv4: 0x"
    ∷ hex 8 mask.ipv4_src_ip
    ∷ text ", dst_ipv4: 0x"
    ∷ hex 8 mask.ipv4_dst_ip
    ∷ text "\n    src_port: 0x"
    ∷ hex 4 mask.src_port_mask
    ∷ text ", dst_port: 0x"
    ∷ hex 4 mask.dst_port_mask
    ∷ text "\n    src_ipv6: "
    ∷ (print_ip mask.ipv6_src_ip
        ++ (text "\n    dst_ipv6: " ∷ (print_ip mask.ipv6_dst_ip ++ (text "\n" ∷ []))))

abbrev pub payload_title : FlexType → List Piece
payload_title raw_payload = text "\n    RAW:  " ∷ []
payload_title l2_payload_type = text "\n    L2_PAYLOAD:  " ∷ []
payload_title l3_payload = text "\n    L3_PAYLOAD:  " ∷ []
payload_title l4_payload = text "\n    L4_PAYLOAD:  " ∷ []
payload_title (unknown_payload n) = text "\n    UNKNOWN PAYLOAD(" ∷ decimal 0 n ∷ text "):  " ∷ []

abbrev pub print_offset : List ℕ → ℕ → Option (List Piece)
print_offset src_offset j = elim (get_elem? src_offset j) [
  | none ↦ none
  | some offset ↦ some (text "  " ∷ decimal 5 offset ∷ [])
]

abbrev pub print_payload : ℕ → List FlexPayload → ℕ → Option (List Piece)
print_payload num flex_set i = elim (get_elem? flex_set i) [
  | none ↦ none
  | some cfg ↦
      some (payload_title cfg.flex_type) then_print each num 0 (print_offset cfg.src_offset)
]

unfoldable pub print_fdir_flex_payload : FdirInfo → ℕ → Option (List Piece)
unfolding each
print_fdir_flex_payload conf num =
    then_newline (each conf.nb_payloads 0 (print_payload num conf.flex_set))

abbrev pub print_byte : List ℕ → ℕ → Option (List Piece)
print_byte mask j = elim (get_elem? mask j) [
  | none ↦ none
  | some byte ↦ some (text " " ∷ hex 2 byte ∷ [])
]

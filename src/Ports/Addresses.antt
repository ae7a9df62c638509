-- ===== src/Ports/Addresses.antt =====
-- What the text and the number of a MAC address say.
use libmoon.Prelude.{
  ℕ, ◌+◌, ◌-◌, ◌*◌, ◌/◌, ◌%◌, ◌^◌, ◌<◌, ◌≡◌, refl, true, Option, none, some, List, [], ◌∷◌, map,
  arith, ltb, if◌then◌else◌, Text, ◌==◌,
}
use libmoon.Ports.{EtherAddr, hex_digit, dpdk_get_mac_addr}

abbrev pub IsEtherAddr : EtherAddr → Type 0
IsEtherAddr a =
    (a.b0 < 256) × (a.b1 < 256) × (a.b2 < 256) × (a.b3 < 256) × (a.b4 < 256) × (a.b5 < 256)

-- A digit of either kind as a number, and the bytes of a text of pairs of digits with colons between.
abbrev pub digit_of : ℕ → ℕ
digit_of d = if ltb d 58 then d - 48 else d - 55

abbrev pub read_bytes : Text → Option (List ℕ)
read_bytes [] = none
read_bytes (h ∷ []) = none
read_bytes (h ∷ l ∷ []) = none
read_bytes (h ∷ l ∷ c ∷ t) =
    let rest = read_bytes t in
    if c == 0
    then some ((digit_of h * 16 + digit_of l) ∷ [])
    else elim rest [ none ↦ none | some bs ↦ some ((digit_of h * 16 + digit_of l) ∷ bs) ]

abbrev pub read_text : Option Text → Option (List ℕ)
read_text none = none
read_text (some t) = read_bytes t

byte_read :
    (b : ℕ) → b < 256 → digit_of (hex_digit (b / 16)) * 16 + digit_of (hex_digit (b % 16)) ≡ b
byte_read b h = ground arith

abbrev pub nth_byte : ℕ → ℕ → ℕ
nth_byte value i = value / 256 ^ i % 256

-- For the address of a port, whose parts are bytes: the text reads as the six bytes in their order,
-- and the number is below 2 ^ 48 and has these as its bytes, the lowest first.
dpdk_get_mac_addr_lem :
    (a : EtherAddr)
    → IsEtherAddr a
    → (read_text (dpdk_get_mac_addr a true).0 ≡ some (a.b0 ∷ a.b1 ∷ a.b2 ∷ a.b3 ∷ a.b4 ∷ a.b5 ∷ []))
      × ((dpdk_get_mac_addr a true).1 < 2 ^ 48)
      × (map (nth_byte (dpdk_get_mac_addr a true).1) (0 ∷ 1 ∷ 2 ∷ 3 ∷ 4 ∷ 5 ∷ [])
          ≡ a.b0 ∷ a.b1 ∷ a.b2 ∷ a.b3 ∷ a.b4 ∷ a.b5 ∷ [])
unfolding dpdk_get_mac_addr
dpdk_get_mac_addr_lem a (h0, h1, h2, h3, h4, h5) = (
  simp
      (
        byte_read a.b0 h0,
        byte_read a.b1 h1,
        byte_read a.b2 h2,
        byte_read a.b3 h3,
        byte_read a.b4 h4,
        byte_read a.b5 h5,
      )
      refl,
  omega arith,
  ground arith,
)

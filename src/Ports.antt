-- ===== src/Ports.antt =====
-- src/device.c: what a script asks of a port: its addresses, and its registers.
-- `rte_eth_dev_info_get` and `rte_eth_macaddr_get` are outside; what they fill in is an argument. A
-- text is the list of its bytes.
pub mod Addresses
mod Tests
use libmoon.Prelude.{
  ℕ, zero, suc, ◌+◌, ◌-◌, ◌*◌, ◌/◌, ◌%◌, ◌^◌, Bool, true, false, Option, none, some, List, [], ◌∷◌,
  ◌++◌, ltb, if◌then◌else◌, Text,
}

-- `struct rte_ether_addr`
pub record EtherAddr : Type 0 where
  pub b0 : ℕ
  pub b1 : ℕ
  pub b2 : ℕ
  pub b3 : ℕ
  pub b4 : ℕ
  pub b5 : ℕ

-- `%02X` of a byte
abbrev pub hex_digit : ℕ → ℕ
hex_digit n = if ltb n 10 then 48 + n else 55 + n

abbrev pub print_byte : ℕ → Text
print_byte b = hex_digit (b / 16) ∷ hex_digit (b % 16) ∷ []

-- What is written to `buf`, with its NUL, and the result; the parts of the `|` share no bits.
pub dpdk_get_mac_addr : EtherAddr → Bool → Option Text × ℕ
dpdk_get_mac_addr addr buf = (
  if buf
      then some (
          print_byte addr.b0
          ++ (58 ∷ print_byte addr.b1)
          ++ (58 ∷ print_byte addr.b2)
          ++ (58 ∷ print_byte addr.b3)
          ++ (58 ∷ print_byte addr.b4)
          ++ (58 ∷ print_byte addr.b5)
          ++ (0 ∷ []))
      else none,
  addr.b0
      + addr.b1 * 2 ^ 8
      + addr.b2 * 2 ^ 16
      + addr.b3 * 2 ^ 24
      + addr.b4 * 2 ^ 32
      + addr.b5 * 2 ^ 40,
)

-- `RTE_DEV_TO_PCI(dev_info.device)`: the fields that the code reads; `none` is NULL.
pub record PciDevice : Type 0 where
  pub function : ℕ
  pub vendor_id : ℕ
  pub device_id : ℕ

pub dpdk_get_pci_function : Option PciDevice → ℕ
dpdk_get_pci_function none = 0
dpdk_get_pci_function (some pci) = pci.function

pub dpdk_get_pci_id : Option PciDevice → ℕ
dpdk_get_pci_id none = 0
dpdk_get_pci_id (some pci) = pci.vendor_id * 2 ^ 16 + pci.device_id

-- `registers`: where the registers of each port are mapped; `none` is NULL, with which an access
-- faults. The bus is a parameter: a volatile load or store of 4 or 8 bytes.
module _ {Bus : Type 0} (load : Bus → ℕ → ℕ → ℕ × Bus) (store : Bus → ℕ → ℕ → ℕ → Bus)
    (registers : ℕ → Option ℕ) where
  pub get_reg_addr : ℕ → ℕ → Option ℕ
  get_reg_addr port reg = elim (registers port) [
    | none ↦ none
    | some base ↦ some ((base + reg) % 2 ^ 64)
  ]

  pub read_reg32 : ℕ → ℕ → Bus → Option (ℕ × Bus)
  read_reg32 port reg bus = elim (get_reg_addr port reg) [
    | none ↦ none
    | some addr ↦ some (load bus addr 4)
  ]

  pub write_reg32 : ℕ → ℕ → ℕ → Bus → Option Bus
  write_reg32 port reg val bus = elim (get_reg_addr port reg) [
    | none ↦ none
    | some addr ↦ some (store bus addr 4 val)
  ]

  pub read_reg64 : ℕ → ℕ → Bus → Option (ℕ × Bus)
  read_reg64 port reg bus = elim (get_reg_addr port reg) [
    | none ↦ none
    | some addr ↦ some (load bus addr 8)
  ]

  pub write_reg64 : ℕ → ℕ → ℕ → Bus → Option Bus
  write_reg64 port reg val bus = elim (get_reg_addr port reg) [
    | none ↦ none
    | some addr ↦ some (store bus addr 8 val)
  ]

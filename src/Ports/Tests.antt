-- ===== src/Ports/Tests.antt =====
-- A MAC address and a PCI device of a real card.
use libmoon.Prelude.{◌≡◌, refl, some}
use libmoon.Ports.{EtherAddr, dpdk_get_pci_id}

abbrev card : EtherAddr
card = record { b0 = 160; b1 = 54; b2 = 159; b3 = 0; b4 = 16; b5 = 255 }

intel_xl710 :
    dpdk_get_pci_id (some (record { function = 0; vendor_id = 32902; device_id = 5507 }))
    ≡ 2156270979
unfolding dpdk_get_pci_id
intel_xl710 = refl

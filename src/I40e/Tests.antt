-- ===== src/I40e/Tests.antt =====
-- A link at 10 Gbit/s.
use libmoon.Prelude.{false}
use libmoon.I40e.{AqLink, speed_10gb, EthLink, num_none, Port, i40e_get_link_status_workaround}

abbrev up_10gb : AqLink → AqLink
up_10gb status = record { link_info = 5; link_speed = speed_10gb }

abbrev port : Port
port = record { hw_port = 1; main_vsi_seid = 390; speed_fixed = false }

abbrev down : EthLink
down = record { link_speed = num_none; full_duplex = false; link_autoneg = false; link_status = 0 }

abbrev found : EthLink
found = i40e_get_link_status_workaround up_10gb port down

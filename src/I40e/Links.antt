-- ===== src/I40e/Links.antt =====
-- What the status of a link says.
use libmoon.Prelude.{ℕ, zero, suc, ◌-◌, ◌^◌, ◌%◌, ◌≡◌, refl, true, not, arith}
use libmoon.I40e.{
  AqSpeed, speed_100mb, speed_1gb, speed_10gb, speed_20gb, speed_25gb, speed_40gb, other_speed,
  AqLink, SpeedNum, num_none, num_100m, num_1g, num_10g, num_20g, num_25g, num_40g, num_unknown,
  EthLink, Port, cleared, parse_speed, i40e_get_link_status_workaround,
}

-- The speeds in Mbit/s, on both sides; none for a number that the driver does not know.
abbrev pub rate : SpeedNum → ℕ
rate num_none = 0
rate num_100m = 100
rate num_1g = 1000
rate num_10g = 10000
rate num_20g = 20000
rate num_25g = 25000
rate num_40g = 40000
rate num_unknown = 2 ^ 32 - 1

abbrev pub aq_rate : AqSpeed → ℕ → ℕ
aq_rate speed_100mb up = 100
aq_rate speed_1gb up = 1000
aq_rate speed_10gb up = 10000
aq_rate speed_20gb up = 20000
aq_rate speed_25gb up = 25000
aq_rate speed_40gb up = 40000
aq_rate (other_speed n) zero = 0
aq_rate (other_speed n) (suc up) = 2 ^ 32 - 1

rate_lem : (s : AqSpeed) (up : ℕ) → rate (parse_speed up s) ≡ aq_rate s up
unfolding parse_speed
rate_lem speed_100mb up = refl
rate_lem speed_1gb up = refl
rate_lem speed_10gb up = refl
rate_lem speed_20gb up = refl
rate_lem speed_25gb up = refl
rate_lem speed_40gb up = refl
rate_lem (other_speed n) zero = refl
rate_lem (other_speed n) (suc up) = ground arith

-- The link that is returned does not depend on what the structure held before: it is up exactly when
-- bit 0 of the driver's status is set, its rate in Mbit/s is the one of the driver's speed, 0 for a
-- speed that is not in the list when the link is down and 2 ^ 32 - 1 when it is up, it is full duplex,
-- and it negotiates exactly when the speed of the port is not fixed.
i40e_get_link_status_workaround_lem :
    (get_link_info : AqLink → AqLink) (port : Port) (link other : EthLink)
    → (i40e_get_link_status_workaround get_link_info port link
        ≡ i40e_get_link_status_workaround get_link_info port other)
      × ((i40e_get_link_status_workaround get_link_info port link).link_status
          ≡ (get_link_info cleared).link_info % 2)
      × (rate (i40e_get_link_status_workaround get_link_info port link).link_speed
          ≡ aq_rate (get_link_info cleared).link_speed ((get_link_info cleared).link_info % 2))
      × ((i40e_get_link_status_workaround get_link_info port link).full_duplex ≡ true)
      × ((i40e_get_link_status_workaround get_link_info port link).link_autoneg
          ≡ not port.speed_fixed)
unfolding i40e_get_link_status_workaround
i40e_get_link_status_workaround_lem get_link_info port link other = (
  refl,
  refl,
  rate_lem (get_link_info cleared).link_speed ((get_link_info cleared).link_info % 2),
  refl,
  refl,
)

-- When the driver's call fails and leaves the cleared status, the link is down and without a speed.
pub i40e_get_link_status_workaround_failed :
    (port : Port) (link : EthLink)
    → ((i40e_get_link_status_workaround (λ status. status) port link).link_status ≡ 0)
      × ((i40e_get_link_status_workaround (λ status. status) port link).link_speed ≡ num_none)
unfolding i40e_get_link_status_workaround parse_speed
i40e_get_link_status_workaround_failed port link = (refl, refl)

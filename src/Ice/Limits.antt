-- ===== src/Ice/Limits.antt =====
-- src/ice.c: taking the timer and limiting the rate of a queue or of the device.
-- The driver is a parameter: each of its three calls says whether it succeeds.
use libmoon.Prelude.{
  ℕ, ◌≡◌, ◌↔◌, refl, Bool, true, List, [], ◌∷◌, if◌then◌else◌, Bool-cases, inl, inr,
}

-- `func_caps.ts_func_info` of the hardware
pub record TimerInfo : Type 0 where
  pub src_tmr_owned : Bool
  pub tmr_index_owned : ℕ

pub ice_take_timer_ownership : TimerInfo → TimerInfo
ice_take_timer_ownership info = record info { src_tmr_owned = true; tmr_index_owned = 0 }

-- What is printed.
pub data Message : Type 0 where
  reset_failed : Message
  queue_limit_failed port_limit_failed : ℕ → Message

module _ {Dev : Type 0} where
  -- `if (status != ICE_SUCCESS) printf(...)`
  abbrev pub complain : Message → Bool × Dev → List Message × Dev
  complain message (ok, dev) = (if ok then [] else message ∷ [], dev)

  -- `init_time timer`
  pub ice_reset_timer : (ℕ → Dev → Bool × Dev) → Dev → List Message × Dev
  ice_reset_timer init_time dev = complain reset_failed (init_time 0 dev)

  -- `cfg_q_bw_lmt vsi tc queue bw`
  pub ice_set_q_bw_limit : (ℕ → ℕ → ℕ → ℕ → Dev → Bool × Dev) → ℕ → ℕ → ℕ → Dev → List Message × Dev
  ice_set_q_bw_limit cfg_q_bw_lmt main_vsi queue bw dev =
      complain (queue_limit_failed queue) (cfg_q_bw_lmt main_vsi 0 queue bw dev)

  -- `cfg_vsi_bw_lmt_per_tc vsi tc bw`
  pub ice_set_bw_limit : (ℕ → ℕ → ℕ → Dev → Bool × Dev) → ℕ → ℕ → ℕ → Dev → List Message × Dev
  ice_set_bw_limit cfg_vsi_bw_lmt_per_tc port main_vsi bw dev =
      complain (port_limit_failed port) (cfg_vsi_bw_lmt_per_tc main_vsi 0 bw dev)

  -- A failure of the driver is printed and nothing else is.
  pub ice_set_q_bw_limit-reports :
      (cfg_q_bw_lmt : ℕ → ℕ → ℕ → ℕ → Dev → Bool × Dev) (main_vsi queue bw : ℕ) (dev : Dev)
      → ((ice_set_q_bw_limit cfg_q_bw_lmt main_vsi queue bw dev).0 ≡ [])
        ↔ ((cfg_q_bw_lmt main_vsi 0 queue bw dev).0 ≡ true)
  unfolding ice_set_q_bw_limit
  ice_set_q_bw_limit-reports cfg_q_bw_lmt main_vsi queue bw dev =
      elim (Bool-cases (cfg_q_bw_lmt main_vsi 0 queue bw dev).0) [
        | inl ok ↦ rw ok (λ e. refl, λ e. refl)
        | inr failed ↦ rw failed (λ e. cc, λ e. cc)
      ]

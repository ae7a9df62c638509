-- ===== src/Device/Configure.antt =====
-- `dpdk_configure_device` against the list of the calls that set up a port.
use libmoon.Prelude.{
  ℕ, zero, suc, ◌≡◌, ◌≢◌, refl, ap, ◌∙◌, sym, List, [], ◌∷◌, ◌++◌, map, arith, ◌==◌, Bool-cases,
  inl, inr,
}
use libmoon.Device.{
  DevInfo, DeviceConfig, port_conf, EthCall, dev_configure, dev_start, tx_call, rx_call,
  register_base, and_then, setup_queues, Ports, set_up, finish, dpdk_configure_device,
}

-- i, i + 1, ..., of `n` numbers
abbrev pub upwards : ℕ → ℕ → List ℕ
upwards i zero = []
upwards i (suc n) = i ∷ upwards (suc i) n

-- All calls of a port before its start, in order: the port, its transmit queues from 0 on, its
-- receive queues from 0 on.
abbrev pub plan : DeviceConfig → DevInfo → List EthCall
plan cfg info =
    dev_configure cfg.port cfg.rx_queues cfg.tx_queues (port_conf cfg info)
    ∷ (map (tx_call cfg info) (upwards 0 cfg.tx_queues)
        ++ map (rx_call cfg info) (upwards 0 cfg.rx_queues))

module _ {Dev : Type 0} (eth : Dev → EthCall → ℕ × Dev) where
  -- Calls in order, up to the first that returns an error, which is the result.
  pub until_error : List EthCall → Dev → ℕ × Dev
  until_error [] dev = (0, dev)
  until_error (c ∷ cs) dev = and_then eth (eth dev c) (until_error cs)

  and_then_assoc :
      (r : ℕ × Dev) (f g : Dev → ℕ × Dev)
      → and_then eth (and_then eth r f) g ≡ and_then eth r (λ dev. and_then eth (f dev) g)
  and_then_assoc (rc, dev) f g = elim (Bool-cases (rc == 0)) [
    | inl h ↦ ground arith
    | inr h ↦ ground arith
  ]

  and_then_cong :
      (r : ℕ × Dev) {f g : Dev → ℕ × Dev}
      → ((dev : Dev) → f dev ≡ g dev)
      → and_then eth r f ≡ and_then eth r g
  and_then_cong (rc, dev) h = elim (Bool-cases (rc == 0)) [
    | inl ok ↦ ground (arith, h dev)
    | inr bad ↦ ground arith
  ]

  start_lem :
      (cfg : DeviceConfig) (dev : Dev)
      → until_error (dev_start cfg.port ∷ []) dev ≡ eth dev (dev_start cfg.port)
  unfolding until_error
  start_lem cfg dev = elim (Bool-cases ((eth dev (dev_start cfg.port)).0 == 0)) [
    | inl ok ↦ ground arith
    | inr bad ↦ ground arith
  ]

  until_error-++ :
      (xs ys : List EthCall) (dev : Dev)
      → until_error (xs ++ ys) dev ≡ and_then eth (until_error xs dev) (until_error ys)
  unfolding until_error
  until_error-++ [] ys dev = refl
  until_error-++ (x ∷ xs) ys dev =
      and_then_cong (eth dev x) (until_error-++ xs ys)
      ∙ sym (and_then_assoc (eth dev x) (until_error xs) (until_error ys))

  setup_queues_lem :
      (call : ℕ → EthCall) (left i : ℕ) (dev : Dev)
      → setup_queues eth call left i dev ≡ until_error (map call (upwards i left)) dev
  unfolding until_error setup_queues
  setup_queues_lem call zero i dev = refl
  setup_queues_lem call (suc left) i dev =
      and_then_cong (eth dev (call i)) (setup_queues_lem call left (suc i))

  set_up_lem :
      (cfg : DeviceConfig) (info : DevInfo) (dev : Dev)
      → set_up eth cfg info dev ≡ until_error (plan cfg info) dev
  unfolding until_error set_up
  set_up_lem cfg info dev =
      and_then_cong
        (eth dev (dev_configure cfg.port cfg.rx_queues cfg.tx_queues (port_conf cfg info)))
        (λ d.
          ap (λ r. and_then eth r (setup_queues eth (rx_call cfg info) cfg.rx_queues 0))
            (setup_queues_lem (tx_call cfg info) cfg.tx_queues 0 d)
          ∙ and_then_cong (until_error (map (tx_call cfg info) (upwards 0 cfg.tx_queues)) d)
              (setup_queues_lem (rx_call cfg info) cfg.rx_queues 0)
          ∙ sym (
              until_error-++ (map (tx_call cfg info) (upwards 0 cfg.tx_queues))
                (map (rx_call cfg info) (upwards 0 cfg.rx_queues)) d))

  finish_lem :
      (cfg : DeviceConfig) (info : DevInfo) (ports : Ports eth) (before : ℕ × Dev)
      → let (rc, after) = finish eth cfg info ports before in
        ((rc, after.dev) ≡ and_then eth before (λ dev. eth dev (dev_start cfg.port)))
        × (before.0 ≡ 0 → after.registers cfg.port ≡ register_base info.pci)
        × (before.0 ≢ 0 → after.registers cfg.port ≡ ports.registers cfg.port)
        × ((p : ℕ) → p ≢ cfg.port → after.registers p ≡ ports.registers p)
  finish_lem cfg info ports (rc, dev) = elim (Bool-cases (rc == 0)) [
    | inl ok ↦ (ground arith, λ h. ground arith, λ h. ground arith, λ p ne. ground arith)
    | inr bad ↦ (ground arith, λ h. ground arith, λ h. ground arith, λ p ne. ground arith)
  ]

  -- `dpdk_configure_device` makes the calls of the plan in order: the port, every transmit queue,
  -- every receive queue, the start. The first error is the result, and no call is made after it. The
  -- registers of the port are those of its first memory resource if every call before the start
  -- succeeded, and nothing else of the array changes.
  pub dpdk_configure_device_lem :
      (cfg : DeviceConfig) (info : DevInfo) (ports : Ports eth)
      → let (rc, after) = dpdk_configure_device eth cfg info ports in
        let before = until_error (plan cfg info) ports.dev in
        ((rc, after.dev) ≡ until_error (plan cfg info ++ (dev_start cfg.port ∷ [])) ports.dev)
        × (before.0 ≡ 0 → after.registers cfg.port ≡ register_base info.pci)
        × (before.0 ≢ 0 → after.registers cfg.port ≡ ports.registers cfg.port)
        × ((p : ℕ) → p ≢ cfg.port → after.registers p ≡ ports.registers p)
  unfolding dpdk_configure_device
  dpdk_configure_device_lem cfg info ports =
      let (calls, opened, closed, others) =
        finish_lem cfg info ports (set_up eth cfg info ports.dev) in
      let plan_eq : (set_up eth cfg info ports.dev).0 ≡ (until_error (plan cfg info) ports.dev).0 =
        ap (λ r. r.0) (set_up_lem cfg info ports.dev) in
      (
        calls
            ∙ and_then_cong (set_up eth cfg info ports.dev) (λ dev. sym (start_lem cfg dev))
            ∙ ap (λ r. and_then eth r (until_error (dev_start cfg.port ∷ [])))
                (set_up_lem cfg info ports.dev)
            ∙ sym (until_error-++ (plan cfg info) (dev_start cfg.port ∷ []) ports.dev),
        λ h. opened (plan_eq ∙ h),
        λ h. closed (λ z. h (sym plan_eq ∙ z)),
        others,
      )

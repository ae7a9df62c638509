-- ===== src/IceScheduler/Pps.antt =====
-- Switching a port and a queue to packets per second, and back.
use libmoon.Prelude.{
  ℕ, ◌%◌, ◌^◌, ◌<◌, ◌≡◌, ◌≢◌, refl, ap, ◌∙◌, Bool, true, false, Option, none, some, arith, ◌==◌,
  if◌then◌else◌, Bool-cases, inl, inr, ◌⊎◌, has_bit, has_bit-with_bit, has_bit-without_bit,
}
use libmoon.IceScheduler.Update.{ice_sched_update_elem_lem}
use libmoon.IceScheduler.{
  aq_error, of_context, set_leaf, by_teid, SchedNode, PortInfo, IceDriver, Hw, Status, success,
  err_cfg, err_param, is_error, ice_sched_update_elem, with_mode, set_mode, set_found, release,
  acquire, ElemData, ice_tx_sched_set_pps_port, ice_tx_sched_set_pps_queue,
  ice_sched_get_node_by_id_type,
}

Status-cases : (s : Status) → (s ≡ success) ⊎ ((s ≢ success) × (is_error s ≡ true))
Status-cases success = inl refl
Status-cases err_cfg = inr (λ e. cc, refl)
Status-cases err_param = inr (λ e. cc, refl)
Status-cases (aq_error code) = inr (λ e. cc, refl)

module _ (api : IceDriver) where
  -- What an attempt to set the mode of the node `target` has come to.
  pub record Switched (pps : Bool) (target : Option ℕ) (before : Hw api) (failed : Bool)
      (after : Hw api) : Type 0 where
    pub unlocked : after.locked ≡ false
    pub kept : failed ≡ true → after.nodes ≡ before.nodes
    pub set :
        failed ≡ false
        → (p : ℕ) × (target ≡ some p)
          × (has_bit api.mode_m (after.nodes p).info.elem.generic ≡ pps)
          × (after.nodes p
              ≡ record (before.nodes p) { info = with_mode api pps (before.nodes p).info })
          × ((q : ℕ) → q ≢ p → after.nodes q ≡ before.nodes q)

  mode_bit :
      (pps : Bool) (info : ElemData)
      → has_bit api.mode_m (with_mode api pps info).elem.generic ≡ pps
  mode_bit true info = has_bit-with_bit api.mode_m info.elem.generic
  mode_bit false info = has_bit-without_bit api.mode_m info.elem.generic

  set_mode-Switched :
      (pps : Bool) (hw : Hw api) (p : ℕ)
      → let (failed, after) = release api (set_mode api pps (acquire api hw) p) in
        Switched pps (some p) hw failed after
  set_mode-Switched pps hw p =
      let (sent, cleared, v) =
        ice_sched_update_elem_lem api (acquire api hw) p (with_mode api pps (hw.nodes p).info) in
      let result =
        (ice_sched_update_elem api (acquire api hw) p (with_mode api pps (hw.nodes p).info)).0 in
      let bit = mode_bit pps (hw.nodes p).info in
      elim (Status-cases result) [
        | inl ok ↦ record {
          unlocked = refl;
          kept = λ h. cc;
          set = λ h. (
            p,
            refl,
            ap (λ n. has_bit api.mode_m n.info.elem.generic) (v.changed ok).0 ∙ bit,
            (v.changed ok).0,
            (v.changed ok).1,
          );
        }
        | inr bad ↦ record { unlocked = refl; kept = λ h. (v.failed bad.0).1; set = λ h. cc }
      ]

  not_found :
      (pps : Bool) (hw : Hw api) (target : Option ℕ)
      → let (failed, after) = release api (err_param, acquire api hw) in
        Switched pps target hw failed after
  not_found pps hw target = record { unlocked = refl; kept = λ h. refl; set = λ h. cc }

  set_found-Switched :
      (pps : Bool) (hw : Hw api) (target : Option ℕ)
      → let (failed, after) = release api (set_found api pps (acquire api hw) target) in
        Switched pps target hw failed after
  set_found-Switched pps hw none = not_found pps hw none
  set_found-Switched pps hw (some p) = set_mode-Switched pps hw p

  -- The node of the port: that of its main VSI in traffic class 0, if the driver knows the VSI.
  abbrev pub port_node : ℕ → Option ℕ
  port_node vsi = if api.is_vsi_valid vsi then of_context api 0 (api.vsi_node vsi) else none

  -- For a port with `port_info`, `ice_tx_sched_set_pps_port` gives the lock back on every path. Where
  -- it reports no error, the node of the port's main VSI is there and has the mode bit as wanted, the
  -- rest of that node and every other node are as they were; where it does, every node is.
  pub ice_tx_sched_set_pps_port_lem :
      (pi : PortInfo) (main_vsi : ℕ) (pps : Bool) (hw : Hw api)
      → main_vsi < 2 ^ 16
      → let (failed, after) = ice_tx_sched_set_pps_port api (some pi) main_vsi pps hw in
        Switched pps (port_node main_vsi) hw failed after
  unfolding ice_tx_sched_set_pps_port ice_sched_get_node_by_id_type
  ice_tx_sched_set_pps_port_lem pi main_vsi pps hw h =
      let e : main_vsi % 2 ^ 16 ≡ main_vsi = omega arith in
      rw e (set_found-Switched pps hw (port_node main_vsi))

  -- The node of a queue: that of its TEID, if it is a leaf.
  abbrev pub leaf_only : (ℕ → SchedNode) → Option ℕ → Option ℕ
  leaf_only nodes none = none
  leaf_only nodes (some p) = if (nodes p).info.elem.elem_type == api.type_leaf then some p else none

  abbrev pub queue_node : Hw api → PortInfo → Option ℕ → Option ℕ
  queue_node hw pi none = none
  queue_node hw pi (some q_teid) = leaf_only hw.nodes (api.find_node_by_teid pi.root q_teid)

  set_leaf-Switched :
      (pps : Bool) (hw : Hw api) (target : Option ℕ)
      → let (failed, after) = release api (set_leaf api pps (acquire api hw) target) in
        Switched pps (leaf_only hw.nodes target) hw failed after
  set_leaf-Switched pps hw none = not_found pps hw none
  set_leaf-Switched pps hw (some p) =
      elim (Bool-cases ((hw.nodes p).info.elem.elem_type == api.type_leaf)) [
        | inl leaf ↦ rw leaf (set_mode-Switched pps hw p)
        | inr other ↦ rw other (not_found pps hw none)
      ]

  by_teid-Switched :
      (pps : Bool) (hw : Hw api) (pi : PortInfo) (teid : Option ℕ)
      → let (failed, after) = release api (by_teid api pps (acquire api hw) pi teid) in
        Switched pps (queue_node hw pi teid) hw failed after
  by_teid-Switched pps hw pi none = not_found pps hw none
  by_teid-Switched pps hw pi (some q_teid) =
      set_leaf-Switched pps hw (api.find_node_by_teid pi.root q_teid)

  -- For a port with `port_info` and a valid main VSI, `ice_tx_sched_set_pps_queue` gives the lock back
  -- on every path. Where it reports no error, the queue has a leaf node, which has the mode bit as
  -- wanted; the rest of that node and every other node are as they were. Where it does, every node is.
  ice_tx_sched_set_pps_queue_lem :
      (pi : PortInfo) (main_vsi queue : ℕ) (pps : Bool) (hw : Hw api)
      → api.is_vsi_valid main_vsi ≡ true
      → (failed : Bool) × (after : Hw api) × (ice_tx_sched_set_pps_queue api
            (some pi)
            main_vsi
            queue
            pps
            hw
          ≡ some (failed, after))
        × Switched pps (queue_node hw pi (api.lan_q_teid main_vsi 0 queue)) hw failed after
  unfolding ice_tx_sched_set_pps_queue
  ice_tx_sched_set_pps_queue_lem pi main_vsi queue pps hw valid =
      let (failed, after) =
        release api (by_teid api pps (acquire api hw) pi (api.lan_q_teid main_vsi 0 queue)) in
      (failed, after, rw valid refl, by_teid-Switched pps hw pi (api.lan_q_teid main_vsi 0 queue))

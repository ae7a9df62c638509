-- ===== src/IceScheduler/Update.antt =====
-- Sending the new parameters of a node to the card.
use libmoon.Prelude.{
  ℕ, ◌≡◌, ◌≢◌, refl, false, arith, ◌==◌, if◌then◌else◌, Bool-cases, inl, inr, with_bit, has_bit,
  has_bit-without_bit,
}
use libmoon.IceScheduler.{
  SchedNode, ElemData, IceDriver, Hw, Desc, Status, success, err_cfg, err_param, aq_error, is_error,
  request, answered, ice_sched_update_elem, cfg_sched_elems,
}

module _ (api : IceDriver) where
  -- The descriptor of the one command.
  abbrev pub configure : Desc
  configure = record {
    opcode = cfg_sched_elems;
    flags = with_bit api.flag_rd (api.default_flags cfg_sched_elems);
    num_elem_req = 1;
  }

  -- What a command may not set is cleared in it: the parent, the type and the flags always, and the
  -- validity of the committed rate for a node that is a traffic class; the mode goes out as it is.
  pub record IsRequest (node : SchedNode) (info sent : ElemData) : Type 0 where
    pub no_parent : sent.parent_teid ≡ 0
    pub no_type : sent.elem.elem_type ≡ 0
    pub no_flags : sent.elem.flags ≡ 0
    pub same_mode : sent.elem.generic ≡ info.elem.generic
    pub no_rate :
        node.info.elem.elem_type ≡ api.type_tc
        → has_bit api.valid_cir sent.elem.valid_sections ≡ false
    pub same_sections :
        node.info.elem.elem_type ≢ api.type_tc → sent.elem.valid_sections ≡ info.elem.valid_sections

  request-IsRequest :
      (node : SchedNode) (info : ElemData) → IsRequest node info (request api node info)
  request-IsRequest node info = record {
    no_parent = refl;
    no_type = refl;
    no_flags = refl;
    same_mode = refl;
    no_rate = λ h. ground (arith, has_bit-without_bit api.valid_cir info.elem.valid_sections);
    same_sections = λ h. ground arith;
  }

  -- What comes of the answer of the card.
  pub record Answered (before : Hw api) (p : ℕ) (info : ElemData) (status : Status) (cfgd : ℕ)
      (result : Status) (after : Hw api) : Type 0 where
    pub locked_as_before : after.locked ≡ before.locked
    pub succeeds : result ≡ success → (status ≡ success) × (cfgd ≡ 1)
    pub reported : status ≡ success → cfgd ≡ 1 → result ≡ success
    pub changed :
        result ≡ success
        → (after.nodes p ≡ record (before.nodes p) {
          info = record ((before.nodes p).info) { elem = info.elem };
        })
          × ((q : ℕ) → q ≢ p → after.nodes q ≡ before.nodes q)
    pub failed : result ≢ success → (result ≡ err_cfg) × (after.nodes ≡ before.nodes)

  refused :
      (hw : Hw api) (p : ℕ) (info : ElemData) (status : Status) (cfgd : ℕ) (dev : api.Dev)
      → (status ≡ success → cfgd ≡ 1 → ⊥)
      → Answered hw p info status cfgd err_cfg (record hw { dev = dev })
  refused hw p info status cfgd dev h = record {
    locked_as_before = refl;
    succeeds = λ e. cc;
    reported = λ e f. absurd (h e f);
    changed = λ e. cc;
    failed = λ e. (refl, refl);
  }

  answered_lem :
      (hw : Hw api) (p : ℕ) (info : ElemData) (answer : Status × ℕ × api.Dev)
      → let (status, cfgd, dev) = answer in
        let (result, after) =
          answered api hw p info (status, if is_error status then 0 else cfgd, dev) in
        (after.dev ≡ answer.2) × Answered hw p info answer.0 answer.1 result after
  answered_lem hw p info (success, cfgd, dev) = elim (Bool-cases (cfgd == 1)) [
    | inl one ↦ rw one (
      refl,
      record {
        locked_as_before = refl;
        succeeds = λ e. (refl, ground arith);
        reported = λ e f. refl;
        changed = λ e. (ground arith, λ q ne. ground arith);
        failed = λ ne. absurd (ne refl);
      },
    )
    | inr other ↦ rw other (refl, refused hw p info success cfgd dev (λ e f. ground arith))
  ]
  answered_lem hw p info (err_cfg, cfgd, dev) =
      (refl, refused hw p info err_cfg cfgd dev (λ e f. cc))
  answered_lem hw p info (err_param, cfgd, dev) =
      (refl, refused hw p info err_param cfgd dev (λ e f. cc))
  answered_lem hw p info (aq_error code, cfgd, dev) =
      (refl, refused hw p info (aq_error code) cfgd dev (λ e f. cc))

  -- `ice_sched_update_elem` sends one command for one element, in which what it may not set is
  -- cleared: the parent, the type, the flags, and for a traffic class the validity of the committed
  -- rate. It succeeds exactly when the card reports no error and one element configured, and then
  -- the node has the new parameters and no other node changes; else it returns ICE_ERR_CFG and every
  -- node is as it was.
  pub ice_sched_update_elem_lem :
      (hw : Hw api) (p : ℕ) (info : ElemData)
      → let sent = request api (hw.nodes p) info in
        let (status, cfgd, dev) = api.aq_send_cmd hw.dev configure sent api.elem_size in
        let (result, after) = ice_sched_update_elem api hw p info in
        (after.dev ≡ dev)
        × IsRequest (hw.nodes p) info sent
        × Answered hw p info status cfgd result after
  unfolding ice_sched_update_elem
  ice_sched_update_elem_lem hw p info =
      let (sent_to, v) =
        answered_lem hw p info
          (api.aq_send_cmd hw.dev configure (request api (hw.nodes p) info) api.elem_size) in
      (sent_to, request-IsRequest (hw.nodes p) info, v)

-- ===== src/Filter/Infos.antt =====
-- Which driver answers, and that what it answers is shown without a use out of range.
use libmoon.Prelude.{
  ℕ, zero, suc, ◌+◌, ◌%◌, ◌^◌, ◌<◌, ◌≤◌, ◌≡◌, ◌≢◌, refl, ap, sym, ◌∙◌, append-nil, Bool, true,
  false, Option, none, some, List, [], ◌∷◌, ◌++◌, arith, ◌==◌, ltb, if◌then◌else◌, length,
  get_elem?, Bool-cases, inl, inr, ◌⊎◌,
}
use libmoon.Filter.Types.{
  Piece, text, decimal, Ret, ok, not_supported, failed, FlexPayload, FlexMask, FdirInfo, FdirStats,
  Fdir,
}
use libmoon.Filter.Print.{
  each, then_newline, ◌then_print◌, payload_title, print_offset, print_payload, print_byte,
  print_fdir_flex_payload,
}
use libmoon.Filter.{
  mask_title, print_head, print_tail, complain, print_mask, print_fdir_flex_mask, get_fdir_info,
  flex_parts, show, fdir_get_infos, is_port, port_id_is_invalid,
}

-- There is an output.
abbrev pub Prints : Option (List Piece) → Type 0
Prints r = (out : List Piece) × (r ≡ some out)

then_print-Prints : (a b : Option (List Piece)) → Prints a → Prints b → Prints (a then_print b)
then_print-Prints (some out) (some outs) h k = (out ++ outs, refl)
then_print-Prints none b h k = cc h.1
then_print-Prints (some out) none h k = cc k.1

get_elem?-some {ℓ} :
    {A : Type ℓ} (xs : List A) (i : ℕ) → i < length xs → (x : A) × (get_elem? xs i ≡ some x)
get_elem?-some [] i h = absurd (omega arith)
get_elem?-some (x ∷ xs) zero h = (x, refl)
get_elem?-some (x ∷ xs) (suc i) h = get_elem?-some xs i (omega arith)

each-Prints :
    (left i : ℕ) (body : ℕ → Option (List Piece))
    → ((j : ℕ) → i ≤ j → j < i + left → Prints (body j))
    → Prints (each left i body)
unfolding each
each-Prints zero i body h = ([], refl)
each-Prints (suc left) i body h =
    let (out, e) = h i (omega arith) (omega arith) in
    let (outs, es) = each-Prints left (suc i) body (λ j a b. h j (omega arith) (omega arith)) in
    (out ++ outs, ground arith)

-- The arrays are as long as the counts beside them say.
pub record Fits (info : FdirInfo) : Type 0 where
  pub payloads : info.nb_payloads ≤ length info.flex_set
  pub offsets :
      (i : ℕ) (cfg : FlexPayload)
      → get_elem? info.flex_set i ≡ some cfg
      → info.max_flexpayload ≤ length cfg.src_offset
  pub flexmasks : info.nb_flexmasks ≤ length info.flex_mask
  pub masks :
      (i : ℕ) (mask : FlexMask)
      → get_elem? info.flex_mask i ≡ some mask
      → info.max_flexpayload ≤ length mask.mask

offset-Prints : (xs : List ℕ) (j : ℕ) → j < length xs → Prints (print_offset xs j)
offset-Prints xs j h = let (x, e) = get_elem?-some xs j h in rw (e, print_offset) (_, refl)

byte-Prints : (xs : List ℕ) (j : ℕ) → j < length xs → Prints (print_byte xs j)
byte-Prints xs j h = let (x, e) = get_elem?-some xs j h in rw (e, print_byte) (_, refl)

then_newline-Prints : (r : Option (List Piece)) → Prints r → Prints (then_newline r)
then_newline-Prints none h = cc h.1
then_newline-Prints (some out) h = (_, refl)

payload-Prints :
    (info : FdirInfo) (i : ℕ)
    → Fits info
    → i < info.nb_payloads
    → Prints (print_payload info.max_flexpayload info.flex_set i)
payload-Prints info i v h =
    let (cfg, e) = get_elem?-some info.flex_set i (omega (arith, v.payloads)) in
    rw (e, print_payload)
      (then_print-Prints (some (payload_title cfg.flex_type))
        (each info.max_flexpayload 0 (print_offset cfg.src_offset)) (_, refl)
        (each-Prints info.max_flexpayload 0 (print_offset cfg.src_offset)
          (λ j a b. offset-Prints cfg.src_offset j (omega (arith, v.offsets i cfg e)))))

some_inj : (a b : List Piece) → some a ≡ some b → a ≡ b
some_inj a b h = cc

if-Prints : (b : Bool) {r : Option (List Piece)} → Prints r → Prints (if b then r else some [])
if-Prints true h = h
if-Prints false h = ([], refl)

module _ (api : Fdir) where
  mask-Prints :
      (info : FdirInfo) (i : ℕ)
      → Fits info
      → i < info.nb_flexmasks
      → Prints (print_mask api info.max_flexpayload info.flex_mask i)
  mask-Prints info i v h =
      let (mask, e) = get_elem?-some info.flex_mask i (omega (arith, v.flexmasks)) in
      rw (e, print_mask)
        (then_print-Prints (some (mask_title api mask))
          (each info.max_flexpayload 0 (print_byte mask.mask)) (_, refl)
          (each-Prints info.max_flexpayload 0 (print_byte mask.mask)
            (λ j a b. byte-Prints mask.mask j (omega (arith, v.masks i mask e)))))

  flex_payload-Prints :
      (info : FdirInfo) → Fits info → Prints (print_fdir_flex_payload info info.max_flexpayload)
  unfolding print_fdir_flex_payload
  flex_payload-Prints info v =
      then_newline-Prints
        (each info.nb_payloads 0 (print_payload info.max_flexpayload info.flex_set))
        (each-Prints info.nb_payloads 0 (print_payload info.max_flexpayload info.flex_set)
          (λ j a b. payload-Prints info j v (omega arith)))

  flex_mask-Prints :
      (info : FdirInfo) → Fits info → Prints (print_fdir_flex_mask api info info.max_flexpayload)
  unfolding print_fdir_flex_mask
  flex_mask-Prints info v =
      then_newline-Prints
        (each info.nb_flexmasks 0 (print_mask api info.max_flexpayload info.flex_mask))
        (each-Prints info.nb_flexmasks 0 (print_mask api info.max_flexpayload info.flex_mask)
          (λ j a b. mask-Prints info j v (omega arith)))

  flex_parts-Prints : (info : FdirInfo) → Fits info → Prints (flex_parts api info)
  flex_parts-Prints info v =
      then_print-Prints
        (if ltb 0 info.nb_payloads
          then some (text "  FLEX PAYLOAD SRC OFFSET:" ∷ [])
            then_print print_fdir_flex_payload info info.max_flexpayload
          else some [])
        (if ltb 0 info.nb_flexmasks
          then some (text "  FLEX MASK CFG:" ∷ [])
            then_print print_fdir_flex_mask api info info.max_flexpayload
          else some [])
        (if-Prints (ltb 0 info.nb_payloads) (
          then_print-Prints (some (text "  FLEX PAYLOAD SRC OFFSET:" ∷ []))
            (print_fdir_flex_payload info info.max_flexpayload) (_, refl)
            (flex_payload-Prints info v)))
        (if-Prints (ltb 0 info.nb_flexmasks) (
          then_print-Prints (some (text "  FLEX MASK CFG:" ∷ []))
            (print_fdir_flex_mask api info info.max_flexpayload) (_, refl)
            (flex_mask-Prints info v)))

  show-Prints :
      (port_id : ℕ) (got : Ret × FdirInfo × FdirStats)
      → (got.0 ≡ ok → Fits got.1)
      → Prints (show api port_id got)
  show-Prints port_id (ok, info, stat) h =
      then_print-Prints (some (print_head api port_id info))
        (flex_parts api info then_print some (print_tail api info stat)) (_, refl)
        (then_print-Prints (flex_parts api info) (some (print_tail api info stat))
          (flex_parts-Prints info (h refl)) (_, refl))
  show-Prints port_id (not_supported, info, stat) h = ([], refl)
  show-Prints port_id (failed code, info, stat) h = ([], refl)

  quiet :
      (port_id : ℕ) (got : Ret × FdirInfo × FdirStats) → got.0 ≢ ok → show api port_id got ≡ some []
  quiet port_id (ok, info, stat) h = absurd (h refl)
  quiet port_id (not_supported, info, stat) h = refl
  quiet port_id (failed code, info, stat) h = refl

  -- Of a driver whose counts are right for its arrays, `fdir_get_infos` uses no array out of range. It
  -- shows only a warning for a port that is neither there nor the number for all ports, and only the
  -- complaint about the error where a driver has returned one.
  pub fdir_get_infos_lem :
      (zero_info : FdirInfo) (zero_stat : FdirStats) (port_id : ℕ)
      → let id : ℕ = port_id % 2 ^ 16 in
        let (got, complaint) = get_fdir_info api id zero_info zero_stat in
        (got.0 ≡ ok → Fits got.1)
        → (out : List Piece) × (fdir_get_infos api zero_info zero_stat port_id ≡ some out)
          × (id ≢ 65535
              → is_port id api.ports ≡ false
              → out ≡ text "Invalid port " ∷ decimal 0 id ∷ text "\n" ∷ [])
          × ((id ≡ 65535) ⊎ (is_port id api.ports ≡ true)
              → got.0 ≢ ok
              → out ≡ complain api id got.0)
  unfolding fdir_get_infos port_id_is_invalid
  fdir_get_infos_lem zero_info zero_stat port_id fits =
      let id : ℕ = port_id % 2 ^ 16 in
      let (got, complaint) = get_fdir_info api id zero_info zero_stat in
      let (out, e) = show-Prints port_id got fits in
      let alone : got.0 ≢ ok → complaint ++ out ≡ complaint = λ bad.
        ap (λ r. complaint ++ r) (some_inj out [] (sym e ∙ quiet port_id got bad))
        ∙ append-nil complaint in
      elim (Bool-cases (id == 65535)) [
        | inl all ↦ (complaint ++ out, rw (all, e), λ ne. ground arith, λ known bad. alone bad)
        | inr one ↦ elim (Bool-cases (is_port id api.ports)) [
          | inl there ↦ (complaint ++ out, rw (one, there, e), λ ne no. cc, λ known bad. alone bad)
          | inr gone ↦ (
            text "Invalid port " ∷ decimal 0 id ∷ text "\n" ∷ [],
            rw (one, gone),
            λ ne no. refl,
            λ known bad. absurd ground arith,
          )
        ]
      ]

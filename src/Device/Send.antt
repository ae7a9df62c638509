-- ===== src/Device/Send.antt =====
-- Sending until the card has taken every packet.
use libmoon.Prelude.{
  ℕ, zero, suc, ◌+◌, ◌-◌, ◌*◌, ◌%◌, ◌^◌, ◌≡◌, ◌≤◌, ◌<◌, ap, sym, ◌∙◌, Option, some, List, ◌++◌,
  length, take, drop, arith, leb, add32, sub32, Bool-cases, leb→le, leb→lt, ◌==◌, inl, inr,
  append_assoc, take-append-drop, length-drop, take_all, drop-drop,
}
use native.Mathlib.Nat.{mul-le-mul_right}
use libmoon.Device.{TxQueue, send_loop, dpdk_send_all_packets}

module _ (api : TxQueue) where
  -- How often in a row the card may still take nothing of a batch before it takes a packet, when it
  -- empties its descriptors: never more than `most`.
  pub record Drains : Type 0 where
    pub most : ℕ
    pub patience : api.Queue → ℕ
    pub patience_bound : (q : api.Queue) → patience q ≤ most
    pub stalls :
        (q : api.Queue) (pkts : List ℕ)
        → 0 < length pkts
        → (api.tx_burst q pkts).0 ≡ 0
        → patience (api.tx_burst q pkts).1 < patience q

mul_room : (r n m : ℕ) → 0 < n → n ≤ r → (r - n) * m + m ≤ r * m
mul_room r n m h k =
    let less : suc (r - n) ≤ r = omega arith in
    let scaled : suc (r - n) * m ≤ r * m = mul-le-mul_right {m = suc (r - n)} {n = r} m less in
    omega (arith, scaled)

module _ (api : TxQueue) (d : Drains api) where
  abbrev Goes : api.Queue → List ℕ → Option api.Queue → Type 0
  Goes q rest r = (end : api.Queue) × (r ≡ some end) × (api.wire end ≡ api.wire q ++ rest)

  send_step :
      (q : api.Queue) (rest : List ℕ) (n : ℕ) (q' : api.Queue)
      → api.wire q' ≡ api.wire q ++ take n rest
      → (r : Option api.Queue) → Goes q' (drop n rest) r
      → Goes q rest r
  send_step q rest n q' h r (end, e, w) = (
    end,
    e,
    w
        ∙ ap (λ l. l ++ drop n rest) h
        ∙ append_assoc (api.wire q) (take n rest) (drop n rest)
        ∙ ap (λ l. api.wire q ++ l) (take-append-drop n rest),
  )

  -- Each burst takes a packet or patience.
  measure_less :
      (fuel : ℕ) (q : api.Queue) (rest : List ℕ)
      → 0 < length rest
      → let (n, q') = api.tx_burst q rest in
        n ≤ length rest
        → length rest * suc d.most + d.patience q < suc fuel
        → (length rest - n) * suc d.most + d.patience q' < fuel
  measure_less fuel q rest some_left some_of enough =
      let (n, q') = api.tx_burst q rest in
      let bound : d.patience q' ≤ d.most = d.patience_bound q' in
      elim (Bool-cases (n == 0)) [
        | inl none_taken ↦
            let none : n ≡ 0 = ground arith in
            let same : (length rest - n) * suc d.most ≡ length rest * suc d.most =
              ap (λ x. x * suc d.most) (omega arith) in
            omega (arith, same, d.stalls q rest some_left none)
        | inr taken ↦
            let some_taken : 0 < n = ground arith in
            omega (arith, mul_room (length rest) n (suc d.most) some_taken some_of)
      ]

  send_loop_lem :
      (fuel : ℕ) (q : api.Queue) (pkts : List ℕ) (sent : ℕ)
      → length pkts < 2 ^ 16
      → sent ≤ length pkts
      → (length pkts - sent) * suc d.most + d.patience q < fuel
      → Goes q (drop sent pkts) (send_loop api fuel q pkts (length pkts) sent)
  unfolding send_loop
  send_loop_lem zero q pkts sent small within enough = absurd (omega arith)
  send_loop_lem (suc fuel) q pkts sent small within enough =
      let rest : List ℕ = drop sent pkts in
      let left : length rest ≡ length pkts - sent = length-drop sent pkts in
      let asked : sub32 (length pkts) sent % 2 ^ 16 ≡ length pkts - sent = omega arith in
      let batch : take (sub32 (length pkts) sent % 2 ^ 16) rest ≡ rest =
        take_all (sub32 (length pkts) sent % 2 ^ 16) rest (omega arith) in
      let n : ℕ = (api.tx_burst q rest).0 in
      let q' : api.Queue = (api.tx_burst q rest).1 in
      let (some_of, wire) = api.tx_burst_takes q rest in
      let now : add32 sent n ≡ sent + n = omega arith in
      rw (batch, now)
        (elim (Bool-cases (leb (length pkts) (sent + n))) [
          | inl all ↦ (
            q',
            ground arith,
            wire
                ∙ ap (λ l. api.wire q ++ l)
                    (take_all n rest (omega (arith, leb→le (length pkts) (sent + n) all))),
          )
          | inr part ↦
              let more' : sent + n < length pkts = leb→lt (length pkts) (sent + n) part in
              let scale : (length pkts - sent) * suc d.most ≡ length rest * suc d.most =
                ap (λ x. x * suc d.most) (sym left) in
              let scale' : (length pkts - (sent + n)) * suc d.most
                  ≡ (length rest - n) * suc d.most =
                ap (λ x. x * suc d.most) (omega arith) in
              let less : (length rest - n) * suc d.most + d.patience q' < fuel =
                measure_less fuel q rest (omega arith) some_of (omega arith) in
              let order : n + sent ≡ sent + n = omega arith in
              let (end, e, w) =
                send_step q rest n q' wire (send_loop api fuel q' pkts (length pkts) (sent + n)) (
                  rw (drop-drop n sent pkts, order)
                    (send_loop_lem fuel q' pkts (sent + n) small (omega arith) (omega arith))) in
              (end, ground arith, w)
        ])

  -- `dpdk_send_all_packets`, with fewer than 2 ^ 16 packets, on a card that takes nothing at most
  -- `most` times in a row, returns after at most `most + 1` calls of the card for each packet, and
  -- `most + 1` more; every packet has gone out, once and in order.
  pub dpdk_send_all_packets_lem :
      (q : api.Queue) (pkts : List ℕ)
      → length pkts < 2 ^ 16
      → (end : api.Queue) × (dpdk_send_all_packets api (suc (length pkts) * suc d.most) q pkts
          ≡ some end)
        × (api.wire end ≡ api.wire q ++ pkts)
  unfolding dpdk_send_all_packets
  dpdk_send_all_packets_lem q pkts small =
      let bound = d.patience_bound q in
      let scale : (length pkts - 0) * suc d.most ≡ length pkts * suc d.most =
        ap (λ x. x * suc d.most) (omega arith) in
      send_loop_lem (suc (length pkts) * suc d.most) q pkts 0 small (omega arith) (omega arith)

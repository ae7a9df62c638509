-- ===== src/Receive/Stamps.antt =====
-- What the packets of a burst are stamped with, and when the loop ends.
use mathlib.Core.Path.{subst}
use libmoon.Prelude.{
  ℕ, zero, suc, ◌+◌, ◌*◌, ◌%◌, ◌^◌, ◌<◌, ◌≡◌, refl, ap, true, false, Option, some, List, [], ◌∷◌,
  arith, get_elem?, map,
}
use libmoon.Lifecycle.{Lifecycle, is_running}
use libmoon.Receive.{Stamp, stamp, receive_loop, dpdk_receive_with_timestamps_software}

-- The time stamp of the buffer behind one of `size` bytes.
abbrev pub after_size : ℕ → ℕ → ℕ → ℕ
after_size cycles_per_byte tsc size =
    (tsc + (size + 24) % 2 ^ 16 * cycles_per_byte % 2 ^ 32) % 2 ^ 64

stamp_later :
    (cpb : ℕ) (pkt_len : ℕ → ℕ) (tsc prev : ℕ) (pkts : List ℕ) (i p q : ℕ)
    → get_elem? pkts i ≡ some p
    → get_elem? pkts (suc i) ≡ some q
    → get_elem? (stamp cpb pkt_len tsc prev pkts) (suc i) ≡ some (q, after_size cpb tsc (pkt_len p))
unfolding stamp
stamp_later cpb pkt_len tsc prev [] i p q h k = cc
stamp_later cpb pkt_len tsc prev (x ∷ []) zero p q h k = cc
stamp_later cpb pkt_len tsc prev (x ∷ y ∷ pkts) zero p q h k = ground arith
stamp_later cpb pkt_len tsc prev (x ∷ pkts) (suc i) p q h k =
    stamp_later cpb pkt_len tsc ((pkt_len x + 24) % 2 ^ 16) pkts i p q h k

stamp_bufs :
    (cpb : ℕ) (pkt_len : ℕ → ℕ) (tsc prev : ℕ) (pkts : List ℕ)
    → map (λ s. s.0) (stamp cpb pkt_len tsc prev pkts) ≡ pkts
unfolding stamp
stamp_bufs cpb pkt_len tsc prev [] = refl
stamp_bufs cpb pkt_len tsc prev (x ∷ pkts) =
    ap (λ r. x ∷ r) (stamp_bufs cpb pkt_len tsc ((pkt_len x + 24) % 2 ^ 16) pkts)

module _ {Queue : Type 0} (rx_burst : Queue → List ℕ × Queue) (hz : ℕ) (clock : ℕ → ℕ)
    (l : Lifecycle) where
  -- The queue after `k` receive calls.
  abbrev pub after_bursts : ℕ → Queue → Queue
  after_bursts zero q = q
  after_bursts (suc k) q = after_bursts k (rx_burst q).1

  -- The run goes on and the queue is empty for `k` rounds from reading `i` on.
  abbrev pub Idle : ℕ → ℕ → Queue → Type 0
  Idle zero i q = Unit
  Idle (suc k) i q =
      (is_running hz (clock i) 0 l ≡ true) × ((rx_burst q).0 ≡ []) × Idle k (i + 2) (rx_burst q).1

  -- The idle rounds change nothing but the queue and the number of readings.
  receive_loop-Idle :
      (k fuel cpb : ℕ) (pkt_len : ℕ → ℕ) (i : ℕ) (q : Queue) {r : Option (List Stamp × Queue)}
      → Idle k i q
      → k < fuel
      → ((n j : ℕ)
          → j ≡ i + 2 * k
          → receive_loop rx_burst hz clock l (suc n) cpb pkt_len j (after_bursts k q) ≡ r)
      → receive_loop rx_burst hz clock l fuel cpb pkt_len i q ≡ r
  unfolding receive_loop
  receive_loop-Idle k zero cpb pkt_len i q idle h last = ground arith
  receive_loop-Idle zero (suc fuel) cpb pkt_len i q idle h last = last fuel i (omega arith)
  receive_loop-Idle (suc k) (suc fuel) cpb pkt_len i q (on, empty, idle) h last = ground (
    arith,
    receive_loop-Idle k fuel cpb pkt_len (i + 2) (rx_burst q).1 idle (omega (arith, h))
        (λ n j e. last n j (omega (arith, e))),
  )

  -- If the receive queue stays empty and the run goes on for `k` rounds, and the run is over at the
  -- test of the next round, then the function returns without a buffer and has made `k` receive
  -- calls, for every fuel above `k`.
  pub dpdk_receive_with_timestamps_software_stops :
      (k fuel cpb : ℕ) (pkt_len : ℕ → ℕ) (q : Queue)
      → Idle k 0 q
      → k < fuel
      → is_running hz (clock (2 * k)) 0 l ≡ false
      → dpdk_receive_with_timestamps_software rx_burst hz clock l fuel cpb pkt_len q
        ≡ some ([], after_bursts k q)
  unfolding dpdk_receive_with_timestamps_software receive_loop
  dpdk_receive_with_timestamps_software_stops k fuel cpb pkt_len q idle h over =
      receive_loop-Idle k fuel cpb pkt_len 0 q idle h (λ n j e.
        let now : is_running hz (clock j) 0 l ≡ false =
          subst (λ t. is_running hz (clock t) 0 l ≡ false) (omega (arith, e)) over in
        ground (arith, now))

  receive_once :
      (n cpb : ℕ) (pkt_len : ℕ → ℕ) (i j : ℕ) (q : Queue) {x : ℕ} {pkts : List ℕ}
      → i ≡ j
      → is_running hz (clock i) 0 l ≡ true
      → (rx_burst q).0 ≡ x ∷ pkts
      → receive_loop rx_burst hz clock l (suc n) cpb pkt_len j q
        ≡ some (stamp cpb pkt_len (clock (i + 1)) 0 (x ∷ pkts), (rx_burst q).1)
  unfolding receive_loop
  receive_once n cpb pkt_len i j q {x} {pkts} same on got =
      subst
        (λ j.
          receive_loop rx_burst hz clock l (suc n) cpb pkt_len j q
          ≡ some (stamp cpb pkt_len (clock (i + 1)) 0 (x ∷ pkts), (rx_burst q).1))
        same (rw (on, got) (ground arith))

  -- If the receive queue stays empty and the run goes on for `k` rounds, the run is not over at the
  -- next round's test and that round receives the buffers `x ∷ pkts`, then, for every fuel above
  -- `k`, the function returns these buffers in their order; the first has the clock's reading of
  -- that round as its time stamp, and each later one this reading plus the length of the one buffer
  -- before it and 24, in 16 bits, times the cycles per byte, in 32 bits, modulo 2 ^ 64.
  pub dpdk_receive_with_timestamps_software_delivers :
      (k fuel cpb : ℕ) (pkt_len : ℕ → ℕ) (q : Queue) (x : ℕ) (pkts : List ℕ)
      → Idle k 0 q
      → k < fuel
      → is_running hz (clock (2 * k)) 0 l ≡ true
      → (rx_burst (after_bursts k q)).0 ≡ x ∷ pkts
      → (stamps : List Stamp) × (dpdk_receive_with_timestamps_software rx_burst hz clock l fuel cpb
            pkt_len q
          ≡ some (stamps, (rx_burst (after_bursts k q)).1))
        × (map (λ s. s.0) stamps ≡ x ∷ pkts)
        × (get_elem? stamps 0 ≡ some (x, clock (2 * k + 1) % 2 ^ 64))
        × ((i p r : ℕ)
            → get_elem? (x ∷ pkts) i ≡ some p
            → get_elem? (x ∷ pkts) (suc i) ≡ some r
            → get_elem? stamps (suc i) ≡ some (r, after_size cpb (clock (2 * k + 1)) (pkt_len p)))
  unfolding dpdk_receive_with_timestamps_software receive_loop stamp
  dpdk_receive_with_timestamps_software_delivers k fuel cpb pkt_len q x pkts idle h on got = (
    stamp cpb pkt_len (clock (2 * k + 1)) 0 (x ∷ pkts),
    receive_loop-Idle k fuel cpb pkt_len 0 q idle h (λ n j e.
        receive_once n cpb pkt_len (2 * k) j (after_bursts k q) (omega (arith, e)) on got),
    stamp_bufs cpb pkt_len (clock (2 * k + 1)) 0 (x ∷ pkts),
    ground arith,
    stamp_later cpb pkt_len (clock (2 * k + 1)) 0 (x ∷ pkts),
  )

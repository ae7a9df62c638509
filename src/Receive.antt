-- ===== src/Receive.antt =====
-- src/device.c: receiving with a time stamp of software on each packet. The receive queue of the card
-- and the clock are parameters: `clock i` is the time stamp counter at its i-th reading, which
-- `is_running` and `read_rdtsc` take in turn. `cycles_per_byte` is what the code computes from the
-- frequency in floating point.
pub mod Stamps
mod Tests
use libmoon.Prelude.{
  ℕ, zero, suc, ◌+◌, ◌*◌, ◌%◌, ◌^◌, Bool, true, false, Option, none, some, List, [], ◌∷◌, length,
  ltb, if◌then◌else◌, ◌==◌,
}
use libmoon.Lifecycle.{Lifecycle, is_running}

-- A buffer and the time stamp in it.
abbrev pub Stamp : Type 0
Stamp = ℕ × ℕ

-- The `for` over the buffers received. `prev_pkt_size` has 16 bits, its product with
-- `cycles_per_byte` 32.
pub stamp : ℕ → (ℕ → ℕ) → ℕ → ℕ → List ℕ → List Stamp
stamp cycles_per_byte pkt_len tsc prev_pkt_size [] = []
stamp cycles_per_byte pkt_len tsc prev_pkt_size (pkt ∷ pkts) =
    (pkt, (tsc + prev_pkt_size * cycles_per_byte % 2 ^ 32) % 2 ^ 64)
    ∷ stamp cycles_per_byte pkt_len tsc ((pkt_len pkt + 24) % 2 ^ 16) pkts

module _ {Queue : Type 0} (rx_burst : Queue → List ℕ × Queue) (hz : ℕ) (clock : ℕ → ℕ)
    (l : Lifecycle) where
  -- The `while` on fuel, `i` readings of the clock after the start: what was received, with its time
  -- stamps; the outer `none` means that the fuel ran out.
  pub receive_loop : ℕ → ℕ → (ℕ → ℕ) → ℕ → Queue → Option (List Stamp × Queue)
  unfolding stamp
  receive_loop zero cycles_per_byte pkt_len i q = none
  receive_loop (suc fuel) cycles_per_byte pkt_len i q =
      let (pkts, q') = rx_burst q in
      let rest = receive_loop fuel cycles_per_byte pkt_len (i + 2) q' in
      if is_running hz (clock i) 0 l
      then (if ltb 0 (length pkts)
          then some (stamp cycles_per_byte pkt_len (clock (i + 1)) 0 pkts, q')
          else rest)
      else some ([], q)

  pub dpdk_receive_with_timestamps_software : ℕ → ℕ → (ℕ → ℕ) → Queue → Option (List Stamp × Queue)
  unfolding receive_loop
  dpdk_receive_with_timestamps_software fuel cycles_per_byte pkt_len q =
      receive_loop fuel cycles_per_byte pkt_len 0 q

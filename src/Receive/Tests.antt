-- ===== src/Receive/Tests.antt =====
-- Runs of the receive loop of src/device.c.
use libmoon.Prelude.{ℕ, suc, ◌+◌, ◌*◌, ◌≡◌, refl, some, List, [], ◌∷◌, arith, get_elem?, map}
use libmoon.Lifecycle.{Lifecycle, never, is_running}
use libmoon.Receive.{Stamp, dpdk_receive_with_timestamps_software}
use libmoon.Receive.Stamps.{
  after_size, after_bursts, dpdk_receive_with_timestamps_software_stops,
  dpdk_receive_with_timestamps_software_delivers,
}

-- A queue is the list of the bursts to come.
abbrev bursts : List (List ℕ) → List ℕ × List (List ℕ)
bursts [] = ([], [])
bursts (b ∷ bs) = (b, bs)

abbrev ticks : ℕ → ℕ
ticks i = 1000 + 10 * i

abbrev until : ℕ → Lifecycle
until t = record { stop_at = t; signal_at = never }

-- The buffers 1, 2 and 3 hold 60 bytes each.
abbrev sixty : ℕ → ℕ
sixty pkt = 60

dpdk_receive_with_timestamps_software_stops_example :
    dpdk_receive_with_timestamps_software bursts 1000 ticks (until 1030) 5 2 sixty ([] ∷ [] ∷ [])
    ≡ some ([], after_bursts bursts 1000 ticks (until 1030) 2 ([] ∷ [] ∷ []))
unfolding is_running
dpdk_receive_with_timestamps_software_stops_example =
    dpdk_receive_with_timestamps_software_stops bursts 1000 ticks (until 1030) 2 5 2 sixty
      ([] ∷ [] ∷ []) (refl, refl, (refl, refl, tt)) (omega arith) refl

-- The third buffer is not stamped later than the second.
dpdk_receive_with_timestamps_software_delivers_example :
    (stamps : List Stamp) × (dpdk_receive_with_timestamps_software bursts 1000 ticks
        (until 1030)
        5
        2
        sixty
        ([] ∷ (1 ∷ 2 ∷ 3 ∷ []) ∷ [])
      ≡ some (stamps, []))
    × (map (λ s. s.0) stamps ≡ 1 ∷ 2 ∷ 3 ∷ [])
    × (get_elem? stamps 0 ≡ some (1, 1030))
    × ((i p r : ℕ)
        → get_elem? (1 ∷ 2 ∷ 3 ∷ []) i ≡ some p
        → get_elem? (1 ∷ 2 ∷ 3 ∷ []) (suc i) ≡ some r
        → get_elem? stamps (suc i) ≡ some (r, after_size 2 1030 60))
unfolding is_running
dpdk_receive_with_timestamps_software_delivers_example =
    dpdk_receive_with_timestamps_software_delivers bursts 1000 ticks (until 1030) 1 5 2 sixty
      ([] ∷ (1 ∷ 2 ∷ 3 ∷ []) ∷ []) 1 (2 ∷ 3 ∷ []) (refl, refl, tt) (omega arith) refl refl

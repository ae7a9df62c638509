-- ===== src/SwapMacs.antt =====
-- examples/c-integration/swap-macs.c: swapping the addresses of packets from C.
-- The data of a buffer is the list of its bytes; buffers do not share memory. `none` is a read behind
-- the end of the array of buffers.
pub mod Frames
mod Tests
use libmoon.Prelude.{ℕ, zero, suc, ◌+◌, Option, none, some, List, [], ◌∷◌, load16, store16}

-- The body of the loop: `pkt[i]` is the 16-bit word at byte 2 * i.
pub swap_mac : List ℕ → List ℕ
swap_mac pkt =
    let tmp1 = load16 pkt 0 in
    let tmp2 = load16 pkt 2 in
    let tmp3 = load16 pkt 4 in
    let pkt1 = store16 pkt 0 (load16 pkt 6) in
    let pkt2 = store16 pkt1 2 (load16 pkt1 8) in
    let pkt3 = store16 pkt2 4 (load16 pkt2 10) in
    let pkt4 = store16 pkt3 6 tmp1 in let pkt5 = store16 pkt4 8 tmp2 in store16 pkt5 10 tmp3

pub swap_macs : List (List ℕ) → ℕ → Option (List (List ℕ))
swap_macs mbufs zero = some mbufs
swap_macs [] (suc num_bufs) = none
swap_macs (pkt ∷ mbufs) (suc num_bufs) = elim (swap_macs mbufs num_bufs) [
  | none ↦ none
  | some swapped ↦ some (swap_mac pkt ∷ swapped)
]

-- ===== src/RteRing.antt =====
-- The bounded ring of DPDK (rte_ring.h), which the ring wrappers of src/ call and which is no part of
-- this repository: its operations and their documented behaviour, as the parameter of those modules.
-- An object is the address of a packet buffer. `items` is what the ring holds, oldest first.
-- `Fifo` is a concrete ring that meets the documentation, for examples.
mod Defs
pub mod Fifo
pub mod Calls
pub use Defs.*

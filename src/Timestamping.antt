-- ===== src/Timestamping.antt =====
-- src/timestamping.c, src/timestamping.h and the files of the three drivers: clocks and time stamps.
-- A register file with running clocks is a parameter, and so are `qsort` and the dynamic fields of
-- DPDK. An `int32_t` is its bit pattern.
pub mod Clocks
pub mod Fields
mod Tests
use libmoon.Prelude.{
  ℕ, zero, suc, ◌+◌, ◌-◌, ◌*◌, ◌/◌, ◌%◌, ◌^◌, Bool, true, false, Option, none, some, List, [], ◌∷◌,
  ◌==◌, ltb, leb, if◌then◌else◌, sub32, get_or, ◌&&◌,
}

-- Memory-mapped registers: `write_reg32` and reads through `get_reg_addr`. Time passes between them.
pub record Registers : Type 1 where
  pub Cards : Type 0
  pub write_reg32 : ℕ → ℕ → ℕ → Cards → Cards
  pub read_reg32 : ℕ → ℕ → Cards → ℕ × Cards

-- `cmp`: -1, 0 or 1
pub data Order : Type 0 where
  less equal greater : Order

-- The place of a signed number among the signed numbers.
abbrev pub rank : ℕ → ℕ
rank w = (w + 2 ^ 31) % 2 ^ 32

abbrev pub cmp : ℕ → ℕ → Order
cmp offs1 offs2 =
    if ltb (rank offs1) (rank offs2)
    then less
    else if ltb (rank offs2) (rank offs1)
    then greater
    else equal

abbrev pub distance : ℕ → ℕ → ℕ
distance a b = if ltb a b then b - a else a - b

-- `delta_t + x1 - x2`, with `delta_t` half the distance of x1 + y1 and x2 + y2
abbrev pub offset_of : ℕ → ℕ → ℕ → ℕ → ℕ
offset_of x1 x2 y1 y2 =
    let delta_t : ℕ = distance (x1 + y1) (x2 + y2) / 2 % 2 ^ 32 in
    sub32 ((delta_t + x1) % 2 ^ 32) x2

module _ (api : Registers) where
  -- One round of the measurement.
  abbrev pub measure_once : ℕ → ℕ → ℕ → api.Cards → ℕ × api.Cards
  measure_once port1 port2 timl s =
      let (x1, s1) = api.read_reg32 port1 timl s in
      let (x2, s2) = api.read_reg32 port2 timl s1 in
      let (y1, s3) = api.read_reg32 port2 timl s2 in
      let (y2, s4) = api.read_reg32 port1 timl s3 in (offset_of x1 x2 y1 y2, s4)

  pub measure : ℕ → ℕ → ℕ → ℕ → api.Cards → List ℕ × api.Cards
  measure zero port1 port2 timl s = ([], s)
  measure (suc runs) port1 port2 timl s =
      let (offs, s') = measure_once port1 port2 timl s in
      let (offsets, end) = measure runs port1 port2 timl s' in (offs ∷ offsets, end)

  -- The four writes of 0 at the start, in the order of the code.
  abbrev pub reset : ℕ → ℕ → ℕ → ℕ → api.Cards → api.Cards
  reset port1 port2 timl timh s =
      api.write_reg32 port2 timh 0 (
        api.write_reg32 port1 timh 0
          (api.write_reg32 port2 timl 0 (api.write_reg32 port1 timl 0 s)))

  -- An offset of 0 is not supported by the hardware.
  abbrev pub adjust : ℕ → ℕ → ℕ → ℕ → api.Cards → api.Cards
  adjust port2 adjl adjh offs s =
      if offs == 0
      then s
      else let negative : Bool = leb (2 ^ 31) offs in
        api.write_reg32 port2 adjh (if negative then 2 ^ 31 else 0)
          (api.write_reg32 port2 adjl (if negative then 2 ^ 32 - offs else offs) s)

  module _ (qsort : (ℕ → ℕ → Order) → List ℕ → List ℕ) where
    pub libmoon_sync_clocks : ℕ → ℕ → ℕ → ℕ → ℕ → ℕ → api.Cards → api.Cards
    libmoon_sync_clocks port1 port2 timl timh adjl adjh s =
        let s1 = reset port1 port2 timl timh s in
        let s2 = api.write_reg32 port2 timl 0 (api.write_reg32 port1 timl 0 s1) in
        let (offsets, s3) = measure 7 port1 port2 timl s2 in
        if port1 == port2 then s1 else adjust port2 adjl adjh (get_or (qsort cmp offsets) 3 0) s3

-- The bytes of a `struct rte_mbuf`.
abbrev pub Bytes : Type 0
Bytes = ℕ → ℕ

-- Where the time stamp lies in a buffer; `none` is a negative `timestamp_field_offset`.
abbrev pub byte_of : ℕ → ℕ → ℕ
byte_of v zero = v % 256
byte_of v (suc i) = byte_of (v / 256) i

abbrev pub word_at : Bytes → ℕ → ℕ → ℕ
word_at m p zero = 0
word_at m p (suc left) = m p + 256 * word_at m (p + 1) left

pub get_timestamp_dynfield : ℕ → Bytes → ℕ
get_timestamp_dynfield offset m = word_at m offset 8

pub set_timestamp_dynfield : ℕ → Bytes → ℕ → Bytes
set_timestamp_dynfield offset m timestamp p =
    if leb offset p && ltb p (offset + 8) then byte_of timestamp (p - offset) else m p

-- `rte_mbuf_dynfield_lookup`, then `rte_mbuf_dyn_rx_timestamp_register`, which writes the offset if it
-- does not fail.
abbrev pub registered : Option ℕ → Option ℕ → Option ℕ
registered (some offset) register = some offset
registered none register = register

pub init_timestamp_dynfield_offset : Option ℕ → Option ℕ → Option ℕ
init_timestamp_dynfield_offset lookup register = registered lookup register

-- `struct rte_timecounter`
pub record TimeCounter : Type 0 where
  pub cycle_last : ℕ
  pub nsec : ℕ
  pub nsec_frac : ℕ
  pub rest : ℕ

abbrev pub libmoon_reset_timecounter : TimeCounter → TimeCounter
libmoon_reset_timecounter tc = record tc { nsec = 0; nsec_frac = 0; cycle_last = 0 }

-- The counters of `struct i40e_adapter`, `struct e1000_adapter` and `struct ixgbe_adapter`.
pub record Adapter : Type 0 where
  pub systime_tc : TimeCounter
  pub rx_tstamp_tc : TimeCounter
  pub tx_tstamp_tc : TimeCounter

abbrev pub reset_at : (ℕ → Adapter) → ℕ → ℕ → Adapter
reset_at adapters port_id q =
    if q == port_id
    then record {
      systime_tc = libmoon_reset_timecounter (adapters q).systime_tc;
      rx_tstamp_tc = libmoon_reset_timecounter (adapters q).rx_tstamp_tc;
      tx_tstamp_tc = libmoon_reset_timecounter (adapters q).tx_tstamp_tc;
    }
    else adapters q

-- `is_valid` is RTE_ETH_VALID_PORTID_OR_ERR_RET; the Boolean is whether 0 is returned, not -ENODEV.
module _ (is_valid : ℕ → Bool) where
  pub libmoon_i40e_reset_timecounters : ℕ → (ℕ → Adapter) → Bool × (ℕ → Adapter)
  libmoon_i40e_reset_timecounters port_id adapters =
      if is_valid port_id then (true, reset_at adapters port_id) else (false, adapters)

  pub libmoon_igb_reset_timecounters : ℕ → (ℕ → Adapter) → Bool × (ℕ → Adapter)
  libmoon_igb_reset_timecounters port_id adapters =
      if is_valid port_id then (true, reset_at adapters port_id) else (false, adapters)

  pub libmoon_ixgbe_reset_timecounters : ℕ → (ℕ → Adapter) → Bool × (ℕ → Adapter)
  libmoon_ixgbe_reset_timecounters port_id adapters =
      if is_valid port_id then (true, reset_at adapters port_id) else (false, adapters)

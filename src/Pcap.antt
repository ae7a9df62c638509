-- ===== src/Pcap.antt =====
-- src/pcap.cpp: packets to and from the records of a pcap file.
-- A pointer into the mapped file is the list of the bytes from there to the end of the mapping, and a
-- read past the end is a fault. `alloc` is `rte_pktmbuf_alloc` of DPDK.
pub mod Bounds
pub mod RoundTrip
mod Tests
use libmoon.Prelude.{
  ℕ, zero, suc, ◌+◌, ◌-◌, ◌*◌, ◌/◌, ◌%◌, ◌^◌, min, Bool, Option, none, some, List, [], ◌∷◌, ◌++◌,
  length, take, drop, replicate, ltb, leb, if◌then◌else◌, add32, sub32, sub64, load32,
}

-- A uint32_t as its four bytes.
abbrev pub le32 : ℕ → List ℕ
le32 v = v % 256 ∷ v / 256 % 256 ∷ v / 2 ^ 16 % 256 ∷ v / 2 ^ 24 ∷ []

-- The bytes that `libmoon_write_pcap` puts at `dst`: `struct pcapRecHeader`, then the packet.
pub libmoon_write_pcap : List ℕ → ℕ → ℕ → ℕ → ℕ → List ℕ
libmoon_write_pcap packet len orig_len ts_sec ts_usec =
    le32 ts_sec ++ (le32 ts_usec ++ (le32 len ++ (le32 orig_len ++ take len packet)))

-- A buffer that was read: its fields, and the bytes written from the start of its data room.
pub record Packet : Type 0 where
  pub mbuf : ℕ
  pub pkt_len : ℕ
  pub data_len : ℕ
  pub timestamp : ℕ
  pub bytes : List ℕ

-- A packet, nullptr, or a read past the end of the mapping.
pub data Result : Type 0 where
  packet : Packet → Result
  null fault : Result

abbrev pub incl_len : List ℕ → ℕ
incl_len src = load32 src 8

abbrev pub orig_len : List ℕ → ℕ
orig_len src = load32 src 12

-- The bytes that are copied, and those that are filled with zeros behind them.
pub copy_len : ℕ → List ℕ → ℕ
copy_len mempool_buf_size src =
    if ltb (sub32 mempool_buf_size 128) (incl_len src)
    then sub32 mempool_buf_size 128
    else incl_len src

pub zero_fill_len : ℕ → List ℕ → ℕ
zero_fill_len mempool_buf_size src =
    min (sub32 (sub32 mempool_buf_size (copy_len mempool_buf_size src)) 128)
      (sub32 (orig_len src) (incl_len src))

pub timestamp_of : Bool → List ℕ → ℕ
timestamp_of nanosecond_timestamps src =
    (load32 src 0 * 1000000000
      + (if nanosecond_timestamps then load32 src 4 else load32 src 4 * 1000))
    % 2 ^ 64

-- The packet in the allocated buffer `res`.
pub fill : ℕ → Bool → List ℕ → ℕ → Packet
fill mempool_buf_size nanosecond_timestamps src res =
    let copied = copy_len mempool_buf_size src in
    let zeros = zero_fill_len mempool_buf_size src in
    record {
      mbuf = res;
      pkt_len = incl_len src;
      data_len = add32 copied zeros % 2 ^ 16;
      timestamp = timestamp_of nanosecond_timestamps src;
      bytes = take copied (drop 16 src) ++ replicate zeros 0;
    }

-- `memcpy` reads the bytes that it copies.
abbrev pub copied : ℕ → Bool → List ℕ → Option ℕ → Result
copied mempool_buf_size nanosecond_timestamps src none = null
copied mempool_buf_size nanosecond_timestamps src (some res) =
    if leb (16 + copy_len mempool_buf_size src) (length src)
    then packet (fill mempool_buf_size nanosecond_timestamps src res)
    else fault

module _ {Pool : Type 0} (alloc : Pool → Option ℕ × Pool) where
  abbrev then_copy : ℕ → Bool → List ℕ → Option ℕ × Pool → Result × Pool
  then_copy mempool_buf_size nanosecond_timestamps src (res, mp) =
      (copied mempool_buf_size nanosecond_timestamps src res, mp)

  -- `libmoon_read_pcap`: `incl_len` lies in the bytes 8 to 11 of the header, `orig_len` behind it.
  pub libmoon_read_pcap : Pool → List ℕ → ℕ → ℕ → Bool → Result × Pool
  libmoon_read_pcap mp src remaining mempool_buf_size nanosecond_timestamps =
      if ltb (length src) 12
      then (fault, mp)
      else if leb remaining (incl_len src)
      then (null, mp)
      else if ltb (length src) 16
      then (fault, mp)
      else then_copy mempool_buf_size nanosecond_timestamps src (alloc mp)

  -- What `libmoon_read_pcap_batch` has: the buffers read so far, and whether it faulted. The number
  -- that it returns is the number of the buffers.
  pub record Batch : Type 0 where
    pub bufs : List Packet
    pub faulted : Bool
    pub pool : Pool

  -- The loop, `num_bufs` rounds of it left.
  pub libmoon_read_pcap_batch : Pool → ℕ → List ℕ → ℕ → ℕ → Bool → Batch
  libmoon_read_pcap_batch mp zero pcap remaining mempool_buf_size nanosecond_timestamps = record {
    bufs = [];
    faulted = Bool.false;
    pool = mp;
  }
  libmoon_read_pcap_batch mp (suc num_bufs) pcap remaining mempool_buf_size nanosecond_timestamps =
      let (buf, mp') = libmoon_read_pcap mp pcap remaining mempool_buf_size nanosecond_timestamps in
      let rest =
        libmoon_read_pcap_batch mp' num_bufs (drop (incl_len pcap + 16) pcap)
          (sub64 remaining (incl_len pcap + 16)) mempool_buf_size nanosecond_timestamps in
      elim buf [
        | packet p ↦ record rest { bufs = p ∷ rest.bufs }
        | null ↦ record { bufs = []; faulted = Bool.false; pool = mp' }
        | fault ↦ record { bufs = []; faulted = Bool.true; pool = mp' }
      ]

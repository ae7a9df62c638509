-- ===== src/Pcap/Tests.antt =====
-- A file of two small packets, and the theorems at it.
use libmoon.Prelude.{
  ℕ, ◌+◌, ◌≡◌, refl, false, Option, some, List, [], ◌∷◌, ◌++◌, arith, map, inr, replicate,
}
use libmoon.Pcap.{
  Packet, packet, fault, libmoon_write_pcap, copy_len, zero_fill_len, fill, timestamp_of,
  libmoon_read_pcap, libmoon_read_pcap_batch,
}
use libmoon.Pcap.RoundTrip.{Record, file, content, packet_of, read_batch_written, read_past_end}

-- A pool that hands out the next address.
abbrev alloc : ℕ → Option ℕ × ℕ
alloc next = (some next, next + 1)

abbrev records : List Record
records =
    record { payload = 1 ∷ 2 ∷ 3 ∷ []; ts_sec = 10; ts_usec = 500 }
    ∷ record { payload = 4 ∷ []; ts_sec = 11; ts_usec = 0 }
    ∷ []

-- A record cut to two of five bytes; and one whose last byte is missing.
abbrev cut : List ℕ
cut = libmoon_write_pcap (7 ∷ 8 ∷ []) 2 5 1 0

abbrev cut_packet : Packet
cut_packet = record {
  mbuf = 9;
  pkt_len = 2;
  data_len = 5;
  timestamp = 1000000000;
  bytes = 7 ∷ 8 ∷ 0 ∷ 0 ∷ 0 ∷ [];
}

abbrev truncated : List ℕ
truncated = replicate 8 0 ++ (3 ∷ 0 ∷ 0 ∷ 0 ∷ 3 ∷ 0 ∷ 0 ∷ 0 ∷ 1 ∷ 2 ∷ [])

reads_cut : (libmoon_read_pcap alloc 9 cut 18 2048 false).0 ≡ packet cut_packet
unfolding libmoon_read_pcap libmoon_write_pcap copy_len zero_fill_len fill timestamp_of
reads_cut = refl

read_batch_written_example :
    let batch = libmoon_read_pcap_batch alloc 9 2 (file records []) 36 2048 false in
    (map content batch.bufs ≡ map (λ r. packet_of false r 0) records) × (batch.faulted ≡ false)
unfolding libmoon_write_pcap
read_batch_written_example =
    read_batch_written alloc 9 records [] 36 2048 false (omega arith) (omega arith)
      ((9, refl), ((10, refl), tt)) (omega arith) (omega arith)

read_past_end_example : (libmoon_read_pcap alloc 9 truncated 18 2048 false).0 ≡ fault
read_past_end_example =
    read_past_end alloc 9 truncated 18 2048 false {res = 9} (omega arith) (omega arith)
      (omega arith) refl (inr (omega arith))

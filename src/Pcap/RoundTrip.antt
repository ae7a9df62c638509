-- ===== src/Pcap/RoundTrip.antt =====
-- What is written is read back.
use libmoon.Prelude.{
  ℕ, zero, suc, ◌+◌, ◌*◌, ◌/◌, ◌%◌, ◌^◌, ◌≤◌, ◌<◌, ◌≡◌, refl, ap, ◌∙◌, sym, Bool, false, Option,
  some, List, [], ◌∷◌, ◌++◌, arith, length, take, drop, length-append, length-take, take_all,
  take-append_length, drop-drop, drop-append_length, map, ◌⊎◌, append-nil, load32, sub64,
  if◌then◌else◌,
}
use libmoon.Pcap.{
  Packet, packet, fault, incl_len, orig_len, libmoon_write_pcap, copy_len, zero_fill_len,
  timestamp_of, fill, libmoon_read_pcap, libmoon_read_pcap_batch,
}

-- A packet to write: its bytes and its two time stamps.
pub record Record : Type 0 where
  pub payload : List ℕ
  pub ts_sec : ℕ
  pub ts_usec : ℕ

-- The record of a whole packet.
abbrev pub written : Record → List ℕ
written r = libmoon_write_pcap r.payload (length r.payload) (length r.payload) r.ts_sec r.ts_usec

-- The fields have 32 bits, and the packet fits into a buffer of `size` bytes.
pub record IsRecord (size : ℕ) (r : Record) : Type 0 where
  pub sec : r.ts_sec < 2 ^ 32
  pub usec : r.ts_usec < 2 ^ 32
  pub room : length r.payload + 128 ≤ size

-- The packet that a record stands for, in the buffer `res`.
abbrev pub packet_of : Bool → Record → ℕ → Packet
packet_of ns r res = record {
  mbuf = res;
  pkt_len = length r.payload;
  data_len = length r.payload;
  timestamp = r.ts_sec * 1000000000 + (if ns then r.ts_usec else r.ts_usec * 1000);
  bytes = r.payload;
}

le32_load :
    (v : ℕ)
    → v < 2 ^ 32
    → v % 256 + 256 * (v / 256 % 256) + 2 ^ 16 * (v / 2 ^ 16 % 256 + 256 * (v / 2 ^ 24)) ≡ v
le32_load v h = omega arith

module _ (size : ℕ) (small : size < 2 ^ 16) (r : Record) (v : IsRecord size r) (rest : List ℕ) where
  incl_len-written : incl_len (written r ++ rest) ≡ length r.payload
  unfolding libmoon_write_pcap
  incl_len-written = le32_load (length r.payload) (omega (arith, v.room))

  orig_len-written : orig_len (written r ++ rest) ≡ length r.payload
  unfolding libmoon_write_pcap
  orig_len-written = le32_load (length r.payload) (omega (arith, v.room))

  sec-written : load32 (written r ++ rest) 0 ≡ r.ts_sec
  unfolding libmoon_write_pcap
  sec-written = le32_load r.ts_sec v.sec

  usec-written : load32 (written r ++ rest) 4 ≡ r.ts_usec
  unfolding libmoon_write_pcap
  usec-written = le32_load r.ts_usec v.usec

  drop-written : drop 16 (written r ++ rest) ≡ r.payload ++ rest
  unfolding libmoon_write_pcap
  drop-written = ap (λ l. l ++ rest) (take_all (length r.payload) r.payload (omega arith))

  length-written : length (written r ++ rest) ≡ 16 + length r.payload + length rest
  unfolding libmoon_write_pcap
  length-written = omega (
    arith,
    length-append (take (length r.payload) r.payload) rest,
    length-take (length r.payload) r.payload,
  )

  copy-written : copy_len size (written r ++ rest) ≡ length r.payload
  unfolding copy_len
  copy-written = ground (arith, incl_len-written, v.room)

  zero-written : zero_fill_len size (written r ++ rest) ≡ 0
  unfolding zero_fill_len
  zero-written = omega (arith, incl_len-written, orig_len-written, v.room)

  fill-written : (ns : Bool) (res : ℕ) → fill size ns (written r ++ rest) res ≡ packet_of ns r res
  unfolding fill timestamp_of
  fill-written ns res = ground (
    arith,
    incl_len-written,
    sec-written,
    usec-written,
    drop-written,
    copy-written,
    zero-written,
    v.sec,
    v.usec,
    v.room,
    take-append_length r.payload rest,
    append-nil r.payload,
  )

  module _ {Pool : Type 0} (alloc : Pool → Option ℕ × Pool) where
    read-written :
        (mp : Pool) (remaining res : ℕ) (ns : Bool)
        → length r.payload < remaining
        → (alloc mp).0 ≡ some res
        → libmoon_read_pcap alloc mp (written r ++ rest) remaining size ns
          ≡ (packet (packet_of ns r res), (alloc mp).1)
    unfolding libmoon_read_pcap
    read-written mp remaining res ns admitted got =
        ground (arith, incl_len-written, length-written, copy-written, fill-written ns res)

  next-written : drop (incl_len (written r ++ rest) + 16) (written r ++ rest) ≡ rest
  next-written = rw incl_len-written (
      sym (drop-drop (length r.payload) 16 (written r ++ rest))
      ∙ ap (drop (length r.payload)) drop-written
      ∙ drop-append_length r.payload rest)

-- A file of records, with what follows them.
abbrev pub file : List Record → List ℕ → List ℕ
file [] rest = rest
file (r ∷ rs) rest = written r ++ file rs rest

abbrev pub AllRecords : ℕ → List Record → Type 0
AllRecords size [] = Unit
AllRecords size (r ∷ rs) = IsRecord size r × AllRecords size rs

-- A packet but for the address of its buffer.
abbrev pub content : Packet → Packet
content p = record p { mbuf = 0 }

module _ {Pool : Type 0} (alloc : Pool → Option ℕ × Pool) where
  -- The pool has `n` buffers to give.
  abbrev pub Gives : Pool → ℕ → Type 0
  Gives mp zero = Unit
  Gives mp (suc n) = ((res : ℕ) × ((alloc mp).0 ≡ some res)) × Gives (alloc mp).1 n

  batch_step :
      (mp mp' : Pool) (n : ℕ) (src : List ℕ) (remaining size : ℕ) (ns : Bool) (p : Packet)
      → libmoon_read_pcap alloc mp src remaining size ns ≡ (packet p, mp')
      → let rest =
          libmoon_read_pcap_batch alloc mp' n
            (drop (incl_len src + 16) src)
            (sub64 remaining (incl_len src + 16))
            size
            ns in
        libmoon_read_pcap_batch alloc mp (suc n) src remaining size ns
        ≡ record rest { bufs = p ∷ rest.bufs }
  unfolding libmoon_read_pcap_batch
  batch_step mp mp' n src remaining size ns p e = ground arith

  -- Reading as many buffers as a file has whole records, into buffers of less than 64 KiB that each
  -- of the packets fits into, from a pool that has buffers enough, gives the packets that were
  -- written, in order, with their time stamps in nanoseconds, and stays inside the file.
  pub read_batch_written :
      (mp : Pool) (rs : List Record) (rest : List ℕ) (remaining size : ℕ) (ns : Bool)
      → size < 2 ^ 16
      → AllRecords size rs
      → Gives mp (length rs)
      → remaining ≡ length (file rs rest)
      → remaining < 2 ^ 64
      → let batch = libmoon_read_pcap_batch alloc mp (length rs) (file rs rest) remaining size ns in
        (map content batch.bufs ≡ map (λ r. packet_of ns r 0) rs) × (batch.faulted ≡ false)
  unfolding libmoon_read_pcap_batch
  read_batch_written mp [] rest remaining size ns small all g e h = (refl, refl)
  read_batch_written mp (r ∷ rs) rest remaining size ns small all g e h =
      let tail : List ℕ = file rs rest in
      let total = length-written size small r all.0 tail in
      let (contents, fine) =
        read_batch_written (alloc mp).1 rs rest (length tail) size ns small all.1 g.1 refl
          (omega arith) in
      let after : sub64 remaining (incl_len (written r ++ tail) + 16) ≡ length tail =
        omega (arith, incl_len-written size small r all.0 tail) in
      rw
        (
          batch_step mp (alloc mp).1 (length rs) (written r ++ tail) remaining size ns
              (packet_of ns r g.0.0)
              (read-written size small r all.0 tail alloc mp remaining g.0.0 ns (omega arith)
                g.0.1),
          next-written size small r all.0 tail,
          after,
        )
        (ap (λ ps. packet_of ns r 0 ∷ ps) contents, fine)

  -- Where the mapping ends with the file, into a buffer of less than 64 KiB that a record of incl_len
  -- bytes fits into, from a pool that has a buffer: with fewer than 12 bytes left of the file, or
  -- with more than incl_len and fewer than incl_len + 16, the file is read past its end.
  pub read_past_end :
      (mp : Pool) (src : List ℕ) (remaining size : ℕ) (ns : Bool) {res : ℕ}
      → length src ≡ remaining
      → size < 2 ^ 16
      → incl_len src + 128 ≤ size
      → (alloc mp).0 ≡ some res
      → (remaining < 12) ⊎ ((incl_len src < remaining) × (remaining < incl_len src + 16))
      → (libmoon_read_pcap alloc mp src remaining size ns).0 ≡ fault
  unfolding libmoon_read_pcap copy_len
  read_past_end mp src remaining size ns e small fits got short = ground arith

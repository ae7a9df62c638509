-- ===== src/Pcap/Bounds.antt =====
-- What a read record can be, whatever the file says.
use libmoon.Prelude.{
  ℕ, ◌+◌, ◌-◌, ◌^◌, ◌≤◌, ◌<◌, min, ◌≡◌, ap, ◌∙◌, Bool, Option, List, arith, length, take, drop,
  replicate, length-append, length-take, length-drop, length-replicate, IsBytes, load32-lt,
}
use libmoon.Pcap.{
  Packet, packet, incl_len, orig_len, copy_len, zero_fill_len, fill, libmoon_read_pcap,
}

module _ (size : ℕ) (src : List ℕ) (room : 128 ≤ size) (small : size < 2 ^ 32)
    (bytes : IsBytes src) where
  -- The copy and the zeros fit into the data room of the buffer, which is 128 bytes smaller than
  -- the buffer, and the copy is cut to it.
  pub copy_len_lem :
      (copy_len size src ≡ min (incl_len src) (size - 128))
      × (copy_len size src + zero_fill_len size src ≤ size - 128)
  unfolding copy_len zero_fill_len
  copy_len_lem = ground (arith, load32-lt src 8 bytes)

  -- A record that is as long as the packet was is not filled with zeros.
  pub zero_fill_none : orig_len src ≡ incl_len src → zero_fill_len size src ≡ 0
  unfolding zero_fill_len
  zero_fill_none e = ground (arith, load32-lt src 8 bytes)

length-fill :
    (size : ℕ) (ns : Bool) (src : List ℕ) (res : ℕ)
    → 16 + copy_len size src ≤ length src
    → length (fill size ns src res).bytes ≡ copy_len size src + zero_fill_len size src
unfolding fill
length-fill size ns src res h = omega (
  arith,
  length-append (take (copy_len size src) (drop 16 src))
      (replicate {A = ℕ} (zero_fill_len size src) 0),
  length-take (copy_len size src) (drop 16 src),
  length-drop 16 src,
  length-replicate {A = ℕ} (zero_fill_len size src) 0,
)

module _ {Pool : Type 0} (alloc : Pool → Option ℕ × Pool) where
  -- What a successful read tells: the record is one that the remaining length admits, it lies in the
  -- mapping, and the packet is `fill`.
  pub record IsRead (src : List ℕ) (remaining size : ℕ) (ns : Bool) (p : Packet) : Type 0 where
    pub admitted : incl_len src < remaining
    pub mapped : 16 + copy_len size src ≤ length src
    pub filled : p ≡ fill size ns src p.mbuf

  pub libmoon_read_pcap-IsRead :
      (mp : Pool) (src : List ℕ) (remaining size : ℕ) (ns : Bool) (p : Packet)
      → (libmoon_read_pcap alloc mp src remaining size ns).0 ≡ packet p
      → IsRead src remaining size ns p
  unfolding libmoon_read_pcap fill
  libmoon_read_pcap-IsRead mp src remaining size ns p e = ground arith

  -- A packet that is read from any bytes, into buffers of at least 128 bytes and less than 64 KiB,
  -- fills no more than the data room of the buffer, which is 128 bytes smaller; as many bytes are
  -- written as `data_len` says; and the record's length was below the remaining length.
  libmoon_read_pcap_bounds :
      (mp : Pool) (src : List ℕ) (remaining size : ℕ) (ns : Bool) (p : Packet)
      → 128 ≤ size
      → size < 2 ^ 16
      → IsBytes src
      → (libmoon_read_pcap alloc mp src remaining size ns).0 ≡ packet p
      → (length p.bytes + 128 ≤ size) × (p.data_len ≡ length p.bytes) × (p.pkt_len < remaining)
  unfolding fill
  libmoon_read_pcap_bounds mp src remaining size ns p room small bytes e =
      let r = libmoon_read_pcap-IsRead mp src remaining size ns p e in
      let (_, fits) = copy_len_lem size src room (omega arith) bytes in
      let written =
        ap (λ (q : Packet). length q.bytes) r.filled ∙ length-fill size ns src p.mbuf r.mapped in
      (
        omega arith,
        ap (λ (q : Packet). q.data_len) r.filled ∙ omega arith,
        omega (arith, ap (λ (q : Packet). q.pkt_len) r.filled, r.admitted),
      )

  -- A record that was cut when it was captured gets zeros up to its first length, but keeps the
  -- captured length as that of the packet: `data_len` is larger than `pkt_len` for a record of fewer
  -- bytes than the packet had, when both fit into the data room.
  libmoon_read_pcap_cut :
      (mp : Pool) (src : List ℕ) (remaining size : ℕ) (ns : Bool) (p : Packet)
      → size < 2 ^ 16
      → IsBytes src
      → incl_len src < orig_len src
      → orig_len src + 128 ≤ size
      → (libmoon_read_pcap alloc mp src remaining size ns).0 ≡ packet p
      → (p.pkt_len ≡ incl_len src) × (p.data_len ≡ orig_len src)
  unfolding fill copy_len zero_fill_len
  libmoon_read_pcap_cut mp src remaining size ns p small bytes cut fits e =
      let r = libmoon_read_pcap-IsRead mp src remaining size ns p e in
      (
        ap (λ (q : Packet). q.pkt_len) r.filled,
        ap (λ (q : Packet). q.data_len) r.filled ∙ ground arith,
      )

-- ===== src/Memory.antt =====
-- src/memory.c: packet buffers from a mempool of DPDK, which is no part of this repository and a
-- parameter here.
pub mod AllocMbufs
mod Tests
use mathlib.Core.Option
use libmoon.Prelude.{true, false}
use libmoon.Prelude.{
  ℕ, zero, suc, ◌+◌, ◌%◌, ◌^◌, ◌≡◌, Bool, Option, none, some, List, [], ◌∷◌, length, take, drop,
  ◌++◌, get_elem?, if◌then◌else◌, add32, ◌==◌,
}

-- `struct rte_mbuf`: the fields that this code sets. `rest` stands for those that
-- `rte_pktmbuf_reset` sets.
pub record Mbuf : Type 0 where
  pub refcnt : ℕ
  pub pkt_len : ℕ
  pub data_len : ℕ
  pub rest : ℕ

-- The memory: the buffer at each address.
abbrev pub Mem : Type 0
Mem = ℕ → Mbuf

abbrev pub update : Mem → ℕ → Mbuf → Mem
update mem p m q = if q == p then m else mem q

-- rte_mempool.h and rte_mbuf.h: a pool, and what the code asks of it.
pub record Mempool : Type 1 where
  pub Pool : Type 0
  -- `rte_pktmbuf_pool_create` for a pool number, with the count, the cache size, the private size,
  -- the data room (a uint16_t) and the socket
  pub pool_create : ℕ → ℕ → ℕ → ℕ → ℕ → ℕ → Option Pool
  -- RTE_PKTMBUF_HEADROOM
  pub headroom : ℕ
  -- `rte_mempool_get_bulk`; `none` is a negative error code: not enough entries
  pub get_bulk : Pool → ℕ → Option (List ℕ) × Pool
  pub reset : Mbuf → Mbuf
  -- "no object is retrieved" when there are not enough
  pub get_bulk_size :
      (pool : Pool) (n : ℕ) (objs : List ℕ) → (get_bulk pool n).0 ≡ some objs → length objs ≡ n
  -- `rte_pktmbuf_reset` leaves the reference counter alone.
  pub reset_refcnt : (m : Mbuf) → (reset m).refcnt ≡ m.refcnt

-- How a run of the loop of `alloc_mbufs` ends: with the memory after it, by a use of `bufs` out of
-- range, or, with the fuel used up, not yet.
pub data Outcome : Type 0 where
  done : Mem → Outcome
  fault running : Outcome

-- The labels of the `switch` in `alloc_mbufs`, in the order in which control falls through them.
pub data Label : Type 0 where
  case0 case3 case2 case1 : Label

-- `switch (len % 4)`
abbrev pub entry : ℕ → Label
entry len =
    if len % 4 == 0
    then case0
    else if len % 4 == 3
    then case3
    else if len % 4 == 2
    then case2
    else case1

module _ (api : Mempool) where
  -- The five statements that stand under each label, on one buffer.
  abbrev pub prepare : ℕ → Mem → ℕ → Mem
  prepare pkt_len mem p =
      update mem p (record (api.reset (record (mem p) { refcnt = 1 })) {
        pkt_len = pkt_len;
        data_len = pkt_len;
      })

  -- The same on `bufs[i]`; `none` is a use out of range.
  abbrev pub prepare_at : ℕ → List ℕ → ℕ → Mem → Option Mem
  prepare_at pkt_len bufs i mem = Option.map (prepare pkt_len mem) (get_elem? bufs i)

  -- The loop, from a label on, one unit of fuel for each buffer: the labels fall through, and behind
  -- the last stands the test `i != len` of the `while`. `i` is a uint32_t.
  pub duff : ℕ → List ℕ → ℕ → ℕ → Label → ℕ → Mem → Outcome
  duff pkt_len bufs len zero label i mem = running
  duff pkt_len bufs len (suc fuel) label i mem = elim (prepare_at pkt_len bufs i mem) [
    | none ↦ fault
    | some mem' ↦ elim label [
      | case0 ↦ duff pkt_len bufs len fuel case3 (add32 i 1) mem'
      | case3 ↦ duff pkt_len bufs len fuel case2 (add32 i 1) mem'
      | case2 ↦ duff pkt_len bufs len fuel case1 (add32 i 1) mem'
      | case1 ↦ elim (add32 i 1 == len) [
        | true ↦ done mem'
        | false ↦ duff pkt_len bufs len fuel case0 (add32 i 1) mem'
      ]
    ]
  ]

  -- What `rte_mempool_get_bulk` writes over the start of `bufs`: nothing if it fails.
  abbrev pub filled : List ℕ → Option (List ℕ) → List ℕ
  filled bufs none = bufs
  filled bufs (some objs) = objs ++ drop (length objs) bufs

  -- `alloc_mbufs` on the array `bufs` of the caller: the pool after it, the array, and how the loop
  -- ends, on fuel for `rounds` buffers. The result of `rte_mempool_get_bulk` is not looked at.
  pub alloc_mbufs : ℕ → api.Pool → List ℕ → ℕ → ℕ → Mem → api.Pool × List ℕ × Outcome
  unfolding duff
  alloc_mbufs rounds mp bufs len pkt_len mem =
      let (got, mp') = api.get_bulk mp len in
      (mp', filled bufs got, duff pkt_len (filled bufs got) len rounds (entry len) 0 mem)

  -- `init_mem` on the static counter `mbuf_cnt`: the pool, or NULL, and the counter after it. The
  -- data room is cut to 16 bits by the call.
  pub init_mem : ℕ → ℕ → ℕ → ℕ → Option api.Pool × ℕ
  init_mem mbuf_cnt nb_mbuf socket mbuf_size = (
    api.pool_create mbuf_cnt nb_mbuf 256 0 (add32 mbuf_size api.headroom % 2 ^ 16) socket,
    add32 mbuf_cnt 1,
  )

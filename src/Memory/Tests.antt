-- ===== src/Memory/Tests.antt =====
-- A mempool that is a list of addresses, and the theorems on it.
use libmoon.Prelude.{
  ℕ, ◌-◌, ◌^◌, ◌≡◌, refl, Option, none, some, List, [], ◌∷◌, arith, length, take, drop, leb,
  if◌then◌else◌, length-take,
}
use libmoon.Memory.{Mem, Mempool, fault, alloc_mbufs, init_mem}
use libmoon.Memory.AllocMbufs.{alloc_mbufs_empty}

abbrev get : List ℕ → ℕ → Option (List ℕ) × List ℕ
get pool n = if leb n (length pool) then (some (take n pool), drop n pool) else (none, pool)

get_size : (pool : List ℕ) (n : ℕ) (objs : List ℕ) → (get pool n).0 ≡ some objs → length objs ≡ n
get_size pool n objs e = ground (arith, length-take n pool)

abbrev pools : Mempool
pools = record {
  Pool = List ℕ;
  pool_create = λ name n cache priv room socket. some (name ∷ n ∷ room ∷ []);
  headroom = 128;
  get_bulk = get;
  reset = λ m. record m { pkt_len = 0; data_len = 0; rest = 0 };
  get_bulk_size = get_size;
  reset_refcnt = λ m. refl;
}

abbrev stale : Mem
stale p = record { refcnt = 0; pkt_len = p; data_len = p; rest = 9 }

-- A data room of 2 ^ 16 - 100 bytes and the head room do not fit into 16 bits.
pool_with_a_small_room : init_mem pools 3 1024 0 (2 ^ 16 - 100) ≡ (some (3 ∷ 1024 ∷ 28 ∷ []), 4)
unfolding init_mem
pool_with_a_small_room = refl

alloc_mbufs_empty_example : (alloc_mbufs pools 3 (4 ∷ []) (8 ∷ 9 ∷ []) 0 60 stale).2 ≡ fault
alloc_mbufs_empty_example =
    alloc_mbufs_empty pools (4 ∷ []) (8 ∷ 9 ∷ []) 3 60 stale (omega arith) (omega arith)

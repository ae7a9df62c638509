-- ===== src/ByteSizedRing.antt =====
-- src/bytesizedring.hpp and src/bytesizedring.cpp: a ring whose capacity limits its bytes.
-- A batch `obj` of `n` buffers is the list `obj[0..n)`, and `pkt_len` is the memory that the call
-- reads: the field `pkt_len` of the buffer at each address. `malloc` is taken to succeed.
pub mod Sizes
pub mod Accounting
pub mod BurstLoops
pub mod Gaps
pub mod EnqueueBurst
pub mod Create
pub mod Stuck
pub mod Overflow
pub mod Order
pub mod Threads
mod Tests
use libmoon.Prelude.{
  ℕ, zero, suc, ◌+◌, ◌-◌, ◌*◌, ◌/◌, ◌%◌, ◌^◌, Bool, ◌&&◌, ◌||◌, Option, none, some, List, [], ◌∷◌,
  length, take, drop, ltb, leb, if◌then◌else◌, add32, sub32, ◌==◌,
}
use libmoon.RteRing.{RteRing, RingName, mbuf_bs_ring}
use libmoon.RteRing.Calls.{
  Call, enqueue_bulk, enqueue_burst, enqueue, dequeue_bulk, dequeue_burst, dequeue, Reply,
}

-- BS_RING_SIZE_LIMIT
abbrev pub size_limit : ℕ
size_limit = 268435455

-- `while (count < count_min && count <= BS_RING_SIZE_LIMIT) count *= 2;` on fuel; `none` means that
-- the fuel ran out. `count` is at most 2 ^ 28, far below the sign bit.
pub grow : ℕ → ℕ → ℕ → Option ℕ
grow zero count_min count = none
grow (suc fuel) count_min count =
    let rest = grow fuel count_min (count * 2) in
    if ltb count count_min && leb count size_limit then rest else some count

-- `for (i = 0; i < n; i++) total += obj[i]->pkt_len;` in a uint32_t
abbrev pub add_sizes : (ℕ → ℕ) → ℕ → List ℕ → ℕ
add_sizes pkt_len total [] = total
add_sizes pkt_len total (x ∷ xs) = add_sizes pkt_len (add32 total (pkt_len x)) xs

-- `bsr->bytes_used -= obj[i]->pkt_len` for each object
abbrev pub sub_sizes : (ℕ → ℕ) → ℕ → List ℕ → ℕ
sub_sizes pkt_len total [] = total
sub_sizes pkt_len total (x ∷ xs) = sub_sizes pkt_len (sub32 total (pkt_len x)) xs

-- The bit pattern of an `int`: is it negative, is it above zero?
abbrev pub is_negative : ℕ → Bool
is_negative w = leb (2 ^ 31) w

abbrev pub is_positive : ℕ → Bool
is_positive w = ltb 0 w && ltb w (2 ^ 31)

-- The counting loop of `bsring_enqueue_burst`: the final `bytes_remaining`, and how many rounds it
-- made (`num_to_add` and `i` run together).
pub count_fitting : (ℕ → ℕ) → ℕ → List ℕ → ℕ × ℕ
count_fitting pkt_len bytes_remaining [] = (bytes_remaining, 0)
count_fitting pkt_len bytes_remaining (x ∷ xs) =
    let rest = count_fitting pkt_len (sub32 bytes_remaining (pkt_len x)) xs in
    if is_positive bytes_remaining then (rest.0, suc rest.1) else (bytes_remaining, 0)

-- What a burst has enqueued so far.
pub record Burst (Ring : Type 0) : Type 0 where
  pub ring : Ring
  pub num_added : ℕ
  pub bytes_added : ℕ
  pub bytes_remaining : ℕ

module _ (api : RteRing) where
  -- `struct bs_ring`
  pub record BsRing : Type 0 where
    pub ring : api.Ring
    pub capacity : ℕ
    pub bytes_used : ℕ

  abbrev pub wrap : ℕ → Option api.Ring → Option BsRing
  wrap capacity none = none
  wrap capacity (some ring) = some (record { ring = ring; capacity = capacity; bytes_used = 0 })

  abbrev create_sized : ℕ → ℕ → Option ℕ → Option (Option BsRing × ℕ)
  create_sized ring_cnt capacity none = none
  create_sized ring_cnt capacity (some count) =
      some (wrap capacity (api.create (mbuf_bs_ring ring_cnt) count), add32 ring_cnt 1)

  -- `create_bsring` on the static counter `ring_cnt`: the ring (or NULL), and the counter after it.
  -- The outer `none` means that the loop is still running after 30 rounds.
  pub create_bsring : ℕ → ℕ → Option (Option BsRing × ℕ)
  create_bsring ring_cnt capacity = create_sized ring_cnt capacity (grow 30 (capacity / 60) 1)

  abbrev add_batch : (ℕ → ℕ) → BsRing → List ℕ → ℕ × api.Ring → ℕ × BsRing
  add_batch pkt_len bsr obj (num_added, ring) = (
    num_added,
    record bsr {
      ring = ring;
      bytes_used = add32 bsr.bytes_used (add_sizes pkt_len 0 (take num_added obj));
    },
  )

  pub bsring_enqueue_bulk : (ℕ → ℕ) → BsRing → List ℕ → ℕ × BsRing
  bsring_enqueue_bulk pkt_len bsr obj =
      if ltb bsr.capacity (add32 bsr.bytes_used (add_sizes pkt_len 0 obj))
      then (0, bsr)
      else add_batch pkt_len bsr obj (api.sp_enqueue_bulk bsr.ring obj)

  -- One round of the second loop: `if (rte_ring_sp_enqueue(...)) { ... }` counts the buffer when the
  -- result is not 0.
  abbrev try_one : (ℕ → ℕ) → Burst api.Ring → ℕ → ℕ × api.Ring → Burst api.Ring
  try_one pkt_len b x (rc, ring) = if rc == 0 then record b { ring = ring } else record {
    ring = ring;
    num_added = add32 b.num_added 1;
    bytes_added = add32 b.bytes_added (pkt_len x);
    bytes_remaining = sub32 b.bytes_remaining (pkt_len x);
  }

  abbrev fits_in : (ℕ → ℕ) → Burst api.Ring → ℕ → Bool
  fits_in pkt_len b x = is_negative (pkt_len x) || leb (pkt_len x) b.bytes_remaining

  -- `while ((i < n) && (bytes_remaining >= 60))` over the buffers from `i` on
  pub fill_gaps : (ℕ → ℕ) → Burst api.Ring → List ℕ → Burst api.Ring
  fill_gaps pkt_len b [] = b
  fill_gaps pkt_len b (x ∷ xs) =
      let rest =
        fill_gaps pkt_len
          (if fits_in pkt_len b x then try_one pkt_len b x (api.sp_enqueue b.ring x) else b) xs in
      if leb 60 b.bytes_remaining && ltb b.bytes_remaining (2 ^ 31) then rest else b

  abbrev start_burst : (ℕ → ℕ) → BsRing → List ℕ → ℕ × api.Ring → Burst api.Ring
  start_burst pkt_len bsr obj (num_added, ring) =
      let bytes_added = add_sizes pkt_len 0 (take num_added obj) in
      record {
        ring = ring;
        num_added = num_added;
        bytes_added = bytes_added;
        bytes_remaining = sub32 (sub32 bsr.capacity bsr.bytes_used) bytes_added;
      }

  abbrev finish_burst : BsRing → Burst api.Ring → ℕ × BsRing
  finish_burst bsr b =
      (b.num_added, record bsr { ring = b.ring; bytes_used = add32 bsr.bytes_used b.bytes_added })

  -- How many buffers the first loop of a burst passes on.
  pub num_to_add : (ℕ → ℕ) → BsRing → List ℕ → ℕ
  num_to_add pkt_len bsr obj =
      let (bytes_remaining, rounds) =
        count_fitting pkt_len (sub32 bsr.capacity bsr.bytes_used) obj in
      if is_negative bytes_remaining then sub32 rounds 1 else rounds

  -- A burst from the first enqueue on.
  abbrev pub from_first : (ℕ → ℕ) → BsRing → List ℕ → ℕ → ℕ × BsRing
  from_first pkt_len bsr obj k =
      let b = start_burst pkt_len bsr obj (api.sp_enqueue_burst bsr.ring (take k obj)) in
      finish_burst bsr
        (if ltb b.num_added (length obj) then fill_gaps pkt_len b (drop k obj) else b)

  -- `num_to_add--` makes 2 ^ 32 - 1 of 0. `none` means that the ring underneath is passed a number of
  -- buffers that is greater than that of the array.
  pub bsring_enqueue_burst : (ℕ → ℕ) → BsRing → List ℕ → Option (ℕ × BsRing)
  bsring_enqueue_burst pkt_len bsr obj =
      let k = num_to_add pkt_len bsr obj in
      if ltb (length obj) k then none else some (from_first pkt_len bsr obj k)

  abbrev enqueue_result : (ℕ → ℕ) → BsRing → ℕ → ℕ × api.Ring → ℕ × BsRing
  enqueue_result pkt_len bsr obj (rc, ring) =
      if rc == 0
      then (1, record bsr { ring = ring; bytes_used = add32 bsr.bytes_used (pkt_len obj) })
      else (0, record bsr { ring = ring })

  pub bsring_enqueue : (ℕ → ℕ) → BsRing → ℕ → ℕ × BsRing
  bsring_enqueue pkt_len bsr obj =
      if ltb (add32 bsr.bytes_used (pkt_len obj)) bsr.capacity
      then enqueue_result pkt_len bsr obj (api.sp_enqueue bsr.ring obj)
      else (0, bsr)

  abbrev with_objs : (ℕ → ℕ) → BsRing → List ℕ × api.Ring → List ℕ × BsRing
  with_objs pkt_len bsr (objs, ring) =
      (objs, record bsr { ring = ring; bytes_used = sub_sizes pkt_len bsr.bytes_used objs })

  -- What the dequeue functions return is the number of the objects here.
  pub bsring_dequeue_burst : (ℕ → ℕ) → BsRing → ℕ → List ℕ × BsRing
  bsring_dequeue_burst pkt_len bsr n = with_objs pkt_len bsr (api.sc_dequeue_burst bsr.ring n)

  pub bsring_dequeue_bulk : (ℕ → ℕ) → BsRing → ℕ → List ℕ × BsRing
  bsring_dequeue_bulk pkt_len bsr n = with_objs pkt_len bsr (api.sc_dequeue_bulk bsr.ring n)

  abbrev dequeue_result : (ℕ → ℕ) → BsRing → Option ℕ × api.Ring → List ℕ × BsRing
  dequeue_result pkt_len bsr (none, ring) = ([], record bsr { ring = ring })
  dequeue_result pkt_len bsr (some obj, ring) =
      (obj ∷ [], record bsr { ring = ring; bytes_used = sub32 bsr.bytes_used (pkt_len obj) })

  pub bsring_dequeue : (ℕ → ℕ) → BsRing → List ℕ × BsRing
  bsring_dequeue pkt_len bsr = dequeue_result pkt_len bsr (api.sc_dequeue bsr.ring)

  pub bsring_count : BsRing → ℕ
  bsring_count bsr = api.count bsr.ring

  pub bsring_capacity : BsRing → ℕ
  bsring_capacity bsr = bsr.capacity

  pub bsring_bytesused : BsRing → ℕ
  bsring_bytesused bsr = bsr.bytes_used

  abbrev enqueued : ℕ × BsRing → Reply × BsRing
  enqueued (n, bsr) = (record { returned = n; objs = [] }, bsr)

  abbrev dequeued : List ℕ × BsRing → Reply × BsRing
  dequeued (objs, bsr) = (record { returned = length objs; objs = objs }, bsr)

  abbrev if_inside : Option (ℕ × BsRing) → Option (Reply × BsRing)
  if_inside none = none
  if_inside (some out) = some (enqueued out)

  -- One call of a client; `none` is that of `bsring_enqueue_burst`.
  pub serve : (ℕ → ℕ) → BsRing → Call → Option (Reply × BsRing)
  serve pkt_len bsr (enqueue_bulk obj) = some (enqueued (bsring_enqueue_bulk pkt_len bsr obj))
  serve pkt_len bsr (enqueue_burst obj) = if_inside (bsring_enqueue_burst pkt_len bsr obj)
  serve pkt_len bsr (enqueue obj) = some (enqueued (bsring_enqueue pkt_len bsr obj))
  serve pkt_len bsr (dequeue_bulk n) = some (dequeued (bsring_dequeue_bulk pkt_len bsr n))
  serve pkt_len bsr (dequeue_burst n) = some (dequeued (bsring_dequeue_burst pkt_len bsr n))
  serve pkt_len bsr dequeue = some (dequeued (bsring_dequeue pkt_len bsr))

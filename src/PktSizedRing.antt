-- ===== src/PktSizedRing.antt =====
-- src/pktsizedring.hpp and src/pktsizedring.cpp: a ring whose capacity limits its packets.
-- A batch `obj` of `n` buffers is the list `obj[0..n)`. `malloc` is taken to succeed.
pub mod Queue
pub mod Create
pub mod Refine
pub mod Threads
mod Tests
use libmoon.Prelude.{
  ℕ, zero, suc, ◌+◌, ◌-◌, ◌*◌, ◌%◌, ◌^◌, Option, none, some, List, [], ◌∷◌, length, take, ltb, leb,
  if◌then◌else◌, add32, ◌==◌,
}
use libmoon.RteRing.{RteRing, RingName, mbuf_ps_ring}
use libmoon.RteRing.Calls.{
  Call, enqueue_bulk, enqueue_burst, enqueue, dequeue_bulk, dequeue_burst, dequeue, Reply,
}

-- PS_RING_SIZE_LIMIT
abbrev pub size_limit : ℕ
size_limit = 268435455

-- The capacity that `create` keeps, after its warning.
abbrev pub clamp_capacity : ℕ → ℕ
clamp_capacity capacity = if ltb size_limit capacity then size_limit else capacity

-- `while (count < capacity) count *= 2;` on fuel; `none` means that the fuel ran out.
pub round_up : ℕ → ℕ → ℕ → Option ℕ
round_up zero capacity count = none
round_up (suc fuel) capacity count =
    let rest = round_up fuel capacity (count * 2 % 2 ^ 32) in
    if ltb count capacity then rest else some count

module _ (api : RteRing) where
  -- `struct ps_ring`
  pub record PsRing : Type 0 where
    pub ring : api.Ring
    pub capacity : ℕ

  -- The `struct ps_ring` around what `rte_ring_create` returned; the structure is freed on NULL.
  abbrev pub wrap : ℕ → Option api.Ring → Option PsRing
  wrap capacity none = none
  wrap capacity (some ring) = some (record { ring = ring; capacity = capacity })

  abbrev create_sized : ℕ → ℕ → Option ℕ → Option (Option PsRing × ℕ)
  create_sized ring_cnt capacity none = none
  create_sized ring_cnt capacity (some count) =
      some (wrap capacity (api.create (mbuf_ps_ring ring_cnt) count), add32 ring_cnt 1)

  -- `create_psring` on the static counter `ring_cnt`: the ring (or NULL), and the counter after it.
  -- The outer `none` means that the loop is still running after 29 rounds.
  pub create_psring : ℕ → ℕ → Option (Option PsRing × ℕ)
  create_psring ring_cnt capacity =
      create_sized ring_cnt (clamp_capacity capacity) (round_up 29 (clamp_capacity capacity) 1)

  abbrev with_ring : PsRing → ℕ × api.Ring → ℕ × PsRing
  with_ring psr (n, ring) = (n, record psr { ring = ring })

  pub psring_enqueue_bulk : PsRing → List ℕ → ℕ × PsRing
  psring_enqueue_bulk psr obj =
      if ltb (add32 (api.count psr.ring) (length obj)) psr.capacity
      then with_ring psr (api.sp_enqueue_bulk psr.ring obj)
      else (0, psr)

  unfoldable pub psring_enqueue_burst : PsRing → List ℕ → ℕ × PsRing
  psring_enqueue_burst psr obj =
      let count = api.count psr.ring in
      if ltb psr.capacity count
      then (0, psr)
      else let num_to_add =
          if ltb psr.capacity (add32 count (length obj))
          then psr.capacity - count
          else length obj in
        with_ring psr (api.sp_enqueue_burst psr.ring (take num_to_add obj))

  abbrev enqueue_result : PsRing → ℕ × api.Ring → ℕ × PsRing
  enqueue_result psr (rc, ring) = (if rc == 0 then 1 else 0, record psr { ring = ring })

  pub psring_enqueue : PsRing → ℕ → ℕ × PsRing
  psring_enqueue psr obj =
      if leb (add32 (api.count psr.ring) 1) psr.capacity
      then enqueue_result psr (api.sp_enqueue psr.ring obj)
      else (0, psr)

  abbrev with_objs : PsRing → List ℕ × api.Ring → List ℕ × PsRing
  with_objs psr (objs, ring) = (objs, record psr { ring = ring })

  -- What the dequeue functions return is the number of the objects here.
  pub psring_dequeue_bulk : PsRing → ℕ → List ℕ × PsRing
  psring_dequeue_bulk psr n = with_objs psr (api.sc_dequeue_bulk psr.ring n)

  unfoldable pub psring_dequeue_burst : PsRing → ℕ → List ℕ × PsRing
  psring_dequeue_burst psr n = with_objs psr (api.sc_dequeue_burst psr.ring n)

  abbrev dequeue_result : PsRing → Option ℕ × api.Ring → List ℕ × PsRing
  dequeue_result psr (none, ring) = ([], record psr { ring = ring })
  dequeue_result psr (some obj, ring) = (obj ∷ [], record psr { ring = ring })

  pub psring_dequeue : PsRing → List ℕ × PsRing
  psring_dequeue psr = dequeue_result psr (api.sc_dequeue psr.ring)

  pub psring_count : PsRing → ℕ
  psring_count psr = api.count psr.ring

  pub psring_capacity : PsRing → ℕ
  psring_capacity psr = psr.capacity

  abbrev enqueued : ℕ × PsRing → Reply × PsRing
  enqueued (n, psr) = (record { returned = n; objs = [] }, psr)

  abbrev dequeued : List ℕ × PsRing → Reply × PsRing
  dequeued (objs, psr) = (record { returned = length objs; objs = objs }, psr)

  -- One call of a client.
  unfoldable pub serve : PsRing → Call → Reply × PsRing
  serve psr (enqueue_bulk obj) = enqueued (psring_enqueue_bulk psr obj)
  serve psr (enqueue_burst obj) = enqueued (psring_enqueue_burst psr obj)
  serve psr (enqueue obj) = enqueued (psring_enqueue psr obj)
  serve psr (dequeue_bulk n) = dequeued (psring_dequeue_bulk psr n)
  serve psr (dequeue_burst n) = dequeued (psring_dequeue_burst psr n)
  serve psr dequeue = dequeued (psring_dequeue psr)

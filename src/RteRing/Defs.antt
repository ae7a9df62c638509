-- ===== src/RteRing/Defs.antt =====
-- The operations of rte_ring.h and their documented behaviour.
use libmoon.Prelude.{
  ℕ, ◌+◌, ◌-◌, ◌^◌, ◌≤◌, ◌<◌, ◌≡◌, ◌≢◌, ◌↔◌, Option, none, some, List, [], ◌∷◌, ◌++◌, length, take,
  drop,
}

-- What `sprintf` writes into `ring_name`: the prefix of the module that asks, and a number.
pub data RingName : Type 0 where
  mbuf_ring mbuf_bs_ring mbuf_ps_ring : ℕ → RingName

pub record RteRing : Type 1 where
  pub Ring : Type 0
  pub items : Ring → List ℕ
  -- `rte_ring_get_capacity`: the number of usable entries
  pub space : Ring → ℕ
  -- `rte_ring_create` with that `count`; `none` is NULL.
  pub create : RingName → ℕ → Option Ring
  pub count : Ring → ℕ
  pub free_count : Ring → ℕ
  -- 1 or 0
  pub empty : Ring → ℕ
  pub full : Ring → ℕ
  -- the objects are `obj[0..n)`; the result is the number enqueued
  pub sp_enqueue_bulk : Ring → List ℕ → ℕ × Ring
  pub sp_enqueue_burst : Ring → List ℕ → ℕ × Ring
  -- 0, or a negative error code
  pub sp_enqueue : Ring → ℕ → ℕ × Ring
  -- the objects written to `obj`, as many as the result says
  pub sc_dequeue_bulk : Ring → ℕ → List ℕ × Ring
  pub sc_dequeue_burst : Ring → ℕ → List ℕ × Ring
  -- `none` is a negative error code
  pub sc_dequeue : Ring → Option ℕ × Ring
  -- "Note that the real usable ring size is count - 1"; `count` must be a power of two.
  pub create_empty :
      (name : RingName) (k : ℕ)
      → k ≤ 31
      → (r : Ring) → create name (2 ^ k) ≡ some r
      → (items r ≡ []) × (space r + 1 ≡ 2 ^ k)
  pub space_limit : (r : Ring) → space r < 2 ^ 31
  pub items_fit : (r : Ring) → length (items r) ≤ space r
  pub count_lem : (r : Ring) → count r ≡ length (items r)
  pub free_count_lem : (r : Ring) → free_count r ≡ space r - length (items r)
  pub empty_lem : (r : Ring) → (empty r ≡ 1) ↔ (items r ≡ [])
  pub full_lem : (r : Ring) → (full r ≡ 1) ↔ (length (items r) ≡ space r)
  pub enqueue_bulk_fits :
      (r : Ring) (objs : List ℕ)
      → length (items r) + length objs ≤ space r
      → ((sp_enqueue_bulk r objs).0 ≡ length objs)
        × (items (sp_enqueue_bulk r objs).1 ≡ items r ++ objs)
        × (space (sp_enqueue_bulk r objs).1 ≡ space r)
  pub enqueue_bulk_full :
      (r : Ring) (objs : List ℕ)
      → space r < length (items r) + length objs
      → sp_enqueue_bulk r objs ≡ (0, r)
  pub enqueue_burst_lem :
      (r : Ring) (objs : List ℕ)
      → ((sp_enqueue_burst r objs).0 ≡ length (take (space r - length (items r)) objs))
        × (items (sp_enqueue_burst r objs).1 ≡ items r ++ take (space r - length (items r)) objs)
        × (space (sp_enqueue_burst r objs).1 ≡ space r)
  pub enqueue_fits :
      (r : Ring) (obj : ℕ)
      → length (items r) < space r
      → ((sp_enqueue r obj).0 ≡ 0)
        × (items (sp_enqueue r obj).1 ≡ items r ++ (obj ∷ []))
        × (space (sp_enqueue r obj).1 ≡ space r)
  pub enqueue_full :
      (r : Ring) (obj : ℕ)
      → space r ≤ length (items r)
      → ((sp_enqueue r obj).0 ≢ 0) × ((sp_enqueue r obj).1 ≡ r)
  pub dequeue_bulk_ready :
      (r : Ring) (n : ℕ)
      → n ≤ length (items r)
      → ((sc_dequeue_bulk r n).0 ≡ take n (items r))
        × (items (sc_dequeue_bulk r n).1 ≡ drop n (items r))
        × (space (sc_dequeue_bulk r n).1 ≡ space r)
  pub dequeue_bulk_short : (r : Ring) (n : ℕ) → length (items r) < n → sc_dequeue_bulk r n ≡ ([], r)
  pub dequeue_burst_lem :
      (r : Ring) (n : ℕ)
      → ((sc_dequeue_burst r n).0 ≡ take n (items r))
        × (items (sc_dequeue_burst r n).1 ≡ drop n (items r))
        × (space (sc_dequeue_burst r n).1 ≡ space r)
  pub dequeue_empty : (r : Ring) → items r ≡ [] → sc_dequeue r ≡ (none, r)
  pub dequeue_ready :
      (r : Ring) (x : ℕ) (xs : List ℕ)
      → items r ≡ x ∷ xs
      → ((sc_dequeue r).0 ≡ some x)
        × (items (sc_dequeue r).1 ≡ xs)
        × (space (sc_dequeue r).1 ≡ space r)

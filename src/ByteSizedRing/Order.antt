-- ===== src/ByteSizedRing/Order.antt =====
-- Sequences of calls on a byte-sized ring.
use libmoon.Prelude.{
  ℕ, ◌^◌, ◌<◌, ◌≡◌, refl, sym, List, [], ◌∷◌, ◌++◌, arith, append-nil, append_chain, take, take-nil,
  ap, ◌∙◌, Option, none, some,
}
use libmoon.RteRing.{RteRing}
use libmoon.RteRing.Calls.{
  Call, enqueue_bulk, enqueue_burst, enqueue, dequeue_bulk, dequeue_burst, dequeue, Reply, offered,
  handed_out, taken,
}
use libmoon.ByteSizedRing.{BsRing, serve}
use libmoon.ByteSizedRing.Sizes.{total}
use libmoon.ByteSizedRing.Accounting.{
  queue, IsAccounted, bsring_enqueue_bulk_lem, bsring_enqueue_lem, bsring_dequeue_burst-Removed,
  bsring_dequeue_bulk-Removed, bsring_dequeue-Removed,
}

module _ (api : RteRing) (pkt_len : ℕ → ℕ) where
  -- The calls whose byte count is exact whatever is in the ring: all but a burst into it, with fewer
  -- than 2 ^ 31 bytes.
  abbrev pub IsExact : Call → Type 0
  IsExact (enqueue_bulk obj) = total pkt_len obj < 2 ^ 31
  IsExact (enqueue_burst obj) = ⊥
  IsExact (enqueue obj) = pkt_len obj < 2 ^ 31
  IsExact (dequeue_bulk n) = Unit
  IsExact (dequeue_burst n) = Unit
  IsExact dequeue = Unit

  abbrev pub AllExact : List Call → Type 0
  AllExact [] = Unit
  AllExact (c ∷ cs) = IsExact c × AllExact cs

  record Served (bsr : BsRing api) (c : Call) (out : Reply × BsRing api) : Type 0 where
    accounted : IsAccounted api pkt_len out.1
    order :
        out.0.objs ++ queue api pkt_len out.1
        ≡ queue api pkt_len bsr ++ take out.0.returned (offered c)
    same_capacity : out.1.capacity ≡ bsr.capacity

  removed_order : (q xs : List ℕ) (n : ℕ) → xs ≡ q → xs ≡ q ++ take n []
  removed_order q xs n e = e ∙ sym (append-nil q) ∙ ap (λ l. q ++ l) (sym (take-nil n))

  serve-Served :
      (bsr : BsRing api) (c : Call)
      → IsAccounted api pkt_len bsr
      → IsExact c
      → (out : Reply × BsRing api) × (serve api pkt_len bsr c ≡ some out) × Served bsr c out
  unfolding serve
  serve-Served bsr (enqueue_bulk obj) v h =
      (_, refl, ground (arith, bsring_enqueue_bulk_lem api pkt_len bsr obj v h))
  serve-Served bsr (enqueue_burst obj) v h = elim h [ ]
  serve-Served bsr (enqueue obj) v h =
      (_, refl, ground (arith, bsring_enqueue_lem api pkt_len bsr obj v h))
  serve-Served bsr (dequeue_bulk n) v h =
      let r = bsring_dequeue_bulk-Removed api pkt_len bsr n v in
      (
        _,
        refl,
        record {
          accounted = r.accounted;
          order = removed_order _ _ _ r.left;
          same_capacity = r.same_capacity;
        },
      )
  serve-Served bsr (dequeue_burst n) v h =
      let r = bsring_dequeue_burst-Removed api pkt_len bsr n v in
      (
        _,
        refl,
        record {
          accounted = r.accounted;
          order = removed_order _ _ _ r.left;
          same_capacity = r.same_capacity;
        },
      )
  serve-Served bsr dequeue v h =
      let r = bsring_dequeue-Removed api pkt_len bsr v in
      (
        _,
        refl,
        record {
          accounted = r.accounted;
          order = removed_order _ _ _ r.left;
          same_capacity = r.same_capacity;
        },
      )

  abbrev pub with_reply :
      Reply → Option (List Reply × BsRing api) → Option (List Reply × BsRing api)
  with_reply r none = none
  with_reply r (some (rs, end)) = some (r ∷ rs, end)

  -- `none` means that a call had no result.
  pub run : BsRing api → List Call → Option (List Reply × BsRing api)
  run bsr [] = some ([], bsr)
  run bsr (c ∷ cs) = elim (serve api pkt_len bsr c) [
    | none ↦ none
    | some (r, bsr') ↦ with_reply r (run bsr' cs)
  ]

  -- On a ring of a capacity below 2 ^ 31 whose byte count is the sum of the lengths of the packets
  -- in it and within the capacity: over any sequence of calls other than a burst into the ring,
  -- each with fewer than 2 ^ 31 bytes, every call is served, the byte count stays that sum and
  -- within the capacity, the capacity stays the same, and the buffers handed out, followed by those
  -- still in the ring, are those it held and those the calls took, in order.
  pub run-IsAccounted :
      (bsr : BsRing api) (cs : List Call)
      → AllExact cs
      → IsAccounted api pkt_len bsr
      → (rs : List Reply) × (end : BsRing api) × (run bsr cs ≡ some (rs, end))
        × (handed_out rs ++ queue api pkt_len end ≡ queue api pkt_len bsr ++ taken cs rs)
        × IsAccounted api pkt_len end
        × (end.capacity ≡ bsr.capacity)
  unfolding run
  run-IsAccounted bsr [] h v = ([], bsr, refl, sym (append-nil (queue api pkt_len bsr)), v, refl)
  run-IsAccounted bsr (c ∷ cs) h v =
      let ((r, bsr'), served, s) = serve-Served bsr c v h.0 in
      let (rs, end, ran, order, accounted, capacity) = run-IsAccounted bsr' cs h.1 s.accounted in
      (
        r ∷ rs,
        end,
        rw (run, served, ran) refl,
        append_chain (queue api pkt_len bsr) (queue api pkt_len bsr') (queue api pkt_len end) r.objs
            (handed_out rs) (take r.returned (offered c)) (taken cs rs) s.order order,
        accounted,
        capacity ∙ s.same_capacity,
      )

-- ===== src/PktSizedRing/Queue.antt =====
-- The specification of a packet-sized ring: a queue of buffers, a capacity in packets, and `space`,
-- the entries that the ring underneath has.
use libmoon.Prelude.{
  ℕ, ◌+◌, ◌-◌, ◌≤◌, min, ◌&&◌, List, [], ◌∷◌, ◌++◌, length, take, drop, ltb, leb, if◌then◌else◌,
  arith, length-take, length-drop, length-append, ◌≡◌, append-nil, take-append-drop, take-nil, refl,
  sym, ap, ◌∙◌,
}
use libmoon.RteRing.Calls.{
  Call, enqueue_bulk, enqueue_burst, enqueue, dequeue_bulk, dequeue_burst, dequeue, Reply, offered,
}

-- The first `k` of the offered buffers join the queue.
abbrev pub accept : List ℕ → List ℕ → ℕ → Reply × List ℕ
accept q objs k = (record { returned = k; objs = [] }, q ++ take k objs)

-- The first `k` buffers leave the queue, or all if there are fewer.
abbrev pub give : List ℕ → ℕ → Reply × List ℕ
give q k = (record { returned = length (take k q); objs = take k q }, drop k q)

length-accept :
    (q objs : List ℕ) (k : ℕ) → length (accept q objs k).1 ≡ length q + min k (length objs)
length-accept q objs k = omega (arith, length-append q (take k objs), length-take k objs)

length-give : (q : List ℕ) (k : ℕ) → length (give q k).1 ≡ length q - k
length-give q k = length-drop k q

give_order : (q : List ℕ) (k n : ℕ) → take k q ++ drop k q ≡ q ++ take n []
give_order q k n = take-append-drop k q ∙ sym (append-nil q) ∙ ap (λ l. q ++ l) (sym (take-nil n))

module _ (capacity space : ℕ) where
  unfoldable pub serve : List ℕ → Call → Reply × List ℕ
  serve q (enqueue_bulk objs) = accept q objs (
      if ltb (length q + length objs) capacity && leb (length q + length objs) space
      then length objs
      else 0)
  serve q (enqueue_burst objs) =
      accept q objs (min (length objs) (min (capacity - length q) (space - length q)))
  serve q (enqueue obj) = accept q (obj ∷ []) (min 1 (min (capacity - length q) (space - length q)))
  serve q (dequeue_bulk n) = give q (if leb n (length q) then n else 0)
  serve q (dequeue_burst n) = give q n
  serve q dequeue = give q 1

  -- A call never fills the queue above its capacity.
  pub serve-le-capacity :
      (q : List ℕ) (c : Call) → length q ≤ capacity → length (serve q c).1 ≤ capacity
  unfolding serve
  serve-le-capacity q (enqueue_bulk objs) h =
      ground (arith, length-accept q objs (length objs), length-accept q objs 0)
  serve-le-capacity q (enqueue_burst objs) h = omega (
    arith,
    length-accept q objs (min (length objs) (min (capacity - length q) (space - length q))),
  )
  serve-le-capacity q (enqueue obj) h =
      omega
        (arith, length-accept q (obj ∷ []) (min 1 (min (capacity - length q) (space - length q))))
  serve-le-capacity q (dequeue_bulk n) h = ground (arith, length-give q n, length-give q 0)
  serve-le-capacity q (dequeue_burst n) h = omega (arith, length-drop n q)
  serve-le-capacity q dequeue h = omega (arith, length-drop 1 q)

  -- First in, first out: what a call hands out and what it leaves are the old queue and the
  -- buffers that it took, in that order.
  pub serve_order :
      (q : List ℕ) (c : Call)
      → let (r, q') = serve q c in r.objs ++ q' ≡ q ++ take r.returned (offered c)
  unfolding serve
  serve_order q (enqueue_bulk objs) = refl
  serve_order q (enqueue_burst objs) = refl
  serve_order q (enqueue obj) = refl
  serve_order q (dequeue_bulk n) = give_order q (if leb n (length q) then n else 0) _
  serve_order q (dequeue_burst n) = give_order q n _
  serve_order q dequeue = give_order q 1 _

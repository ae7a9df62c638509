-- ===== src/Memory/AllocMbufs.antt =====
-- The unrolled loop of `alloc_mbufs` against a plain one.
use libmoon.Prelude.{
  ℕ, zero, suc, ◌+◌, ◌%◌, ◌^◌, ◌≤◌, ◌<◌, ◌≡◌, refl, true, false, Bool-cases, inl, inr, List, [],
  ◌∷◌, ◌++◌, arith, ap, ◌∙◌, length, take, drop, get_elem?, get_elem?-drop, get_elem?-past,
  length_zero, take-append_length, take_all, contains, none, some, Option-cases, length-append,
}
use native.Mathlib.Numerals.{add-one}
use native.Mathlib.Decide.{dec_lt}
use libmoon.Memory.{
  Mbuf, Mem, Mempool, Outcome, done, fault, Label, case0, case3, case2, case1, entry, prepare,
  prepare_at, duff, filled, alloc_mbufs,
}

-- The residue modulo 4 of the buffers that are left when control stands at a label.
abbrev left : Label → ℕ
left case0 = 0
left case3 = 3
left case2 = 2
left case1 = 1

module _ (api : Mempool) where
  -- `for (; n > 0; n--, i++)` over the same five statements
  pub plain : ℕ → List ℕ → ℕ → ℕ → Mem → Outcome
  plain pkt_len bufs zero i mem = done mem
  plain pkt_len bufs (suc n) i mem = elim (prepare_at api pkt_len bufs i mem) [
    | none ↦ fault
    | some mem' ↦ plain pkt_len bufs n (i + 1) mem'
  ]

  duff-plain :
      (pkt_len : ℕ) (bufs : List ℕ) (len n : ℕ) (label : Label) (i : ℕ) (mem : Mem)
      → i + n ≡ len
      → len < 2 ^ 32
      → 0 < n
      → n % 4 ≡ left label
      → duff api pkt_len bufs len n label i mem ≡ plain pkt_len bufs n i mem
  unfolding duff plain
  duff-plain pkt_len bufs len zero label i mem e h p r = elim p [ ]
  duff-plain pkt_len bufs len (suc n) case0 i mem e h p r = elim (Option-cases (get_elem? bufs i)) [
    | inl out_of_range ↦ ground arith
    | inr (q, at) ↦
        ground (arith, duff-plain pkt_len bufs len n case3 (i + 1) (prepare api pkt_len mem q))
  ]
  duff-plain pkt_len bufs len (suc n) case3 i mem e h p r = elim (Option-cases (get_elem? bufs i)) [
    | inl out_of_range ↦ ground arith
    | inr (q, at) ↦
        ground (arith, duff-plain pkt_len bufs len n case2 (i + 1) (prepare api pkt_len mem q))
  ]
  duff-plain pkt_len bufs len (suc n) case2 i mem e h p r = elim (Option-cases (get_elem? bufs i)) [
    | inl out_of_range ↦ ground arith
    | inr (q, at) ↦
        ground (arith, duff-plain pkt_len bufs len n case1 (i + 1) (prepare api pkt_len mem q))
  ]
  duff-plain pkt_len bufs len (suc n) case1 i mem e h p r = elim (Option-cases (get_elem? bufs i)) [
    | inl out_of_range ↦ ground arith
    | inr (q, at) ↦
        ground (arith, duff-plain pkt_len bufs len n case0 (i + 1) (prepare api pkt_len mem q))
  ]

  pub prepare_all : ℕ → Mem → List ℕ → Mem
  prepare_all pkt_len mem [] = mem
  prepare_all pkt_len mem (p ∷ ps) = prepare_all pkt_len (prepare api pkt_len mem p) ps

  plain-prepare_all :
      (pkt_len : ℕ) (bufs : List ℕ) (n i : ℕ) (mem : Mem)
      → i + n ≤ length bufs
      → plain pkt_len bufs n i mem ≡ done (prepare_all pkt_len mem (take n (drop i bufs)))
  unfolding plain prepare_all
  plain-prepare_all pkt_len bufs zero i mem h = refl
  plain-prepare_all pkt_len bufs (suc n) i mem h =
      let (q, at, rest) = get_elem?-drop i bufs (omega arith) in
      ground
        (arith, add-one i, plain-prepare_all pkt_len bufs n (i + 1) (prepare api pkt_len mem q))

  -- The unrolled loop, for at least one buffer and buffers enough in the array, prepares exactly the
  -- first `len` buffers of the array, in order, and ends.
  duff_lem :
      (pkt_len : ℕ) (bufs : List ℕ) (len : ℕ) (mem : Mem)
      → 0 < len
      → len < 2 ^ 32
      → len ≤ length bufs
      → duff api pkt_len bufs len len (entry len) 0 mem
        ≡ done (prepare_all pkt_len mem (take len bufs))
  duff_lem pkt_len bufs len mem p h enough =
      duff-plain pkt_len bufs len len (entry len) 0 mem (omega arith) h p (ground arith)
      ∙ plain-prepare_all pkt_len bufs len 0 mem (omega arith)

  -- A buffer as the caller wants it.
  pub record IsReady (pkt_len : ℕ) (m : Mbuf) : Type 0 where
    pub one_owner : m.refcnt ≡ 1
    pub packet : m.pkt_len ≡ pkt_len
    pub segment : m.data_len ≡ pkt_len

  prepared-IsReady :
      (pkt_len : ℕ) (mem : Mem) (p : ℕ) → IsReady pkt_len (prepare api pkt_len mem p p)
  prepared-IsReady pkt_len mem p = ground (arith, api.reset_refcnt (record (mem p) { refcnt = 1 }))

  prepare_all_others :
      (pkt_len : ℕ) (mem : Mem) (ps : List ℕ) (q : ℕ)
      → contains q ps ≡ false
      → prepare_all pkt_len mem ps q ≡ mem q
  unfolding prepare_all
  prepare_all_others pkt_len mem [] q h = refl
  prepare_all_others pkt_len mem (p ∷ ps) q h =
      ground (arith, prepare_all_others pkt_len (prepare api pkt_len mem p) ps q)

  prepare_all-IsReady :
      (pkt_len : ℕ) (mem : Mem) (ps : List ℕ) (q : ℕ)
      → contains q ps ≡ true
      → IsReady pkt_len (prepare_all pkt_len mem ps q)
  unfolding prepare_all
  prepare_all-IsReady pkt_len mem [] q h = cc
  prepare_all-IsReady pkt_len mem (p ∷ ps) q h = elim (Bool-cases (contains q ps)) [
    | inl later ↦ prepare_all-IsReady pkt_len (prepare api pkt_len mem p) ps q later
    | inr last ↦
        let e : q ≡ p = ground arith in
        rw (prepare_all_others pkt_len (prepare api pkt_len mem p) ps q last, e)
          (prepared-IsReady pkt_len mem p)
  ]

  -- What `alloc_mbufs` has done to the memory: the buffers of `ps` are ready, and no other has
  -- changed.
  pub record Prepared (pkt_len : ℕ) (mem : Mem) (ps : List ℕ) (mem' : Mem) : Type 0 where
    pub ready : (q : ℕ) → contains q ps ≡ true → IsReady pkt_len (mem' q)
    pub others : (q : ℕ) → contains q ps ≡ false → mem' q ≡ mem q

  Prepared-intro :
      (pkt_len : ℕ) (mem : Mem) (ps : List ℕ) → Prepared pkt_len mem ps (prepare_all pkt_len mem ps)
  Prepared-intro pkt_len mem ps = record {
    ready = prepare_all-IsReady pkt_len mem ps;
    others = prepare_all_others pkt_len mem ps;
  }

  -- When the pool hands out `len` buffers, at least one and fewer than 2 ^ 32, `alloc_mbufs` ends
  -- after `len` buffers, with the pool's buffers at the start of the array, each of them with one
  -- owner and the wanted length, and no other buffer changed.
  pub alloc_mbufs_lem :
      (mp : api.Pool) (bufs : List ℕ) (len pkt_len : ℕ) (mem : Mem) {objs : List ℕ}
      → 0 < len
      → len < 2 ^ 32
      → (api.get_bulk mp len).0 ≡ some objs
      → (mem' : Mem) × ((alloc_mbufs api len mp bufs len pkt_len mem).2 ≡ done mem')
        × ((alloc_mbufs api len mp bufs len pkt_len mem).1 ≡ objs ++ drop len bufs)
        × Prepared pkt_len mem objs mem'
  unfolding alloc_mbufs
  alloc_mbufs_lem mp bufs len pkt_len mem {objs} p h got =
      let size : length objs ≡ len = api.get_bulk_size mp len objs got in
      let array : List ℕ = objs ++ drop len bufs in
      let first : take len array ≡ objs =
        rw (← size) (take-append_length objs (drop (length objs) bufs)) in
      (
        prepare_all pkt_len mem objs,
        rw (got, size)
            (duff_lem pkt_len array len mem p h (omega (arith, length-append objs (drop len bufs)))
              ∙ ap (λ ps. done (prepare_all pkt_len mem ps)) first),
        rw (got, size),
        Prepared-intro pkt_len mem objs,
      )

  -- The result of `rte_mempool_get_bulk` is not checked: when the pool has not enough buffers, the
  -- loop ends all the same, having reset the `len` buffers whose addresses the array held before.
  alloc_mbufs_stale :
      (mp : api.Pool) (bufs : List ℕ) (len pkt_len : ℕ) (mem : Mem)
      → 0 < len
      → len < 2 ^ 32
      → length bufs ≡ len
      → (api.get_bulk mp len).0 ≡ none
      → (mem' : Mem) × ((alloc_mbufs api len mp bufs len pkt_len mem).2 ≡ done mem')
        × Prepared pkt_len mem bufs mem'
  unfolding alloc_mbufs
  alloc_mbufs_stale mp bufs len pkt_len mem p h size short = (
    prepare_all pkt_len mem bufs,
    rw short (
        duff_lem pkt_len bufs len mem p h (omega arith)
        ∙ ap (λ ps. done (prepare_all pkt_len mem ps)) (take_all len bufs (omega arith))),
    Prepared-intro pkt_len mem bufs,
  )

  duff-empty :
      (pkt_len : ℕ) (bufs : List ℕ) (n : ℕ) (label : Label) (i : ℕ) (mem : Mem)
      → i ≤ length bufs
      → length bufs < i + n
      → length bufs + 1 < 2 ^ 32
      → duff api pkt_len bufs 0 n label i mem ≡ fault
  unfolding duff
  duff-empty pkt_len bufs zero label i mem h f s = absurd (omega arith)
  duff-empty pkt_len bufs (suc n) case0 i mem h f s = elim (dec_lt i (length bufs)) [
    | yes within ↦
        let (q, at, rest) = get_elem?-drop i bufs within in
        ground (arith, duff-empty pkt_len bufs n case3 (i + 1) (prepare api pkt_len mem q))
    | no past ↦ ground (arith, get_elem?-past i bufs (omega arith))
  ]
  duff-empty pkt_len bufs (suc n) case3 i mem h f s = elim (dec_lt i (length bufs)) [
    | yes within ↦
        let (q, at, rest) = get_elem?-drop i bufs within in
        ground (arith, duff-empty pkt_len bufs n case2 (i + 1) (prepare api pkt_len mem q))
    | no past ↦ ground (arith, get_elem?-past i bufs (omega arith))
  ]
  duff-empty pkt_len bufs (suc n) case2 i mem h f s = elim (dec_lt i (length bufs)) [
    | yes within ↦
        let (q, at, rest) = get_elem?-drop i bufs within in
        ground (arith, duff-empty pkt_len bufs n case1 (i + 1) (prepare api pkt_len mem q))
    | no past ↦ ground (arith, get_elem?-past i bufs (omega arith))
  ]
  duff-empty pkt_len bufs (suc n) case1 i mem h f s = elim (dec_lt i (length bufs)) [
    | yes within ↦
        let (q, at, rest) = get_elem?-drop i bufs within in
        ground (arith, duff-empty pkt_len bufs n case0 (i + 1) (prepare api pkt_len mem q))
    | no past ↦ ground (arith, get_elem?-past i bufs (omega arith))
  ]

  filled_nothing : (mp : api.Pool) (bufs : List ℕ) → filled api bufs (api.get_bulk mp 0).0 ≡ bufs
  filled_nothing mp bufs = elim (Option-cases (api.get_bulk mp 0).0) [
    | inl short ↦ rw short
    | inr (objs, got) ↦ rw (got, length_zero objs (api.get_bulk_size mp 0 objs got))
  ]

  -- For `len` 0 the `switch` enters the loop behind its test: `alloc_mbufs` writes to the buffers of
  -- the array one after the other, and past its end, whatever the pool does.
  pub alloc_mbufs_empty :
      (mp : api.Pool) (bufs : List ℕ) (rounds pkt_len : ℕ) (mem : Mem)
      → length bufs + 1 < 2 ^ 32
      → length bufs < rounds
      → (alloc_mbufs api rounds mp bufs 0 pkt_len mem).2 ≡ fault
  unfolding alloc_mbufs
  alloc_mbufs_empty mp bufs rounds pkt_len mem h enough =
      rw (filled_nothing mp bufs)
        (duff-empty pkt_len bufs rounds case0 0 mem (omega arith) (omega arith) h)

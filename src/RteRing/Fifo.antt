-- ===== src/RteRing/Fifo.antt =====
-- A list as a ring: a concrete instance of the interface, on which the wrappers can be run.
use libmoon.Prelude.{
  ℕ, zero, suc, ◌+◌, ◌-◌, ◌^◌, ◌≤◌, ◌<◌, min, ◌≡◌, refl, ◌≢◌, ◌↔◌, Bool, true, false, Option, none,
  some, List, [], ◌∷◌, ◌++◌, length, take, drop, arith, ltb, leb, if◌then◌else◌, ◌==◌, length-take,
  length-drop, length-append, take_all, take-nil, ◌||◌, lt→ltb, le→ltb, le→leb, lt→leb, ap,
}
use native.Mathlib.Nat.{one-le-pow, pow-le-pow_right}
use libmoon.RteRing.Defs.{RingName, RteRing}

pub record Buffer : Type 0 where
  pub objs : List ℕ
  pub size : ℕ

abbrev pub buffer_space : Buffer → ℕ
buffer_space b = min b.size (2 ^ 31 - 1)

abbrev pub buffer_items : Buffer → List ℕ
buffer_items b = take (buffer_space b) b.objs

abbrev pub buffer_free : Buffer → ℕ
buffer_free b = buffer_space b - length (buffer_items b)

abbrev pub put : Buffer → List ℕ → Buffer
put b xs = record b { objs = buffer_items b ++ xs }

abbrev pub is_pow2_below : ℕ → ℕ → Bool
is_pow2_below zero n = false
is_pow2_below (suc k) n = n == 2 ^ k || is_pow2_below k n

abbrev pub buffer_create : RingName → ℕ → Option Buffer
buffer_create name n =
    if is_pow2_below 32 n then some (record { objs = []; size = n - 1 }) else none

abbrev pub enqueue_bulk : Buffer → List ℕ → ℕ × Buffer
enqueue_bulk b xs = if leb (length xs) (buffer_free b) then (length xs, put b xs) else (0, b)

abbrev pub enqueue_burst : Buffer → List ℕ → ℕ × Buffer
enqueue_burst b xs = (length (take (buffer_free b) xs), put b (take (buffer_free b) xs))

-- -ENOBUFS
abbrev pub enqueue : Buffer → ℕ → ℕ × Buffer
enqueue b x = if ltb 0 (buffer_free b) then (0, put b (x ∷ [])) else (2 ^ 32 - 105, b)

abbrev pub dequeue_bulk : Buffer → ℕ → List ℕ × Buffer
dequeue_bulk b n =
    if leb n (length (buffer_items b))
    then (take n (buffer_items b), record b { objs = drop n (buffer_items b) })
    else ([], b)

abbrev pub dequeue_burst : Buffer → ℕ → List ℕ × Buffer
dequeue_burst b n = (take n (buffer_items b), record b { objs = drop n (buffer_items b) })

abbrev pub dequeue_first : Buffer → List ℕ → Option ℕ × Buffer
dequeue_first b [] = (none, b)
dequeue_first b (x ∷ xs) = (some x, record b { objs = xs })

abbrev pub is_empty : List ℕ → ℕ
is_empty [] = 1
is_empty (x ∷ xs) = 0

abbrev pub is_full : Buffer → ℕ
is_full b = if length (buffer_items b) == buffer_space b then 1 else 0

pub is_empty_lem : (xs : List ℕ) → (is_empty xs ≡ 1) ↔ (xs ≡ [])
is_empty_lem [] = (λ e. refl, λ e. refl)
is_empty_lem (x ∷ xs) = (λ e. absurd (omega (arith, e)), λ e. ap is_empty e)

pub is_full_lem : (b : Buffer) → (is_full b ≡ 1) ↔ (length (buffer_items b) ≡ buffer_space b)
is_full_lem b = ground arith

create_size :
    (name : RingName) (k : ℕ) {b : Buffer}
    → buffer_create name (2 ^ k) ≡ some b
    → (b.objs ≡ []) × (b.size ≡ 2 ^ k - 1)
create_size name k e = ground arith

pow-bounds : (k : ℕ) → k ≤ 31 → (1 ≤ 2 ^ k) × (2 ^ k ≤ 2 ^ 31)
pow-bounds k h = (one-le-pow k 2 (omega arith), pow-le-pow_right {n = 2} (omega arith) h)

pub items_fit : (b : Buffer) → length (buffer_items b) ≤ buffer_space b
items_fit b = omega (arith, length-take (buffer_space b) b.objs)

items-objs :
    (b : Buffer) (xs : List ℕ)
    → length xs ≤ buffer_space b
    → buffer_items (record b { objs = xs }) ≡ xs
items-objs b xs h = take_all (buffer_space b) xs h

items-put :
    (b : Buffer) (xs : List ℕ)
    → length xs ≤ buffer_free b
    → buffer_items (put b xs) ≡ buffer_items b ++ xs
items-put b xs h =
    items-objs b (buffer_items b ++ xs)
      (omega (arith, length-append (buffer_items b) xs, items_fit b))

pub items-drop :
    (b : Buffer) (n : ℕ)
    → buffer_items (record b { objs = drop n (buffer_items b) }) ≡ drop n (buffer_items b)
items-drop b n =
    items-objs b (drop n (buffer_items b))
      (omega (arith, length-drop n (buffer_items b), items_fit b))

pub create_empty :
    (name : RingName) (k : ℕ)
    → k ≤ 31
    → (b : Buffer) → buffer_create name (2 ^ k) ≡ some b
    → (buffer_items b ≡ []) × (buffer_space b + 1 ≡ 2 ^ k)
create_empty name k h b e =
    let (p, q) = create_size name k e in
    (rw p (take-nil (buffer_space b)), omega (arith, pow-bounds k h))

pub enqueue_bulk_fits :
    (b : Buffer) (xs : List ℕ)
    → length (buffer_items b) + length xs ≤ buffer_space b
    → ((enqueue_bulk b xs).0 ≡ length xs)
      × (buffer_items (enqueue_bulk b xs).1 ≡ buffer_items b ++ xs)
      × (buffer_space (enqueue_bulk b xs).1 ≡ buffer_space b)
enqueue_bulk_fits b xs h =
    let fits : leb (length xs) (buffer_free b) ≡ true = le→leb _ _ (omega arith) in
    rw fits (refl, items-put b xs (omega arith), refl)

pub enqueue_bulk_full :
    (b : Buffer) (xs : List ℕ)
    → buffer_space b < length (buffer_items b) + length xs
    → enqueue_bulk b xs ≡ (0, b)
enqueue_bulk_full b xs h =
    let full : leb (length xs) (buffer_free b) ≡ false = lt→leb _ _ (omega (arith, items_fit b)) in
    rw full

pub enqueue_burst_lem :
    (b : Buffer) (xs : List ℕ)
    → ((enqueue_burst b xs).0 ≡ length (take (buffer_free b) xs))
      × (buffer_items (enqueue_burst b xs).1 ≡ buffer_items b ++ take (buffer_free b) xs)
      × (buffer_space (enqueue_burst b xs).1 ≡ buffer_space b)
enqueue_burst_lem b xs = (
  refl,
  items-put b (take (buffer_free b) xs) (omega (arith, length-take (buffer_free b) xs)),
  refl,
)

pub enqueue_fits :
    (b : Buffer) (x : ℕ)
    → length (buffer_items b) < buffer_space b
    → ((enqueue b x).0 ≡ 0)
      × (buffer_items (enqueue b x).1 ≡ buffer_items b ++ (x ∷ []))
      × (buffer_space (enqueue b x).1 ≡ buffer_space b)
enqueue_fits b x h =
    let fits : ltb 0 (buffer_free b) ≡ true = lt→ltb _ _ (omega arith) in
    rw fits (refl, items-put b (x ∷ []) (omega arith), refl)

pub enqueue_full :
    (b : Buffer) (x : ℕ)
    → buffer_space b ≤ length (buffer_items b)
    → ((enqueue b x).0 ≢ 0) × ((enqueue b x).1 ≡ b)
enqueue_full b x h =
    let full : ltb 0 (buffer_free b) ≡ false = le→ltb _ _ (omega arith) in
    rw full (omega arith, refl)

pub dequeue_bulk_ready :
    (b : Buffer) (n : ℕ)
    → n ≤ length (buffer_items b)
    → ((dequeue_bulk b n).0 ≡ take n (buffer_items b))
      × (buffer_items (dequeue_bulk b n).1 ≡ drop n (buffer_items b))
      × (buffer_space (dequeue_bulk b n).1 ≡ buffer_space b)
dequeue_bulk_ready b n h =
    let ready : leb n (length (buffer_items b)) ≡ true = le→leb _ _ h in
    rw ready (refl, items-drop b n, refl)

pub dequeue_bulk_short :
    (b : Buffer) (n : ℕ) → length (buffer_items b) < n → dequeue_bulk b n ≡ ([], b)
dequeue_bulk_short b n h =
    let short : leb n (length (buffer_items b)) ≡ false = lt→leb _ _ h in rw short

pub dequeue_ready :
    (b : Buffer) (x : ℕ) (xs : List ℕ)
    → buffer_items b ≡ x ∷ xs
    → ((dequeue_first b (buffer_items b)).0 ≡ some x)
      × (buffer_items (dequeue_first b (buffer_items b)).1 ≡ xs)
      × (buffer_space (dequeue_first b (buffer_items b)).1 ≡ buffer_space b)
dequeue_ready b x xs e =
    let shorter : suc (length xs) ≤ buffer_space b = rw (ap length e) at (items_fit b) in
    rw e (refl, items-objs b xs (omega arith), refl)

abbrev pub fifo : RteRing
fifo = record {
  Ring = Buffer;
  items = buffer_items;
  space = buffer_space;
  create = buffer_create;
  count = λ b. length (buffer_items b);
  free_count = buffer_free;
  empty = λ b. is_empty (buffer_items b);
  full = is_full;
  sp_enqueue_bulk = enqueue_bulk;
  sp_enqueue_burst = enqueue_burst;
  sp_enqueue = enqueue;
  sc_dequeue_bulk = dequeue_bulk;
  sc_dequeue_burst = dequeue_burst;
  sc_dequeue = λ b. dequeue_first b (buffer_items b);
  create_empty = create_empty;
  space_limit = λ b. omega arith;
  items_fit = items_fit;
  count_lem = λ b. refl;
  free_count_lem = λ b. refl;
  empty_lem = λ b. is_empty_lem (buffer_items b);
  full_lem = is_full_lem;
  enqueue_bulk_fits = enqueue_bulk_fits;
  enqueue_bulk_full = enqueue_bulk_full;
  enqueue_burst_lem = enqueue_burst_lem;
  enqueue_fits = enqueue_fits;
  enqueue_full = enqueue_full;
  dequeue_bulk_ready = dequeue_bulk_ready;
  dequeue_bulk_short = dequeue_bulk_short;
  dequeue_burst_lem = λ b n. (refl, items-drop b n, refl);
  dequeue_empty = λ b e. rw e;
  dequeue_ready = dequeue_ready;
}

-- ===== src/Timestamping/Tests.antt =====
-- Two cards whose clocks show 70 and 20 at the start; each access takes 3 ticks.
use libmoon.Prelude.{
  ℕ, suc, ◌+◌, ◌≡◌, ◌≢◌, ◌≤◌, refl, false, none, some, List, [], ◌∷◌, arith, ◌==◌, if◌then◌else◌,
  length, ◌⊎◌, inl, inr,
}
use native.Mathlib.Decide.{dec_lt}
use libmoon.Timestamping.{
  Registers, Order, less, equal, greater, cmp, rank, measure, adjust, libmoon_sync_clocks, Bytes,
  set_timestamp_dynfield, init_timestamp_dynfield_offset, TimeCounter, Adapter,
  libmoon_i40e_reset_timecounters, libmoon_igb_reset_timecounters, libmoon_ixgbe_reset_timecounters,
}
use libmoon.Timestamping.Clocks.{count, IsOrdered, Sorts, libmoon_sync_clocks_lem}

-- The time, and the writes of values other than 0.
abbrev State : Type 0
State = ℕ × List (ℕ × ℕ × ℕ)

abbrev cards : Registers
cards = record {
  Cards = State;
  write_reg32 = λ port reg v s. (s.0 + 3, if v == 0 then s.1 else (port, reg, v) ∷ s.1);
  read_reg32 = λ port reg s. (s.0 + (if port == 0 then 70 else 20), (s.0 + 3, s.1));
}

-- `qsort` as an insertion sort.
abbrev put : (ℕ → ℕ → Order) → ℕ → List ℕ → List ℕ
put order x [] = x ∷ []
put order x (y ∷ ys) =
    let rest = put order x ys in
    elim (order x y) [ greater ↦ y ∷ rest | less ↦ x ∷ y ∷ ys | equal ↦ x ∷ y ∷ ys ]

abbrev qsort : (ℕ → ℕ → Order) → List ℕ → List ℕ
qsort order [] = []
qsort order (x ∷ xs) = put order x (qsort order xs)

cmp-cases : (x y : ℕ) → (cmp x y ≡ greater) ⊎ (cmp x y ≢ greater)
cmp-cases x y = elim (dec_lt (rank y) (rank x)) [
  | yes h ↦ inl (ground arith)
  | no h ↦ inr (λ e. ground arith)
]

flip : (x y : ℕ) → cmp x y ≡ greater → cmp y x ≢ greater
flip x y h = ground arith

put_back : (x y : ℕ) (ys : List ℕ) → cmp x y ≡ greater → put cmp x (y ∷ ys) ≡ y ∷ put cmp x ys
put_back x y ys h = ground arith

put_front : (x y : ℕ) (ys : List ℕ) → cmp x y ≢ greater → put cmp x (y ∷ ys) ≡ x ∷ y ∷ ys
put_front x y ys h = ground arith

put-IsOrdered : (x : ℕ) (ys : List ℕ) → IsOrdered ys → IsOrdered (put cmp x ys)
put-IsOrdered x [] h = tt
put-IsOrdered x (y ∷ []) h = elim (cmp-cases x y) [
  | inl g ↦ rw (put_back x y [] g) (flip x y g, tt)
  | inr n ↦ rw (put_front x y [] n) (n, tt)
]
put-IsOrdered x (y ∷ z ∷ zs) (yz, h) = elim (cmp-cases x y) [
  | inl g ↦
      let ih = put-IsOrdered x (z ∷ zs) h in
      rw (put_back x y (z ∷ zs) g) (elim (cmp-cases x z) [
        | inl g' ↦ rw (put_back x z zs g') (yz, rw (put_back x z zs g') at ih)
        | inr n ↦ rw (put_front x z zs n) (flip x y g, (n, h))
      ])
  | inr n ↦ rw (put_front x y (z ∷ zs) n) (n, (yz, h))
]

put_count : (v x : ℕ) (ys : List ℕ) → count v (put cmp x ys) ≡ count v (x ∷ ys)
put_count v x [] = refl
put_count v x (y ∷ ys) = ground (arith, put_count v x ys)

length-put : (x : ℕ) (ys : List ℕ) → length (put cmp x ys) ≡ suc (length ys)
length-put x [] = refl
length-put x (y ∷ ys) = ground (arith, length-put x ys)

qsort-IsOrdered : (xs : List ℕ) → IsOrdered (qsort cmp xs)
qsort-IsOrdered [] = tt
qsort-IsOrdered (x ∷ xs) = put-IsOrdered x (qsort cmp xs) (qsort-IsOrdered xs)

qsort_counts : (v : ℕ) (xs : List ℕ) → count v (qsort cmp xs) ≡ count v xs
qsort_counts v [] = refl
qsort_counts v (x ∷ xs) = omega (arith, put_count v x (qsort cmp xs), qsort_counts v xs)

length-qsort : (xs : List ℕ) → length (qsort cmp xs) ≡ length xs
length-qsort [] = refl
length-qsort (x ∷ xs) = omega (arith, length-put x (qsort cmp xs), length-qsort xs)

qsort-Sorts : Sorts qsort
qsort-Sorts = record {
  sorted = qsort-IsOrdered;
  same_counts = qsort_counts;
  same_length = length-qsort;
}

seven_rounds : (measure cards 7 0 1 4 (0, [])).0 ≡ 50 ∷ 50 ∷ 50 ∷ 50 ∷ 50 ∷ 50 ∷ 50 ∷ []
unfolding measure
seven_rounds = refl

adjusted : libmoon_sync_clocks cards qsort 0 1 4 5 6 7 (0, []) ≡ (108, (1, 6, 50) ∷ [])
unfolding libmoon_sync_clocks measure
adjusted = refl

libmoon_sync_clocks_lem_example :
    let s1 : State = (12, []) in
    let end = libmoon_sync_clocks cards qsort 0 1 4 5 6 7 (0, []) in
    (◌≡◌ {A = ℕ} 0 1 → end ≡ s1)
    × (◌≢◌ {A = ℕ} 0 1
        → 4 ≤ count 50 (measure cards 7 0 1 4 (18, [])).0
        → end ≡ adjust cards 1 6 7 50 (measure cards 7 0 1 4 (18, [])).1)
libmoon_sync_clocks_lem_example =
    libmoon_sync_clocks_lem cards qsort qsort-Sorts 0 1 4 5 6 7 50 (0, [])

abbrev blank : Bytes
blank p = 255

byte_order : set_timestamp_dynfield 2 blank 513 3 ≡ 2
unfolding set_timestamp_dynfield
byte_order = refl

field_registered : init_timestamp_dynfield_offset none (some 64) ≡ some 64
unfolding init_timestamp_dynfield_offset
field_registered = refl

abbrev counter : ℕ → TimeCounter
counter n = record { cycle_last = n; nsec = n; nsec_frac = n; rest = 9 }

abbrev adapters : ℕ → Adapter
adapters p = record {
  systime_tc = counter p;
  rx_tstamp_tc = counter (p + 1);
  tx_tstamp_tc = counter (p + 2);
}

other_port_kept : (libmoon_i40e_reset_timecounters (λ p. p == 3) 3 adapters).1 4 ≡ adapters 4
unfolding libmoon_i40e_reset_timecounters
other_port_kept = refl

igb_reset :
    ((libmoon_igb_reset_timecounters (λ p. p == 3) 3 adapters).1 3).tx_tstamp_tc
    ≡ record { cycle_last = 0; nsec = 0; nsec_frac = 0; rest = 9 }
unfolding libmoon_igb_reset_timecounters
igb_reset = refl

no_such_port : libmoon_ixgbe_reset_timecounters (λ p. p == 3) 5 adapters ≡ (false, adapters)
unfolding libmoon_ixgbe_reset_timecounters
no_such_port = refl

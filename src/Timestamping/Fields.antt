-- ===== src/Timestamping/Fields.antt =====
-- Time stamps in buffers, and the counters of a driver.
use libmoon.Prelude.{
  ℕ, zero, suc, ◌+◌, ◌-◌, ◌*◌, ◌/◌, ◌%◌, ◌^◌, ◌<◌, ◌≤◌, ◌≡◌, refl, ap, ◌∙◌, arith, ◌⊎◌,
}
use libmoon.Timestamping.{Bytes, byte_of, word_at, get_timestamp_dynfield, set_timestamp_dynfield}

-- v without its first `i` bytes, and its first `left` bytes.
abbrev rest_of : ℕ → ℕ → ℕ
rest_of v zero = v
rest_of v (suc i) = rest_of (v / 256) i

abbrev low_bytes : ℕ → ℕ → ℕ
low_bytes v zero = 0
low_bytes v (suc left) = v % 256 + 256 * low_bytes (v / 256) left

byte_of-eq : (v i : ℕ) → byte_of v i ≡ rest_of v i % 256
byte_of-eq v zero = refl
byte_of-eq v (suc i) = byte_of-eq (v / 256) i

rest_of-suc : (v i : ℕ) → rest_of v i / 256 ≡ rest_of v (suc i)
rest_of-suc v zero = refl
rest_of-suc v (suc i) = rest_of-suc (v / 256) i

module _ (offset : ℕ) (m : Bytes) (v : ℕ) where
  byte_at : (i : ℕ) → i < 8 → set_timestamp_dynfield offset m v (offset + i) ≡ byte_of v i
  unfolding set_timestamp_dynfield
  byte_at i h = let back : (offset + i) - offset ≡ i = omega arith in rw back (ground arith)

  word_at_set :
      (left i : ℕ)
      → i + left ≤ 8
      → word_at (set_timestamp_dynfield offset m v) (offset + i) left ≡ low_bytes (rest_of v i) left
  word_at_set zero i h = refl
  word_at_set (suc left) i h =
      let next : offset + i + 1 ≡ offset + suc i = omega arith in
      rw next (
        let tail = word_at_set left (suc i) (omega arith) in
        let head = byte_at i (omega arith) ∙ byte_of-eq v i in
        let step = ap (λ (x : ℕ). low_bytes x left) (rest_of-suc v i) in
        ground (arith, tail, head, step))

untouched :
    (offset : ℕ) (m : Bytes) (v p : ℕ)
    → (p < offset) ⊎ (offset + 8 ≤ p)
    → set_timestamp_dynfield offset m v p ≡ m p
unfolding set_timestamp_dynfield
untouched offset m v p h = ground arith

-- The time stamp that was set is the one that is got, and no other byte of the buffer changes.
get_timestamp-set_timestamp :
    (offset : ℕ) (m : Bytes) (timestamp : ℕ)
    → timestamp < 2 ^ 64
    → let m' = set_timestamp_dynfield offset m timestamp in
      (get_timestamp_dynfield offset m' ≡ timestamp)
      × ((p : ℕ) → (p < offset) ⊎ (offset + 8 ≤ p) → m' p ≡ m p)
unfolding get_timestamp_dynfield
get_timestamp-set_timestamp offset m timestamp h = (
  let start : offset + 0 ≡ offset = omega arith in
      let all : low_bytes timestamp 8 ≡ timestamp = omega arith in
      rw start at (word_at_set offset m timestamp 8 0 (omega arith)) ∙ all,
  λ p outside. untouched offset m timestamp p outside,
)

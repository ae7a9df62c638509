-- ===== src/Prelude/Bytes.antt =====
-- Memory as a list of bytes, and the little-endian loads and stores of the x86 that libmoon runs on.
use libmoon.Prelude.Lists.{length, get_or, set, length-set}
use Prim.Native.Nat.{ℕ, zero, suc, ◌+◌, ◌*◌, ◌/◌, ◌%◌, ◌^◌, ◌<◌}
use mathlib.Core.Path.{◌≡◌, refl, ap, ◌∙◌}
use mathlib.Core.Logic.{◌≢◌}
use mathlib.Core.List.{List, [], ◌∷◌}
use native.Mathlib.Omega.{arith}

abbrev pub load8 : List ℕ → ℕ → ℕ
load8 m i = get_or m i 0

abbrev pub load16 : List ℕ → ℕ → ℕ
load16 m i = load8 m i + 256 * load8 m (i + 1)

abbrev pub load32 : List ℕ → ℕ → ℕ
load32 m i = load16 m i + 2 ^ 16 * load16 m (i + 2)

abbrev pub store16 : List ℕ → ℕ → ℕ → List ℕ
store16 m i v = set (set m i (v % 256)) (i + 1) (v / 256)

abbrev pub IsBytes : List ℕ → Type 0
IsBytes [] = Unit
IsBytes (x ∷ xs) = (x < 256) × IsBytes xs

pub load8-lt : (m : List ℕ) (i : ℕ) → IsBytes m → load8 m i < 256
load8-lt [] i h = omega arith
load8-lt (x ∷ xs) zero h = h.0
load8-lt (x ∷ xs) (suc i) h = load8-lt xs i h.1

pub load8-set_self : (m : List ℕ) (i v : ℕ) → i < length m → load8 (set m i v) i ≡ v
load8-set_self [] i v h = elim h [ ]
load8-set_self (x ∷ xs) zero v h = refl
load8-set_self (x ∷ xs) (suc i) v h = load8-set_self xs i v (omega arith)

pub load8-set_ne : (m : List ℕ) (i j v : ℕ) → i ≢ j → load8 (set m i v) j ≡ load8 m j
load8-set_ne [] i j v h = refl
load8-set_ne (x ∷ xs) zero zero v h = absurd (h refl)
load8-set_ne (x ∷ xs) zero (suc j) v h = refl
load8-set_ne (x ∷ xs) (suc i) zero v h = refl
load8-set_ne (x ∷ xs) (suc i) (suc j) v h = load8-set_ne xs i j v (λ e. h (ap suc e))

pub load16-lt : (m : List ℕ) (i : ℕ) → IsBytes m → load16 m i < 2 ^ 16
load16-lt m i h = omega (arith, load8-lt m i h, load8-lt m (i + 1) h)

pub load32-lt : (m : List ℕ) (i : ℕ) → IsBytes m → load32 m i < 2 ^ 32
load32-lt m i h = omega (arith, load16-lt m i h, load16-lt m (i + 2) h)

pub length-store16 : (m : List ℕ) (i v : ℕ) → length (store16 m i v) ≡ length m
length-store16 m i v = length-set (set m i (v % 256)) (i + 1) (v / 256) ∙ length-set m i (v % 256)

-- What is stored is read back.
pub load16-store16 : (m : List ℕ) (i v : ℕ) → i + 1 < length m → load16 (store16 m i v) i ≡ v
load16-store16 m i v h = omega (
  arith,
  load8-set_ne (set m i (v % 256)) (i + 1) i (v / 256) (omega arith),
  load8-set_self m i (v % 256) (omega arith),
  load8-set_self (set m i (v % 256)) (i + 1) (v / 256) (omega (arith, length-set m i (v % 256))),
)

-- A store touches its two bytes.
pub load8-store16_ne :
    (m : List ℕ) (i j v : ℕ) → i ≢ j → i + 1 ≢ j → load8 (store16 m i v) j ≡ load8 m j
load8-store16_ne m i j v h k =
    load8-set_ne (set m i (v % 256)) (i + 1) j (v / 256) k ∙ load8-set_ne m i j (v % 256) h

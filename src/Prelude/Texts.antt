-- ===== src/Prelude/Texts.antt =====
-- Texts of C and C++ as lists of bytes, and of literals.
use Prim.Native.Nat.{ℕ, suc}
use Prim.Native.String.{String}
use Prim.Native.Char.{code}
use mathlib.Core.Path.{◌≡◌, refl}
use mathlib.Core.Logic.{◌≢◌}
use mathlib.Core.Bool.{Bool, true, false}
use mathlib.Core.Option.{Option, none, some}
use mathlib.Core.List.{List, [], ◌∷◌, ◌++◌}
use native.Mathlib.Omega.{arith}
use libmoon.Prelude.Tests.{◌==◌, if◌then◌else◌}
use libmoon.Prelude.Lists.{length}

abbrev pub Text : Type 0
Text = List ℕ

-- The bytes of an ASCII literal.
abbrev pub bytes : String → Text
bytes String.[] = []
bytes (String.◌∷◌ c s) = code c ∷ bytes s

-- `std::string::find_last_of`
abbrev pub find_last_of : ℕ → Text → Option ℕ
find_last_of c [] = none
find_last_of c (b ∷ t) = elim (find_last_of c t) [
  | none ↦ if b == c then some 0 else none
  | some i ↦ some (suc i)
]

-- What `std::string(buf)` takes of a buffer.
abbrev pub until_nul : Text → Text
until_nul [] = []
until_nul (b ∷ t) = if b == 0 then [] else b ∷ until_nul t

-- The part before the first separator `c`, and the parts behind it.
parts : ℕ → Text → Text × List Text
parts c [] = ([], [])
parts c (b ∷ t) =
    let (part, rest) = parts c t in if b == c then ([], part ∷ rest) else (b ∷ part, rest)

pub split : ℕ → Text → List Text
split c t = (parts c t).0 ∷ (parts c t).1

-- No byte of the text is `c`.
abbrev pub IsWithout : ℕ → Text → Type 0
IsWithout c [] = Unit
IsWithout c (b ∷ t) = (b ≢ c) × IsWithout c t

-- For a text that is given.
abbrev pub lacks : ℕ → Text → Bool
lacks c [] = true
lacks c (b ∷ t) = if b == c then false else lacks c t

pub lacks-IsWithout : (c : ℕ) (t : Text) → lacks c t ≡ true → IsWithout c t
lacks-IsWithout c [] h = tt
lacks-IsWithout c (b ∷ t) h = (ground arith, lacks-IsWithout c t (ground arith))

pub IsWithout-append : (c : ℕ) (s t : Text) → IsWithout c s → IsWithout c t → IsWithout c (s ++ t)
IsWithout-append c [] t h k = k
IsWithout-append c (b ∷ s) t (h, hs) k = (h, IsWithout-append c s t hs k)

pub until_nul-append : (s t : Text) → IsWithout 0 s → until_nul (s ++ t) ≡ s ++ until_nul t
until_nul-append [] t h = refl
until_nul-append (b ∷ s) t (h, hs) = ground (arith, until_nul-append s t hs)

find_last_of-none : (c : ℕ) (t : Text) → IsWithout c t → find_last_of c t ≡ none
find_last_of-none c [] h = refl
find_last_of-none c (b ∷ t) (h, hs) = ground (arith, find_last_of-none c t hs)

pub find_last_of-append :
    (c : ℕ) (s t : Text) → IsWithout c t → find_last_of c (s ++ c ∷ t) ≡ some (length s)
find_last_of-append c [] t h = ground (arith, find_last_of-none c t h)
find_last_of-append c (b ∷ s) t h = ground (arith, find_last_of-append c s t h)

parts-part : (c : ℕ) (s t : Text) → IsWithout c s → parts c (s ++ c ∷ t) ≡ (s, split c t)
unfolding parts split
parts-part c [] t h = ground arith
parts-part c (b ∷ s) t (h, hs) = rw (parts-part c s t hs) (ground arith)

pub split-part : (c : ℕ) (s t : Text) → IsWithout c s → split c (s ++ c ∷ t) ≡ s ∷ split c t
unfolding split
split-part c s t h = rw (parts-part c s t h) refl

pub split-empty : (c : ℕ) → split c [] ≡ [] ∷ []
unfolding split parts
split-empty c = refl

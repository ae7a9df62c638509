-- ===== src/Launch/Tests.antt =====
-- A Lua that keeps its stack in a list and whose functions fail exactly when called without texts.
use libmoon.Prelude.{
  ℕ, zero, suc, ◌+◌, ◌≡◌, refl, Bool, true, false, some, List, [], ◌∷◌, ◌++◌, arith, length, bytes,
  ap, ◌∙◌, append-nil,
}
use libmoon.Launch.Api.{Lua, Value, global, string, onto}
use libmoon.Launch.{returns_0, launch_lua, load, main}
use libmoon.Launch.Roles.{main_lem}

-- Calling a text fails, and so does a function without arguments.
abbrev outcome : Value → List Value → Bool × List Value
outcome (string t) args = (true, [])
outcome (global name) [] = (true, [])
outcome (global name) (arg ∷ args) = (false, [])

-- The arguments are on the top of the stack, the last one first.
abbrev fetch : ℕ → List Value → List Value → Bool × List Value
fetch n [] args = (true, [])
fetch zero (f ∷ rest) args = outcome f args
fetch (suc n) (v ∷ stack) args = fetch n stack (v ∷ args)

fetch-onto :
    (vs stack acc : List Value) (k n : ℕ)
    → n ≡ length vs + k
    → fetch n (onto vs stack) acc ≡ fetch k stack (vs ++ acc)
fetch-onto [] stack acc k n e = ap (λ m. fetch m stack acc) (omega (arith, e))
fetch-onto (v ∷ vs) stack acc k n e = fetch-onto vs (v ∷ stack) acc (suc k) n (omega (arith, e))

abbrev lists : Lua
lists = record {
  State = List Value;
  stack = λ L. L;
  newstate = some [];
  openlibs = λ L. L;
  dostring = λ L chunk. (false, L);
  getglobal = λ L name. global name ∷ L;
  pushstring = λ L t. string t ∷ L;
  pcall = λ L n. fetch n L [];
  call = λ L f args. outcome f args;
  getglobal_lem = λ L name. refl;
  pushstring_lem = λ L t. refl;
  pcall_lem = λ L f args rest h.
      ap (λ s. fetch (length args) s []) h
      ∙ fetch-onto args (f ∷ rest) [] 0 (length args) (omega arith)
      ∙ ap (outcome f) (append-nil args);
}

main_lem_example :
    (M : List Value) × (M
      ≡ string (bytes "a.lua")
        ∷ string (bytes "moon")
        ∷ string (bytes "master")
        ∷ global (bytes "main")
        ∷ [])
    × (main lists [] (bytes "moon" ∷ bytes "a.lua" ∷ []) ≡ (true, returns_0))
unfolding launch_lua load
main_lem_example = main_lem lists [] (bytes "moon" ∷ bytes "a.lua" ∷ []) [] (omega arith) refl

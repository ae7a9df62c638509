-- ===== src/Launch/Api.antt =====
-- What the program uses of the C interface of Lua 5.1, with its documented behaviour.
use libmoon.Prelude.{ℕ, ◌≡◌, Bool, Option, List, [], ◌∷◌, length, Text}

-- What the code pushes: the value of a global variable, and texts.
pub data Value : Type 0 where
  global string : Text → Value

abbrev pub onto : List Value → List Value → List Value
onto [] stack = stack
onto (v ∷ vs) stack = onto vs (v ∷ stack)

pub record Lua : Type 1 where
  pub State : Type 0
  -- the values on the stack, the top first
  pub stack : State → List Value
  -- `luaL_newstate`; `none` is NULL
  pub newstate : Option State
  pub openlibs : State → State
  -- `luaL_dostring`, `lua_pcall`: whether there was an error
  pub dostring : State → Text → Bool × State
  pub getglobal : State → Text → State
  pub pushstring : State → Text → State
  pub pcall : State → ℕ → Bool × State
  -- what calling the value does: "the arguments are pushed in direct order"
  pub call : State → Value → List Value → Bool × State
  pub getglobal_lem : (L : State) (name : Text) → stack (getglobal L name) ≡ global name ∷ stack L
  pub pushstring_lem : (L : State) (t : Text) → stack (pushstring L t) ≡ string t ∷ stack L
  pub pcall_lem :
      (L : State) (f : Value) (args rest : List Value)
      → stack L ≡ onto args (f ∷ rest)
      → pcall L (length args) ≡ call L f args

-- ===== src/Launch.antt =====
-- src/main.cpp and src/task.cpp: starting Lua, as the program and as the task of a core.
-- Lua is a parameter. The search path that Lua gets is the one of Start. `data Exit` is how a
-- function ends: with 0, 1 or -1, by `std::abort`, or by a fault, which is what `luaL_openlibs` does
-- with the NULL of a `luaL_newstate` that fails. `lua_close` frees a state that nothing reads again,
-- and what is written on standard error is left out.
pub mod Api
pub mod Roles
mod Tests
use libmoon.Prelude.{
  ℕ, zero, suc, ◌+◌, ◌≡◌, Bool, true, false, Option, none, some, List, [], ◌∷◌, ◌++◌, length, ltb,
  Text, bytes, until_nul, if◌then◌else◌,
}
use libmoon.Start.{Files, setup_base_dir, build_lua_path}
use libmoon.Launch.Api.{Lua}

pub data Exit : Type 0 where
  returns_0 returns_1 returns_minus_1 aborts faults : Exit

module _ (lua : Lua) where
  pub data Launched : Type 0 where
    launched : lua.State → Launched
    launch_aborts launch_faults : Launched

  -- `std::abort` when the main module does not load; the result of the first chunk is not looked at.
  pub load : Text → lua.State → Launched
  load lua_path L =
      let path_set : lua.State =
        (lua.dostring L (bytes "package.path = " ++ lua_path ++ bytes " .. package.path")).1 in
      let (error, loaded) = lua.dostring path_set (bytes "require 'main'") in
      if error then launch_aborts else launched loaded

  pub launch_lua : Text → Launched
  launch_lua lua_path = elim lua.newstate [
    | none ↦ launch_faults
    | some L ↦ load lua_path (lua.openlibs L)
  ]

  -- The `for` that pushes the arguments.
  pub push_each : List Text → lua.State → lua.State
  push_each [] L = L
  push_each (arg ∷ args) L = push_each args (lua.pushstring L arg)

  -- `lua_pcall` and the test of its result
  pub call_main : ℕ → lua.State → Exit
  call_main nargs L = if (lua.pcall L nargs).0 then returns_minus_1 else returns_0

  pub run_master : List Text → Launched → Exit
  run_master argv launch_aborts = aborts
  run_master argv launch_faults = faults
  run_master argv (launched L) =
      call_main (length argv + 1)
        (push_each argv (lua.pushstring (lua.getglobal L (bytes "main")) (bytes "master")))

  -- `libmoon::main`; whether it installs the signal handlers, and how it ends
  pub main : Text → List Text → Bool × Exit
  main lua_path argv =
      if ltb (length argv) 2
      then (false, returns_1)
      else (true, run_master argv (launch_lua lua_path))

  pub run_slave : Text → Launched → Exit
  run_slave arg launch_aborts = aborts
  run_slave arg launch_faults = faults
  run_slave arg (launched L) =
      call_main 2
        (lua.pushstring (lua.pushstring (lua.getglobal L (bytes "main")) (bytes "slave")) arg)

  pub lua_core_main : Text → Text → Exit
  lua_core_main lua_path arg = run_slave arg (launch_lua lua_path)

  -- The program of main.cpp: no extra path is set up.
  pub with_base_dir : List Text → Option Text → Bool × Exit
  with_base_dir argv none = (false, aborts)
  with_base_dir argv (some base_dir) = main (build_lua_path base_dir none) argv

  pub program : Files → Text → List Text → Bool × Exit
  program files uninit argv = with_base_dir argv (
      setup_base_dir files uninit (bytes "." ∷ bytes ".." ∷ bytes "/usr/local/lib/libmoon" ∷ [])
        true)

-- The cores are a parameter: `remote_launch` starts `lua_core_main` with that text on a core, and
-- says whether there was an error, which the code does not look at.
module _ {Cores : Type 0} (remote_launch : Cores → Text → ℕ → Bool × Cores) where
  pub launch_lua_core : Cores → ℕ → Text → Cores
  launch_lua_core cores core arg = (remote_launch cores (until_nul arg) core).1

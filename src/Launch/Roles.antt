-- ===== src/Launch/Roles.antt =====
-- What the function `main` of Lua is called with, by the program and by the task of a core.
use libmoon.Prelude.{
  IsWithout, until_nul, Option, some, ◌++◌, ◌≤◌, ◌≡◌, refl, ap, ◌∙◌, Bool, true, List, [], ◌∷◌, map,
  length, length-map, arith, Text, bytes, le→ltb, if◌then◌else◌,
}
use libmoon.Start.{Files, slash, is_base_dir, resolve, setup_base_dir}
use libmoon.Start.Bases.{Picks, setup_base_dir_lem}
use libmoon.Launch.Api.{Lua, Value, global, string, onto}
use libmoon.Launch.{
  Exit, returns_0, returns_minus_1, launched, launch_lua, push_each, call_main, run_master, main,
  run_slave, lua_core_main, with_base_dir, program,
}

abbrev pub exit_of : Bool → Exit
exit_of error = if error then returns_minus_1 else returns_0

module _ (lua : Lua) where
  push_each-stack :
      (args : List Text) (L : lua.State)
      → lua.stack (push_each lua args L) ≡ onto (map string args) (lua.stack L)
  unfolding push_each
  push_each-stack [] L = refl
  push_each-stack (arg ∷ args) L =
      push_each-stack args (lua.pushstring L arg)
      ∙ ap (onto (map string args)) (lua.pushstring_lem L arg)

  call_main_lem :
      (L : lua.State) (args : List Value) (rest : List Value)
      → lua.stack L ≡ onto args (global (bytes "main") ∷ rest)
      → call_main lua (length args) L ≡ exit_of (lua.call L (global (bytes "main")) args).0
  unfolding call_main
  call_main_lem L args rest h =
      ap (λ r. exit_of r.0) (lua.pcall_lem L (global (bytes "main")) args rest h)

  -- If the program has at least one argument and `launch_lua` gives it a Lua state `L`, then it
  -- installs the signal handlers, pushes the global `main`, the text "master" and all its arguments,
  -- its own name the first, on the stack of `L`, calls this `main` with these texts in their order,
  -- and returns -1 when the call fails and 0 otherwise.
  pub main_lem :
      (lua_path : Text) (argv : List Text) (L : lua.State)
      → 2 ≤ length argv
      → launch_lua lua lua_path ≡ launched L
      → (M : lua.State) × (lua.stack M
          ≡ onto (string (bytes "master") ∷ map string argv) (global (bytes "main") ∷ lua.stack L))
        × (main lua lua_path argv ≡ (
          true,
          exit_of
              (lua.call M (global (bytes "main")) (string (bytes "master") ∷ map string argv)).0,
        ))
  unfolding main run_master
  main_lem lua_path argv L h start = (
    M,
    pushed,
    simp (le→ltb (length argv) 2 h) refl
        ∙ ap (λ r. (true, run_master lua argv r)) start
        ∙ ap (λ n. (true, call_main lua n M)) (omega (arith, length-map argv string))
        ∙ ap (λ r. (true, r))
            (call_main_lem M (string (bytes "master") ∷ map string argv) (lua.stack L) pushed),
  )
    where
      P : lua.State
      P = lua.getglobal L (bytes "main")

      M : lua.State
      M = push_each lua argv (lua.pushstring P (bytes "master"))

      pushed :
          lua.stack M
          ≡ onto (string (bytes "master") ∷ map string argv) (global (bytes "main") ∷ lua.stack L)
      pushed =
          push_each-stack argv (lua.pushstring P (bytes "master"))
          ∙ ap (onto (map string argv)) (
              lua.pushstring_lem P (bytes "master")
              ∙ ap (λ r. string (bytes "master") ∷ r) (lua.getglobal_lem L (bytes "main")))

  -- If `launch_lua` gives the task of a core a Lua state `L`, then the task pushes the global `main`,
  -- the text "slave" and its argument on the stack of `L`, calls this `main` with these two texts,
  -- and returns -1 when the call fails and 0 otherwise.
  lua_core_main_lem :
      (lua_path arg : Text) (L : lua.State)
      → launch_lua lua lua_path ≡ launched L
      → (M : lua.State) × (lua.stack M
          ≡ onto (string (bytes "slave") ∷ string arg ∷ []) (global (bytes "main") ∷ lua.stack L))
        × (lua_core_main lua lua_path arg
            ≡ exit_of
                (lua.call M (global (bytes "main")) (string (bytes "slave") ∷ string arg ∷ [])).0)
  unfolding lua_core_main run_slave
  lua_core_main_lem lua_path arg L start = (
    M,
    pushed,
    ap (run_slave lua arg) start
        ∙ call_main_lem M (string (bytes "slave") ∷ string arg ∷ []) (lua.stack L) pushed,
  )
    where
      P : lua.State
      P = lua.getglobal L (bytes "main")

      M : lua.State
      M = lua.pushstring (lua.pushstring P (bytes "slave")) arg

      pushed :
          lua.stack M ≡ string arg ∷ string (bytes "slave") ∷ global (bytes "main") ∷ lua.stack L
      pushed =
          lua.pushstring_lem (lua.pushstring P (bytes "slave")) arg
          ∙ ap (λ r. string arg ∷ r) (lua.pushstring_lem P (bytes "slave"))
          ∙ ap (λ r. string arg ∷ string (bytes "slave") ∷ r) (lua.getglobal_lem L (bytes "main"))

  -- The program runs `libmoon::main` on the search path of the first of the working directory, the
  -- directory of the binary, the one above it and /usr/local/lib/libmoon that holds libmoon, and
  -- aborts exactly when there is none; under the conditions on the binary's path and on the buffer of
  -- `setup_base_dir_lem`.
  program_lem :
      (files : Files) (d name cwd uninit : Text) (argv : List Text)
      → files.exe ≡ some (d ++ slash ∷ name)
      → files.cwd ≡ some (slash ∷ cwd)
      → IsWithout 0 d
      → IsWithout 0 name
      → IsWithout slash name
      → IsWithout slash (until_nul uninit)
      → (base : Option Text) × Picks
          (is_base_dir files)
          ((slash ∷ cwd)
            ∷ map
                (resolve (d ++ slash ∷ []))
                (bytes "." ∷ bytes ".." ∷ bytes "/usr/local/lib/libmoon" ∷ []))
          base
        × (program lua files uninit argv ≡ with_base_dir lua argv base)
  unfolding program
  program_lem files d name cwd uninit argv exe at hd hn hs hu = (
    setup_base_dir files uninit (bytes "." ∷ bytes ".." ∷ bytes "/usr/local/lib/libmoon" ∷ []) true,
    setup_base_dir_lem files d name cwd uninit
        (bytes "." ∷ bytes ".." ∷ bytes "/usr/local/lib/libmoon" ∷ []) exe at hd hn hs hu,
    refl,
  )

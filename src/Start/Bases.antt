-- ===== src/Start/Bases.antt =====
-- src/main.cpp: which directory becomes the base directory.
use mathlib.Core.Path.{subst}
use libmoon.Prelude.{
  ℕ, suc, ◌≡◌, refl, sym, ap, ◌∙◌, Bool, true, false, Option, none, some, List, [], ◌∷◌, ◌++◌, map,
  append_assoc, arith, length, take, Text, until_nul, IsWithout, ◌≢◌, IsWithout-append,
  until_nul-append, find_last_of-append, Bool-cases, inl, inr,
}
use libmoon.Start.{
  Files, is_base_dir, resolve, check_each, find_base_dir, setup_base_dir, slash, read_from,
  check_below, with_cwd,
}

-- `Picks p xs r`: `r` is the first of `xs` that passes the test `p`, or none when no one passes.
pub data Picks (p : Text → Bool) : List Text → Option Text → Type 0 where
  picks_none : Picks p [] none
  picks_here : {x : Text} (xs : List Text) → p x ≡ true → Picks p (x ∷ xs) (some x)
  picks_later :
      {x : Text} {xs : List Text} {r : Option Text}
      → p x ≡ false
      → Picks p xs r
      → Picks p (x ∷ xs) r

check_each-Picks :
    (files : Files) (exec_path : Text) (dirs : List Text)
    → Picks (is_base_dir files) (map (resolve exec_path) dirs) (check_each files exec_path dirs)
unfolding check_each
check_each-Picks files exec_path [] = picks_none
check_each-Picks files exec_path (dir ∷ dirs) =
    elim (Bool-cases (is_base_dir files (resolve exec_path dir))) [
      | inl holds ↦ rw holds (picks_here (map (resolve exec_path) dirs) holds)
      | inr fails ↦ rw fails (picks_later fails (check_each-Picks files exec_path dirs))
    ]

take_behind : (s : Text) (c : ℕ) (t : Text) → take (suc (length s)) (s ++ c ∷ t) ≡ s ++ (c ∷ [])
take_behind [] c t = refl
take_behind (b ∷ s) c t = ap (λ r. b ∷ r) (take_behind s c t)

-- The directory of the binary is found in `buf`, whatever stands behind the name.
exec_path_lem :
    (d name uninit : Text)
    → IsWithout 0 d
    → IsWithout 0 name
    → IsWithout slash name
    → IsWithout slash (until_nul uninit)
    → until_nul ((d ++ slash ∷ name) ++ uninit) ≡ d ++ slash ∷ (name ++ until_nul uninit)
exec_path_lem d name uninit hd hn hs hu =
    until_nul-append (d ++ slash ∷ name) uninit
      (IsWithout-append 0 d (slash ∷ name) hd (zero_ne, hn))
    ∙ append_assoc d (slash ∷ name) (until_nul uninit)
  where
    zero_ne : slash ≢ 0
    zero_ne = ground arith

searched :
    (files : Files) (d name uninit : Text) (dirs : List Text)
    → files.exe ≡ some (d ++ slash ∷ name)
    → IsWithout 0 d
    → IsWithout 0 name
    → IsWithout slash name
    → IsWithout slash (until_nul uninit)
    → find_base_dir files uninit dirs ≡ check_each files (d ++ slash ∷ []) dirs
unfolding find_base_dir read_from check_below
searched files d name uninit dirs exe hd hn hs hu =
    ap (read_from files uninit dirs) exe
    ∙ rw
        (
          exec_path_lem d name uninit hd hn hs hu,
          find_last_of-append slash d (name ++ until_nul uninit)
              (IsWithout-append slash name (until_nul uninit) hs hu),
          take_behind d slash (name ++ until_nul uninit),
        )
        refl

-- If the binary is `name` in the directory `d/`, no byte of either is NUL and no byte of `name` is a
-- slash, no slash stands in the uninitialised rest of the buffer before its first NUL, and the
-- working directory is an absolute path, then the base directory is the first of the working
-- directory and the given directories, taken relative to `d/` unless they begin with a slash, that
-- holds both files of libmoon; the program aborts exactly when none of them does.
pub setup_base_dir_lem :
    (files : Files) (d name cwd uninit : Text) (check_dirs : List Text)
    → files.exe ≡ some (d ++ slash ∷ name)
    → files.cwd ≡ some (slash ∷ cwd)
    → IsWithout 0 d
    → IsWithout 0 name
    → IsWithout slash name
    → IsWithout slash (until_nul uninit)
    → Picks
        (is_base_dir files)
        ((slash ∷ cwd) ∷ map (resolve (d ++ slash ∷ [])) check_dirs)
        (setup_base_dir files uninit check_dirs true)
unfolding setup_base_dir with_cwd resolve
setup_base_dir_lem files d name cwd uninit check_dirs exe at hd hn hs hu =
    subst (Picks (is_base_dir files) ((slash ∷ cwd) ∷ map (resolve (d ++ slash ∷ [])) check_dirs))
      (sym (
        ap (with_cwd files uninit check_dirs) at
        ∙ searched files d name uninit ((slash ∷ cwd) ∷ check_dirs) exe hd hn hs hu))
      (check_each-Picks files (d ++ slash ∷ []) ((slash ∷ cwd) ∷ check_dirs))

-- ===== src/Start/Tests.antt =====
-- The base directory and the search path of a program in /home/u/build.
use libmoon.Prelude.{
  ◌≡◌, refl, Bool, true, false, none, some, List, [], ◌∷◌, ◌++◌, map, Text, bytes, split,
  lacks-IsWithout, if◌then◌else◌, ◌||◌, ◌==◌,
}
use libmoon.Start.{
  Files, is_base_dir, resolve, find_base_dir, setup_base_dir, setup_extra_lua_path, build_lua_path,
  slash, with_cwd, read_from, check_below, check_each,
}
use libmoon.Start.Bases.{Picks, setup_base_dir_lem}
use libmoon.Start.Paths.{semicolon, own_templates, build_lua_path-setup_extra_lua_path}

abbrev same_text : Text → Text → Bool
same_text [] [] = true
same_text [] (b ∷ t) = false
same_text (a ∷ s) [] = false
same_text (a ∷ s) (b ∷ t) = if a == b then same_text s t else false

-- libmoon is one level above the binary.
abbrev home : Files
home = record {
  stat = λ path.
      same_text path (bytes "/home/u/build/../lua/libmoon.lua")
      || same_text path (bytes "/home/u/build/../lua/main.lua");
  exe = some (bytes "/home/u/build/moon");
  cwd = some (bytes "/tmp");
}

abbrev dirs : List Text
dirs = bytes "." ∷ bytes ".." ∷ bytes "/usr/local/lib/libmoon" ∷ []

found : setup_base_dir home (0 ∷ []) dirs true ≡ some (bytes "/home/u/build/..")
unfolding setup_base_dir with_cwd find_base_dir read_from check_below check_each resolve is_base_dir
found = refl

-- A slash behind the name, in what `readlink` leaves as it was, moves the directory.
moved_by_the_buffer : setup_base_dir home (47 ∷ 0 ∷ []) dirs true ≡ none
unfolding setup_base_dir with_cwd find_base_dir read_from check_below check_each resolve is_base_dir
moved_by_the_buffer = refl

setup_base_dir_lem_example :
    Picks
      (is_base_dir home)
      (bytes "/tmp" ∷ map (resolve (bytes "/home/u/build/")) dirs)
      (setup_base_dir home (120 ∷ 0 ∷ 47 ∷ []) dirs true)
setup_base_dir_lem_example =
    setup_base_dir_lem home (bytes "/home/u/build") (bytes "moon") (bytes "tmp") (120 ∷ 0 ∷ 47 ∷ [])
      dirs refl refl (lacks-IsWithout 0 (bytes "/home/u/build") refl)
      (lacks-IsWithout 0 (bytes "moon") refl) (lacks-IsWithout slash (bytes "moon") refl)
      (lacks-IsWithout slash (120 ∷ []) refl)

build_lua_path-setup_extra_lua_path_example :
    (body : Text) × (build_lua_path
        (bytes "/opt/lm")
        (setup_extra_lua_path (some (bytes "/opt/lm")) (bytes "a/?.lua" ∷ []))
      ≡ bytes "'" ++ body ++ bytes "'")
    × (split semicolon body
        ≡ (bytes "/opt/lm/a/?.lua" ∷ []) ++ own_templates (bytes "/opt/lm") ++ ([] ∷ []))
build_lua_path-setup_extra_lua_path_example =
    build_lua_path-setup_extra_lua_path (bytes "/opt/lm") (bytes "a/?.lua" ∷ [])
      (lacks-IsWithout semicolon (bytes "/opt/lm") refl)
      (lacks-IsWithout semicolon (bytes "a/?.lua") refl, tt)

-- ===== src/Start.antt =====
-- src/main.cpp and `build_lua_path` of src/task.cpp: where a program finds libmoon's Lua code.
-- A text is the list of its bytes. The file system is a parameter: which paths `stat` finds, what
-- `readlink` writes for /proc/self/exe, and the working directory. `none` is `std::abort` or the
-- exception.
pub mod Bases
pub mod Paths
mod Tests
use libmoon.Prelude.{
  ℕ, zero, suc, ◌+◌, ◌≡◌, Bool, true, false, ◌&&◌, Option, none, some, List, [], ◌∷◌, ◌++◌, ◌==◌,
  take, Text, bytes, find_last_of, until_nul, if◌then◌else◌,
}

-- '/'
abbrev pub slash : ℕ
slash = 47

pub record Files : Type 0 where
  -- `stat(path) == 0`
  pub stat : Text → Bool
  -- what `readlink` writes for /proc/self/exe; `none` is -1
  pub exe : Option Text
  pub cwd : Option Text

pub is_base_dir : Files → Text → Bool
is_base_dir files path =
    files.stat (path ++ bytes "/lua/libmoon.lua") && files.stat (path ++ bytes "/lua/main.lua")

abbrev starts_with_slash : Text → Bool
starts_with_slash [] = false
starts_with_slash (b ∷ t) = b == slash

-- A directory of the list as a path: `exec_path` is the directory of the binary, with its slash.
pub resolve : Text → Text → Text
resolve exec_path dir = if starts_with_slash dir then dir else exec_path ++ dir

-- The `for` over the directories.
pub check_each : Files → Text → List Text → Option Text
check_each files exec_path [] = none
check_each files exec_path (dir ∷ dirs) =
    let path = resolve exec_path dir in
    if is_base_dir files path then some path else check_each files exec_path dirs

-- Behind the `readlink`: the directory of the binary is up to the last slash, if there is one.
pub check_below : Files → Text → List Text → Option ℕ → Option Text
check_below files exec_path check_dirs none = none
check_below files exec_path check_dirs (some dir_pos) =
    check_each files (take (suc dir_pos) exec_path) check_dirs

-- `uninit` is what stands in `buf` behind the bytes that `readlink` writes, which it does not
-- terminate.
pub read_from : Files → Text → List Text → Option Text → Option Text
read_from files uninit check_dirs none = none
read_from files uninit check_dirs (some target) =
    let exec_path = until_nul (target ++ uninit) in
    check_below files exec_path check_dirs (find_last_of slash exec_path)

pub find_base_dir : Files → Text → List Text → Option Text
find_base_dir files uninit check_dirs = read_from files uninit check_dirs files.exe

pub with_cwd : Files → Text → List Text → Option Text → Option Text
with_cwd files uninit check_dirs none = none
with_cwd files uninit check_dirs (some cwd) = find_base_dir files uninit (cwd ∷ check_dirs)

pub setup_base_dir : Files → Text → List Text → Bool → Option Text
setup_base_dir files uninit check_dirs false = find_base_dir files uninit check_dirs
setup_base_dir files uninit check_dirs true = with_cwd files uninit check_dirs files.cwd

-- The `for` that writes the stream.
pub extra_paths : Text → List Text → Text
extra_paths base_dir [] = []
extra_paths base_dir (path ∷ paths) =
    base_dir ++ bytes "/" ++ path ++ bytes ";" ++ extra_paths base_dir paths

pub setup_extra_lua_path : Option Text → List Text → Option Text
setup_extra_lua_path none paths = none
setup_extra_lua_path (some base_dir) paths = some (extra_paths base_dir paths)

-- `if (extra_lua_path) ss << extra_lua_path;`
abbrev pub text_or_empty : Option Text → Text
text_or_empty none = []
text_or_empty (some t) = t

pub build_lua_path : Text → Option Text → Text
build_lua_path base extra_lua_path =
    bytes "'"
    ++ text_or_empty extra_lua_path
    ++ base
    ++ bytes "/lua/?.lua;"
    ++ base
    ++ bytes "/lua/?/init.lua;"
    ++ base
    ++ bytes "/lua/lib/?.lua;"
    ++ base
    ++ bytes "/lua/lib/turbo/?.lua;"
    ++ base
    ++ bytes "/lua/lib/?/init.lua;"
    ++ bytes "'"

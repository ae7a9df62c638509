-- ===== src/Start/Paths.antt =====
-- src/main.cpp and src/task.cpp: what Lua searches for modules.
use libmoon.Prelude.{
  ℕ, ◌≡◌, refl, sym, ap, ◌∙◌, true, some, List, [], ◌∷◌, ◌++◌, map, append_assoc, Text, bytes,
  split, split-part, split-empty, IsWithout, IsWithout-append, lacks, lacks-IsWithout,
}
use libmoon.Start.{extra_paths, setup_extra_lua_path, build_lua_path}

-- ';'
abbrev pub semicolon : ℕ
semicolon = 59

abbrev pub AllWithout : List Text → Type 0
AllWithout [] = Unit
AllWithout (p ∷ ps) = IsWithout semicolon p × AllWithout ps

abbrev pub below : Text → Text → Text
below base p = base ++ bytes "/" ++ p

-- The templates for libmoon's own modules.
abbrev pub own_templates : Text → List Text
own_templates base =
    (base ++ bytes "/lua/?.lua")
    ∷ (base ++ bytes "/lua/?/init.lua")
    ∷ (base ++ bytes "/lua/lib/?.lua")
    ∷ (base ++ bytes "/lua/lib/turbo/?.lua")
    ∷ (base ++ bytes "/lua/lib/?/init.lua")
    ∷ []

-- The texts with a semicolon behind each.
abbrev terminated : List Text → Text
terminated [] = []
terminated (t ∷ ts) = t ++ semicolon ∷ terminated ts

split-terminated :
    (ts : List Text) → AllWithout ts → split semicolon (terminated ts) ≡ ts ++ ([] ∷ [])
split-terminated [] h = split-empty semicolon
split-terminated (t ∷ ts) (h, hs) =
    split-part semicolon t (terminated ts) h ∙ ap (λ r. t ∷ r) (split-terminated ts hs)

terminated-append : (ss ts : List Text) → terminated (ss ++ ts) ≡ terminated ss ++ terminated ts
terminated-append [] ts = refl
terminated-append (s ∷ ss) ts =
    ap (λ r. s ++ semicolon ∷ r) (terminated-append ss ts)
    ∙ sym (append_assoc s (semicolon ∷ terminated ss) (terminated ts))

extra_paths_lem :
    (base : Text) (paths : List Text) → extra_paths base paths ≡ terminated (map (below base) paths)
unfolding extra_paths
extra_paths_lem base [] = refl
extra_paths_lem base (p ∷ ps) =
    append_assoc (below base p) (bytes ";") (extra_paths base ps)
    ∙ ap (λ r. below base p ++ semicolon ∷ r) (extra_paths_lem base ps)

AllWithout-append : (ss ts : List Text) → AllWithout ss → AllWithout ts → AllWithout (ss ++ ts)
AllWithout-append [] ts h k = k
AllWithout-append (s ∷ ss) ts (h, hs) k = (h, AllWithout-append ss ts hs k)

AllWithout-below :
    (base : Text) (paths : List Text)
    → IsWithout semicolon base
    → AllWithout paths
    → AllWithout (map (below base) paths)
AllWithout-below base [] hb h = tt
AllWithout-below base (p ∷ ps) hb (h, hs) = (
  IsWithout-append semicolon (base ++ bytes "/") p
      (IsWithout-append semicolon base (bytes "/") hb (lacks-IsWithout semicolon (bytes "/") refl))
      h,
  AllWithout-below base ps hb hs,
)

own_templates-AllWithout :
    (base : Text) → IsWithout semicolon base → AllWithout (own_templates base)
own_templates-AllWithout base h = (
  ends (bytes "/lua/?.lua") refl,
  (
    ends (bytes "/lua/?/init.lua") refl,
    (
      ends (bytes "/lua/lib/?.lua") refl,
      (ends (bytes "/lua/lib/turbo/?.lua") refl, (ends (bytes "/lua/lib/?/init.lua") refl, tt)),
    ),
  ),
)
  where
    ends : (t : Text) → lacks semicolon t ≡ true → IsWithout semicolon (base ++ t)
    ends t k = IsWithout-append semicolon base t h (lacks-IsWithout semicolon t k)

-- If neither the base directory nor one of the extra paths has a semicolon, then the search path
-- that `build_lua_path` makes after `setup_extra_lua_path` is a text between single quotes that
-- splits at its semicolons into the extra paths below the base directory, in their order, then the
-- five templates of libmoon's own modules, then the empty text.
pub build_lua_path-setup_extra_lua_path :
    (base : Text) (paths : List Text)
    → IsWithout semicolon base
    → AllWithout paths
    → (body : Text) × (build_lua_path base (setup_extra_lua_path (some base) paths)
        ≡ bytes "'" ++ body ++ bytes "'")
      × (split semicolon body ≡ map (below base) paths ++ own_templates base ++ ([] ∷ []))
unfolding build_lua_path setup_extra_lua_path
build_lua_path-setup_extra_lua_path base paths hb hp = (
  terminated all,
  ap (λ r. bytes "'" ++ r ++ bytes "'") body_lem,
  split-terminated all (
      AllWithout-append (map (below base) paths) (own_templates base)
        (AllWithout-below base paths hb hp) (own_templates-AllWithout base hb)),
)
  where
    all : List Text
    all = map (below base) paths ++ own_templates base

    body_lem :
        extra_paths base paths
          ++ base
          ++ bytes "/lua/?.lua;"
          ++ base
          ++ bytes "/lua/?/init.lua;"
          ++ base
          ++ bytes "/lua/lib/?.lua;"
          ++ base
          ++ bytes "/lua/lib/turbo/?.lua;"
          ++ base
          ++ bytes "/lua/lib/?/init.lua;"
        ≡ terminated all
    body_lem =
        simp
          (
            extra_paths_lem base paths,
            terminated-append (map (below base) paths) (own_templates base),
            append_assoc,
          )
          refl

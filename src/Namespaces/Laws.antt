-- ===== src/Namespaces/Laws.antt =====
-- A namespace is a map of its own, and there is one for each name.
use libmoon.Prelude.{
  Text, ℕ, zero, suc, ◌<◌, ◌≡◌, ◌↔◌, refl, ap, sym, ◌∙◌, true, none, some, List, [], ◌∷◌, arith,
  Option-cases, inl, inr, if◌then◌else◌, ◌==◌, length, get_elem?, set, length-append,
}
use mathlib.Core.Path.{subst}
use libmoon.Namespaces.{
  same, TextMap, find, insert, erase, Namespaces, create_or_get_namespace, namespace_store,
  namespace_delete, namespace_retrieve,
}

pub same-eq : (s t : Text) → same s t ≡ true → s ≡ t
same-eq [] [] h = refl
same-eq [] (b ∷ t) h = cc
same-eq (a ∷ s) [] h = cc
same-eq (a ∷ s) (b ∷ t) h = ground (arith, same-eq s t)

pub same_refl : (s : Text) → same s s ≡ true
same_refl [] = refl
same_refl (a ∷ s) = ground (arith, same_refl s)

pub find-insert :
    {V : Type 0} (k j : Text) (v : V) (m : TextMap V)
    → find j (insert k v m) ≡ (if same j k then some v else find j m)
find-insert k j v [] = refl
find-insert k j v ((i, w) ∷ m) =
    ground (arith, find-insert k j v m, same-eq k i, same-eq j i, same-eq j k, same_refl i)

pub find-erase :
    {V : Type 0} (k j : Text) (m : TextMap V)
    → find j (erase k m) ≡ (if same j k then none else find j m)
find-erase k j [] = ground arith
find-erase k j ((i, w) ∷ m) =
    ground (arith, find-erase k j m, same-eq k i, same-eq j i, same-eq j k, same_refl i)

-- What a pointer's map answers for a key after an insertion or an erasure in any map.
pub get_elem?-change :
    (maps : List (TextMap Text)) (ns other : ℕ) (m m' : TextMap Text)
    → get_elem? maps ns ≡ some m
    → get_elem? (set maps ns m') other ≡ (if other == ns then some m' else get_elem? maps other)
get_elem?-change [] ns other m m' h = cc
get_elem?-change (x ∷ xs) zero zero m m' h = refl
get_elem?-change (x ∷ xs) zero (suc o) m m' h = ground arith
get_elem?-change (x ∷ xs) (suc n) zero m m' h = ground arith
get_elem?-change (x ∷ xs) (suc n) (suc o) m m' h = ground (arith, get_elem?-change xs n o m m' h)

-- After a value is stored under a key of a namespace, that key of that namespace has the value, and
-- every other key of it, and every key of every other namespace, has what it had.
retrieve-store :
    (ns other : ℕ) (key key' : Text) (value : Text) (s after : Namespaces)
    → namespace_store ns key value s ≡ some after
    → namespace_retrieve other key' after ≡ (
        if other == ns
        then (if same key' key then some (some value) else namespace_retrieve ns key' s)
        else namespace_retrieve other key' s)
unfolding namespace_store namespace_retrieve
retrieve-store ns other key key' value s after h = elim (Option-cases (get_elem? s.maps ns)) [
  | inl dangling ↦ ground arith
  | inr (m, at) ↦ ground (
    arith,
    get_elem?-change s.maps ns other m (insert key value m) at,
    find-insert key key' value m,
  )
]

-- After a key of a namespace is deleted, that key has no value, and every other key of it, and every
-- key of every other namespace, has what it had.
retrieve-delete :
    (ns other : ℕ) (key key' : Text) (s after : Namespaces)
    → namespace_delete ns key s ≡ some after
    → namespace_retrieve other key' after ≡ (
        if other == ns
        then (if same key' key then some none else namespace_retrieve ns key' s)
        else namespace_retrieve other key' s)
unfolding namespace_delete namespace_retrieve
retrieve-delete ns other key key' s after h = elim (Option-cases (get_elem? s.maps ns)) [
  | inl dangling ↦ ground arith
  | inr (m, at) ↦
      ground (arith, get_elem?-change s.maps ns other m (erase key m) at, find-erase key key' m)
]

-- Every pointer of the directory leads to a map, and two names have two pointers.
pub record IsValid (s : Namespaces) : Type 0 where
  pub leads : (name : Text) (ns : ℕ) → find name s.directory ≡ some ns → ns < length s.maps
  pub apart :
      (name name' : Text) (ns : ℕ)
      → find name s.directory ≡ some ns
      → find name' s.directory ≡ some ns
      → name ≡ name'

-- The directory that a call leaves: one entry more, for a name that had none.
pub directory_after :
    (name name' : Text) (s : Namespaces)
    → let (ns, after) = create_or_get_namespace name s in
      find name' after.directory ≡ (if same name' name then some ns else find name' s.directory)
unfolding create_or_get_namespace
directory_after name name' s = elim (Option-cases (find name s.directory)) [
  | inl new ↦ ground (arith, find-insert name name' (length s.maps) s.directory)
  | inr (ns, old) ↦ ground (arith, same-eq name' name)
]

-- Getting a namespace by name keeps the directory valid.
pub create_or_get-IsValid :
    (name : Text) (s : Namespaces) → IsValid s → IsValid (create_or_get_namespace name s).1
unfolding create_or_get_namespace
create_or_get-IsValid name s v = elim (Option-cases (find name s.directory)) [
  | inr (ns, old) ↦ rw old v
  | inl new ↦ rw new (record {
    leads = λ a ns f. ground (
      arith,
      find-insert name a (length s.maps) s.directory,
      v.leads a ns,
      length-append {0} s.maps ([] ∷ []),
    );
    apart = λ a b ns f g. ground (
      arith,
      find-insert name a (length s.maps) s.directory,
      find-insert name b (length s.maps) s.directory,
      v.leads a ns,
      v.leads b ns,
      v.apart a b ns,
      same-eq a name,
      same-eq b name,
    );
  })
]

pub found_after :
    (name : Text) (s : Namespaces)
    → let (ns, after) = create_or_get_namespace name s in find name after.directory ≡ some ns
found_after name s = directory_after name name s ∙ rw (same_refl name) refl

get_again :
    (name : Text) (ns : ℕ) (s : Namespaces)
    → find name s.directory ≡ some ns
    → create_or_get_namespace name s ≡ (ns, s)
unfolding create_or_get_namespace
get_again name ns s h = rw h

-- In a valid state, two calls give one pointer exactly for one name, and the second call for a name
-- changes nothing.
create_or_get_apart :
    (name name' : Text) (s : Namespaces)
    → IsValid s
    → let (ns, after) = create_or_get_namespace name s in
      let (ns', end) = create_or_get_namespace name' after in
      ((ns ≡ ns') ↔ (name ≡ name')) × (name ≡ name' → end ≡ after)
create_or_get_apart name name' s v =
    let (ns, after) = create_or_get_namespace name s in
    let (ns', end) = create_or_get_namespace name' after in
    let valid : IsValid end = create_or_get-IsValid name' after (create_or_get-IsValid name s v) in
    let again : name ≡ name' → create_or_get_namespace name' after ≡ (ns, after) = λ e.
      subst (λ n. create_or_get_namespace n after ≡ (ns, after)) e
        (get_again name ns after (found_after name s)) in
    (
      (
        λ e.
            valid.apart name name' ns'
              (ground (arith, directory_after name' name after, found_after name s))
              (found_after name' after),
        λ e. sym (ap (λ (r : ℕ × Namespaces). r.0) (again e)),
      ),
      λ e. ap (λ (r : ℕ × Namespaces). r.1) (again e),
    )

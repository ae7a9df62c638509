-- ===== src/Namespaces/Refine.antt =====
-- The namespaces keep what Shared promises.
use libmoon.Prelude.{
  Text, ℕ, zero, suc, ◌≡◌, refl, ap, sym, ◌∙◌, Option, none, some, List, [], ◌∷◌, arith, ◌++◌,
  Option-cases, inl, inr, if◌then◌else◌, length, get_elem?, set, get_elem?-drop, length-set,
}
use libmoon.Namespaces.{
  same, TextMap, find, insert, erase, Namespaces, initial, create_or_get_namespace, namespace_store,
  namespace_delete, namespace_retrieve, namespace_iterate,
}
use libmoon.Namespaces.Laws.{
  same-eq, same_refl, find-insert, find-erase, get_elem?-change, IsValid, create_or_get-IsValid,
  found_after,
}
use libmoon.Namespaces.Shared.{
  Call, store, delete, retrieve, iterate, Reply, done, value, entries, serve, run, Shared, nowhere,
  with_value, effect, IsDistinct, IsAnswer, AreAnswers,
}

insert-IsDistinct : (k v : Text) (m : TextMap Text) → IsDistinct m → IsDistinct (insert k v m)
insert-IsDistinct k v [] d = ground arith
insert-IsDistinct k v ((j, w) ∷ m) d =
    ground (arith, insert-IsDistinct k v m, find-insert k j v m, same-eq j k, same_refl k)

erase-IsDistinct : (k : Text) (m : TextMap Text) → IsDistinct m → IsDistinct (erase k m)
erase-IsDistinct k [] d = ground arith
erase-IsDistinct k ((j, w) ∷ m) d =
    ground (arith, erase-IsDistinct k m, find-erase k j m, same-eq j k, same_refl k)

abbrev or_empty : Option (TextMap Text) → TextMap Text
or_empty none = []
or_empty (some m) = m

abbrev map_at : List (TextMap Text) → Option ℕ → TextMap Text
map_at maps none = []
map_at maps (some ns) = or_empty (get_elem? maps ns)

-- The map of a name, which is empty as long as there is none.
abbrev view : Namespaces → Text → TextMap Text
view s name = map_at s.maps (find name s.directory)

record Keeps (f : Shared) (s : Namespaces) : Type 0 where
  valid : IsValid s
  agrees : (name key : Text) → find key (view s name) ≡ f name key
  distinct : (name : Text) → IsDistinct (view s name)

-- A new map reads as no map does.
new_empty :
    (maps : List (TextMap Text)) (i : ℕ)
    → or_empty (get_elem? (maps ++ ([] ∷ [])) i) ≡ or_empty (get_elem? maps i)
new_empty [] zero = refl
new_empty [] (suc i) = refl
new_empty (x ∷ xs) zero = refl
new_empty (x ∷ xs) (suc i) = new_empty xs i

get_elem?-length : (maps : List (TextMap Text)) → get_elem? maps (length maps) ≡ none
get_elem?-length [] = refl
get_elem?-length (x ∷ xs) = get_elem?-length xs

view_after :
    (name name' : Text) (s : Namespaces)
    → view (create_or_get_namespace name s).1 name' ≡ view s name'
unfolding create_or_get_namespace
view_after name name' s = elim (Option-cases (find name s.directory)) [
  | inr (ns, old) ↦ rw old refl
  | inl new ↦ elim (Option-cases (find name' s.directory)) [
    | inr (ns, old) ↦ ground (
      arith,
      find-insert name name' (length s.maps) s.directory,
      new_empty s.maps ns,
      same-eq name' name,
    )
    | inl none_yet ↦ ground (
      arith,
      find-insert name name' (length s.maps) s.directory,
      new_empty s.maps (length s.maps),
      get_elem?-length s.maps,
    )
  ]
]

-- The pointer that a task gets leads to the map of the name.
opened :
    (name : Text) (s : Namespaces)
    → IsValid s
    → let (ns, after) = create_or_get_namespace name s in
      get_elem? after.maps ns ≡ some (view s name)
opened name s v =
    let (ns, after) = create_or_get_namespace name s in
    let found = found_after name s in
    let valid : IsValid after = create_or_get-IsValid name s v in
    let (m, at, rest) = get_elem?-drop ns after.maps (valid.leads name ns found) in
    at
    ∙ ap some (sym (ap or_empty at) ∙ sym (ap (map_at after.maps) found) ∙ view_after name name s)

-- A map is put in place of the one that a name has.
view_changed :
    (name name' : Text) (ns : ℕ) (m m' : TextMap Text) (s : Namespaces)
    → IsValid s
    → find name s.directory ≡ some ns
    → get_elem? s.maps ns ≡ some m
    → view (record s { maps = set s.maps ns m' }) name'
      ≡ (if same name' name then m' else view s name')
view_changed name name' ns m m' s v found at = elim (Option-cases (find name' s.directory)) [
  | inl new ↦ ground (arith, same-eq name' name)
  | inr (ns', old) ↦ ground (
    arith,
    get_elem?-change s.maps ns ns' m m' at,
    v.apart name name' ns,
    same-eq name' name,
    same_refl name,
  )
]

opened-Keeps :
    (f : Shared) (name : Text) (s : Namespaces)
    → Keeps f s
    → Keeps f (create_or_get_namespace name s).1
opened-Keeps f name s k = record {
  valid = create_or_get-IsValid name s k.valid;
  agrees = λ name' key. ap (find key) (view_after name name' s) ∙ k.agrees name' key;
  distinct = λ name'. rw (view_after name name' s) (k.distinct name');
}

changed-Keeps :
    (f : Shared) (name key : Text) (v : Option Text) (ns : ℕ) (m m' : TextMap Text) (s : Namespaces)
    → Keeps f s
    → find name s.directory ≡ some ns
    → get_elem? s.maps ns ≡ some m
    → ((key' : Text) → find key' m' ≡ (if same key' key then v else find key' m))
    → IsDistinct m'
    → Keeps (with_value f name key v) (record s { maps = set s.maps ns m' })
changed-Keeps f name key v ns m m' s k found at finds d = record {
  valid = record {
    leads = λ a i h. omega (arith, k.valid.leads a i h, length-set s.maps ns m');
    apart = k.valid.apart;
  };
  agrees = λ name' key'.
      rw (view_changed name name' ns m m' s k.valid found at)
        (ground (arith, finds key', k.agrees name' key', same-eq name' name));
  distinct = λ name'.
      rw (view_changed name name' ns m m' s k.valid found at) (ground (arith, k.distinct name'));
}

abbrev Served : Shared → Namespaces → Call → Type 0
Served f s c =
    (r : Reply) × (after : Namespaces) × (serve s c ≡ some (r, after))
    × IsAnswer f c r
    × Keeps (effect f c) after

serve-Served : (f : Shared) (s : Namespaces) (c : Call) → Keeps f s → Served f s c
unfolding serve namespace_store namespace_delete namespace_retrieve namespace_iterate
serve-Served f s (store name key v) k =
    let (ns, after) = create_or_get_namespace name s in
    let at = opened name s k.valid in
    (
      done,
      record after { maps = set after.maps ns (insert key v (view s name)) },
      rw at refl,
      refl,
      changed-Keeps f name key (some v) ns (view s name) (insert key v (view s name)) after
          (opened-Keeps f name s k) (found_after name s) at
          (λ key'. find-insert key key' v (view s name))
          (insert-IsDistinct key v (view s name) (k.distinct name)),
    )
serve-Served f s (delete name key) k =
    let (ns, after) = create_or_get_namespace name s in
    let at = opened name s k.valid in
    (
      done,
      record after { maps = set after.maps ns (erase key (view s name)) },
      rw at refl,
      refl,
      changed-Keeps f name key none ns (view s name) (erase key (view s name)) after
          (opened-Keeps f name s k) (found_after name s) at
          (λ key'. find-erase key key' (view s name))
          (erase-IsDistinct key (view s name) (k.distinct name)),
    )
serve-Served f s (retrieve name key) k = (
  value (find key (view s name)),
  (create_or_get_namespace name s).1,
  rw (opened name s k.valid) refl,
  ap value (k.agrees name key),
  opened-Keeps f name s k,
)
serve-Served f s (iterate name) k = (
  entries (view s name),
  (create_or_get_namespace name s).1,
  rw (opened name s k.valid) refl,
  (view s name, refl, (k.distinct name, k.agrees name)),
  opened-Keeps f name s k,
)

run-AreAnswers :
    (f : Shared) (s : Namespaces) (cs : List Call)
    → Keeps f s
    → (rs : List Reply) × (end : Namespaces) × (run s cs ≡ some (rs, end)) × AreAnswers f cs rs
unfolding run
run-AreAnswers f s [] k = ([], s, refl, refl)
run-AreAnswers f s (c ∷ cs) k =
    let (r, after, served, answer, keeps) = serve-Served f s c k in
    let (rs, end, ran, answers) = run-AreAnswers (effect f c) after cs keeps in
    (r ∷ rs, end, rw (served, ran) refl, (answer, answers))

initial-Keeps : Keeps nowhere initial
initial-Keeps = record {
  valid = record { leads = λ name ns h. cc; apart = λ name name' ns h k. cc };
  agrees = λ name key. refl;
  distinct = λ name. tt;
}

-- Any sequence of calls, each of which gets its namespace by name, runs without a fault from the
-- start of the program, and the replies are those of one partial map from names and keys to values
-- that is empty at first: a store or a delete changes the value of its key in its namespace alone, a
-- retrieve gives that value or nothing, and an iteration lists each key that has a value in the
-- namespace once, with its value.
pub run_lem :
    (cs : List Call)
    → (rs : List Reply) × (end : Namespaces) × (run initial cs ≡ some (rs, end))
      × AreAnswers nowhere cs rs
run_lem cs = run-AreAnswers nowhere initial cs initial-Keeps

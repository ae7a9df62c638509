-- ===== src/Namespaces/Shared.antt =====
-- The calls of a task, which gets a namespace by its name and works on it, and what they promise: a
-- partial map from the names and the keys to the values, which is empty at first.
use libmoon.Prelude.{Text, ◌≡◌, Option, none, some, List, [], ◌∷◌, if◌then◌else◌}
use libmoon.Namespaces.{
  same, TextMap, find, Namespaces, create_or_get_namespace, namespace_store, namespace_delete,
  namespace_retrieve, namespace_iterate,
}

-- The name of the namespace comes first, then the key, then the value.
pub data Call : Type 0 where
  store : Text → Text → Text → Call
  delete retrieve : Text → Text → Call
  iterate : Text → Call

-- `entries` are what the callback gets.
pub data Reply : Type 0 where
  done : Reply
  value : Option Text → Reply
  entries : TextMap Text → Reply

abbrev pub reply_with :
    {A : Type 0} → (A → Reply) → Namespaces → Option A → Option (Reply × Namespaces)
reply_with f s none = none
reply_with f s (some a) = some (f a, s)

abbrev pub done_in : Option Namespaces → Option (Reply × Namespaces)
done_in none = none
done_in (some s) = some (done, s)

-- `none` is a use of a pointer that leads nowhere.
unfoldable pub serve : Namespaces → Call → Option (Reply × Namespaces)
serve s (store name key v) =
    let (ns, after) = create_or_get_namespace name s in done_in (namespace_store ns key v after)
serve s (delete name key) =
    let (ns, after) = create_or_get_namespace name s in done_in (namespace_delete ns key after)
serve s (retrieve name key) =
    let (ns, after) = create_or_get_namespace name s in
    reply_with value after (namespace_retrieve ns key after)
serve s (iterate name) =
    let (ns, after) = create_or_get_namespace name s in
    reply_with entries after (namespace_iterate ns after)

abbrev pub then_run :
    Option (Reply × Namespaces)
    → (Namespaces → Option (List Reply × Namespaces))
    → Option (List Reply × Namespaces)
then_run none f = none
then_run (some (r, s)) f = elim (f s) [ none ↦ none | some (rs, end) ↦ some (r ∷ rs, end) ]

unfoldable pub run : Namespaces → List Call → Option (List Reply × Namespaces)
run s [] = some ([], s)
run s (c ∷ cs) = then_run (serve s c) (λ after. run after cs)

-- What is promised.
abbrev pub Shared : Type 0
Shared = Text → Text → Option Text

abbrev pub nowhere : Shared
nowhere name key = none

abbrev pub with_value : Shared → Text → Text → Option Text → Shared
with_value f name key v name' key' =
    if same name' name then (if same key' key then v else f name' key') else f name' key'

abbrev pub effect : Shared → Call → Shared
effect f (store name key v) = with_value f name key (some v)
effect f (delete name key) = with_value f name key none
effect f (retrieve name key) = f
effect f (iterate name) = f

-- No key is there twice.
abbrev pub IsDistinct : TextMap Text → Type 0
IsDistinct [] = Unit
IsDistinct ((k, v) ∷ m) = (find k m ≡ none) × IsDistinct m

-- The entries are the keys that have a value, each once and with its value.
abbrev pub Lists : TextMap Text → (Text → Option Text) → Type 0
Lists m g = IsDistinct m × ((key : Text) → find key m ≡ g key)

abbrev pub IsAnswer : Shared → Call → Reply → Type 0
IsAnswer f (store name key v) r = r ≡ done
IsAnswer f (delete name key) r = r ≡ done
IsAnswer f (retrieve name key) r = r ≡ value (f name key)
IsAnswer f (iterate name) r = (m : TextMap Text) × (r ≡ entries m) × Lists m (f name)

-- The replies to the calls, each in the state that the calls before it leave.
abbrev pub AreAnswers : Shared → List Call → List Reply → Type 0
AreAnswers f [] rs = rs ≡ []
AreAnswers f (c ∷ cs) [] = ⊥
AreAnswers f (c ∷ cs) (r ∷ rs) = IsAnswer f c r × AreAnswers (effect f c) cs rs

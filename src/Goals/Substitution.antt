-- ===== src/Goals/Substitution.antt =====
-- core/goals/substitution.py: the references of a payload to the results of its dependencies.
pub mod Reference
pub mod Isolated
use Prim.Native.Char.{code}
use galaxz.Prelude.{
  ℕ, ◌+◌, String, Bool, true, false, ◌&&◌, ◌||◌, Option, none, some, List, [], ◌∷◌, ltb, leb, ◌==◌,
  Result, ok, guard, require, payload_resolution_error, ◌>>=◌, ◌>>◌, if◌then◌else◌,
}
use galaxz.Prelude.Int.{ℤ}
use galaxz.Prelude.Text.{strip}
use galaxz.Contracts.Json.{
  Json, Items, Fields, null, bool, num, str, arr, obj, nil, cons, end, field, get,
}
use galaxz.Goals.Plan.{PlannedTask}
use galaxz.Goals.Blocking.{contains_id}
use galaxz.Goals.Substitution.Reference.{Match, match_reference, parse_uuid, split_dots}

-- `{task.task_id: task for task in tasks}`: the last task of an identifier
unfoldable pub by_id : List PlannedTask → ℕ → Option PlannedTask
by_id [] k = none
by_id (t ∷ ts) k = elim (by_id ts k) [
  | some u ↦ some u
  | none ↦ if t.task_id == k then some t else none
]

-- the dependency's result, if there is the dependency and it has one
unfoldable pub result_of : Option PlannedTask → Option Json
result_of none = none
result_of (some t) = t.result

-- `for part in …: current = current[part]`
unfoldable pub walk : List String → Json → Result Json
walk [] v = ok v
walk (p ∷ ps) v = do next ← require (get p v) payload_resolution_error; walk ps next

path_parts : Option String → List String
path_parts none = []
path_parts (some path) = split_dots (strip path)

module _ (declared : List ℕ) (deps : ℕ → Option PlannedTask) where
  unfoldable pub resolve_reference : Match → Result Json
  unfolding path_parts
  resolve_reference m = do
    id ← require (parse_uuid m.id) payload_resolution_error
    guard (contains_id declared id) payload_resolution_error
    found ← require (result_of (deps id)) payload_resolution_error
    walk (path_parts m.path) found

  unfoldable pub resolve_text : String → Result Json
  resolve_text s = elim (match_reference s) [ none ↦ ok (str s) | some m ↦ resolve_reference m ]

  unfoldable mutual
    pub resolve : Json → Result Json
    resolve null = ok null
    resolve (bool b) = ok (bool b)
    resolve (num n) = ok (num n)
    resolve (str s) = resolve_text s
    resolve (arr vs) = do ws ← resolve_items vs; ok (arr ws)
    resolve (obj fs) = do gs ← resolve_fields fs; ok (obj gs)

    pub resolve_items : Items → Result Items
    resolve_items nil = ok nil
    resolve_items (cons v vs) = do w ← resolve v; ws ← resolve_items vs; ok (cons w ws)

    pub resolve_fields : Fields → Result Fields
    resolve_fields end = ok end
    resolve_fields (field k v fs) = do w ← resolve v; gs ← resolve_fields fs; ok (field k w gs)

abbrev is_object : Json → Bool
is_object (obj fs) = true
is_object _ = false

-- the length of a character in a text of `json.dumps`, which is ASCII
char_size : ℕ → ℕ
char_size c =
    if c == b'"' || c == 92 || c == 10 || c == 13 || c == 9 || c == 12 || c == 8
    then 2
    else if leb 32 c && leb c 126
    then 1
    else if ltb c 0x10000
    then 6
    else 12

text_size : String → ℕ
unfolding char_size
text_size String.[] = 2
text_size (String.◌∷◌ c s) = char_size (code c) + text_size s

-- The length of a number's text is a parameter.
module _ (num_size : ℤ → ℕ) where
  unfoldable mutual
    unfolding text_size

    -- `len(json.dumps(v, separators=(",", ":")).encode())`
    pub dumps_size : Json → ℕ
    dumps_size null = 4
    dumps_size (bool b) = if b then 4 else 5
    dumps_size (num n) = num_size n
    dumps_size (str s) = text_size s
    dumps_size (arr nil) = 2
    dumps_size (arr (cons v vs)) = 2 + dumps_size v + items_size vs
    dumps_size (obj end) = 2
    dumps_size (obj (field k v fs)) = 3 + text_size k + dumps_size v + fields_size fs

    -- what follows the first, each with its comma
    items_size : Items → ℕ
    items_size nil = 0
    items_size (cons v vs) = 1 + dumps_size v + items_size vs

    fields_size : Fields → ℕ
    fields_size end = 0
    fields_size (field k v fs) = 2 + text_size k + dumps_size v + fields_size fs

  unfoldable pub resolve_payload : ℕ → PlannedTask → (ℕ → Option PlannedTask) → Result Json
  resolve_payload max_bytes t deps = do
    resolved ← resolve t.depends_on deps t.payload
    guard (is_object resolved) payload_resolution_error
    guard (leb (dumps_size resolved) max_bytes) payload_resolution_error
    ok resolved

-- ===== src/Contracts/Json.antt =====
-- JSON values as Python's `json` reads and writes them. Numbers are fixed-point integers. The text
-- of `json.dumps(v, sort_keys=True)` is represented by the value with its keys in order: two such
-- texts are equal exactly when these values are.
use galaxz.Prelude.Text.Order.{str_lt}
use galaxz.Prelude.{
  String, ◌≡◌, refl, Bool, true, false, not, ◌&&◌, Option, none, some, arith, ◌==◌, eq_iff,
  if◌then◌else◌,
}
use galaxz.Prelude.Int.{ℤ, pos, negsuc}
use galaxz.Prelude.Text.{str_eq}

mutual
  pub data Json : Type 0 where
    null : Json
    bool : Bool → Json
    num : ℤ → Json
    str : String → Json
    arr : Items → Json
    obj : Fields → Json

  pub data Items : Type 0 where
    nil : Items
    cons : Json → Items → Items

  pub data Fields : Type 0 where
    end : Fields
    field : String → Json → Fields → Fields

get_field : String → Fields → Option Json
get_field k end = none
get_field k (field j v fs) = if str_eq j k then some v else get_field k fs

-- `v.get(k)` of a dict
unfoldable pub get : String → Json → Option Json
unfolding get_field
get k (obj fs) = get_field k fs
get k _ = none

-- the truth value of `v.get(k)`
unfoldable pub truthy : Option Json → Bool
truthy none = false
truthy (some null) = false
truthy (some (bool b)) = b
truthy (some (num (pos n))) = not (n == 0)
truthy (some (num (negsuc n))) = true
truthy (some (str s)) = not (str_eq s "")
truthy (some (arr nil)) = false
truthy (some (arr (cons v vs))) = true
truthy (some (obj end)) = false
truthy (some (obj (field k v fs))) = true

-- `v.get(k) == s` at a text `s`
unfoldable pub is_text : String → Option Json → Bool
is_text s (some (str t)) = str_eq t s
is_text s _ = false

-- `{**v, k: w}`
unfoldable pub set_field : String → Json → Fields → Fields
set_field k v end = field k v end
set_field k v (field j w fs) = if str_eq j k then field j v fs else field j w (set_field k v fs)

insert_field : String → Json → Fields → Fields
insert_field k v end = field k v end
insert_field k v (field j w fs) =
    let rest = insert_field k v fs in
    if str_lt j k then field j w rest else field k v (field j w fs)

unfoldable mutual
  unfolding insert_field str_lt

  -- `json.dumps(v, sort_keys=True)`
  pub dumps : Json → Json
  dumps null = null
  dumps (bool b) = bool b
  dumps (num n) = num n
  dumps (str s) = str s
  dumps (arr vs) = arr (dumps_items vs)
  dumps (obj fs) = obj (dumps_fields fs)

  pub dumps_items : Items → Items
  dumps_items nil = nil
  dumps_items (cons v vs) = cons (dumps v) (dumps_items vs)

  pub dumps_fields : Fields → Fields
  dumps_fields end = end
  dumps_fields (field k v fs) = insert_field k (dumps v) (dumps_fields fs)

bool_eq : Bool → Bool → Bool
bool_eq true b = b
bool_eq false b = not b

num_eq : ℤ → ℤ → Bool
num_eq (pos a) (pos b) = a == b
num_eq (negsuc a) (negsuc b) = a == b
num_eq _ _ = false

unfoldable mutual
  unfolding bool_eq num_eq

  pub json_eq : Json → Json → Bool
  json_eq null null = true
  json_eq (bool a) (bool b) = bool_eq a b
  json_eq (num a) (num b) = num_eq a b
  json_eq (str a) (str b) = str_eq a b
  json_eq (arr a) (arr b) = items_eq a b
  json_eq (obj a) (obj b) = fields_eq a b
  json_eq _ _ = false

  pub items_eq : Items → Items → Bool
  items_eq nil nil = true
  items_eq (cons v vs) (cons w ws) = json_eq v w && items_eq vs ws
  items_eq _ _ = false

  pub fields_eq : Fields → Fields → Bool
  fields_eq end end = true
  fields_eq (field k v fs) (field j w gs) = str_eq k j && (json_eq v w && fields_eq fs gs)
  fields_eq _ _ = false

bool_eq_refl : (b : Bool) → bool_eq b b ≡ true
unfolding bool_eq
bool_eq_refl true = refl
bool_eq_refl false = refl

num_eq_refl : (n : ℤ) → num_eq n n ≡ true
unfolding num_eq
num_eq_refl (pos n) = ground arith
num_eq_refl (negsuc n) = ground arith

pub str_eq_refl : (s : String) → str_eq s s ≡ true
str_eq_refl s = (eq_iff s s).1 refl

pub str_eq-same : (s t : String) → str_eq s t ≡ true → s ≡ t
str_eq-same s t h = (eq_iff s t).0 h

mutual
  unfolding json_eq

  json_refl : (v : Json) → json_eq v v ≡ true
  json_refl null = refl
  json_refl (bool b) = bool_eq_refl b
  json_refl (num n) = num_eq_refl n
  json_refl (str s) = str_eq_refl s
  json_refl (arr vs) = items_refl vs
  json_refl (obj fs) = fields_refl fs

  items_refl : (vs : Items) → items_eq vs vs ≡ true
  items_refl nil = refl
  items_refl (cons v vs) = ground (arith, json_refl v, items_refl vs)

  fields_refl : (fs : Fields) → fields_eq fs fs ≡ true
  fields_refl end = refl
  fields_refl (field k v fs) = ground (arith, str_eq_refl k, json_refl v, fields_refl fs)

pub json_eq_refl : (v : Json) → json_eq v v ≡ true
json_eq_refl v = json_refl v

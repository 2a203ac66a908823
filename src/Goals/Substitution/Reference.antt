-- ===== src/Goals/Substitution/Reference.antt =====
-- The pattern `_REFERENCE` of core/goals/substitution.py, and the reading of its first group by
-- `UUID`. The groups of the pattern cannot overlap, so no choice of `re` is left open.
use Prim.Native.Char.{Char, code}
use galaxz.Prelude.{
  ℕ, ◌+◌, ◌-◌, ◌*◌, String, Bool, false, not, ◌&&◌, ◌||◌, Option, none, some, List, [], ◌∷◌, leb,
  ◌==◌, if◌then◌else◌,
}
use galaxz.Prelude.Text.{lstrip, str_eq}

unfoldable pub drop_prefix : String → String → Option String
drop_prefix String.[] s = some s
drop_prefix (String.◌∷◌ c p) String.[] = none
drop_prefix (String.◌∷◌ c p) (String.◌∷◌ d s) = if code c == code d then drop_prefix p s else none

-- the longest prefix of characters that pass a test, and the rest
unfoldable pub span : (ℕ → Bool) → String → String × String
span p String.[] = (String.[], String.[])
span p (String.◌∷◌ c s) =
    let rest = span p s in
    if p (code c) then (String.◌∷◌ c rest.0, rest.1) else (String.[], String.◌∷◌ c s)

-- `[0-9a-fA-F-]`
abbrev is_id_char : ℕ → Bool
is_id_char c =
    (leb b'0' c && leb c b'9')
    || (leb b'a' c && leb c b'f')
    || (leb b'A' c && leb c b'F')
    || c == b'-'

pub record Match : Type 0 where
  pub id : String
  pub path : Option String

-- `\s*}}$`: the end of the text, or a line feed before it
unfoldable pub ends : String → Bool
unfolding drop_prefix lstrip
ends s = elim (drop_prefix "}}" (lstrip s)) [
  | none ↦ false
  | some rest ↦ str_eq rest "" || str_eq rest "\n"
]

-- `(?:\.([^}]+))?\s*}}$`
match_path : String → String → Option Match
unfolding drop_prefix span ends
match_path id s = elim (drop_prefix "." s) [
  | none ↦ if ends s then some (record { id = id; path = none }) else none
  | some rest ↦
      let (path, tail) = span (λ c. not (c == b'}')) rest in
      if not (str_eq path "") && ends tail
      then some (record { id = id; path = some path })
      else none
]

-- `([0-9a-fA-F-]+)\.result`
match_id : String → Option Match
unfolding drop_prefix span match_path
match_id s =
    let (id, tail) = span is_id_char s in
    if str_eq id ""
    then none
    else elim (drop_prefix ".result" tail) [ none ↦ none | some rest ↦ match_path id rest ]

-- `\s*dependencies\.`
match_name : String → Option Match
unfolding drop_prefix lstrip match_id
match_name s = elim (drop_prefix "dependencies." (lstrip s)) [
  | none ↦ none
  | some rest ↦ match_id rest
]

-- `_REFERENCE.match`
unfoldable pub match_reference : String → Option Match
unfolding drop_prefix match_name
match_reference s = elim (drop_prefix "${{" s) [ none ↦ none | some rest ↦ match_name rest ]

abbrev hex_digit : ℕ → ℕ
hex_digit c = if leb c b'9' then c - b'0' else if leb c b'F' then c - b'A' + 10 else c - b'a' + 10

read_hex : ℕ → ℕ → String → Option ℕ
read_hex n digits String.[] = if digits == 32 then some n else none
read_hex n digits (String.◌∷◌ c s) =
    let hyphen = code c == b'-' in
    read_hex (if hyphen then n else n * 16 + hex_digit (code c))
      (if hyphen then digits else digits + 1) s

-- `UUID(text)` of a text of hexadecimal digits and hyphens
unfoldable pub parse_uuid : String → Option ℕ
unfolding read_hex
parse_uuid s = read_hex 0 0 s

with_head : Char → List String → List String
with_head c [] = []
with_head c (t ∷ ts) = String.◌∷◌ c t ∷ ts

-- `s.split(".")`
unfoldable pub split_dots : String → List String
unfolding with_head
split_dots String.[] = "" ∷ []
split_dots (String.◌∷◌ c s) =
    let rest = split_dots s in if code c == b'.' then "" ∷ rest else with_head c rest

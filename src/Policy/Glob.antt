-- ===== src/Policy/Glob.antt =====
-- `fnmatch.fnmatchcase` of Python's standard library, by which core/policy/engine.py matches skills
-- and origins: `*`, `?`, `[seq]` and `[!seq]` with ranges, and every other character for itself.
use Prim.Native.Char.{code}
use galaxz.Prelude.{
  zero, suc, ℕ, ◌+◌, String, Bool, true, false, not, ◌&&◌, ◌||◌, Option, none, some, List, [], ◌∷◌,
  ◌==◌, leb, if◌then◌else◌,
}

-- one character of a set, or a range, by code points
pub data Item : Type 0 where
  single : ℕ → Item
  range : ℕ → ℕ → Item

pub data Token : Type 0 where
  star any : Token
  char : ℕ → Token
  set : Bool → List Item → Token  -- `true` for `[!seq]`

-- The items of the text of a set. A hyphen with a character on each side makes a range.
pub data Scan : Type 0 where
  start : Scan
  one : ℕ → Scan
  hyphen : ℕ → Scan

items : Scan → List ℕ → List Item
items Scan.start [] = []
items Scan.start (c ∷ cs) = items (Scan.one c) cs
items (Scan.one a) [] = Item.single a ∷ []
items (Scan.one a) (c ∷ cs) =
    let as_range = items (Scan.hyphen a) cs in
    let as_char = items (Scan.one c) cs in if c == 0x2d then as_range else Item.single a ∷ as_char
items (Scan.hyphen a) [] = Item.single a ∷ Item.single 0x2d ∷ []
items (Scan.hyphen a) (c ∷ cs) = Item.range a c ∷ items Scan.start cs

-- the text up to the next `]`, if there is one
until_bracket : List ℕ → Option (List ℕ)
until_bracket [] = none
until_bracket (c ∷ cs) =
    let rest = until_bracket cs in
    if c == 0x5d then some [] else elim rest [ none ↦ none | some t ↦ some (c ∷ t) ]

-- the text of a set: a `]` that stands first belongs to it
body : List ℕ → Option (List ℕ)
body [] = none
body (c ∷ cs) =
    if c == 0x5d
    then elim (until_bracket cs) [ none ↦ none | some t ↦ some (c ∷ t) ]
    else until_bracket (c ∷ cs)

size : List ℕ → ℕ
size [] = 0
size (c ∷ cs) = 1 + size cs

-- what follows `[`, as a token, and how many characters it takes with its `]`
set_of : List ℕ → Option (Token × ℕ)
set_of [] = none
set_of (c ∷ cs) =
    if c == 0x21
    then elim (body cs) [
      | none ↦ none
      | some t ↦ some (Token.set true (items Scan.start t), 2 + size t)
    ]
    else elim (body (c ∷ cs)) [
      | none ↦ none
      | some t ↦ some (Token.set false (items Scan.start t), 1 + size t)
    ]

-- the tokens of a pattern, after the characters to skip
tokens : ℕ → List ℕ → List Token
tokens n [] = []
tokens (suc n) (c ∷ cs) = tokens n cs
tokens zero (c ∷ cs) =
    if c == 0x2a
    then Token.star ∷ tokens 0 cs
    else if c == 0x3f
    then Token.any ∷ tokens 0 cs
    else if c == 0x5b
    then elim (set_of cs) [ none ↦ Token.char c ∷ tokens 0 cs | some s ↦ s.0 ∷ tokens s.1 cs ]
    else Token.char c ∷ tokens 0 cs

in_item : ℕ → Item → Bool
in_item c (Item.single a) = c == a
in_item c (Item.range a b) = leb a c && leb c b

in_items : ℕ → List Item → Bool
in_items c [] = false
in_items c (i ∷ is) = in_item c i || in_items c is

accepts : Token → ℕ → Bool
accepts Token.star c = true
accepts Token.any c = true
accepts (Token.char a) c = c == a
accepts (Token.set true is) c = not (in_items c is)
accepts (Token.set false is) c = in_items c is

-- a test of some end of the text
some_suffix : (List ℕ → Bool) → List ℕ → Bool
some_suffix p [] = p []
some_suffix p (c ∷ cs) = p (c ∷ cs) || some_suffix p cs

next : Token → (List ℕ → Bool) → List ℕ → Bool
next t p [] = false
next t p (c ∷ cs) = accepts t c && p cs

is_end : List ℕ → Bool
is_end [] = true
is_end (c ∷ cs) = false

unfoldable pub matches : List Token → List ℕ → Bool
unfolding some_suffix next is_end accepts in_items in_item
matches [] = is_end
matches (Token.star ∷ ts) = some_suffix (matches ts)
matches (Token.any ∷ ts) = next Token.any (matches ts)
matches (Token.char a ∷ ts) = next (Token.char a) (matches ts)
matches (Token.set b is ∷ ts) = next (Token.set b is) (matches ts)

unfoldable pub codes : String → List ℕ
codes String.[] = []
codes (String.◌∷◌ c s) = code c ∷ codes s

unfoldable pub fnmatchcase : String → String → Bool
unfolding tokens set_of body until_bracket items size
fnmatchcase name pattern = matches (tokens 0 (codes pattern)) (codes name)

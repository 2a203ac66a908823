-- ===== src/Policy/Usable.antt =====
-- What a policy that loads is.
use galaxz.Prelude.{
  true, false, ◌≡◌, inl, inr, Option, none, some, List, [], ◌∷◌, Bool-cases, Result-cases, arith,
  ok,
}
use galaxz.Prelude.Text.{str_eq, contains}
use galaxz.Prelude.Table.{All}
use galaxz.Contracts.Json.{Json, Items, Fields, truthy, get}
use galaxz.Policy.Engine.{PolicyRule, PolicyEngine}
use galaxz.Policy.Load.{rule_actions, parse_rule, parse_rules, rules_of, engine_of, load_policy}

-- what a rule of a loaded policy is
pub record IsUsable (r : PolicyRule) : Type 0 where
  pub action : contains rule_actions r.action ≡ true
  pub skill : str_eq r.skill "" ≡ false
  pub origin : str_eq r.origin "" ≡ false

abbrev pub IsLoaded : PolicyEngine → Type 0
IsLoaded e = All IsUsable e.rules

parse_rule-IsUsable : (v : Json) (r : PolicyRule) → parse_rule v ≡ ok r → IsUsable r
unfolding parse_rule
parse_rule-IsUsable v r e = record {
  action = ground arith;
  skill = ground arith;
  origin = ground arith;
}

parse_rules-All : (vs : Items) (rs : List PolicyRule) → parse_rules vs ≡ ok rs → All IsUsable rs
unfolding parse_rules
parse_rules-All Items.nil rs e = let same : rs ≡ [] = ground arith in rw same tt
parse_rules-All (Items.cons v vs) rs e = elim (Result-cases (parse_rule v)) [
  | inr (x, failed) ↦ absurd (ground arith)
  | inl (r, parsed) ↦ elim (Result-cases (parse_rules vs)) [
    | inr (x, failed) ↦ absurd (ground arith)
    | inl (ss, more) ↦
        let same : rs ≡ r ∷ ss = ground arith in
        rw same (parse_rule-IsUsable v r parsed, parse_rules-All vs ss more)
  ]
]

rules_of-IsLoaded : (o : Option Json) (e : PolicyEngine) → rules_of o ≡ ok e → IsLoaded e
unfolding rules_of
rules_of-IsLoaded none e h = let same : e.rules ≡ [] = ground arith in rw same tt
rules_of-IsLoaded (some Json.null) e h = let same : e.rules ≡ [] = ground arith in rw same tt
rules_of-IsLoaded (some (Json.arr vs)) e h = elim (Result-cases (parse_rules vs)) [
  | inr (x, failed) ↦ absurd (ground arith)
  | inl (rs, parsed) ↦
      let same : e.rules ≡ rs = ground arith in rw same (parse_rules-All vs rs parsed)
]
rules_of-IsLoaded (some (Json.bool b)) e h = absurd (ground arith)
rules_of-IsLoaded (some (Json.num n)) e h = absurd (ground arith)
rules_of-IsLoaded (some (Json.str s)) e h = absurd (ground arith)
rules_of-IsLoaded (some (Json.obj fs)) e h = absurd (ground arith)

engine_of-IsLoaded : (v : Json) (e : PolicyEngine) → engine_of v ≡ ok e → IsLoaded e
unfolding engine_of
engine_of-IsLoaded (Json.obj fs) e h = rules_of-IsLoaded (get "rules" (Json.obj fs)) e h
engine_of-IsLoaded Json.null e h = absurd (ground arith)
engine_of-IsLoaded (Json.bool b) e h = absurd (ground arith)
engine_of-IsLoaded (Json.num n) e h = absurd (ground arith)
engine_of-IsLoaded (Json.str s) e h = absurd (ground arith)
engine_of-IsLoaded (Json.arr vs) e h = absurd (ground arith)

-- Every rule of a policy that loads denies or requires a review, and names a skill and an origin.
pub load_policy-IsLoaded :
    (raw : Option Json) (e : PolicyEngine) → load_policy raw ≡ ok e → IsLoaded e
unfolding load_policy
load_policy-IsLoaded none e h = absurd (ground arith)
load_policy-IsLoaded (some raw) e h = elim (Bool-cases (truthy (some raw))) [
  | inl content ↦ engine_of-IsLoaded raw e (ground arith)
  | inr blank ↦ engine_of-IsLoaded (Json.obj Fields.end) e (ground arith)
]

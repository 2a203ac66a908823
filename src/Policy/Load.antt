-- ===== src/Policy/Load.antt =====
-- The reading of a policy file (core/policy/engine.py), from what the YAML parser returns.
use galaxz.Prelude.{
  String, Bool, true, false, not, ◌&&◌, Option, none, some, List, [], ◌∷◌, Result, ok, err, guard,
  policy_config_error, ◌>>=◌, ◌>>◌, if◌then◌else◌,
}
use galaxz.Prelude.Text.{str_eq, strip, contains}
use galaxz.Contracts.Json.{Json, Items, Fields, get, truthy}
use galaxz.Policy.Engine.{PolicyRule, PolicyEngine}

-- `_RULE_KEYS` and `_RULE_ACTIONS`
abbrev rule_keys : List String
rule_keys = "skill" ∷ "origin" ∷ "action" ∷ "reason" ∷ []

abbrev pub rule_actions : List String
rule_actions = "deny" ∷ "require_review" ∷ []

known_keys : Fields → Bool
known_keys Fields.end = true
known_keys (Fields.field k v fs) = contains rule_keys k && known_keys fs

-- `isinstance(entry, dict)` and no unknown keys
known_entry : Json → Bool
known_entry (Json.obj fs) = known_keys fs
known_entry _ = false

-- a text, and an exception for anything else
text_of : Option Json → Result String
text_of (some (Json.str s)) = ok s
text_of _ = err policy_config_error

-- `entry.get(key, default)`
get_default : String → Json → Json → Json
get_default k v entry = elim (get k entry) [ none ↦ v | some w ↦ w ]

-- a text that is not blank
nonblank : Option Json → Result String
nonblank v = do s ← text_of v; guard (not (str_eq (strip s) "")) policy_config_error; ok s

-- `_parse_rule`
unfoldable pub parse_rule : Json → Result PolicyRule
unfolding known_keys known_entry text_of get_default nonblank
parse_rule entry = do
  guard (known_entry entry) policy_config_error
  skill ← nonblank (get "skill" entry)
  action ← text_of (get "action" entry)
  guard (contains rule_actions action) policy_config_error
  origin ← nonblank (some (get_default "origin" (Json.str "*") entry))
  reason ← text_of (some (get_default "reason" (Json.str "") entry))
  ok (record { skill = strip skill; action = action; origin = strip origin; reason = strip reason })

unfoldable pub parse_rules : Items → Result (List PolicyRule)
parse_rules Items.nil = ok []
parse_rules (Items.cons v vs) = do r ← parse_rule v; rs ← parse_rules vs; ok (r ∷ rs)

unfoldable pub rules_of : Option Json → Result PolicyEngine
rules_of none = ok (record { rules = [] })
rules_of (some Json.null) = ok (record { rules = [] })
rules_of (some (Json.arr vs)) = do rs ← parse_rules vs; ok (record { rules = rs })
rules_of (some _) = err policy_config_error

unfoldable pub engine_of : Json → Result PolicyEngine
engine_of (Json.obj fs) = rules_of (get "rules" (Json.obj fs))
engine_of _ = err policy_config_error

-- `load_policy` on a file that exists: `raw = yaml.safe_load(f) or {}`, where `none` stands for
-- YAML that does not parse
unfoldable pub load_policy : Option Json → Result PolicyEngine
unfolding rules_of engine_of
load_policy none = err policy_config_error
load_policy (some raw) =
    if truthy (some raw) then engine_of raw else engine_of (Json.obj Fields.end)

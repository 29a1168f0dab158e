-- ===== src/Access/Policy.antt =====
-- The engine of dynamic policies (core/policies/engine.ts). Texts are lists of character codes;
-- `String` and `Number` of an arbitrary value, and the order of numbers, are parameters.
pub mod Laws
use axzy_ptnv_api.Base.{
  Bool, List, Option, [], false, if◌then◌else◌, leb, none, not, or_else, some, true, ℕ, ◌&&◌, ◌==◌,
  ◌||◌, ◌∷◌,
}
use axzy_ptnv_api.Access.Resolver.{UserPermissions, roles_of}
use axzy_ptnv_api.Base.Lists.{all, any, find, includes, keep, length}
use axzy_ptnv_api.Base.Sort.{sort}
use axzy_ptnv_api.Hotel.Tables.{active}
use axzy_ptnv_api.Hotel.Housekeeping.Rules.{applies}

abbrev pub Text : Type 0
Text = List ℕ

abbrev pub eqb_text : Text → Text → Bool
eqb_text [] [] = true
eqb_text [] (y ∷ ys) = false
eqb_text (x ∷ xs) [] = false
eqb_text (x ∷ xs) (y ∷ ys) = x == y && eqb_text xs ys

pub data PolicyOperator : Type 0 where
  eq neq gt gte lt lte is_in not_in is_empty is_not_empty : PolicyOperator

pub data Effect : Type 0 where
  allow_effect deny_effect : Effect

-- `operator` is none when the row's text is not an operator.
pub record PolicyConditionRow : Type 0 where
  pub field : Text
  pub operator : Option PolicyOperator
  pub value : Option Text

pub record PolicyRule : Type 0 where
  pub id : ℕ
  pub name : ℕ
  pub action : ℕ
  pub effect : Effect
  pub priority : ℕ
  pub active : Bool
  pub roles : List ℕ
  pub conditions : List PolicyConditionRow

-- The values of a record, and what the runtime makes of them: `v == null`, `String(v)`, and
-- `Number(v)` compared.
pub record Values : Type 1 where
  pub V : Type 0
  pub null : V
  pub text : Text → V
  pub is_nullish : V → Bool
  pub string_of : V → Text
  pub above : V → V → Bool
  pub at_least : V → V → Bool

pub data PolicyDecision : Type 0 where
  allow : PolicyDecision
  deny : ℕ → PolicyDecision

-- `"@user."`, and `raw.slice("@user.".length)` of a text that starts with it.
abbrev pub user_prefix : Text
user_prefix = 64 ∷ 117 ∷ 115 ∷ 101 ∷ 114 ∷ 46 ∷ []

unfoldable pub after : Text → Text → Option Text
after [] s = some s
after (p ∷ ps) [] = none
after (p ∷ ps) (c ∷ cs) = if p == c then after ps cs else none

-- The white space that `trim` takes off.
abbrev pub is_space : ℕ → Bool
is_space c =
    leb 9 c && leb c 13
    || c == 32
    || c == 160
    || c == 5760
    || leb 8192 c && leb c 8202
    || c == 8232
    || c == 8233
    || c == 8239
    || c == 8287
    || c == 12288
    || c == 65279

unfoldable pub trim_start : Text → Text
trim_start [] = []
trim_start (c ∷ cs) = if is_space c then trim_start cs else c ∷ cs

-- A character stands unless only blanks follow it and it is one.
unfoldable pub trim_end : Text → Text
trim_end [] = []
trim_end (c ∷ cs) =
    let rest = trim_end cs in
    elim rest [ [] ↦ if is_space c then [] else c ∷ [] | d ∷ ds ↦ c ∷ d ∷ ds ]

unfoldable pub trim : Text → Text
trim s = trim_end (trim_start s)

-- `s.split(",")`: the text before the first comma, and the texts after it.
unfoldable pub split_comma : Text → Text × List Text
split_comma [] = ([], [])
split_comma (c ∷ cs) =
    let (first, others) = split_comma cs in
    if c == 44 then ([], first ∷ others) else (c ∷ first, others)

unfoldable pub items : Text → List Text
items s = let (first, others) = split_comma s in first ∷ others

-- A user of a policy: the roles, and `user[field]` (none for undefined or null).
pub record PolicyUser (v : Values) : Type 0 where
  pub permissions : UserPermissions
  pub property : Text → Option v.V

module _ (v : Values) where
  unfoldable pub resolve_right : Option Text → PolicyUser v → v.V
  resolve_right none user = v.null
  resolve_right (some raw) user = elim (after user_prefix raw) [
    | some field ↦ or_else (user.property field) v.null
    | none ↦ v.text raw
  ]

  unfoldable pub as_string : v.V → Text
  as_string x = if v.is_nullish x then [] else v.string_of x

  unfoldable pub listed : v.V → v.V → Bool
  listed left right = any (λ item. eqb_text (trim item) (as_string left)) (items (as_string right))

  unfoldable pub blank : v.V → Bool
  blank left = v.is_nullish left || eqb_text (as_string left) []

  unfoldable pub holds : PolicyOperator → v.V → v.V → Bool
  holds eq l r = eqb_text (as_string l) (as_string r)
  holds neq l r = not (eqb_text (as_string l) (as_string r))
  holds gt l r = v.above l r
  holds gte l r = v.at_least l r
  holds lt l r = v.above r l
  holds lte l r = v.at_least r l
  holds is_in l r = listed l r
  holds not_in l r = not (listed l r)
  holds is_empty l r = blank l
  holds is_not_empty l r = not (blank l)

  unfoldable pub condition_matches : PolicyConditionRow → PolicyUser v → (Text → v.V) → Bool
  condition_matches condition user resource = elim condition.operator [
    | none ↦ false
    | some operator ↦ holds operator (resource condition.field) (resolve_right condition.value user)
  ]

  unfoldable pub applies_to_user : PolicyRule → PolicyUser v → Bool
  applies_to_user rule user =
      length rule.roles == 0 || any (λ role. includes (roles_of user.permissions) role) rule.roles

  unfoldable pub rule_matches : PolicyRule → PolicyUser v → (Text → v.V) → Bool
  rule_matches rule user resource =
      if not rule.active
      then false
      else if not (applies_to_user rule user)
      then false
      else all (λ c. condition_matches c user resource) rule.conditions

  abbrev pub before : PolicyRule → PolicyRule → Bool
  before a b = leb a.priority b.priority

  -- What a rule that matches decides.
  abbrev pub verdict : Effect → ℕ → PolicyDecision
  verdict deny_effect name = deny name
  verdict allow_effect name = allow

  unfoldable pub evaluate_rules : List PolicyRule → PolicyUser v → (Text → v.V) → PolicyDecision
  evaluate_rules rules user resource =
      elim (find (λ rule. rule_matches rule user resource) (sort before rules)) [
        | none ↦ allow
        | some matched ↦ verdict matched.effect matched.name
      ]

-- One rule of an explanation, with what each of its conditions gave.
pub record RuleTrace : Type 0 where
  pub id : ℕ
  pub name : ℕ
  pub effect : Effect
  pub priority : ℕ
  pub applies : Bool
  pub conditions : List Bool
  pub matched : Bool

pub record PolicyExplanation : Type 0 where
  pub decision : PolicyDecision
  pub decided_by : Option RuleTrace
  pub rules : List RuleTrace

abbrev pub map_list {ℓ κ} : {A : Type ℓ} {B : Type κ} → (A → B) → List A → List B
map_list f [] = []
map_list f (x ∷ xs) = f x ∷ map_list f xs

module _ (v : Values) where
  unfoldable pub trace : PolicyUser v → (Text → v.V) → PolicyRule → RuleTrace
  trace user resource rule = record {
    id = rule.id;
    name = rule.name;
    effect = rule.effect;
    priority = rule.priority;
    applies = applies_to_user v rule user;
    conditions = map_list (λ c. condition_matches v c user resource) rule.conditions;
    matched = rule_matches v rule user resource;
  }

  unfoldable pub traces : List PolicyRule → PolicyUser v → (Text → v.V) → List RuleTrace
  traces rules user resource = map_list (trace user resource) (sort (before v) rules)

  unfoldable pub explain_rules : List PolicyRule → PolicyUser v → (Text → v.V) → PolicyExplanation
  explain_rules rules user resource = record {
    decision = evaluate_rules v rules user resource;
    decided_by = find (λ t. t.matched) (traces rules user resource);
    rules = traces rules user resource;
  }

  unfoldable pub rules_for_action : List PolicyRule → ℕ → List PolicyRule
  rules_for_action cache action = keep (λ rule. rule.action == action) cache

  unfoldable pub evaluate_action_policies :
      List PolicyRule → ℕ → PolicyUser v → (Text → v.V) → PolicyDecision
  evaluate_action_policies cache action user resource =
      evaluate_rules v (rules_for_action cache action) user resource

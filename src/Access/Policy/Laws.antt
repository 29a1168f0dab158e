-- ===== src/Access/Policy/Laws.antt =====
-- Which rule decides, what an explanation says, and what the text operators accept.
use axzy_ptnv_api.Base.{
  Bool-cases, List, Option-cases, [], arith, false, inl, inr, leb, none, refl, some, true, ℕ, ◌<◌,
  ◌∷◌, ◌≡◌, ◌≤◌, ◌⊎◌,
}
use axzy_ptnv_api.Access.Policy.{
  PolicyRule, PolicyUser, Text, Values, allow, before, deny, deny_effect, evaluate_rules,
  explain_rules, map_list, rule_matches, trace, traces, verdict,
}
use axzy_ptnv_api.Base.Lists.{All, All-of_In, In, In-All, find}
use axzy_ptnv_api.Base.Sort.{sort}
use axzy_ptnv_api.Base.Sort.Laws.{All-sort, IsOrder, find-none, find-sort, find-sort-In}

before-IsOrder : (v : Values) → IsOrder (before v)
before-IsOrder v = record { total = (λ x y h. ground arith); trans = (λ x y z h k. ground arith) }

-- When the policies deny an action, one of them matches, denies, gives the denial its name, and
-- has a priority number not above that of any matching rule.
pub evaluate_rules-deny :
    (v : Values) (rules : List PolicyRule) (user : PolicyUser v) (resource : Text → v.V) (name : ℕ)
    → evaluate_rules v rules user resource ≡ deny name
    → (rule : PolicyRule) × In rule rules
      × (rule.effect ≡ deny_effect)
      × (rule.name ≡ name)
      × (rule_matches v rule user resource ≡ true)
      × All
          (λ other. rule_matches v other user resource ≡ true → rule.priority ≤ other.priority)
          rules
unfolding evaluate_rules
evaluate_rules-deny v rules user resource name h =
    elim (Option-cases (find (λ r. rule_matches v r user resource) (sort (before v) rules))) [
      | inl missing ↦ let bad : allow ≡ deny name = rw (evaluate_rules, missing) at h in cc
      | inr (rule, found) ↦
          let (i, m) = find-sort-In (before v) (λ r. rule_matches v r user resource) rules found in
          let first =
            find-sort (before v) (before-IsOrder v) (λ r. rule_matches v r user resource) rules
              found in
          let d : verdict v rule.effect rule.name ≡ deny name = rw (evaluate_rules, found) at h in
          (
            rule,
            i,
            denies rule d,
            named rule d,
            m,
            All-of_In rules (λ b n q. rank rule b (In-All _ b rules n first q)),
          )
    ]
  where
    rank : (a b : PolicyRule) → leb a.priority b.priority ≡ true → a.priority ≤ b.priority
    rank a b e = ground arith

    denies : (r : PolicyRule) → verdict v r.effect r.name ≡ deny name → r.effect ≡ deny_effect
    denies r e = ground arith

    named : (r : PolicyRule) → verdict v r.effect r.name ≡ deny name → r.name ≡ name
    named r e = ground arith

not_both : (a b : PolicyRule) → leb b.priority a.priority ≡ true → a.priority < b.priority → ⊥
not_both a b h k = ground arith

-- A matching rule whose priority number is below that of every other matching rule decides: the
-- outcome is its effect.
pub evaluate_rules-first :
    (v : Values) (rules : List PolicyRule) (user : PolicyUser v) (resource : Text → v.V)
    (rule : PolicyRule)
    → In rule rules
    → rule_matches v rule user resource ≡ true
    → All
        (λ other.
          rule_matches v other user resource ≡ true
          → (other ≡ rule) ⊎ (rule.priority < other.priority))
        rules
    → evaluate_rules v rules user resource ≡ verdict v rule.effect rule.name
unfolding evaluate_rules
evaluate_rules-first v rules user resource rule i m least =
    elim (Option-cases (find (λ r. rule_matches v r user resource) (sort (before v) rules))) [
      | inl missing ↦
          let all_miss =
            All-sort (before v) _ rules
              (find-none (λ r. rule_matches v r user resource) (sort (before v) rules) missing) in
          let miss : rule_matches v rule user resource ≡ false = In-All _ rule rules i all_miss in
          cc
      | inr (hit, found) ↦
          let (j, n) = find-sort-In (before v) (λ r. rule_matches v r user resource) rules found in
          let first =
            find-sort (before v) (before-IsOrder v) (λ r. rule_matches v r user resource) rules
              found in
          let le : leb hit.priority rule.priority ≡ true = In-All _ rule rules i first m in
          elim (In-All _ hit rules j least n) [
            | inl same ↦ rw (evaluate_rules, found, same) refl
            | inr later ↦ absurd (not_both rule hit le later)
          ]
    ]

-- The explanation of a decision names the rule that made it: its decision is the effect of the
-- rule it names, and to allow where it names none.
pub explain_rules-decision :
    (v : Values) (rules : List PolicyRule) (user : PolicyUser v) (resource : Text → v.V)
    → (explain_rules v rules user resource).decision
      ≡ elim (explain_rules v rules user resource).decided_by [
        | none ↦ allow
        | some t ↦ verdict v t.effect t.name
      ]
unfolding explain_rules evaluate_rules traces trace
explain_rules-decision v rules user resource = along (sort (before v) rules)
  where
    along :
        (rs : List PolicyRule)
        → (elim (find (λ rule. rule_matches v rule user resource) rs) [
          | none ↦ allow
          | some matched ↦ verdict v matched.effect matched.name
        ])
          ≡ elim (find (λ t. t.matched) (map_list (trace v user resource) rs)) [
            | none ↦ allow
            | some t ↦ verdict v t.effect t.name
          ]
    along [] = refl
    along (r ∷ rs) = elim (Bool-cases (rule_matches v r user resource)) [
      | inl hit ↦ rw hit refl
      | inr miss ↦ rw miss (along rs)
    ]

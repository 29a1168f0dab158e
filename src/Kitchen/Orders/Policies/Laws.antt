-- ===== src/Kitchen/Orders/Policies/Laws.antt =====
-- Segregation of duties under the policies that the system starts with.
use axzy_ptnv_api.Base.{
  Bool, List, Option, [], ap, arith, false, none, refl, some, true, ℕ, ◌==◌, ◌∷◌, ◌≡◌,
}
use axzy_ptnv_api.Access.Policy.{
  PolicyDecision, PolicyRule, PolicyUser, Text, Values, after, allow, allow_effect, applies_to_user,
  as_string, condition_matches, deny, deny_effect, eq, eqb_text, evaluate_action_policies,
  evaluate_rules, holds, resolve_right, rule_matches, rules_for_action, verdict,
}
use axzy_ptnv_api.Access.Resolver.{roles_of}
use axzy_ptnv_api.Base.Lists.{find, includes}
use axzy_ptnv_api.Base.Outcome.{err, http}
use axzy_ptnv_api.Base.Sort.{insert, sort}
use axzy_ptnv_api.Kitchen.Errors.{policy_denied}
use axzy_ptnv_api.Kitchen.Orders.Policies.{
  PolicyContext, admin_role, approve_action, approved_by_field, check_policy, compares,
  created_by_field, id_field, order_resource, order_seeds, po_approve_admin_override,
  po_approve_limit, po_approve_sod, po_receive_admin_override, po_receive_sod, policy_user,
  receive_action, seed_rule, user_id_reference, user_property, value_or_null,
}
use axzy_ptnv_api.Kitchen.Orders.Tables.{PurchaseOrder}

eqb_text_refl : (s : Text) → eqb_text s s ≡ true
eqb_text_refl [] = refl
eqb_text_refl (x ∷ xs) = let same : (x == x) ≡ true = ground arith in rw same (eqb_text_refl xs)

second_found :
    (p : PolicyRule → Bool) (x y : PolicyRule) (rest : List PolicyRule)
    → p x ≡ false
    → p y ≡ true
    → find p (x ∷ y ∷ rest) ≡ some y
second_found p x y rest a b = rw (find, a, b) refl

module _ (v : Values) where
  decided : Option PolicyRule → PolicyDecision
  decided none = allow
  decided (some matched) = verdict v matched.effect matched.name

  -- A rule for administrators passes over who is none.
  admin_rule-passes :
      (name action priority : ℕ) (user : PolicyUser v) (resource : Text → v.V)
      → includes (roles_of user.permissions) admin_role ≡ false
      → rule_matches v
          (seed_rule name action allow_effect priority true (admin_role ∷ []) [])
          user
          resource
        ≡ false
  unfolding rule_matches applies_to_user
  admin_rule-passes name action priority user resource plain =
      rw (rule_matches, applies_to_user, plain) refl

  -- A rule on a field that holds the user's identifier.
  own_rule-matches :
      (name action priority : ℕ) (field : Text) (user : PolicyUser v) (resource : Text → v.V)
      (x : v.V)
      → user.property id_field ≡ some x
      → resource field ≡ x
      → rule_matches v
          (seed_rule name action deny_effect priority true [] (compares field eq user_id_reference))
          user
          resource
        ≡ true
  unfolding rule_matches applies_to_user condition_matches holds resolve_right after
  own_rule-matches name action priority field user resource x own_id mine =
      rw
        (
          rule_matches,
          condition_matches,
          holds,
          resolve_right,
          own_id,
          mine,
          eqb_text_refl (as_string v x),
        )
        refl

  approve-denied :
      (user : PolicyUser v) (resource : Text → v.V) (x : v.V)
      → includes (roles_of user.permissions) admin_role ≡ false
      → user.property id_field ≡ some x
      → resource created_by_field ≡ x
      → evaluate_action_policies v order_seeds approve_action user resource ≡ deny 2
  unfolding evaluate_action_policies rules_for_action evaluate_rules sort insert decided
  approve-denied user resource x plain own_id mine =
      let a = admin_rule-passes 1 approve_action 10 user resource plain in
      let b = own_rule-matches 2 approve_action 20 created_by_field user resource x own_id mine in
      ap decided (
        second_found (λ rule. rule_matches v rule user resource) po_approve_admin_override
          po_approve_sod (po_approve_limit ∷ []) a b)

  receive-denied :
      (user : PolicyUser v) (resource : Text → v.V) (x : v.V)
      → includes (roles_of user.permissions) admin_role ≡ false
      → user.property id_field ≡ some x
      → resource approved_by_field ≡ x
      → evaluate_action_policies v order_seeds receive_action user resource ≡ deny 5
  unfolding evaluate_action_policies rules_for_action evaluate_rules sort insert decided
  receive-denied user resource x plain own_id mine =
      let a = admin_rule-passes 4 receive_action 10 user resource plain in
      let b = own_rule-matches 5 receive_action 20 approved_by_field user resource x own_id mine in
      ap decided (
        second_found (λ rule. rule_matches v rule user resource) po_receive_admin_override
          po_receive_sod [] a b)

-- With the policies that the system starts with, whoever is not an administrator is refused the
-- approval of an order that they have created and the receipt of one that they have approved.
pub check_policy-refuses :
    (c : PolicyContext) (total : Option ℕ) (order : PurchaseOrder) (actor : ℕ)
    → c.rules ≡ order_seeds
    → includes (roles_of (policy_user c actor).permissions) admin_role ≡ false
    → (order.created_by ≡ actor
        → check_policy c approve_action total order actor ≡ err (http 403 policy_denied))
      × (order.approved_by ≡ some actor
          → check_policy c receive_action none order actor ≡ err (http 403 policy_denied))
unfolding check_policy policy_user user_property order_resource
check_policy-refuses c total order actor seeds plain = (
  (λ mine.
      let denied =
        approve-denied c.values (policy_user c actor) (order_resource c total order)
          (c.id_value actor) plain refl (ap c.id_value mine) in
      rw (check_policy, seeds, denied) refl),
  (λ mine.
      let denied =
        receive-denied c.values (policy_user c actor) (order_resource c none order)
          (c.id_value actor) plain refl (ap (value_or_null c) mine) in
      rw (check_policy, seeds, denied) refl),
)

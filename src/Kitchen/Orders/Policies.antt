-- ===== src/Kitchen/Orders/Policies.antt =====
-- What the dynamic policies see of a purchase order and its user (`policyUser` and the calls of
-- `evaluateActionPolicies` in modules/kitchen/services/purchase-order.service.ts), and the policies
-- that the system starts with (core/policies/seed.ts). Roles, actions and names of rules are
-- numbers.
pub mod Laws
use axzy_ptnv_api.Base.{
  Bool, List, Option, [], false, if◌then◌else◌, none, some, true, ℕ, ◌==◌, ◌∷◌,
}
use axzy_ptnv_api.Access.Policy.{
  Effect, PolicyConditionRow, PolicyOperator, PolicyRule, PolicyUser, Text, Values, allow,
  allow_effect, deny, deny_effect, eq, eqb_text, evaluate_action_policies, gt,
}
use axzy_ptnv_api.Base.Lists.{find}
use axzy_ptnv_api.Base.Outcome.{Result, err, http, ok}
use axzy_ptnv_api.Hotel.Tables.{active}
use axzy_ptnv_api.Hotel.Transaction.{is_active}
use axzy_ptnv_api.Kitchen.Errors.{KitchenCode, policy_denied}
use axzy_ptnv_api.Kitchen.Orders.Tables.{OrderStatus, PurchaseOrder}

-- A user's row; a missing one has the empty role.
pub record UserRow : Type 0 where
  pub id : ℕ
  pub role : ℕ
  pub department : Option ℕ
  pub extra_roles : List ℕ

-- `id_value` and the other functions make values of what the rows hold: identifiers, amounts in
-- hundredths, statuses and lists of roles.
pub record PolicyContext : Type 1 where
  pub values : Values
  pub id_value : ℕ → values.V
  pub amount_value : ℕ → values.V
  pub status_value : OrderStatus → values.V
  pub roles_value : List ℕ → values.V
  pub rules : List PolicyRule
  pub users : List UserRow

-- The names of the fields.
abbrev pub id_field : Text
id_field = 105 ∷ 100 ∷ []

abbrev pub role_field : Text
role_field = 114 ∷ 111 ∷ 108 ∷ 101 ∷ []

abbrev pub roles_field : Text
roles_field = 114 ∷ 111 ∷ 108 ∷ 101 ∷ 115 ∷ []

abbrev pub department_field : Text
department_field = 100 ∷ 101 ∷ 112 ∷ 97 ∷ 114 ∷ 116 ∷ 109 ∷ 101 ∷ 110 ∷ 116 ∷ 73 ∷ 100 ∷ []

abbrev pub total_field : Text
total_field = 116 ∷ 111 ∷ 116 ∷ 97 ∷ 108 ∷ []

abbrev pub status_field : Text
status_field = 115 ∷ 116 ∷ 97 ∷ 116 ∷ 117 ∷ 115 ∷ []

abbrev pub created_by_field : Text
created_by_field = 99 ∷ 114 ∷ 101 ∷ 97 ∷ 116 ∷ 101 ∷ 100 ∷ 66 ∷ 121 ∷ 73 ∷ 100 ∷ []

abbrev pub approved_by_field : Text
approved_by_field = 97 ∷ 112 ∷ 112 ∷ 114 ∷ 111 ∷ 118 ∷ 101 ∷ 100 ∷ 66 ∷ 121 ∷ 73 ∷ 100 ∷ []

-- `"@user.id"`
abbrev pub user_id_reference : Text
user_id_reference = 64 ∷ 117 ∷ 115 ∷ 101 ∷ 114 ∷ 46 ∷ 105 ∷ 100 ∷ []

-- `"10000"`
abbrev pub ten_thousand : Text
ten_thousand = 49 ∷ 48 ∷ 48 ∷ 48 ∷ 48 ∷ []

abbrev pub row_role : Option UserRow → ℕ
row_role none = 0
row_role (some row) = row.role

abbrev pub row_roles : Option UserRow → List ℕ
row_roles none = 0 ∷ []
row_roles (some row) = row.role ∷ row.extra_roles

abbrev pub row_department : Option UserRow → Option ℕ
row_department none = none
row_department (some row) = row.department

-- The actions `purchase_orders.approve` and `purchase_orders.receive`, and the role `ADMIN`.
abbrev pub approve_action : ℕ
approve_action = 1

abbrev pub receive_action : ℕ
receive_action = 2

abbrev pub admin_role : ℕ
admin_role = 1

module _ (c : PolicyContext) where
  abbrev pub find_user : ℕ → Option UserRow
  find_user id = find (λ (u : UserRow). u.id == id) c.users

  abbrev pub value_or_null : Option ℕ → c.values.V
  value_or_null none = c.values.null
  value_or_null (some id) = c.id_value id

  unfoldable pub user_property : ℕ → Text → Option c.values.V
  user_property id field =
      if eqb_text field id_field
      then some (c.id_value id)
      else if eqb_text field role_field
      then some (c.id_value (row_role (find_user id)))
      else if eqb_text field roles_field
      then some (c.roles_value (row_roles (find_user id)))
      else if eqb_text field department_field
      then some (value_or_null (row_department (find_user id)))
      else none

  unfoldable pub policy_user : ℕ → PolicyUser c.values
  policy_user id = record {
    permissions = record {
      id = id;
      role = row_role (find_user id);
      roles = row_roles (find_user id);
      department = row_department (find_user id);
      exceptions = [];
    };
    property = user_property id;
  }

  -- The record that a policy reads; `total` is there for an approval only.
  unfoldable pub order_resource : Option ℕ → PurchaseOrder → Text → c.values.V
  order_resource total order field =
      if eqb_text field total_field
      then (elim total [ none ↦ c.values.null | some amount ↦ c.amount_value amount ])
      else if eqb_text field status_field
      then c.status_value order.status
      else if eqb_text field created_by_field
      then c.id_value order.created_by
      else if eqb_text field approved_by_field
      then value_or_null order.approved_by
      else c.values.null

  -- `if (!decision.allowed) throw new HttpError(403, ...)`
  unfoldable pub check_policy : ℕ → Option ℕ → PurchaseOrder → ℕ → Result KitchenCode (Unit {0})
  check_policy action total order actor =
      elim (evaluate_action_policies c.values c.rules action (policy_user actor)
        (order_resource total order)) [ allow ↦ ok tt | deny name ↦ err (http 403 policy_denied) ]

-- The seeds of the two actions, with the names numbered in their order.
abbrev pub seed_rule : ℕ → ℕ → Effect → ℕ → Bool → List ℕ → List PolicyConditionRow → PolicyRule
seed_rule name action effect priority is_active roles conditions = record {
  id = name;
  name = name;
  action = action;
  effect = effect;
  priority = priority;
  active = is_active;
  roles = roles;
  conditions = conditions;
}

abbrev pub compares : Text → PolicyOperator → Text → List PolicyConditionRow
compares field operator value =
    record { field = field; operator = some operator; value = some value } ∷ []

abbrev pub po_approve_admin_override : PolicyRule
po_approve_admin_override = seed_rule 1 approve_action allow_effect 10 true (admin_role ∷ []) []

abbrev pub po_approve_sod : PolicyRule
po_approve_sod =
    seed_rule 2 approve_action deny_effect 20 true []
      (compares created_by_field eq user_id_reference)

abbrev pub po_approve_limit : PolicyRule
po_approve_limit =
    seed_rule 3 approve_action deny_effect 30 false [] (compares total_field gt ten_thousand)

abbrev pub po_receive_admin_override : PolicyRule
po_receive_admin_override = seed_rule 4 receive_action allow_effect 10 true (admin_role ∷ []) []

abbrev pub po_receive_sod : PolicyRule
po_receive_sod =
    seed_rule 5 receive_action deny_effect 20 true []
      (compares approved_by_field eq user_id_reference)

abbrev pub order_seeds : List PolicyRule
order_seeds =
    po_approve_admin_override ∷ po_approve_sod ∷ po_approve_limit ∷ po_receive_admin_override
    ∷ po_receive_sod ∷ []

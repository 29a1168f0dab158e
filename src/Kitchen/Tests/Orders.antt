-- ===== src/Kitchen/Tests/Orders.antt =====
-- An order of flour and its receipt, and the theorems at them.
use axzy_ptnv_api.Base.{
  List, Option, [], arith, false, if◌then◌else◌, leb, ltb, none, or_else, refl, some, true, ℕ, ◌+◌,
  ◌∷◌, ◌≡◌,
}
use axzy_ptnv_api.Access.Catalog.{distinct}
use axzy_ptnv_api.Access.Policy.{
  Text, Values, evaluate_action_policies, evaluate_rules, rules_for_action,
}
use axzy_ptnv_api.Access.Resolver.{roles_of}
use axzy_ptnv_api.Base.Int.{pos, ◌+ℤ◌}
use axzy_ptnv_api.Base.Lists.{All, all, includes, length}
use axzy_ptnv_api.Base.Outcome.{Failure, conflict, err, http, ok, ◌>>=◌}
use axzy_ptnv_api.Base.Sort.{sort}
use axzy_ptnv_api.Kitchen.Errors.{KitchenCode, policy_denied}
use axzy_ptnv_api.Kitchen.Rules.{consumption, kitchen_ledger_sign, plain_sign}
use axzy_ptnv_api.Kitchen.Orders.Lines.{ResolvedLine, merge_lines}
use axzy_ptnv_api.Kitchen.Orders.Policies.{
  PolicyContext, admin_role, approve_action, check_policy, order_seeds, policy_user, receive_action,
}
use axzy_ptnv_api.Kitchen.Orders.Reach.{
  IsTold, and_order_step, approves, no_order_step, receives_goods,
}
use axzy_ptnv_api.Kitchen.Orders.Receipt.{
  ReceiptEnd, ReceiptLine, add_increment, check_receipt, count_receipt, db_after, goods_counted,
  increment_line, increment_lines, is_complete, not_received, previous_receipt, receipt_lines,
  receive, stock_receipt, uncounted,
}
use axzy_ptnv_api.Kitchen.Orders.Service.{approve, approve_by, require_status}
use axzy_ptnv_api.Kitchen.Orders.Tables.{
  OrderLine, OrderStatus, OrdersDb, PurchaseOrder, draft, find_order, partially_received, received,
  update_order,
}
use axzy_ptnv_api.Kitchen.Store.Movement.{
  apply_line, apply_lines, change_lot, create_movement, find_kitchen_movement, find_lot,
  new_movement,
}
use axzy_ptnv_api.Kitchen.Store.Operations.{
  active_items, check_supplier, find_item, receive_lots, stock_in,
}
use axzy_ptnv_api.Kitchen.Store.Register.{
  attempt_run, by_request, keyed, register, run_new, serializable, serializable_from, set_request,
}
use axzy_ptnv_api.Kitchen.Store.Tables.{Item, KitchenMovement, Lot}
use axzy_ptnv_api.Kitchen.Orders.Lines.Laws.{IsMerged, merge_lines-requested_of, requested_of}
use axzy_ptnv_api.Kitchen.Orders.Policies.Laws.{check_policy-refuses}
use axzy_ptnv_api.Kitchen.Orders.Reach.Told.{OrderReach-IsTold}
use axzy_ptnv_api.Kitchen.Orders.Receipt.Bounds.{IsWithin}
use axzy_ptnv_api.Kitchen.Orders.Receipt.Counted.{received_of}
use axzy_ptnv_api.Kitchen.Orders.Receipt.Laws.{receive-IsWithin, receive-counts}
use axzy_ptnv_api.Kitchen.Orders.Receipt.Retried.{receive_again, receive_uncounted}
use axzy_ptnv_api.Kitchen.Store.Soundness.Items.{stock_of}

-- Values that are texts.
abbrev order_texts : Values
order_texts = record {
  V = Option Text;
  null = none;
  text = (λ t. some t);
  is_nullish = (λ x. elim x [ none ↦ true | some t ↦ false ]);
  string_of = (λ x. or_else x []);
  above = (λ x y. ltb (length (or_else y [])) (length (or_else x [])));
  at_least = (λ x y. leb (length (or_else y [])) (length (or_else x [])));
}

-- User 8 is a cook; user 9 is nobody in the table.
abbrev house : PolicyContext
house = record {
  values = order_texts;
  id_value = (λ id. some (id ∷ []));
  amount_value = (λ n. some (n ∷ []));
  status_value = (λ s. none);
  roles_value = (λ roles. some roles);
  rules = order_seeds;
  users = record { id = 8; role = 3; department = none; extra_roles = [] } ∷ [];
}

abbrev open_house : PolicyContext
open_house = record house { rules = [] }

abbrev no_abort : ℕ → Option (Failure KitchenCode)
no_abort n = none

abbrev new_row : ℕ → ℕ
new_row n = 21 + n

abbrev some_code : ℕ → List Lot → ℕ
some_code item lots = 7

abbrev flour_row : Item
flour_row = record {
  id = 1;
  active = true;
  is_durable = false;
  tracks_expiry = true;
  default_tax_rate = none;
}

abbrev order_line : ℕ → ℕ → ℕ → OrderLine
order_line id quantity so_far = record {
  id = id;
  item = 1;
  quantity = quantity;
  unit_cost = some 125000;
  received_quantity = so_far;
  notes = none;
  purchase_unit = none;
  purchase_factor = none;
  purchase_quantity = none;
  tax_rate_id = none;
  tax_rate = 1600;
}

abbrev flour_order : OrderStatus → Option ℕ → ℕ → PurchaseOrder
flour_order status approved_by so_far = record {
  id = 5;
  number = (2026, 1);
  supplier = 3;
  cost_center = none;
  status = status;
  expected_at = none;
  notes = none;
  created_by = 9;
  approved_by = approved_by;
  approved_at = none;
  sent_at = none;
  lines = order_line 21 3000 so_far ∷ [];
}

abbrev orders_with : PurchaseOrder → OrdersDb
orders_with o = record {
  kitchen = record {
    items = flour_row ∷ [];
    suppliers = record { id = 3; active = true } ∷ [];
    lots = [];
    movements = [];
  };
  orders = o ∷ [];
  cost_centers = [];
  supplier_items = [];
  tax_rates = [];
  sequence = (λ year. 1);
}

abbrev drafted : OrdersDb
drafted = orders_with (flour_order draft none 0)

abbrev half_received : PurchaseOrder
half_received = flour_order partially_received (some 8) 1000

abbrev halfway : OrdersDb
halfway = orders_with half_received

abbrev sack : List ReceiptLine
sack =
    record { line = 21; quantity = 2000; lot_code = some 4; expires_at = some 90; unit_cost = none }
    ∷ []

abbrev receive_with : Option ℕ → Option (Failure KitchenCode) → ReceiptEnd
receive_with request lost =
    receive new_row some_code no_abort open_house 1 50 5 sack 9 request halfway halfway.kitchen lost

abbrev answer : ReceiptEnd → KitchenMovement
answer (goods_counted m db) = m
answer (not_received e) = new_movement 0 consumption [] 0 none none
answer (uncounted e db) = new_movement 0 consumption [] 0 none none

abbrev all_in : Option ℕ → OrdersDb
all_in request = db_after halfway (receive_with request none)

receives_sack :
    receive_with none none ≡ goods_counted (answer (receive_with none none)) (all_in none)
unfolding receive find_order previous_receipt receipt_lines check_policy evaluate_action_policies
    rules_for_action evaluate_rules sort check_receipt add_increment stock_receipt register
    by_request run_new serializable serializable_from attempt_run set_request keyed stock_in
    check_supplier active_items find_item receive_lots find_lot create_movement kitchen_ledger_sign
    plain_sign apply_lines apply_line change_lot find_kitchen_movement count_receipt increment_lines
    increment_line update_order ◌+ℤ◌
receives_sack = refl

receives_keyed :
    receive_with (some 77) none
    ≡ goods_counted (answer (receive_with (some 77) none)) (all_in (some 77))
unfolding receive find_order previous_receipt receipt_lines check_policy evaluate_action_policies
    rules_for_action evaluate_rules sort check_receipt add_increment stock_receipt register
    by_request run_new serializable serializable_from attempt_run set_request keyed stock_in
    check_supplier active_items find_item receive_lots find_lot create_movement kitchen_ledger_sign
    plain_sign apply_lines apply_line change_lot find_kitchen_movement count_receipt increment_lines
    increment_line update_order ◌+ℤ◌
receives_keyed = refl

-- The second transaction is lost.
receives_lost :
    receive_with (some 77) (some conflict)
    ≡ uncounted conflict (db_after halfway (receive_with (some 77) (some conflict)))
unfolding receive find_order previous_receipt receipt_lines check_policy evaluate_action_policies
    rules_for_action evaluate_rules sort check_receipt add_increment stock_receipt register
    by_request run_new serializable serializable_from attempt_run set_request keyed stock_in
    check_supplier active_items find_item receive_lots find_lot create_movement kitchen_ledger_sign
    plain_sign apply_lines apply_line change_lot find_kitchen_movement count_receipt increment_lines
    increment_line update_order ◌+ℤ◌
receives_lost = refl

finds_half : find_order 5 halfway.orders ≡ some half_received
unfolding find_order
finds_half = refl

receive-IsWithin_example :
    (o' : PurchaseOrder) × (find_order 5 (all_in none).orders ≡ some o') × All IsWithin o'.lines
receive-IsWithin_example =
    receive-IsWithin new_row some_code no_abort open_house 1 50 5 sack 9 none halfway
      halfway.kitchen none half_received (refl, tt) finds_half (omega arith, tt) receives_sack

receive-counts_example :
    (o : PurchaseOrder) × (o' : PurchaseOrder) × (find_order 5 halfway.orders ≡ some o)
    × (find_order 5 (all_in none).orders ≡ some o')
    × (o'.status ≡ (if all is_complete o'.lines then received else partially_received))
    × ((k : ℕ)
        → (n : ℕ) × (received_of k o'.lines ≡ received_of k o.lines + n)
          × (stock_of k (all_in none).kitchen.lots ≡ stock_of k halfway.kitchen.lots +ℤ pos n))
receive-counts_example =
    receive-counts new_row some_code no_abort open_house 1 50 5 sack 9 halfway halfway.kitchen none
      receives_sack

receive_again_example :
    receive new_row some_code no_abort house 2 60 5 [] 8
      (some 77)
      (all_in (some 77))
      halfway.kitchen
      none
    ≡ goods_counted (answer (receive_with (some 77) none)) (all_in (some 77))
receive_again_example =
    receive_again new_row some_code no_abort no_abort open_house house 1 2 50 60 5 77 sack [] 9 8
      halfway halfway.kitchen none none refl receives_keyed

abbrev lost_store : OrdersDb
lost_store = db_after halfway (receive_with (some 77) (some conflict))

receive_uncounted_example :
    (lost_store.orders ≡ halfway.orders)
    × (m : KitchenMovement) × (receive new_row some_code no_abort open_house 1 50 5 sack 9
          (some 77)
          lost_store
          halfway.kitchen
          none
        ≡ goods_counted m lost_store)
receive_uncounted_example =
    receive_uncounted new_row some_code no_abort no_abort open_house open_house 1 1 50 50 5 77 sack
      sack 9 9 halfway halfway.kitchen (some conflict) none refl receives_lost

abbrev once_approved : OrdersDb
once_approved = record drafted { orders = update_order 5 (approve_by 8 40) drafted.orders }

approves_draft : approve open_house 5 8 40 drafted ≡ ok once_approved
unfolding approve require_status find_order check_policy evaluate_action_policies rules_for_action
    evaluate_rules sort update_order
approves_draft = refl

abbrev once_received : OrdersDb
once_received = db_after once_approved (
    receive new_row some_code no_abort open_house 1 50 5 sack 9 none once_approved
      once_approved.kitchen none)

drafted-IsTold : All IsTold drafted.orders
drafted-IsTold = ((refl, refl), tt)

OrderReach-IsTold_example : All IsTold once_received.orders
OrderReach-IsTold_example = OrderReach-IsTold drafted-IsTold (
    and_order_step (and_order_step no_order_step (approves open_house 5 8 40 approves_draft)) (
      receives_goods new_row some_code no_abort open_house 1 50 5 sack 9 none once_approved.kitchen
        none refl))

-- The cook has created and approved it.
abbrev own_order : PurchaseOrder
own_order = record half_received { created_by = 8 }

plain_cook : includes (roles_of (policy_user house 8).permissions) admin_role ≡ false
unfolding policy_user roles_of distinct
plain_cook = refl

check_policy-refuses_example :
    (own_order.created_by ≡ 8
      → check_policy house approve_action (some 100) own_order 8 ≡ err (http 403 policy_denied))
    × (own_order.approved_by ≡ some 8
        → check_policy house receive_action none own_order 8 ≡ err (http 403 policy_denied))
check_policy-refuses_example = check_policy-refuses house (some 100) own_order 8 refl plain_cook

abbrev wanted : ℕ → ℕ → ResolvedLine
wanted item quantity = record {
  item = item;
  quantity = quantity;
  unit_cost = none;
  notes = none;
  purchase_unit = some 2;
  purchase_factor = some 12000;
  purchase_quantity = some 1000;
  tax_rate_id = none;
  tax_rate = 0;
}

abbrev wishes : List ResolvedLine
wishes = wanted 1 500 ∷ wanted 2 700 ∷ wanted 1 250 ∷ []

merge_lines-requested_of_example :
    IsMerged (merge_lines wishes)
    × ((k : ℕ) → requested_of k (merge_lines wishes) ≡ requested_of k wishes)
merge_lines-requested_of_example = merge_lines-requested_of wishes

-- Two lines of a request that name the same line of the order pass one by one, and together
-- receive more than was ordered.
abbrev twice : List ReceiptLine
twice =
    record { line = 21; quantity = 2000; lot_code = some 4; expires_at = some 90; unit_cost = none }
    ∷ record {
      line = 21;
      quantity = 2000;
      lot_code = some 6;
      expires_at = some 90;
      unit_cost = none;
    }
    ∷ []

over_received :
    check_receipt half_received.lines twice [] >>= (λ r. increment_lines r.1 half_received.lines)
    ≡ ok (order_line 21 3000 5000 ∷ [])
unfolding check_receipt add_increment increment_lines increment_line
over_received = refl

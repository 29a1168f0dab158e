-- ===== src/Kitchen/Orders/Service.antt =====
-- The life of a purchase order up to its receipt (`create`, `update`, `approve`, `send`, `sendEmail`
-- and `cancel` in modules/kitchen/services/purchase-order.service.ts). Audit entries and the
-- rendering of the answer are left out: an operation answers with the row.
use axzy_ptnv_api.Base.{
  Bool, List, Option, [], false, given, if◌then◌else◌, ltb, none, not, or_else, some, suc, true,
  zero, ℕ, ◌&&◌, ◌+◌, ◌==◌, ◌||◌, ◌∷◌,
}
use axzy_ptnv_api.Base.Lists.{any, find, length}
use axzy_ptnv_api.Base.Outcome.{
  Failure, Result, conflict, duplicate, err, http, ok, refused, required, throw_if, ◌>>=◌, ◌>>◌,
}
use axzy_ptnv_api.Kitchen.Errors.{
  KitchenCode, concurrent_update, cost_center_inactive, cost_center_not_found, file_required,
  file_type_pdf, order_email_disabled, order_email_failed, order_recipients, purchase_order_empty,
  purchase_order_has_receipts, purchase_order_invalid_state, purchase_order_not_cancellable,
  purchase_order_not_editable, purchase_order_not_found, supplier_inactive, supplier_not_found,
}
use axzy_ptnv_api.Hotel.Stocktake.Rules.{allowed}
use axzy_ptnv_api.Kitchen.Orders.Lines.{
  LineInput, ResolvedLine, assert_items, merge_lines, order_total, resolve_lines,
}
use axzy_ptnv_api.Kitchen.Orders.Policies.{PolicyContext, approve_action, check_policy}
use axzy_ptnv_api.Kitchen.Orders.Tables.{
  CostCenter, OrderLine, OrderStatus, OrdersDb, PurchaseOrder, approved, cancelled, draft,
  find_order, is_approved, is_cancelled_order, is_draft, is_received, is_sendable, sent,
  update_order,
}
use axzy_ptnv_api.Kitchen.Store.Movement.{throw_taken}
use axzy_ptnv_api.Kitchen.Store.Operations.{find_supplier}
use axzy_ptnv_api.Kitchen.Store.Register.{attempt_run}
use axzy_ptnv_api.Kitchen.Store.Tables.{Supplier}

unfoldable pub assert_supplier : ℕ → List Supplier → Result KitchenCode (Unit {0})
assert_supplier id suppliers = do
  supplier ← required (find_supplier id suppliers) (http 404 supplier_not_found)
  throw_if (not supplier.active) 409 supplier_inactive

unfoldable pub assert_cost_center : Option ℕ → List CostCenter → Result KitchenCode (Unit {0})
assert_cost_center none centers = ok tt
assert_cost_center (some id) centers = elim (id == 0) [
  | true ↦ ok tt
  | false ↦ do
    center ←
        required (find (λ (c : CostCenter). c.id == id) centers) (http 404 cost_center_not_found)
    throw_if (not center.active) 409 cost_center_inactive
]

-- `lineData`, with the row's identifier; nothing of a new line has been received.
abbrev pub line_data : ℕ → ResolvedLine → OrderLine
line_data id l = record {
  id = id;
  item = l.item;
  quantity = l.quantity;
  unit_cost = l.unit_cost;
  received_quantity = 0;
  notes = l.notes;
  purchase_unit = l.purchase_unit;
  purchase_factor = l.purchase_factor;
  purchase_quantity = l.purchase_quantity;
  tax_rate_id = l.tax_rate_id;
  tax_rate = l.tax_rate;
}

-- `new_id` gives the identifiers of the lines of a request.
unfoldable pub lines_data : (ℕ → ℕ) → ℕ → List ResolvedLine → List OrderLine
lines_data new_id n [] = []
lines_data new_id n (l ∷ ls) = line_data (new_id n) l ∷ lines_data new_id (n + 1) ls

pub record CreateInput : Type 0 where
  pub supplier : ℕ
  pub cost_center : Option ℕ
  pub expected_at : Option ℕ
  pub notes : Option ℕ
  pub lines : List LineInput

-- The lines of a request, resolved, merged and checked.
unfoldable pub order_lines : ℕ → List LineInput → OrdersDb → Result KitchenCode (List ResolvedLine)
order_lines supplier inputs db = do
  resolved ← resolve_lines supplier db.supplier_items db.tax_rates db.kitchen.items inputs
  throw_if (length (merge_lines resolved) == 0) 400 purchase_order_empty
  assert_items db.kitchen.items (merge_lines resolved)
  ok (merge_lines resolved)

abbrev pub eqb_number : ℕ × ℕ → ℕ × ℕ → Bool
eqb_number a b = a.0 == b.0 && a.1 == b.1

abbrev pub next_of_year : ℕ → (ℕ → ℕ) → ℕ → ℕ
next_of_year year sequence y = if y == year then sequence y + 1 else sequence y

abbrev pub new_order : ℕ → ℕ × ℕ → CreateInput → List OrderLine → ℕ → PurchaseOrder
new_order id number input lines actor = record {
  id = id;
  number = number;
  supplier = input.supplier;
  cost_center = input.cost_center;
  status = draft;
  expected_at = input.expected_at;
  notes = input.notes;
  created_by = actor;
  approved_by = none;
  approved_at = none;
  sent_at = none;
  lines = lines;
}

-- A primary key that is taken is an error that is not tried again.
abbrev pub refuse_taken : Option PurchaseOrder → Result KitchenCode (Unit {0})
refuse_taken none = ok tt
refuse_taken (some o) = err refused

-- `nextNumber`
abbrev pub next_number : ℕ → OrdersDb → ℕ × ℕ
next_number year db = (year, db.sequence year + 1)

-- The transaction of `create`: the next number of the year, which must be free, and the row.
unfoldable pub create_in_tx :
    (ℕ → ℕ)
    → ℕ
    → ℕ
    → CreateInput
    → List ResolvedLine
    → ℕ
    → OrdersDb
    → Result KitchenCode (PurchaseOrder × OrdersDb)
create_in_tx new_id id year input lines actor db = do
  refuse_taken (find_order id db.orders)
  throw_taken (find (λ (o : PurchaseOrder). eqb_number o.number (next_number year db)) db.orders)
  let order = new_order id (next_number year db) input (lines_data new_id 0 lines) actor
  ok (order, record db { orders = order ∷ db.orders; sequence = next_of_year year db.sequence })

-- `serializable` of the orders: a number that is taken is tried again too.
module _ {A : Type 0} (aborts : ℕ → Option (Failure KitchenCode)) (run : Result KitchenCode A) where
  unfoldable pub order_tx_from : ℕ → ℕ → Result KitchenCode A
  order_tx_from zero n = elim (attempt_run aborts run n) [
    | ok r ↦ ok r
    | err conflict ↦ err (http 409 concurrent_update)
    | err duplicate ↦ err (http 409 concurrent_update)
    | err refused ↦ err refused
    | err (http status code) ↦ err (http status code)
  ]
  order_tx_from (suc left) n = elim (attempt_run aborts run n) [
    | ok r ↦ ok r
    | err conflict ↦ order_tx_from left (n + 1)
    | err duplicate ↦ order_tx_from left (n + 1)
    | err refused ↦ err refused
    | err (http status code) ↦ err (http status code)
  ]

unfoldable pub create :
    (ℕ → Option (Failure KitchenCode))
    → (ℕ → ℕ)
    → ℕ
    → ℕ
    → CreateInput
    → ℕ
    → OrdersDb
    → Result KitchenCode (PurchaseOrder × OrdersDb)
create aborts new_id id year input actor db = do
  assert_supplier input.supplier db.kitchen.suppliers
  assert_cost_center input.cost_center db.cost_centers
  lines ← order_lines input.supplier input.lines db
  order_tx_from aborts (create_in_tx new_id id year input lines actor db) 2 1

-- A field is undefined (none), or has a value, which may be null.
pub record UpdateInput : Type 0 where
  pub supplier : Option ℕ
  pub cost_center : Option (Option ℕ)
  pub expected_at : Option (Option ℕ)
  pub notes : Option (Option ℕ)
  pub lines : Option (List LineInput)

abbrev pub assert_new_supplier : Option ℕ → ℕ → List Supplier → Result KitchenCode (Unit {0})
assert_new_supplier none current suppliers = ok tt
assert_new_supplier (some id) current suppliers = elim (id == 0 || id == current) [
  | true ↦ ok tt
  | false ↦ assert_supplier id suppliers
]

abbrev pub assert_new_cost_center :
    Option (Option ℕ) → List CostCenter → Result KitchenCode (Unit {0})
assert_new_cost_center none centers = ok tt
assert_new_cost_center (some id) centers = assert_cost_center id centers

unfoldable pub updated_lines :
    ℕ → Option (List LineInput) → OrdersDb → Result KitchenCode (Option (List ResolvedLine))
updated_lines supplier none db = ok none
updated_lines supplier (some inputs) db =
    order_lines supplier inputs db >>= λ lines. ok (some lines)

unfoldable pub edit_order :
    (ℕ → ℕ) → UpdateInput → Option (List ResolvedLine) → PurchaseOrder → PurchaseOrder
edit_order new_id input lines o = record o {
  supplier = if given input.supplier then or_else input.supplier o.supplier else o.supplier;
  cost_center = or_else input.cost_center o.cost_center;
  expected_at = or_else input.expected_at o.expected_at;
  notes = or_else input.notes o.notes;
  lines = (elim lines [ none ↦ o.lines | some ls ↦ lines_data new_id 0 ls ]);
}

unfoldable pub update : (ℕ → ℕ) → ℕ → UpdateInput → OrdersDb → Result KitchenCode OrdersDb
update new_id id input db = do
  order ← required (find_order id db.orders) (http 404 purchase_order_not_found)
  throw_if (not (is_draft order.status)) 409 purchase_order_not_editable
  assert_new_supplier input.supplier order.supplier db.kitchen.suppliers
  assert_new_cost_center input.cost_center db.cost_centers
  lines ← updated_lines (or_else input.supplier order.supplier) input.lines db
  ok (record db { orders = update_order id (edit_order new_id input lines) db.orders })

-- `requireStatus`
unfoldable pub require_status :
    ℕ → (OrderStatus → Bool) → List PurchaseOrder → Result KitchenCode PurchaseOrder
require_status id allowed orders = do
  order ← required (find_order id orders) (http 404 purchase_order_not_found)
  throw_if (not (allowed order.status)) 409 purchase_order_invalid_state
  ok order

abbrev pub approve_by : ℕ → ℕ → PurchaseOrder → PurchaseOrder
approve_by actor now o = record o {
  status = approved;
  approved_by = some actor;
  approved_at = some now;
}

unfoldable pub approve : PolicyContext → ℕ → ℕ → ℕ → OrdersDb → Result KitchenCode OrdersDb
approve c id actor now db = do
  order ← require_status id is_draft db.orders
  check_policy c approve_action (some (order_total order.lines)) order actor
  ok (record db { orders = update_order order.id (approve_by actor now) db.orders })

abbrev pub mark_sent : ℕ → PurchaseOrder → PurchaseOrder
mark_sent now o = record o { status = sent; sent_at = some now }

unfoldable pub send : ℕ → ℕ → OrdersDb → Result KitchenCode OrdersDb
send id now db = do
  order ← require_status id is_approved db.orders
  ok (record db { orders = update_order order.id (mark_sent now) db.orders })

-- What `sendEmail` learns from the mail system: whether there is a file and it is a PDF, the
-- addresses that `parseEmailRecipients` reads, whether mail is switched on, how the upload of the
-- file ends and whether the mail was queued.
pub record Mailing : Type 0 where
  pub file_is_pdf : Option Bool
  pub recipients : Option (List ℕ)
  pub enabled : Bool
  pub uploaded : Result KitchenCode (Unit {0})
  pub queued : Bool

unfoldable pub send_email : ℕ → Mailing → ℕ → OrdersDb → Result KitchenCode OrdersDb
send_email id mailing now db = do
  order ← require_status id is_sendable db.orders
  is_pdf ← required mailing.file_is_pdf (http 400 file_required)
  throw_if (not is_pdf) 400 file_type_pdf
  recipients ← required mailing.recipients (http 400 order_recipients)
  throw_if (not mailing.enabled) 409 order_email_disabled
  mailing.uploaded
  throw_if (not mailing.queued) 503 order_email_failed
  ok (record db { orders = update_order id (mark_sent now) db.orders })

abbrev pub cancel_with : Option ℕ → PurchaseOrder → PurchaseOrder
cancel_with notes o = record o {
  status = cancelled;
  notes = if given notes then notes else o.notes;
}

abbrev pub has_receipt : OrderLine → Bool
has_receipt l = ltb 0 l.received_quantity

-- An order that is cancelled already stays as it is.
unfoldable pub cancel : ℕ → Option ℕ → OrdersDb → Result KitchenCode OrdersDb
cancel id notes db = do
  order ← required (find_order id db.orders) (http 404 purchase_order_not_found)
  elim (is_cancelled_order order.status) [
    | true ↦ ok db
    | false ↦ do
      throw_if (is_received order.status) 409 purchase_order_not_cancellable
      throw_if (any has_receipt order.lines) 409 purchase_order_has_receipts
      ok (record db { orders = update_order id (cancel_with notes) db.orders })
  ]

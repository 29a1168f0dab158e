-- ===== src/Kitchen/Orders/Reach.antt =====
-- The states that purchase orders go through.
pub mod Kept
pub mod Told
use mathlib.Core.Path.{subst}
use axzy_ptnv_api.Base.{
  Bool, Bool-cases, List, Option, [], ap, arith, false, inl, inr, none, not, or_else, refl, some,
  sym, true, ℕ, ◌+◌, ◌∙◌, ◌∷◌, ◌≡◌,
}
use axzy_ptnv_api.Base.Lists.{All, all, any, find}
use axzy_ptnv_api.Base.Outcome.{>>=-eq-ok, Failure, Result, err, http, ok, required, throw_if}
use axzy_ptnv_api.Kitchen.Errors.{
  KitchenCode, file_required, file_type_pdf, order_email_disabled, order_email_failed,
  order_recipients, purchase_order_has_receipts, purchase_order_invalid_state,
  purchase_order_not_cancellable, purchase_order_not_editable, purchase_order_not_found,
}
use axzy_ptnv_api.Hotel.Housekeeping.Service.{later}
use axzy_ptnv_api.Hotel.Stocktake.Rules.{allowed}
use axzy_ptnv_api.Kitchen.Orders.Lines.{ResolvedLine, order_total}
use axzy_ptnv_api.Kitchen.Orders.Policies.{PolicyContext, approve_action, check_policy}
use axzy_ptnv_api.Kitchen.Orders.Receipt.{ReceiptLine, db_after, is_complete, receive}
use axzy_ptnv_api.Kitchen.Orders.Rows.{All-update_order, find_order-id}
use axzy_ptnv_api.Kitchen.Orders.Service.{
  CreateInput, Mailing, UpdateInput, approve, approve_by, assert_cost_center,
  assert_new_cost_center, assert_new_supplier, assert_supplier, cancel, cancel_with, create,
  create_in_tx, edit_order, eqb_number, has_receipt, lines_data, mark_sent, new_order, next_number,
  next_of_year, order_lines, order_tx_from, refuse_taken, require_status, send, send_email, update,
  updated_lines,
}
use axzy_ptnv_api.Kitchen.Orders.Tables.{
  OrderStatus, OrdersDb, PurchaseOrder, approved, cancelled, draft, find_order, is_approved,
  is_cancelled_order, is_draft, is_receivable, is_received, is_sendable, partially_received,
  received, sent, update_order,
}
use axzy_ptnv_api.Kitchen.Store.Movement.{throw_taken}
use axzy_ptnv_api.Kitchen.Store.Register.{attempt_run}
use axzy_ptnv_api.Kitchen.Store.Tables.{KitchenDb, Lot}
-- One operation that goes through, or a receipt in whatever way it ends.
use mathlib.Core.Path.{subst}
use axzy_ptnv_api.Base.{
  Bool, Bool-cases, List, Option, [], ap, arith, false, inl, inr, none, not, or_else, refl, some,
  sym, true, ℕ, ◌+◌, ◌∙◌, ◌∷◌, ◌≡◌,
}
use axzy_ptnv_api.Base.Lists.{All, all, any, find}
use axzy_ptnv_api.Base.Outcome.{>>=-eq-ok, Failure, Result, err, http, ok, required, throw_if}
use axzy_ptnv_api.Kitchen.Errors.{
  KitchenCode, file_required, file_type_pdf, order_email_disabled, order_email_failed,
  order_recipients, purchase_order_has_receipts, purchase_order_invalid_state,
  purchase_order_not_cancellable, purchase_order_not_editable, purchase_order_not_found,
}
use axzy_ptnv_api.Hotel.Stocktake.Rules.{allowed}
use axzy_ptnv_api.Kitchen.Orders.Lines.{ResolvedLine, order_total}
use axzy_ptnv_api.Kitchen.Orders.Policies.{PolicyContext, approve_action, check_policy}
use axzy_ptnv_api.Kitchen.Orders.Receipt.{ReceiptLine, db_after, is_complete, receive}
use axzy_ptnv_api.Kitchen.Orders.Rows.{All-update_order, find_order-id}
use axzy_ptnv_api.Kitchen.Orders.Service.{
  CreateInput, Mailing, UpdateInput, approve, approve_by, assert_cost_center,
  assert_new_cost_center, assert_new_supplier, assert_supplier, cancel, cancel_with, create,
  create_in_tx, edit_order, eqb_number, has_receipt, lines_data, mark_sent, new_order, next_number,
  next_of_year, order_lines, order_tx_from, refuse_taken, require_status, send, send_email, update,
  updated_lines,
}
use axzy_ptnv_api.Kitchen.Orders.Tables.{
  OrderStatus, OrdersDb, PurchaseOrder, approved, cancelled, draft, find_order, is_approved,
  is_cancelled_order, is_draft, is_receivable, is_received, is_sendable, partially_received,
  received, sent, update_order,
}
use axzy_ptnv_api.Kitchen.Store.Movement.{throw_taken}
use axzy_ptnv_api.Kitchen.Store.Register.{attempt_run}
use axzy_ptnv_api.Kitchen.Store.Tables.{KitchenDb, Lot}

pub data OrderStep (db db' : OrdersDb) : Type 1 where
  creates :
      (aborts : ℕ → Option (Failure KitchenCode)) (new_id : ℕ → ℕ) (id year : ℕ)
      (input : CreateInput) (actor : ℕ) (o : PurchaseOrder)
      → create aborts new_id id year input actor db ≡ ok (o, db')
      → OrderStep db db'
  updates :
      (new_id : ℕ → ℕ) (id : ℕ) (input : UpdateInput)
      → update new_id id input db ≡ ok db'
      → OrderStep db db'
  approves :
      (c : PolicyContext) (id actor now : ℕ) → approve c id actor now db ≡ ok db' → OrderStep db db'
  sends : (id now : ℕ) → send id now db ≡ ok db' → OrderStep db db'
  mails :
      (id : ℕ) (mailing : Mailing) (now : ℕ)
      → send_email id mailing now db ≡ ok db'
      → OrderStep db db'
  cancels : (id : ℕ) (notes : Option ℕ) → cancel id notes db ≡ ok db' → OrderStep db db'
  receives_goods :
      (new_id : ℕ → ℕ) (next_code : ℕ → List Lot → ℕ) (aborts : ℕ → Option (Failure KitchenCode))
      (c : PolicyContext) (movement received_at id : ℕ) (lines : List ReceiptLine) (actor : ℕ)
      (request : Option ℕ) (later : KitchenDb) (lost : Option (Failure KitchenCode))
      → db_after db (
          receive new_id next_code aborts c movement received_at id lines actor request db later
            lost)
        ≡ db'
      → OrderStep db db'

pub data OrderReach (db : OrdersDb) : OrdersDb → Type 1 where
  no_order_step : OrderReach db db
  and_order_step : {mid db' : OrdersDb} → OrderReach db mid → OrderStep mid db' → OrderReach db db'

abbrev pub IsUnreceived : PurchaseOrder → Type 0
IsUnreceived o = any has_receipt o.lines ≡ false

abbrev pub IsApprovedBySomeone : PurchaseOrder → Type 0
IsApprovedBySomeone o = (actor : ℕ) × (o.approved_by ≡ some actor)

-- What the status of an order says: whether someone has approved it, and what its lines have received.
abbrev pub StatusOf : OrderStatus → PurchaseOrder → Type 0
StatusOf draft o = IsUnreceived o × (o.approved_by ≡ none)
StatusOf approved o = IsUnreceived o × IsApprovedBySomeone o
StatusOf sent o = IsUnreceived o × IsApprovedBySomeone o
StatusOf partially_received o = (all is_complete o.lines ≡ false) × IsApprovedBySomeone o
StatusOf received o = (all is_complete o.lines ≡ true) × IsApprovedBySomeone o
StatusOf cancelled o = IsUnreceived o

abbrev pub IsTold : PurchaseOrder → Type 0
IsTold o = StatusOf o.status o

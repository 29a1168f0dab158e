-- ===== src/Kitchen/Orders/Reach/Kept.antt =====
-- What each operation on a purchase order keeps.
use mathlib.Core.Path.{subst}
use axzy_ptnv_api.Base.{
  Bool, Bool-cases, List, Option, [], ap, arith, false, inl, inr, none, not, or_else, refl, some,
  sym, true, ℕ, ◌+◌, ◌∙◌, ◌∷◌, ◌≡◌,
}
use axzy_ptnv_api.Base.Lists.{All, any, find}
use axzy_ptnv_api.Base.Outcome.{>>=-eq-ok, Failure, Result, err, http, ok, required, throw_if}
use axzy_ptnv_api.Kitchen.Errors.{
  KitchenCode, file_required, file_type_pdf, order_email_disabled, order_email_failed,
  order_recipients, purchase_order_has_receipts, purchase_order_invalid_state,
  purchase_order_not_cancellable, purchase_order_not_editable, purchase_order_not_found,
}
use axzy_ptnv_api.Hotel.Stocktake.Rules.{allowed}
use axzy_ptnv_api.Kitchen.Orders.Lines.{ResolvedLine, order_total}
use axzy_ptnv_api.Kitchen.Orders.Policies.{PolicyContext, approve_action, check_policy}
use axzy_ptnv_api.Kitchen.Orders.Reach.{IsApprovedBySomeone, IsTold, StatusOf}
use axzy_ptnv_api.Kitchen.Orders.Rows.{All-update_order, find_order-id}
use axzy_ptnv_api.Kitchen.Orders.Service.{
  CreateInput, Mailing, UpdateInput, approve, approve_by, assert_cost_center,
  assert_new_cost_center, assert_new_supplier, assert_supplier, cancel, cancel_with, create,
  create_in_tx, edit_order, eqb_number, has_receipt, lines_data, mark_sent, new_order, next_number,
  next_of_year, order_lines, order_tx_from, refuse_taken, require_status, send, send_email, update,
  updated_lines,
}
use axzy_ptnv_api.Kitchen.Orders.Tables.{
  OrderStatus, OrdersDb, PurchaseOrder, approved, cancelled, draft, find_order, is_approved,
  is_cancelled_order, is_draft, is_receivable, is_received, is_sendable, partially_received,
  received, sent, update_order,
}
use axzy_ptnv_api.Kitchen.Store.Movement.{throw_taken}
use axzy_ptnv_api.Kitchen.Store.Register.{attempt_run}

lines_data-IsUnreceived :
    (new_id : ℕ → ℕ) (n : ℕ) (lines : List ResolvedLine)
    → any has_receipt (lines_data new_id n lines) ≡ false
unfolding lines_data
lines_data-IsUnreceived new_id n [] = refl
lines_data-IsUnreceived new_id n (l ∷ ls) = lines_data-IsUnreceived new_id (n + 1) ls

order_tx_from-ok :
    (aborts : ℕ → Option (Failure KitchenCode))
    (run : Result KitchenCode (PurchaseOrder × OrdersDb)) {r : PurchaseOrder × OrdersDb}
    → order_tx_from aborts run 2 1 ≡ ok r
    → run ≡ ok r
unfolding order_tx_from attempt_run
order_tx_from-ok aborts (ok q) h = ground arith
order_tx_from-ok aborts (err e) h = ground arith

pub creates-IsTold :
    (aborts : ℕ → Option (Failure KitchenCode)) (new_id : ℕ → ℕ) (id year : ℕ) (input : CreateInput)
    (actor : ℕ) (db : OrdersDb) {r : PurchaseOrder × OrdersDb}
    → All IsTold db.orders
    → create aborts new_id id year input actor db ≡ ok r
    → All IsTold r.1.orders
unfolding create create_in_tx
creates-IsTold aborts new_id id year input actor db {r} told h =
    let (u1, s, h1) = >>=-eq-ok (assert_supplier input.supplier db.kitchen.suppliers) _ h in
    let (u2, t, h2) = >>=-eq-ok (assert_cost_center input.cost_center db.cost_centers) _ h1 in
    let (lines, l, h3) = >>=-eq-ok (order_lines input.supplier input.lines db) _ h2 in
    let went = order_tx_from-ok aborts (create_in_tx new_id id year input lines actor db) h3 in
    let (u4, fresh, h4) = >>=-eq-ok (refuse_taken (find_order id db.orders)) _ went in
    let (u5, free, h5) =
      >>=-eq-ok
        (throw_taken
          (find (λ (o : PurchaseOrder). eqb_number o.number (next_number year db)) db.orders))
        _ h4 in
    let order = new_order id (next_number year db) input (lines_data new_id 0 lines) actor in
    let end : ◌≡◌ {A = PurchaseOrder × OrdersDb}
        (order, record db { orders = order ∷ db.orders; sequence = next_of_year year db.sequence })
        r =
      cc in
    rw (← end) ((lines_data-IsUnreceived new_id 0 lines, refl), told)

-- What is known of an order in the states that an operation may start from.
draft_told :
    (s : OrderStatus) (o : PurchaseOrder) → is_draft s ≡ true → StatusOf s o → StatusOf draft o
draft_told draft o d told = told
draft_told approved o d told = cc
draft_told sent o d told = cc
draft_told partially_received o d told = cc
draft_told received o d told = cc
draft_told cancelled o d told = cc

sendable_told :
    (s : OrderStatus) (o : PurchaseOrder) → is_sendable s ≡ true → StatusOf s o → StatusOf sent o
sendable_told draft o d told = cc
sendable_told approved o d told = told
sendable_told sent o d told = told
sendable_told partially_received o d told = cc
sendable_told received o d told = cc
sendable_told cancelled o d told = cc

approved_sendable : (s : OrderStatus) → is_approved s ≡ true → is_sendable s ≡ true
approved_sendable s h = ground arith

pub receivable_told :
    (s : OrderStatus) (o : PurchaseOrder)
    → is_receivable s ≡ true
    → StatusOf s o
    → IsApprovedBySomeone o
receivable_told draft o d told = cc
receivable_told approved o d told = told.1
receivable_told sent o d told = told.1
receivable_told partially_received o d told = told.1
receivable_told received o d told = cc
receivable_told cancelled o d told = cc

edit_order-IsTold :
    (new_id : ℕ → ℕ) (input : UpdateInput) (lines : Option (List ResolvedLine)) (o : PurchaseOrder)
    → is_draft o.status ≡ true
    → IsTold o
    → IsTold (edit_order new_id input lines o)
unfolding edit_order
edit_order-IsTold new_id input lines o d told =
    still o.status _ d (fresh lines, (draft_told o.status o d told).1)
  where
    fresh :
        (ls : Option (List ResolvedLine))
        → any has_receipt (elim ls [ none ↦ o.lines | some rs ↦ lines_data new_id 0 rs ]) ≡ false
    fresh none = (draft_told o.status o d told).0
    fresh (some rs) = lines_data-IsUnreceived new_id 0 rs

    still :
        (s : OrderStatus) (x : PurchaseOrder) → is_draft s ≡ true → StatusOf draft x → StatusOf s x
    still draft x q t = t
    still approved x q t = cc
    still sent x q t = cc
    still partially_received x q t = cc
    still received x q t = cc
    still cancelled x q t = cc

-- The order that an operation has found in a status that it may start from.
require_status-found :
    (id : ℕ) (allowed : OrderStatus → Bool) (orders : List PurchaseOrder) {o : PurchaseOrder}
    → require_status id allowed orders ≡ ok o
    → (find_order id orders ≡ some o) × (allowed o.status ≡ true)
unfolding require_status
require_status-found id allowed orders {o} h =
    let (x, there, h1) =
      >>=-eq-ok (required (find_order id orders) (http 404 purchase_order_not_found)) _ h in
    let (u, status, h2) =
      >>=-eq-ok (throw_if (not (allowed x.status)) 409 purchase_order_invalid_state) _ h1 in
    let same : x ≡ o = cc in
    let found : find_order id orders ≡ some x = ground arith in
    (
      found ∙ ap some same,
      ap (λ (y : PurchaseOrder). allowed y.status) (sym same) ∙ open_to (allowed x.status) status,
    )
  where
    open_to :
        (b : Bool) {v : Unit {0}}
        → throw_if (not b) 409 purchase_order_invalid_state ≡ ok v
        → b ≡ true
    open_to b q = ground arith

own_id_found :
    (id : ℕ) (orders : List PurchaseOrder) {o : PurchaseOrder}
    → find_order id orders ≡ some o
    → find_order o.id orders ≡ some o
own_id_found id orders f = ap (λ i. find_order i orders) (find_order-id id orders f) ∙ f

module _ (db : OrdersDb) (told : All IsTold db.orders) where
  pub updates-IsTold :
      (new_id : ℕ → ℕ) (id : ℕ) (input : UpdateInput) {db' : OrdersDb}
      → update new_id id input db ≡ ok db'
      → All IsTold db'.orders
  unfolding update
  updates-IsTold new_id id input {db'} h =
      let (o, there, h1) =
        >>=-eq-ok (required (find_order id db.orders) (http 404 purchase_order_not_found)) _ h in
      let (u1, status, h2) =
        >>=-eq-ok (throw_if (not (is_draft o.status)) 409 purchase_order_not_editable) _ h1 in
      let (u2, s, h3) =
        >>=-eq-ok (assert_new_supplier input.supplier o.supplier db.kitchen.suppliers) _ h2 in
      let (u3, c, h4) = >>=-eq-ok (assert_new_cost_center input.cost_center db.cost_centers) _ h3 in
      let (lines, l, h5) =
        >>=-eq-ok (updated_lines (or_else input.supplier o.supplier) input.lines db) _ h4 in
      let end : record db { orders = update_order id (edit_order new_id input lines) db.orders }
          ≡ db' =
        cc in
      let found : find_order id db.orders ≡ some o = ground arith in
      let is_open : is_draft o.status ≡ true = open_to (is_draft o.status) status in
      subst (λ (x : OrdersDb). All IsTold x.orders) end
        (All-update_order IsTold id (edit_order new_id input lines) db.orders found
          (edit_order-IsTold new_id input lines o is_open) told)
    where
      open_to :
          (b : Bool) {v : Unit {0}}
          → throw_if (not b) 409 purchase_order_not_editable ≡ ok v
          → b ≡ true
      open_to b q = ground arith

  pub approves-IsTold :
      (c : PolicyContext) (id actor now : ℕ) {db' : OrdersDb}
      → approve c id actor now db ≡ ok db'
      → All IsTold db'.orders
  unfolding approve
  approves-IsTold c id actor now {db'} h =
      let (o, there, h1) = >>=-eq-ok (require_status id is_draft db.orders) _ h in
      let (u, allowed, h2) =
        >>=-eq-ok (check_policy c approve_action (some (order_total o.lines)) o actor) _ h1 in
      let (found, status) = require_status-found id is_draft db.orders there in
      let end : record db { orders = update_order o.id (approve_by actor now) db.orders } ≡ db' =
        cc in
      subst (λ (x : OrdersDb). All IsTold x.orders) end
        (All-update_order IsTold o.id (approve_by actor now) db.orders
          (own_id_found id db.orders found)
          (λ t. ((draft_told o.status o status t).0, (actor, refl))) told)

  pub sends-IsTold : (id now : ℕ) {db' : OrdersDb} → send id now db ≡ ok db' → All IsTold db'.orders
  unfolding send
  sends-IsTold id now {db'} h =
      let (o, there, h1) = >>=-eq-ok (require_status id is_approved db.orders) _ h in
      let (found, status) = require_status-found id is_approved db.orders there in
      let end : record db { orders = update_order o.id (mark_sent now) db.orders } ≡ db' = cc in
      subst (λ (x : OrdersDb). All IsTold x.orders) end
        (All-update_order IsTold o.id (mark_sent now) db.orders (own_id_found id db.orders found)
          (sendable_told o.status o (approved_sendable o.status status)) told)

  pub mails-IsTold :
      (id : ℕ) (mailing : Mailing) (now : ℕ) {db' : OrdersDb}
      → send_email id mailing now db ≡ ok db'
      → All IsTold db'.orders
  unfolding send_email
  mails-IsTold id mailing now {db'} h =
      let (o, there, h1) = >>=-eq-ok (require_status id is_sendable db.orders) _ h in
      let (pdf, f, h2) = >>=-eq-ok (required mailing.file_is_pdf (http 400 file_required)) _ h1 in
      let (u3, p, h3) = >>=-eq-ok (throw_if (not pdf) 400 file_type_pdf) _ h2 in
      let (to, r, h4) = >>=-eq-ok (required mailing.recipients (http 400 order_recipients)) _ h3 in
      let (u5, e, h5) = >>=-eq-ok (throw_if (not mailing.enabled) 409 order_email_disabled) _ h4 in
      let (u6, s, h6) = >>=-eq-ok mailing.uploaded _ h5 in
      let (u7, q, h7) = >>=-eq-ok (throw_if (not mailing.queued) 503 order_email_failed) _ h6 in
      let (found, status) = require_status-found id is_sendable db.orders there in
      let end : record db { orders = update_order id (mark_sent now) db.orders } ≡ db' = cc in
      subst (λ (x : OrdersDb). All IsTold x.orders) end
        (All-update_order IsTold id (mark_sent now) db.orders found
          (sendable_told o.status o status) told)

  pub cancels-IsTold :
      (id : ℕ) (notes : Option ℕ) {db' : OrdersDb}
      → cancel id notes db ≡ ok db'
      → All IsTold db'.orders
  unfolding cancel
  cancels-IsTold id notes {db'} h =
      let (o, there, h1) =
        >>=-eq-ok (required (find_order id db.orders) (http 404 purchase_order_not_found)) _ h in
      elim (Bool-cases (is_cancelled_order o.status)) [
        | inl gone ↦
            let same : ok db ≡ ok db' = rw gone at h1 in
            let tables : db ≡ db' = cc in subst (λ (x : OrdersDb). All IsTold x.orders) tables told
        | inr on ↦
            let h2 = rw on at h1 in
            let (u1, a, h3) =
              >>=-eq-ok (throw_if (is_received o.status) 409 purchase_order_not_cancellable) _ h2 in
            let (u2, b, h4) =
              >>=-eq-ok (throw_if (any has_receipt o.lines) 409 purchase_order_has_receipts) _ h3 in
            let end : record db { orders = update_order id (cancel_with notes) db.orders } ≡ db' =
              cc in
            let found : find_order id db.orders ≡ some o = ground arith in
            subst (λ (x : OrdersDb). All IsTold x.orders) end
              (All-update_order IsTold id (cancel_with notes) db.orders found
                (λ t. unreceived (any has_receipt o.lines) b) told)
      ]
    where
      unreceived :
          (b : Bool) {v : Unit {0}} → throw_if b 409 purchase_order_has_receipts ≡ ok v → b ≡ false
      unreceived b q = ground arith

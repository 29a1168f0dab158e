-- ===== src/Kitchen/Orders/Reach/Told.antt =====
-- In every state that is reached, the status of an order tells what its lines have received and
-- whether someone has approved it.
use mathlib.Core.Path.{subst}
use axzy_ptnv_api.Base.{
  Bool-cases, List, Option, ap, inl, inr, none, refl, some, sym, true, ℕ, ◌==◌, ◌∙◌, ◌≡◌,
}
use axzy_ptnv_api.Base.Lists.{All, In-All, all, find_sound}
use axzy_ptnv_api.Base.Outcome.{Failure, Result, Result-cases, ok}
use axzy_ptnv_api.Kitchen.Errors.{KitchenCode}
use axzy_ptnv_api.Hotel.Housekeeping.Service.{later}
use axzy_ptnv_api.Kitchen.Orders.Policies.{PolicyContext}
use axzy_ptnv_api.Kitchen.Orders.Reach.{
  IsTold, OrderReach, OrderStep, and_order_step, approves, cancels, creates, mails, no_order_step,
  receives_goods, sends, updates,
}
use axzy_ptnv_api.Kitchen.Orders.Receipt.{
  ReceiptEnd, ReceiptLine, count_on, count_receipt, db_after, end_of, is_complete, lost_or, receive,
}
use axzy_ptnv_api.Kitchen.Orders.Rows.{All-update_order}
use axzy_ptnv_api.Kitchen.Orders.Tables.{
  OrderLine, OrdersDb, PurchaseOrder, find_order, is_receivable,
}
use axzy_ptnv_api.Kitchen.Store.Tables.{KitchenDb, Lot}
use axzy_ptnv_api.Kitchen.Orders.Reach.Kept.{
  approves-IsTold, cancels-IsTold, creates-IsTold, mails-IsTold, receivable_told, sends-IsTold,
  updates-IsTold,
}
use axzy_ptnv_api.Kitchen.Orders.Receipt.Ends.{receive-cases}
use axzy_ptnv_api.Kitchen.Orders.Receipt.Laws.{count_receipt-counted, receipt_lines-checked}
use axzy_ptnv_api.Kitchen.Store.Soundness.Counts.{counted}

count_on-IsTold :
    (lines : List OrderLine) (o : PurchaseOrder)
    → is_receivable o.status ≡ true
    → IsTold o
    → IsTold (count_on lines o)
count_on-IsTold lines o open_to told = elim (Bool-cases (all is_complete lines)) [
  | inl complete ↦ rw complete (complete, receivable_told o.status o open_to told)
  | inr missing ↦ rw missing (missing, receivable_told o.status o open_to told)
]

found-IsTold :
    (id : ℕ) (orders : List PurchaseOrder) {o : PurchaseOrder}
    → find_order id orders ≡ some o
    → All IsTold orders
    → IsTold o
unfolding find_order
found-IsTold id orders {o} f told =
    In-All IsTold o orders (find_sound (λ (x : PurchaseOrder). x.id == id) orders f).0 told

module _ (new_id : ℕ → ℕ) (next_code : ℕ → List Lot → ℕ)
    (aborts : ℕ → Option (Failure KitchenCode)) where
  receives-IsTold :
      (c : PolicyContext) (movement received_at id : ℕ) (lines : List ReceiptLine) (actor : ℕ)
      (request : Option ℕ) (db : OrdersDb) (later : KitchenDb) (lost : Option (Failure KitchenCode))
      (end : ReceiptEnd)
      → All IsTold db.orders
      → receive new_id next_code aborts c movement received_at id lines actor request db later lost
        ≡ end
      → All IsTold (db_after db end).orders
  receives-IsTold c movement received_at id lines actor request db later lost end told h =
      elim (receive-cases new_id next_code aborts c movement received_at id lines actor request db
        later lost h) [
          | inl (e, same) ↦ subst after_it (sym same) told
          | inr (inl (m, same, p, o, found)) ↦ subst after_it (sym same) told
          | inr (inr s) ↦
              elim (Result-cases (
                lost_or new_id next_code aborts lost
                  (count_receipt id s.increments (record db { kitchen = s.kitchen })))) [
                    | inr (e, failed) ↦
                        subst after_it
                          (sym (
                            s.ends
                            ∙ ap (end_of s.movement_of (record db { kitchen = s.kitchen })) failed))
                          told
                    | inl (x, went) ↦
                        let same =
                          s.ends
                          ∙ ap (end_of s.movement_of (record db { kitchen = s.kitchen })) went in
                        let through = not_lost lost _ went in
                        let (lines', counted, is_db) =
                          count_receipt-counted id s.increments (record db { kitchen = s.kitchen })
                            s.order s.found through in
                        let (status, checked) =
                          receipt_lines-checked new_id next_code aborts c s.order lines actor
                            s.passed in
                        subst after_it (sym same) (
                          subst (λ (y : OrdersDb). All IsTold y.orders) is_db
                            (All-update_order IsTold id (count_on lines') db.orders s.found
                              (count_on-IsTold lines' s.order status) told))
                  ]
        ]
    where
      after_it : ReceiptEnd → Type 0
      after_it e = All IsTold (db_after db e).orders

      not_lost :
          (o : Option (Failure KitchenCode)) (r : Result KitchenCode OrdersDb) {y : OrdersDb}
          → lost_or new_id next_code aborts o r ≡ ok y
          → r ≡ ok y
      not_lost none r q = q
      not_lost (some e) r q = cc

OrderStep-IsTold :
    {db db' : OrdersDb} → All IsTold db.orders → OrderStep db db' → All IsTold db'.orders
OrderStep-IsTold {db} t (creates aborts new_id id year input actor o h) =
    creates-IsTold aborts new_id id year input actor db t h
OrderStep-IsTold {db} t (updates new_id id input h) = updates-IsTold db t new_id id input h
OrderStep-IsTold {db} t (approves c id actor now h) = approves-IsTold db t c id actor now h
OrderStep-IsTold {db} t (sends id now h) = sends-IsTold db t id now h
OrderStep-IsTold {db} t (mails id mailing now h) = mails-IsTold db t id mailing now h
OrderStep-IsTold {db} t (cancels id notes h) = cancels-IsTold db t id notes h
OrderStep-IsTold {db} t
      (receives_goods new_id next_code aborts c movement received_at id lines actor request later
        lost h) =
    subst (λ (x : OrdersDb). All IsTold x.orders) h
      (receives-IsTold new_id next_code aborts c movement received_at id lines actor request db
        later lost _ t refl)

-- In every state that the operations on purchase orders lead to, receipts that stocked goods
-- without counting them included, from one where it is so: an order that nobody has approved is
-- a draft or cancelled; drafts and cancelled, approved and sent orders have received nothing; a
-- received order has only complete lines, and a partially received one has a line that is not.
pub OrderReach-IsTold :
    {db db' : OrdersDb} → All IsTold db.orders → OrderReach db db' → All IsTold db'.orders
OrderReach-IsTold t no_order_step = t
OrderReach-IsTold t (and_order_step r s) = OrderStep-IsTold (OrderReach-IsTold t r) s

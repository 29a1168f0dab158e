-- ===== src/Kitchen/Orders/Receipt/Laws.antt =====
-- What a receipt leaves: lines that have received no more than was ordered, as much on the lines as in
-- the stock, and an answer to those who ask again.
use mathlib.Core.Path.{subst}
use axzy_ptnv_api.Base.{
  Bool, List, Option, [], ap, arith, if◌then◌else◌, inl, inr, none, not, refl, some, sym, true, ℕ,
  ◌+◌, ◌∙◌, ◌≡◌,
}
use axzy_ptnv_api.Base.Int.{pos, ◌+ℤ◌}
use axzy_ptnv_api.Base.Lists.{All, all}
use axzy_ptnv_api.Base.Outcome.{>>=-eq-ok, Failure, Result, err, ok, refused, required, throw_if}
use axzy_ptnv_api.Kitchen.Errors.{KitchenCode, purchase_order_not_receivable}
use axzy_ptnv_api.Hotel.Housekeeping.Service.{later}
use axzy_ptnv_api.Hotel.Stocktake.Rules.{allowed}
use axzy_ptnv_api.Kitchen.Orders.Policies.{PolicyContext, check_policy, receive_action}
use axzy_ptnv_api.Kitchen.Orders.Receipt.{
  ReceiptLine, check_receipt, count_on, count_receipt, end_of, goods_counted, increment_lines,
  is_complete, lost_or, previous_receipt, receipt_lines, receive, stock_receipt,
}
use axzy_ptnv_api.Kitchen.Orders.Rows.{find_order-update_order}
use axzy_ptnv_api.Kitchen.Orders.Tables.{
  OrderLine, OrdersDb, PurchaseOrder, find_order, is_receivable, partially_received, received,
  update_order,
}
use axzy_ptnv_api.Kitchen.Store.Operations.{InLine}
use axzy_ptnv_api.Kitchen.Store.Tables.{KitchenDb, KitchenMovement, Lot}
use axzy_ptnv_api.Kitchen.Orders.Receipt.Bounds.{IsWithin, NamesOnce, check_receipt-IsWithin}
use axzy_ptnv_api.Kitchen.Orders.Receipt.Counted.{check_receipt-received_of, received_of}
use axzy_ptnv_api.Kitchen.Orders.Receipt.Ends.{Stocked, receive-cases}
use axzy_ptnv_api.Kitchen.Store.Soundness.Counts.{count_in-sum, counted, counts_of, entered_of}
use axzy_ptnv_api.Kitchen.Store.Soundness.Items.{stock_of}
use axzy_ptnv_api.Kitchen.Store.Soundness.Refined.{stock_in-counts}
use axzy_ptnv_api.Kitchen.Store.Soundness.Replayed.{register-keyless}

-- What a receipt that has stocked the goods has checked.
pub receipt_lines-checked :
    (new_id : ℕ → ℕ) (next_code : ℕ → List Lot → ℕ) (aborts : ℕ → Option (Failure KitchenCode))
    (c : PolicyContext) (order : PurchaseOrder) (lines : List ReceiptLine) (actor : ℕ)
    {r : List InLine × List (ℕ × ℕ)}
    → receipt_lines new_id next_code aborts c order lines actor ≡ ok r
    → (is_receivable order.status ≡ true) × (check_receipt order.lines lines [] ≡ ok r)
unfolding receipt_lines
receipt_lines-checked new_id next_code aborts c order lines actor {r} h =
    let (u, status, h1) =
      >>=-eq-ok (throw_if (not (is_receivable order.status)) 409 purchase_order_not_receivable) _
        h in
    let (u', allowed, h2) = >>=-eq-ok (check_policy c receive_action none order actor) _ h1 in
    (open_to (is_receivable order.status) status, h2)
  where
    open_to :
        (b : Bool) {v : Unit {0}}
        → throw_if (not b) 409 purchase_order_not_receivable ≡ ok v
        → b ≡ true
    open_to b q = ground arith

-- What the second transaction has done.
pub count_receipt-counted :
    (id : ℕ) (increments : List (ℕ × ℕ)) (db : OrdersDb) {db' : OrdersDb} (o : PurchaseOrder)
    → find_order id db.orders ≡ some o
    → count_receipt id increments db ≡ ok db'
    → (lines : List OrderLine) × (increment_lines increments o.lines ≡ ok lines)
      × (record db { orders = update_order id (count_on lines) db.orders } ≡ db')
unfolding count_receipt
count_receipt-counted id increments db {db'} o found h =
    let (x, there, h1) = >>=-eq-ok (required (find_order id db.orders) refused) _ h in
    let (lines, went, h2) = >>=-eq-ok (increment_lines increments x.lines) _ h1 in
    let same : x ≡ o = ground arith in
    (lines, ap (λ (y : PurchaseOrder). increment_lines increments y.lines) (sym same) ∙ went, (cc))

-- The order after a receipt that has gone through.
pub record Counted (lines : List ReceiptLine) (id : ℕ) (before : PurchaseOrder)
    (stocked : List InLine) (db' : OrdersDb) : Type 0 where
  pub increments : List (ℕ × ℕ)
  pub checked : check_receipt before.lines lines [] ≡ ok (stocked, increments)
  pub receivable : is_receivable before.status ≡ true
  pub counted_lines : List OrderLine
  pub went : increment_lines increments before.lines ≡ ok counted_lines
  pub after : find_order id db'.orders ≡ some (count_on counted_lines before)

module _ (new_id : ℕ → ℕ) (next_code : ℕ → List Lot → ℕ)
    (aborts : ℕ → Option (Failure KitchenCode)) where
  pub Stocked-Counted :
      (c : PolicyContext) (movement received_at id : ℕ) (lines : List ReceiptLine) (actor : ℕ)
      (request : Option ℕ) (db : OrdersDb) (later : KitchenDb) (lost : Option (Failure KitchenCode))
      {m : KitchenMovement} {db' : OrdersDb}
      (s : Stocked new_id next_code aborts c movement received_at id lines actor request db later
        lost
        (goods_counted m db'))
      → Counted lines id s.order s.stocked db' × (db'.kitchen ≡ s.kitchen) × (m ≡ s.movement_of)
  Stocked-Counted c movement received_at id lines actor request db later lost {m} {db'} s =
      let stocked_db : OrdersDb = record db { kitchen = s.kitchen } in
      let (counted, same_m) =
        ended s.movement_of stocked_db
          (lost_or new_id next_code aborts lost (count_receipt id s.increments stocked_db))
          s.ends in
      let through = not_lost lost (count_receipt id s.increments stocked_db) counted in
      let (status, checked) =
        receipt_lines-checked new_id next_code aborts c s.order lines actor s.passed in
      let (counted_lines, went, is_db) =
        count_receipt-counted id s.increments stocked_db s.order s.found through in
      (
        record {
          increments = s.increments;
          checked = checked;
          receivable = status;
          counted_lines = counted_lines;
          went = went;
          after =
              ap (λ (x : OrdersDb). find_order id x.orders) (sym is_db)
              ∙ find_order-update_order id (count_on counted_lines) db.orders (λ x. refl) s.found;
        },
        sym (ap (λ (x : OrdersDb). x.kitchen) is_db),
        same_m,
      )
    where
      ended :
          (w : KitchenMovement) (x : OrdersDb) (r : Result KitchenCode OrdersDb)
          → goods_counted m db' ≡ end_of w x r
          → (r ≡ ok db') × (m ≡ w)
      ended w x (ok y) q = ((cc), (cc))
      ended w x (err e) q = cc

      not_lost :
          (o : Option (Failure KitchenCode)) (r : Result KitchenCode OrdersDb)
          → lost_or new_id next_code aborts o r ≡ ok db'
          → r ≡ ok db'
      not_lost none r q = q
      not_lost (some e) r q = cc

  -- A receipt that goes through leaves no line of its order that has received more than was
  -- ordered, if there was none before and the request names each line once.
  pub receive-IsWithin :
      (c : PolicyContext) (movement received_at id : ℕ) (lines : List ReceiptLine) (actor : ℕ)
      (request : Option ℕ) (db : OrdersDb) (later : KitchenDb) (lost : Option (Failure KitchenCode))
      (o : PurchaseOrder) {m : KitchenMovement} {db' : OrdersDb}
      → NamesOnce lines
      → find_order id db.orders ≡ some o
      → All IsWithin o.lines
      → receive new_id next_code aborts c movement received_at id lines actor request db later lost
        ≡ goods_counted m db'
      → (o' : PurchaseOrder) × (find_order id db'.orders ≡ some o') × All IsWithin o'.lines
  receive-IsWithin c movement received_at id lines actor request db later lost o {m} {db'} once
        found w h =
      elim (receive-cases new_id next_code aborts c movement received_at id lines actor request db
        later lost h) [
          | inl (e, bad) ↦ cc
          | inr (inl (m', same, p, o', found')) ↦
              let unchanged : db' ≡ db = cc in
              (o, ap (λ (x : OrdersDb). find_order id x.orders) unchanged ∙ found, w)
          | inr (inr s) ↦
              let (counted, k, same_m) =
                Stocked-Counted c movement received_at id lines actor request db later lost s in
              let same : some o ≡ some s.order = sym found ∙ s.found in
              let same_order : o ≡ s.order = cc in
              (
                count_on counted.counted_lines s.order,
                counted.after,
                check_receipt-IsWithin s.order.lines lines once
                    (subst (λ (x : PurchaseOrder). All IsWithin x.lines) same_order w)
                    counted.checked counted.went,
              )
        ]

  -- A receipt without a key that goes through raises the stock of every item by as much as it
  -- counts on the lines of the order, and leaves the order received where all its lines are
  -- complete, partially received where they are not.
  pub receive-counts :
      (c : PolicyContext) (movement received_at id : ℕ) (lines : List ReceiptLine) (actor : ℕ)
      (db : OrdersDb) (later : KitchenDb) (lost : Option (Failure KitchenCode))
      {m : KitchenMovement} {db' : OrdersDb}
      → receive new_id next_code aborts c movement received_at id lines actor none db later lost
        ≡ goods_counted m db'
      → (o : PurchaseOrder) × (o' : PurchaseOrder) × (find_order id db.orders ≡ some o)
        × (find_order id db'.orders ≡ some o')
        × (o'.status ≡ (if all is_complete o'.lines then received else partially_received))
        × ((k : ℕ)
            → (n : ℕ) × (received_of k o'.lines ≡ received_of k o.lines + n)
              × (stock_of k db'.kitchen.lots ≡ stock_of k db.kitchen.lots +ℤ pos n))
  unfolding previous_receipt stock_receipt
  receive-counts c movement received_at id lines actor db later lost {m} {db'} h =
      elim (receive-cases new_id next_code aborts c movement received_at id lines actor none db
        later lost h) [
          | inl (e, bad) ↦ cc
          | inr (inl (m', same, p, o', found')) ↦ cc
          | inr (inr s) ↦
              let (counted, k, same_m) =
                Stocked-Counted c movement received_at id lines actor none db later lost s in
              (
                s.order,
                count_on counted.counted_lines s.order,
                s.found,
                counted.after,
                refl,
                (λ i. (
                  entered_of i s.stocked,
                  check_receipt-received_of i s.order.lines lines counted.checked counted.went,
                  in_stock s k i,
                )),
              )
        ]
    where
      in_stock :
          (s : Stocked new_id next_code aborts c movement received_at id lines actor none db later
            lost
            (goods_counted m db'))
          → db'.kitchen ≡ s.kitchen
          → (i : ℕ)
          → stock_of i db'.kitchen.lots ≡ stock_of i db.kitchen.lots +ℤ pos (entered_of i s.stocked)
      in_stock s k i =
          ap (λ (x : KitchenDb). stock_of i x.lots) k
          ∙ stock_in-counts new_id next_code movement received_at (some s.order.supplier) s.stocked
              actor (some s.order.id) db.kitchen
              (register-keyless aborts _ actor db.kitchen later s.went) i
          ∙ count_in-sum s.stocked (counts_of db.kitchen) i

-- ===== src/Kitchen/Orders/Receipt.antt =====
-- The receipt of a purchase order (`receive` in modules/kitchen/services/purchase-order.service.ts):
-- one transaction stocks the goods, a second one counts them on the lines of the order.
pub mod Bounds
pub mod Counted
pub mod Ends
pub mod Laws
pub mod Retried
use axzy_ptnv_api.Base.{
  Bool, List, Option, [], false, given, if◌then◌else◌, leb, ltb, none, not, same_id, some, true, ℕ,
  ◌+◌, ◌==◌, ◌∷◌,
}
use axzy_ptnv_api.Base.Lists.{all, find}
use axzy_ptnv_api.Base.Outcome.{
  Failure, Result, err, http, ok, refused, required, throw_if, ◌>>=◌, ◌>>◌,
}
use axzy_ptnv_api.Kitchen.Errors.{
  KitchenCode, idempotency_key_reused, purchase_order_line_not_found, purchase_order_not_found,
  purchase_order_not_receivable, purchase_order_over_receipt,
}
use axzy_ptnv_api.Hotel.Housekeeping.Service.{later}
use axzy_ptnv_api.Kitchen.Orders.Policies.{PolicyContext, check_policy, receive_action}
use axzy_ptnv_api.Kitchen.Orders.Service.{order_lines}
use axzy_ptnv_api.Kitchen.Orders.Tables.{
  OrderLine, OrdersDb, PurchaseOrder, find_order, is_receivable, partially_received, received,
  update_order,
}
use axzy_ptnv_api.Kitchen.Store.Operations.{InLine, stock_in}
use axzy_ptnv_api.Kitchen.Store.Register.{register}
use axzy_ptnv_api.Kitchen.Store.Tables.{KitchenDb, KitchenMovement, Lot}

pub record ReceiptLine : Type 0 where
  pub line : ℕ
  pub quantity : ℕ
  pub lot_code : Option ℕ
  pub expires_at : Option ℕ
  pub unit_cost : Option ℕ

abbrev pub find_line : ℕ → List OrderLine → Option OrderLine
find_line id lines = find (λ (l : OrderLine). l.id == id) lines

-- `increments.set(id, (increments.get(id) ?? 0) + quantity)`, on the entries in their order.
unfoldable pub add_increment : ℕ → ℕ → List (ℕ × ℕ) → List (ℕ × ℕ)
add_increment id quantity [] = (id, quantity) ∷ []
add_increment id quantity (e ∷ entries) =
    if e.0 == id then (id, e.1 + quantity) ∷ entries else e ∷ add_increment id quantity entries

abbrev pub stock_line : OrderLine → ReceiptLine → InLine
stock_line order_line line = record {
  item = order_line.item;
  quantity = line.quantity;
  lot_code = if given line.lot_code then line.lot_code else none;
  expires_at = line.expires_at;
  unit_cost = line.unit_cost;
}

-- The loop over the input: the lines to stock, and the increments of the order's lines. More than
-- what is pending is `received + quantity` above the ordered quantity.
unfoldable pub check_receipt :
    List OrderLine
    → List ReceiptLine
    → List (ℕ × ℕ)
    → Result KitchenCode (List InLine × List (ℕ × ℕ))
check_receipt order_lines [] increments = ok ([], increments)
check_receipt order_lines (line ∷ lines) increments = do
  order_line ← required (find_line line.line order_lines) (http 404 purchase_order_line_not_found)
  throw_if (ltb order_line.quantity (order_line.received_quantity + line.quantity)) 409
      purchase_order_over_receipt
  rest ← check_receipt order_lines lines (add_increment order_line.id line.quantity increments)
  ok (stock_line order_line line ∷ rest.0, rest.1)

-- `receivedQuantity: { increment }`, of a line that must be there.
unfoldable pub increment_line : ℕ → ℕ → List OrderLine → Result KitchenCode (List OrderLine)
increment_line id quantity [] = err refused
increment_line id quantity (l ∷ lines) = elim (l.id == id) [
  | true ↦ ok (record l { received_quantity = l.received_quantity + quantity } ∷ lines)
  | false ↦ increment_line id quantity lines >>= λ rest. ok (l ∷ rest)
]

unfoldable pub increment_lines : List (ℕ × ℕ) → List OrderLine → Result KitchenCode (List OrderLine)
increment_lines [] lines = ok lines
increment_lines (e ∷ increments) lines = increment_line e.0 e.1 lines >>= increment_lines increments

abbrev pub is_complete : OrderLine → Bool
is_complete l = leb l.quantity l.received_quantity

abbrev pub count_on : List OrderLine → PurchaseOrder → PurchaseOrder
count_on lines o = record o {
  lines = lines;
  status = if all is_complete lines then received else partially_received;
}

-- The second transaction, on the order as it then stands.
unfoldable pub count_receipt : ℕ → List (ℕ × ℕ) → OrdersDb → Result KitchenCode OrdersDb
count_receipt id increments db = do
  order ← required (find_order id db.orders) refused
  lines ← increment_lines increments order.lines
  ok (record db { orders = update_order id (count_on lines) db.orders })

-- The movement of a key, which must be one of this order.
unfoldable pub previous_receipt :
    ℕ → Option ℕ → List KitchenMovement → Result KitchenCode (Option KitchenMovement)
previous_receipt id request ms = elim (given request) [
  | false ↦ ok none
  | true ↦ elim (find (λ (m : KitchenMovement). same_id m.request request) ms) [
    | none ↦ ok none
    | some m ↦
        throw_if (not (same_id m.purchase_order (some id))) 409 idempotency_key_reused
        >> ok (some m)
  ]
]

-- How a receipt ends: refused, with the database as it was; done; or with the goods stocked and the
-- failure of the second transaction.
pub data ReceiptEnd : Type 0 where
  not_received : Failure KitchenCode → ReceiptEnd
  goods_counted : KitchenMovement → OrdersDb → ReceiptEnd
  uncounted : Failure KitchenCode → OrdersDb → ReceiptEnd

abbrev pub db_after : OrdersDb → ReceiptEnd → OrdersDb
db_after db (not_received e) = db
db_after db (goods_counted m db') = db'
db_after db (uncounted e db') = db'

abbrev pub end_of : KitchenMovement → OrdersDb → Result KitchenCode OrdersDb → ReceiptEnd
end_of m stocked (ok db') = goods_counted m db'
end_of m stocked (err e) = uncounted e stocked

-- `new_id` and `next_code` are those of the kitchen store; `id` is the new movement's identifier,
-- `aborts` and `lost` are how the attempts at the two transactions end, and `later` is what the store
-- has become when the first one has failed.
module _ (new_id : ℕ → ℕ) (next_code : ℕ → List Lot → ℕ)
    (aborts : ℕ → Option (Failure KitchenCode)) where
  -- The guards of a receipt, up to the lines to stock.
  unfoldable pub receipt_lines :
      PolicyContext
      → PurchaseOrder
      → List ReceiptLine
      → ℕ
      → Result KitchenCode (List InLine × List (ℕ × ℕ))
  receipt_lines c order lines actor = do
    throw_if (not (is_receivable order.status)) 409 purchase_order_not_receivable
    check_policy c receive_action none order actor
    check_receipt order.lines lines []

  -- `this.stock.stockIn(...)`
  unfoldable pub stock_receipt :
      ℕ
      → ℕ
      → PurchaseOrder
      → List InLine
      → ℕ
      → Option ℕ
      → KitchenDb
      → KitchenDb
      → Result KitchenCode (KitchenMovement × KitchenDb)
  stock_receipt movement received_at order lines actor request db later =
      register aborts
        (stock_in new_id next_code movement received_at (some order.supplier) lines actor
          (some order.id))
        request actor db later

  abbrev pub lost_or :
      Option (Failure KitchenCode) → Result KitchenCode OrdersDb → Result KitchenCode OrdersDb
  lost_or none r = r
  lost_or (some e) r = err e

  unfoldable pub receive :
      PolicyContext
      → ℕ
      → ℕ
      → ℕ
      → List ReceiptLine
      → ℕ
      → Option ℕ
      → OrdersDb
      → KitchenDb
      → Option (Failure KitchenCode)
      → ReceiptEnd
  receive c movement received_at id lines actor request db later lost =
      elim (find_order id db.orders) [
        | none ↦ not_received (http 404 purchase_order_not_found)
        | some order ↦ elim (previous_receipt id request db.kitchen.movements) [
          | err e ↦ not_received e
          | ok (some m) ↦ goods_counted m db
          | ok none ↦ elim (receipt_lines c order lines actor) [
            | err e ↦ not_received e
            | ok (stocked, increments) ↦
                elim (stock_receipt movement received_at order stocked actor request db.kitchen
                  later) [
                    | err e ↦ not_received e
                    | ok (m, kitchen) ↦
                        end_of m (record db { kitchen = kitchen })
                          (lost_or lost
                            (count_receipt id increments (record db { kitchen = kitchen })))
                  ]
          ]
        ]
      ]

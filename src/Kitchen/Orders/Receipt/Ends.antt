-- ===== src/Kitchen/Orders/Receipt/Ends.antt =====
-- How a receipt goes: it is refused, answered with an earlier one, or stocks the goods.
use axzy_ptnv_api.Base.{
  List, Option, Option-cases, ap, inl, inr, none, refl, some, sym, ℕ, ◌∙◌, ◌≡◌, ◌⊎◌,
}
use axzy_ptnv_api.Access.Policy.{before}
use axzy_ptnv_api.Base.Outcome.{Failure, Result-cases, ok}
use axzy_ptnv_api.Kitchen.Errors.{KitchenCode}
use axzy_ptnv_api.Hotel.Housekeeping.Service.{later}
use axzy_ptnv_api.Kitchen.Orders.Policies.{PolicyContext}
use axzy_ptnv_api.Kitchen.Orders.Receipt.{
  ReceiptEnd, ReceiptLine, count_receipt, end_of, goods_counted, lost_or, not_received,
  previous_receipt, receipt_lines, receive, stock_receipt,
}
use axzy_ptnv_api.Kitchen.Orders.Tables.{OrdersDb, PurchaseOrder, find_order}
use axzy_ptnv_api.Kitchen.Store.Operations.{InLine}
use axzy_ptnv_api.Kitchen.Store.Tables.{KitchenDb, KitchenMovement, Lot}

-- How far a receipt has come that has stocked the goods.
pub record Stocked (new_id : ℕ → ℕ) (next_code : ℕ → List Lot → ℕ)
    (aborts : ℕ → Option (Failure KitchenCode)) (c : PolicyContext) (movement received_at id : ℕ)
    (lines : List ReceiptLine) (actor : ℕ) (request : Option ℕ) (db : OrdersDb) (later : KitchenDb)
    (lost : Option (Failure KitchenCode)) (end : ReceiptEnd) : Type 0 where
  pub order : PurchaseOrder
  pub found : find_order id db.orders ≡ some order
  pub unknown : previous_receipt id request db.kitchen.movements ≡ ok none
  pub stocked : List InLine
  pub increments : List (ℕ × ℕ)
  pub passed : receipt_lines new_id next_code aborts c order lines actor ≡ ok (stocked, increments)
  pub movement_of : KitchenMovement
  pub kitchen : KitchenDb
  pub went :
      stock_receipt new_id next_code aborts movement received_at order stocked actor request
        db.kitchen later
      ≡ ok (movement_of, kitchen)
  pub ends :
      end
      ≡ end_of movement_of
          (record db { kitchen = kitchen })
          (lost_or new_id next_code aborts lost
            (count_receipt id increments (record db { kitchen = kitchen })))

module _ (new_id : ℕ → ℕ) (next_code : ℕ → List Lot → ℕ)
    (aborts : ℕ → Option (Failure KitchenCode)) where
  pub receive-cases :
      (c : PolicyContext) (movement received_at id : ℕ) (lines : List ReceiptLine) (actor : ℕ)
      (request : Option ℕ) (db : OrdersDb) (later : KitchenDb) (lost : Option (Failure KitchenCode))
      {end : ReceiptEnd}
      → receive new_id next_code aborts c movement received_at id lines actor request db later lost
        ≡ end
      → ((e : Failure KitchenCode) × (end ≡ not_received e))
        ⊎ (((m : KitchenMovement) × (end ≡ goods_counted m db)
              × (previous_receipt id request db.kitchen.movements ≡ ok (some m))
              × (o : PurchaseOrder) × (find_order id db.orders ≡ some o))
            ⊎ Stocked new_id next_code aborts c movement received_at id lines actor request db later
                lost end)
  unfolding receive
  receive-cases c movement received_at id lines actor request db later lost {end} h =
      elim (Option-cases (find_order id db.orders)) [
        | inl absent ↦ inl (_, sym (rw (receive, absent) at h))
        | inr (order, found) ↦
            let h1 = rw (receive, found) at h in
            elim (Result-cases (previous_receipt id request db.kitchen.movements)) [
              | inr (e, bad) ↦ inl (e, sym (rw bad at h1))
              | inl (before, p) ↦
                  let h2 = rw p at h1 in
                  elim (Option-cases before) [
                    | inr (m, some_m) ↦
                        inr (inl (m, sym (rw some_m at h2), p ∙ ap ok some_m, order, found))
                    | inl none_yet ↦
                        let h3 = rw none_yet at h2 in
                        elim (Result-cases
                          (receipt_lines new_id next_code aborts c order lines actor)) [
                            | inr (e, bad) ↦ inl (e, sym (rw bad at h3))
                            | inl (q, passed) ↦
                                let h4 = rw passed at h3 in
                                elim (Result-cases (
                                  stock_receipt new_id next_code aborts movement received_at order
                                    q.0 actor request db.kitchen later)) [
                                      | inr (e, bad) ↦ inl (e, sym (rw bad at h4))
                                      | inl (w, went) ↦ inr (
                                          inr (record {
                                            order = order;
                                            found = found;
                                            unknown = p ∙ ap ok none_yet;
                                            stocked = q.0;
                                            increments = q.1;
                                            passed = passed;
                                            movement_of = w.0;
                                            kitchen = w.1;
                                            went = went;
                                            ends = sym (rw went at h4);
                                          }))
                                    ]
                          ]
                  ]
            ]
      ]

  -- A receipt whose key is known is answered with its movement.
  pub receive-known :
      (c : PolicyContext) (movement received_at id : ℕ) (lines : List ReceiptLine) (actor : ℕ)
      (request : Option ℕ) (db : OrdersDb) (later : KitchenDb) (lost : Option (Failure KitchenCode))
      (o : PurchaseOrder) {m : KitchenMovement}
      → find_order id db.orders ≡ some o
      → previous_receipt id request db.kitchen.movements ≡ ok (some m)
      → receive new_id next_code aborts c movement received_at id lines actor request db later lost
        ≡ goods_counted m db
  unfolding receive
  receive-known c movement received_at id lines actor request db later lost o found p =
      rw (receive, found, p) refl

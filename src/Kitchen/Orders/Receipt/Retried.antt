-- ===== src/Kitchen/Orders/Receipt/Retried.antt =====
-- A receipt that is asked for again with its key.
use axzy_ptnv_api.Base.{
  Bool-cases, List, Option, Option-cases, ap, arith, false, given, if◌then◌else◌, inl, inr, none,
  not, refl, same_id, some, sym, true, ℕ, ◌==◌, ◌∙◌, ◌≡◌,
}
use axzy_ptnv_api.Base.Lists.{find}
use axzy_ptnv_api.Base.Outcome.{
  >>=-eq-ok, Failure, Result, Result-cases, err, http, ok, throw_if, ◌>>=◌,
}
use axzy_ptnv_api.Kitchen.Errors.{KitchenCode, idempotency_key_reused}
use axzy_ptnv_api.Kitchen.Rules.{KitchenType}
use axzy_ptnv_api.Hotel.Housekeeping.Service.{later}
use axzy_ptnv_api.Kitchen.Orders.Policies.{PolicyContext}
use axzy_ptnv_api.Kitchen.Orders.Receipt.{
  ReceiptLine, end_of, goods_counted, previous_receipt, receive, stock_receipt, uncounted,
}
use axzy_ptnv_api.Kitchen.Orders.Rows.{find_order-id}
use axzy_ptnv_api.Kitchen.Orders.Tables.{OrdersDb, PurchaseOrder, find_order}
use axzy_ptnv_api.Kitchen.Store.Movement.{throw_taken}
use axzy_ptnv_api.Kitchen.Store.Operations.{
  InLine, active_items, check_supplier, in_items, receive_lots, stock_in,
}
use axzy_ptnv_api.Kitchen.Store.Register.{
  after_failure, by_request, keyed, register, run_new, serializable, set_request,
}
use axzy_ptnv_api.Kitchen.Store.Tables.{KitchenDb, KitchenMovement, Lot}
use axzy_ptnv_api.Kitchen.Orders.Receipt.Ends.{receive-cases, receive-known}
use axzy_ptnv_api.Kitchen.Orders.Receipt.Laws.{Stocked-Counted}
use axzy_ptnv_api.Kitchen.Store.Soundness.Counts.{counted, enters}
use axzy_ptnv_api.Kitchen.Store.Soundness.Kept.{create_movement-Recorded}
use axzy_ptnv_api.Kitchen.Store.Soundness.Replayed.{
  run_change-IsStored, serializable-ok, set_request-found,
}

found_by :
    (key actor : ℕ) (ms : List KitchenMovement) {m : KitchenMovement}
    → by_request key actor ms ≡ ok (some m)
    → find (λ (x : KitchenMovement). same_id x.request (some key)) ms ≡ some m
unfolding by_request
found_by key actor ms {m} h =
    elim (Option-cases (find (λ (x : KitchenMovement). same_id x.request (some key)) ms)) [
      | inl absent ↦ let bad = rw (by_request, absent) at h in cc
      | inr (x, there) ↦ there ∙ by_author x (rw (by_request, there) at h)
    ]
  where
    by_author :
        (x : KitchenMovement)
        → (if x.created_by == actor then ok (some x) else err (http 409 idempotency_key_reused))
          ≡ ok (some m)
        → some x ≡ some m
    by_author x q = elim (Bool-cases (x.created_by == actor)) [
      | inl mine ↦ let r : ok (some x) ≡ ok (some m) = rw mine at q in cc
      | inr other ↦ let r = rw other at q in cc
    ]

absent_by :
    (key actor : ℕ) (ms : List KitchenMovement)
    → find (λ (x : KitchenMovement). same_id x.request (some key)) ms ≡ none
    → by_request key actor ms ≡ ok none
unfolding by_request
absent_by key actor ms f = rw (by_request, f) refl

-- A key that no movement has.
unknown_key :
    (id key : ℕ) (ms : List KitchenMovement)
    → given (some key) ≡ true
    → previous_receipt id (some key) ms ≡ ok none
    → find (λ (x : KitchenMovement). same_id x.request (some key)) ms ≡ none
unfolding previous_receipt
unknown_key id key ms there h =
    elim (Option-cases (find (λ (x : KitchenMovement). same_id x.request (some key)) ms)) [
      | inl absent ↦ absent
      | inr (m, found) ↦
          let h1 = rw (previous_receipt, there, found) at h in
          let (u, same, h2) =
            >>=-eq-ok
              (throw_if (not (same_id m.purchase_order (some id))) 409 idempotency_key_reused) _
              h1 in
          cc
    ]

known_key :
    (id key : ℕ) (ms : List KitchenMovement) {m : KitchenMovement}
    → given (some key) ≡ true
    → find (λ (x : KitchenMovement). same_id x.request (some key)) ms ≡ some m
    → m.purchase_order ≡ some id
    → previous_receipt id (some key) ms ≡ ok (some m)
unfolding previous_receipt
known_key id key ms {m} there found po =
    let own_id : (id == id) ≡ true = ground arith in
    rw (previous_receipt, there, found, po, own_id) refl

module _ (new_id : ℕ → ℕ) (next_code : ℕ → List Lot → ℕ) where
  stock_in-order :
      (id received_at : ℕ) (supplier : Option ℕ) (lines : List InLine) (actor : ℕ) (po : Option ℕ)
      (db : KitchenDb) {r : KitchenMovement × KitchenDb}
      → stock_in new_id next_code id received_at supplier lines actor po db ≡ ok r
      → r.0.purchase_order ≡ po
  unfolding stock_in
  stock_in-order id received_at supplier lines actor po db h =
      let (u1, known, h1) = >>=-eq-ok (check_supplier supplier db.suppliers) _ h in
      let (u2, there, h2) =
        >>=-eq-ok (active_items false db.items (in_items new_id next_code lines)) _ h1 in
      let (q, lots, h3) =
        >>=-eq-ok (receive_lots new_id next_code 0 received_at db.items lines db.lots) _ h2 in
      let c =
        create_movement-Recorded id KitchenType.stock_in q.0 actor po none
          (record db { lots = q.1 }) h3 in
      ap (λ (m : KitchenMovement). m.purchase_order) c.movement

set_request-order :
    (key : ℕ) (q : KitchenMovement × KitchenDb) {r : KitchenMovement × KitchenDb}
    → given (some key) ≡ true
    → set_request (some key) q ≡ ok r
    → r.0.purchase_order ≡ q.0.purchase_order
unfolding set_request
set_request-order key q {r} there h =
    let h0 = rw (set_request, there) at h in
    let (u, free, h1) =
      >>=-eq-ok
        (throw_taken (find (λ (x : KitchenMovement). same_id x.request (some key)) q.1.movements)) _
        h0 in
    let end : ◌≡◌ {A = KitchenMovement × KitchenDb}
        (
          record q.0 { request = some key },
          record q.1 { movements = keyed q.0.id (some key) q.1.movements },
        )
        r =
      cc in
    sym (ap (λ (x : KitchenMovement × KitchenDb). x.0.purchase_order) end)

module _ (new_id : ℕ → ℕ) (next_code : ℕ → List Lot → ℕ)
    (aborts : ℕ → Option (Failure KitchenCode)) where
  -- Goods that were stocked with a key, no other request having come in between, are found by it.
  stock_receipt-known :
      (movement received_at id key : ℕ) (order : PurchaseOrder) (lines : List InLine) (actor : ℕ)
      (db : KitchenDb) {r : KitchenMovement × KitchenDb}
      → given (some key) ≡ true
      → order.id ≡ id
      → previous_receipt id (some key) db.movements ≡ ok none
      → stock_receipt new_id next_code aborts movement received_at order lines actor
          (some key)
          db
          db
        ≡ ok r
      → previous_receipt id (some key) r.1.movements ≡ ok (some r.0)
  unfolding stock_receipt register run_new after_failure
  stock_receipt-known movement received_at id key order lines actor db {r} there same_order unknown
        h =
      elim (Result-cases (serializable aborts run)) [
        | inl (q, went) ↦
            let last : ok q ≡ ok r = rw (run_new, went) at h1 in
            let (p, moved, marked) =
              >>=-eq-ok (operation db) _ (serializable-ok aborts run (went ∙ last)) in
            let stored =
              run_change-IsStored new_id next_code
                (enters movement received_at (some order.supplier) lines actor (some order.id)) db
                moved in
            known_key id key r.1.movements there
              (found_by key actor r.1.movements (set_request-found key actor p there stored marked))
              (set_request-order key p there marked
                ∙ stock_in-order new_id next_code movement received_at (some order.supplier) lines
                    actor (some order.id) db moved
                ∙ ap some same_order)
        | inr (e, failed) ↦
            let h2 = rw (run_new, failed, after_failure, zero_key, absent) at h1 in cc
      ]
    where
      operation : KitchenDb → Result KitchenCode (KitchenMovement × KitchenDb)
      operation =
          stock_in new_id next_code movement received_at (some order.supplier) lines actor
            (some order.id)

      run : Result KitchenCode (KitchenMovement × KitchenDb)
      run = operation db >>= set_request (some key)

      absent : by_request key actor db.movements ≡ ok none
      absent = absent_by key actor db.movements (unknown_key id key db.movements there unknown)

      zero_key : (key == 0) ≡ false
      zero_key = ground arith

      h1 : run_new aborts operation (some key) actor db db ≡ ok r
      h1 = rw (stock_receipt, register, there, absent) at h

module _ (new_id : ℕ → ℕ) (next_code : ℕ → List Lot → ℕ)
    (aborts aborts' : ℕ → Option (Failure KitchenCode)) where
  -- A receipt with a key that has gone through, no other request having come in between, is
  -- answered with its movement when any receipt of that order comes in with that key, and
  -- nothing is stocked or counted a second time.
  pub receive_again :
      (c c' : PolicyContext) (movement movement' received_at received_at' id key : ℕ)
      (lines lines' : List ReceiptLine) (actor actor' : ℕ) (db : OrdersDb) (later : KitchenDb)
      (lost lost' : Option (Failure KitchenCode)) {m : KitchenMovement} {db' : OrdersDb}
      → given (some key) ≡ true
      → receive new_id next_code aborts c movement received_at id lines actor
          (some key)
          db
          db.kitchen
          lost
        ≡ goods_counted m db'
      → receive new_id next_code aborts' c' movement' received_at' id lines' actor'
          (some key)
          db'
          later
          lost'
        ≡ goods_counted m db'
  receive_again c c' movement movement' received_at received_at' id key lines lines' actor actor' db
        later lost lost' {m} {db'} there h =
      elim (receive-cases new_id next_code aborts c movement received_at id lines actor (some key)
        db db.kitchen lost h) [
          | inl (e, bad) ↦ cc
          | inr (inl (m', same, p, o, found)) ↦
              let unchanged : db ≡ db' = cc in
              let same_m : m' ≡ m = cc in
              rw (← unchanged, ← same_m)
                (receive-known new_id next_code aborts' c' movement' received_at' id lines' actor'
                  (some key) db later lost' o found p)
          | inr (inr s) ↦
              let (counted, k, same_m) =
                Stocked-Counted new_id next_code aborts c movement received_at id lines actor
                  (some key) db db.kitchen lost s in
              let known =
                stock_receipt-known new_id next_code aborts movement received_at id key s.order
                  s.stocked actor db.kitchen there (find_order-id id db.orders s.found) s.unknown
                  s.went in
              receive-known new_id next_code aborts' c' movement' received_at' id lines' actor'
                (some key) db' later lost' _ counted.after
                (ap (λ (x : KitchenDb). previous_receipt id (some key) x.movements) k
                  ∙ known
                  ∙ ap (λ (x : KitchenMovement). ok (some x)) (sym same_m))
        ]

  -- A receipt with a key whose second transaction fails, no other request having come in
  -- between, leaves the orders as they were, and any receipt of that order that comes in with
  -- that key afterwards is answered as if it had gone through and changes nothing: the goods
  -- that were stocked are not counted on the order.
  pub receive_uncounted :
      (c c' : PolicyContext) (movement movement' received_at received_at' id key : ℕ)
      (lines lines' : List ReceiptLine) (actor actor' : ℕ) (db : OrdersDb) (later : KitchenDb)
      (lost lost' : Option (Failure KitchenCode)) {e : Failure KitchenCode} {db' : OrdersDb}
      → given (some key) ≡ true
      → receive new_id next_code aborts c movement received_at id lines actor
          (some key)
          db
          db.kitchen
          lost
        ≡ uncounted e db'
      → (db'.orders ≡ db.orders)
        × (m : KitchenMovement) × (receive new_id next_code aborts' c' movement' received_at' id
              lines' actor'
              (some key)
              db'
              later
              lost'
            ≡ goods_counted m db')
  receive_uncounted c c' movement movement' received_at received_at' id key lines lines' actor
        actor' db later lost lost' {e} {db'} there h =
      elim (receive-cases new_id next_code aborts c movement received_at id lines actor (some key)
        db db.kitchen lost h) [
          | inl (e', bad) ↦ cc
          | inr (inl (m', same, p, o, found)) ↦ cc
          | inr (inr s) ↦
              let left : db' ≡ record db { kitchen = s.kitchen } =
                ended s.movement_of (record db { kitchen = s.kitchen }) _ s.ends in
              let known =
                stock_receipt-known new_id next_code aborts movement received_at id key s.order
                  s.stocked actor db.kitchen there (find_order-id id db.orders s.found) s.unknown
                  s.went in
              (
                ap (λ (x : OrdersDb). x.orders) left,
                s.movement_of,
                receive-known new_id next_code aborts' c' movement' received_at' id lines' actor'
                    (some key) db' later lost' s.order
                    (ap (λ (x : OrdersDb). find_order id x.orders) left ∙ s.found)
                    (ap (λ (x : OrdersDb). previous_receipt id (some key) x.kitchen.movements) left
                      ∙ known),
              )
        ]
    where
      ended :
          (w : KitchenMovement) (x : OrdersDb) (r : Result KitchenCode OrdersDb)
          → uncounted e db' ≡ end_of w x r
          → db' ≡ x
      ended w x (ok y) q = cc
      ended w x (err e') q = cc

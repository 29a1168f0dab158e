-- ===== src/Hotel/Soundness/Reversal.antt =====
-- Reconciling a sound store, and taking a movement back.
use axzy_ptnv_api.Base.{List, Option, [], ap, arith, none, refl, some, sym, ℕ, ◌∙◌, ◌∷◌, ◌≡◌}
use axzy_ptnv_api.Base.Int.{int_laws}
use axzy_ptnv_api.Base.Outcome.{ok}
use axzy_ptnv_api.Hotel.Decision.{cancel, settle}
use axzy_ptnv_api.Hotel.Kardex.{ApprovalThresholds, assert_movement_shape}
use axzy_ptnv_api.Hotel.Positions.{Key, expected_stock}
use axzy_ptnv_api.Hotel.Posting.{shape_of}
use axzy_ptnv_api.Hotel.Stock.{active_ledger, reconcile}
use axzy_ptnv_api.Hotel.Tables.{Db, Movement, MovementInput, Stamp, Status, cancelled}
use axzy_ptnv_api.Hotel.Transaction.{apply_in_transaction}
use axzy_ptnv_api.Hotel.Positions.Diff.{HasUniqueKeys, diff_stock-eq-nil_iff}
use axzy_ptnv_api.Hotel.Positions.Laws.{ledger_effect, qty, qty-expected_stock}
use axzy_ptnv_api.Hotel.Soundness.Decided.{cancel-IsSound}
use axzy_ptnv_api.Hotel.Soundness.Invariant.{IsSound}
use axzy_ptnv_api.Hotel.Soundness.Requested.{
  apply_in_transaction-Applied, apply_in_transaction-IsSound,
}
use axzy_ptnv_api.Hotel.Soundness.Settled.{contribution, ledger_effect-cons}
use axzy_ptnv_api.Hotel.Transaction.Applied.{HasThreeDecimals}

qty_of_ledger :
    (db : Db)
    → ((k : Key) → qty k db.stock ≡ ledger_effect k (active_ledger db.movements))
    → (k : Key) → qty k db.stock ≡ qty k (expected_stock (active_ledger db.movements))
qty_of_ledger db h k = h k ∙ sym (qty-expected_stock k (active_ledger db.movements))

-- In a sound store (IsSound) the reconciliation of all warehouses reports no difference.
pub reconcile_sound : (db : Db) → IsSound db → reconcile none db ≡ []
unfolding reconcile
reconcile_sound db sound =
    (diff_stock-eq-nil_iff db.stock _ sound.unique).1 (qty_of_ledger db sound.balanced)

-- Where the stock rows are unique and the reconciliation of all warehouses reports nothing, the
-- stock of every position is the signed sum of the active movements.
pub reconcile_complete :
    (db : Db)
    → HasUniqueKeys db.stock
    → reconcile none db ≡ []
    → (k : Key) → qty k db.stock ≡ ledger_effect k (active_ledger db.movements)
unfolding reconcile
reconcile_complete db u h k =
    (diff_stock-eq-nil_iff db.stock _ u).0 h k ∙ qty-expected_stock k (active_ledger db.movements)

settle_first :
    (id : ℕ) (status : Status) (actor : ℕ) (m : Movement) (ms : List Movement)
    → m.id ≡ id
    → settle id status actor (m ∷ ms) ≡ record m { status = status; approved_by = some actor } ∷ ms
unfolding settle
settle_first id status actor m ms e = ground arith

cancel_movements :
    (id actor : ℕ) (db : Db) {db' : Db}
    → cancel id actor db ≡ ok db'
    → db'.movements ≡ settle id cancelled actor db.movements
unfolding cancel
cancel_movements id actor db h = ground arith

no_contribution :
    (k : Key) (m : Movement) (ms : List Movement)
    → m.status ≡ cancelled
    → ledger_effect k (active_ledger (m ∷ ms)) ≡ ledger_effect k (active_ledger ms)
unfolding contribution
no_contribution k m ms e = rw (ledger_effect-cons k m ms) (rw e (omega int_laws))

-- A movement whose shape has been checked and whose quantities have three decimals at most,
-- applied to a sound store (IsSound) and then cancelled, leaves every position with the quantity
-- it had before.
pub cancel-apply :
    (thresholds : ApprovalThresholds) (stamp : Stamp) (input : MovementInput) (actor actor' : ℕ)
    (request : Option ℕ) (db : Db) {r : Movement × Db} {db' : Db}
    → IsSound db
    → assert_movement_shape input.type (shape_of input) ≡ ok tt
    → HasThreeDecimals input
    → apply_in_transaction thresholds stamp input actor request db ≡ ok r
    → cancel r.0.id actor' r.1 ≡ ok db'
    → (k : Key) → qty k db'.stock ≡ qty k db.stock
cancel-apply thresholds stamp input actor actor' request db {r} {db'} sound shape exact h c k =
    let a = apply_in_transaction-Applied thresholds stamp input actor request db h in
    let between =
      apply_in_transaction-IsSound thresholds stamp input actor request db shape exact sound h in
    let after = cancel-IsSound r.0.id actor' r.1 between c in
    let ms : db'.movements
        ≡ record r.0 { status = cancelled; approved_by = some actor' } ∷ db.movements =
      cancel_movements r.0.id actor' r.1 c
      ∙ ap (λ (d : Db). settle r.0.id cancelled actor' d.movements) a.after
      ∙ settle_first r.0.id cancelled actor' r.0 db.movements refl in
    after.balanced k
    ∙ ap (λ l. ledger_effect k (active_ledger l)) ms
    ∙ no_contribution k _ db.movements refl
    ∙ sym (sound.balanced k)

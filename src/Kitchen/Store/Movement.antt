-- ===== src/Kitchen/Store/Movement.antt =====
-- Recording a movement (`createMovement` in modules/kitchen/services/kitchen-stock.service.ts).
use axzy_ptnv_api.Base.{List, Option, [], false, if◌then◌else◌, none, some, ℕ, ◌==◌, ◌∷◌}
use axzy_ptnv_api.Base.Int.{ltb_ℤ, negate, pos, ℤ, ◌+ℤ◌}
use axzy_ptnv_api.Base.Lists.{find}
use axzy_ptnv_api.Base.Outcome.{
  Result, duplicate, err, http, ok, refused, required, throw_if, ◌>>=◌, ◌>>◌,
}
use axzy_ptnv_api.Kitchen.Errors.{KitchenCode, insufficient_stock}
use axzy_ptnv_api.Kitchen.Rules.{KitchenType, Sign, kitchen_ledger_sign, minus, plus}
use axzy_ptnv_api.Kitchen.Store.Tables.{KitchenDb, KitchenLine, KitchenMovement, Lot, ReversalOf}

unfoldable pub find_lot : ℕ → List Lot → Option Lot
find_lot id lots = find (λ (l : Lot). l.id == id) lots

-- `update({ where: { id }, data: { onHand: { increment } } })`
unfoldable pub change_lot : ℕ → ℤ → List Lot → List Lot
change_lot id delta [] = []
change_lot id delta (l ∷ ls) =
    if l.id == id
    then record l { on_hand = l.on_hand +ℤ delta } ∷ ls
    else l ∷ change_lot id delta ls

-- One line: an entry updates the lot, which must be there; an exit updates it only where it holds
-- as much.
unfoldable pub apply_line : Sign → KitchenLine → List Lot → Result KitchenCode (List Lot)
apply_line plus line lots = do
  lot ← required (find_lot line.lot lots) refused
  ok (change_lot line.lot (pos line.quantity) lots)
apply_line minus line lots = do
  lot ← required (find_lot line.lot lots) (http 409 insufficient_stock)
  throw_if (ltb_ℤ lot.on_hand (pos line.quantity)) 409 insufficient_stock
  ok (change_lot line.lot (negate (pos line.quantity)) lots)

unfoldable pub apply_lines : Sign → List KitchenLine → List Lot → Result KitchenCode (List Lot)
apply_lines sign [] lots = ok lots
apply_lines sign (line ∷ lines) lots = do
  lots' ← apply_line sign line lots
  apply_lines sign lines lots'

abbrev pub source_type : Option ReversalOf → Option KitchenType
source_type none = none
source_type (some r) = some r.type

unfoldable pub find_kitchen_movement : ℕ → List KitchenMovement → Option KitchenMovement
find_kitchen_movement id ms = find (λ (m : KitchenMovement). m.id == id) ms

abbrev pub new_movement :
    ℕ → KitchenType → List KitchenLine → ℕ → Option ℕ → Option ReversalOf → KitchenMovement
new_movement id type lines actor purchase_order reversal_of = record {
  id = id;
  type = type;
  reversal_of = reversal_of;
  is_cancelled = false;
  created_by = actor;
  request = none;
  purchase_order = purchase_order;
  lines = lines;
}

-- A primary key or a unique index that is taken.
abbrev pub throw_taken {ℓ} : {A : Type ℓ} → Option A → Result KitchenCode (Unit {0})
throw_taken none = ok tt
throw_taken (some a) = err duplicate

-- The insert, which the primary key guards; the request key is set by `register`.
unfoldable pub create_movement :
    ℕ
    → KitchenType
    → List KitchenLine
    → ℕ
    → Option ℕ
    → Option ReversalOf
    → KitchenDb
    → Result KitchenCode (KitchenMovement × KitchenDb)
create_movement id type lines actor purchase_order reversal_of db = do
  sign ← required (kitchen_ledger_sign type (source_type reversal_of)) refused
  lots ← apply_lines sign lines db.lots
  throw_taken (find_kitchen_movement id db.movements)
  let movement = new_movement id type lines actor purchase_order reversal_of
  ok (movement, record db { lots = lots; movements = movement ∷ db.movements })

-- ===== src/Kitchen/Store/Operations.antt =====
-- The operations that move stock (`stockIn`, `stockOut`, `adjust` and `reverse` in
-- modules/kitchen/services/kitchen-stock.service.ts), each inside its transaction. The identifiers
-- of new rows and the text of a generated lot code are parameters.
use axzy_ptnv_api.Base.{
  Bool, List, Option, [], false, given, if◌then◌else◌, ltb, none, not, or_else, some, true, ℕ, ◌&&◌,
  ◌++◌, ◌+◌, ◌==◌, ◌||◌, ◌∷◌,
}
use axzy_ptnv_api.Access.Policy.{items, map_list}
use axzy_ptnv_api.Base.Int.{ltb_ℤ, pos, pos_part}
use axzy_ptnv_api.Base.Lists.{any, find, keep}
use axzy_ptnv_api.Base.Outcome.{Result, http, ok, refused, required, throw_if, ◌>>=◌, ◌>>◌}
use axzy_ptnv_api.Kitchen.Errors.{
  KitchenCode, durable_not_consumable, expiry_required, insufficient_stock, invalid_movement,
  kitchen_item_inactive, kitchen_item_not_found, kitchen_lot_not_found, kitchen_movement_not_found,
  lot_code_taken, lot_expired, movement_already_reversed, movement_not_reversible,
  supplier_not_found, waste_reason_required,
}
use axzy_ptnv_api.Kitchen.Fefo.{FefoAllocation, FefoLot, allocate_fefo, is_expired}
use axzy_ptnv_api.Kitchen.Rules.{
  KitchenType, adjustment_in, adjustment_out, consumption, reversal, waste,
}
use axzy_ptnv_api.Kitchen.Store.Movement.{
  create_movement, find_kitchen_movement, find_lot, throw_taken,
}
use axzy_ptnv_api.Kitchen.Store.Tables.{
  Item, KitchenDb, KitchenLine, KitchenMovement, Lot, Supplier,
}

abbrev pub find_supplier : ℕ → List Supplier → Option Supplier
find_supplier id suppliers = find (λ (s : Supplier). s.id == id) suppliers

unfoldable pub find_item : ℕ → List Item → Option Item
find_item id items = find (λ (i : Item). i.id == id) items

-- `activeItems`, for the identifiers one by one.
unfoldable pub active_items : Bool → List Item → List ℕ → Result KitchenCode (Unit {0})
active_items allow_inactive items [] = ok tt
active_items allow_inactive items (id ∷ ids) = do
  item ← required (find_item id items) (http 404 kitchen_item_not_found)
  throw_if (not allow_inactive && not item.active) 409 kitchen_item_inactive
  active_items allow_inactive items ids

unfoldable pub lot_of_item : ℕ → ℕ → List Lot → Result KitchenCode Lot
lot_of_item lot item lots = do
  l ← required (find_lot lot lots) (http 404 kitchen_lot_not_found)
  throw_if (not (l.item == item)) 404 kitchen_lot_not_found
  ok l

abbrev pub has_stock_of : ℕ → Lot → Bool
has_stock_of item l = l.item == item && ltb_ℤ (pos 0) l.on_hand

abbrev pub to_fefo : Lot → FefoLot
to_fefo l = record {
  id = l.id;
  lot_code = l.lot_code;
  expires_on = l.expires_on;
  received_at = l.received_at;
  on_hand = pos_part l.on_hand;
}

unfoldable pub fefo_lots : ℕ → List Lot → List FefoLot
fefo_lots item lots = map_list to_fefo (keep (has_stock_of item) lots)

pub record OutLine : Type 0 where
  pub item : ℕ
  pub quantity : ℕ
  pub lot : Option ℕ

-- Whether goods leave by consumption or as waste.
pub data OutType : Type 0 where
  as_consumption as_waste : OutType

abbrev pub out_type : OutType → KitchenType
out_type as_consumption = consumption
out_type as_waste = waste

abbrev pub is_consumption : OutType → Bool
is_consumption as_consumption = true
is_consumption as_waste = false

abbrev pub line_of_lot : ℕ → ℕ → ℕ → KitchenLine
line_of_lot item lot quantity = record {
  item = item;
  lot = lot;
  quantity = quantity;
  unit_cost = none;
}

unfoldable pub allocation_lines : ℕ → List FefoAllocation → List KitchenLine
allocation_lines item [] = []
allocation_lines item (a ∷ rest) = line_of_lot item a.lot_id a.quantity ∷ allocation_lines item rest

-- The lots that a line is taken from: the one that it names, or those that the split gives.
unfoldable pub take_line : OutType → ℕ → List Lot → OutLine → Result KitchenCode (List KitchenLine)
take_line type today lots line = elim line.lot [
  | some id ↦ do
    lot ← lot_of_item id line.item lots
    throw_if (is_consumption type && is_expired lot.expires_on today) 409 lot_expired
    ok (line_of_lot line.item lot.id line.quantity ∷ [])
  | none ↦ do
    let plan =
        allocate_fefo (fefo_lots line.item lots) line.quantity today (not (is_consumption type))
    throw_if (ltb 0 plan.missing) 409 insufficient_stock
    ok (allocation_lines line.item plan.allocations)
]

unfoldable pub take_out :
    OutType → ℕ → KitchenDb → List OutLine → Result KitchenCode (List KitchenLine)
take_out type today db [] = ok []
take_out type today db (line ∷ lines) = do
  item ← required (find_item line.item db.items) refused
  throw_if (is_consumption type && item.is_durable) 400 durable_not_consumable
  taken ← take_line type today db.lots line
  rest ← take_out type today db lines
  ok (taken ++ rest)

abbrev pub out_items : List OutLine → List ℕ
out_items [] = []
out_items (l ∷ ls) = l.item ∷ out_items ls

-- What `stockOut` checks before it registers: `reason` is the reason of a waste.
unfoldable pub check_reason : OutType → Option ℕ → Result KitchenCode (Unit {0})
check_reason as_waste reason = throw_if (not (given reason)) 400 waste_reason_required
check_reason as_consumption reason = throw_if (given reason) 400 invalid_movement

-- The transaction of an exit; the reason has been checked before.
unfoldable pub stock_out :
    ℕ
    → ℕ
    → OutType
    → Option ℕ
    → List OutLine
    → ℕ
    → KitchenDb
    → Result KitchenCode (KitchenMovement × KitchenDb)
stock_out id today type reason lines actor db = do
  active_items false db.items (out_items lines)
  taken ← take_out type today db lines
  create_movement id (out_type type) taken actor none none db

pub record AdjustmentLine : Type 0 where
  pub item : ℕ
  pub lot : ℕ
  pub quantity : ℕ

unfoldable pub adjusted_lines :
    List Lot → List AdjustmentLine → Result KitchenCode (List KitchenLine)
adjusted_lines lots [] = ok []
adjusted_lines lots (line ∷ lines) = do
  lot ← lot_of_item line.lot line.item lots
  rest ← adjusted_lines lots lines
  ok (line_of_lot line.item line.lot line.quantity ∷ rest)

abbrev pub adjustment_items : List AdjustmentLine → List ℕ
adjustment_items [] = []
adjustment_items (l ∷ ls) = l.item ∷ adjustment_items ls

-- An adjustment upwards, or downwards.
abbrev pub adjustment_type : Bool → KitchenType
adjustment_type true = adjustment_in
adjustment_type false = adjustment_out

unfoldable pub adjust :
    ℕ
    → Bool
    → List AdjustmentLine
    → ℕ
    → KitchenDb
    → Result KitchenCode (KitchenMovement × KitchenDb)
adjust id upwards lines actor db = do
  active_items true db.items (adjustment_items lines)
  taken ← adjusted_lines db.lots lines
  create_movement id (adjustment_type upwards) taken actor none none db

abbrev pub is_reversal : KitchenType → Bool
is_reversal reversal = true
is_reversal _ = false

abbrev pub reverses : ℕ → KitchenMovement → Bool
reverses id m = elim m.reversal_of [ none ↦ false | some r ↦ r.id == id ]

-- `update({ where: { id }, data: { status: "CANCELLED" } })`
unfoldable pub mark_cancelled : ℕ → List KitchenMovement → List KitchenMovement
mark_cancelled id [] = []
mark_cancelled id (m ∷ ms) =
    if m.id == id then record m { is_cancelled = true } ∷ ms else m ∷ mark_cancelled id ms

unfoldable pub reverse : ℕ → ℕ → ℕ → KitchenDb → Result KitchenCode (KitchenMovement × KitchenDb)
reverse id source_id actor db = do
  source ←
      required (find_kitchen_movement source_id db.movements) (http 404 kitchen_movement_not_found)
  throw_if (is_reversal source.type) 409 movement_not_reversible
  throw_if (source.is_cancelled || any (reverses source_id) db.movements) 409
      movement_already_reversed
  create_movement id reversal source.lines actor none
      (some (record { id = source.id; type = source.type }))
      (record db { movements = mark_cancelled source_id db.movements })

pub record InLine : Type 0 where
  pub item : ℕ
  pub quantity : ℕ
  pub lot_code : Option ℕ
  pub expires_at : Option ℕ
  pub unit_cost : Option ℕ

-- The lot of a line before its movement fills it.
abbrev pub empty_lot : ℕ → ℕ → ℕ → InLine → Lot
empty_lot id code received_at line = record {
  id = id;
  item = line.item;
  lot_code = code;
  expires_on = if given line.expires_at then line.expires_at else none;
  received_at = received_at;
  on_hand = pos 0;
}

unfoldable pub check_supplier : Option ℕ → List Supplier → Result KitchenCode (Unit {0})
check_supplier none suppliers = ok tt
check_supplier (some id) suppliers = elim (id == 0) [
  | true ↦ ok tt
  | false ↦ required (find_supplier id suppliers) (http 404 supplier_not_found) >>= λ s. ok tt
]

-- `new_id` gives the identifiers of the lots of a request, and `next_code` a generated lot code.
module _ (new_id : ℕ → ℕ) (next_code : ℕ → List Lot → ℕ) where
  -- The lots of the lines, empty, and the lines that fill them.
  unfoldable pub receive_lots :
      ℕ → ℕ → List Item → List InLine → List Lot → Result KitchenCode (List KitchenLine × List Lot)
  receive_lots n received_at items [] lots = ok ([], lots)
  receive_lots n received_at items (line ∷ lines) lots = do
    item ← required (find_item line.item items) refused
    throw_if (item.tracks_expiry && not (given line.expires_at)) 400 expiry_required
    let code = or_else line.lot_code (next_code line.item lots)
    throw_if (any (λ (l : Lot). l.item == line.item && l.lot_code == code) lots) 409 lot_code_taken
    throw_taken (find_lot (new_id n) lots)
    r ←
        receive_lots (n + 1) received_at items lines
          (empty_lot (new_id n) code received_at line ∷ lots)
    ok (
      record {
        item = line.item;
        lot = new_id n;
        quantity = line.quantity;
        unit_cost = line.unit_cost;
      }
          ∷ r.0,
      r.1,
    )

  abbrev pub in_items : List InLine → List ℕ
  in_items [] = []
  in_items (l ∷ ls) = l.item ∷ in_items ls

  unfoldable pub stock_in :
      ℕ
      → ℕ
      → Option ℕ
      → List InLine
      → ℕ
      → Option ℕ
      → KitchenDb
      → Result KitchenCode (KitchenMovement × KitchenDb)
  stock_in id received_at supplier lines actor purchase_order db = do
    check_supplier supplier db.suppliers
    active_items false db.items (in_items lines)
    r ← receive_lots 0 received_at db.items lines db.lots
    create_movement id KitchenType.stock_in r.0 actor purchase_order none (record db { lots = r.1 })

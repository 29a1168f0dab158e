-- ===== src/Hotel/Transaction.antt =====
-- A movement inside a transaction (`applyInTransaction` and what it calls, in
-- modules/hotel-store/services/movement.service.ts). A transaction takes the tables and gives new
-- ones or a failure, on which the old ones stand.
pub mod Moves
pub mod Resolved
pub mod Effects
pub mod Applied
use axzy_ptnv_api.Base.{
  Bool, List, Option, [], false, given, if◌then◌else◌, leb, map, none, not, or_else, same_id, some,
  true, ℕ, ◌%◌, ◌&&◌, ◌+◌, ◌-◌, ◌==◌, ◌∷◌,
}
use axzy_ptnv_api.Base.Int.{ltb_ℤ, neg_part, negate, pos, pos_part, ℤ, ◌*ℤ◌, ◌+ℤ◌, ◌-ℤ◌}
use axzy_ptnv_api.Base.Lists.{find, length}
use axzy_ptnv_api.Base.Outcome.{
  Result, duplicate, err, http, ok, refused, required, throw_if, ◌>>=◌, ◌>>◌,
}
use axzy_ptnv_api.Hotel.Errors.{
  Code, location_not_in_warehouse, product_inactive, product_not_found, quantity_not_whole,
  unit_cost_required,
}
use axzy_ptnv_api.Hotel.Kardex.{
  ApprovalThresholds, MovementType, adjust_in, adjust_out, assert_different_locations,
  assert_sufficient_stock, inbound, ledger_deltas, needs_approval, nonzero, transfer,
}
use axzy_ptnv_api.Hotel.Positions.{Key, Stock, find_row, id_of, key_at, quantity_or_zero, set_row}
use axzy_ptnv_api.Hotel.Tables.{
  Db, Line, Location, Movement, MovementInput, RequestLine, Stamp, Status, active, pending_approval,
}

-- `Number.isInteger` of a quantity in thousandths.
unfoldable pub is_integer : ℤ → Bool
is_integer q = pos_part q % 1000 == 0 && neg_part q % 1000 == 0

unfoldable pub assert_whole_quantity : ℤ → Bool → Result Code (Unit {0})
assert_whole_quantity quantity whole =
    throw_if (whole && not (is_integer quantity)) 422 quantity_not_whole

-- What a DECIMAL(12,3) column keeps of `q` thousandths and `fraction` thousandths of one: the
-- nearest, and of two the greater, since no sum that is written is negative.
abbrev pub column : ℤ → ℕ → ℤ
column q fraction = if leb 500 fraction then q +ℤ pos 1 else q

-- Adds `delta` and `fraction` thousandths of a thousandth to a stock row; takes out only what the
-- stock covers, which a fraction below 1000 does not change.
unfoldable pub move : Key → ℤ → ℕ → Stock → Result Code Stock
move k delta fraction s = do
  let available = quantity_or_zero (find_row k s)
  if ltb_ℤ delta (pos 0) then assert_sufficient_stock available (negate delta) else ok tt
  elim (find_row k s) [
    | none ↦ ok (set_row k (column delta fraction) s)
    | some _ ↦ ok (set_row k (column (available +ℤ delta) fraction) s)
  ]

-- A null in the compound key is refused by the client.
unfoldable pub move_at : ℕ → Option ℕ → Option ℕ → ℤ → ℕ → Stock → Result Code Stock
move_at product warehouse location delta fraction s = do
  w ← required warehouse refused
  move (key_at product (some w) location) delta fraction s

-- The location given, or the default one; it must be active and of the warehouse.
unfoldable pub location_of : List Location → Option ℕ → Option ℕ → Result Code ℕ
location_of locations warehouse location = do
  w ← required warehouse refused
  found ←
      required
        (find
          (λ l.
            l.active
            && (l.warehouse == w
                && (if given location then l.id == id_of location else l.is_default)))
          locations)
        (http 422 location_not_in_warehouse)
  ok found.id

-- `deltas.source !== 0 ? await this.locationOf(…) : null`
unfoldable pub side_location : Bool → List Location → Option ℕ → Option ℕ → Result Code (Option ℕ)
side_location false locations warehouse location = ok none
side_location true locations warehouse location = do
  l ← location_of locations warehouse location
  ok (some l)

-- A line with its locations, and the warehouses that it moves between.
pub record ResolvedLine : Type 0 where
  pub line : Line
  pub finer : ℕ
  pub source_warehouse : Option ℕ
  pub target_warehouse : Option ℕ

abbrev is_transfer : MovementType → Bool
is_transfer transfer = true
is_transfer _ = false

abbrev is_inbound : MovementType → Bool
is_inbound inbound = true
is_inbound _ = false

abbrev pub is_null {ℓ} : {A : Type ℓ} → Option A → Bool
is_null none = true
is_null (some _) = false

unfoldable pub check_locations : MovementInput → Option ℕ → Option ℕ → Result Code (Unit {0})
check_locations input from to =
    if is_transfer input.type && same_id input.from_warehouse input.warehouse
    then assert_different_locations (id_of from) (id_of to)
    else ok tt

abbrev line_cost : Option ℤ → Option ℤ → Option ℤ
line_cost none last = last
line_cost (some c) last = some c

-- One pass of the first loop of `applyInTransaction`.
unfoldable pub resolve_line : Db → MovementInput → RequestLine → Result Code ResolvedLine
resolve_line db input request = do
  let line = request.line
  let deltas = ledger_deltas input.type
  product ← required (find (λ p. p.id == line.product) db.products) (http 404 product_not_found)
  throw_if (not product.active) 409 product_inactive
  assert_whole_quantity line.quantity product.whole
  throw_if (product.whole && not (request.finer == 0)) 422 quantity_not_whole
  from ← side_location (nonzero deltas.source) db.locations input.from_warehouse line.from_location
  to ← side_location (nonzero deltas.target) db.locations input.warehouse line.to_location
  check_locations input from to
  throw_if (is_inbound input.type && is_null line.unit_cost) 422 unit_cost_required
  ok (record {
    line = record {
      product = line.product;
      quantity = line.quantity;
      unit_cost = line_cost line.unit_cost product.last_cost;
      from_location = from;
      to_location = to;
    };
    finer = request.finer;
    source_warehouse = if nonzero deltas.source then input.from_warehouse else none;
    target_warehouse = if nonzero deltas.target then input.warehouse else none;
  })

unfoldable pub resolve_lines :
    Db → MovementInput → List RequestLine → Result Code (List ResolvedLine)
resolve_lines db input [] = ok []
resolve_lines db input (l ∷ ls) = do
  r ← resolve_line db input l
  rs ← resolve_lines db input ls
  ok (r ∷ rs)

-- The quantity of a line, in thousandths of a thousandth, as the totals are.
unfoldable pub fine_quantity : ResolvedLine → ℤ
fine_quantity r = (pos 1000 *ℤ r.line.quantity) +ℤ pos r.finer

unfoldable pub total_quantity : List ResolvedLine → ℤ
total_quantity [] = pos 0
total_quantity (r ∷ rs) = fine_quantity r +ℤ total_quantity rs

unfoldable pub total_cost : List ResolvedLine → ℤ
total_cost [] = pos 0
total_cost (r ∷ rs) = (fine_quantity r *ℤ or_else r.line.unit_cost (pos 0)) +ℤ total_cost rs

abbrev pub is_adjustment : MovementType → Bool
is_adjustment adjust_in = true
is_adjustment adjust_out = true
is_adjustment _ = false

-- An adjustment above the thresholds waits for approval.
unfoldable pub status_of : ApprovalThresholds → MovementInput → List ResolvedLine → Status
status_of thresholds input lines =
    if is_adjustment input.type
      && (not input.skip_approval
          && needs_approval (record { quantity = total_quantity lines; cost = total_cost lines })
              (record {
                quantity = pos 1000 *ℤ thresholds.quantity;
                cost = pos 1000 *ℤ thresholds.cost;
              }))
    then pending_approval
    else active

-- `-line.quantity`, in whole thousandths and a fraction that is added to them.
abbrev pub out_delta : ℤ → ℕ → ℤ
out_delta q finer = if finer == 0 then negate q else negate q -ℤ pos 1

abbrev pub out_fraction : ℕ → ℕ
out_fraction finer = if finer == 0 then 0 else 1000 - finer

unfoldable pub apply_line : ResolvedLine → Stock → Result Code Stock
apply_line r s = do
  s' ←
      if given r.line.from_location
      then move_at r.line.product r.source_warehouse r.line.from_location
          (out_delta r.line.quantity r.finer) (out_fraction r.finer) s
      else ok s
  if given r.line.to_location
      then move_at r.line.product r.target_warehouse r.line.to_location r.line.quantity r.finer s'
      else ok s'

unfoldable pub apply_lines : List ResolvedLine → Stock → Result Code Stock
apply_lines [] s = ok s
apply_lines (r ∷ rs) s = do s' ← apply_line r s; apply_lines rs s'

abbrev has_request : ℕ → Movement → Bool
has_request r m = same_id m.request (some r)

-- The unique index on the request key.
unfoldable pub find_request : Option ℕ → List Movement → Option Movement
find_request none ms = none
find_request (some r) ms = find (has_request r) ms

-- The insert: the unique indexes on the request key and on the folio are the database's.
unfoldable pub insert_movement : Movement → Db → Result Code (Movement × Db)
insert_movement m db = elim (find_request m.request db.movements) [
  | some _ ↦ err duplicate
  | none ↦ elim (find (λ n. n.folio == m.folio) db.movements) [
    | some _ ↦ err duplicate
    | none ↦ ok (m, record db { movements = m ∷ db.movements })
  ]
]

abbrev pub is_active : Status → Bool
is_active active = true
is_active _ = false

-- A line as its columns keep it.
abbrev pub stored_line : ResolvedLine → Line
stored_line r = record r.line { quantity = column r.line.quantity r.finer }

unfoldable pub movement_of :
    Stamp → MovementInput → ℕ → Option ℕ → ℕ → Status → List ResolvedLine → Movement
movement_of stamp input actor request folio status lines = record {
  id = stamp.id;
  folio = folio;
  type = input.type;
  status = status;
  from_warehouse = input.from_warehouse;
  warehouse = input.warehouse;
  room = input.room;
  reason = input.reason;
  created_by = actor;
  created_at = stamp.now;
  approved_by = none;
  request = request;
  stocktake = input.stocktake;
  lines = map stored_line lines;
}

unfoldable pub next_folio : Db → ℕ
next_folio db = length db.movements + 1

-- A movement inside the transaction of the caller, who has checked its shape.
unfoldable pub apply_in_transaction :
    ApprovalThresholds → Stamp → MovementInput → ℕ → Option ℕ → Db → Result Code (Movement × Db)
apply_in_transaction thresholds stamp input actor request db = do
  lines ← resolve_lines db input input.lines
  let status = status_of thresholds input lines
  stock ← if is_active status then apply_lines lines db.stock else ok db.stock
  insert_movement (movement_of stamp input actor request (next_folio db) status lines)
      (record db { stock = stock })

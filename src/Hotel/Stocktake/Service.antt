-- ===== src/Hotel/Stocktake/Service.antt =====
-- The operations on physical counts (modules/hotel-store/services/stocktake.service.ts).
use axzy_ptnv_api.Base.{
  Bool, List, Option, [], false, if◌then◌else◌, ltb, map, none, not, or_else, same_id, some, true,
  ℕ, ◌&&◌, ◌++◌, ◌+◌, ◌==◌, ◌||◌, ◌∷◌,
}
use axzy_ptnv_api.Base.Int.{ltb_ℤ, negate, pos, ℤ}
use axzy_ptnv_api.Base.Lists.{any, find, keep, length}
use axzy_ptnv_api.Base.Outcome.{Result, http, ok, required, throw_if, ◌>>=◌, ◌>>◌}
use axzy_ptnv_api.Hotel.Errors.{
  Code, location_not_in_warehouse, self_approval, stocktake_invalid_state, stocktake_not_found,
  stocktake_open_exists, stocktake_reason_missing, warehouse_not_found,
}
use axzy_ptnv_api.Hotel.Kardex.{
  ApprovalThresholds, MovementType, adjust_in, adjust_out, assert_movement_shape, nonzero,
}
use axzy_ptnv_api.Hotel.Positions.{Stock, expected_stock, find_row, quantity_or_zero}
use axzy_ptnv_api.Hotel.Posting.{shape_of}
use axzy_ptnv_api.Hotel.Stock.{active_ledger}
use axzy_ptnv_api.Hotel.Tables.{Db, Line, Location, Movement, MovementInput, Stamp, exact_line}
use axzy_ptnv_api.Hotel.Transaction.{apply_in_transaction, is_active}
use axzy_ptnv_api.Hotel.Stocktake.Rules.{
  Action, StocktakeStatus, assert_all_counted, assert_counted_quantity, count_difference, counting,
  draft, is_open, next_stocktake_status,
}

pub record Stocktake : Type 0 where
  pub id : ℕ
  pub folio : ℕ
  pub warehouse : ℕ
  pub blind : Bool
  pub status : StocktakeStatus
  pub created_by : ℕ
  pub snapshot_at : Option ℕ
  pub closed_by : Option ℕ
  pub approved_by : Option ℕ

pub record StocktakeLine : Type 0 where
  pub stocktake : ℕ
  pub product : ℕ
  pub location : ℕ
  pub system_qty : Option ℤ
  pub counted_qty : Option ℤ
  pub counted_by : Option ℕ

pub record Warehouse : Type 0 where
  pub id : ℕ
  pub active : Bool

-- `count_reason` is the active reason of adjustments by counts, where there is one.
pub record Store : Type 0 where
  pub db : Db
  pub warehouses : List Warehouse
  pub count_reason : Option ℕ
  pub stocktakes : List Stocktake
  pub lines : List StocktakeLine

unfoldable pub create : Stamp → ℕ → Option Bool → ℕ → Store → Result Code Store
create stamp warehouse blind actor s = do
  w ← required (find (λ v. v.id == warehouse) s.warehouses) (http 404 warehouse_not_found)
  throw_if (not w.active) 404 warehouse_not_found
  throw_if (any (λ t. t.warehouse == warehouse && is_open t.status) s.stocktakes) 409
      stocktake_open_exists
  ok (record s {
    stocktakes =
        record {
          id = stamp.id;
          folio = length s.stocktakes + 1;
          warehouse = warehouse;
          blind = or_else blind true;
          status = draft;
          created_by = actor;
          snapshot_at = none;
          closed_by = none;
          approved_by = none;
        }
        ∷ s.stocktakes;
  })

unfoldable pub find_stocktake : ℕ → Store → Result Code Stocktake
find_stocktake id s = required (find (λ t. t.id == id) s.stocktakes) (http 404 stocktake_not_found)

-- `update({ where: { id } })`
unfoldable pub put_stocktake : Stocktake → List Stocktake → List Stocktake
put_stocktake t [] = []
put_stocktake t (u ∷ us) = if u.id == t.id then t ∷ us else u ∷ put_stocktake t us

-- The photo: the rows of the warehouse with a positive quantity.
unfoldable pub photo : ℕ → ℕ → Stock → List StocktakeLine
photo id warehouse [] = []
photo id warehouse ((k, q) ∷ s) =
    if k.warehouse == warehouse && ltb_ℤ (pos 0) q
    then record {
      stocktake = id;
      product = k.product;
      location = k.location;
      system_qty = some q;
      counted_qty = none;
      counted_by = none;
    }
      ∷ photo id warehouse s
    else photo id warehouse s

unfoldable pub start : Stamp → ℕ → Store → Result Code Store
start stamp id s = do
  t ← find_stocktake id s
  next ← next_stocktake_status t.status Action.start
  ok (record s {
    lines = photo id t.warehouse s.db.stock ++ s.lines;
    stocktakes =
        put_stocktake (record t { status = counting; snapshot_at = some stamp.now }) s.stocktakes;
  })

pub record Capture : Type 0 where
  pub product : ℕ
  pub location : ℕ
  pub counted : ℤ

abbrev pub is_line : ℕ → ℕ → ℕ → StocktakeLine → Bool
is_line id product location l =
    l.stocktake == id && (l.product == product && l.location == location)

-- The count is written on the line, or on a new line that starts at zero.
unfoldable pub put_count : ℕ → Capture → ℕ → List StocktakeLine → List StocktakeLine
put_count id c actor [] =
    record {
      stocktake = id;
      product = c.product;
      location = c.location;
      system_qty = some (pos 0);
      counted_qty = some c.counted;
      counted_by = some actor;
    }
    ∷ []
put_count id c actor (l ∷ ls) =
    if is_line id c.product c.location l
    then record l { counted_qty = some c.counted; counted_by = some actor } ∷ ls
    else l ∷ put_count id c actor ls

unfoldable pub capture_lines :
    List Location → ℕ → ℕ → List Capture → ℕ → List StocktakeLine → Result Code (List StocktakeLine)
capture_lines locations id warehouse [] actor ls = ok ls
capture_lines locations id warehouse (c ∷ cs) actor ls = do
  assert_counted_quantity c.counted
  found ←
      required (find (λ l. l.id == c.location && (l.warehouse == warehouse && l.active)) locations)
        (http 422 location_not_in_warehouse)
  capture_lines locations id warehouse cs actor (put_count id c actor ls)

abbrev pub is_counting : StocktakeStatus → Bool
is_counting counting = true
is_counting _ = false

unfoldable pub capture : ℕ → List Capture → ℕ → Store → Result Code Store
capture id counts actor s = do
  t ← find_stocktake id s
  throw_if (not (is_counting t.status)) 409 stocktake_invalid_state
  ls ← capture_lines s.db.locations id t.warehouse counts actor s.lines
  ok (record s { lines = ls })

unfoldable pub lines_of : ℕ → List StocktakeLine → List StocktakeLine
lines_of id ls = keep (λ l. l.stocktake == id) ls

unfoldable pub close : ℕ → ℕ → Store → Result Code Store
close id actor s = do
  t ← find_stocktake id s
  next ← next_stocktake_status t.status Action.close
  assert_all_counted (map (λ (l : StocktakeLine). l.counted_qty) (lines_of id s.lines))
  ok (record s {
    stocktakes = put_stocktake (record t { status = next; closed_by = some actor }) s.stocktakes;
  })

-- The active movements of the warehouse that were created after the photo.
unfoldable pub movements_since : ℕ → ℕ → List Movement → List Movement
movements_since warehouse snapshot ms =
    keep
      (λ m.
        is_active m.status
        && (ltb snapshot m.created_at
            && (same_id m.warehouse (some warehouse) || same_id m.from_warehouse (some warehouse))))
      ms

-- The net movement of a product at a location since the photo; 0 where there is none.
unfoldable pub net_since : ℕ → ℕ → List Movement → ℕ → ℕ → ℤ
net_since warehouse snapshot ms product location = quantity_or_zero (
    find_row (record { product = product; warehouse = warehouse; location = location })
      (expected_stock (active_ledger (movements_since warehouse snapshot ms))))

pub record Difference : Type 0 where
  pub product : ℕ
  pub location : ℕ
  pub difference : ℤ

unfoldable pub difference_of : ℕ → ℕ → List Movement → StocktakeLine → Difference
difference_of warehouse snapshot ms l = record {
  product = l.product;
  location = l.location;
  difference =
      count_difference (or_else l.counted_qty (pos 0)) (or_else l.system_qty (pos 0))
        (net_since warehouse snapshot ms l.product l.location);
}

-- `difference > 0` and `difference < 0`; a difference of 0 is in neither.
abbrev pub is_inbound_difference : Difference → Bool
is_inbound_difference d = ltb_ℤ (pos 0) d.difference

abbrev pub is_outbound_difference : Difference → Bool
is_outbound_difference d = ltb_ℤ d.difference (pos 0)

abbrev pub is_difference : Difference → Bool
is_difference d = nonzero d.difference

abbrev pub absolute : ℤ → ℤ
absolute d = if ltb_ℤ d (pos 0) then negate d else d

unfoldable pub adjustment_line : MovementType → Difference → Line
adjustment_line type d = record {
  product = d.product;
  quantity = absolute d.difference;
  unit_cost = none;
  from_location = elim type [ adjust_out ↦ some d.location | _ ↦ none ];
  to_location = elim type [ adjust_in ↦ some d.location | _ ↦ none ];
}

unfoldable pub adjustment : MovementType → Stocktake → ℕ → List Difference → MovementInput
adjustment type t reason ds = record {
  type = type;
  from_warehouse = elim type [ adjust_out ↦ some t.warehouse | _ ↦ none ];
  warehouse = elim type [ adjust_in ↦ some t.warehouse | _ ↦ none ];
  room = none;
  reason = some reason;
  stocktake = some t.id;
  skip_approval = true;
  lines = map (λ d. exact_line (adjustment_line type d)) ds;
}

-- `post` of `approve`
unfoldable pub post_adjustment :
    ApprovalThresholds
    → Stamp
    → MovementType
    → Stocktake
    → ℕ
    → ℕ
    → List Difference
    → Db
    → Result Code Db
post_adjustment thresholds stamp type t reason actor [] db = ok db
post_adjustment thresholds stamp type t reason actor (d ∷ ds) db = do
  let input = adjustment type t reason (d ∷ ds)
  assert_movement_shape type (shape_of input)
  r ← apply_in_transaction thresholds stamp input actor none db
  ok r.1

unfoldable pub post_differences :
    ApprovalThresholds
    → Stamp
    → Stamp
    → Stocktake
    → Option ℕ
    → ℕ
    → List Difference
    → Db
    → Result Code Db
post_differences thresholds stamp stamp' t reason actor [] db = ok db
post_differences thresholds stamp stamp' t reason actor (d ∷ ds) db = do
  r ← required reason (http 422 stocktake_reason_missing)
  db' ←
      post_adjustment thresholds stamp adjust_in t r actor (keep is_inbound_difference (d ∷ ds)) db
  post_adjustment thresholds stamp' adjust_out t r actor (keep is_outbound_difference (d ∷ ds)) db'

unfoldable pub differences : Stocktake → ℕ → Store → List Difference
differences t snapshot s =
    keep is_difference
      (map (difference_of t.warehouse snapshot s.db.movements) (lines_of t.id s.lines))

unfoldable pub approve :
    ApprovalThresholds → Stamp → Stamp → ℕ → ℕ → Bool → Store → Result Code Store
approve thresholds stamp stamp' id actor can_approve_own_close s = do
  t ← find_stocktake id s
  next ← next_stocktake_status t.status Action.approve
  throw_if (same_id t.closed_by (some actor) && not can_approve_own_close) 403 self_approval
  snapshot ← required t.snapshot_at (http 409 stocktake_invalid_state)
  db' ←
      post_differences thresholds stamp stamp' t s.count_reason actor (differences t snapshot s)
        s.db
  ok (record s {
    db = db';
    stocktakes = put_stocktake (record t { status = next; approved_by = some actor }) s.stocktakes;
  })

unfoldable pub cancel : ℕ → Store → Result Code Store
cancel id s = do
  t ← find_stocktake id s
  next ← next_stocktake_status t.status Action.cancel
  ok (record s { stocktakes = put_stocktake (record t { status = next }) s.stocktakes })

-- ===== src/Hotel/Stock.antt =====
-- The reconciliation of the stored stock with the ledger
-- (modules/hotel-store/services/stock.service.ts).
use axzy_ptnv_api.Base.{List, Option, [], if◌then◌else◌, map, none, some, ℕ, ◌∷◌}
use axzy_ptnv_api.Base.Lists.{includes, keep}
use axzy_ptnv_api.Hotel.Positions.{
  LedgerLine, LedgerMovement, StockDifference, diff_stock, expected_stock,
}
use axzy_ptnv_api.Hotel.Tables.{Db, Line, Movement}
use axzy_ptnv_api.Hotel.Transaction.{is_active}

unfoldable pub ledger_line : Line → LedgerLine
ledger_line l = record {
  product = l.product;
  quantity = l.quantity;
  from_location = l.from_location;
  to_location = l.to_location;
}

unfoldable pub ledger_movement : Movement → LedgerMovement
ledger_movement m = record {
  type = m.type;
  from_warehouse = m.from_warehouse;
  warehouse = m.warehouse;
  lines = map ledger_line m.lines;
}

-- `where: { status: "ACTIVE" }`
unfoldable pub active_ledger : List Movement → List LedgerMovement
active_ledger [] = []
active_ledger (m ∷ ms) =
    if is_active m.status then ledger_movement m ∷ active_ledger ms else active_ledger ms

-- Null stands for the caller who sees every warehouse.
unfoldable pub reconcile : Option (List ℕ) → Db → List StockDifference
reconcile none db = diff_stock db.stock (expected_stock (active_ledger db.movements))
reconcile (some visible) db =
    keep (λ d. includes visible d.key.warehouse)
      (diff_stock db.stock (expected_stock (active_ledger db.movements)))

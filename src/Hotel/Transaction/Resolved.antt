-- ===== src/Hotel/Transaction/Resolved.antt =====
-- What a resolved line says: its warehouses are those of the request, on the sides that the type
-- of the movement has.
use axzy_ptnv_api.Base.{arith, false, if◌then◌else◌, none, ◌≡◌}
use axzy_ptnv_api.Base.Outcome.{ok}
use axzy_ptnv_api.Hotel.Kardex.{ledger_deltas, nonzero}
use axzy_ptnv_api.Hotel.Tables.{Db, MovementInput, RequestLine}
use axzy_ptnv_api.Hotel.Transaction.{ResolvedLine, resolve_line, side_location}

pub record IsResolved (input : MovementInput) (l : RequestLine) (r : ResolvedLine) : Type 0 where
  pub product : r.line.product ≡ l.line.product
  pub quantity : r.line.quantity ≡ l.line.quantity
  pub finer : r.finer ≡ l.finer
  pub source :
      r.source_warehouse
      ≡ (if nonzero (ledger_deltas input.type).source then input.from_warehouse else none)
  pub target :
      r.target_warehouse
      ≡ (if nonzero (ledger_deltas input.type).target then input.warehouse else none)
  pub from : nonzero (ledger_deltas input.type).source ≡ false → r.line.from_location ≡ none
  pub to : nonzero (ledger_deltas input.type).target ≡ false → r.line.to_location ≡ none

pub resolve_line-IsResolved :
    (db : Db) (input : MovementInput) (l : RequestLine) {r : ResolvedLine}
    → resolve_line db input l ≡ ok r
    → IsResolved input l r
unfolding resolve_line side_location
resolve_line-IsResolved db input l h = record {
  product = ground arith;
  quantity = ground arith;
  finer = ground arith;
  source = ground arith;
  target = ground arith;
  from = λ z. ground arith;
  to = λ z. ground arith;
}

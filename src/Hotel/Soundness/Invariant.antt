-- ===== src/Hotel/Soundness/Invariant.antt =====
-- The invariant of the hotel store: the stored stock is the sum of the active movements, no
-- position is negative, and every movement has the warehouses that its type needs.
use axzy_ptnv_api.Base.{List, ap, sym, ◌∙◌, ◌≡◌}
use axzy_ptnv_api.Base.Int.{ℤ, ◌+ℤ◌}
use axzy_ptnv_api.Base.Lists.{All}
use axzy_ptnv_api.Hotel.Positions.{Key, Stock}
use axzy_ptnv_api.Hotel.Stock.{active_ledger}
use axzy_ptnv_api.Hotel.Tables.{Db, Movement}
use axzy_ptnv_api.Hotel.Positions.Diff.{HasUniqueKeys}
use axzy_ptnv_api.Hotel.Positions.Laws.{ledger_effect, qty}
use axzy_ptnv_api.Hotel.Transaction.Effects.{IsShaped}
use axzy_ptnv_api.Hotel.Transaction.Moves.{Change, IsNonneg}

abbrev pub MovementIsShaped : Movement → Type 0
MovementIsShaped m = IsShaped m.type m.from_warehouse m.warehouse

pub record IsSound (db : Db) : Type 0 where
  pub balanced : (k : Key) → qty k db.stock ≡ ledger_effect k (active_ledger db.movements)
  pub nonneg : IsNonneg db.stock
  pub unique : HasUniqueKeys db.stock
  pub shaped : All MovementIsShaped db.movements

-- Stock that changes as the ledger does stays in balance.
pub Change-IsSound :
    (db : Db) {s : Stock} {ms : List Movement} {effect : Key → ℤ}
    → IsSound db
    → Change db.stock s effect
    → ((k : Key)
        → ledger_effect k (active_ledger ms)
          ≡ ledger_effect k (active_ledger db.movements) +ℤ effect k)
    → All MovementIsShaped ms
    → IsSound (record db { stock = s; movements = ms })
Change-IsSound db {effect} sound change grown shaped = record {
  balanced = λ k. change.moved k ∙ ap (λ x. x +ℤ effect k) (sound.balanced k) ∙ sym (grown k);
  nonneg = change.nonneg sound.nonneg;
  unique = change.unique sound.unique;
  shaped = shaped;
}

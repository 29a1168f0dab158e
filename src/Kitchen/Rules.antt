-- ===== src/Kitchen/Rules.antt =====
-- The signs of the kitchen's kardex and the state of its stock (modules/kitchen/services/ledger.ts
-- and stock.ts). Quantities are counted in thousandths.
pub mod Laws
use axzy_ptnv_api.Base.{
  Bool, Option, if◌then◌else◌, leb, ltb, none, or_else, some, ℕ, ◌*◌, ◌+◌, ◌-◌, ◌/◌, ◌==◌,
}

pub data KitchenType : Type 0 where
  stock_in adjustment_in consumption waste adjustment_out reversal : KitchenType

pub data Sign : Type 0 where
  plus minus : Sign

-- The types that are not reversals.
unfoldable pub plain_sign : KitchenType → Option Sign
plain_sign stock_in = some plus
plain_sign adjustment_in = some plus
plain_sign consumption = some minus
plain_sign waste = some minus
plain_sign adjustment_out = some minus
plain_sign reversal = none

abbrev pub opposite : Sign → Sign
opposite plus = minus
opposite minus = plus

-- none is the error that a reversal without a source type throws.
unfoldable pub kitchen_ledger_sign : KitchenType → Option KitchenType → Option Sign
kitchen_ledger_sign reversal none = none
kitchen_ledger_sign reversal (some source) = elim (plain_sign source) [
  | none ↦ none
  | some s ↦ some (opposite s)
]
kitchen_ledger_sign type source = plain_sign type

pub data StockStatus : Type 0 where
  low enough over : StockStatus

unfoldable pub stock_status : ℕ → ℕ → Option ℕ → StockStatus
stock_status held min_stock max_stock =
    if ltb held min_stock
    then low
    else elim max_stock [ none ↦ enough | some m ↦ if ltb m held then over else enough ]

abbrev pub ceil : ℕ → ℕ
ceil n = (n + 999) / 1000 * 1000

unfoldable pub suggested_quantity : ℕ → ℕ → Option ℕ → Bool → ℕ
suggested_quantity held min_stock max_stock is_whole =
    let target = or_else max_stock (min_stock * 2) in
    if is_whole then ceil (target - held) else target - held

pub data LotStatus : Type 0 where
  valid expiring expired empty : LotStatus

unfoldable pub lot_status : ℕ → Option ℕ → ℕ → ℕ → LotStatus
lot_status on_hand none today warning_days = if on_hand == 0 then empty else valid
lot_status on_hand (some expires_on) today warning_days =
    if on_hand == 0
    then empty
    else if ltb expires_on today
    then expired
    else if leb expires_on (today + warning_days)
    then expiring
    else valid

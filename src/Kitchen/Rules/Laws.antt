-- ===== src/Kitchen/Rules/Laws.antt =====
-- Signs, suggested orders and states of lots.
use axzy_ptnv_api.Base.{
  Bool, Option, arith, false, none, or_else, some, ℕ, ◌*◌, ◌+◌, ◌<◌, ◌↔◌, ◌≡◌, ◌≢◌, ◌≤◌,
}
use axzy_ptnv_api.Base.Int.{negate, pos, ℤ, ◌+ℤ◌}
use axzy_ptnv_api.Kitchen.Fefo.{FefoLot, is_usable}
use axzy_ptnv_api.Kitchen.Rules.{
  KitchenType, Sign, expired, kitchen_ledger_sign, lot_status, low, minus, plain_sign, plus,
  reversal, stock_status, suggested_quantity,
}

abbrev pub signed : Option Sign → ℕ → ℤ
signed none n = pos 0
signed (some plus) n = pos n
signed (some minus) n = negate (pos n)

-- A kitchen movement that is no reversal and the reversal of it both have a sign, and their
-- quantities add up to zero.
pub kitchen_ledger_sign-reversal :
    (type : KitchenType) (n : ℕ)
    → type ≢ reversal
    → (kitchen_ledger_sign type none ≢ none)
      × (kitchen_ledger_sign reversal (some type) ≢ none)
      × (signed (kitchen_ledger_sign type none) n
            +ℤ signed (kitchen_ledger_sign reversal (some type)) n
          ≡ pos 0)
unfolding kitchen_ledger_sign plain_sign negate ◌+ℤ◌
kitchen_ledger_sign-reversal type n h = ground arith

-- After an order of the suggested quantity the stock reaches its target and is not low, given
-- that the maximum, where there is one, is not below the minimum.
pub suggested_quantity-not_low :
    (held min_stock : ℕ) (max_stock : Option ℕ) (is_whole : Bool)
    → min_stock ≤ or_else max_stock min_stock
    → (or_else max_stock (min_stock * 2)
        ≤ held + suggested_quantity held min_stock max_stock is_whole)
      × (stock_status
            (held + suggested_quantity held min_stock max_stock is_whole)
            min_stock
            max_stock
          ≢ low)
unfolding suggested_quantity stock_status
suggested_quantity-not_low held min_stock max_stock is_whole h = ground arith

-- A lot is listed as expired exactly when it holds something and the split for a consumption
-- refuses it.
pub lot_status-expired_iff :
    (l : FefoLot) (today warning_days : ℕ)
    → (lot_status l.on_hand l.expires_on today warning_days ≡ expired)
      ↔ ((0 < l.on_hand) × (is_usable false today l ≡ false))
unfolding lot_status is_usable
lot_status-expired_iff l today warning_days = ground arith

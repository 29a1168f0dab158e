-- ===== src/Inventory/Ledger.antt =====
-- How much each line of a movement changes the available devices
-- (modules/inventory/services/ledger.ts).
use axzy_ptnv_api.Base.{Bool, Option, false, if◌then◌else◌, none, some, true}
use axzy_ptnv_api.Base.Int.{negate, pos, ℤ, ◌-ℤ◌}

pub data DeviceMovement : Type 0 where
  stock_in adjustment_in loan maintenance_in return maintenance_out retirement : DeviceMovement
  adjustment_out transfer reversal : DeviceMovement

pub data Condition : Type 0 where
  good fair poor broken : Condition

-- `condition === "POOR"`
abbrev pub is_poor : Option Condition → Bool
is_poor (some poor) = true
is_poor (some good) = false
is_poor (some fair) = false
is_poor (some broken) = false
is_poor none = false

-- The types that are not reversals; a reversal of nothing is 0.
unfoldable pub plain_delta : DeviceMovement → ℤ → Option Condition → ℤ
plain_delta stock_in quantity condition = quantity
plain_delta adjustment_in quantity condition = quantity
plain_delta loan quantity condition = negate quantity
plain_delta maintenance_in quantity condition = negate quantity
plain_delta return quantity condition = if is_poor condition then pos 0 else quantity
plain_delta maintenance_out quantity condition = if is_poor condition then pos 0 else quantity
plain_delta retirement quantity condition = if is_poor condition then pos 0 else negate quantity
plain_delta adjustment_out quantity condition = if is_poor condition then pos 0 else negate quantity
plain_delta transfer quantity condition = pos 0
plain_delta reversal quantity condition = pos 0

unfoldable pub ledger_delta : DeviceMovement → ℤ → Option Condition → Option DeviceMovement → ℤ
ledger_delta reversal quantity condition none = pos 0
ledger_delta reversal quantity condition (some reversal) = pos 0
ledger_delta reversal quantity condition (some source) =
    pos 0 -ℤ plain_delta source quantity condition
ledger_delta type quantity condition source = plain_delta type quantity condition

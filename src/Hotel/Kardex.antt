-- ===== src/Hotel/Kardex.antt =====
-- The pure rules of the warehouse ledger (modules/hotel-store/services/kardex-rules.ts).
-- Quantities are whole thousandths, the precision of `Decimal(12, 3)`; an identifier is a number,
-- and 0 is the empty string.
use axzy_ptnv_api.Base.{
  ℕ, ◌*◌, Bool, true, false, not, ◌&&◌, ◌||◌, Option, List, [], ◌∷◌, if◌then◌else◌, ◌==◌, given,
  same_id,
}
use axzy_ptnv_api.Base.Int.{ℤ, pos, negsuc, ltb_ℤ, leb_ℤ, eqb_ℤ}
use axzy_ptnv_api.Base.Outcome.{Result, ok, ◌>>◌, throw_if}
use axzy_ptnv_api.Hotel.Errors.{
  Code, movement_lines_required, quantity_invalid, movement_source_required,
  movement_target_required, movement_source_not_allowed, movement_target_not_allowed,
  movement_same_warehouse, room_required, movement_reason_required, stock_insufficient,
  transfer_same_location,
}

pub data MovementType : Type 0 where
  initial_load inbound transfer room_consumption linen_exchange adjust_in adjust_out : MovementType
  write_off : MovementType

-- Whether the source loses (-1) and the target gains (+1).
pub record LedgerDeltas : Type 0 where
  pub source : ℤ
  pub target : ℤ

abbrev minus_one : ℤ
minus_one = negsuc 0

unfoldable pub ledger_deltas : MovementType → LedgerDeltas
ledger_deltas initial_load = record { source = pos 0; target = pos 1 }
ledger_deltas inbound = record { source = pos 0; target = pos 1 }
ledger_deltas adjust_in = record { source = pos 0; target = pos 1 }
ledger_deltas transfer = record { source = minus_one; target = pos 1 }
ledger_deltas linen_exchange = record { source = minus_one; target = pos 1 }
ledger_deltas room_consumption = record { source = minus_one; target = pos 0 }
ledger_deltas adjust_out = record { source = minus_one; target = pos 0 }
ledger_deltas write_off = record { source = minus_one; target = pos 0 }

unfoldable pub invert_deltas : LedgerDeltas → LedgerDeltas
invert_deltas d = record {
  source = if eqb_ℤ d.source minus_one then pos 1 else pos 0;
  target = if eqb_ℤ d.target (pos 1) then minus_one else pos 0;
}

-- `delta !== 0`
abbrev pub nonzero : ℤ → Bool
nonzero d = not (eqb_ℤ d (pos 0))

abbrev pub is_room_type : MovementType → Bool
is_room_type room_consumption = true
is_room_type linen_exchange = true
is_room_type _ = false

abbrev pub is_two_sided : MovementType → Bool
is_two_sided transfer = true
is_two_sided linen_exchange = true
is_two_sided _ = false

abbrev pub needs_reason : MovementType → Bool
needs_reason adjust_in = true
needs_reason adjust_out = true
needs_reason write_off = true
needs_reason _ = false

unfoldable pub is_cancellable : MovementType → Bool
is_cancellable type = not (is_room_type type)

-- The part of a request that its shape depends on; `quantities` are those of the lines.
pub record MovementShape : Type 0 where
  pub from_warehouse : Option ℕ
  pub warehouse : Option ℕ
  pub room : Option ℕ
  pub reason : Option ℕ
  pub quantities : List ℤ

unfoldable pub assert_positive_quantity : ℤ → Result Code (Unit {0})
assert_positive_quantity quantity = throw_if (leb_ℤ quantity (pos 0)) 422 quantity_invalid

unfoldable pub assert_positive_quantities : List ℤ → Result Code (Unit {0})
unfolding assert_positive_quantity
assert_positive_quantities [] = ok tt
assert_positive_quantities (q ∷ qs) = assert_positive_quantity q >> assert_positive_quantities qs

abbrev is_empty : List ℤ → Bool
is_empty [] = true
is_empty (q ∷ qs) = false

unfoldable pub assert_movement_shape : MovementType → MovementShape → Result Code (Unit {0})
assert_movement_shape type input = do
  throw_if (is_empty input.quantities) 422 movement_lines_required
  assert_positive_quantities input.quantities
  let deltas = ledger_deltas type
  throw_if (nonzero deltas.source && not (given input.from_warehouse)) 422 movement_source_required
  throw_if (nonzero deltas.target && not (given input.warehouse)) 422 movement_target_required
  throw_if (not (nonzero deltas.source) && given input.from_warehouse) 422
      movement_source_not_allowed
  throw_if (not (nonzero deltas.target) && given input.warehouse) 422 movement_target_not_allowed
  throw_if
      (not (is_two_sided type)
        && given input.from_warehouse
        && same_id input.from_warehouse input.warehouse)
      422 movement_same_warehouse
  throw_if (is_room_type type && not (given input.room)) 422 room_required
  throw_if (needs_reason type && not (given input.reason)) 422 movement_reason_required

unfoldable pub assert_sufficient_stock : ℤ → ℤ → Result Code (Unit {0})
assert_sufficient_stock available required =
    throw_if (ltb_ℤ available required) 409 stock_insufficient

unfoldable pub assert_different_locations : ℕ → ℕ → Result Code (Unit {0})
assert_different_locations from to = throw_if (from == to) 422 transfer_same_location

pub record ApprovalThresholds : Type 0 where
  pub quantity : ℤ
  pub cost : ℤ

-- 10 in thousandths, and 1000 in the unit of a quantity times a cost in hundredths.
abbrev pub default_adjust_thresholds : ApprovalThresholds
default_adjust_thresholds = record { quantity = pos 10_000; cost = pos (1000 * (1000 * 100)) }

unfoldable pub needs_approval : ApprovalThresholds → ApprovalThresholds → Bool
needs_approval totals thresholds =
    ltb_ℤ thresholds.quantity totals.quantity || ltb_ℤ thresholds.cost totals.cost

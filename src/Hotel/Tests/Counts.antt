-- ===== src/Hotel/Tests/Counts.antt =====
-- A physical count of the small hotel store.
use axzy_ptnv_api.Base.{[], false, none, refl, some, true, ◌∷◌, ◌≡◌, ◌≢◌, ◌⊎◌}
use axzy_ptnv_api.Base.Int.{negate, pos, ◌*ℤ◌, ◌+ℤ◌, ◌-ℤ◌}
use axzy_ptnv_api.Base.Outcome.{err, http, ok}
use axzy_ptnv_api.Hotel.Errors.{self_approval}
use axzy_ptnv_api.Hotel.Kardex.{
  MovementType, assert_different_locations, assert_movement_shape, assert_positive_quantities,
  assert_positive_quantity, assert_sufficient_stock, default_adjust_thresholds, ledger_deltas,
  needs_approval,
}
use axzy_ptnv_api.Hotel.Positions.{
  add_to, by_key, diff_keys, diff_stock, expected_from, expected_line, expected_lines,
  expected_stock, find_row, keys, new_keys, set_row,
}
use axzy_ptnv_api.Hotel.Posting.{shape_of}
use axzy_ptnv_api.Hotel.Stock.{active_ledger, ledger_line, ledger_movement}
use axzy_ptnv_api.Hotel.Tables.{Status}
use axzy_ptnv_api.Hotel.Tests.{relocated, relocated-IsSound, stamp_of}
use axzy_ptnv_api.Hotel.Transaction.{
  apply_in_transaction, apply_line, apply_lines, assert_whole_quantity, check_locations,
  find_request, fine_quantity, insert_movement, is_integer, location_of, move, move_at, movement_of,
  next_folio, resolve_line, resolve_lines, side_location, status_of, total_cost, total_quantity,
}
use axzy_ptnv_api.Hotel.Positions.Laws.{ledger_effect, line_effect, lines_effect}
use axzy_ptnv_api.Hotel.Soundness.Invariant.{IsSound}
use axzy_ptnv_api.Hotel.Stocktake.Laws.{approve_stocktake-IsSound}
use axzy_ptnv_api.Hotel.Stocktake.Rules.{
  StocktakeStatus, allowed, count_difference, leads_to, next_stocktake_status,
}
use axzy_ptnv_api.Hotel.Stocktake.Service.{
  Stocktake, Store, adjustment, adjustment_line, approve, difference_of, differences,
  find_stocktake, lines_of, movements_since, net_since, post_adjustment, post_differences,
  put_stocktake,
}

abbrev counted : Store
counted = record {
  db = relocated;
  warehouses = record { id = 1; active = true } ∷ [];
  count_reason = some 8;
  stocktakes =
      record {
        id = 50;
        folio = 1;
        warehouse = 1;
        blind = true;
        status = StocktakeStatus.pending_approval;
        created_by = 2;
        snapshot_at = some 1101;
        closed_by = some 3;
        approved_by = none;
      }
      ∷ [];
  lines =
      record {
        stocktake = 50;
        product = 1;
        location = 11;
        system_qty = some (pos 2000);
        counted_qty = some (pos 1500);
        counted_by = some 3;
      }
      ∷ [];
}

-- The count found half a unit less, and is approved by someone else.
abbrev adjusted : Store
adjusted = record {
  db = record {
    products = relocated.products;
    locations = relocated.locations;
    stock =
        (record { product = 1; warehouse = 1; location = 11 }, pos 1500)
        ∷ (record { product = 1; warehouse = 2; location = 21 }, pos 3000)
        ∷ [];
    movements =
        record {
          id = 111;
          folio = 3;
          type = MovementType.adjust_out;
          status = Status.active;
          from_warehouse = some 1;
          warehouse = none;
          room = none;
          reason = some 8;
          created_by = 4;
          created_at = 1111;
          approved_by = none;
          request = none;
          stocktake = some 50;
          lines =
              record {
                product = 1;
                quantity = pos 500;
                unit_cost = none;
                from_location = some 11;
                to_location = none;
              }
              ∷ [];
        }
        ∷ relocated.movements;
  };
  warehouses = counted.warehouses;
  count_reason = some 8;
  stocktakes =
      record {
        id = 50;
        folio = 1;
        warehouse = 1;
        blind = true;
        status = StocktakeStatus.applied;
        created_by = 2;
        snapshot_at = some 1101;
        closed_by = some 3;
        approved_by = some 4;
      }
      ∷ [];
  lines = counted.lines;
}

count_is_approved :
    approve default_adjust_thresholds (stamp_of 110) (stamp_of 111) 50 4 false counted ≡ ok adjusted
unfolding ◌+ℤ◌ ◌-ℤ◌ ◌*ℤ◌ negate find_row set_row add_to expected_line expected_lines expected_from
    expected_stock by_key new_keys keys diff_keys diff_stock line_effect lines_effect ledger_effect
    allowed leads_to next_stocktake_status count_difference ledger_deltas assert_positive_quantity
    assert_positive_quantities assert_movement_shape assert_sufficient_stock
    assert_different_locations needs_approval is_integer assert_whole_quantity move move_at
    location_of side_location check_locations resolve_line resolve_lines total_quantity total_cost
    fine_quantity status_of apply_line apply_lines find_request insert_movement movement_of
    next_folio apply_in_transaction ledger_line ledger_movement active_ledger shape_of
    find_stocktake put_stocktake lines_of movements_since net_since difference_of adjustment_line
    adjustment post_adjustment post_differences differences approve
count_is_approved = refl

closer_may_not_approve :
    approve default_adjust_thresholds (stamp_of 110) (stamp_of 111) 50 3 false counted
    ≡ err (http 403 self_approval)
unfolding ◌+ℤ◌ ◌-ℤ◌ ◌*ℤ◌ negate find_row set_row add_to expected_line expected_lines expected_from
    expected_stock by_key new_keys keys diff_keys diff_stock line_effect lines_effect ledger_effect
    allowed leads_to next_stocktake_status count_difference ledger_deltas assert_positive_quantity
    assert_positive_quantities assert_movement_shape assert_sufficient_stock
    assert_different_locations needs_approval is_integer assert_whole_quantity move move_at
    location_of side_location check_locations resolve_line resolve_lines total_quantity total_cost
    fine_quantity status_of apply_line apply_lines find_request insert_movement movement_of
    next_folio apply_in_transaction ledger_line ledger_movement active_ledger shape_of
    find_stocktake put_stocktake lines_of movements_since net_since difference_of adjustment_line
    adjustment post_adjustment post_differences differences approve
closer_may_not_approve = refl

approve_stocktake-IsSound_example :
    IsSound adjusted.db
    × ((t : Stocktake) × (find_stocktake 50 counted ≡ ok t)
        × (t.status ≡ StocktakeStatus.pending_approval)
        × ((t.closed_by ≢ some 4) ⊎ (false ≡ true)))
approve_stocktake-IsSound_example =
    approve_stocktake-IsSound default_adjust_thresholds (stamp_of 110) (stamp_of 111) 50 4 false
      counted relocated-IsSound count_is_approved

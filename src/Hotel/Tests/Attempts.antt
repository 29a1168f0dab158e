-- ===== src/Hotel/Tests/Attempts.antt =====
-- Attempts that the database ends, on the small hotel store.
use mathlib.Core.Path.{subst}
use axzy_ptnv_api.Base.{arith, refl, some, sym, ℕ, ◌+◌, ◌<◌, ◌≡◌}
use axzy_ptnv_api.Base.Int.{negate, ◌*ℤ◌, ◌+ℤ◌, ◌-ℤ◌}
use axzy_ptnv_api.Base.Outcome.{conflict, ok}
use axzy_ptnv_api.Hotel.Kardex.{
  assert_different_locations, assert_movement_shape, assert_positive_quantities,
  assert_positive_quantity, assert_sufficient_stock, default_adjust_thresholds, ledger_deltas,
  needs_approval,
}
use axzy_ptnv_api.Hotel.Positions.{find_row, set_row}
use axzy_ptnv_api.Hotel.Posting.{is_api_type, post, shape_of}
use axzy_ptnv_api.Hotel.Tests.{first_aborts, opening, receipt, receipt_entry, received, stamp_of}
use axzy_ptnv_api.Hotel.Transaction.{
  apply_in_transaction, apply_line, apply_lines, assert_whole_quantity, check_locations,
  find_request, fine_quantity, insert_movement, is_integer, location_of, move, move_at, movement_of,
  next_folio, resolve_line, resolve_lines, side_location, status_of, total_cost, total_quantity,
}
use axzy_ptnv_api.Hotel.Posting.Retries.{post-reaches}

only_first : (i : ℕ) → i < 1 → first_aborts (1 + i) ≡ some conflict
only_first i below =
    let e : i ≡ 0 = omega (arith, below) in
    subst (λ x. first_aborts (1 + x) ≡ some conflict) (sym e) refl

receipt_goes_through :
    apply_in_transaction default_adjust_thresholds (stamp_of 100) receipt 9 (some 7) opening
    ≡ ok (receipt_entry, received)
unfolding ◌+ℤ◌ ◌-ℤ◌ ◌*ℤ◌ negate find_row set_row ledger_deltas assert_positive_quantity
    assert_positive_quantities assert_movement_shape assert_sufficient_stock
    assert_different_locations needs_approval is_integer assert_whole_quantity move move_at
    location_of side_location check_locations resolve_line resolve_lines total_quantity total_cost
    fine_quantity status_of apply_line apply_lines find_request insert_movement movement_of
    next_folio apply_in_transaction shape_of
receipt_goes_through = refl

receipt_shape : assert_movement_shape receipt.type (shape_of receipt) ≡ ok tt
unfolding ◌+ℤ◌ ◌-ℤ◌ ◌*ℤ◌ negate find_row set_row ledger_deltas assert_positive_quantity
    assert_positive_quantities assert_movement_shape assert_sufficient_stock
    assert_different_locations needs_approval is_integer assert_whole_quantity move move_at
    location_of side_location check_locations resolve_line resolve_lines total_quantity total_cost
    fine_quantity status_of apply_line apply_lines find_request insert_movement movement_of
    next_folio apply_in_transaction shape_of
receipt_shape = refl

post-reaches_example :
    post default_adjust_thresholds (stamp_of 100) first_aborts receipt 9 (some 7) opening
    ≡ ok (receipt_entry, received)
unfolding is_api_type find_request
post-reaches_example =
    post-reaches default_adjust_thresholds (stamp_of 100) first_aborts 1 receipt 9 (some 7) opening
      refl refl receipt_shape (omega arith) only_first refl receipt_goes_through

-- ===== src/Hotel/Tests.antt =====
-- A small hotel store, and the theorems at it.
pub mod Attempts
pub mod Counts
pub mod Housekeeping
use axzy_ptnv_api.Base.{
  Option, [], arith, false, if◌then◌else◌, none, refl, some, true, ℕ, ◌+◌, ◌==◌, ◌∷◌, ◌≡◌, ◌≢◌,
}
use axzy_ptnv_api.Base.Int.{negate, pos, ℤ, ◌*ℤ◌, ◌+ℤ◌, ◌-ℤ◌}
use axzy_ptnv_api.Base.Outcome.{Failure, conflict, err, http, ok}
use axzy_ptnv_api.Hotel.Decision.{
  approve, approve_line, approve_lines, cancel, cancel_line, cancel_lines, find_movement,
  find_pending, reject, settle,
}
use axzy_ptnv_api.Hotel.Errors.{Code, movement_same_warehouse, stock_insufficient}
use axzy_ptnv_api.Hotel.Kardex.{
  MovementType, assert_different_locations, assert_movement_shape, assert_positive_quantities,
  assert_positive_quantity, assert_sufficient_stock, default_adjust_thresholds, invert_deltas,
  is_cancellable, ledger_deltas, needs_approval,
}
use axzy_ptnv_api.Hotel.Positions.{
  Key, add_to, by_key, diff_keys, diff_stock, expected_from, expected_line, expected_lines,
  expected_stock, find_row, keys, new_keys, set_row,
}
use axzy_ptnv_api.Hotel.Posting.{attempt, is_api_type, post, post_from, shape_of, thrown}
use axzy_ptnv_api.Hotel.Stock.{active_ledger, ledger_line, ledger_movement, reconcile}
use axzy_ptnv_api.Hotel.Tables.{
  Db, Line, Movement, MovementInput, ProductKind, Stamp, Status, active, exact_line,
}
use axzy_ptnv_api.Hotel.Transaction.{
  apply_in_transaction, apply_line, apply_lines, assert_whole_quantity, check_locations,
  find_request, fine_quantity, insert_movement, is_integer, location_of, move, move_at, movement_of,
  next_folio, resolve_line, resolve_lines, side_location, status_of, total_cost, total_quantity,
}
use axzy_ptnv_api.Hotel.Positions.Laws.{ledger_effect, line_effect, lines_effect, qty}
use axzy_ptnv_api.Hotel.Posting.Replay.{and_post, no_post, post-IsSound, post_again}
use axzy_ptnv_api.Hotel.Soundness.Decided.{approve-IsSound, cancel-IsSound}
use axzy_ptnv_api.Hotel.Soundness.Invariant.{IsSound}
use axzy_ptnv_api.Hotel.Soundness.Requested.{apply_in_transaction-IsSound}
use axzy_ptnv_api.Hotel.Soundness.Reversal.{cancel-apply, reconcile_complete, reconcile_sound}
use axzy_ptnv_api.Hotel.Soundness.Shaped.{shape-ne-same_warehouse}
use axzy_ptnv_api.Hotel.Stocktake.Rules.{allowed, count_difference, leads_to, next_stocktake_status}

abbrev pub opening : Db
opening = record {
  products =
      record {
        id = 1;
        active = true;
        whole = false;
        kind = ProductKind.consumable;
        last_cost = none;
      }
      ∷ [];
  locations =
      record { id = 11; warehouse = 1; is_default = true; active = true }
      ∷ record { id = 21; warehouse = 2; is_default = true; active = true }
      ∷ [];
  stock = [];
  movements = [];
}

abbrev line_of : ℤ → Line
line_of quantity = record {
  product = 1;
  quantity = quantity;
  unit_cost = some (pos 250);
  from_location = none;
  to_location = none;
}

-- Five units received in warehouse 1, three of them moved to warehouse 2, twelve adjusted in.
abbrev pub receipt : MovementInput
receipt = record {
  type = MovementType.inbound;
  from_warehouse = none;
  warehouse = some 1;
  room = none;
  reason = none;
  stocktake = none;
  skip_approval = false;
  lines = exact_line (line_of (pos 5000)) ∷ [];
}

abbrev relocation : MovementInput
relocation = record receipt {
  type = MovementType.transfer;
  from_warehouse = some 1;
  warehouse = some 2;
  lines = exact_line (line_of (pos 3000)) ∷ [];
}

abbrev adjustment_in : MovementInput
adjustment_in = record receipt {
  type = MovementType.adjust_in;
  reason = some 4;
  lines = exact_line (line_of (pos 12000)) ∷ [];
}

abbrev pub stamp_of : ℕ → Stamp
stamp_of n = record { id = n; now = 1000 + n }

-- The database ends the first attempt with a conflict.
abbrev pub first_aborts : ℕ → Option (Failure Code)
first_aborts n = if n == 1 then some conflict else none

abbrev entry : ℕ → MovementInput → Status → Option ℕ → Option ℕ → Line → Movement
entry n input status request approved_by line = record {
  id = 100 + n;
  folio = n + 1;
  type = input.type;
  status = status;
  from_warehouse = input.from_warehouse;
  warehouse = input.warehouse;
  room = none;
  reason = input.reason;
  created_by = 9;
  created_at = 1100 + n;
  approved_by = approved_by;
  request = request;
  stocktake = none;
  lines = line ∷ [];
}

abbrev at_1 : Key
at_1 = record { product = 1; warehouse = 1; location = 11 }

abbrev in_1 : ℤ → Key × ℤ
in_1 q = (at_1, q)

abbrev in_2 : ℤ → Key × ℤ
in_2 q = (record { product = 1; warehouse = 2; location = 21 }, q)

abbrev pub receipt_entry : Movement
receipt_entry =
    entry 0 receipt Status.active (some 7) none
      (record (line_of (pos 5000)) { to_location = some 11 })

abbrev pub received : Db
received = record opening { stock = in_1 (pos 5000) ∷ []; movements = receipt_entry ∷ [] }

abbrev relocation_entry : Movement
relocation_entry =
    entry 1 relocation Status.active none none
      (record (line_of (pos 3000)) { from_location = some 11; to_location = some 21 })

abbrev pub relocated : Db
relocated = record opening {
  stock = in_1 (pos 2000) ∷ in_2 (pos 3000) ∷ [];
  movements = relocation_entry ∷ receipt_entry ∷ [];
}

abbrev adjustment_entry : Status → Option ℕ → Movement
adjustment_entry status approved_by =
    entry 1 adjustment_in status none approved_by
      (record (line_of (pos 12000)) { to_location = some 11 })

-- Twelve units are more than may be adjusted without approval.
abbrev awaiting : Db
awaiting = record received {
  movements = adjustment_entry Status.pending_approval none ∷ receipt_entry ∷ [];
}

abbrev approved : Db
approved = record opening {
  stock = in_1 (pos 17000) ∷ [];
  movements = adjustment_entry Status.active (some 5) ∷ receipt_entry ∷ [];
}

abbrev refused_adjustment : Db
refused_adjustment = record awaiting {
  movements = adjustment_entry Status.cancelled (some 5) ∷ receipt_entry ∷ [];
}

abbrev moved_back : Db
moved_back = record opening {
  stock = in_1 (pos 5000) ∷ in_2 (pos 0) ∷ [];
  movements =
      record relocation_entry { status = Status.cancelled; approved_by = some 6 }
      ∷ receipt_entry
      ∷ [];
}

-- Posting, with one attempt that the database aborts, and no stock to take out at first.
receipt_is_posted :
    post default_adjust_thresholds (stamp_of 100) first_aborts receipt 9 (some 7) opening
    ≡ ok (receipt_entry, received)
unfolding ◌+ℤ◌ ◌-ℤ◌ ◌*ℤ◌ negate find_row set_row add_to expected_line expected_lines expected_from
    expected_stock by_key new_keys keys diff_keys diff_stock line_effect lines_effect ledger_effect
    allowed leads_to next_stocktake_status count_difference find_movement settle find_pending
    approve_line approve_lines ledger_deltas invert_deltas is_cancellable assert_positive_quantity
    assert_positive_quantities assert_movement_shape assert_sufficient_stock
    assert_different_locations needs_approval is_integer assert_whole_quantity move move_at
    location_of side_location check_locations resolve_line resolve_lines total_quantity total_cost
    fine_quantity status_of apply_line apply_lines find_request insert_movement movement_of
    next_folio apply_in_transaction ledger_line ledger_movement active_ledger reconcile is_api_type
    shape_of thrown attempt post_from post cancel_line cancel_lines
receipt_is_posted = refl

relocation_needs_stock :
    post default_adjust_thresholds (stamp_of 101) first_aborts relocation 9 none opening
    ≡ err (http 409 stock_insufficient)
unfolding ◌+ℤ◌ ◌-ℤ◌ ◌*ℤ◌ negate find_row set_row add_to expected_line expected_lines expected_from
    expected_stock by_key new_keys keys diff_keys diff_stock line_effect lines_effect ledger_effect
    allowed leads_to next_stocktake_status count_difference find_movement settle find_pending
    approve_line approve_lines ledger_deltas invert_deltas is_cancellable assert_positive_quantity
    assert_positive_quantities assert_movement_shape assert_sufficient_stock
    assert_different_locations needs_approval is_integer assert_whole_quantity move move_at
    location_of side_location check_locations resolve_line resolve_lines total_quantity total_cost
    fine_quantity status_of apply_line apply_lines find_request insert_movement movement_of
    next_folio apply_in_transaction ledger_line ledger_movement active_ledger reconcile is_api_type
    shape_of thrown attempt post_from post cancel_line cancel_lines
relocation_needs_stock = refl

relocation_shape : assert_movement_shape relocation.type (shape_of relocation) ≡ ok tt
unfolding ◌+ℤ◌ ◌-ℤ◌ ◌*ℤ◌ negate find_row set_row add_to expected_line expected_lines expected_from
    expected_stock by_key new_keys keys diff_keys diff_stock line_effect lines_effect ledger_effect
    allowed leads_to next_stocktake_status count_difference find_movement settle find_pending
    approve_line approve_lines ledger_deltas invert_deltas is_cancellable assert_positive_quantity
    assert_positive_quantities assert_movement_shape assert_sufficient_stock
    assert_different_locations needs_approval is_integer assert_whole_quantity move move_at
    location_of side_location check_locations resolve_line resolve_lines total_quantity total_cost
    fine_quantity status_of apply_line apply_lines find_request insert_movement movement_of
    next_folio apply_in_transaction ledger_line ledger_movement active_ledger reconcile is_api_type
    shape_of thrown attempt post_from post cancel_line cancel_lines
relocation_shape = refl

relocation_is_applied :
    apply_in_transaction default_adjust_thresholds (stamp_of 101) relocation 9 none received
    ≡ ok (relocation_entry, relocated)
unfolding ◌+ℤ◌ ◌-ℤ◌ ◌*ℤ◌ negate find_row set_row add_to expected_line expected_lines expected_from
    expected_stock by_key new_keys keys diff_keys diff_stock line_effect lines_effect ledger_effect
    allowed leads_to next_stocktake_status count_difference find_movement settle find_pending
    approve_line approve_lines ledger_deltas invert_deltas is_cancellable assert_positive_quantity
    assert_positive_quantities assert_movement_shape assert_sufficient_stock
    assert_different_locations needs_approval is_integer assert_whole_quantity move move_at
    location_of side_location check_locations resolve_line resolve_lines total_quantity total_cost
    fine_quantity status_of apply_line apply_lines find_request insert_movement movement_of
    next_folio apply_in_transaction ledger_line ledger_movement active_ledger reconcile is_api_type
    shape_of thrown attempt post_from post cancel_line cancel_lines
relocation_is_applied = refl

adjustment_waits :
    post default_adjust_thresholds (stamp_of 101) first_aborts adjustment_in 9 none received
    ≡ ok (adjustment_entry Status.pending_approval none, awaiting)
unfolding ◌+ℤ◌ ◌-ℤ◌ ◌*ℤ◌ negate find_row set_row add_to expected_line expected_lines expected_from
    expected_stock by_key new_keys keys diff_keys diff_stock line_effect lines_effect ledger_effect
    allowed leads_to next_stocktake_status count_difference find_movement settle find_pending
    approve_line approve_lines ledger_deltas invert_deltas is_cancellable assert_positive_quantity
    assert_positive_quantities assert_movement_shape assert_sufficient_stock
    assert_different_locations needs_approval is_integer assert_whole_quantity move move_at
    location_of side_location check_locations resolve_line resolve_lines total_quantity total_cost
    fine_quantity status_of apply_line apply_lines find_request insert_movement movement_of
    next_folio apply_in_transaction ledger_line ledger_movement active_ledger reconcile is_api_type
    shape_of thrown attempt post_from post cancel_line cancel_lines
adjustment_waits = refl

adjustment_is_approved : approve 101 5 awaiting ≡ ok approved
unfolding approve ◌+ℤ◌ ◌-ℤ◌ ◌*ℤ◌ negate find_row set_row add_to expected_line expected_lines
    expected_from expected_stock by_key new_keys keys diff_keys diff_stock line_effect lines_effect
    ledger_effect allowed leads_to next_stocktake_status count_difference find_movement settle
    find_pending approve_line approve_lines ledger_deltas invert_deltas is_cancellable
    assert_positive_quantity assert_positive_quantities assert_movement_shape
    assert_sufficient_stock assert_different_locations needs_approval is_integer
    assert_whole_quantity move move_at location_of side_location check_locations resolve_line
    resolve_lines total_quantity total_cost fine_quantity status_of apply_line apply_lines
    find_request insert_movement movement_of next_folio apply_in_transaction ledger_line
    ledger_movement active_ledger reconcile is_api_type shape_of thrown attempt post_from post
    cancel_line cancel_lines
adjustment_is_approved = refl

adjustment_is_rejected : reject 101 5 awaiting ≡ ok refused_adjustment
unfolding reject ◌+ℤ◌ ◌-ℤ◌ ◌*ℤ◌ negate find_row set_row add_to expected_line expected_lines
    expected_from expected_stock by_key new_keys keys diff_keys diff_stock line_effect lines_effect
    ledger_effect allowed leads_to next_stocktake_status count_difference find_movement settle
    find_pending approve_line approve_lines ledger_deltas invert_deltas is_cancellable
    assert_positive_quantity assert_positive_quantities assert_movement_shape
    assert_sufficient_stock assert_different_locations needs_approval is_integer
    assert_whole_quantity move move_at location_of side_location check_locations resolve_line
    resolve_lines total_quantity total_cost fine_quantity status_of apply_line apply_lines
    find_request insert_movement movement_of next_folio apply_in_transaction ledger_line
    ledger_movement active_ledger reconcile is_api_type shape_of thrown attempt post_from post
    cancel_line cancel_lines
adjustment_is_rejected = refl

relocation_is_cancelled : cancel 101 6 relocated ≡ ok moved_back
unfolding cancel ◌+ℤ◌ ◌-ℤ◌ ◌*ℤ◌ negate find_row set_row add_to expected_line expected_lines
    expected_from expected_stock by_key new_keys keys diff_keys diff_stock line_effect lines_effect
    ledger_effect allowed leads_to next_stocktake_status count_difference find_movement settle
    find_pending approve_line approve_lines ledger_deltas invert_deltas is_cancellable
    assert_positive_quantity assert_positive_quantities assert_movement_shape
    assert_sufficient_stock assert_different_locations needs_approval is_integer
    assert_whole_quantity move move_at location_of side_location check_locations resolve_line
    resolve_lines total_quantity total_cost fine_quantity status_of apply_line apply_lines
    find_request insert_movement movement_of next_folio apply_in_transaction ledger_line
    ledger_movement active_ledger reconcile is_api_type shape_of thrown attempt post_from post
    cancel_line cancel_lines
relocation_is_cancelled = refl

opening-IsSound : IsSound opening
unfolding ◌+ℤ◌ ◌-ℤ◌ ◌*ℤ◌ negate find_row set_row add_to expected_line expected_lines expected_from
    expected_stock by_key new_keys keys diff_keys diff_stock line_effect lines_effect ledger_effect
    allowed leads_to next_stocktake_status count_difference find_movement settle find_pending
    approve_line approve_lines ledger_deltas invert_deltas is_cancellable assert_positive_quantity
    assert_positive_quantities assert_movement_shape assert_sufficient_stock
    assert_different_locations needs_approval is_integer assert_whole_quantity move move_at
    location_of side_location check_locations resolve_line resolve_lines total_quantity total_cost
    fine_quantity status_of apply_line apply_lines find_request insert_movement movement_of
    next_folio apply_in_transaction ledger_line ledger_movement active_ledger reconcile is_api_type
    shape_of thrown attempt post_from post cancel_line cancel_lines
opening-IsSound = record {
  balanced = (λ k. refl);
  nonneg = (λ k. ground arith);
  unique = tt;
  shaped = tt;
}

received-IsSound : IsSound received
received-IsSound =
    post-IsSound default_adjust_thresholds (stamp_of 100) first_aborts receipt 9 (some 7) opening
      (refl, tt) opening-IsSound receipt_is_posted

pub relocated-IsSound : IsSound relocated
relocated-IsSound =
    apply_in_transaction-IsSound default_adjust_thresholds (stamp_of 101) relocation 9 none received
      relocation_shape (refl, tt) received-IsSound relocation_is_applied

awaiting-IsSound : IsSound awaiting
awaiting-IsSound =
    post-IsSound default_adjust_thresholds (stamp_of 101) first_aborts adjustment_in 9 none received
      (refl, tt) received-IsSound adjustment_waits

-- Half a thousandth that is moved to another warehouse arrives there as a whole one, and does not
-- leave the first.
abbrev half_thousandth : MovementInput
half_thousandth = record relocation { lines = record { line = line_of (pos 0); finer = 500 } ∷ [] }

abbrev half_entry : Movement
half_entry =
    entry 1 half_thousandth Status.active none none
      (record (line_of (pos 1)) { from_location = some 11; to_location = some 21 })

abbrev created_half : Db
created_half = record received {
  stock = in_1 (pos 5000) ∷ in_2 (pos 1) ∷ [];
  movements = half_entry ∷ received.movements;
}

half_thousandth_is_created :
    post default_adjust_thresholds (stamp_of 101) first_aborts half_thousandth 9 none received
    ≡ ok (half_entry, created_half)
unfolding ◌+ℤ◌ ◌-ℤ◌ ◌*ℤ◌ negate find_row set_row add_to expected_line expected_lines expected_from
    expected_stock by_key new_keys keys diff_keys diff_stock line_effect lines_effect ledger_effect
    allowed leads_to next_stocktake_status count_difference find_movement settle find_pending
    approve_line approve_lines ledger_deltas invert_deltas is_cancellable assert_positive_quantity
    assert_positive_quantities assert_movement_shape assert_sufficient_stock
    assert_different_locations needs_approval is_integer assert_whole_quantity move move_at
    location_of side_location check_locations resolve_line resolve_lines total_quantity total_cost
    fine_quantity status_of apply_line apply_lines find_request insert_movement movement_of
    next_folio apply_in_transaction ledger_line ledger_movement active_ledger reconcile is_api_type
    shape_of thrown attempt post_from post cancel_line cancel_lines
half_thousandth_is_created = refl

half_thousandth_is_reported : reconcile none created_half ≢ []
unfolding ◌+ℤ◌ ◌-ℤ◌ ◌*ℤ◌ negate find_row set_row add_to expected_line expected_lines expected_from
    expected_stock by_key new_keys keys diff_keys diff_stock line_effect lines_effect ledger_effect
    allowed leads_to next_stocktake_status count_difference find_movement settle find_pending
    approve_line approve_lines ledger_deltas invert_deltas is_cancellable assert_positive_quantity
    assert_positive_quantities assert_movement_shape assert_sufficient_stock
    assert_different_locations needs_approval is_integer assert_whole_quantity move move_at
    location_of side_location check_locations resolve_line resolve_lines total_quantity total_cost
    fine_quantity status_of apply_line apply_lines find_request insert_movement movement_of
    next_folio apply_in_transaction ledger_line ledger_movement active_ledger reconcile is_api_type
    shape_of thrown attempt post_from post cancel_line cancel_lines
half_thousandth_is_reported h = cc

post-IsSound_example : IsSound received
post-IsSound_example =
    post-IsSound default_adjust_thresholds (stamp_of 100) first_aborts receipt 9 (some 7) opening
      (refl, tt) opening-IsSound receipt_is_posted

apply_in_transaction-IsSound_example : IsSound relocated
apply_in_transaction-IsSound_example =
    apply_in_transaction-IsSound default_adjust_thresholds (stamp_of 101) relocation 9 none received
      relocation_shape (refl, tt) received-IsSound relocation_is_applied

post_again_example :
    post default_adjust_thresholds (stamp_of 300) first_aborts relocation 2 (some 7) awaiting
    ≡ ok (receipt_entry, awaiting)
unfolding is_api_type
post_again_example =
    post_again default_adjust_thresholds (stamp_of 100) (stamp_of 300) first_aborts first_aborts
      receipt relocation 9 2 (some 7) opening refl refl receipt_is_posted
      (and_post default_adjust_thresholds (stamp_of 101) first_aborts adjustment_in 9 none no_post
        adjustment_waits)

cancel-IsSound_example : IsSound moved_back
cancel-IsSound_example = cancel-IsSound 101 6 relocated relocated-IsSound relocation_is_cancelled

approve-IsSound_example : IsSound approved
approve-IsSound_example = approve-IsSound 101 5 awaiting awaiting-IsSound adjustment_is_approved

cancel-apply_example : qty at_1 moved_back.stock ≡ qty at_1 received.stock
cancel-apply_example =
    cancel-apply default_adjust_thresholds (stamp_of 101) relocation 9 6 none received
      received-IsSound relocation_shape (refl, tt) relocation_is_applied relocation_is_cancelled
      at_1

reconcile_sound_example : reconcile none relocated ≡ []
reconcile_sound_example = reconcile_sound relocated relocated-IsSound

relocated_reconciles : reconcile none relocated ≡ []
unfolding ◌+ℤ◌ ◌-ℤ◌ ◌*ℤ◌ negate find_row set_row add_to expected_line expected_lines expected_from
    expected_stock by_key new_keys keys diff_keys diff_stock line_effect lines_effect ledger_effect
    allowed leads_to next_stocktake_status count_difference find_movement settle find_pending
    approve_line approve_lines ledger_deltas invert_deltas is_cancellable assert_positive_quantity
    assert_positive_quantities assert_movement_shape assert_sufficient_stock
    assert_different_locations needs_approval is_integer assert_whole_quantity move move_at
    location_of side_location check_locations resolve_line resolve_lines total_quantity total_cost
    fine_quantity status_of apply_line apply_lines find_request insert_movement movement_of
    next_folio apply_in_transaction ledger_line ledger_movement active_ledger reconcile is_api_type
    shape_of thrown attempt post_from post cancel_line cancel_lines
relocated_reconciles = refl

reconcile_complete_example :
    qty at_1 relocated.stock ≡ ledger_effect at_1 (active_ledger relocated.movements)
reconcile_complete_example =
    reconcile_complete relocated relocated-IsSound.unique relocated_reconciles at_1

abbrev both_sides : MovementInput
both_sides = record receipt { from_warehouse = some 1 }

shape-ne-same_warehouse_example :
    assert_movement_shape MovementType.inbound (shape_of both_sides)
    ≢ err (http 422 movement_same_warehouse)
shape-ne-same_warehouse_example = shape-ne-same_warehouse MovementType.inbound (shape_of both_sides)

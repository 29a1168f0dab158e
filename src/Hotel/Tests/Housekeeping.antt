-- ===== src/Hotel/Tests/Housekeeping.antt =====
-- A task of the small hotel store.
use axzy_ptnv_api.Base.{Option, [], false, none, refl, some, true, ℕ, ◌&&◌, ◌∷◌, ◌≡◌, ◌⊎◌}
use axzy_ptnv_api.Base.Int.{negate, pos, ◌*ℤ◌, ◌+ℤ◌, ◌-ℤ◌}
use axzy_ptnv_api.Base.Outcome.{err, http, ok}
use axzy_ptnv_api.Hotel.Errors.{insufficient_permissions}
use axzy_ptnv_api.Hotel.Kardex.{
  MovementType, assert_different_locations, assert_movement_shape, assert_positive_quantities,
  assert_positive_quantity, assert_sufficient_stock, default_adjust_thresholds, ledger_deltas,
  needs_approval,
}
use axzy_ptnv_api.Hotel.Positions.{find_row, set_row}
use axzy_ptnv_api.Hotel.Posting.{shape_of}
use axzy_ptnv_api.Hotel.Tables.{Status}
use axzy_ptnv_api.Hotel.Tests.{relocated, relocated-IsSound, stamp_of}
use axzy_ptnv_api.Hotel.Transaction.{
  apply_in_transaction, apply_line, apply_lines, assert_whole_quantity, check_locations,
  find_request, fine_quantity, insert_movement, is_integer, location_of, move, move_at, movement_of,
  next_folio, resolve_line, resolve_lines, side_location, status_of, total_cost, total_quantity,
}
use axzy_ptnv_api.Hotel.Housekeeping.Finish.{
  consume, exchange_linen, finish, finish_task, lines_with_kind, move_room, movement_lines,
  post_task, split_linen_lines, task_movement,
}
use axzy_ptnv_api.Hotel.Housekeeping.Laws.{finish-IsSound, finish_again}
use axzy_ptnv_api.Hotel.Housekeeping.Rules.{
  KitLineRule, RoomStatus, checkout, every_n_days, finished, in_progress, room_status_after_finish,
}
use axzy_ptnv_api.Hotel.Housekeeping.Service.{find_task, is_checkout, put_room_status, put_task}
use axzy_ptnv_api.Hotel.Housekeeping.Tables.{House, Task, cart, kit_source}
use axzy_ptnv_api.Hotel.Soundness.Invariant.{IsSound}

abbrev task : Task
task = record {
  id = 60;
  room = 30;
  cleaning_type = checkout;
  status = in_progress;
  requires_inspection = true;
  is_rework = false;
  rework_of = none;
  kit = some 3;
  kit_alert = false;
  assigned_to = some 9;
  cart = some 1;
  finished_at = none;
  movement = none;
  linen_movement = none;
}

abbrev house : House
house = record {
  db = relocated;
  rooms = record { id = 30; type = 2; zone = 5; active = true; status = RoomStatus.cleaning } ∷ [];
  types = [];
  warehouses = record { id = 1; kind = cart; owner = some 9; active = true } ∷ [];
  tasks = task ∷ [];
  lines = record { task = 60; product = 1; quantity = pos 500; source = kit_source } ∷ [];
  inspections = [];
  changes = [];
}

-- Half a unit is consumed from the cart, and the room waits for its inspection.
abbrev cleaned : House
cleaned = record house {
  db = record relocated {
    stock =
        (record { product = 1; warehouse = 1; location = 11 }, pos 1500)
        ∷ (record { product = 1; warehouse = 2; location = 21 }, pos 3000)
        ∷ [];
    movements =
        record {
          id = 120;
          folio = 3;
          type = MovementType.room_consumption;
          status = Status.active;
          from_warehouse = some 1;
          warehouse = none;
          room = some 30;
          reason = none;
          created_by = 9;
          created_at = 1120;
          approved_by = none;
          request = none;
          stocktake = none;
          lines =
              record {
                product = 1;
                quantity = pos 500;
                unit_cost = none;
                from_location = some 11;
                to_location = none;
              }
              ∷ [];
        }
        ∷ relocated.movements;
  };
  rooms =
      record { id = 30; type = 2; zone = 5; active = true; status = RoomStatus.inspection } ∷ [];
  tasks = record task { status = finished; finished_at = some 1120; movement = some 120 } ∷ [];
  changes =
      record {
        room = 30;
        from = RoomStatus.cleaning;
        to = RoomStatus.inspection;
        user = 9;
        reason = none;
      }
      ∷ [];
}

task_is_finished :
    finish default_adjust_thresholds (stamp_of 120) (stamp_of 121) 60 9 false house ≡ ok cleaned
unfolding ◌+ℤ◌ ◌-ℤ◌ ◌*ℤ◌ negate find_row set_row ledger_deltas assert_positive_quantity
    assert_positive_quantities assert_movement_shape assert_sufficient_stock
    assert_different_locations needs_approval is_integer assert_whole_quantity move move_at
    location_of side_location check_locations resolve_line resolve_lines total_quantity total_cost
    fine_quantity status_of apply_line apply_lines find_request insert_movement movement_of
    next_folio apply_in_transaction shape_of finish finish_task find_task lines_with_kind
    split_linen_lines movement_lines task_movement post_task consume exchange_linen move_room
    put_room_status put_task room_status_after_finish
task_is_finished = refl

others_may_not_finish :
    finish default_adjust_thresholds (stamp_of 120) (stamp_of 121) 60 8 false house
    ≡ err (http 403 insufficient_permissions)
unfolding finish finish_task find_task
others_may_not_finish = refl

finish-IsSound_example :
    IsSound cleaned.db
    × ((t : Task) × (find_task 60 house ≡ ok t)
        × ((t.status ≡ finished)
            ⊎ ((t.status ≡ in_progress)
                × ((t.assigned_to ≡ some 9) ⊎ (false ≡ true))
                × ((t.kit_alert && is_checkout t.cleaning_type) ≡ false))))
finish-IsSound_example =
    finish-IsSound default_adjust_thresholds (stamp_of 120) (stamp_of 121) 60 9 false house
      relocated-IsSound task_is_finished

finish_again_example :
    finish default_adjust_thresholds (stamp_of 130) (stamp_of 131) 60 8 false cleaned ≡ ok cleaned
finish_again_example =
    finish_again default_adjust_thresholds (stamp_of 120) (stamp_of 121) (stamp_of 130)
      (stamp_of 131) 60 9 8 false false house task_is_finished

abbrev towels : KitLineRule
towels = record {
  product = 1;
  quantity = pos 2000;
  frequency = every_n_days;
  every_n_days = some 2;
}

abbrev used_at_start : ℕ → Option ℕ
used_at_start product = some 0

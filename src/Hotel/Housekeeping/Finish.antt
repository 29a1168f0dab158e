-- ===== src/Hotel/Housekeeping/Finish.antt =====
-- Finishing a task, which consumes its lines from the cart, and its inspection
-- (modules/hotel-store/services/housekeeping.service.ts).
use axzy_ptnv_api.Base.{
  Bool, List, Option, [], false, given, if◌then◌else◌, map, none, not, same_id, some, true, ℕ, ◌&&◌,
  ◌==◌, ◌||◌, ◌∷◌,
}
use axzy_ptnv_api.Base.Lists.{any, find, keep}
use axzy_ptnv_api.Base.Outcome.{Result, http, ok, refused, required, throw_if, ◌>>=◌, ◌>>◌}
use axzy_ptnv_api.Hotel.Errors.{
  Code, inspection_exists, inspection_not_pending, insufficient_permissions, kit_not_available,
  laundry_not_configured, task_invalid_state, task_unassigned,
}
use axzy_ptnv_api.Hotel.Kardex.{ApprovalThresholds, MovementType, assert_movement_shape}
use axzy_ptnv_api.Hotel.Posting.{shape_of}
use axzy_ptnv_api.Hotel.Tables.{Db, Line, MovementInput, Product, ProductKind, Stamp, exact_line}
use axzy_ptnv_api.Hotel.Transaction.{apply_in_transaction}
use axzy_ptnv_api.Hotel.Housekeeping.Rules.{
  RoomStatus, assert_inspection_reason, available, checkout, cleaning, finished, inspection,
  is_finished, is_in_progress, room_status_after_finish,
}
use axzy_ptnv_api.Hotel.Housekeeping.Service.{
  find_task, is_checkout, new_task, put_room_status, put_task,
}
use axzy_ptnv_api.Hotel.Housekeeping.Tables.{
  House, HouseWarehouse, Inspection, Room, Task, TaskLine, cart, laundry, store,
}

abbrev pub is_linen : TaskLine × ProductKind → Bool
is_linen (l, ProductKind.linen) = true
is_linen (l, ProductKind.consumable) = false
is_linen (l, ProductKind.chemical) = false
is_linen (l, ProductKind.equipment) = false

-- The lines of a task with the kinds of their products, which the foreign key has there.
unfoldable pub lines_with_kind :
    ℕ → List Product → List TaskLine → Result Code (List (TaskLine × ProductKind))
lines_with_kind id products [] = ok []
lines_with_kind id products (l ∷ ls) = do
  rest ← lines_with_kind id products ls
  p ← required (find (λ (p : Product). p.id == l.product) products) refused
  ok (if l.task == id then (l, p.kind) ∷ rest else rest)

unfoldable pub split_linen_lines :
    List (TaskLine × ProductKind) → List (TaskLine × ProductKind) × List (TaskLine × ProductKind)
split_linen_lines lines = (keep (λ l. not (is_linen l)) lines, keep is_linen lines)

unfoldable pub movement_lines : List (TaskLine × ProductKind) → List Line
movement_lines [] = []
movement_lines ((l, kind) ∷ ls) =
    record {
      product = l.product;
      quantity = l.quantity;
      unit_cost = none;
      from_location = none;
      to_location = none;
    }
    ∷ movement_lines ls

unfoldable pub task_movement :
    MovementType → Option ℕ → Option ℕ → ℕ → List (TaskLine × ProductKind) → MovementInput
task_movement type source target room lines = record {
  type = type;
  from_warehouse = source;
  warehouse = target;
  room = some room;
  reason = none;
  stocktake = none;
  skip_approval = false;
  lines = map exact_line (movement_lines lines);
}

abbrev pub is_laundry : HouseWarehouse → Bool
is_laundry w = elim w.kind [ laundry ↦ w.active | cart ↦ false | store ↦ false ]

-- The room, and the record of its change, where the task changes its status.
unfoldable pub move_room : Option RoomStatus → Room → ℕ → Option ℕ → House → House
move_room none room actor reason h = h
move_room (some status) room actor reason h = record h {
  rooms = put_room_status room.id status h.rooms;
  changes =
      record { room = room.id; from = room.status; to = status; user = actor; reason = reason }
      ∷ h.changes;
}

module _ (thresholds : ApprovalThresholds) where
  -- A movement of a task; its id is none where there is nothing to move.
  unfoldable pub post_task : Stamp → MovementInput → ℕ → Db → Result Code (Option ℕ × Db)
  post_task stamp input actor db = do
    assert_movement_shape input.type (shape_of input)
    r ← apply_in_transaction thresholds stamp input actor none db
    ok (some r.0.id, r.1)

  unfoldable pub consume :
      Stamp → Task → List (TaskLine × ProductKind) → ℕ → Db → Result Code (Option ℕ × Db)
  consume stamp t [] actor db = ok (none, db)
  consume stamp t (l ∷ ls) actor db =
      post_task stamp (task_movement MovementType.room_consumption t.cart none t.room (l ∷ ls))
        actor db

  unfoldable pub exchange_linen :
      Stamp
      → Task
      → List HouseWarehouse
      → List (TaskLine × ProductKind)
      → ℕ
      → Db
      → Result Code (Option ℕ × Db)
  exchange_linen stamp t warehouses [] actor db = ok (none, db)
  exchange_linen stamp t warehouses (l ∷ ls) actor db = do
    w ← required (find is_laundry warehouses) (http 422 laundry_not_configured)
    post_task stamp (task_movement MovementType.linen_exchange t.cart (some w.id) t.room (l ∷ ls))
        actor db

  unfoldable pub finish_task : Stamp → Stamp → Task → ℕ → Bool → House → Result Code House
  finish_task stamp stamp' t actor can_manage h = do
    throw_if (not (is_in_progress t.status)) 409 task_invalid_state
    throw_if (not (given t.assigned_to)) 409 task_unassigned
    throw_if (not (same_id t.assigned_to (some actor)) && not can_manage) 403
        insufficient_permissions
    throw_if (t.kit_alert && is_checkout t.cleaning_type) 409 kit_not_available
    lines ← lines_with_kind t.id h.db.products h.lines
    consumed ← consume stamp t (split_linen_lines lines).0 actor h.db
    exchanged ← exchange_linen stamp' t h.warehouses (split_linen_lines lines).1 actor consumed.1
    room ← required (find (λ (r : Room). r.id == t.room) h.rooms) refused
    let next =
        room_status_after_finish room.status t.cleaning_type t.is_rework t.requires_inspection
    ok (
        move_room next room actor none (record h {
          db = exchanged.1;
          tasks =
              put_task
                (record t {
                  status = finished;
                  finished_at = some stamp.now;
                  movement = consumed.0;
                  linen_movement = exchanged.0;
                })
                h.tasks;
        }))

  unfoldable pub finish : Stamp → Stamp → ℕ → ℕ → Bool → House → Result Code House
  finish stamp stamp' id actor can_manage h = do
    t ← find_task id h
    if is_finished t.status then ok h else finish_task stamp stamp' t actor can_manage h

abbrev pub is_in_inspection : RoomStatus → Bool
is_in_inspection inspection = true
is_in_inspection _ = false

unfoldable pub rework_of_task : Bool → Stamp → Task → List Task → List Task
rework_of_task false stamp t tasks = tasks
rework_of_task true stamp t tasks =
    record (new_task stamp t.room checkout) {
      is_rework = true;
      rework_of = some t.id;
      requires_inspection = t.requires_inspection;
    }
    ∷ tasks

unfoldable pub inspect : Stamp → ℕ → Bool → Option ℕ → ℕ → House → Result Code House
inspect stamp id is_rejected reason actor h = do
  t ← find_task id h
  room ← required (find (λ (r : Room). r.id == t.room) h.rooms) refused
  throw_if (not (is_finished t.status) || not (is_in_inspection room.status)) 409
      inspection_not_pending
  throw_if (any (λ (i : Inspection). i.task == id) h.inspections) 409 inspection_exists
  assert_inspection_reason is_rejected reason
  let h' = move_room (some (if is_rejected then cleaning else available)) room actor reason h
  ok (record h' {
    inspections =
        record { task = id; is_rejected = is_rejected; inspector = actor; reason = reason }
        ∷ h'.inspections;
    tasks = rework_of_task is_rejected stamp t h'.tasks;
  })

-- ===== src/Hotel/Housekeeping/Service.antt =====
-- The operations on housekeeping tasks before they are finished
-- (modules/hotel-store/services/housekeeping.service.ts), each as one step. The code reads and writes
-- in a transaction when it opens a task, and without one in `assign`, `start`, `addExtra` and
-- `cancel`; what another request does in between is not modelled.
use axzy_ptnv_api.Base.{
  Bool, List, Option, [], false, given, if◌then◌else◌, ltb, none, not, or_else, same_id, some, true,
  ℕ, ◌&&◌, ◌++◌, ◌==◌, ◌||◌, ◌∷◌,
}
use axzy_ptnv_api.Base.Int.{ℤ, ◌+ℤ◌}
use axzy_ptnv_api.Base.Lists.{any, find}
use axzy_ptnv_api.Base.Outcome.{Result, http, ok, required, throw_if, ◌>>=◌, ◌>>◌}
use axzy_ptnv_api.Hotel.Errors.{
  Code, cart_required, kit_not_available, product_not_found, room_not_found, task_not_found,
  task_open_exists, task_unassigned,
}
use axzy_ptnv_api.Hotel.Tables.{Product, Stamp}
use axzy_ptnv_api.Hotel.Transaction.{assert_whole_quantity}
use axzy_ptnv_api.Hotel.Housekeeping.Rules.{
  CleaningType, KitLineRule, RoomStatus, TaskStatus, assert_assignable, assert_cancellable,
  assert_kittable, assert_operable, assert_startable, called_off, checkout, in_progress,
  is_finished, is_in_progress, is_waiting, resolve_kit_lines, stay, turndown, waiting,
}
use axzy_ptnv_api.Hotel.Housekeeping.Tables.{
  House, HouseWarehouse, Kit, Room, Task, TaskLine, cart, extra_source, kit_source, laundry, store,
}

abbrev pub is_open_task : TaskStatus → Bool
is_open_task status = is_waiting status || is_in_progress status

unfoldable pub find_task : ℕ → House → Result Code Task
find_task id h = required (find (λ t. t.id == id) h.tasks) (http 404 task_not_found)

unfoldable pub put_task : Task → List Task → List Task
put_task t [] = []
put_task t (u ∷ us) = if u.id == t.id then t ∷ us else u ∷ put_task t us

unfoldable pub put_room_status : ℕ → RoomStatus → List Room → List Room
put_room_status id status [] = []
put_room_status id status (r ∷ rs) =
    if r.id == id then record r { status = status } ∷ rs else r ∷ put_room_status id status rs

-- The kit of a room type, where it is active.
unfoldable pub active_kit : ℕ → House → Option Kit
active_kit type h = elim (find (λ t. t.id == type) h.types) [
  | none ↦ none
  | some t ↦ elim t.kit [ none ↦ none | some k ↦ if k.active then some k else none ]
]

-- The time at which the task of a line was finished, if it is one of the room.
unfoldable pub finished_in : ℕ → ℕ → List Task → Option ℕ
finished_in room id tasks = elim (find (λ t. t.id == id) tasks) [
  | none ↦ none
  | some t ↦ if t.room == room && is_finished t.status then t.finished_at else none
]

abbrev pub later : Option ℕ → Option ℕ → Option ℕ
later none b = b
later (some a) none = some a
later (some a) (some b) = if ltb a b then some b else some a

unfoldable pub last_finished : ℕ → List Task → List TaskLine → ℕ → Option ℕ
last_finished room tasks [] product = none
last_finished room tasks (l ∷ ls) product =
    let rest = last_finished room tasks ls product in
    if l.product == product then later (finished_in room l.task tasks) rest else rest

unfoldable pub kit_task_lines : ℕ → List KitLineRule → List TaskLine
kit_task_lines id [] = []
kit_task_lines id (l ∷ ls) =
    record { task = id; product = l.product; quantity = l.quantity; source = kit_source }
    ∷ kit_task_lines id ls

abbrev pub is_turndown : CleaningType → Bool
is_turndown turndown = true
is_turndown _ = false

abbrev pub is_checkout : CleaningType → Bool
is_checkout checkout = true
is_checkout _ = false

abbrev pub is_stay : CleaningType → Bool
is_stay stay = true
is_stay _ = false

abbrev pub is_there {ℓ} : {A : Type ℓ} → Option A → Bool
is_there none = false
is_there (some a) = true

abbrev pub new_task : Stamp → ℕ → CleaningType → Task
new_task stamp room type = record {
  id = stamp.id;
  room = room;
  cleaning_type = type;
  status = waiting;
  requires_inspection = false;
  is_rework = false;
  rework_of = none;
  kit = none;
  kit_alert = false;
  assigned_to = none;
  cart = none;
  finished_at = none;
  movement = none;
  linen_movement = none;
}

abbrev pub id_of_kit : Option Kit → Option ℕ
id_of_kit none = none
id_of_kit (some k) = some k.id

-- The lines of the active kit that apply; none for a turndown.
unfoldable pub kit_rules : Option Kit → CleaningType → (ℕ → Option ℕ) → ℕ → List KitLineRule
kit_rules none type last_applied now = []
kit_rules (some k) type last_applied now =
    if is_turndown type then [] else resolve_kit_lines k.lines type last_applied now

-- `inspection_required` is the callback of the service.
unfoldable pub open_for_room :
    (ℕ → ℕ → Bool) → Stamp → Room → CleaningType → House → Result Code House
open_for_room inspection_required stamp room type h = do
  throw_if (any (λ t. t.room == room.id && is_open_task t.status) h.tasks) 409 task_open_exists
  let kit = active_kit room.type h
  let rules = kit_rules kit type (last_finished room.id h.tasks h.lines) stamp.now
  ok (record h {
    tasks =
        record (new_task stamp room.id type) {
          requires_inspection = inspection_required room.type room.zone;
          kit = id_of_kit kit;
          kit_alert = not (is_turndown type) && not (is_there kit);
        }
        ∷ h.tasks;
    lines = kit_task_lines stamp.id rules ++ h.lines;
  })

unfoldable pub create_manual : (ℕ → ℕ → Bool) → Stamp → ℕ → CleaningType → House → Result Code House
create_manual inspection_required stamp room_id type h = do
  room ← required (find (λ r. r.id == room_id) h.rooms) (http 404 room_not_found)
  throw_if (not room.active) 404 room_not_found
  throw_if (is_stay type && not (is_there (active_kit room.type h))) 409 kit_not_available
  open_for_room inspection_required stamp room type h

abbrev is_cart_of : ℕ → HouseWarehouse → Bool
is_cart_of owner w = elim w.kind [
  | cart ↦ same_id w.owner (some owner) && w.active
  | laundry ↦ false
  | store ↦ false
]

unfoldable pub find_cart : ℕ → House → Result Code HouseWarehouse
find_cart owner h = required (find (is_cart_of owner) h.warehouses) (http 409 cart_required)

unfoldable pub assign : ℕ → ℕ → House → Result Code House
assign id assignee h = do
  t ← find_task id h
  assert_assignable t.status
  c ← find_cart assignee h
  ok (record h { tasks = put_task (record t { assigned_to = some assignee }) h.tasks })

unfoldable pub start : ℕ → House → Result Code House
start id h = do
  t ← find_task id h
  assert_startable t.status
  throw_if (not (given t.assigned_to)) 409 task_unassigned
  c ← find_cart (or_else t.assigned_to 0) h
  ok (record h { tasks = put_task (record t { status = in_progress; cart = some c.id }) h.tasks })

abbrev is_extra : ℕ → ℕ → TaskLine → Bool
is_extra task product l =
    l.task == task
    && (l.product == product && elim l.source [ extra_source ↦ true | kit_source ↦ false ])

unfoldable pub add_quantity : ℕ → ℕ → ℤ → List TaskLine → List TaskLine
add_quantity task product quantity [] =
    record { task = task; product = product; quantity = quantity; source = extra_source } ∷ []
add_quantity task product quantity (l ∷ ls) =
    if is_extra task product l
    then record l { quantity = l.quantity +ℤ quantity } ∷ ls
    else l ∷ add_quantity task product quantity ls

unfoldable pub add_extra : ℕ → ℕ → ℤ → House → Result Code House
add_extra id product quantity h = do
  t ← find_task id h
  assert_operable t.status
  p ← required (find (λ (p : Product). p.id == product) h.db.products) (http 404 product_not_found)
  throw_if (not p.active) 404 product_not_found
  assert_kittable p.kind
  assert_whole_quantity quantity p.whole
  ok (record h { lines = add_quantity id product quantity h.lines })

unfoldable pub call_off : ℕ → House → Result Code House
call_off id h = do
  t ← find_task id h
  assert_cancellable t.status
  ok (record h { tasks = put_task (record t { status = called_off }) h.tasks })

-- ===== src/Hotel/Housekeeping/Rules.antt =====
-- The pure rules of kits (hotel-catalog-rules.ts) and of housekeeping tasks (task-rules.ts).
pub mod Laws
use axzy_ptnv_api.Base.{
  Bool, List, Option, false, given, if◌then◌else◌, leb, none, not, or_else, some, true, ℕ, ◌&&◌,
  ◌*◌, ◌-◌, ◌/◌,
}
use axzy_ptnv_api.Base.Int.{ltb_ℤ, pos, ℤ}
use axzy_ptnv_api.Base.Lists.{keep}
use axzy_ptnv_api.Base.Outcome.{Result, ok, throw_if, ◌>>◌}
use axzy_ptnv_api.Hotel.Errors.{
  Code, kit_every_n_days_required, product_not_kitable, product_thresholds_invalid, reason_required,
  task_invalid_state, task_not_pending,
}
use axzy_ptnv_api.Hotel.Tables.{ProductKind}

pub data Frequency : Type 0 where
  every_cleaning checkout_only every_n_days : Frequency

pub data CleaningType : Type 0 where
  checkout stay turndown : CleaningType

pub data RoomStatus : Type 0 where
  cleaning inspection available occupied maintenance out_of_service : RoomStatus

pub data TaskStatus : Type 0 where
  waiting in_progress finished called_off : TaskStatus

unfoldable pub assert_stock_thresholds : ℤ → ℤ → ℤ → Result Code (Unit {0})
assert_stock_thresholds min_stock ideal_stock overstock = do
  throw_if (ltb_ℤ ideal_stock min_stock) 422 product_thresholds_invalid
  throw_if (ltb_ℤ (pos 0) overstock && ltb_ℤ overstock ideal_stock) 422 product_thresholds_invalid

unfoldable pub normalize_every_n_days : Frequency → Option ℕ → Result Code (Option ℕ)
normalize_every_n_days every_n_days days = do
  throw_if (not (given days)) 422 kit_every_n_days_required
  ok days
normalize_every_n_days every_cleaning days = ok none
normalize_every_n_days checkout_only days = ok none

abbrev pub is_equipment : ProductKind → Bool
is_equipment ProductKind.equipment = true
is_equipment _ = false

unfoldable pub assert_kittable : ProductKind → Result Code (Unit {0})
assert_kittable kind = throw_if (is_equipment kind) 409 product_not_kitable

pub record KitLineRule : Type 0 where
  pub product : ℕ
  pub quantity : ℤ
  pub frequency : Frequency
  pub every_n_days : Option ℕ

abbrev pub day_ms : ℕ
day_ms = 24 * 60 * 60 * 1000

-- `Math.floor((now - last) / DAY_MS) >= n`: false where `now` lies before `last`.
abbrev pub days_passed : ℕ → ℕ → ℕ → Bool
days_passed last now n = leb last now && leb n ((now - last) / day_ms)

-- Whether a line of a kit applies; `last` is the time it was last used, where it was.
unfoldable pub applies : CleaningType → Frequency → Option ℕ → Option ℕ → ℕ → Bool
applies turndown frequency every last now = false
applies cleaning_type every_cleaning every last now = true
applies checkout checkout_only every last now = true
applies stay checkout_only every last now = false
applies checkout every_n_days every last now = true
applies stay every_n_days every none now = true
applies stay every_n_days every (some last) now = days_passed last now (or_else every 1)

unfoldable pub resolve_kit_lines :
    List KitLineRule → CleaningType → (ℕ → Option ℕ) → ℕ → List KitLineRule
resolve_kit_lines lines cleaning_type last_applied now =
    keep (λ l. applies cleaning_type l.frequency l.every_n_days (last_applied l.product) now) lines

-- none where the room keeps its status.
unfoldable pub room_status_after_finish :
    RoomStatus → CleaningType → Bool → Bool → Option RoomStatus
room_status_after_finish cleaning type true requires_inspection = some inspection
room_status_after_finish cleaning stay false requires_inspection = none
room_status_after_finish cleaning type false requires_inspection =
    some (if requires_inspection then inspection else available)
room_status_after_finish status type is_rework requires_inspection = none

abbrev pub is_waiting : TaskStatus → Bool
is_waiting waiting = true
is_waiting _ = false

abbrev pub is_in_progress : TaskStatus → Bool
is_in_progress in_progress = true
is_in_progress _ = false

abbrev pub is_finished : TaskStatus → Bool
is_finished finished = true
is_finished _ = false

unfoldable pub assert_assignable : TaskStatus → Result Code (Unit {0})
assert_assignable status = throw_if (not (is_waiting status)) 409 task_not_pending

unfoldable pub assert_operable : TaskStatus → Result Code (Unit {0})
assert_operable status =
    throw_if (not (is_waiting status) && not (is_in_progress status)) 409 task_invalid_state

unfoldable pub assert_startable : TaskStatus → Result Code (Unit {0})
assert_startable status = throw_if (not (is_waiting status)) 409 task_invalid_state

unfoldable pub assert_cancellable : TaskStatus → Result Code (Unit {0})
assert_cancellable status =
    throw_if (not (is_waiting status) && not (is_in_progress status)) 409 task_invalid_state

-- `is_rejected` tells a rejection from an approval.
unfoldable pub assert_inspection_reason : Bool → Option ℕ → Result Code (Unit {0})
assert_inspection_reason is_rejected reason =
    throw_if (is_rejected && not (given reason)) 422 reason_required

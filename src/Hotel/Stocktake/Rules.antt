-- ===== src/Hotel/Stocktake/Rules.antt =====
-- The pure rules of physical counts (modules/hotel-store/services/stocktake-rules.ts).
use axzy_ptnv_api.Base.{Bool, List, Option, false, if◌then◌else◌, not, true}
use axzy_ptnv_api.Base.Int.{ltb_ℤ, pos, ℤ, ◌-ℤ◌}
use axzy_ptnv_api.Base.Lists.{any}
use axzy_ptnv_api.Base.Outcome.{Result, err, http, ok, throw_if}
use axzy_ptnv_api.Hotel.Errors.{
  Code, count_quantity_invalid, stocktake_invalid_state, stocktake_lines_uncounted,
}
use axzy_ptnv_api.Hotel.Transaction.{is_null}

pub data StocktakeStatus : Type 0 where
  draft counting pending_approval applied cancelled : StocktakeStatus

pub data Action : Type 0 where
  start close approve cancel : Action

abbrev pub is_open : StocktakeStatus → Bool
is_open draft = true
is_open counting = true
is_open pending_approval = true
is_open _ = false

-- `TRANSITIONS`: where an action may be taken, and where it leads.
unfoldable pub allowed : Action → StocktakeStatus → Bool
allowed start draft = true
allowed close counting = true
allowed approve pending_approval = true
allowed cancel draft = true
allowed cancel counting = true
allowed cancel pending_approval = true
allowed _ _ = false

unfoldable pub leads_to : Action → StocktakeStatus
leads_to start = counting
leads_to close = pending_approval
leads_to approve = applied
leads_to cancel = cancelled

unfoldable pub next_stocktake_status : StocktakeStatus → Action → Result Code StocktakeStatus
unfolding allowed leads_to
next_stocktake_status current action =
    if not (allowed action current)
    then err (http 409 stocktake_invalid_state)
    else ok (leads_to action)

-- Counted, less the photo, less what moved since.
unfoldable pub count_difference : ℤ → ℤ → ℤ → ℤ
count_difference counted system_qty since = counted -ℤ system_qty -ℤ since

unfoldable pub assert_all_counted : List (Option ℤ) → Result Code (Unit {0})
assert_all_counted counts = throw_if (any is_null counts) 422 stocktake_lines_uncounted

unfoldable pub assert_counted_quantity : ℤ → Result Code (Unit {0})
assert_counted_quantity quantity = throw_if (ltb_ℤ quantity (pos 0)) 422 count_quantity_invalid

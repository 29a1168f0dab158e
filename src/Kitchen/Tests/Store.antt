-- ===== src/Kitchen/Tests/Store.antt =====
-- A store of flour that is filled, drawn on and put right, and the theorems at it.
use axzy_ptnv_api.Base.{List, Option, [], false, none, refl, some, true, ℕ, ◌+◌, ◌∷◌, ◌≡◌}
use axzy_ptnv_api.Base.Int.{negate, ◌+ℤ◌}
use axzy_ptnv_api.Base.Lists.{All}
use axzy_ptnv_api.Base.Outcome.{Failure, Result, conflict, err, http, ok}
use axzy_ptnv_api.Base.Sort.{insert, sort}
use axzy_ptnv_api.Kitchen.Errors.{KitchenCode, movement_already_reversed}
use axzy_ptnv_api.Kitchen.Fefo.{allocate_fefo, is_usable, smaller, take_lots, usable_lots}
use axzy_ptnv_api.Kitchen.Rules.{consumption, kitchen_ledger_sign, plain_sign}
use axzy_ptnv_api.Kitchen.Store.Movement.{
  apply_line, apply_lines, change_lot, create_movement, find_kitchen_movement, find_lot,
  new_movement,
}
use axzy_ptnv_api.Kitchen.Store.Operations.{
  InLine, OutLine, active_items, allocation_lines, as_consumption, check_reason, check_supplier,
  fefo_lots, find_item, line_of_lot, mark_cancelled, receive_lots, reverse, stock_in, stock_out,
  take_line, take_out,
}
use axzy_ptnv_api.Kitchen.Store.Register.{
  attempt_run, by_request, keyed, register, run_new, serializable, serializable_from, set_request,
}
use axzy_ptnv_api.Kitchen.Store.Tables.{Item, KitchenDb, KitchenLine, KitchenMovement, Lot}
use axzy_ptnv_api.Kitchen.Store.Soundness.Balance.{kitchen_ledger, on_hand_of}
use axzy_ptnv_api.Kitchen.Store.Soundness.Counts.{
  KitchenChange, count_change, counts_of, enters, leaves,
}
use axzy_ptnv_api.Kitchen.Store.Soundness.Items.{IsKeyed}
use axzy_ptnv_api.Kitchen.Store.Soundness.Kept.{IsBalanced}
use axzy_ptnv_api.Kitchen.Store.Soundness.Reach.{
  KitchenReach-IsBalanced, and_step, no_step, receives, reverts, takes_out,
}
use axzy_ptnv_api.Kitchen.Store.Soundness.Refined.{run_change, run_change-counts}
use axzy_ptnv_api.Kitchen.Store.Soundness.Replayed.{
  answer, asks_change, asks_reversal, register_twice,
}
use axzy_ptnv_api.Kitchen.Store.Soundness.Reversed.{reverse-create_movement, reverse_once}
use axzy_ptnv_api.Kitchen.Store.Soundness.Taken.{IsDrawnFrom, asked_of, moved_of, stock_out-drawn}

abbrev flour : Item
flour = record {
  id = 1;
  active = true;
  is_durable = false;
  tracks_expiry = true;
  default_tax_rate = none;
}

abbrev empty_store : KitchenDb
empty_store = record { items = flour ∷ []; suppliers = []; lots = []; movements = [] }

-- What an operation that goes through leaves.
abbrev reached : KitchenDb → Result KitchenCode (KitchenMovement × KitchenDb) → KitchenDb
reached db (ok r) = r.1
reached db (err e) = db

abbrev no_movement : KitchenMovement
no_movement = new_movement 0 consumption [] 0 none none

abbrev recorded : Result KitchenCode (KitchenMovement × KitchenDb) → KitchenMovement
recorded (ok r) = r.0
recorded (err e) = no_movement

abbrev lot_id : ℕ → ℕ
lot_id n = 11 + n

abbrev code_for : ℕ → List Lot → ℕ
code_for item lots = 7

abbrev bag : ℕ → ℕ → ℕ → InLine
bag quantity code expires_on = record {
  item = 1;
  quantity = quantity;
  lot_code = some code;
  expires_at = some expires_on;
  unit_cost = none;
}

-- Three bags come in on day 50, one of which expires on day 90.
abbrev bags : KitchenChange
bags = enters 1 50 none (bag 4000 1 120 ∷ bag 500 2 90 ∷ bag 1000 3 110 ∷ []) 9 none

abbrev filled : KitchenDb
filled = reached empty_store (run_change lot_id code_for bags empty_store)

abbrev bread : List OutLine
bread = record { item = 1; quantity = 1500; lot = none } ∷ []

-- On day 100 the bag of day 90 is passed over.
abbrev baked : KitchenDb
baked = reached filled (stock_out 2 100 as_consumption none bread 9 filled)

abbrev put_right : KitchenDb
put_right = reached baked (reverse 3 2 9 baked)

fills :
    run_change lot_id code_for bags empty_store
    ≡ ok (recorded (run_change lot_id code_for bags empty_store), filled)
unfolding stock_in check_supplier active_items find_item receive_lots find_lot create_movement
    kitchen_ledger_sign plain_sign apply_lines apply_line change_lot find_kitchen_movement
fills = refl

bakes :
    stock_out 2 100 as_consumption none bread 9 filled
    ≡ ok (recorded (stock_out 2 100 as_consumption none bread 9 filled), baked)
unfolding stock_in check_supplier active_items find_item receive_lots find_lot create_movement
    kitchen_ledger_sign plain_sign apply_lines apply_line change_lot find_kitchen_movement stock_out
    check_reason take_out take_line fefo_lots allocate_fefo take_lots usable_lots is_usable smaller
    sort insert allocation_lines negate ◌+ℤ◌
bakes = refl

puts_right : reverse 3 2 9 baked ≡ ok (recorded (reverse 3 2 9 baked), put_right)
unfolding stock_in check_supplier active_items find_item receive_lots find_lot create_movement
    kitchen_ledger_sign plain_sign apply_lines apply_line change_lot find_kitchen_movement stock_out
    check_reason take_out take_line fefo_lots allocate_fefo take_lots usable_lots is_usable smaller
    sort insert allocation_lines negate ◌+ℤ◌ reverse mark_cancelled
puts_right = refl

empty_store-IsBalanced : IsBalanced empty_store
unfolding kitchen_ledger
empty_store-IsBalanced = record { sums = (λ k. refl); stocked = tt }

KitchenReach-IsBalanced_example : IsBalanced put_right
KitchenReach-IsBalanced_example = KitchenReach-IsBalanced empty_store-IsBalanced (
    and_step
      (and_step
        (and_step no_step (
          receives lot_id code_for 1 50 none (bag 4000 1 120 ∷ bag 500 2 90 ∷ bag 1000 3 110 ∷ []) 9
            none _ fills))
        (takes_out 2 100 as_consumption none bread 9 _ bakes))
      (reverts 3 2 9 _ puts_right))

filled-IsKeyed : IsKeyed filled.lots
unfolding stock_in check_supplier active_items find_item receive_lots find_lot create_movement
    kitchen_ledger_sign plain_sign apply_lines apply_line change_lot find_kitchen_movement ◌+ℤ◌
filled-IsKeyed = (refl, (refl, (refl, tt)))

run_change-counts_example :
    counts_of baked 1 ≡ count_change (leaves 2 100 as_consumption none bread 9) (counts_of filled) 1
run_change-counts_example =
    run_change-counts lot_id code_for (leaves 2 100 as_consumption none bread 9) filled
      filled-IsKeyed bakes 1

abbrev loaf : List KitchenLine
loaf = line_of_lot 1 11 700 ∷ []

abbrev loaf_made : KitchenDb
loaf_made = reached filled (create_movement 2 consumption loaf 9 none none filled)

abbrev loaf_undone : KitchenDb
loaf_undone = reached loaf_made (reverse 3 2 9 loaf_made)

makes_loaf :
    create_movement 2 consumption loaf 9 none none filled
    ≡ ok (new_movement 2 consumption loaf 9 none none, loaf_made)
unfolding stock_in check_supplier active_items find_item receive_lots find_lot create_movement
    kitchen_ledger_sign plain_sign apply_lines apply_line change_lot find_kitchen_movement negate
    ◌+ℤ◌
makes_loaf = refl

undoes_loaf : reverse 3 2 9 loaf_made ≡ ok (recorded (reverse 3 2 9 loaf_made), loaf_undone)
unfolding stock_in check_supplier active_items find_item receive_lots find_lot create_movement
    kitchen_ledger_sign plain_sign apply_lines apply_line change_lot find_kitchen_movement negate
    ◌+ℤ◌ reverse mark_cancelled
undoes_loaf = refl

reverse-create_movement_example : on_hand_of 11 loaf_undone.lots ≡ on_hand_of 11 filled.lots
reverse-create_movement_example =
    reverse-create_movement 2 3 9 9 consumption loaf none filled makes_loaf undoes_loaf 11

reverse_once_example : reverse 4 2 8 put_right ≡ err (http 409 movement_already_reversed)
reverse_once_example = reverse_once 3 4 2 9 8 baked puts_right

stock_out-drawn_example :
    All
      (IsDrawnFrom filled.lots as_consumption 100)
      (recorded (stock_out 2 100 as_consumption none bread 9 filled)).lines
    × ((k : ℕ)
        → moved_of k (recorded (stock_out 2 100 as_consumption none bread 9 filled)).lines
          ≡ asked_of k bread)
stock_out-drawn_example = stock_out-drawn 2 100 as_consumption none bread 9 filled bakes

abbrev calm : ℕ → Option (Failure KitchenCode)
calm n = none

abbrev stormy : ℕ → Option (Failure KitchenCode)
stormy n = some conflict

abbrev baking : KitchenChange
baking = leaves 2 100 as_consumption none bread 9

abbrev baked_once : Result KitchenCode (KitchenMovement × KitchenDb)
baked_once = answer lot_id code_for calm (asks_change baking) (some 77) filled filled

bakes_once : baked_once ≡ ok (recorded baked_once, reached filled baked_once)
unfolding stock_in check_supplier active_items find_item receive_lots find_lot create_movement
    kitchen_ledger_sign plain_sign apply_lines apply_line change_lot find_kitchen_movement stock_out
    check_reason take_out take_line fefo_lots allocate_fefo take_lots usable_lots is_usable smaller
    sort insert allocation_lines negate ◌+ℤ◌ register by_request run_new serializable
    serializable_from attempt_run set_request keyed answer
bakes_once = refl

register_twice_example :
    answer lot_id code_for stormy (asks_reversal 5 1 9) (some 77) (reached filled baked_once) filled
    ≡ ok (recorded baked_once, reached filled baked_once)
register_twice_example =
    register_twice lot_id code_for calm stormy (asks_change baking) (asks_reversal 5 1 9) 77 filled
      filled filled refl refl refl bakes_once

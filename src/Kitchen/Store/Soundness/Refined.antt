-- ===== src/Kitchen/Store/Soundness/Refined.antt =====
-- What the kitchen promises to who counts by item: entries raise a count, exits lower it and
-- adjustments move it either way, whatever lots, expiries and movements are behind it.
use axzy_ptnv_api.Base.{
  Bool, List, Option, [], ap, false, if◌then◌else◌, none, refl, some, sym, true, ℕ, ◌+◌, ◌==◌, ◌∙◌,
  ◌∷◌, ◌≡◌,
}
use axzy_ptnv_api.Base.Int.{◌+ℤ◌}
use axzy_ptnv_api.Base.Lists.{All}
use axzy_ptnv_api.Base.Outcome.{>>=-eq-ok, Result, ok}
use axzy_ptnv_api.Kitchen.Errors.{KitchenCode}
use axzy_ptnv_api.Kitchen.Rules.{KitchenType, Sign, kitchen_ledger_sign, minus, plain_sign, plus}
use axzy_ptnv_api.Kitchen.Rules.Laws.{signed}
use axzy_ptnv_api.Kitchen.Store.Movement.{source_type}
use axzy_ptnv_api.Kitchen.Store.Operations.{
  AdjustmentLine, InLine, OutLine, OutType, active_items, adjust, adjusted_lines, adjustment_items,
  adjustment_type, as_consumption, as_waste, check_supplier, in_items, line_of_lot, lot_of_item,
  out_type, receive_lots, stock_in, stock_out,
}
use axzy_ptnv_api.Kitchen.Store.Tables.{KitchenDb, KitchenLine, KitchenMovement, Lot, ReversalOf}
use axzy_ptnv_api.Kitchen.Store.Soundness.Counts.{
  KitchenChange, count_adjusted, count_adjusted-sum, count_change, count_in, count_in-sum,
  count_out, count_out-sum, counts_of, enters, leaves, recounted_of, recounts, sign_upwards,
}
use axzy_ptnv_api.Kitchen.Store.Soundness.Entered.{receive_lots-Entered}
use axzy_ptnv_api.Kitchen.Store.Soundness.Items.{
  IsKeyed, IsPlaced, apply_lines-stock_of, drawn-IsPlaced, stock_of,
}
use axzy_ptnv_api.Kitchen.Store.Soundness.Kept.{Recorded, create_movement-Recorded}
use axzy_ptnv_api.Kitchen.Store.Soundness.Taken.{
  IsDrawnFrom, lot_of_item-found, moved_of, stock_out-Recorded, take_out-Taken,
}

-- What a recorded movement adds, given that its lots are there.
Recorded-stock_of :
    (id : ℕ) (type : KitchenType) (lines : List KitchenLine) (actor : ℕ) (po : Option ℕ)
    (source : Option ReversalOf) (db : KitchenDb) {r : KitchenMovement × KitchenDb} (s : Sign)
    → Recorded id type lines actor po source db r
    → kitchen_ledger_sign type (source_type source) ≡ some s
    → All (IsPlaced db.lots) lines
    → (k : ℕ) → stock_of k r.1.lots ≡ stock_of k db.lots +ℤ signed (some s) (moved_of k lines)
Recorded-stock_of id type lines actor po source db s c e placed k =
    apply_lines-stock_of c.sign lines db.lots c.moved placed k
    ∙ ap (λ o. stock_of k db.lots +ℤ signed o (moved_of k lines)) (sym c.signed_by ∙ e)

drawn-All :
    (lots : List Lot) (type : OutType) (today : ℕ) (lines : List KitchenLine)
    → IsKeyed lots
    → All (IsDrawnFrom lots type today) lines
    → All (IsPlaced lots) lines
drawn-All lots type today [] u h = tt
drawn-All lots type today (l ∷ ls) u h =
    (drawn-IsPlaced lots type today l u h.0, drawn-All lots type today ls u h.1)

out_sign : (type : OutType) → kitchen_ledger_sign (out_type type) none ≡ some minus
unfolding kitchen_ledger_sign plain_sign
out_sign as_consumption = refl
out_sign as_waste = refl

stock_out-counts :
    (id today : ℕ) (type : OutType) (reason : Option ℕ) (asked : List OutLine) (actor : ℕ)
    (db : KitchenDb) {r : KitchenMovement × KitchenDb}
    → IsKeyed db.lots
    → stock_out id today type reason asked actor db ≡ ok r
    → (k : ℕ) → counts_of r.1 k ≡ count_out asked (counts_of db) k
stock_out-counts id today type reason asked actor db u h k =
    let (taken, c, t) = stock_out-Recorded id today type reason asked actor db h in
    let (drawn, totals) = take_out-Taken type today db asked t in
    Recorded-stock_of id (out_type type) taken actor none none db minus c (out_sign type)
      (drawn-All db.lots type today taken u drawn) k
    ∙ ap (λ n. stock_of k db.lots +ℤ signed (some minus) n) (totals k)
    ∙ sym (count_out-sum asked (counts_of db) k)

adjusted_lines_found :
    (lots : List Lot) (lines : List AdjustmentLine) {taken : List KitchenLine}
    → adjusted_lines lots lines ≡ ok taken
    → All (IsPlaced lots) taken × ((k : ℕ) → moved_of k taken ≡ recounted_of k lines)
unfolding adjusted_lines
adjusted_lines_found lots [] {taken} h = let same : [] ≡ taken = cc in rw (← same) (tt, λ k. refl)
adjusted_lines_found lots (line ∷ lines) {taken} h =
    let (lot, there, h1) = >>=-eq-ok (lot_of_item line.lot line.item lots) _ h in
    let (rest, r, h2) = >>=-eq-ok (adjusted_lines lots lines) _ h1 in
    let same : line_of_lot line.item line.lot line.quantity ∷ rest ≡ taken = cc in
    let (found, of_item) = lot_of_item-found line.lot line.item lots there in
    let (placed, totals) = adjusted_lines_found lots lines r in
    rw (← same) (
      ((lot, found, of_item), placed),
      (λ k. ap (λ n. (if line.item == k then line.quantity else 0) + n) (totals k)),
    )

adjust_sign :
    (upwards : Bool)
    → kitchen_ledger_sign (adjustment_type upwards) none ≡ some (sign_upwards upwards)
unfolding kitchen_ledger_sign plain_sign
adjust_sign true = refl
adjust_sign false = refl

adjust-counts :
    (id : ℕ) (upwards : Bool) (lines : List AdjustmentLine) (actor : ℕ) (db : KitchenDb)
    {r : KitchenMovement × KitchenDb}
    → adjust id upwards lines actor db ≡ ok r
    → (k : ℕ) → counts_of r.1 k ≡ count_adjusted upwards lines (counts_of db) k
unfolding adjust
adjust-counts id upwards lines actor db h k =
    let (u, there, h1) = >>=-eq-ok (active_items true db.items (adjustment_items lines)) _ h in
    let (taken, t, h2) = >>=-eq-ok (adjusted_lines db.lots lines) _ h1 in
    let (placed, totals) = adjusted_lines_found db.lots lines t in
    Recorded-stock_of id (adjustment_type upwards) taken actor none none db (sign_upwards upwards)
      (create_movement-Recorded id (adjustment_type upwards) taken actor none none db h2)
      (adjust_sign upwards) placed k
    ∙ ap (λ n. stock_of k db.lots +ℤ signed (some (sign_upwards upwards)) n) (totals k)
    ∙ sym (count_adjusted-sum upwards lines (counts_of db) k)

module _ (new_id : ℕ → ℕ) (next_code : ℕ → List Lot → ℕ) where
  pub stock_in-counts :
      (id received_at : ℕ) (supplier : Option ℕ) (lines : List InLine) (actor : ℕ) (po : Option ℕ)
      (db : KitchenDb) {r : KitchenMovement × KitchenDb}
      → stock_in new_id next_code id received_at supplier lines actor po db ≡ ok r
      → (k : ℕ) → counts_of r.1 k ≡ count_in lines (counts_of db) k
  unfolding stock_in kitchen_ledger_sign plain_sign
  stock_in-counts id received_at supplier lines actor po db h k =
      let (u1, known, h1) = >>=-eq-ok (check_supplier supplier db.suppliers) _ h in
      let (u2, there, h2) =
        >>=-eq-ok (active_items false db.items (in_items new_id next_code lines)) _ h1 in
      let (q, lots, h3) =
        >>=-eq-ok (receive_lots new_id next_code 0 received_at db.items lines db.lots) _ h2 in
      let e = receive_lots-Entered new_id next_code 0 received_at db.items lines db.lots lots in
      Recorded-stock_of id KitchenType.stock_in q.0 actor po none (record db { lots = q.1 }) plus
        (create_movement-Recorded id KitchenType.stock_in q.0 actor po none
          (record db { lots = q.1 }) h3)
        refl e.placed k
      ∙ ap (λ x. x +ℤ signed (some plus) (moved_of k q.0)) (e.unchanged k)
      ∙ ap (λ n. stock_of k db.lots +ℤ signed (some plus) n) (e.totals k)
      ∙ sym (count_in-sum lines (counts_of db) k)

  -- The operation that a change stands for.
  abbrev pub run_change :
      KitchenChange → KitchenDb → Result KitchenCode (KitchenMovement × KitchenDb)
  run_change (enters id received_at supplier lines actor po) db =
      stock_in new_id next_code id received_at supplier lines actor po db
  run_change (leaves id today type reason lines actor) db =
      stock_out id today type reason lines actor db
  run_change (recounts id upwards lines actor) db = adjust id upwards lines actor db

  -- Whatever lots an entry, an exit or an adjustment of the kitchen that goes through works on,
  -- its effect on the stock of each item is that of its request on a plain count per item, line
  -- by line, given that every lot is the one its identifier finds.
  pub run_change-counts :
      (change : KitchenChange) (db : KitchenDb) {r : KitchenMovement × KitchenDb}
      → IsKeyed db.lots
      → run_change change db ≡ ok r
      → (k : ℕ) → counts_of r.1 k ≡ count_change change (counts_of db) k
  run_change-counts (enters id received_at supplier lines actor po) db u h k =
      stock_in-counts id received_at supplier lines actor po db h k
  run_change-counts (leaves id today type reason lines actor) db u h k =
      stock_out-counts id today type reason lines actor db u h k
  run_change-counts (recounts id upwards lines actor) db u h k =
      adjust-counts id upwards lines actor db h k

-- ===== src/Hotel/Soundness/Requested.antt =====
-- A movement that is posted keeps the invariant.
use axzy_ptnv_api.Base.{
  Bool, List, Option, ap, arith, false, if◌then◌else◌, map, sym, true, ℕ, ◌∙◌, ◌∷◌, ◌≡◌,
}
use axzy_ptnv_api.Base.Int.{int_laws, pos, ℤ, ◌+ℤ◌}
use axzy_ptnv_api.Base.Outcome.{>>=-eq-ok, ok}
use axzy_ptnv_api.Hotel.Kardex.{ApprovalThresholds, assert_movement_shape}
use axzy_ptnv_api.Hotel.Positions.{LedgerLine, Stock}
use axzy_ptnv_api.Hotel.Posting.{shape_of}
use axzy_ptnv_api.Hotel.Stock.{ledger_line, ledger_movement}
use axzy_ptnv_api.Hotel.Tables.{Db, Movement, MovementInput, Stamp}
use axzy_ptnv_api.Hotel.Transaction.{
  ResolvedLine, apply_in_transaction, apply_lines, insert_movement, is_active, movement_of,
  next_folio, resolve_lines, status_of, stored_line,
}
use axzy_ptnv_api.Hotel.Positions.Laws.{lines_effect}
use axzy_ptnv_api.Hotel.Soundness.Invariant.{Change-IsSound, IsSound}
use axzy_ptnv_api.Hotel.Soundness.Settled.{contribution, ledger_effect-cons}
use axzy_ptnv_api.Hotel.Soundness.Shaped.{assert_movement_shape-IsShaped}
use axzy_ptnv_api.Hotel.Transaction.Applied.{HasThreeDecimals, apply_lines-Change, request_movement}
use axzy_ptnv_api.Hotel.Transaction.Effects.{IsShaped}
use axzy_ptnv_api.Hotel.Transaction.Moves.{Change, Change-refl}

insert_movement-eq-ok :
    (m : Movement) (db : Db) {r : Movement × Db}
    → insert_movement m db ≡ ok r
    → r ≡ (m, record db { movements = m ∷ db.movements })
unfolding insert_movement
insert_movement-eq-ok m db h = ground arith

-- What a transaction that goes through has done.
pub record Applied (thresholds : ApprovalThresholds) (stamp : Stamp) (input : MovementInput)
    (actor : ℕ) (request : Option ℕ) (db : Db) (r : Movement × Db) : Type 0 where
  pub lines : List ResolvedLine
  pub stock : Stock
  pub resolved : resolve_lines db input input.lines ≡ ok lines
  pub moved :
      (if is_active (status_of thresholds input lines)
        then apply_lines lines db.stock
        else ok db.stock)
      ≡ ok stock
  pub movement :
      r.0
      ≡ movement_of stamp input actor request
          (next_folio db)
          (status_of thresholds input lines)
          lines
  pub after : r.1 ≡ record db { stock = stock; movements = r.0 ∷ db.movements }

pub apply_in_transaction-Applied :
    (thresholds : ApprovalThresholds) (stamp : Stamp) (input : MovementInput) (actor : ℕ)
    (request : Option ℕ) (db : Db) {r : Movement × Db}
    → apply_in_transaction thresholds stamp input actor request db ≡ ok r
    → Applied thresholds stamp input actor request db r
unfolding apply_in_transaction
apply_in_transaction-Applied thresholds stamp input actor request db {r} h =
    let (lines, e1, h1) = >>=-eq-ok (resolve_lines db input input.lines) _ h in
    let (stock, e2, h2) =
      >>=-eq-ok
        (if is_active (status_of thresholds input lines)
          then apply_lines lines db.stock
          else ok db.stock)
        _ h1 in
    let e3 = insert_movement-eq-ok _ _ h2 in
    record {
      lines = lines;
      stock = stock;
      resolved = e1;
      moved = e2;
      movement = ap (λ p. p.0) e3;
      after =
          ap (λ p. p.1) e3
          ∙ ap (λ (m : Movement). record db { stock = stock; movements = m ∷ db.movements })
              (sym (ap (λ p. p.0) e3));
    }

if_apply-Change :
    (b : Bool) (input : MovementInput) (ls : List LedgerLine) (db : Db) (rs : List ResolvedLine)
    {s : Stock}
    → IsShaped input.type input.from_warehouse input.warehouse
    → HasThreeDecimals input
    → resolve_lines db input input.lines ≡ ok rs
    → (if b then apply_lines rs db.stock else ok db.stock) ≡ ok s
    → Change db.stock s (λ k.
      if b
      then lines_effect k (request_movement input ls) (map ledger_line (map stored_line rs))
      else pos 0)
if_apply-Change true input ls db rs shaped exact e h =
    apply_lines-Change input shaped ls db input.lines rs db.stock exact e h
if_apply-Change false input ls db rs {s} shaped exact e h =
    let same : db.stock ≡ s = cc in rw (← same) (Change-refl db.stock)

swap_sum : (a b : ℤ) → a +ℤ b ≡ b +ℤ a
swap_sum a b = omega int_laws

pub Applied-IsSound :
    (thresholds : ApprovalThresholds) (stamp : Stamp) (input : MovementInput) (actor : ℕ)
    (request : Option ℕ) (db : Db) {r : Movement × Db}
    → IsShaped input.type input.from_warehouse input.warehouse
    → HasThreeDecimals input
    → IsSound db
    → Applied thresholds stamp input actor request db r
    → IsSound r.1
unfolding contribution ledger_movement movement_of
Applied-IsSound thresholds stamp input actor request db shaped exact sound a = rw a.after (
    rw a.movement (
      Change-IsSound db sound
        (if_apply-Change (is_active (status_of thresholds input a.lines)) input
          (map ledger_line (map stored_line a.lines)) db a.lines shaped exact a.resolved a.moved)
        (λ k. ledger_effect-cons k _ db.movements ∙ swap_sum _ _) (shaped, sound.shaped)))

-- A movement whose shape the caller has checked, whose quantities have three decimals at most,
-- and that goes through in a sound store (IsSound), leaves it sound.
pub apply_in_transaction-IsSound :
    (thresholds : ApprovalThresholds) (stamp : Stamp) (input : MovementInput) (actor : ℕ)
    (request : Option ℕ) (db : Db) {r : Movement × Db}
    → assert_movement_shape input.type (shape_of input) ≡ ok tt
    → HasThreeDecimals input
    → IsSound db
    → apply_in_transaction thresholds stamp input actor request db ≡ ok r
    → IsSound r.1
unfolding shape_of
apply_in_transaction-IsSound thresholds stamp input actor request db shape exact sound h =
    Applied-IsSound thresholds stamp input actor request db
      (assert_movement_shape-IsShaped input.type (shape_of input) shape) exact sound
      (apply_in_transaction-Applied thresholds stamp input actor request db h)

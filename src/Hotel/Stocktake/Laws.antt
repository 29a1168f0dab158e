-- ===== src/Hotel/Stocktake/Laws.antt =====
-- The life of a physical count, and what its approval does to the stock.
use axzy_ptnv_api.Base.{
  Bool, List, Option, [], ap, arith, false, inl, inr, none, not, refl, same_id, some, true, ℕ, ◌&&◌,
  ◌<◌, ◌↔◌, ◌∙◌, ◌∷◌, ◌≡◌, ◌≢◌, ◌⊎◌,
}
use axzy_ptnv_api.Base.Lists.{keep}
use axzy_ptnv_api.Base.Outcome.{>>=-eq-ok, err, http, ok, required, throw_if}
use axzy_ptnv_api.Hotel.Errors.{self_approval, stocktake_invalid_state}
use axzy_ptnv_api.Hotel.Kardex.{
  ApprovalThresholds, MovementType, adjust_in, adjust_out, assert_movement_shape,
}
use axzy_ptnv_api.Hotel.Posting.{shape_of}
use axzy_ptnv_api.Hotel.Tables.{Db, Stamp}
use axzy_ptnv_api.Hotel.Transaction.{apply_in_transaction}
use axzy_ptnv_api.Hotel.Soundness.Invariant.{IsSound}
use axzy_ptnv_api.Hotel.Soundness.Requested.{apply_in_transaction-IsSound}
use axzy_ptnv_api.Hotel.Stocktake.Rules.{
  Action, StocktakeStatus, applied, cancelled, counting, draft, is_open, next_stocktake_status,
  pending_approval,
}
use axzy_ptnv_api.Hotel.Stocktake.Service.{
  Difference, Stocktake, Store, adjustment, adjustment_line, approve, differences, find_stocktake,
  is_inbound_difference, post_adjustment, post_differences,
}
use axzy_ptnv_api.Hotel.Transaction.Applied.{exact_line-finer}

-- How far a count has come.
abbrev pub rank : StocktakeStatus → ℕ
rank draft = 0
rank counting = 1
rank pending_approval = 2
rank applied = 3
rank cancelled = 3

-- Every action that a count admits leads to a status of a higher rank (draft 0, counting 1,
-- waiting for approval 2, applied and cancelled 3).
pub next_stocktake_status-rank :
    (t : StocktakeStatus) (a : Action) {u : StocktakeStatus}
    → next_stocktake_status t a ≡ ok u
    → rank t < rank u
unfolding next_stocktake_status
next_stocktake_status-rank t a h = ground arith

-- A count can be cancelled exactly while it is open.
pub next_stocktake_status-open :
    (t : StocktakeStatus)
    → (next_stocktake_status t Action.cancel ≡ ok cancelled) ↔ (is_open t ≡ true)
unfolding next_stocktake_status
next_stocktake_status-open t = ground arith

-- A count that is applied or cancelled admits no action: each ends in the error of a wrong
-- state.
pub next_stocktake_status-closed :
    (t : StocktakeStatus) (a : Action)
    → is_open t ≡ false
    → next_stocktake_status t a ≡ err (http 409 stocktake_invalid_state)
unfolding next_stocktake_status
next_stocktake_status-closed t a h = ground arith

post_adjustment-IsSound :
    (thresholds : ApprovalThresholds) (stamp : Stamp) (type : MovementType) (t : Stocktake)
    (reason actor : ℕ) (ds : List Difference) (db : Db) {db' : Db}
    → IsSound db
    → post_adjustment thresholds stamp type t reason actor ds db ≡ ok db'
    → IsSound db'
unfolding post_adjustment adjustment
post_adjustment-IsSound thresholds stamp type t reason actor [] db {db'} sound h =
    let same : db ≡ db' = cc in rw (← same) sound
post_adjustment-IsSound thresholds stamp type t reason actor (d ∷ ds) db {db'} sound h =
    let input = adjustment type t reason (d ∷ ds) in
    let (u, shape, h1) = >>=-eq-ok (assert_movement_shape type (shape_of input)) _ h in
    let (r, gone, h2) =
      >>=-eq-ok (apply_in_transaction thresholds stamp input actor none db) _ h1 in
    let same : r.1 ≡ db' = cc in
    rw (← same) (
      apply_in_transaction-IsSound thresholds stamp input actor none db shape
        (exact_line-finer (adjustment_line type) (d ∷ ds)) sound gone)

post_differences-IsSound :
    (thresholds : ApprovalThresholds) (stamp stamp' : Stamp) (t : Stocktake) (reason : Option ℕ)
    (actor : ℕ) (ds : List Difference) (db : Db) {db' : Db}
    → IsSound db
    → post_differences thresholds stamp stamp' t reason actor ds db ≡ ok db'
    → IsSound db'
unfolding post_differences
post_differences-IsSound thresholds stamp stamp' t reason actor [] db {db'} sound h =
    let same : db ≡ db' = cc in rw (← same) sound
post_differences-IsSound thresholds stamp stamp' t none actor (d ∷ ds) db sound h = cc
post_differences-IsSound thresholds stamp stamp' t (some r) actor (d ∷ ds) db sound h =
    let (db1, first, second) =
      >>=-eq-ok
        (post_adjustment thresholds stamp adjust_in t r actor (keep is_inbound_difference (d ∷ ds))
          db)
        _ h in
    post_adjustment-IsSound thresholds stamp' adjust_out t r actor _ db1
      (post_adjustment-IsSound thresholds stamp adjust_in t r actor _ db sound first) second

-- What an approval that goes through has tested and done.
pub record Approved (thresholds : ApprovalThresholds) (stamp stamp' : Stamp) (id actor : ℕ)
    (own_close : Bool) (s s' : Store) : Type 0 where
  pub stocktake : Stocktake
  pub snapshot : ℕ
  pub found : find_stocktake id s ≡ ok stocktake
  pub pending : stocktake.status ≡ pending_approval
  pub taken : stocktake.snapshot_at ≡ some snapshot
  pub other : (same_id stocktake.closed_by (some actor) && not own_close) ≡ false
  pub posted :
      post_differences thresholds stamp stamp' stocktake s.count_reason actor
        (differences stocktake snapshot s)
        s.db
      ≡ ok s'.db

pub approve-Approved :
    (thresholds : ApprovalThresholds) (stamp stamp' : Stamp) (id actor : ℕ) (own_close : Bool)
    (s : Store) {s' : Store}
    → approve thresholds stamp stamp' id actor own_close s ≡ ok s'
    → Approved thresholds stamp stamp' id actor own_close s s'
unfolding approve next_stocktake_status
approve-Approved thresholds stamp stamp' id actor own_close s {s'} h =
    let (t, found, h1) = >>=-eq-ok (find_stocktake id s) _ h in
    let (next, step, h2) = >>=-eq-ok (next_stocktake_status t.status Action.approve) _ h1 in
    let (u, other, h3) =
      >>=-eq-ok (throw_if (same_id t.closed_by (some actor) && not own_close) 403 self_approval) _
        h2 in
    let (snapshot, taken, h4) =
      >>=-eq-ok (required t.snapshot_at (http 409 stocktake_invalid_state)) _ h3 in
    let (db', posted, h5) =
      >>=-eq-ok
        (post_differences thresholds stamp stamp' t s.count_reason actor (differences t snapshot s)
          s.db)
        _ h4 in
    let same : db' ≡ s'.db = ground arith in
    record {
      stocktake = t;
      snapshot = snapshot;
      found = found;
      pending = ground arith;
      taken = ground arith;
      other = ground arith;
      posted = posted ∙ ap (λ d. ok d) same;
    }

-- An approval of a physical count that goes through over a sound store (IsSound) leaves it
-- sound; it goes through only on a count that waits for approval, and only for someone else than
-- who closed it, or for one who may approve their own.
pub approve_stocktake-IsSound :
    (thresholds : ApprovalThresholds) (stamp stamp' : Stamp) (id actor : ℕ) (own_close : Bool)
    (s : Store) {s' : Store}
    → IsSound s.db
    → approve thresholds stamp stamp' id actor own_close s ≡ ok s'
    → IsSound s'.db
      × ((t : Stocktake) × (find_stocktake id s ≡ ok t)
          × (t.status ≡ pending_approval)
          × ((t.closed_by ≢ some actor) ⊎ (own_close ≡ true)))
approve_stocktake-IsSound thresholds stamp stamp' id actor own_close s sound h =
    let a = approve-Approved thresholds stamp stamp' id actor own_close s h in
    (
      post_differences-IsSound thresholds stamp stamp' a.stocktake s.count_reason actor _ s.db sound
          a.posted,
      (a.stocktake, a.found, a.pending, not_self own_close a.stocktake.closed_by a.other),
    )
  where
    not_self :
        (b : Bool) (c : Option ℕ)
        → (same_id c (some actor) && not b) ≡ false
        → (c ≢ some actor) ⊎ (b ≡ true)
    not_self true c e = inr refl
    not_self false none e = inl cc
    not_self false (some c) e = inl (λ same. ground arith)

-- ===== src/Hotel/Posting.antt =====
-- Posting a movement (`post` in modules/hotel-store/services/movement.service.ts): the check of the
-- request, the replay of a request key, and the attempts at a serializable transaction.
pub mod Replay
pub mod Retries
use axzy_ptnv_api.Base.{
  Bool, Option, false, given, if◌then◌else◌, map, none, not, some, suc, true, zero, ℕ, ◌+◌, ◌==◌,
}
use axzy_ptnv_api.Base.Int.{pos, ℤ, ◌+ℤ◌}
use axzy_ptnv_api.Base.Outcome.{
  Failure, Result, conflict, duplicate, err, http, ok, refused, throw_if, ◌>>=◌, ◌>>◌,
}
use axzy_ptnv_api.Hotel.Errors.{Code, movement_duplicate, movement_type_not_supported}
use axzy_ptnv_api.Hotel.Kardex.{
  ApprovalThresholds, MovementShape, MovementType, adjust_in, adjust_out, assert_movement_shape,
  inbound, initial_load, transfer, write_off,
}
use axzy_ptnv_api.Hotel.Tables.{Db, Movement, MovementInput, RequestLine, Stamp}
use axzy_ptnv_api.Hotel.Transaction.{apply_in_transaction, find_request}

unfoldable pub is_api_type : MovementType → Bool
is_api_type initial_load = true
is_api_type inbound = true
is_api_type transfer = true
is_api_type write_off = true
is_api_type adjust_in = true
is_api_type adjust_out = true
is_api_type _ = false

-- The least number of thousandths that a line's quantity is not above: it is positive when the
-- quantity is.
abbrev pub quantity_above : RequestLine → ℤ
quantity_above l = if l.finer == 0 then l.line.quantity else l.line.quantity +ℤ pos 1

unfoldable pub shape_of : MovementInput → MovementShape
shape_of input = record {
  from_warehouse = input.from_warehouse;
  warehouse = input.warehouse;
  room = input.room;
  reason = input.reason;
  quantities = map quantity_above input.lines;
}

-- The `catch` of `post`: what is thrown when no attempt is left.
unfoldable pub thrown : Failure Code → Failure Code
thrown duplicate = http 409 movement_duplicate
thrown (http status code) = http status code
thrown conflict = conflict
thrown refused = refused

-- `MAX_ATTEMPTS - 1`
abbrev retries : ℕ
retries = 2

module _ (thresholds : ApprovalThresholds) (stamp : Stamp)
    (aborts : ℕ → Option (Failure Code)) where
  -- One attempt; `aborts` tells with which error, if any, the database ends it.
  unfoldable pub attempt : ℕ → MovementInput → ℕ → Option ℕ → Db → Result Code (Movement × Db)
  attempt n input actor request db = elim (aborts n) [
    | some e ↦ err e
    | none ↦ apply_in_transaction thresholds stamp input actor request db
  ]

  -- The loop of `post`, by the number of attempts that are left after this one.
  unfoldable pub post_from : ℕ → ℕ → MovementInput → ℕ → Option ℕ → Db → Result Code (Movement × Db)
  post_from zero n input actor request db = elim (attempt n input actor request db) [
    | ok r ↦ ok r
    | err e ↦ err (thrown e)
  ]
  post_from (suc left) n input actor request db = elim (attempt n input actor request db) [
    | ok r ↦ ok r
    | err conflict ↦ post_from left (n + 1) input actor request db
    | err duplicate ↦ err (thrown duplicate)
    | err refused ↦ err (thrown refused)
    | err (http status code) ↦ err (thrown (http status code))
  ]

  unfoldable pub post : MovementInput → ℕ → Option ℕ → Db → Result Code (Movement × Db)
  post input actor request db = do
    throw_if (not (is_api_type input.type)) 422 movement_type_not_supported
    let fresh = if given request then request else none
    elim (find_request fresh db.movements) [
      | some existing ↦ ok (existing, db)
      | none ↦
          assert_movement_shape input.type (shape_of input)
          >> post_from retries 1 input actor request db
    ]

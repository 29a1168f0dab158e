-- ===== src/Hotel/Soundness/Shaped.antt =====
-- The check of a request's shape (`assertMovementShape`): what it ensures, and an error of it that
-- cannot occur.
use axzy_ptnv_api.Base.{List, [], arith, false, given, ◌∷◌, ◌≡◌, ◌≢◌}
use axzy_ptnv_api.Base.Int.{pos, ℤ, ◌≤ℤ◌}
use axzy_ptnv_api.Base.Lists.{All}
use axzy_ptnv_api.Base.Outcome.{err, http, ok}
use axzy_ptnv_api.Hotel.Errors.{movement_same_warehouse}
use axzy_ptnv_api.Hotel.Kardex.{
  MovementShape, MovementType, assert_movement_shape, assert_positive_quantities,
  assert_positive_quantity, ledger_deltas, nonzero,
}
use axzy_ptnv_api.Hotel.Transaction.Effects.{IsShaped}

pub assert_movement_shape-IsShaped :
    (t : MovementType) (input : MovementShape)
    → assert_movement_shape t input ≡ ok tt
    → IsShaped t input.from_warehouse input.warehouse
unfolding assert_movement_shape
assert_movement_shape-IsShaped t input h = record {
  source = λ e. ground arith;
  target = λ e. ground arith;
}

-- The other side has no warehouse.
pub assert_movement_shape-one_sided :
    (t : MovementType) (input : MovementShape)
    → assert_movement_shape t input ≡ ok tt
    → (nonzero (ledger_deltas t).source ≡ false → given input.from_warehouse ≡ false)
      × (nonzero (ledger_deltas t).target ≡ false → given input.warehouse ≡ false)
unfolding assert_movement_shape
assert_movement_shape-one_sided t input h = (λ e. ground arith, λ e. ground arith)

pub assert_positive_quantities_lem :
    (qs : List ℤ) → assert_positive_quantities qs ≡ ok tt → All (λ q. pos 1 ≤ℤ q) qs
unfolding assert_positive_quantities assert_positive_quantity
assert_positive_quantities_lem [] h = tt
assert_positive_quantities_lem (q ∷ qs) h =
    (ground arith, assert_positive_quantities_lem qs (ground arith))

quantities_error :
    (qs : List ℤ) → assert_positive_quantities qs ≢ err (http 422 movement_same_warehouse)
unfolding assert_positive_quantities assert_positive_quantity
quantities_error [] h = cc
quantities_error (q ∷ qs) h = ground (arith, quantities_error qs)

-- The shape check never ends in HOTEL_MOVEMENT_SAME_WAREHOUSE: the tests before it refuse every
-- request that would.
pub shape-ne-same_warehouse :
    (t : MovementType) (input : MovementShape)
    → assert_movement_shape t input ≢ err (http 422 movement_same_warehouse)
unfolding assert_movement_shape ledger_deltas
shape-ne-same_warehouse t input h = ground (arith, quantities_error input.quantities)

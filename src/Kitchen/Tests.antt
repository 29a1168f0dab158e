-- ===== src/Kitchen/Tests.antt =====
-- Lots of an item, and the theorems at them.
pub mod Store
pub mod Orders
use axzy_ptnv_api.Base.{List, Option, [], false, none, refl, some, ℕ, ◌+◌, ◌∷◌, ◌≡◌}
use axzy_ptnv_api.Base.Lists.{All}
use axzy_ptnv_api.Base.Sort.{insert, sort}
use axzy_ptnv_api.Kitchen.Fefo.{
  FefoAllocation, FefoLot, allocate_fefo, is_usable, smaller, take_lots, usable_lots,
}
use axzy_ptnv_api.Kitchen.Fefo.Laws.{
  EmptiesInOrder, LeaveByExpiry, IsTakenFrom, allocate_fefo-IsTakenFrom, allocate_fefo-in_order,
  allocate_fefo_total, allocated, held_by,
}

abbrev lot : ℕ → Option ℕ → ℕ → FefoLot
lot id expires_on on_hand = record {
  id = id;
  lot_code = id;
  expires_on = expires_on;
  received_at = id;
  on_hand = on_hand;
}

-- One lot that never expires, one that did on day 90, and two that will.
abbrev lots : List FefoLot
lots = lot 1 none 4000 ∷ lot 2 (some 90) 4000 ∷ lot 3 (some 120) 1000 ∷ lot 4 (some 110) 500 ∷ []

abbrev taken : ℕ → Option ℕ → ℕ → FefoAllocation
taken id expires_on quantity = record {
  lot_id = id;
  lot_code = id;
  expires_on = expires_on;
  quantity = quantity;
}

soonest_first : allocate_fefo lots 2000 100 false ≡ record {
  allocations = taken 4 (some 110) 500 ∷ taken 3 (some 120) 1000 ∷ taken 1 none 500 ∷ [];
  missing = 0;
}
unfolding allocate_fefo take_lots usable_lots is_usable smaller sort insert
soonest_first = refl

allocate_fefo-IsTakenFrom_example :
    All (IsTakenFrom lots 100 false) (allocate_fefo lots 2000 100 false).allocations
allocate_fefo-IsTakenFrom_example = allocate_fefo-IsTakenFrom lots 2000 100 false

allocate_fefo-in_order_example :
    LeaveByExpiry (usable_lots lots 100 false)
    × EmptiesInOrder (usable_lots lots 100 false) (allocate_fefo lots 2000 100 false).allocations
allocate_fefo-in_order_example = allocate_fefo-in_order lots 2000 100 false

allocate_fefo_total_example :
    (allocated (allocate_fefo lots 2000 100 false).allocations
        + (allocate_fefo lots 2000 100 false).missing
      ≡ 2000)
    × (allocated (allocate_fefo lots 2000 100 false).allocations
        ≡ smaller (held_by (usable_lots lots 100 false)) 2000)
allocate_fefo_total_example = allocate_fefo_total lots 2000 100 false

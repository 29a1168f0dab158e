-- ===== src/Kitchen/Fefo.antt =====
-- The split of a quantity over the lots of an item, first to expire first out
-- (modules/kitchen/services/fefo.ts). Quantities are counted in thousandths, where `round3`
-- changes nothing, and none is negative; a day key and a time are numbers of the same order.
pub mod Laws
use axzy_ptnv_api.Base.{
  Bool, List, Option, [], false, if◌then◌else◌, leb, ltb, none, not, some, true, ℕ, ◌&&◌, ◌-◌, ◌==◌,
  ◌||◌, ◌∷◌,
}
use axzy_ptnv_api.Base.Lists.{keep}
use axzy_ptnv_api.Base.Sort.{sort}

pub record FefoLot : Type 0 where
  pub id : ℕ
  pub lot_code : ℕ
  pub expires_on : Option ℕ
  pub received_at : ℕ
  pub on_hand : ℕ

pub record FefoAllocation : Type 0 where
  pub lot_id : ℕ
  pub lot_code : ℕ
  pub expires_on : Option ℕ
  pub quantity : ℕ

pub record FefoResult : Type 0 where
  pub allocations : List FefoAllocation
  pub missing : ℕ

abbrev pub is_expired : Option ℕ → ℕ → Bool
is_expired none today = false
is_expired (some day) today = ltb day today

-- The comparator of `allocateFefo`: whether its value is at most 0.
abbrev pub first_out : Option ℕ → Option ℕ → ℕ → ℕ → Bool
first_out none none a b = leb a b
first_out none (some y) a b = false
first_out (some x) none a b = true
first_out (some x) (some y) a b = if x == y then leb a b else ltb x y

abbrev pub ahead : FefoLot → FefoLot → Bool
ahead a b = first_out a.expires_on b.expires_on a.received_at b.received_at

unfoldable pub is_usable : Bool → ℕ → FefoLot → Bool
is_usable include_expired today l =
    ltb 0 l.on_hand && (include_expired || not (is_expired l.expires_on today))

abbrev pub taken_from : FefoLot → ℕ → FefoAllocation
taken_from l quantity = record {
  lot_id = l.id;
  lot_code = l.lot_code;
  expires_on = l.expires_on;
  quantity = quantity;
}

unfoldable pub smaller : ℕ → ℕ → ℕ
smaller a b = if leb a b then a else b

-- The loop over the usable lots; the subtraction does not pass 0, since `take` is the smaller.
unfoldable pub take_lots : List FefoLot → ℕ → FefoResult
take_lots [] remaining = record { allocations = []; missing = remaining }
take_lots (l ∷ ls) remaining =
    let rest = take_lots ls (remaining - smaller l.on_hand remaining) in
    if remaining == 0 then record { allocations = []; missing = 0 } else record {
      allocations = taken_from l (smaller l.on_hand remaining) ∷ rest.allocations;
      missing = rest.missing;
    }

unfoldable pub usable_lots : List FefoLot → ℕ → Bool → List FefoLot
usable_lots lots today include_expired = sort ahead (keep (is_usable include_expired today) lots)

unfoldable pub allocate_fefo : List FefoLot → ℕ → ℕ → Bool → FefoResult
allocate_fefo lots quantity today include_expired =
    take_lots (usable_lots lots today include_expired) quantity

-- ===== src/Hotel/Positions.antt =====
-- Stock positions: the expected stock of the ledger and its differences from the stored one
-- (modules/hotel-store/services/kardex-rules.ts). The key of a position is the triple that the
-- text key is built from, and a `Map` or a table is the list of its rows.
pub mod Laws
pub mod Diff
use axzy_ptnv_api.Base.{
  ℕ, Bool, Option, none, some, List, [], ◌∷◌, ◌++◌, ◌&&◌, if◌then◌else◌, ◌==◌, given,
}
use axzy_ptnv_api.Base.Int.{ℤ, pos, ◌+ℤ◌, ◌-ℤ◌, ◌*ℤ◌, eqb_ℤ}
use axzy_ptnv_api.Hotel.Kardex.{MovementType, ledger_deltas, nonzero}

-- A position of the stock: product, warehouse, location.
pub record Key : Type 0 where
  pub product : ℕ
  pub warehouse : ℕ
  pub location : ℕ

abbrev pub key_eq : Key → Key → Bool
key_eq a b = a.product == b.product && (a.warehouse == b.warehouse && a.location == b.location)

-- Rows of a table, or of a `Map`, in insertion order.
abbrev pub Stock : Type 0
Stock = List (Key × ℤ)

unfoldable pub find_row : Key → Stock → Option ℤ
find_row k [] = none
find_row k ((j, q) ∷ s) = if key_eq j k then some q else find_row k s

-- `map.set(key, quantity)`: replaces the row or adds one.
unfoldable pub set_row : Key → ℤ → Stock → Stock
set_row k v [] = (k, v) ∷ []
set_row k v ((j, q) ∷ s) = if key_eq j k then (j, v) ∷ s else (j, q) ∷ set_row k v s

abbrev pub quantity_or_zero : Option ℤ → ℤ
quantity_or_zero none = pos 0
quantity_or_zero (some q) = q

pub record LedgerLine : Type 0 where
  pub product : ℕ
  pub quantity : ℤ
  pub from_location : Option ℕ
  pub to_location : Option ℕ

pub record LedgerMovement : Type 0 where
  pub type : MovementType
  pub from_warehouse : Option ℕ
  pub warehouse : Option ℕ
  pub lines : List LedgerLine

abbrev pub id_of : Option ℕ → ℕ
id_of none = 0
id_of (some i) = i

abbrev pub key_at : ℕ → Option ℕ → Option ℕ → Key
key_at p w l = record { product = p; warehouse = id_of w; location = id_of l }

-- `add` of `expectedStock`
unfoldable pub add_to : Key → ℤ → Stock → Stock
add_to k delta out = set_row k (quantity_or_zero (find_row k out) +ℤ delta) out

unfoldable pub expected_line : LedgerMovement → LedgerLine → Stock → Stock
expected_line m l out =
    let deltas = ledger_deltas m.type in
    let out' =
      if nonzero deltas.source && (given m.from_warehouse && given l.from_location)
      then add_to (key_at l.product m.from_warehouse l.from_location) (deltas.source *ℤ l.quantity)
          out
      else out in
    if nonzero deltas.target && (given m.warehouse && given l.to_location)
    then add_to (key_at l.product m.warehouse l.to_location) (deltas.target *ℤ l.quantity) out'
    else out'

unfoldable pub expected_lines : LedgerMovement → List LedgerLine → Stock → Stock
expected_lines m [] out = out
expected_lines m (l ∷ ls) out = expected_lines m ls (expected_line m l out)

unfoldable pub expected_from : List LedgerMovement → Stock → Stock
expected_from [] out = out
expected_from (m ∷ ms) out = expected_from ms (expected_lines m m.lines out)

-- The expected stock of each position: the signed sum of the movement lines.
unfoldable pub expected_stock : List LedgerMovement → Stock
expected_stock movements = expected_from movements []

pub record StockDifference : Type 0 where
  pub key : Key
  pub quantity : ℤ
  pub expected : ℤ
  pub difference : ℤ

-- `new Map(actual.map(…))`: a later row replaces an earlier one.
unfoldable pub by_key : Stock → Stock → Stock
by_key [] out = out
by_key ((k, q) ∷ s) out = by_key s (set_row k q out)

-- The keys of the first map, then those of the second that are new.
unfoldable pub new_keys : Stock → Stock → List Key
new_keys a [] = []
new_keys a ((k, q) ∷ s) =
    let rest = new_keys a s in elim (find_row k a) [ none ↦ k ∷ rest | some _ ↦ rest ]

unfoldable pub keys : Stock → List Key
keys [] = []
keys ((k, q) ∷ s) = k ∷ keys s

-- A difference of 1e-9 or less between multiples of 1e-3 is no difference.
unfoldable pub diff_keys : Stock → Stock → List Key → List StockDifference
diff_keys a e [] = []
diff_keys a e (k ∷ ks) =
    let actual_qty = quantity_or_zero (find_row k a) in
    let expected_qty = quantity_or_zero (find_row k e) in
    let rest = diff_keys a e ks in
    if eqb_ℤ actual_qty expected_qty
    then rest
    else record {
      key = k;
      quantity = actual_qty;
      expected = expected_qty;
      difference = actual_qty -ℤ expected_qty;
    }
      ∷ rest

-- The positions at which the stored stock and the ledger disagree.
unfoldable pub diff_stock : Stock → Stock → List StockDifference
diff_stock actual expected =
    let actual_by_key = by_key actual [] in
    diff_keys actual_by_key expected (keys actual_by_key ++ new_keys actual_by_key expected)

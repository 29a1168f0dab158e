-- ===== src/Kitchen/Orders/Lines.antt =====
-- The lines of a request, in base units and one per item (`resolveLines` and `mergeLines` in
-- modules/kitchen/services/purchase-order.service.ts, `toBaseUnits` in supplier-rules.ts).
pub mod Laws
use axzy_ptnv_api.Base.{
  Bool, List, Option, [], false, given, if◌then◌else◌, none, not, or_else, same_id, some, true, ℕ,
  ◌&&◌, ◌*◌, ◌+◌, ◌/◌, ◌==◌, ◌∷◌,
}
use axzy_ptnv_api.Access.Policy.{items, map_list}
use axzy_ptnv_api.Base.Lists.{find}
use axzy_ptnv_api.Base.Outcome.{Result, http, ok, required, throw_if, ◌>>=◌, ◌>>◌}
use axzy_ptnv_api.Kitchen.Errors.{
  KitchenCode, kitchen_item_inactive, kitchen_item_not_found, supplier_item_not_found,
  tax_rate_inactive, tax_rate_not_found,
}
use axzy_ptnv_api.Kitchen.Orders.Tables.{OrderLine, SupplierItem}
use axzy_ptnv_api.Kitchen.Store.Operations.{find_item}
use axzy_ptnv_api.Kitchen.Store.Tables.{Item, TaxRate}

-- `tax_rate` is undefined (none), null (some none) or an identifier.
pub record LineInput : Type 0 where
  pub item : ℕ
  pub quantity : ℕ
  pub unit_cost : Option ℕ
  pub notes : Option ℕ
  pub use_purchase_unit : Bool
  pub tax_rate : Option (Option ℕ)

pub record ResolvedLine : Type 0 where
  pub item : ℕ
  pub quantity : ℕ
  pub unit_cost : Option ℕ
  pub notes : Option ℕ
  pub purchase_unit : Option ℕ
  pub purchase_factor : Option ℕ
  pub purchase_quantity : Option ℕ
  pub tax_rate_id : Option ℕ
  pub tax_rate : ℕ

-- `prev.purchaseUnit !== null && prev.purchaseUnit === line.purchaseUnit && ...`
unfoldable pub same_presentation : ResolvedLine → ResolvedLine → Bool
same_presentation prev line = elim prev.purchase_unit [
  | none ↦ false
  | some unit ↦
      same_id (some unit) line.purchase_unit && same_id prev.purchase_factor line.purchase_factor
]

-- What a line makes of an earlier one of its item.
unfoldable pub merge_line : ResolvedLine → ResolvedLine → ResolvedLine
merge_line prev line = record prev {
  quantity = prev.quantity + line.quantity;
  unit_cost = (elim line.unit_cost [ none ↦ prev.unit_cost | some c ↦ some c ]);
  notes = if given line.notes then line.notes else prev.notes;
  purchase_unit = if same_presentation prev line then prev.purchase_unit else none;
  purchase_factor = if same_presentation prev line then prev.purchase_factor else none;
  purchase_quantity =
      if same_presentation prev line
      then some (or_else prev.purchase_quantity 0 + or_else line.purchase_quantity 0)
      else none;
  tax_rate_id = line.tax_rate_id;
  tax_rate = line.tax_rate;
}

-- One line into the map by item, whose entries stand in the order in which they came.
unfoldable pub add_line : List ResolvedLine → ResolvedLine → List ResolvedLine
add_line [] line = line ∷ []
add_line (prev ∷ merged) line =
    if prev.item == line.item then merge_line prev line ∷ merged else prev ∷ add_line merged line

unfoldable pub merge_into : List ResolvedLine → List ResolvedLine → List ResolvedLine
merge_into merged [] = merged
merge_into merged (line ∷ lines) = merge_into (add_line merged line) lines

unfoldable pub merge_lines : List ResolvedLine → List ResolvedLine
merge_lines lines = merge_into [] lines

-- Rounded halves up, to thousandths; a factor is not 0.
unfoldable pub base_quantity : ℕ → ℕ → ℕ
base_quantity quantity factor = (quantity * factor + 500) / 1000

-- Rounded halves up, to ten-thousandths.
unfoldable pub base_cost : Option ℕ → ℕ → Option ℕ
base_cost none factor = none
base_cost (some cost) factor = some ((2 * cost * 1000 + factor) / (2 * factor))

abbrev pub presentation_of : ℕ → ℕ → List SupplierItem → Option SupplierItem
presentation_of supplier item rows =
    find (λ (p : SupplierItem). p.supplier == supplier && p.item == item) rows

unfoldable pub check_presentations :
    ℕ → List SupplierItem → List LineInput → Result KitchenCode (Unit {0})
check_presentations supplier rows [] = ok tt
check_presentations supplier rows (l ∷ ls) = do
  throw_if (l.use_purchase_unit && is_missing (presentation_of supplier l.item rows)) 400
      supplier_item_not_found
  check_presentations supplier rows ls
  where
    is_missing : Option SupplierItem → Bool
    is_missing none = true
    is_missing (some p) = false

abbrev pub find_rate : ℕ → List TaxRate → Option TaxRate
find_rate id rates = find (λ (r : TaxRate). r.id == id) rates

-- The identifier of a chosen rate, which is not null and not empty.
abbrev pub chosen_rate : LineInput → Option ℕ
chosen_rate l = elim l.tax_rate [
  | none ↦ none
  | some choice ↦ if given choice then choice else none
]

abbrev pub check_rate : List TaxRate → Option ℕ → Result KitchenCode (Unit {0})
check_rate rates none = ok tt
check_rate rates (some id) = do
  rate ← required (find_rate id rates) (http 404 tax_rate_not_found)
  throw_if (not rate.active) 409 tax_rate_inactive

unfoldable pub check_rates : List TaxRate → List LineInput → Result KitchenCode (Unit {0})
check_rates rates [] = ok tt
check_rates rates (l ∷ ls) = do check_rate rates (chosen_rate l); check_rates rates ls

abbrev pub active_rate : Option TaxRate → Option TaxRate
active_rate none = none
active_rate (some r) = if r.active then some r else none

abbrev pub default_rate : Option Item → Option TaxRate
default_rate none = none
default_rate (some i) = active_rate i.default_tax_rate

-- The rate of a line: none where it is null, else the chosen one or that of the item.
unfoldable pub tax_of : List TaxRate → List Item → LineInput → Option TaxRate
tax_of rates items l = elim l.tax_rate [
  | none ↦ default_rate (find_item l.item items)
  | some choice ↦ elim choice [
    | none ↦ none
    | some id ↦
        if given (some id) then find_rate id rates else default_rate (find_item l.item items)
  ]
]

unfoldable pub resolve_line :
    ℕ → List SupplierItem → List TaxRate → List Item → LineInput → ResolvedLine
resolve_line supplier rows rates items l =
    let tax = tax_of rates items l in
    let presentation = if l.use_purchase_unit then presentation_of supplier l.item rows else none in
    record {
      item = l.item;
      quantity = (elim presentation [
        | none ↦ l.quantity
        | some p ↦ base_quantity l.quantity p.factor
      ]);
      unit_cost = (elim presentation [
        | none ↦ l.unit_cost
        | some p ↦ base_cost l.unit_cost p.factor
      ]);
      notes = l.notes;
      purchase_unit = (elim presentation [ none ↦ none | some p ↦ some p.purchase_unit ]);
      purchase_factor = (elim presentation [ none ↦ none | some p ↦ some p.factor ]);
      purchase_quantity = (elim presentation [ none ↦ none | some p ↦ some l.quantity ]);
      tax_rate_id = (elim tax [ none ↦ none | some r ↦ some r.id ]);
      tax_rate = (elim tax [ none ↦ 0 | some r ↦ r.rate ]);
    }

unfoldable pub resolve_lines :
    ℕ
    → List SupplierItem
    → List TaxRate
    → List Item
    → List LineInput
    → Result KitchenCode (List ResolvedLine)
resolve_lines supplier rows rates items lines = do
  check_presentations supplier rows lines
  check_rates rates lines
  ok (map_list (resolve_line supplier rows rates items) lines)

-- The items are looked at once each; asking twice for one gives the same answer.
unfoldable pub assert_items : List Item → List ResolvedLine → Result KitchenCode (Unit {0})
assert_items items [] = ok tt
assert_items items (l ∷ ls) = do
  item ← required (find_item l.item items) (http 404 kitchen_item_not_found)
  throw_if (not item.active) 409 kitchen_item_inactive
  assert_items items ls

-- `lineAmounts`: the subtotal before tax, the tax and the total, in hundredths, rounded halves up.
pub record Amounts : Type 0 where
  pub subtotal : ℕ
  pub tax : ℕ
  pub total : ℕ

unfoldable pub line_amounts : ℕ → Option ℕ → ℕ → Amounts
line_amounts quantity unit_cost tax_rate =
    let subtotal = (quantity * or_else unit_cost 0 + 50000) / 100000 in
    let tax = (subtotal * tax_rate + 5000) / 10000 in
    record { subtotal = subtotal; tax = tax; total = subtotal + tax }

unfoldable pub order_total : List OrderLine → ℕ
order_total [] = 0
order_total (l ∷ ls) = (line_amounts l.quantity l.unit_cost l.tax_rate).total + order_total ls

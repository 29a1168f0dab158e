-- ===== src/Kitchen/Store/Soundness/Taken.antt =====
-- The lines that an exit writes: which lots they come from, and how much of each item.
use axzy_ptnv_api.Base.{
  Bool, List, Option, Option-cases, [], ap, arith, false, if◌then◌else◌, inl, inr, ltb, none, not,
  refl, some, sym, true, ℕ, ◌&&◌, ◌++◌, ◌+◌, ◌==◌, ◌∙◌, ◌∷◌, ◌≡◌,
}
use axzy_ptnv_api.Access.Policy.{map_list}
use axzy_ptnv_api.Base.Lists.{All, All-append, In, In-keep, find_sound, keep}
use axzy_ptnv_api.Base.Outcome.{>>=-eq-ok, http, ok, refused, required, throw_if}
use axzy_ptnv_api.Kitchen.Errors.{
  durable_not_consumable, insufficient_stock, kitchen_lot_not_found, lot_expired,
}
use axzy_ptnv_api.Kitchen.Fefo.{FefoAllocation, FefoLot, allocate_fefo, is_expired, is_usable}
use axzy_ptnv_api.Kitchen.Fefo.Laws.{
  IsTakenFrom, allocate_fefo-IsTakenFrom, allocate_fefo_total, allocated,
}
use axzy_ptnv_api.Kitchen.Store.Movement.{find_lot}
use axzy_ptnv_api.Kitchen.Store.Operations.{
  OutLine, OutType, active_items, allocation_lines, as_consumption, as_waste, fefo_lots, find_item,
  has_stock_of, is_consumption, line_of_lot, lot_of_item, out_items, out_type, stock_out, take_line,
  take_out, to_fefo,
}
use axzy_ptnv_api.Kitchen.Store.Tables.{KitchenDb, KitchenLine, KitchenMovement, Lot}
use axzy_ptnv_api.Kitchen.Store.Soundness.Kept.{Recorded, create_movement-Recorded}

-- What lines move of the item `k`.
abbrev pub moved_of : ℕ → List KitchenLine → ℕ
moved_of k [] = 0
moved_of k (l ∷ ls) = (if l.item == k then l.quantity else 0) + moved_of k ls

-- What an exit asks for of the item `k`.
abbrev pub asked_of : ℕ → List OutLine → ℕ
asked_of k [] = 0
asked_of k (l ∷ ls) = (if l.item == k then l.quantity else 0) + asked_of k ls

-- A line that takes from a lot of its own item, which has not expired where the goods are consumed.
abbrev pub IsDrawnFrom : List Lot → OutType → ℕ → KitchenLine → Type 0
IsDrawnFrom lots type today line =
    (lot : Lot) × In lot lots
    × (line.lot ≡ lot.id)
    × (line.item ≡ lot.item)
    × (is_consumption type ≡ true → is_expired lot.expires_on today ≡ false)

moved_of-append :
    (k : ℕ) (a b : List KitchenLine) → moved_of k (a ++ b) ≡ moved_of k a + moved_of k b
moved_of-append k [] b = omega arith
moved_of-append k (l ∷ ls) b = let ih = moved_of-append k ls b in omega arith

moved_of-allocation_lines :
    (k item : ℕ) (parts : List FefoAllocation)
    → moved_of k (allocation_lines item parts) ≡ (if item == k then allocated parts else 0)
unfolding allocation_lines
moved_of-allocation_lines k item [] = ground arith
moved_of-allocation_lines k item (a ∷ rest) =
    let ih = moved_of-allocation_lines k item rest in ground arith

In-to_fefo :
    (l : FefoLot) (lots : List Lot)
    → In l (map_list to_fefo lots)
    → (lot : Lot) × In lot lots × (l ≡ to_fefo lot)
In-to_fefo l [] m = elim m [ ]
In-to_fefo l (x ∷ xs) (inl e) = (x, inl refl, e)
In-to_fefo l (x ∷ xs) (inr m) = let (lot, there, e) = In-to_fefo l xs m in (lot, inr there, e)

usable-fresh :
    (type : OutType) (today : ℕ) (l : FefoLot)
    → is_usable (not (is_consumption type)) today l ≡ true
    → is_consumption type ≡ true
    → is_expired l.expires_on today ≡ false
unfolding is_usable
usable-fresh as_consumption today l u c = ground arith
usable-fresh as_waste today l u c = cc

allocation-IsDrawnFrom :
    (lots : List Lot) (type : OutType) (today item : ℕ) (a : FefoAllocation)
    → IsTakenFrom (fefo_lots item lots) today (not (is_consumption type)) a
    → IsDrawnFrom lots type today (line_of_lot item a.lot_id a.quantity)
unfolding fefo_lots
allocation-IsDrawnFrom lots type today item a (l, there, usable, same_lot, more, le) =
    let (lot, kept, e) = In-to_fefo l (keep (has_stock_of item) lots) there in
    let (stands, stocked) = In-keep (has_stock_of item) lot lots kept in
    (
      lot,
      stands,
      same_lot ∙ ap (λ (x : FefoLot). x.id) e,
      of_item lot stocked,
      (λ c.
          ap (λ (x : FefoLot). is_expired x.expires_on today) (sym e)
          ∙ usable-fresh type today l usable c),
    )
  where
    of_item : (x : Lot) → has_stock_of item x ≡ true → item ≡ x.item
    of_item x h = ground arith

allocation_lines-IsDrawnFrom :
    (lots : List Lot) (type : OutType) (today item : ℕ) (parts : List FefoAllocation)
    → All (IsTakenFrom (fefo_lots item lots) today (not (is_consumption type))) parts
    → All (IsDrawnFrom lots type today) (allocation_lines item parts)
unfolding allocation_lines
allocation_lines-IsDrawnFrom lots type today item [] h = tt
allocation_lines-IsDrawnFrom lots type today item (a ∷ rest) h = (
  allocation-IsDrawnFrom lots type today item a h.0,
  allocation_lines-IsDrawnFrom lots type today item rest h.1,
)

pub lot_of_item-found :
    (lot item : ℕ) (lots : List Lot) {l : Lot}
    → lot_of_item lot item lots ≡ ok l
    → (find_lot lot lots ≡ some l) × (item ≡ l.item)
unfolding lot_of_item
lot_of_item-found lot item lots {l} h =
    let (x, there, h1) =
      >>=-eq-ok (required (find_lot lot lots) (http 404 kitchen_lot_not_found)) _ h in
    let (u, own_item, h2) =
      >>=-eq-ok (throw_if (not (x.item == item)) 404 kitchen_lot_not_found) _ h1 in
    let same : x ≡ l = ground arith in
    let found : find_lot lot lots ≡ some x = ground arith in
    let of_item : item ≡ x.item = ground arith in rw (← same) (found, of_item)

pub find_lot-In :
    (id : ℕ) (lots : List Lot) {l : Lot} → find_lot id lots ≡ some l → In l lots × (id ≡ l.id)
unfolding find_lot
find_lot-In id lots {l} f =
    let (there, same) = find_sound (λ (x : Lot). x.id == id) lots f in (there, ground arith)

-- What one line of an exit is taken from.
pub record Taken (lots : List Lot) (type : OutType) (today : ℕ) (line : OutLine)
    (lines : List KitchenLine) : Type 0 where
  pub drawn : All (IsDrawnFrom lots type today) lines
  pub total : (k : ℕ) → moved_of k lines ≡ (if line.item == k then line.quantity else 0)

take_line-Taken :
    (type : OutType) (today : ℕ) (lots : List Lot) (line : OutLine) {lines : List KitchenLine}
    → take_line type today lots line ≡ ok lines
    → Taken lots type today line lines
unfolding take_line
take_line-Taken type today lots line {lines} h = elim (Option-cases line.lot) [
  | inr (id, named) ↦
      let h0 = rw (take_line, named) at h in
      let (lot, there, h1) = >>=-eq-ok (lot_of_item id line.item lots) _ h0 in
      let (u, fresh, h2) =
        >>=-eq-ok
          (throw_if (is_consumption type && is_expired lot.expires_on today) 409 lot_expired) _
          h1 in
      let same : line_of_lot line.item lot.id line.quantity ∷ [] ≡ lines = cc in
      let (found, of_item) = lot_of_item-found id line.item lots there in
      rw (← same) (record {
        drawn = (
          (
            lot,
            (find_lot-In id lots found).0,
            refl,
            of_item,
            unexpired (is_consumption type) _ fresh,
          ),
          tt,
        );
        total = (λ k. omega arith);
      })
  | inl unnamed ↦
      let h0 = rw (take_line, unnamed) at h in
      let lots_of = fefo_lots line.item lots in
      let wide = not (is_consumption type) in
      let plan = allocate_fefo lots_of line.quantity today wide in
      let (u, covered, h1) =
        >>=-eq-ok (throw_if (ltb 0 plan.missing) 409 insufficient_stock) _ h0 in
      let same : allocation_lines line.item plan.allocations ≡ lines = cc in
      let whole : allocated plan.allocations ≡ line.quantity =
        exact _ _ _ covered (allocate_fefo_total lots_of line.quantity today wide).0 in
      rw (← same) (record {
        drawn =
            allocation_lines-IsDrawnFrom lots type today line.item plan.allocations
              (allocate_fefo-IsTakenFrom lots_of line.quantity today wide);
        total = (λ k.
            moved_of-allocation_lines k line.item plan.allocations
            ∙ ap (λ n. if line.item == k then n else 0) whole);
      })
]
  where
    unexpired :
        (c e : Bool) {v : Unit {0}}
        → throw_if (c && e) 409 lot_expired ≡ ok v
        → c ≡ true
        → e ≡ false
    unexpired c e q t = ground arith

    exact :
        (a m n : ℕ) {v : Unit {0}}
        → throw_if (ltb 0 m) 409 insufficient_stock ≡ ok v
        → a + m ≡ n
        → a ≡ n
    exact a m n q t = ground arith

pub take_out-Taken :
    (type : OutType) (today : ℕ) (db : KitchenDb) (asked : List OutLine) {lines : List KitchenLine}
    → take_out type today db asked ≡ ok lines
    → All (IsDrawnFrom db.lots type today) lines × ((k : ℕ) → moved_of k lines ≡ asked_of k asked)
unfolding take_out
take_out-Taken type today db [] {lines} h =
    let same : [] ≡ lines = cc in rw (← same) (tt, λ k. refl)
take_out-Taken type today db (line ∷ asked) {lines} h =
    let (item, there, h1) = >>=-eq-ok (required (find_item line.item db.items) refused) _ h in
    let (u, perishable, h2) =
      >>=-eq-ok (throw_if (is_consumption type && item.is_durable) 400 durable_not_consumable) _
        h1 in
    let (taken, t, h3) = >>=-eq-ok (take_line type today db.lots line) _ h2 in
    let (rest, r, h4) = >>=-eq-ok (take_out type today db asked) _ h3 in
    let one = take_line-Taken type today db.lots line t in
    let (drawn, totals) = take_out-Taken type today db asked r in
    let same : taken ++ rest ≡ lines = cc in
    rw (← same) (
      All-append (IsDrawnFrom db.lots type today) taken rest one.drawn drawn,
      (λ k. moved_of-append k taken rest ∙ cong_add (one.total k) (totals k)),
    )
  where
    cong_add : {a b c d : ℕ} → a ≡ b → c ≡ d → a + c ≡ b + d
    cong_add p q = cc

pub stock_out-Recorded :
    (id today : ℕ) (type : OutType) (reason : Option ℕ) (asked : List OutLine) (actor : ℕ)
    (db : KitchenDb) {r : KitchenMovement × KitchenDb}
    → stock_out id today type reason asked actor db ≡ ok r
    → (taken : List KitchenLine) × Recorded id (out_type type) taken actor none none db r
      × (take_out type today db asked ≡ ok taken)
unfolding stock_out
stock_out-Recorded id today type reason asked actor db h =
    let (u, there, h1) = >>=-eq-ok (active_items false db.items (out_items asked)) _ h in
    let (taken, t, h2) = >>=-eq-ok (take_out type today db asked) _ h1 in
    (taken, create_movement-Recorded id (out_type type) taken actor none none db h2, t)

-- The movement of an exit that goes through takes from lots of the items asked for, for a
-- consumption from none that has expired, and of each item exactly what is asked for.
pub stock_out-drawn :
    (id today : ℕ) (type : OutType) (reason : Option ℕ) (asked : List OutLine) (actor : ℕ)
    (db : KitchenDb) {r : KitchenMovement × KitchenDb}
    → stock_out id today type reason asked actor db ≡ ok r
    → All (IsDrawnFrom db.lots type today) r.0.lines
      × ((k : ℕ) → moved_of k r.0.lines ≡ asked_of k asked)
stock_out-drawn id today type reason asked actor db h =
    let (taken, c, t) = stock_out-Recorded id today type reason asked actor db h in
    let lines_are = ap (λ (m : KitchenMovement). m.lines) c.movement in
    rw lines_are (take_out-Taken type today db asked t)

-- ===== src/Kitchen/Store/Soundness/Items.antt =====
-- The kitchen's stock seen by item alone: which operation changes it by how much.
use axzy_ptnv_api.Base.{
  Bool, Bool-cases, List, [], ap, false, if◌then◌else◌, inl, inr, refl, some, sym, true, ℕ, ◌+◌,
  ◌==◌, ◌∙◌, ◌∷◌, ◌≡◌,
}
use axzy_ptnv_api.Base.Int.{+ℤ_assoc, int_laws, ltb_ℤ, negate, pos, ℤ, ◌+ℤ◌}
use axzy_ptnv_api.Base.Lists.{All, In-All}
use axzy_ptnv_api.Base.Outcome.{>>=-eq-ok, Result, http, ok, refused, required, throw_if}
use axzy_ptnv_api.Kitchen.Errors.{KitchenCode, insufficient_stock}
use axzy_ptnv_api.Kitchen.Rules.{Sign, minus, plus}
use axzy_ptnv_api.Kitchen.Rules.Laws.{signed}
use axzy_ptnv_api.Kitchen.Store.Movement.{apply_line, apply_lines, change_lot, find_lot}
use axzy_ptnv_api.Kitchen.Store.Operations.{OutType}
use axzy_ptnv_api.Kitchen.Store.Tables.{KitchenLine, Lot}
use axzy_ptnv_api.Kitchen.Store.Soundness.Taken.{IsDrawnFrom, moved_of}

-- What the lots of the item `k` hold together.
abbrev pub stock_of : ℕ → List Lot → ℤ
stock_of k [] = pos 0
stock_of k (l ∷ ls) = (if l.item == k then l.on_hand else pos 0) +ℤ stock_of k ls

-- Every lot is the one that its identifier finds.
abbrev pub IsKeyed : List Lot → Type 0
IsKeyed lots = All (λ (l : Lot). find_lot l.id lots ≡ some l) lots

-- A line whose lot is there and of the line's item.
abbrev pub IsPlaced : List Lot → KitchenLine → Type 0
IsPlaced lots line = (l : Lot) × (find_lot line.lot lots ≡ some l) × (line.item ≡ l.item)

pub drawn-IsPlaced :
    (lots : List Lot) (type : OutType) (today : ℕ) (line : KitchenLine)
    → IsKeyed lots
    → IsDrawnFrom lots type today line
    → IsPlaced lots line
drawn-IsPlaced lots type today line keyed_lots (lot, there, same_lot, same_item, fresh) = (
  lot,
  ap (λ i. find_lot i lots) same_lot
      ∙ In-All (λ (l : Lot). find_lot l.id lots ≡ some l) lot lots there keyed_lots,
  same_item,
)

-- A change of a lot leaves every lot findable, with its item.
change_lot-placed :
    (id j : ℕ) (d : ℤ) (lots : List Lot) {l : Lot}
    → find_lot j lots ≡ some l
    → (l' : Lot) × (find_lot j (change_lot id d lots) ≡ some l') × (l.item ≡ l'.item)
unfolding find_lot change_lot
change_lot-placed id j d [] f = cc
change_lot-placed id j d (x ∷ xs) {l} f = elim (Bool-cases (x.id == id)) [
  | inl mine ↦ elim (Bool-cases (x.id == j)) [
    | inl hit ↦
        let first : some x ≡ some l = rw hit at f in
        let same : l.item ≡ x.item = cc in
        rw (mine, hit) (record x { on_hand = x.on_hand +ℤ d }, refl, same)
    | inr miss ↦ rw (mine, miss) (l, (rw miss at f), refl)
  ]
  | inr other ↦ elim (Bool-cases (x.id == j)) [
    | inl hit ↦
        let first : some x ≡ some l = rw hit at f in
        let same : l.item ≡ x.item = cc in rw (other, hit) (x, refl, same)
    | inr miss ↦ rw (other, miss) (change_lot-placed id j d xs (rw miss at f))
  ]
]

stock_of-change_lot :
    (k id : ℕ) (d : ℤ) (lots : List Lot) {l : Lot}
    → find_lot id lots ≡ some l
    → stock_of k (change_lot id d lots) ≡ stock_of k lots +ℤ (if l.item == k then d else pos 0)
unfolding find_lot change_lot
stock_of-change_lot k id d [] f = cc
stock_of-change_lot k id d (x ∷ xs) {l} f = elim (Bool-cases (x.id == id)) [
  | inl mine ↦
      let first : some x ≡ some l = rw mine at f in
      let same : l.item ≡ x.item = cc in
      rw (mine, same) (moved (x.item == k) x.on_hand d (stock_of k xs))
  | inr other ↦ rw other (
      ap (λ z. (if x.item == k then x.on_hand else pos 0) +ℤ z)
        (stock_of-change_lot k id d xs (rw other at f))
      ∙ sym (
          +ℤ_assoc (if x.item == k then x.on_hand else pos 0) (stock_of k xs)
            (if l.item == k then d else pos 0)))
]
  where
    moved :
        (b : Bool) (h e s : ℤ)
        → (if b then h +ℤ e else pos 0) +ℤ s
          ≡ ((if b then h else pos 0) +ℤ s) +ℤ (if b then e else pos 0)
    moved true h e s = omega int_laws
    moved false h e s = omega int_laws

-- The lots that stay, with their items.
abbrev pub IsLotwise : List Lot → List Lot → Type 0
IsLotwise lots lots' =
    (j : ℕ) (l : Lot)
    → find_lot j lots ≡ some l
    → (l' : Lot) × (find_lot j lots' ≡ some l') × (l.item ≡ l'.item)

apply_line-stock_of :
    (sign : Sign) (line : KitchenLine) (lots : List Lot) {lots' : List Lot}
    → apply_line sign line lots ≡ ok lots'
    → IsPlaced lots line
    → ((k : ℕ)
        → stock_of k lots'
          ≡ stock_of k lots +ℤ signed (some sign) (if line.item == k then line.quantity else 0))
      × IsLotwise lots lots'
unfolding apply_line
apply_line-stock_of plus line lots {lots'} h (l, found, same) =
    let (y, there, h1) = >>=-eq-ok (required (find_lot line.lot lots) refused) _ h in
    let end : change_lot line.lot (pos line.quantity) lots ≡ lots' = cc in
    rw (← end) (
      (λ k.
          stock_of-change_lot k line.lot (pos line.quantity) lots found
          ∙ ap (λ z. stock_of k lots +ℤ z) (entry (l.item == k) line.quantity)
          ∙ ap (λ i. stock_of k lots +ℤ signed (some plus) (if i == k then line.quantity else 0))
              (sym same)),
      (λ j x f. change_lot-placed line.lot j (pos line.quantity) lots f),
    )
  where
    entry :
        (b : Bool) (n : ℕ) → (if b then pos n else pos 0) ≡ signed (some plus) (if b then n else 0)
    entry true n = refl
    entry false n = refl
apply_line-stock_of minus line lots {lots'} h (l, found, same) =
    let (y, there, h1) =
      >>=-eq-ok (required (find_lot line.lot lots) (http 409 insufficient_stock)) _ h in
    let (u, covered, h2) =
      >>=-eq-ok (throw_if (ltb_ℤ y.on_hand (pos line.quantity)) 409 insufficient_stock) _ h1 in
    let end : change_lot line.lot (negate (pos line.quantity)) lots ≡ lots' = cc in
    rw (← end) (
      (λ k.
          stock_of-change_lot k line.lot (negate (pos line.quantity)) lots found
          ∙ ap (λ z. stock_of k lots +ℤ z) (exit (l.item == k) line.quantity)
          ∙ ap (λ i. stock_of k lots +ℤ signed (some minus) (if i == k then line.quantity else 0))
              (sym same)),
      (λ j x f. change_lot-placed line.lot j (negate (pos line.quantity)) lots f),
    )
  where
    exit :
        (b : Bool) (n : ℕ)
        → (if b then negate (pos n) else pos 0) ≡ signed (some minus) (if b then n else 0)
    exit true n = refl
    exit false n = omega int_laws

pub IsPlaced-kept :
    (lots lots' : List Lot) (lines : List KitchenLine)
    → IsLotwise lots lots'
    → All (IsPlaced lots) lines
    → All (IsPlaced lots') lines
IsPlaced-kept lots lots' [] w h = tt
IsPlaced-kept lots lots' (line ∷ lines) w ((l, found, same), h) =
    let (l', found', same') = w line.lot l found in
    ((l', found', same ∙ same'), IsPlaced-kept lots lots' lines w h)

pub apply_lines-stock_of :
    (sign : Sign) (lines : List KitchenLine) (lots : List Lot) {lots' : List Lot}
    → apply_lines sign lines lots ≡ ok lots'
    → All (IsPlaced lots) lines
    → (k : ℕ) → stock_of k lots' ≡ stock_of k lots +ℤ signed (some sign) (moved_of k lines)
unfolding apply_lines
apply_lines-stock_of sign [] lots h p k =
    ap (stock_of k) (sym (ok_eq h)) ∙ nothing sign (stock_of k lots)
  where
    ok_eq : {a b : List Lot} → ◌≡◌ {A = Result KitchenCode (List Lot)} (ok a) (ok b) → a ≡ b
    ok_eq e = cc

    nothing : (s : Sign) (x : ℤ) → x ≡ x +ℤ signed (some s) 0
    nothing plus x = omega int_laws
    nothing minus x = omega int_laws
apply_lines-stock_of sign (line ∷ lines) lots h p k =
    let (mid, first, rest) = >>=-eq-ok (apply_line sign line lots) _ h in
    let (one, kept) = apply_line-stock_of sign line lots first p.0 in
    let more = apply_lines-stock_of sign lines mid rest (IsPlaced-kept lots mid lines kept p.1) k in
    more
    ∙ ap (λ z. z +ℤ signed (some sign) (moved_of k lines)) (one k)
    ∙ both sign (stock_of k lots) (if line.item == k then line.quantity else 0) (moved_of k lines)
  where
    both :
        (s : Sign) (x : ℤ) (a b : ℕ)
        → (x +ℤ signed (some s) a) +ℤ signed (some s) b ≡ x +ℤ signed (some s) (a + b)
    both plus x a b = omega int_laws
    both minus x a b = omega int_laws

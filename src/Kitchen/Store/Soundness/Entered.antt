-- ===== src/Kitchen/Store/Soundness/Entered.antt =====
-- What `receive_lots` does to the lots.
use axzy_ptnv_api.Base.{
  Bool, Bool-cases, List, [], ap, arith, false, given, if◌then◌else◌, inl, inr, not, or_else, refl,
  some, true, ℕ, ◌&&◌, ◌+◌, ◌==◌, ◌∙◌, ◌∷◌, ◌≡◌,
}
use axzy_ptnv_api.Access.Policy.{items}
use axzy_ptnv_api.Base.Int.{int_laws, pos, ℤ, ◌+ℤ◌}
use axzy_ptnv_api.Base.Lists.{All, any, find}
use axzy_ptnv_api.Base.Outcome.{>>=-eq-ok, ok, refused, required, throw_if}
use axzy_ptnv_api.Kitchen.Errors.{expiry_required, lot_code_taken}
use axzy_ptnv_api.Kitchen.Store.Movement.{find_lot, throw_taken}
use axzy_ptnv_api.Kitchen.Store.Operations.{InLine, empty_lot, find_item, receive_lots}
use axzy_ptnv_api.Kitchen.Store.Tables.{Item, KitchenLine, Lot}
use axzy_ptnv_api.Kitchen.Store.Soundness.Counts.{entered_of}
use axzy_ptnv_api.Kitchen.Store.Soundness.Items.{IsLotwise, IsPlaced, stock_of}
use axzy_ptnv_api.Kitchen.Store.Soundness.Taken.{moved_of}

-- The lots that an entry creates: all others stay as they are, and the lines are in place.
pub record Entered (lots : List Lot) (lines : List InLine) (r : List KitchenLine × List Lot)
    : Type 0 where
  pub kept : IsLotwise lots r.1
  pub placed : All (IsPlaced r.1) r.0
  pub totals : (k : ℕ) → moved_of k r.0 ≡ entered_of k lines
  pub unchanged : (k : ℕ) → stock_of k r.1 ≡ stock_of k lots

find_lot-new :
    (j : ℕ) (x : Lot) (lots : List Lot) {u : Unit {0}} {l : Lot}
    → throw_taken (find_lot x.id lots) ≡ ok u
    → find_lot j lots ≡ some l
    → find_lot j (x ∷ lots) ≡ some l
unfolding find_lot
find_lot-new j x lots t f = elim (Bool-cases (x.id == j)) [
  | inl hit ↦
      let same : x.id ≡ j = ground arith in
      let found : find_lot x.id lots ≡ some _ = ap (λ i. find_lot i lots) same ∙ f in cc
  | inr miss ↦ rw (find, miss) f
]

find_lot-front : (x : Lot) (lots : List Lot) → find_lot x.id (x ∷ lots) ≡ some x
unfolding find_lot
find_lot-front x lots = let hit : (x.id == x.id) ≡ true = ground arith in rw (find, hit) refl

module _ (new_id : ℕ → ℕ) (next_code : ℕ → List Lot → ℕ) where
  pub receive_lots-Entered :
      (n received_at : ℕ) (items : List Item) (lines : List InLine) (lots : List Lot)
      {r : List KitchenLine × List Lot}
      → receive_lots new_id next_code n received_at items lines lots ≡ ok r
      → Entered lots lines r
  unfolding receive_lots
  receive_lots-Entered n received_at items [] lots {r} h =
      let same : ◌≡◌ {A = List KitchenLine × List Lot} ([], lots) r = ground arith in
      rw (← same) (record {
        kept = (λ j l f. (l, f, refl));
        placed = tt;
        totals = (λ k. refl);
        unchanged = (λ k. refl);
      })
  receive_lots-Entered n received_at items (line ∷ lines) lots {r} h =
      let (item, there, h1) = >>=-eq-ok (required (find_item line.item items) refused) _ h in
      let (u1, dated, h2) =
        >>=-eq-ok (throw_if (item.tracks_expiry && not (given line.expires_at)) 400 expiry_required)
          _ h1 in
      let code = or_else line.lot_code (next_code line.item lots) in
      let (u2, coded, h3) =
        >>=-eq-ok
          (throw_if (any (λ (l : Lot). l.item == line.item && l.lot_code == code) lots) 409
            lot_code_taken)
          _ h2 in
      let (u3, fresh, h4) = >>=-eq-ok (throw_taken (find_lot (new_id n) lots)) _ h3 in
      let new = empty_lot (new_id n) code received_at line in
      let (q, rest, h5) =
        >>=-eq-ok (receive_lots new_id next_code (n + 1) received_at items lines (new ∷ lots)) _
          h4 in
      let e = receive_lots-Entered (n + 1) received_at items lines (new ∷ lots) rest in
      let first : KitchenLine = record {
        item = line.item;
        lot = new_id n;
        quantity = line.quantity;
        unit_cost = line.unit_cost;
      } in
      let same : ◌≡◌ {A = List KitchenLine × List Lot} (first ∷ q.0, q.1) r = cc in
      rw (← same) (record {
        kept = (λ j l f. e.kept j l (find_lot-new j new lots fresh f));
        placed = (e.kept (new_id n) new (find_lot-front new lots), e.placed);
        totals = (λ k. ap (λ m. (if line.item == k then line.quantity else 0) + m) (e.totals k));
        unchanged = (λ k. e.unchanged k ∙ holds_nothing (line.item == k) (stock_of k lots));
      })
    where
      holds_nothing : (b : Bool) (x : ℤ) → (if b then pos 0 else pos 0) +ℤ x ≡ x
      holds_nothing true x = omega int_laws
      holds_nothing false x = omega int_laws

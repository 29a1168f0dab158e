-- ===== src/Kitchen/Store/Soundness/Kept.antt =====
-- Every operation keeps the invariant: what a lot holds is the signed sum of the lines of all
-- movements, and no lot holds less than nothing.
use mathlib.Core.Path.{subst}
use axzy_ptnv_api.Base.{
  Bool, Bool-cases, List, Option, [], ap, arith, false, given, inl, inr, none, not, or_else, refl,
  some, sym, true, ℕ, ◌&&◌, ◌+◌, ◌==◌, ◌||◌, ◌∙◌, ◌∷◌, ◌≡◌,
}
use axzy_ptnv_api.Access.Policy.{items}
use axzy_ptnv_api.Base.Int.{int_laws, pos, ℤ, ◌+ℤ◌}
use axzy_ptnv_api.Base.Lists.{any, find}
use axzy_ptnv_api.Base.Outcome.{>>=-eq-ok, http, ok, refused, required, throw_if}
use axzy_ptnv_api.Kitchen.Errors.{
  expiry_required, kitchen_movement_not_found, lot_code_taken, movement_already_reversed,
  movement_not_reversible,
}
use axzy_ptnv_api.Kitchen.Rules.{KitchenType, Sign, kitchen_ledger_sign, reversal}
use axzy_ptnv_api.Kitchen.Store.Movement.{
  apply_lines, create_movement, find_kitchen_movement, find_lot, new_movement, source_type,
  throw_taken,
}
use axzy_ptnv_api.Kitchen.Store.Operations.{
  AdjustmentLine, InLine, OutLine, OutType, active_items, adjust, adjusted_lines, adjustment_items,
  adjustment_type, check_supplier, empty_lot, find_item, in_items, is_reversal, mark_cancelled,
  out_items, out_type, receive_lots, reverse, reverses, stock_in, stock_out, take_out,
}
use axzy_ptnv_api.Kitchen.Store.Tables.{
  Item, KitchenDb, KitchenLine, KitchenMovement, Lot, ReversalOf,
}
use axzy_ptnv_api.Kitchen.Store.Soundness.Balance.{
  IsStocked, apply_lines-sum, kitchen_ledger, lines_sum, on_hand_of, sign_of,
}

pub record IsBalanced (db : KitchenDb) : Type 0 where
  pub sums : (k : ℕ) → on_hand_of k db.lots ≡ kitchen_ledger k db.movements
  pub stocked : IsStocked db.lots

-- What recording a movement has done.
pub record Recorded (id : ℕ) (type : KitchenType) (lines : List KitchenLine) (actor : ℕ)
    (po : Option ℕ) (source : Option ReversalOf) (db : KitchenDb) (r : KitchenMovement × KitchenDb)
    : Type 0 where
  pub sign : Sign
  pub signed_by : kitchen_ledger_sign type (source_type source) ≡ some sign
  pub moved : apply_lines sign lines db.lots ≡ ok r.1.lots
  pub fresh : find_kitchen_movement id db.movements ≡ none
  pub movement : r.0 ≡ new_movement id type lines actor po source
  pub stored : r.1.movements ≡ r.0 ∷ db.movements

pub create_movement-Recorded :
    (id : ℕ) (type : KitchenType) (lines : List KitchenLine) (actor : ℕ) (po : Option ℕ)
    (source : Option ReversalOf) (db : KitchenDb) {r : KitchenMovement × KitchenDb}
    → create_movement id type lines actor po source db ≡ ok r
    → Recorded id type lines actor po source db r
unfolding create_movement
create_movement-Recorded id type lines actor po source db {r} h =
    let (sign, signs, h1) =
      >>=-eq-ok (required (kitchen_ledger_sign type (source_type source)) refused) _ h in
    let (lots, moved, h2) = >>=-eq-ok (apply_lines sign lines db.lots) _ h1 in
    let (u, fresh, h3) = >>=-eq-ok (throw_taken (find_kitchen_movement id db.movements)) _ h2 in
    let m = new_movement id type lines actor po source in
    let pair : (m, record db { lots = lots; movements = m ∷ db.movements }) ≡ r = cc in
    record {
      sign = sign;
      signed_by = ground arith;
      moved = moved ∙ ap (λ (x : KitchenMovement × KitchenDb). ok x.1.lots) pair;
      fresh = free (find_kitchen_movement id db.movements) fresh;
      movement = sym (ap (λ (x : KitchenMovement × KitchenDb). x.0) pair);
      stored =
          sym (ap (λ (x : KitchenMovement × KitchenDb). x.1.movements) pair)
          ∙ ap (λ (x : KitchenMovement). x ∷ db.movements)
              (ap (λ (x : KitchenMovement × KitchenDb). x.0) pair);
    }
  where
    free : (o : Option KitchenMovement) {v : Unit {0}} → throw_taken o ≡ ok v → o ≡ none
    free none q = refl
    free (some x) q = cc

pub find_kitchen_movement-front :
    (m : KitchenMovement) (ms : List KitchenMovement) → find_kitchen_movement m.id (m ∷ ms) ≡ some m
unfolding find_kitchen_movement
find_kitchen_movement-front m ms =
    let hit : (m.id == m.id) ≡ true = ground arith in rw (find, hit) refl

swap : (a b : ℤ) → a +ℤ b ≡ b +ℤ a
swap a b = omega int_laws

pub create_movement-IsBalanced :
    (id : ℕ) (type : KitchenType) (lines : List KitchenLine) (actor : ℕ) (po : Option ℕ)
    (source : Option ReversalOf) (db : KitchenDb) {r : KitchenMovement × KitchenDb}
    → IsBalanced db
    → create_movement id type lines actor po source db ≡ ok r
    → IsBalanced r.1
unfolding kitchen_ledger
create_movement-IsBalanced id type lines actor po source db {r} b h =
    let c = create_movement-Recorded id type lines actor po source db h in
    let (sum, kept) = apply_lines-sum c.sign lines db.lots c.moved in
    record {
      sums = (λ k.
          sum k
          ∙ ap (λ x. x +ℤ lines_sum k (some c.sign) lines) (b.sums k)
          ∙ swap (kitchen_ledger k db.movements) (lines_sum k (some c.sign) lines)
          ∙ ap (λ s. lines_sum k s lines +ℤ kitchen_ledger k db.movements) (sym c.signed_by)
          ∙ ap
              (λ (m : KitchenMovement).
                lines_sum k (sign_of m) m.lines +ℤ kitchen_ledger k db.movements)
              (sym c.movement)
          ∙ ap (kitchen_ledger k) (sym c.stored));
      stocked = kept b.stocked;
    }

-- A movement that is marked as cancelled still counts.
kitchen_ledger-mark_cancelled :
    (k id : ℕ) (ms : List KitchenMovement)
    → kitchen_ledger k (mark_cancelled id ms) ≡ kitchen_ledger k ms
unfolding kitchen_ledger mark_cancelled
kitchen_ledger-mark_cancelled k id [] = refl
kitchen_ledger-mark_cancelled k id (m ∷ ms) = elim (Bool-cases (m.id == id)) [
  | inl here ↦ rw here refl
  | inr there ↦
      rw there
        (ap (λ x. lines_sum k (sign_of m) m.lines +ℤ x) (kitchen_ledger-mark_cancelled k id ms))
]

pub stock_out-IsBalanced :
    (id today : ℕ) (type : OutType) (reason : Option ℕ) (lines : List OutLine) (actor : ℕ)
    (db : KitchenDb) {r : KitchenMovement × KitchenDb}
    → IsBalanced db
    → stock_out id today type reason lines actor db ≡ ok r
    → IsBalanced r.1
unfolding stock_out
stock_out-IsBalanced id today type reason lines actor db b h =
    let (u, there, h1) = >>=-eq-ok (active_items false db.items (out_items lines)) _ h in
    let (taken, t, h2) = >>=-eq-ok (take_out type today db lines) _ h1 in
    create_movement-IsBalanced id (out_type type) taken actor none none db b h2

pub adjust-IsBalanced :
    (id : ℕ) (upwards : Bool) (lines : List AdjustmentLine) (actor : ℕ) (db : KitchenDb)
    {r : KitchenMovement × KitchenDb}
    → IsBalanced db
    → adjust id upwards lines actor db ≡ ok r
    → IsBalanced r.1
unfolding adjust
adjust-IsBalanced id upwards lines actor db b h =
    let (u, there, h1) = >>=-eq-ok (active_items true db.items (adjustment_items lines)) _ h in
    let (taken, t, h2) = >>=-eq-ok (adjusted_lines db.lots lines) _ h1 in
    create_movement-IsBalanced id (adjustment_type upwards) taken actor none none db b h2

pub reverse-IsBalanced :
    (id source actor : ℕ) (db : KitchenDb) {r : KitchenMovement × KitchenDb}
    → IsBalanced db
    → reverse id source actor db ≡ ok r
    → IsBalanced r.1
unfolding reverse
reverse-IsBalanced id source actor db b h =
    let (m, found, h1) =
      >>=-eq-ok
        (required (find_kitchen_movement source db.movements) (http 404 kitchen_movement_not_found))
        _ h in
    let (u1, plain, h2) =
      >>=-eq-ok (throw_if (is_reversal m.type) 409 movement_not_reversible) _ h1 in
    let (u2, on, h3) =
      >>=-eq-ok
        (throw_if (m.is_cancelled || any (reverses source) db.movements) 409
          movement_already_reversed)
        _ h2 in
    create_movement-IsBalanced id reversal m.lines actor none _
      (record db { movements = mark_cancelled source db.movements })
      (record {
        sums = (λ k. b.sums k ∙ sym (kitchen_ledger-mark_cancelled k source db.movements));
        stocked = b.stocked;
      })
      h3

absent : (k : ℕ) (lots : List Lot) → find_lot k lots ≡ none → on_hand_of k lots ≡ pos 0
unfolding find_lot
absent k [] f = refl
absent k (l ∷ ls) f = elim (Bool-cases (l.id == k)) [
  | inl here ↦ let bad : some l ≡ none = rw here at f in cc
  | inr there ↦ rw there (absent k ls (rw there at f))
]

new_lot-empty :
    (k id code received_at : ℕ) (line : InLine) (lots : List Lot) {u : Unit {0}}
    → throw_taken (find_lot id lots) ≡ ok u
    → on_hand_of k (empty_lot id code received_at line ∷ lots) ≡ on_hand_of k lots
new_lot-empty k id code received_at line lots h = elim (Bool-cases (id == k)) [
  | inl mine ↦
      let same : id ≡ k = ground arith in
      rw mine
        (sym (absent k lots (subst (λ i. find_lot i lots ≡ none) same (free (find_lot id lots) h))))
  | inr other ↦ rw other refl
]
  where
    free : (o : Option Lot) {v : Unit {0}} → throw_taken o ≡ ok v → o ≡ none
    free none q = refl
    free (some x) q = cc

module _ (new_id : ℕ → ℕ) (next_code : ℕ → List Lot → ℕ) where
  -- The lots that an entry creates hold nothing yet.
  receive_lots-empty :
      (n received_at : ℕ) (items : List Item) (lines : List InLine) (lots : List Lot)
      {r : List KitchenLine × List Lot}
      → receive_lots new_id next_code n received_at items lines lots ≡ ok r
      → ((k : ℕ) → on_hand_of k r.1 ≡ on_hand_of k lots) × (IsStocked lots → IsStocked r.1)
  unfolding receive_lots
  receive_lots-empty n received_at items [] lots {r} h =
      let same : lots ≡ r.1 = ground arith in rw (← same) ((λ k. refl), (λ s. s))
  receive_lots-empty n received_at items (line ∷ lines) lots {r} h =
      let (item, there, h1) = >>=-eq-ok (required (find_item line.item items) refused) _ h in
      let (u1, dated, h2) =
        >>=-eq-ok (throw_if (item.tracks_expiry && not (given line.expires_at)) 400 expiry_required)
          _ h1 in
      let code = or_else line.lot_code (next_code line.item lots) in
      let (u2, coded, h3) =
        >>=-eq-ok
          (throw_if (any (λ (l : Lot). l.item == line.item && l.lot_code == code) lots) 409
            lot_code_taken)
          _ h2 in
      let (u3, fresh, h4) = >>=-eq-ok (throw_taken (find_lot (new_id n) lots)) _ h3 in
      let (q, rest, h5) =
        >>=-eq-ok
          (receive_lots new_id next_code (n + 1) received_at items lines
            (empty_lot (new_id n) code received_at line ∷ lots))
          _ h4 in
      let (same, kept) = receive_lots-empty (n + 1) received_at items lines _ rest in
      let lots_are : q.1 ≡ r.1 = ground arith in
      rw (← lots_are) (
        (λ k. same k ∙ new_lot-empty k (new_id n) code received_at line lots fresh),
        (λ s. kept (omega arith, s)),
      )

  pub stock_in-IsBalanced :
      (id received_at : ℕ) (supplier : Option ℕ) (lines : List InLine) (actor : ℕ) (po : Option ℕ)
      (db : KitchenDb) {r : KitchenMovement × KitchenDb}
      → IsBalanced db
      → stock_in new_id next_code id received_at supplier lines actor po db ≡ ok r
      → IsBalanced r.1
  unfolding stock_in
  stock_in-IsBalanced id received_at supplier lines actor po db b h =
      let (u1, known, h1) = >>=-eq-ok (check_supplier supplier db.suppliers) _ h in
      let (u2, there, h2) =
        >>=-eq-ok (active_items false db.items (in_items new_id next_code lines)) _ h1 in
      let (q, lots, h3) =
        >>=-eq-ok (receive_lots new_id next_code 0 received_at db.items lines db.lots) _ h2 in
      let (same, kept) = receive_lots-empty 0 received_at db.items lines db.lots lots in
      create_movement-IsBalanced id KitchenType.stock_in q.0 actor po none
        (record db { lots = q.1 })
        (record { sums = (λ k. same k ∙ b.sums k); stocked = kept b.stocked }) h3

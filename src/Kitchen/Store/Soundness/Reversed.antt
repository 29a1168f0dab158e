-- ===== src/Kitchen/Store/Soundness/Reversed.antt =====
-- A reversal puts back what its movement moved, and happens once.
use axzy_ptnv_api.Base.{
  Bool-cases, List, Option, [], ap, arith, false, inl, inr, none, refl, some, sym, true, ℕ, ◌==◌,
  ◌||◌, ◌∙◌, ◌∷◌, ◌≡◌,
}
use axzy_ptnv_api.Base.Int.{int_laws, neg_part, pos, pos_part, ℤ, ◌+ℤ◌}
use axzy_ptnv_api.Base.Lists.{any, find}
use axzy_ptnv_api.Base.Outcome.{>>=-eq-ok, err, http, ok, required, throw_if}
use axzy_ptnv_api.Kitchen.Errors.{
  kitchen_movement_not_found, movement_already_reversed, movement_not_reversible,
}
use axzy_ptnv_api.Kitchen.Rules.{
  KitchenType, Sign, kitchen_ledger_sign, minus, opposite, plain_sign, plus, reversal,
}
use axzy_ptnv_api.Kitchen.Rules.Laws.{signed}
use axzy_ptnv_api.Kitchen.Store.Movement.{
  create_movement, find_kitchen_movement, new_movement, source_type,
}
use axzy_ptnv_api.Kitchen.Store.Operations.{is_reversal, mark_cancelled, reverse, reverses}
use axzy_ptnv_api.Kitchen.Store.Tables.{KitchenDb, KitchenLine, KitchenMovement}
use axzy_ptnv_api.Kitchen.Store.Soundness.Balance.{apply_lines-sum, line_sum, lines_sum, on_hand_of}
use axzy_ptnv_api.Kitchen.Store.Soundness.Kept.{
  Recorded, create_movement-Recorded, find_kitchen_movement-front,
}

abbrev IsOpposite : (k : ℕ) (s : Sign) (l : KitchenLine) → Type 0
IsOpposite k s l = line_sum k (some s) l +ℤ line_sum k (some (opposite s)) l ≡ pos 0

line_sum-IsOpposite : (k : ℕ) (s : Sign) (l : KitchenLine) → IsOpposite k s l
unfolding line_sum
line_sum-IsOpposite k s l = elim (Bool-cases (l.lot == k)) [
  | inl mine ↦ rw mine (cancels s l.quantity)
  | inr other ↦ rw other (omega int_laws)
]
  where
    cancels : (t : Sign) (n : ℕ) → signed (some t) n +ℤ signed (some (opposite t)) n ≡ pos 0
    cancels plus n = omega int_laws
    cancels minus n = omega int_laws

pairwise : (a b c d : ℤ) → a +ℤ c ≡ pos 0 → b +ℤ d ≡ pos 0 → (a +ℤ b) +ℤ (c +ℤ d) ≡ pos 0
pairwise a b c d h k = omega (int_laws, ap pos_part h, ap neg_part h, ap pos_part k, ap neg_part k)

lines_sum-opposite :
    (k : ℕ) (s : Sign) (lines : List KitchenLine)
    → lines_sum k (some s) lines +ℤ lines_sum k (some (opposite s)) lines ≡ pos 0
unfolding lines_sum
lines_sum-opposite k s [] = omega int_laws
lines_sum-opposite k s (l ∷ ls) =
    pairwise (line_sum k (some s) l) (lines_sum k (some s) ls) (line_sum k (some (opposite s)) l)
      (lines_sum k (some (opposite s)) ls) (line_sum-IsOpposite k s l) (lines_sum-opposite k s ls)

-- What a reversal has found and recorded.
pub record Reverted (id source actor : ℕ) (db : KitchenDb) (r : KitchenMovement × KitchenDb)
    : Type 0 where
  pub reverted : KitchenMovement
  pub found : find_kitchen_movement source db.movements ≡ some reverted
  pub plain : is_reversal reverted.type ≡ false
  pub recorded :
      Recorded id reversal reverted.lines actor none
        (some (record { id = reverted.id; type = reverted.type }))
        (record db { movements = mark_cancelled source db.movements })
        r

pub reverse-Reverted :
    (id source actor : ℕ) (db : KitchenDb) {r : KitchenMovement × KitchenDb}
    → reverse id source actor db ≡ ok r
    → Reverted id source actor db r
unfolding reverse
reverse-Reverted id source actor db {r} h =
    let (m, found, h1) =
      >>=-eq-ok
        (required (find_kitchen_movement source db.movements) (http 404 kitchen_movement_not_found))
        _ h in
    let (u1, plain, h2) =
      >>=-eq-ok (throw_if (is_reversal m.type) 409 movement_not_reversible) _ h1 in
    let (u2, on, h3) =
      >>=-eq-ok
        (throw_if (m.is_cancelled || any (reverses source) db.movements) 409
          movement_already_reversed)
        _ h2 in
    record {
      reverted = m;
      found = ground arith;
      plain = ground arith;
      recorded =
          create_movement-Recorded id reversal m.lines actor none
            (some (record { id = m.id; type = m.type }))
            (record db { movements = mark_cancelled source db.movements }) h3;
    }

opposite_sign :
    (type : KitchenType) (i : ℕ) {s t : Sign}
    → is_reversal type ≡ false
    → kitchen_ledger_sign type none ≡ some s
    → kitchen_ledger_sign reversal (source_type (some (record { id = i; type = type }))) ≡ some t
    → t ≡ opposite s
unfolding kitchen_ledger_sign plain_sign
opposite_sign type i h a b = ground arith

put_back : (a b x y : ℤ) → b ≡ a +ℤ x → x +ℤ y ≡ pos 0 → b +ℤ y ≡ a
put_back a b x y h k = omega (int_laws, ap pos_part h, ap neg_part h, ap pos_part k, ap neg_part k)

-- A movement of the kitchen that is recorded as no reversal and then reversed leaves every lot
-- holding what it held before.
pub reverse-create_movement :
    (id id' actor actor' : ℕ) (type : KitchenType) (lines : List KitchenLine) (po : Option ℕ)
    (db : KitchenDb) {r r' : KitchenMovement × KitchenDb}
    → create_movement id type lines actor po none db ≡ ok r
    → reverse id' r.0.id actor' r.1 ≡ ok r'
    → (k : ℕ) → on_hand_of k r'.1.lots ≡ on_hand_of k db.lots
reverse-create_movement id id' actor actor' type lines po db {r} {r'} h h' k =
    let c = create_movement-Recorded id type lines actor po none db h in
    let v = reverse-Reverted id' r.0.id actor' r.1 h' in
    let first : some r.0 ≡ some v.reverted =
      sym (find_kitchen_movement-front r.0 db.movements)
      ∙ ap (find_kitchen_movement r.0.id) (sym c.stored)
      ∙ v.found in
    let same : v.reverted ≡ new_movement id type lines actor po none = cc in
    let signs : v.recorded.sign ≡ opposite c.sign =
      opposite_sign type id (ap (λ (m : KitchenMovement). is_reversal m.type) (sym same) ∙ v.plain)
        c.signed_by
        (ap
            (λ (m : KitchenMovement).
              kitchen_ledger_sign reversal
                (source_type (some (record { id = m.id; type = m.type }))))
            (sym same)
          ∙ v.recorded.signed_by) in
    (apply_lines-sum v.recorded.sign v.reverted.lines r.1.lots v.recorded.moved).0 k
    ∙ ap (λ (s : Sign). on_hand_of k r.1.lots +ℤ lines_sum k (some s) v.reverted.lines) signs
    ∙ ap
        (λ (m : KitchenMovement).
          on_hand_of k r.1.lots +ℤ lines_sum k (some (opposite c.sign)) m.lines)
        same
    ∙ put_back (on_hand_of k db.lots) (on_hand_of k r.1.lots) (lines_sum k (some c.sign) lines)
        (lines_sum k (some (opposite c.sign)) lines)
        ((apply_lines-sum c.sign lines db.lots c.moved).0 k) (lines_sum-opposite k c.sign lines)

find-mark_cancelled :
    (id : ℕ) (ms : List KitchenMovement) {m : KitchenMovement}
    → find_kitchen_movement id ms ≡ some m
    → find_kitchen_movement id (mark_cancelled id ms) ≡ some (record m { is_cancelled = true })
unfolding find_kitchen_movement mark_cancelled
find-mark_cancelled id [] f = cc
find-mark_cancelled id (x ∷ xs) {m} f = elim (Bool-cases (x.id == id)) [
  | inl hit ↦
      let first : some x ≡ some m = rw hit at f in
      let same : x ≡ m = cc in
      rw (hit, mark_cancelled, find, hit)
        (ap (λ (y : KitchenMovement). some (record y { is_cancelled = true })) same)
  | inr miss ↦ rw (miss, mark_cancelled, find, miss) (find-mark_cancelled id xs (rw miss at f))
]

refused_twice :
    (id source actor : ℕ) (db : KitchenDb) (m : KitchenMovement)
    → find_kitchen_movement source db.movements ≡ some m
    → m.is_cancelled ≡ true
    → is_reversal m.type ≡ false
    → reverse id source actor db ≡ err (http 409 movement_already_reversed)
unfolding reverse
refused_twice id source actor db m f gone p = rw (reverse, f, p, gone) refl

find-skip :
    (k : ℕ) (x : KitchenMovement) (ms : List KitchenMovement)
    → (x.id == k) ≡ false
    → find_kitchen_movement k (x ∷ ms) ≡ find_kitchen_movement k ms
unfolding find_kitchen_movement
find-skip k x ms miss = rw (find, miss) refl

distinct_id :
    (id source : ℕ) (ms : List KitchenMovement) {m : KitchenMovement}
    → find_kitchen_movement id ms ≡ none
    → find_kitchen_movement source ms ≡ some m
    → (id == source) ≡ false
distinct_id id source ms f g = elim (Bool-cases (id == source)) [
  | inl hit ↦ let same : id ≡ source = ground arith in cc
  | inr miss ↦ miss
]

-- A movement that has been reversed cannot be reversed again: the next reversal of it ends in
-- the error that it has been.
pub reverse_once :
    (id id' source actor actor' : ℕ) (db : KitchenDb) {r : KitchenMovement × KitchenDb}
    → reverse id source actor db ≡ ok r
    → reverse id' source actor' r.1 ≡ err (http 409 movement_already_reversed)
reverse_once id id' source actor actor' db {r} h =
    let v = reverse-Reverted id source actor db h in
    let marked : find_kitchen_movement source (mark_cancelled source db.movements)
        ≡ some (record v.reverted { is_cancelled = true }) =
      find-mark_cancelled source db.movements v.found in
    let other : (r.0.id == source) ≡ false =
      ap (λ (m : KitchenMovement). m.id == source) v.recorded.movement
      ∙ distinct_id id source (mark_cancelled source db.movements) v.recorded.fresh marked in
    let still : find_kitchen_movement source r.1.movements
        ≡ some (record v.reverted { is_cancelled = true }) =
      ap (find_kitchen_movement source) v.recorded.stored
      ∙ find-skip source r.0 (mark_cancelled source db.movements) other
      ∙ marked in
    refused_twice id' source actor' r.1 _ still refl v.plain

-- ===== src/Kitchen/Store/Soundness/Reach.antt =====
-- The states that the kitchen store goes through, and the invariant in each.
use mathlib.Core.Path.{subst}
use axzy_ptnv_api.Base.{
  Bool, Bool-cases, List, Option, [], ap, arith, given, inl, inr, refl, same_id, sym, ℕ, ◌==◌, ◌∙◌,
  ◌∷◌, ◌≡◌,
}
use axzy_ptnv_api.Base.Int.{◌+ℤ◌}
use axzy_ptnv_api.Base.Lists.{find}
use axzy_ptnv_api.Base.Outcome.{>>=-eq-ok, ok}
use axzy_ptnv_api.Kitchen.Store.Movement.{throw_taken}
use axzy_ptnv_api.Kitchen.Store.Operations.{
  AdjustmentLine, InLine, OutLine, OutType, adjust, reverse, stock_in, stock_out,
}
use axzy_ptnv_api.Kitchen.Store.Register.{keyed, set_request}
use axzy_ptnv_api.Kitchen.Store.Tables.{KitchenDb, KitchenMovement, Lot}
use axzy_ptnv_api.Kitchen.Store.Soundness.Balance.{kitchen_ledger, lines_sum, sign_of}
use axzy_ptnv_api.Kitchen.Store.Soundness.Kept.{
  IsBalanced, adjust-IsBalanced, reverse-IsBalanced, stock_in-IsBalanced, stock_out-IsBalanced,
}

-- One operation that goes through.
pub data KitchenStep (db db' : KitchenDb) : Type 0 where
  receives :
      (new_id : ℕ → ℕ) (next_code : ℕ → List Lot → ℕ) (id received_at : ℕ) (supplier : Option ℕ)
      (lines : List InLine) (actor : ℕ) (po : Option ℕ) (m : KitchenMovement)
      → stock_in new_id next_code id received_at supplier lines actor po db ≡ ok (m, db')
      → KitchenStep db db'
  takes_out :
      (id today : ℕ) (type : OutType) (reason : Option ℕ) (lines : List OutLine) (actor : ℕ)
      (m : KitchenMovement)
      → stock_out id today type reason lines actor db ≡ ok (m, db')
      → KitchenStep db db'
  adjusts :
      (id : ℕ) (upwards : Bool) (lines : List AdjustmentLine) (actor : ℕ) (m : KitchenMovement)
      → adjust id upwards lines actor db ≡ ok (m, db')
      → KitchenStep db db'
  reverts :
      (id source actor : ℕ) (m : KitchenMovement)
      → reverse id source actor db ≡ ok (m, db')
      → KitchenStep db db'
  sets_key :
      (request : Option ℕ) (m m' : KitchenMovement)
      → set_request request (m, db) ≡ ok (m', db')
      → KitchenStep db db'

pub data KitchenReach (db : KitchenDb) : KitchenDb → Type 0 where
  no_step : KitchenReach db db
  and_step : {mid db' : KitchenDb} → KitchenReach db mid → KitchenStep mid db' → KitchenReach db db'

kitchen_ledger-keyed :
    (k id : ℕ) (request : Option ℕ) (ms : List KitchenMovement)
    → kitchen_ledger k (keyed id request ms) ≡ kitchen_ledger k ms
unfolding kitchen_ledger keyed
kitchen_ledger-keyed k id request [] = refl
kitchen_ledger-keyed k id request (m ∷ ms) = elim (Bool-cases (m.id == id)) [
  | inl hit ↦ rw hit refl
  | inr miss ↦
      rw miss
        (ap (λ x. lines_sum k (sign_of m) m.lines +ℤ x) (kitchen_ledger-keyed k id request ms))
]

pub set_request-IsBalanced :
    (request : Option ℕ) (m : KitchenMovement) (db : KitchenDb) {r : KitchenMovement × KitchenDb}
    → IsBalanced db
    → set_request request (m, db) ≡ ok r
    → IsBalanced r.1
unfolding set_request
set_request-IsBalanced request m db {r} b h = elim (Bool-cases (given request)) [
  | inr absent ↦
      let same : ok (m, db) ≡ ok r = rw (set_request, absent) at h in
      let tables : db ≡ r.1 = ground arith in subst IsBalanced tables b
  | inl there ↦
      let h1 = rw (set_request, there) at h in
      let (u, free, h2) =
        >>=-eq-ok
          (throw_taken (find (λ (x : KitchenMovement). same_id x.request request) db.movements)) _
          h1 in
      let tables : record db { movements = keyed m.id request db.movements } ≡ r.1 = ground arith in
      subst IsBalanced tables (record {
        sums = (λ k. b.sums k ∙ sym (kitchen_ledger-keyed k m.id request db.movements));
        stocked = b.stocked;
      })
]

pub KitchenStep-IsBalanced :
    {db db' : KitchenDb} → IsBalanced db → KitchenStep db db' → IsBalanced db'
KitchenStep-IsBalanced {db} b
      (receives new_id next_code id received_at supplier lines actor po m h) =
    stock_in-IsBalanced new_id next_code id received_at supplier lines actor po db b h
KitchenStep-IsBalanced {db} b (takes_out id today type reason lines actor m h) =
    stock_out-IsBalanced id today type reason lines actor db b h
KitchenStep-IsBalanced {db} b (adjusts id upwards lines actor m h) =
    adjust-IsBalanced id upwards lines actor db b h
KitchenStep-IsBalanced {db} b (reverts id source actor m h) =
    reverse-IsBalanced id source actor db b h
KitchenStep-IsBalanced {db} b (sets_key request m m' h) = set_request-IsBalanced request m db b h

-- In every state that entries, exits, adjustments, reversals and the storing of request keys
-- lead to, from a kitchen store in which what each lot holds is the signed sum of the lines of
-- all movements and no lot holds less than nothing, the same is true.
pub KitchenReach-IsBalanced :
    {db db' : KitchenDb} → IsBalanced db → KitchenReach db db' → IsBalanced db'
KitchenReach-IsBalanced b no_step = b
KitchenReach-IsBalanced b (and_step r s) = KitchenStep-IsBalanced (KitchenReach-IsBalanced b r) s

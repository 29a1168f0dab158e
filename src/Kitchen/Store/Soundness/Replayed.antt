-- ===== src/Kitchen/Store/Soundness/Replayed.antt =====
-- A request that is sent again with its key answers with the movement it has recorded.
use axzy_ptnv_api.Base.{
  Bool-cases, List, Option, Option-cases, [], ap, arith, false, given, inl, inr, none, refl,
  same_id, some, true, ℕ, ◌==◌, ◌||◌, ◌∙◌, ◌∷◌, ◌≡◌,
}
use axzy_ptnv_api.Access.Policy.{before}
use axzy_ptnv_api.Base.Lists.{any, find}
use axzy_ptnv_api.Base.Outcome.{
  >>=-eq-ok, Failure, Result, Result-cases, err, http, ok, required, throw_if, ◌>>=◌, ◌>>◌,
}
use axzy_ptnv_api.Kitchen.Errors.{
  KitchenCode, kitchen_movement_not_found, movement_already_reversed, movement_not_reversible,
}
use axzy_ptnv_api.Kitchen.Rules.{KitchenType, reversal}
use axzy_ptnv_api.Hotel.Housekeeping.Service.{later}
use axzy_ptnv_api.Kitchen.Store.Movement.{create_movement, find_kitchen_movement, throw_taken}
use axzy_ptnv_api.Kitchen.Store.Operations.{
  active_items, adjust, adjusted_lines, adjustment_items, adjustment_type, check_reason,
  check_supplier, in_items, is_reversal, mark_cancelled, receive_lots, reverse, reverses, stock_in,
}
use axzy_ptnv_api.Kitchen.Store.Register.{
  after_failure, attempt_run, by_request, keyed, register, run_new, serializable, serializable_from,
  set_request,
}
use axzy_ptnv_api.Kitchen.Store.Tables.{KitchenDb, KitchenLine, KitchenMovement, Lot, ReversalOf}
use axzy_ptnv_api.Kitchen.Store.Soundness.Counts.{KitchenChange, enters, leaves, recounts}
use axzy_ptnv_api.Kitchen.Store.Soundness.Kept.{
  create_movement-Recorded, find_kitchen_movement-front,
}
use axzy_ptnv_api.Kitchen.Store.Soundness.Refined.{run_change}
use axzy_ptnv_api.Kitchen.Store.Soundness.Taken.{stock_out-Recorded}

-- The author of a change.
abbrev pub author_of : KitchenChange → ℕ
author_of (enters id received_at supplier lines actor po) = actor
author_of (leaves id today type reason lines actor) = actor
author_of (recounts id upwards lines actor) = actor

-- A movement that stands among the others, by the author.
abbrev pub IsStored : ℕ → KitchenMovement × KitchenDb → Type 0
IsStored actor (m, db) = (find_kitchen_movement m.id db.movements ≡ some m) × (m.created_by ≡ actor)

pub create_movement-IsStored :
    (id : ℕ) (type : KitchenType) (lines : List KitchenLine) (actor : ℕ) (po : Option ℕ)
    (source : Option ReversalOf) (db : KitchenDb) {r : KitchenMovement × KitchenDb}
    → create_movement id type lines actor po source db ≡ ok r
    → IsStored actor r
create_movement-IsStored id type lines actor po source db {r} h =
    let c = create_movement-Recorded id type lines actor po source db h in
    (
      ap (find_kitchen_movement r.0.id) c.stored ∙ find_kitchen_movement-front r.0 db.movements,
      ap (λ (m : KitchenMovement). m.created_by) c.movement,
    )

module _ (new_id : ℕ → ℕ) (next_code : ℕ → List Lot → ℕ) where
  pub run_change-IsStored :
      (change : KitchenChange) (db : KitchenDb) {r : KitchenMovement × KitchenDb}
      → run_change new_id next_code change db ≡ ok r
      → IsStored (author_of change) r
  unfolding stock_in adjust
  run_change-IsStored (enters id received_at supplier lines actor po) db h =
      let (u1, known, h1) = >>=-eq-ok (check_supplier supplier db.suppliers) _ h in
      let (u2, there, h2) =
        >>=-eq-ok (active_items false db.items (in_items new_id next_code lines)) _ h1 in
      let (q, lots, h3) =
        >>=-eq-ok (receive_lots new_id next_code 0 received_at db.items lines db.lots) _ h2 in
      create_movement-IsStored id KitchenType.stock_in q.0 actor po none (record db { lots = q.1 })
        h3
  run_change-IsStored (leaves id today type reason lines actor) db {r} h =
      let (taken, c, t) = stock_out-Recorded id today type reason lines actor db h in
      (
        ap (find_kitchen_movement r.0.id) c.stored ∙ find_kitchen_movement-front r.0 db.movements,
        ap (λ (m : KitchenMovement). m.created_by) c.movement,
      )
  run_change-IsStored (recounts id upwards lines actor) db h =
      let (u, there, h1) = >>=-eq-ok (active_items true db.items (adjustment_items lines)) _ h in
      let (taken, t, h2) = >>=-eq-ok (adjusted_lines db.lots lines) _ h1 in
      create_movement-IsStored id (adjustment_type upwards) taken actor none none db h2

pub serializable-ok :
    (aborts : ℕ → Option (Failure KitchenCode))
    (run : Result KitchenCode (KitchenMovement × KitchenDb)) {r : KitchenMovement × KitchenDb}
    → serializable aborts run ≡ ok r
    → run ≡ ok r
unfolding serializable serializable_from attempt_run
serializable-ok aborts (ok q) h = ground arith
serializable-ok aborts (err e) h = ground arith

find-keyed :
    (key id : ℕ) (ms : List KitchenMovement) {m : KitchenMovement}
    → find_kitchen_movement id ms ≡ some m
    → find (λ (x : KitchenMovement). same_id x.request (some key)) ms ≡ none
    → find (λ (x : KitchenMovement). same_id x.request (some key)) (keyed id (some key) ms)
      ≡ some (record m { request = some key })
unfolding find_kitchen_movement keyed
find-keyed key id [] f free = cc
find-keyed key id (x ∷ xs) {m} f free = elim (Bool-cases (x.id == id)) [
  | inl hit ↦
      let first : some x ≡ some m = rw hit at f in
      let same : x ≡ m = cc in
      let own_key : (key == key) ≡ true = ground arith in
      rw (hit, own_key) (ap (λ (y : KitchenMovement). some (record y { request = some key })) same)
  | inr miss ↦ elim (Bool-cases (same_id x.request (some key))) [
    | inl taken ↦ let bad : some x ≡ none = rw taken at free in cc
    | inr other ↦ rw (miss, other) (find-keyed key id xs (rw miss at f) (rw other at free))
  ]
]

-- A key that finds a movement of the author answers with it.
register-found :
    (aborts : ℕ → Option (Failure KitchenCode))
    (operation : KitchenDb → Result KitchenCode (KitchenMovement × KitchenDb)) (key actor : ℕ)
    (db later : KitchenDb) {m : KitchenMovement}
    → given (some key) ≡ true
    → by_request key actor db.movements ≡ ok (some m)
    → register aborts operation (some key) actor db later ≡ ok (m, db)
unfolding register
register-found aborts operation key actor db later there found = rw (register, there, found) refl

-- A request without a key is its operation.
pub register-keyless :
    (aborts : ℕ → Option (Failure KitchenCode))
    (operation : KitchenDb → Result KitchenCode (KitchenMovement × KitchenDb)) (actor : ℕ)
    (db later : KitchenDb) {r : KitchenMovement × KitchenDb}
    → register aborts operation none actor db later ≡ ok r
    → operation db ≡ ok r
unfolding register run_new after_failure set_request
register-keyless aborts operation actor db later {r} h =
    elim (Result-cases (serializable aborts run)) [
      | inl (q, went) ↦
          let last : ok q ≡ ok r = rw (register, run_new, went) at h in
          let (p, moved, marked) =
            >>=-eq-ok (operation db) _ (serializable-ok aborts run (went ∙ last)) in
          let same : ok p ≡ ok r = marked in moved ∙ same
      | inr (e, failed) ↦ let bad = rw (register, run_new, failed) at h in cc
    ]
  where
    run : Result KitchenCode (KitchenMovement × KitchenDb)
    run = operation db >>= set_request none

pub set_request-found :
    (key actor : ℕ) (q : KitchenMovement × KitchenDb) {r : KitchenMovement × KitchenDb}
    → given (some key) ≡ true
    → IsStored actor q
    → set_request (some key) q ≡ ok r
    → by_request key actor r.1.movements ≡ ok (some r.0)
unfolding set_request by_request
set_request-found key actor q {r} there stored h =
    let h0 = rw (set_request, there) at h in
    let (u, free, h1) =
      >>=-eq-ok
        (throw_taken (find (λ (x : KitchenMovement). same_id x.request (some key)) q.1.movements)) _
        h0 in
    let end : ◌≡◌ {A = KitchenMovement × KitchenDb}
        (
          record q.0 { request = some key },
          record q.1 { movements = keyed q.0.id (some key) q.1.movements },
        )
        r =
      cc in
    let found = find-keyed key q.0.id q.1.movements stored.0 (unused _ free) in
    rw (← end) (rw (by_request, found, by_author) refl)
  where
    unused : (o : Option KitchenMovement) {v : Unit {0}} → throw_taken o ≡ ok v → o ≡ none
    unused none e = refl
    unused (some x) e = cc

    by_author : (q.0.created_by == actor) ≡ true
    by_author = let same = stored.1 in ground arith

pub after_failure-found :
    (key actor : ℕ) (later : KitchenDb) (e : Failure KitchenCode) {r : KitchenMovement × KitchenDb}
    → given (some key) ≡ true
    → after_failure (some key) actor later e ≡ ok r
    → by_request key actor r.1.movements ≡ ok (some r.0)
unfolding after_failure
after_failure-found key actor later e {r} there h =
    let nonzero : (key == 0) ≡ false = ground arith in
    let h0 = rw (after_failure, nonzero) at h in
    let (o, found, h1) = >>=-eq-ok (by_request key actor later.movements) _ h0 in
    elim (Option-cases o) [
      | inl absent ↦ let h2 = rw absent at h1 in cc
      | inr (m, present) ↦
          let h2 = rw present at h1 in
          let end : (m, later) ≡ r = cc in rw (← end) (found ∙ ap ok present)
    ]

-- The requests that move stock, with their arguments; a reversal has its identifier, that of the
-- movement it reverts, and its author.
pub data KitchenRequest : Type 0 where
  asks_change : KitchenChange → KitchenRequest
  asks_reversal : ℕ → ℕ → ℕ → KitchenRequest

abbrev pub requested_by : KitchenRequest → ℕ
requested_by (asks_change change) = author_of change
requested_by (asks_reversal id source actor) = actor

-- What a request is checked for before its key is looked up: only an exit is.
abbrev pub check_request : KitchenRequest → Result KitchenCode (Unit {0})
check_request (asks_change (leaves id today type reason lines actor)) = check_reason type reason
check_request (asks_change (enters id received_at supplier lines actor po)) = ok tt
check_request (asks_change (recounts id upwards lines actor)) = ok tt
check_request (asks_reversal id source actor) = ok tt

module _ (new_id : ℕ → ℕ) (next_code : ℕ → List Lot → ℕ) where
  abbrev pub run_request :
      KitchenRequest → KitchenDb → Result KitchenCode (KitchenMovement × KitchenDb)
  run_request (asks_change change) db = run_change new_id next_code change db
  run_request (asks_reversal id source actor) db = reverse id source actor db

  -- `stockIn`, `stockOut`, `adjust` and `reverse`, with the key of the request.
  unfoldable pub answer :
      (ℕ → Option (Failure KitchenCode))
      → KitchenRequest
      → Option ℕ
      → KitchenDb
      → KitchenDb
      → Result KitchenCode (KitchenMovement × KitchenDb)
  answer aborts request key db later =
      check_request request
      >> register aborts (run_request request) key (requested_by request) db later

  run_request-IsStored :
      (request : KitchenRequest) (db : KitchenDb) {r : KitchenMovement × KitchenDb}
      → run_request request db ≡ ok r
      → IsStored (requested_by request) r
  unfolding reverse
  run_request-IsStored (asks_change change) db h = run_change-IsStored new_id next_code change db h
  run_request-IsStored (asks_reversal id source actor) db h =
      let (m, there, h1) =
        >>=-eq-ok
          (required (find_kitchen_movement source db.movements)
            (http 404 kitchen_movement_not_found))
          _ h in
      let (u1, plain, h2) =
        >>=-eq-ok (throw_if (is_reversal m.type) 409 movement_not_reversible) _ h1 in
      let (u2, once, h3) =
        >>=-eq-ok
          (throw_if (m.is_cancelled || any (reverses source) db.movements) 409
            movement_already_reversed)
          _ h2 in
      create_movement-IsStored id reversal m.lines actor none
        (some (record { id = m.id; type = m.type }))
        (record db { movements = mark_cancelled source db.movements }) h3

  -- An entry, exit, adjustment or reversal of the kitchen with a key that is not empty and that
  -- has gone through is answered with the same movement when it, or any other such request of
  -- its author with that key, comes in on the store it has left, which stays as it is, whatever
  -- the database does to the transactions of either, unless the other is an exit that is refused
  -- before its key is looked up: a waste without a reason or a consumption with one.
  pub register_twice :
      (aborts aborts' : ℕ → Option (Failure KitchenCode)) (request other : KitchenRequest) (key : ℕ)
      (db later later' : KitchenDb) {r : KitchenMovement × KitchenDb}
      → given (some key) ≡ true
      → requested_by other ≡ requested_by request
      → check_request other ≡ ok tt
      → answer aborts request (some key) db later ≡ ok r
      → answer aborts' other (some key) r.1 later' ≡ ok r
  unfolding answer register run_new
  register_twice aborts aborts' request other key db later later' {r} there same_author checked h =
      rw (answer, checked, same_author)
        (register-found aborts' (run_request other) key (requested_by request) r.1 later' there
          found)
    where
      run : Result KitchenCode (KitchenMovement × KitchenDb)
      run = run_request request db >>= set_request (some key)

      ran :
          run_new aborts (run_request request) (some key) (requested_by request) db later ≡ ok r
          → by_request key (requested_by request) r.1.movements ≡ ok (some r.0)
      ran k = elim (Result-cases (serializable aborts run)) [
        | inl (q, went) ↦
            let last : ok q ≡ ok r = rw (run_new, went) at k in
            let (p, moved, marked) =
              >>=-eq-ok (run_request request db) _ (serializable-ok aborts run (went ∙ last)) in
            set_request-found key (requested_by request) p there
              (run_request-IsStored request db moved) marked
        | inr (e, failed) ↦
            after_failure-found key (requested_by request) later e there (rw (run_new, failed) at k)
      ]

      found : by_request key (requested_by request) r.1.movements ≡ ok (some r.0)
      found =
          let (u, fine, g) = >>=-eq-ok (check_request request) _ h in
          let h0 = rw (register, there) at g in
          let (o, before, h1) =
            >>=-eq-ok (by_request key (requested_by request) db.movements) _ h0 in
          elim (Option-cases o) [
            | inl absent ↦ ran (rw absent at h1)
            | inr (m, present) ↦
                let h2 = rw present at h1 in
                let end : (m, db) ≡ r = cc in rw (← end) (before ∙ ap ok present)
          ]

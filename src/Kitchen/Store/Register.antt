-- ===== src/Kitchen/Store/Register.antt =====
-- The idempotent, serializable run of an operation (`register`, `byRequest` and `serializable` in
-- modules/kitchen/services/kitchen-stock.service.ts).
use axzy_ptnv_api.Base.{
  List, Option, [], false, given, if◌then◌else◌, none, or_else, same_id, some, suc, true, zero, ℕ,
  ◌+◌, ◌==◌, ◌∷◌,
}
use axzy_ptnv_api.Base.Lists.{find}
use axzy_ptnv_api.Base.Outcome.{
  Failure, Result, conflict, duplicate, err, http, ok, refused, ◌>>=◌, ◌>>◌,
}
use axzy_ptnv_api.Kitchen.Errors.{KitchenCode, concurrent_update, idempotency_key_reused}
use axzy_ptnv_api.Hotel.Housekeeping.Service.{later}
use axzy_ptnv_api.Kitchen.Store.Movement.{throw_taken}
use axzy_ptnv_api.Kitchen.Store.Tables.{KitchenDb, KitchenMovement}

-- The movement of a request key, which only its author may ask for again.
unfoldable pub by_request :
    ℕ → ℕ → List KitchenMovement → Result KitchenCode (Option KitchenMovement)
by_request request actor ms =
    elim (find (λ (m : KitchenMovement). same_id m.request (some request)) ms) [
      | none ↦ ok none
      | some m ↦
          if m.created_by == actor then ok (some m) else err (http 409 idempotency_key_reused)
    ]

unfoldable pub keyed : ℕ → Option ℕ → List KitchenMovement → List KitchenMovement
keyed id request [] = []
keyed id request (m ∷ ms) =
    if m.id == id then record m { request = request } ∷ ms else m ∷ keyed id request ms

-- `update({ where: { id }, data: { requestId } })`, with the unique index on the key.
unfoldable pub set_request :
    Option ℕ → KitchenMovement × KitchenDb → Result KitchenCode (KitchenMovement × KitchenDb)
set_request request (m, db) = elim (given request) [
  | false ↦ ok (m, db)
  | true ↦
      throw_taken (find (λ (x : KitchenMovement). same_id x.request request) db.movements)
      >> ok (
        record m { request = request },
        record db { movements = keyed m.id request db.movements },
      )
]

-- How the attempts at a transaction end: `aborts n` is the error, if any, by which the database ends
-- attempt `n`; `conflict` stands for the errors that are tried again.
module _ {A : Type 0} (aborts : ℕ → Option (Failure KitchenCode)) (run : Result KitchenCode A) where
  unfoldable pub attempt_run : ℕ → Result KitchenCode A
  attempt_run n = elim (aborts n) [ some e ↦ err e | none ↦ run ]

  -- By the number of attempts that are left after this one.
  unfoldable pub serializable_from : ℕ → ℕ → Result KitchenCode A
  serializable_from zero n = elim (attempt_run n) [
    | ok r ↦ ok r
    | err conflict ↦ err (http 409 concurrent_update)
    | err duplicate ↦ err duplicate
    | err refused ↦ err refused
    | err (http status code) ↦ err (http status code)
  ]
  serializable_from (suc left) n = elim (attempt_run n) [
    | ok r ↦ ok r
    | err conflict ↦ serializable_from left (n + 1)
    | err duplicate ↦ err duplicate
    | err refused ↦ err refused
    | err (http status code) ↦ err (http status code)
  ]

  -- `MAX_TX_ATTEMPTS` is 3.
  unfoldable pub serializable : Result KitchenCode A
  serializable = serializable_from 2 1

-- The movement that was found, or what is done where there is none.
abbrev pub replay_or :
    Result KitchenCode (KitchenMovement × KitchenDb)
    → KitchenDb
    → Option KitchenMovement
    → Result KitchenCode (KitchenMovement × KitchenDb)
replay_or other db none = other
replay_or other db (some m) = ok (m, db)

-- What `register` answers once a run has failed: the movement that another request of the same key
-- has stored in between, if there is one, else the error.
unfoldable pub after_failure :
    Option ℕ
    → ℕ
    → KitchenDb
    → Failure KitchenCode
    → Result KitchenCode (KitchenMovement × KitchenDb)
after_failure none actor later e = err e
after_failure (some key) actor later e = elim (key == 0) [
  | true ↦ err e
  | false ↦ by_request key actor later.movements >>= replay_or (err e) later
]

unfoldable pub run_new :
    (ℕ → Option (Failure KitchenCode))
    → (KitchenDb → Result KitchenCode (KitchenMovement × KitchenDb))
    → Option ℕ
    → ℕ
    → KitchenDb
    → KitchenDb
    → Result KitchenCode (KitchenMovement × KitchenDb)
run_new aborts operation request actor db later =
    elim (serializable aborts (operation db >>= set_request request)) [
      | ok r ↦ ok r
      | err e ↦ after_failure request actor later e
    ]

-- `later` is the database as it stands when the run has failed.
unfoldable pub register :
    (ℕ → Option (Failure KitchenCode))
    → (KitchenDb → Result KitchenCode (KitchenMovement × KitchenDb))
    → Option ℕ
    → ℕ
    → KitchenDb
    → KitchenDb
    → Result KitchenCode (KitchenMovement × KitchenDb)
register aborts operation request actor db later = elim (given request) [
  | false ↦ run_new aborts operation request actor db later
  | true ↦
      by_request (or_else request 0) actor db.movements
      >>= replay_or (run_new aborts operation request actor db later) db
]

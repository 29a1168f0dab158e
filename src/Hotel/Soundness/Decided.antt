-- ===== src/Hotel/Soundness/Decided.antt =====
-- Cancelling, approving and rejecting keep the invariant.
use axzy_ptnv_api.Base.{ap, arith, false, not, refl, some, true, ℕ, ◌≡◌}
use axzy_ptnv_api.Base.Int.{int_laws, neg_part, negate, pos, pos_part, ℤ, ◌+ℤ◌}
use axzy_ptnv_api.Base.Outcome.{>>=-eq-ok, http, ok, required, throw_if}
use axzy_ptnv_api.Hotel.Decision.{
  approve, approve_lines, cancel, cancel_lines, find_movement, find_pending, reject, settle,
}
use axzy_ptnv_api.Hotel.Errors.{movement_not_active, movement_not_cancellable, movement_not_found}
use axzy_ptnv_api.Hotel.Kardex.{invert_deltas, is_cancellable, ledger_deltas}
use axzy_ptnv_api.Hotel.Tables.{Db, Movement, active, cancelled}
use axzy_ptnv_api.Hotel.Transaction.{is_active}
use axzy_ptnv_api.Hotel.Soundness.Invariant.{Change-IsSound, IsSound}
use axzy_ptnv_api.Hotel.Soundness.Settled.{
  contribution, find_movement-shaped, settle-shaped, settle_effect,
}
use axzy_ptnv_api.Hotel.Transaction.Effects.{approve_lines-Change, cancel_lines-Change}
use axzy_ptnv_api.Hotel.Transaction.Moves.{Change-refl}

cancel_balance : (a b c : ℤ) → a +ℤ b ≡ c +ℤ pos 0 → a ≡ c +ℤ negate b
cancel_balance a b c h = omega (int_laws, ap pos_part h, ap neg_part h)

approve_balance : (a b c : ℤ) → a +ℤ pos 0 ≡ c +ℤ b → a ≡ c +ℤ b
approve_balance a b c h = omega (int_laws, ap pos_part h, ap neg_part h)

reject_balance : (a c : ℤ) → a +ℤ pos 0 ≡ c +ℤ pos 0 → a ≡ c +ℤ pos 0
reject_balance a c h = omega (int_laws, ap pos_part h, ap neg_part h)

-- A cancellation that goes through in a sound store (IsSound: the stock of every position is the
-- signed sum of the active movements, none is negative, the rows are unique and the movements
-- have their warehouses) leaves it sound.
pub cancel-IsSound :
    (id actor : ℕ) (db : Db) {db' : Db} → IsSound db → cancel id actor db ≡ ok db' → IsSound db'
unfolding cancel contribution
cancel-IsSound id actor db {db'} sound h =
    let (m, found, h1) =
      >>=-eq-ok (required (find_movement id db.movements) (http 404 movement_not_found)) _ h in
    let (u, on, h2) =
      >>=-eq-ok (throw_if (not (is_active m.status)) 409 movement_not_active) _ h1 in
    let (v, able, h3) =
      >>=-eq-ok (throw_if (not (is_cancellable m.type)) 409 movement_not_cancellable) _ h2 in
    let (s, done, h4) =
      >>=-eq-ok (cancel_lines m (invert_deltas (ledger_deltas m.type)) m.lines db.stock) _ h3 in
    let there : find_movement id db.movements ≡ some m = ground arith in
    let is_on : is_active m.status ≡ true = ground arith in
    let end : record db { stock = s; movements = settle id cancelled actor db.movements } ≡ db' =
      cc in
    let shaped = find_movement-shaped id db.movements sound.shaped there in
    rw (← end) (
      Change-IsSound db sound (cancel_lines-Change m shaped m.lines db.stock done)
        (λ k.
          cancel_balance _ _ _
            (rw is_on at (settle_effect k id cancelled actor db.movements there)))
        (settle-shaped id cancelled actor db.movements sound.shaped))

find_pending-eq-ok :
    (id : ℕ) (db : Db) {m : Movement}
    → find_pending id db ≡ ok m
    → (find_movement id db.movements ≡ some m) × (is_active m.status ≡ false)
unfolding find_pending
find_pending-eq-ok id db {m} h = (ground arith, ground arith)

-- An approval of a pending adjustment that goes through in a sound store (IsSound) leaves it
-- sound: the stock moves by what the adjustment adds to the ledger, and no position becomes
-- negative.
pub approve-IsSound :
    (id actor : ℕ) (db : Db) {db' : Db} → IsSound db → approve id actor db ≡ ok db' → IsSound db'
unfolding approve contribution
approve-IsSound id actor db {db'} sound h =
    let (m, pending, h1) = >>=-eq-ok (find_pending id db) _ h in
    let (s, done, h2) = >>=-eq-ok (approve_lines m (ledger_deltas m.type) m.lines db.stock) _ h1 in
    let (there, off) = find_pending-eq-ok id db pending in
    let end : record db { stock = s; movements = settle id active actor db.movements } ≡ db' = cc in
    let shaped = find_movement-shaped id db.movements sound.shaped there in
    rw (← end) (
      Change-IsSound db sound (approve_lines-Change m shaped m.lines db.stock done)
        (λ k.
          approve_balance _ _ _ (rw off at (settle_effect k id active actor db.movements there)))
        (settle-shaped id active actor db.movements sound.shaped))

-- A rejection of a pending adjustment that goes through in a sound store (IsSound) leaves it
-- sound and its stock as it was.
pub reject-IsSound :
    (id actor : ℕ) (db : Db) {db' : Db}
    → IsSound db
    → reject id actor db ≡ ok db'
    → IsSound db' × (db'.stock ≡ db.stock)
unfolding reject contribution
reject-IsSound id actor db {db'} sound h =
    let (m, pending, h1) = >>=-eq-ok (find_pending id db) _ h in
    let (there, off) = find_pending-eq-ok id db pending in
    let end : record db { movements = settle id cancelled actor db.movements } ≡ db' = cc in
    rw (← end) (
      Change-IsSound db sound (Change-refl db.stock)
          (λ k.
            reject_balance _ _ (rw off at (settle_effect k id cancelled actor db.movements there)))
          (settle-shaped id cancelled actor db.movements sound.shaped),
      refl,
    )

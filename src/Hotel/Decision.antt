-- ===== src/Hotel/Decision.antt =====
-- Cancelling, approving and rejecting movements
-- (modules/hotel-store/services/movement.service.ts).
use axzy_ptnv_api.Base.{
  Bool, List, Option, [], false, given, if◌then◌else◌, not, some, true, ℕ, ◌&&◌, ◌==◌, ◌∷◌,
}
use axzy_ptnv_api.Base.Int.{negate}
use axzy_ptnv_api.Base.Lists.{find}
use axzy_ptnv_api.Base.Outcome.{Result, http, ok, required, throw_if, ◌>>=◌, ◌>>◌}
use axzy_ptnv_api.Hotel.Errors.{
  Code, movement_not_active, movement_not_cancellable, movement_not_found, movement_not_pending,
}
use axzy_ptnv_api.Hotel.Kardex.{LedgerDeltas, invert_deltas, is_cancellable, ledger_deltas, nonzero}
use axzy_ptnv_api.Hotel.Positions.{Stock}
use axzy_ptnv_api.Hotel.Tables.{Db, Line, Movement, Status, active, cancelled, pending_approval}
use axzy_ptnv_api.Hotel.Transaction.{is_active, move_at}

unfoldable pub find_movement : ℕ → List Movement → Option Movement
find_movement id ms = find (λ m. m.id == id) ms

-- `update({ where: { id } })` of the status and of who decided.
unfoldable pub settle : ℕ → Status → ℕ → List Movement → List Movement
settle id status actor [] = []
settle id status actor (m ∷ ms) =
    if m.id == id
    then record m { status = status; approved_by = some actor } ∷ ms
    else m ∷ settle id status actor ms

-- One pass of the loop of `cancel`, with the inverted signs.
unfoldable pub cancel_line : Movement → LedgerDeltas → Line → Stock → Result Code Stock
cancel_line m inverse l s = do
  s' ←
      if nonzero inverse.source && given l.from_location
      then move_at l.product m.from_warehouse l.from_location l.quantity 0 s
      else ok s
  if nonzero inverse.target && given l.to_location
      then move_at l.product m.warehouse l.to_location (negate l.quantity) 0 s'
      else ok s'

unfoldable pub cancel_lines : Movement → LedgerDeltas → List Line → Stock → Result Code Stock
cancel_lines m inverse [] s = ok s
cancel_lines m inverse (l ∷ ls) s = do s' ← cancel_line m inverse l s; cancel_lines m inverse ls s'

unfoldable pub cancel : ℕ → ℕ → Db → Result Code Db
cancel id actor db = do
  m ← required (find_movement id db.movements) (http 404 movement_not_found)
  throw_if (not (is_active m.status)) 409 movement_not_active
  throw_if (not (is_cancellable m.type)) 409 movement_not_cancellable
  stock ← cancel_lines m (invert_deltas (ledger_deltas m.type)) m.lines db.stock
  ok (record db { stock = stock; movements = settle id cancelled actor db.movements })

abbrev is_pending : Status → Bool
is_pending pending_approval = true
is_pending _ = false

unfoldable pub find_pending : ℕ → Db → Result Code Movement
find_pending id db = do
  m ← required (find_movement id db.movements) (http 404 movement_not_found)
  throw_if (not (is_pending m.status)) 409 movement_not_pending
  ok m

unfoldable pub approve_line : Movement → LedgerDeltas → Line → Stock → Result Code Stock
approve_line m deltas l s = do
  s' ←
      if nonzero deltas.source && given l.from_location
      then move_at l.product m.from_warehouse l.from_location (negate l.quantity) 0 s
      else ok s
  if nonzero deltas.target && given l.to_location
      then move_at l.product m.warehouse l.to_location l.quantity 0 s'
      else ok s'

unfoldable pub approve_lines : Movement → LedgerDeltas → List Line → Stock → Result Code Stock
approve_lines m deltas [] s = ok s
approve_lines m deltas (l ∷ ls) s = do s' ← approve_line m deltas l s; approve_lines m deltas ls s'

unfoldable pub approve : ℕ → ℕ → Db → Result Code Db
approve id actor db = do
  m ← find_pending id db
  stock ← approve_lines m (ledger_deltas m.type) m.lines db.stock
  ok (record db { stock = stock; movements = settle id active actor db.movements })

unfoldable pub reject : ℕ → ℕ → Db → Result Code Db
reject id actor db = do
  m ← find_pending id db
  ok (record db { movements = settle id cancelled actor db.movements })

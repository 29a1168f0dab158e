-- ===== src/Hotel/Transaction/Effects.antt =====
-- A movement that is applied changes every position by what the ledger says of its lines.
use mathlib.Core.Path.{ap₂}
use axzy_ptnv_api.Base.{
  Bool, Bool-cases, List, Option, [], ap, arith, false, given, if◌then◌else◌, inl, inr, map, refl,
  sym, true, ℕ, ◌&&◌, ◌∙◌, ◌∷◌, ◌≡◌,
}
use axzy_ptnv_api.Base.Int.{int_laws, negate, pos, ℤ, ◌*ℤ◌, ◌+ℤ◌}
use axzy_ptnv_api.Base.Outcome.{>>=-eq-ok, ok}
use axzy_ptnv_api.Hotel.Decision.{approve_line, approve_lines, cancel_line, cancel_lines}
use axzy_ptnv_api.Hotel.Kardex.{
  MovementType, adjust_in, adjust_out, inbound, initial_load, invert_deltas, ledger_deltas,
  linen_exchange, nonzero, room_consumption, transfer, write_off,
}
use axzy_ptnv_api.Hotel.Positions.{Key, LedgerLine, LedgerMovement, Stock, key_at, key_eq}
use axzy_ptnv_api.Hotel.Stock.{ledger_line, ledger_movement}
use axzy_ptnv_api.Hotel.Tables.{Line, Movement}
use axzy_ptnv_api.Hotel.Positions.Laws.{at, line_effect, lines_effect}
use axzy_ptnv_api.Hotel.Transaction.Moves.{
  Change, Change-ext, Change-refl, Change-trans, two_moves-Change,
}
use axzy_ptnv_api.Kitchen.Rules.Laws.{signed}

-- The sign of the source, times the quantity, is what the code takes out.
source_sign :
    (t : MovementType) (q : ℤ)
    → nonzero (ledger_deltas t).source ≡ true
    → (ledger_deltas t).source *ℤ q ≡ negate q
unfolding ledger_deltas ◌*ℤ◌ negate
source_sign initial_load q h = cc
source_sign inbound q h = cc
source_sign adjust_in q h = cc
source_sign transfer q h = ground arith
source_sign linen_exchange q h = ground arith
source_sign room_consumption q h = ground arith
source_sign adjust_out q h = ground arith
source_sign write_off q h = ground arith

target_sign :
    (t : MovementType) (q : ℤ)
    → nonzero (ledger_deltas t).target ≡ true
    → (ledger_deltas t).target *ℤ q ≡ q
unfolding ledger_deltas ◌*ℤ◌
target_sign initial_load q h = ground arith
target_sign inbound q h = ground arith
target_sign adjust_in q h = ground arith
target_sign transfer q h = ground arith
target_sign linen_exchange q h = ground arith
target_sign room_consumption q h = cc
target_sign adjust_out q h = cc
target_sign write_off q h = cc

-- The warehouses that the type of a movement needs are there.
pub record IsShaped (t : MovementType) (from to : Option ℕ) : Type 0 where
  pub source : nonzero (ledger_deltas t).source ≡ true → given from ≡ true
  pub target : nonzero (ledger_deltas t).target ≡ true → given to ≡ true

-- One side of the effect of a line, by the sign of the side and its warehouse and location.
side : Bool → Key → ℕ → Option ℕ → Option ℕ → ℤ → ℤ
side signed k p w l d = if signed && (given w && given l) then at k (key_at p w l) d else pos 0

-- What the code moves under its own test is what the ledger counts under its own.
side_of_test :
    (signed test : Bool) (k : Key) (p : ℕ) (v w l : Option ℕ) (d e : ℤ)
    → (signed ≡ true → given w ≡ true)
    → (signed ≡ true → v ≡ w)
    → (signed ≡ true → e ≡ d)
    → test ≡ (signed && given l)
    → (if test then at k (key_at p v l) d else pos 0) ≡ side signed k p w l e
unfolding side
side_of_test false test k p v w l d e g o s t = rw t
side_of_test true test k p v w l d e g o s t = rw (t, g refl, s refl, o refl)

-- And what it moves back is the opposite.
opposite_side_of_test :
    (signed test : Bool) (k : Key) (p : ℕ) (w l : Option ℕ) (d e : ℤ)
    → (signed ≡ true → given w ≡ true)
    → (signed ≡ true → negate e ≡ d)
    → test ≡ (signed && given l)
    → (if test then at k (key_at p w l) d else pos 0) ≡ negate (side signed k p w l e)
unfolding side negate
opposite_side_of_test false test k p w l d e g s t = rw t
opposite_side_of_test true test k p w l d e g s t = rw (t, g refl) (if_negate (given l))
  where
    at_negate : at k (key_at p w l) d ≡ negate (at k (key_at p w l) e)
    at_negate = elim (Bool-cases (key_eq (key_at p w l) k)) [
      | inl same ↦ rw same (sym (s refl))
      | inr other ↦ rw other
    ]

    if_negate :
        (b : Bool)
        → (if b then at k (key_at p w l) d else pos 0)
          ≡ negate (if b then at k (key_at p w l) e else pos 0)
    if_negate true = at_negate
    if_negate false = refl

line_effect-sides :
    (k : Key) (m : LedgerMovement) (l : LedgerLine)
    → line_effect k m l
      ≡ side
          (nonzero (ledger_deltas m.type).source)
          k
          l.product
          m.from_warehouse
          l.from_location
          ((ledger_deltas m.type).source *ℤ l.quantity)
        +ℤ side
            (nonzero (ledger_deltas m.type).target)
            k
            l.product
            m.warehouse
            l.to_location
            ((ledger_deltas m.type).target *ℤ l.quantity)
unfolding line_effect side
line_effect-sides k m l = refl

pub line_effect_of_tests :
    (b c : Bool) (k : Key) (m : LedgerMovement) (l : LedgerLine) (v u : Option ℕ)
    → IsShaped m.type m.from_warehouse m.warehouse
    → (nonzero (ledger_deltas m.type).source ≡ true → v ≡ m.from_warehouse)
    → (nonzero (ledger_deltas m.type).target ≡ true → u ≡ m.warehouse)
    → b ≡ (nonzero (ledger_deltas m.type).source && given l.from_location)
    → c ≡ (nonzero (ledger_deltas m.type).target && given l.to_location)
    → (if b then at k (key_at l.product v l.from_location) (negate l.quantity) else pos 0)
        +ℤ (if c then at k (key_at l.product u l.to_location) l.quantity else pos 0)
      ≡ line_effect k m l
line_effect_of_tests b c k m l v u shaped ov ou eb ec = rw line_effect-sides (
    ap₂ ◌+ℤ◌
      (side_of_test _ b k l.product v m.from_warehouse l.from_location _ _ shaped.source ov
        (source_sign m.type l.quantity) eb)
      (side_of_test _ c k l.product u m.warehouse l.to_location _ _ shaped.target ou
        (target_sign m.type l.quantity) ec))

-- A pending movement that is approved.
module _ (m : Movement) (shaped : IsShaped m.type m.from_warehouse m.warehouse) where
  approve_line-Change :
      (l : Line) (s : Stock) {s' : Stock}
      → approve_line m (ledger_deltas m.type) l s ≡ ok s'
      → Change s s' (λ k. line_effect k (ledger_movement m) (ledger_line l))
  unfolding approve_line ledger_movement ledger_line
  approve_line-Change l s h =
      Change-ext
        (two_moves-Change (nonzero (ledger_deltas m.type).source && given l.from_location)
          (nonzero (ledger_deltas m.type).target && given l.to_location) l.product m.from_warehouse
          m.warehouse l.from_location l.to_location (negate l.quantity) l.quantity s h)
        (λ k.
          line_effect_of_tests _ _ k (ledger_movement m) (ledger_line l) _ _ shaped (λ e. refl)
            (λ e. refl) refl refl)

  pub approve_lines-Change :
      (ls : List Line) (s : Stock) {s' : Stock}
      → approve_lines m (ledger_deltas m.type) ls s ≡ ok s'
      → Change s s' (λ k. lines_effect k (ledger_movement m) (map ledger_line ls))
  unfolding approve_lines lines_effect
  approve_lines-Change [] s {s'} h = let e : s ≡ s' = cc in rw (← e) (Change-refl s)
  approve_lines-Change (l ∷ ls) s h =
      let (t, first, rest) = >>=-eq-ok (approve_line m (ledger_deltas m.type) l s) _ h in
      Change-trans (approve_line-Change l s first) (approve_lines-Change ls t rest)

-- The inverted signs are set where the signs are.
inverted_source :
    (t : MovementType)
    → nonzero (invert_deltas (ledger_deltas t)).source ≡ nonzero (ledger_deltas t).source
unfolding invert_deltas ledger_deltas
inverted_source t = ground arith

inverted_target :
    (t : MovementType)
    → nonzero (invert_deltas (ledger_deltas t)).target ≡ nonzero (ledger_deltas t).target
unfolding invert_deltas ledger_deltas
inverted_target t = ground arith

negate_sum : (a b : ℤ) → negate a +ℤ negate b ≡ negate (a +ℤ b)
negate_sum a b = omega int_laws

negate-negate : (a : ℤ) → negate (negate a) ≡ a
negate-negate a = omega int_laws

-- An active movement that is cancelled.
module _ (m : Movement) (shaped : IsShaped m.type m.from_warehouse m.warehouse) where
  cancel_line-Change :
      (l : Line) (s : Stock) {s' : Stock}
      → cancel_line m (invert_deltas (ledger_deltas m.type)) l s ≡ ok s'
      → Change s s' (λ k. negate (line_effect k (ledger_movement m) (ledger_line l)))
  unfolding cancel_line ledger_movement ledger_line
  cancel_line-Change l s h =
      Change-ext
        (two_moves-Change _ _ l.product m.from_warehouse m.warehouse l.from_location l.to_location
          l.quantity (negate l.quantity) s h)
        (λ k. rw line_effect-sides (
          ap₂ ◌+ℤ◌
            (opposite_side_of_test (nonzero (ledger_deltas m.type).source) _ k l.product
              m.from_warehouse l.from_location _ _ shaped.source
              (λ e. ap negate (source_sign m.type l.quantity e) ∙ negate-negate l.quantity)
              (ap (λ b. b && given l.from_location) (inverted_source m.type)))
            (opposite_side_of_test (nonzero (ledger_deltas m.type).target) _ k l.product m.warehouse
              l.to_location _ _ shaped.target (λ e. ap negate (target_sign m.type l.quantity e))
              (ap (λ b. b && given l.to_location) (inverted_target m.type)))
          ∙ negate_sum _ _))

  pub cancel_lines-Change :
      (ls : List Line) (s : Stock) {s' : Stock}
      → cancel_lines m (invert_deltas (ledger_deltas m.type)) ls s ≡ ok s'
      → Change s s' (λ k. negate (lines_effect k (ledger_movement m) (map ledger_line ls)))
  unfolding cancel_lines lines_effect
  cancel_lines-Change [] s {s'} h =
      let e : s ≡ s' = cc in rw (← e) (Change-ext (Change-refl s) (λ k. omega int_laws))
  cancel_lines-Change (l ∷ ls) s h =
      let (t, first, rest) =
        >>=-eq-ok (cancel_line m (invert_deltas (ledger_deltas m.type)) l s) _ h in
      Change-ext (Change-trans (cancel_line-Change l s first) (cancel_lines-Change ls t rest))
        (λ k. negate_sum _ _)

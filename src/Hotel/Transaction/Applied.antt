-- ===== src/Hotel/Transaction/Applied.antt =====
-- The lines of a request, resolved and applied, change the stock by their effect in the ledger.
use axzy_ptnv_api.Base.{
  Bool, List, Option, [], ap, false, given, if◌then◌else◌, map, none, refl, true, ℕ, ◌&&◌, ◌∙◌, ◌∷◌,
  ◌≡◌,
}
use axzy_ptnv_api.Base.Int.{negate}
use axzy_ptnv_api.Base.Lists.{All}
use axzy_ptnv_api.Base.Outcome.{>>=-eq-ok, ok}
use axzy_ptnv_api.Hotel.Positions.{LedgerLine, LedgerMovement, Stock}
use axzy_ptnv_api.Hotel.Stock.{ledger_line}
use axzy_ptnv_api.Hotel.Tables.{Db, Line, MovementInput, RequestLine, exact_line}
use axzy_ptnv_api.Hotel.Transaction.{
  ResolvedLine, apply_line, apply_lines, resolve_line, resolve_lines, stored_line,
}
use axzy_ptnv_api.Hotel.Positions.Laws.{line_effect, lines_effect}
use axzy_ptnv_api.Hotel.Transaction.Effects.{IsShaped, line_effect_of_tests}
use axzy_ptnv_api.Hotel.Transaction.Moves.{
  Change, Change-ext, Change-refl, Change-trans, two_moves-Change,
}
use axzy_ptnv_api.Hotel.Transaction.Resolved.{IsResolved, resolve_line-IsResolved}

same_warehouse : (b : Bool) (w v : Option ℕ) → v ≡ (if b then w else none) → b ≡ true → v ≡ w
same_warehouse true w v e t = e
same_warehouse false w v e t = cc

given-none : (b : Bool) (l : Option ℕ) → (b ≡ false → l ≡ none) → given l ≡ (b && given l)
given-none true l h = refl
given-none false l h = rw (h refl)

-- A request whose quantities have three decimals at most, as many as the columns keep.
abbrev pub HasThreeDecimals : MovementInput → Type 0
HasThreeDecimals input = All (λ (l : RequestLine). l.finer ≡ 0) input.lines

-- Lines that are made of stored quantities have no more.
pub exact_line-finer {ℓ} :
    {A : Type ℓ} (f : A → Line) (xs : List A)
    → All (λ (l : RequestLine). l.finer ≡ 0) (map (λ x. exact_line (f x)) xs)
exact_line-finer f [] = tt
exact_line-finer f (x ∷ xs) = (refl, exact_line-finer f xs)

-- The movement that a request becomes, as the ledger reads it.
abbrev pub request_movement : MovementInput → List LedgerLine → LedgerMovement
request_movement input ls = record {
  type = input.type;
  from_warehouse = input.from_warehouse;
  warehouse = input.warehouse;
  lines = ls;
}

module _ (input : MovementInput) (shaped : IsShaped input.type input.from_warehouse input.warehouse)
    (ls : List LedgerLine) where
  apply_line-Change :
      (l : RequestLine) (r : ResolvedLine) (s : Stock) {s' : Stock}
      → l.finer ≡ 0
      → IsResolved input l r
      → apply_line r s ≡ ok s'
      → Change s s' (λ k. line_effect k (request_movement input ls) (ledger_line (stored_line r)))
  unfolding apply_line ledger_line
  apply_line-Change l r s exact i h =
      let whole : r.finer ≡ 0 = i.finer ∙ exact in
      rw whole (
        Change-ext
          (two_moves-Change (given r.line.from_location) (given r.line.to_location) r.line.product
            r.source_warehouse r.target_warehouse r.line.from_location r.line.to_location
            (negate r.line.quantity) r.line.quantity s (rw whole at h))
          (λ k.
            line_effect_of_tests _ _ k (request_movement input ls) (ledger_line r.line) _ _ shaped
              (same_warehouse _ _ _ i.source) (same_warehouse _ _ _ i.target)
              (given-none _ _ i.from) (given-none _ _ i.to)))

  pub apply_lines-Change :
      (db : Db) (xs : List RequestLine) (rs : List ResolvedLine) (s : Stock) {s' : Stock}
      → All (λ (l : RequestLine). l.finer ≡ 0) xs
      → resolve_lines db input xs ≡ ok rs
      → apply_lines rs s ≡ ok s'
      → Change s s'
          (λ k. lines_effect k (request_movement input ls) (map ledger_line (map stored_line rs)))
  unfolding apply_lines resolve_lines lines_effect
  apply_lines-Change db [] rs s {s'} x e h =
      let none_left : [] ≡ rs = cc in
      let h' : apply_lines [] s ≡ ok s' = ap (λ x. apply_lines x s) none_left ∙ h in
      let same : s ≡ s' = cc in rw (← none_left) (rw (← same) (Change-refl s))
  apply_lines-Change db (x ∷ xs) rs s {s'} exact e h =
      let (r, er, e1) = >>=-eq-ok (resolve_line db input x) _ e in
      let (rs', ers, e2) = >>=-eq-ok (resolve_lines db input xs) _ e1 in
      let whole : r ∷ rs' ≡ rs = cc in
      let h' : apply_lines (r ∷ rs') s ≡ ok s' = ap (λ x. apply_lines x s) whole ∙ h in
      let (t, first, rest) = >>=-eq-ok (apply_line r s) _ h' in
      rw (← whole) (
        Change-trans (apply_line-Change x r s exact.0 (resolve_line-IsResolved db input x er) first)
          (apply_lines-Change db xs rs' t exact.1 ers rest))

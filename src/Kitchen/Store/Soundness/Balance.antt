-- ===== src/Kitchen/Store/Soundness/Balance.antt =====
-- What a lot holds, as the signed sum of the lines of its movements.
use axzy_ptnv_api.Base.{
  Bool-cases, List, Option, [], ap, arith, false, if◌then◌else◌, inl, inr, refl, some, sym, true, ℕ,
  ◌==◌, ◌∙◌, ◌∷◌, ◌≡◌,
}
use axzy_ptnv_api.Base.Int.{+ℤ_assoc, +ℤ_zero, int_laws, ltb_ℤ, negate, pos, ℤ, ◌+ℤ◌, ◌≤ℤ◌}
use axzy_ptnv_api.Base.Lists.{All, In-All, find_sound}
use axzy_ptnv_api.Base.Outcome.{>>=-eq-ok, http, ok, refused, required, throw_if}
use axzy_ptnv_api.Kitchen.Errors.{insufficient_stock}
use axzy_ptnv_api.Kitchen.Rules.{Sign, kitchen_ledger_sign, minus, plus}
use axzy_ptnv_api.Kitchen.Rules.Laws.{signed}
use axzy_ptnv_api.Kitchen.Store.Movement.{
  apply_line, apply_lines, change_lot, find_lot, source_type,
}
use axzy_ptnv_api.Kitchen.Store.Tables.{KitchenLine, KitchenMovement, Lot}

-- The quantity of a lot; a lot that is not there holds nothing.
abbrev pub on_hand_of : ℕ → List Lot → ℤ
on_hand_of k [] = pos 0
on_hand_of k (l ∷ ls) = if l.id == k then l.on_hand else on_hand_of k ls

abbrev pub IsStocked : List Lot → Type 0
IsStocked lots = All (λ (l : Lot). pos 0 ≤ℤ l.on_hand) lots

-- What a line adds to the lot `k`.
unfoldable pub line_sum : ℕ → Option Sign → KitchenLine → ℤ
line_sum k sign line = if line.lot == k then signed sign line.quantity else pos 0

unfoldable pub lines_sum : ℕ → Option Sign → List KitchenLine → ℤ
lines_sum k sign [] = pos 0
lines_sum k sign (line ∷ lines) = line_sum k sign line +ℤ lines_sum k sign lines

abbrev pub sign_of : KitchenMovement → Option Sign
sign_of m = kitchen_ledger_sign m.type (source_type m.reversal_of)

-- All movements count, the cancelled ones too: their reversals take them back.
unfoldable pub kitchen_ledger : ℕ → List KitchenMovement → ℤ
kitchen_ledger k [] = pos 0
kitchen_ledger k (m ∷ ms) = lines_sum k (sign_of m) m.lines +ℤ kitchen_ledger k ms

on_hand_of-change_lot :
    (k id : ℕ) (d : ℤ) (lots : List Lot) {l : Lot}
    → find_lot id lots ≡ some l
    → on_hand_of k (change_lot id d lots) ≡ on_hand_of k lots +ℤ (if id == k then d else pos 0)
unfolding find_lot change_lot
on_hand_of-change_lot k id d [] f = cc
on_hand_of-change_lot k id d (x ∷ xs) {l} f = elim (Bool-cases (x.id == id)) [
  | inl here ↦ elim (Bool-cases (id == k)) [
    | inl mine ↦ let both : (x.id == k) ≡ true = ground arith in rw (here, mine, both) refl
    | inr other ↦
        let apart : (x.id == k) ≡ false = ground arith in
        rw (here, other, apart) (sym (+ℤ_zero (on_hand_of k xs)))
  ]
  | inr there ↦
      let rest : find_lot id xs ≡ some l = rw there at f in
      elim (Bool-cases (x.id == k)) [
        | inl mine ↦
            let other : (id == k) ≡ false = ground arith in
            rw (there, mine, other) (sym (+ℤ_zero x.on_hand))
        | inr apart ↦ rw (there, apart) (on_hand_of-change_lot k id d xs rest)
      ]
]

change_lot-IsStocked :
    (id : ℕ) (d : ℤ) (lots : List Lot) {l : Lot}
    → find_lot id lots ≡ some l
    → pos 0 ≤ℤ (l.on_hand +ℤ d)
    → IsStocked lots
    → IsStocked (change_lot id d lots)
unfolding find_lot change_lot
change_lot-IsStocked id d [] f le h = tt
change_lot-IsStocked id d (x ∷ xs) {l} f le h = elim (Bool-cases (x.id == id)) [
  | inl here ↦
      let first : some x ≡ some l = rw here at f in
      let same : x.on_hand ≡ l.on_hand = cc in rw here ((rw same le), h.1)
  | inr there ↦ rw there (h.0, change_lot-IsStocked id d xs (rw there at f) le h.1)
]

held :
    (id : ℕ) (lots : List Lot) {l : Lot}
    → find_lot id lots ≡ some l
    → IsStocked lots
    → pos 0 ≤ℤ l.on_hand
unfolding find_lot
held id lots {l} f s =
    In-All (λ (x : Lot). pos 0 ≤ℤ x.on_hand) l lots (find_sound (λ (x : Lot). x.id == id) lots f).0
      s

add_nonneg : (l : Lot) (n : ℕ) → pos 0 ≤ℤ l.on_hand → pos 0 ≤ℤ (l.on_hand +ℤ pos n)
add_nonneg l n h = omega int_laws

guard_of :
    (l : Lot) (n : ℕ) {u : Unit {0}}
    → throw_if (ltb_ℤ l.on_hand (pos n)) 409 insufficient_stock ≡ ok u
    → ltb_ℤ l.on_hand (pos n) ≡ false
guard_of l n h = ground arith

sub_nonneg :
    (l : Lot) (n : ℕ) → ltb_ℤ l.on_hand (pos n) ≡ false → pos 0 ≤ℤ (l.on_hand +ℤ negate (pos n))
sub_nonneg l n h = let le : pos n ≤ℤ l.on_hand = ground arith in omega int_laws

-- One line changes its lot by its signed quantity, and takes nothing out that is not there.
apply_line-sum :
    (sign : Sign) (line : KitchenLine) (lots : List Lot) {lots' : List Lot}
    → apply_line sign line lots ≡ ok lots'
    → ((k : ℕ) → on_hand_of k lots' ≡ on_hand_of k lots +ℤ line_sum k (some sign) line)
      × (IsStocked lots → IsStocked lots')
unfolding apply_line line_sum
apply_line-sum plus line lots {lots'} h =
    let (l, there, h1) = >>=-eq-ok (required (find_lot line.lot lots) refused) _ h in
    let found : find_lot line.lot lots ≡ some l = ground arith in
    let end : change_lot line.lot (pos line.quantity) lots ≡ lots' = cc in
    rw (← end) (
      (λ k. on_hand_of-change_lot k line.lot (pos line.quantity) lots found),
      (λ s.
          change_lot-IsStocked line.lot (pos line.quantity) lots found
            (add_nonneg l line.quantity (held line.lot lots found s)) s),
    )
apply_line-sum minus line lots {lots'} h =
    let (l, there, h1) =
      >>=-eq-ok (required (find_lot line.lot lots) (http 409 insufficient_stock)) _ h in
    let (u, covered, h2) =
      >>=-eq-ok (throw_if (ltb_ℤ l.on_hand (pos line.quantity)) 409 insufficient_stock) _ h1 in
    let found : find_lot line.lot lots ≡ some l = ground arith in
    let end : change_lot line.lot (negate (pos line.quantity)) lots ≡ lots' = cc in
    rw (← end) (
      (λ k. on_hand_of-change_lot k line.lot (negate (pos line.quantity)) lots found),
      (λ s.
          change_lot-IsStocked line.lot (negate (pos line.quantity)) lots found
            (sub_nonneg l line.quantity (guard_of l line.quantity covered)) s),
    )

pub apply_lines-sum :
    (sign : Sign) (lines : List KitchenLine) (lots : List Lot) {lots' : List Lot}
    → apply_lines sign lines lots ≡ ok lots'
    → ((k : ℕ) → on_hand_of k lots' ≡ on_hand_of k lots +ℤ lines_sum k (some sign) lines)
      × (IsStocked lots → IsStocked lots')
unfolding apply_lines lines_sum
apply_lines-sum sign [] lots {lots'} h =
    let same : lots ≡ lots' = cc in rw (← same) ((λ k. sym (+ℤ_zero (on_hand_of k lots))), (λ s. s))
apply_lines-sum sign (line ∷ lines) lots {lots'} h =
    let (mid, first, rest) = >>=-eq-ok (apply_line sign line lots) _ h in
    let (e1, s1) = apply_line-sum sign line lots first in
    let (e2, s2) = apply_lines-sum sign lines mid rest in
    (
      (λ k.
          e2 k
          ∙ ap (λ x. x +ℤ lines_sum k (some sign) lines) (e1 k)
          ∙ +ℤ_assoc (on_hand_of k lots) (line_sum k (some sign) line)
              (lines_sum k (some sign) lines)),
      (λ s. s2 (s1 s)),
    )

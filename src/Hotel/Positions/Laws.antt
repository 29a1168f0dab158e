-- ===== src/Hotel/Positions/Laws.antt =====
-- Rows by key, and the expected stock of a position as a plain sum over the movement lines.
use axzy_ptnv_api.Base.{
  Bool, Bool-cases, List, [], arith, false, given, if◌then◌else◌, inl, inr, refl, some, sym, true,
  ◌&&◌, ◌↔◌, ◌∷◌, ◌≡◌,
}
use axzy_ptnv_api.Base.Int.{+ℤ_assoc, +ℤ_zero, int_laws, pos, ℤ, ◌*ℤ◌, ◌+ℤ◌}
use axzy_ptnv_api.Hotel.Kardex.{ledger_deltas, nonzero}
use axzy_ptnv_api.Hotel.Positions.{
  Key, LedgerLine, LedgerMovement, Stock, add_to, expected_from, expected_line, expected_lines,
  expected_stock, find_row, key_at, key_eq, quantity_or_zero, set_row,
}

pub key_eq_iff : (a b : Key) → (key_eq a b ≡ true) ↔ (a ≡ b)
key_eq_iff a b = (λ h. ground arith, λ h. ground arith)

pub key_eq_self : (a : Key) → key_eq a a ≡ true
key_eq_self a = ground arith

pub find_row-set_row :
    (j k : Key) (v : ℤ) (s : Stock)
    → find_row k (set_row j v s) ≡ (if key_eq j k then some v else find_row k s)
unfolding find_row set_row
find_row-set_row j k v [] = ground arith
find_row-set_row j k v ((i, q) ∷ s) = elim (Bool-cases (key_eq i j)) [
  | inl same ↦ let e : i ≡ j = (key_eq_iff i j).0 same in rw (same, e) (ground arith)
  | inr other ↦
      rw (other, find_row)
        (elim (Bool-cases (key_eq i k)) [
          | inl here ↦ let e : i ≡ k = (key_eq_iff i k).0 here in ground arith
          | inr there ↦ rw there (find_row-set_row j k v s)
        ])
]

-- The quantity of a position; a missing row counts as zero.
abbrev pub qty : Key → Stock → ℤ
qty k s = quantity_or_zero (find_row k s)

-- What a change of `d` at the position `j` is at the position `k`.
abbrev pub at : Key → Key → ℤ → ℤ
at k j d = if key_eq j k then d else pos 0

pub qty-set_row :
    (j k : Key) (v : ℤ) (s : Stock) → qty k (set_row j v s) ≡ (if key_eq j k then v else qty k s)
qty-set_row j k v s = rw find_row-set_row (ground arith)

pub qty-add_to : (j k : Key) (d : ℤ) (s : Stock) → qty k (add_to j d s) ≡ qty k s +ℤ at k j d
unfolding add_to
qty-add_to j k d s = rw (qty-set_row j k) (elim (Bool-cases (key_eq j k)) [
  | inl same ↦ let e : j ≡ k = (key_eq_iff j k).0 same in rw (same, e) refl
  | inr other ↦ rw other (sym (+ℤ_zero (qty k s)))
])

unfoldable pub line_effect : Key → LedgerMovement → LedgerLine → ℤ
line_effect k m l =
    let deltas = ledger_deltas m.type in
    (if nonzero deltas.source && (given m.from_warehouse && given l.from_location)
      then at k (key_at l.product m.from_warehouse l.from_location) (deltas.source *ℤ l.quantity)
      else pos 0)
    +ℤ (if nonzero deltas.target && (given m.warehouse && given l.to_location)
        then at k (key_at l.product m.warehouse l.to_location) (deltas.target *ℤ l.quantity)
        else pos 0)

unfoldable pub lines_effect : Key → LedgerMovement → List LedgerLine → ℤ
lines_effect k m [] = pos 0
lines_effect k m (l ∷ ls) = line_effect k m l +ℤ lines_effect k m ls

unfoldable pub ledger_effect : Key → List LedgerMovement → ℤ
ledger_effect k [] = pos 0
ledger_effect k (m ∷ ms) = lines_effect k m m.lines +ℤ ledger_effect k ms

qty-if_add_to :
    (b : Bool) (j k : Key) (d : ℤ) (s : Stock)
    → qty k (if b then add_to j d s else s) ≡ qty k s +ℤ (if b then at k j d else pos 0)
qty-if_add_to true j k d s = qty-add_to j k d s
qty-if_add_to false j k d s = sym (+ℤ_zero (qty k s))

qty-expected_line :
    (k : Key) (m : LedgerMovement) (l : LedgerLine) (out : Stock)
    → qty k (expected_line m l out) ≡ qty k out +ℤ line_effect k m l
unfolding expected_line line_effect
qty-expected_line k m l out = rw qty-if_add_to (rw qty-if_add_to (+ℤ_assoc _ _ _))

qty-expected_lines :
    (k : Key) (m : LedgerMovement) (ls : List LedgerLine) (out : Stock)
    → qty k (expected_lines m ls out) ≡ qty k out +ℤ lines_effect k m ls
unfolding expected_lines lines_effect
qty-expected_lines k m [] out = sym (+ℤ_zero (qty k out))
qty-expected_lines k m (l ∷ ls) out =
    rw (qty-expected_lines k m ls) (rw (qty-expected_line k m l) (+ℤ_assoc _ _ _))

qty-expected_from :
    (k : Key) (ms : List LedgerMovement) (out : Stock)
    → qty k (expected_from ms out) ≡ qty k out +ℤ ledger_effect k ms
unfolding expected_from ledger_effect
qty-expected_from k [] out = sym (+ℤ_zero (qty k out))
qty-expected_from k (m ∷ ms) out =
    rw (qty-expected_from k ms) (rw (qty-expected_lines k m m.lines) (+ℤ_assoc _ _ _))

pub qty-expected_stock :
    (k : Key) (ms : List LedgerMovement) → qty k (expected_stock ms) ≡ ledger_effect k ms
unfolding expected_stock find_row
qty-expected_stock k ms = rw (qty-expected_from k ms []) (omega int_laws)

-- ===== src/Hotel/Transaction/Moves.antt =====
-- What a move does to the stock: it changes one position, and takes out only what is there.
use axzy_ptnv_api.Base.{
  Bool, Bool-cases, Option, ap, arith, false, if◌then◌else◌, inl, inr, none, some, sym, true, ℕ,
  ◌∙◌, ◌≡◌,
}
use axzy_ptnv_api.Base.Int.{+ℤ_assoc, +ℤ_parts, +ℤ_zero, int_laws, negate_parts, pos, ℤ, ◌+ℤ◌, ◌≤ℤ◌}
use axzy_ptnv_api.Base.Outcome.{>>=-eq-ok, ok, ◌>>=◌}
use axzy_ptnv_api.Hotel.Kardex.{assert_sufficient_stock}
use axzy_ptnv_api.Hotel.Positions.{Key, Stock, key_at, key_eq, set_row}
use axzy_ptnv_api.Hotel.Transaction.{move, move_at}
use axzy_ptnv_api.Hotel.Positions.Diff.{HasUniqueKeys, set_row-HasUniqueKeys}
use axzy_ptnv_api.Hotel.Positions.Laws.{at, key_eq_iff, qty, qty-set_row}

abbrev pub IsNonneg : Stock → Type 0
IsNonneg s = (k : Key) → pos 0 ≤ℤ qty k s

-- A change of the stock by `effect` that keeps it a table with no negative row.
pub record Change (s s' : Stock) (effect : Key → ℤ) : Type 0 where
  pub moved : (k : Key) → qty k s' ≡ qty k s +ℤ effect k
  pub nonneg : IsNonneg s → IsNonneg s'
  pub unique : HasUniqueKeys s → HasUniqueKeys s'

pub Change-refl : (s : Stock) → Change s s (λ k. pos 0)
Change-refl s = record { moved = λ k. sym (+ℤ_zero (qty k s)); nonneg = λ h. h; unique = λ h. h }

pub Change-trans :
    {s t u : Stock} {e f : Key → ℤ} → Change s t e → Change t u f → Change s u (λ k. e k +ℤ f k)
Change-trans {s} {e} {f} c d = record {
  moved = λ k. d.moved k ∙ ap (λ x. x +ℤ f k) (c.moved k) ∙ +ℤ_assoc (qty k s) (e k) (f k);
  nonneg = λ h. d.nonneg (c.nonneg h);
  unique = λ h. d.unique (c.unique h);
}

zero_add : (d : ℤ) → pos 0 +ℤ d ≡ d
zero_add d = omega int_laws

pub Change-ext :
    {s t : Stock} {e f : Key → ℤ} → Change s t e → ((k : Key) → e k ≡ f k) → Change s t f
Change-ext {s} c same = record {
  moved = λ k. c.moved k ∙ ap (λ x. qty k s +ℤ x) (same k);
  nonneg = c.nonneg;
  unique = c.unique;
}

-- A move that goes through writes the sum, and the sum is not negative where the row was not.
move-eq-ok :
    (k : Key) (d : ℤ) (s : Stock) {s' : Stock}
    → move k d 0 s ≡ ok s'
    → (s' ≡ set_row k (qty k s +ℤ d) s) × (pos 0 ≤ℤ qty k s → pos 0 ≤ℤ qty k s +ℤ d)
unfolding move assert_sufficient_stock
move-eq-ok k d s h =
    (ground (arith, zero_add d), λ n. ground (arith, +ℤ_parts (qty k s) d, negate_parts d))

pub move-Change :
    (k : Key) (d : ℤ) (s : Stock) {s' : Stock} → move k d 0 s ≡ ok s' → Change s s' (λ j. at j k d)
move-Change k d s {s'} h =
    let (written, kept) = move-eq-ok k d s h in
    record {
      moved = λ j. rw written (rw (qty-set_row k j) (at_self j));
      nonneg = λ n j. rw written (rw (qty-set_row k j) (stays n j (kept (n k))));
      unique = λ u. rw written (set_row-HasUniqueKeys k _ s u);
    }
  where
    at_self : (j : Key) → (if key_eq k j then qty k s +ℤ d else qty j s) ≡ qty j s +ℤ at j k d
    at_self j = elim (Bool-cases (key_eq k j)) [
      | inl same ↦ let e : k ≡ j = (key_eq_iff k j).0 same in rw (same, e)
      | inr other ↦ rw other (sym (+ℤ_zero (qty j s)))
    ]

    stays :
        IsNonneg s
        → (j : Key) → pos 0 ≤ℤ qty k s +ℤ d
        → pos 0 ≤ℤ (if key_eq k j then qty k s +ℤ d else qty j s)
    stays n j sum = elim (Bool-cases (key_eq k j)) [
      | inl same ↦ rw same sum
      | inr other ↦ rw other (n j)
    ]

pub move_at-Change :
    (p : ℕ) (w l : Option ℕ) (d : ℤ) (s : Stock) {s' : Stock}
    → move_at p w l d 0 s ≡ ok s'
    → Change s s' (λ k. at k (key_at p w l) d)
unfolding move_at
move_at-Change p none l d s h = cc
move_at-Change p (some w) l d s h = move-Change (key_at p (some w) l) d s h

-- A move under a test.
pub if_move-Change :
    (b : Bool) (p : ℕ) (w l : Option ℕ) (d : ℤ) (s : Stock) {s' : Stock}
    → (if b then move_at p w l d 0 s else ok s) ≡ ok s'
    → Change s s' (λ k. if b then at k (key_at p w l) d else pos 0)
if_move-Change true p w l d s h = move_at-Change p w l d s h
if_move-Change false p w l d s {s'} h = rw (← same) (Change-refl s)
  where
    same : s ≡ s'
    same = cc

-- Two moves under tests, as every loop over movement lines makes them.
pub two_moves-Change :
    (b c : Bool) (p : ℕ) (w v l m : Option ℕ) (d e : ℤ) (s : Stock) {u : Stock}
    → ((if b then move_at p w l d 0 s else ok s) >>= λ t. if c then move_at p v m e 0 t else ok t)
      ≡ ok u
    → Change s u (λ k.
      (if b then at k (key_at p w l) d else pos 0) +ℤ (if c then at k (key_at p v m) e else pos 0))
two_moves-Change b c p w v l m d e s h =
    let (t, first, second) = >>=-eq-ok (if b then move_at p w l d 0 s else ok s) _ h in
    Change-trans (if_move-Change b p w l d s first) (if_move-Change c p v m e t second)

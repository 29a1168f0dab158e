-- ===== src/Hotel/Positions/Diff.antt =====
-- The reconciliation reports nothing exactly when the stored stock is the expected one.
use axzy_ptnv_api.Base.{
  Bool-cases, List, Option-cases, [], false, inl, inr, none, refl, some, sym, true, ◌++◌, ◌↔◌, ◌∙◌,
  ◌∷◌, ◌≡◌,
}
use axzy_ptnv_api.Base.Int.{eqb_ℤ, eqb_ℤ_iff, ℤ}
use axzy_ptnv_api.Base.Lists.{All, In, In-All}
use axzy_ptnv_api.Hotel.Positions.{
  Key, Stock, StockDifference, by_key, diff_keys, diff_stock, find_row, key_eq, keys, new_keys,
  set_row,
}
use axzy_ptnv_api.Hotel.Positions.Laws.{find_row-set_row, key_eq_iff, qty}

find_row-by_key :
    (k : Key) (s out : Stock) → find_row k s ≡ none → find_row k (by_key s out) ≡ find_row k out
unfolding find_row by_key
find_row-by_key k [] out h = refl
find_row-by_key k ((j, q) ∷ s) out h = elim (Bool-cases (key_eq j k)) [
  | inl same ↦ let bad : some q ≡ none = rw same at h in cc
  | inr other ↦
      let h' : find_row k s ≡ none = rw other at h in
      rw (find_row-by_key k s (set_row j q out) h') (rw find_row-set_row (rw other))
]

-- The rows of a table have different keys, by its unique index.
abbrev pub HasUniqueKeys : Stock → Type 0
HasUniqueKeys [] = Unit
HasUniqueKeys ((k, q) ∷ s) = (find_row k s ≡ none) × HasUniqueKeys s

find_row-by_key-some :
    (k : Key) (s out : Stock) {q : ℤ}
    → HasUniqueKeys s
    → find_row k s ≡ some q
    → find_row k (by_key s out) ≡ some q
unfolding find_row by_key
find_row-by_key-some k [] out u h = cc
find_row-by_key-some k ((j, p) ∷ s) out {q} u h = elim (Bool-cases (key_eq j k)) [
  | inl same ↦
      let e : j ≡ k = (key_eq_iff j k).0 same in
      let h' : some p ≡ some q = rw same at h in
      let u' : find_row k s ≡ none = rw (← e) u.0 in
      rw (find_row-by_key k s (set_row j p out) u') (rw find_row-set_row (rw same h'))
  | inr other ↦ find_row-by_key-some k s (set_row j p out) u.1 (rw other at h)
]

-- The `Map` of the rows of a table reads as the table.
pub find_row-by_key_self :
    (k : Key) (s : Stock) → HasUniqueKeys s → find_row k (by_key s []) ≡ find_row k s
unfolding find_row
find_row-by_key_self k s u = elim (Option-cases (find_row k s)) [
  | inl missing ↦ rw (find_row-by_key k s [] missing) (sym missing)
  | inr (q, found) ↦ find_row-by_key-some k s [] u found ∙ sym found
]

abbrev Agrees : Stock → Stock → Key → Type 0
Agrees a e k = qty k a ≡ qty k e

diff_keys-nil : (a e : Stock) (ks : List Key) → ((k : Key) → Agrees a e k) → diff_keys a e ks ≡ []
unfolding diff_keys
diff_keys-nil a e [] h = refl
diff_keys-nil a e (k ∷ ks) h = rw ((eqb_ℤ_iff (qty k a) (qty k e)).1 (h k)) (diff_keys-nil a e ks h)

All-of_diff_keys : (a e : Stock) (ks : List Key) → diff_keys a e ks ≡ [] → All (Agrees a e) ks
unfolding diff_keys
All-of_diff_keys a e [] h = tt
All-of_diff_keys a e (k ∷ ks) h = elim (Bool-cases (eqb_ℤ (qty k a) (qty k e))) [
  | inl same ↦ ((eqb_ℤ_iff _ _).0 same, All-of_diff_keys a e ks (rw same at h))
  | inr other ↦ absurd (nonempty (rw other at h))
]
  where
    nonempty : {d : StockDifference} {ds : List StockDifference} → d ∷ ds ≡ [] → ⊥
    nonempty h = cc

-- A key with a row is among the keys.
In-keys : (k : Key) (s : Stock) {q : ℤ} → find_row k s ≡ some q → In k (keys s)
unfolding find_row keys
In-keys k [] h = cc
In-keys k ((j, p) ∷ s) h = elim (Bool-cases (key_eq j k)) [
  | inl same ↦ inl (sym ((key_eq_iff j k).0 same))
  | inr other ↦ inr (In-keys k s (rw other at h))
]

In-new_keys :
    (k : Key) (a s : Stock) {q : ℤ}
    → find_row k a ≡ none
    → find_row k s ≡ some q
    → In k (new_keys a s)
unfolding find_row new_keys
In-new_keys k a [] h f = cc
In-new_keys k a ((j, p) ∷ s) h f = elim (Bool-cases (key_eq j k)) [
  | inl same ↦
      let e : j ≡ k = (key_eq_iff j k).0 same in
      let h' : find_row j a ≡ none = rw e h in rw (h', new_keys) (inl (sym e))
  | inr other ↦ In-skip (In-new_keys k a s h (rw other at f))
]
  where
    In-skip : In k (new_keys a s) → In k (new_keys a ((j, p) ∷ s))
    In-skip m = elim (Option-cases (find_row j a)) [
      | inl missing ↦ rw (missing, new_keys) (inr m)
      | inr (v, there) ↦ rw (there, new_keys) m
    ]

pub In-append_right {ℓ} : {A : Type ℓ} (x : A) (xs ys : List A) → In x ys → In x (xs ++ ys)
In-append_right x [] ys m = m
In-append_right x (y ∷ xs) ys m = inr (In-append_right x xs ys m)

pub In-append_left {ℓ} : {A : Type ℓ} (x : A) (xs ys : List A) → In x xs → In x (xs ++ ys)
In-append_left x [] ys m = elim m [ ]
In-append_left x (y ∷ xs) ys (inl e) = inl e
In-append_left x (y ∷ xs) ys (inr m) = inr (In-append_left x xs ys m)

Agrees-of_nil :
    (a e : Stock) → diff_keys a e (keys a ++ new_keys a e) ≡ [] → (k : Key) → Agrees a e k
Agrees-of_nil a e h k = elim (Option-cases (find_row k a)) [
  | inl missing ↦ elim (Option-cases (find_row k e)) [
    | inl nowhere ↦ rw (missing, nowhere)
    | inr (q, there) ↦
        In-All (Agrees a e) k _ (In-append_right k (keys a) _ (In-new_keys k a e missing there)) all
  ]
  | inr (q, found) ↦ In-All (Agrees a e) k _ (In-append_left k (keys a) _ (In-keys k a found)) all
]
  where
    all : All (Agrees a e) (keys a ++ new_keys a e)
    all = All-of_diff_keys a e _ h

-- The reconciliation of a table with unique keys reports no difference exactly when every
-- position, listed or not, holds the expected quantity.
pub diff_stock-eq-nil_iff :
    (actual expected : Stock)
    → HasUniqueKeys actual
    → (diff_stock actual expected ≡ []) ↔ ((k : Key) → qty k actual ≡ qty k expected)
unfolding diff_stock
diff_stock-eq-nil_iff actual expected u = (
  λ h k. rw (← find_row-by_key_self k actual u) (Agrees-of_nil (by_key actual []) expected h k),
  λ h. diff_keys-nil _ _ _ (λ k. rw (find_row-by_key_self k actual u) (h k)),
)

find_row-set_row_ne :
    (j k : Key) (v : ℤ) (s : Stock)
    → key_eq j k ≡ false
    → find_row j s ≡ none
    → find_row j (set_row k v s) ≡ none
find_row-set_row_ne j k v s other missing = elim (Bool-cases (key_eq k j)) [
  | inl same ↦
      let back : key_eq j k ≡ true = (key_eq_iff j k).1 (sym ((key_eq_iff k j).0 same)) in
      let clash : true ≡ false = sym back ∙ other in cc
  | inr apart ↦ rw find_row-set_row (rw apart missing)
]

pub set_row-HasUniqueKeys :
    (k : Key) (v : ℤ) (s : Stock) → HasUniqueKeys s → HasUniqueKeys (set_row k v s)
unfolding set_row find_row
set_row-HasUniqueKeys k v [] u = (refl, tt)
set_row-HasUniqueKeys k v ((j, q) ∷ s) u = elim (Bool-cases (key_eq j k)) [
  | inl same ↦ rw same u
  | inr other ↦ rw other (find_row-set_row_ne j k v s other u.0, set_row-HasUniqueKeys k v s u.1)
]

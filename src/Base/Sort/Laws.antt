-- ===== src/Base/Sort/Laws.antt =====
-- A sort keeps the elements and puts them in order; a search then finds the first in the order.
use mathlib.Core.Bool.{Bool, false, true}
use mathlib.Core.List.{List, [], ◌∷◌}
use mathlib.Core.Logic.{inl, inr}
use mathlib.Core.Option.{none, some}
use mathlib.Core.Path.{subst, sym, ◌∙◌, ◌≡◌}
use axzy_ptnv_api.Base.Lists.{All, All-of_In, In, In-All, find, find_sound}
use axzy_ptnv_api.Base.Sort.{insert, sort}
use axzy_ptnv_api.Base.Tests.{Bool-cases}

module _ {ℓ} {A : Type ℓ} (ahead : A → A → Bool) where
  pub insert-All {κ} :
      (P : A → Type κ) (x : A) (xs : List A) → P x → All P xs → All P (insert ahead x xs)
  unfolding insert
  insert-All P x [] p h = (p, tt)
  insert-All P x (y ∷ ys) p h = elim (Bool-cases (ahead x y)) [
    | inl before ↦ rw before (p, h)
    | inr after ↦ rw after (h.0, insert-All P x ys p h.1)
  ]

  pub All-insert {κ} :
      (P : A → Type κ) (x : A) (xs : List A) → All P (insert ahead x xs) → P x × All P xs
  unfolding insert
  All-insert P x [] h = h
  All-insert P x (y ∷ ys) h = elim (Bool-cases (ahead x y)) [
    | inl before ↦ rw before at h
    | inr after ↦
        let h' : P y × All P (insert ahead x ys) = rw after at h in
        let (p, rest) = All-insert P x ys h'.1 in (p, (h'.0, rest))
  ]

  -- What holds of every element holds of every element of the sorted list, and conversely.
  pub sort-All {κ} : (P : A → Type κ) (xs : List A) → All P xs → All P (sort ahead xs)
  unfolding sort
  sort-All P [] h = tt
  sort-All P (x ∷ xs) h = insert-All P x (sort ahead xs) h.0 (sort-All P xs h.1)

  pub All-sort {κ} : (P : A → Type κ) (xs : List A) → All P (sort ahead xs) → All P xs
  unfolding sort
  All-sort P [] h = tt
  All-sort P (x ∷ xs) h =
      let (p, rest) = All-insert P x (sort ahead xs) h in (p, All-sort P xs rest)

  abbrev pub IsSorted : List A → Type ℓ
  IsSorted [] = Unit
  IsSorted (x ∷ xs) = All (λ y. ahead x y ≡ true) xs × IsSorted xs

-- A comparator that orders any two elements.
pub record IsOrder {ℓ} {A : Type ℓ} (ahead : A → A → Bool) : Type ℓ where
  pub total : (x y : A) → ahead x y ≡ false → ahead y x ≡ true
  pub trans : (x y z : A) → ahead x y ≡ true → ahead y z ≡ true → ahead x z ≡ true

module _ {ℓ} {A : Type ℓ} (ahead : A → A → Bool) (order : IsOrder ahead) where
  All-ahead :
      (x y : A) (ys : List A)
      → ahead x y ≡ true
      → All (λ z. ahead y z ≡ true) ys
      → All (λ z. ahead x z ≡ true) ys
  All-ahead x y [] e h = tt
  All-ahead x y (z ∷ zs) e h = (order.trans x y z e h.0, All-ahead x y zs e h.1)

  insert-IsSorted : (x : A) (xs : List A) → IsSorted ahead xs → IsSorted ahead (insert ahead x xs)
  unfolding insert
  insert-IsSorted x [] h = (tt, tt)
  insert-IsSorted x (y ∷ ys) h = elim (Bool-cases (ahead x y)) [
    | inl before ↦ rw before ((before, All-ahead x y ys before h.0), h)
    | inr after ↦ rw after (
      insert-All ahead (λ z. ahead y z ≡ true) x ys (order.total x y after) h.0,
      insert-IsSorted x ys h.1,
    )
  ]

  pub sort-IsSorted : (xs : List A) → IsSorted ahead (sort ahead xs)
  unfolding sort
  sort-IsSorted [] = tt
  sort-IsSorted (x ∷ xs) = insert-IsSorted x (sort ahead xs) (sort-IsSorted xs)

  ahead_self : (x : A) → ahead x x ≡ true
  ahead_self x = elim (Bool-cases (ahead x x)) [ inl e ↦ e | inr e ↦ order.total x x e ]

  -- The element that a search finds stands before every other that it would accept.
  find_first :
      (p : A → Bool) (xs : List A) {a : A}
      → IsSorted ahead xs
      → find p xs ≡ some a
      → All (λ b. p b ≡ true → ahead a b ≡ true) xs
  find_first p [] h f = tt
  find_first p (x ∷ xs) {a} h f = elim (Bool-cases (p x)) [
    | inl hit ↦
        let here : some x ≡ some a = rw hit at f in
        let e : a ≡ x = cc in
        subst (λ c. All (λ b. p b ≡ true → ahead c b ≡ true) (x ∷ xs)) (sym e)
          ((λ q. ahead_self x), weaken xs h.0)
    | inr miss ↦
        let later : find p xs ≡ some a = rw miss at f in
        ((λ q. let clash : true ≡ false = sym q ∙ miss in cc), find_first p xs h.1 later)
  ]
    where
      weaken :
          (ys : List A)
          → All (λ z. ahead x z ≡ true) ys
          → All (λ b. p b ≡ true → ahead x b ≡ true) ys
      weaken [] k = tt
      weaken (y ∷ ys) k = ((λ q. k.0), weaken ys k.1)

  pub find-sort :
      (p : A → Bool) (xs : List A) {a : A}
      → find p (sort ahead xs) ≡ some a
      → All (λ b. p b ≡ true → ahead a b ≡ true) xs
  find-sort p xs f = All-sort ahead _ xs (find_first p (sort ahead xs) (sort-IsSorted xs) f)

pub find-none {ℓ} :
    {A : Type ℓ} (p : A → Bool) (xs : List A) → find p xs ≡ none → All (λ b. p b ≡ false) xs
find-none p [] h = tt
find-none p (x ∷ xs) h = elim (Bool-cases (p x)) [
  | inl hit ↦ let bad : some x ≡ none = rw hit at h in cc
  | inr miss ↦ (miss, find-none p xs (rw miss at h))
]

-- What a search in the sorted list finds is in the list.
pub find-sort-In {ℓ} :
    {A : Type ℓ} (ahead : A → A → Bool) (p : A → Bool) (xs : List A) {a : A}
    → find p (sort ahead xs) ≡ some a
    → In a xs × (p a ≡ true)
find-sort-In ahead p xs {a} f =
    let (i, q) = find_sound p (sort ahead xs) f in
    (
      In-All (λ b. In b xs) a (sort ahead xs) i
          (sort-All ahead (λ b. In b xs) xs (All-of_In xs (λ b m. m))),
      q,
    )

-- ===== src/Base/Lists.antt =====
-- Lists: length and membership over the native numbers, predicates, filters and searches by a test.
use Prim.Native.Nat.{ℕ, suc}
use mathlib.Core.Path.{◌≡◌, refl}
use mathlib.Core.Bool.{Bool, true, false, ◌||◌, ◌&&◌}
use mathlib.Core.Option.{Option, none, some}
use mathlib.Core.List.{List, [], ◌∷◌, ◌++◌}
use mathlib.Core.Logic.{◌⊎◌, inl, inr}
use axzy_ptnv_api.Base.Tests.{if◌then◌else◌, ◌==◌, Bool-cases}

-- The empty type, at every level.
pub data Never {ℓ} : Type ℓ where

module _ {ℓ} {A : Type ℓ} where
  abbrev pub length : List A → ℕ
  length [] = 0
  length (x ∷ xs) = suc (length xs)

  -- `xs.filter(p)`
  abbrev pub keep : (A → Bool) → List A → List A
  keep p [] = []
  keep p (x ∷ xs) = if p x then x ∷ keep p xs else keep p xs

  -- `xs.find(p)`
  abbrev pub find : (A → Bool) → List A → Option A
  find p [] = none
  find p (x ∷ xs) = if p x then some x else find p xs

  -- `xs.some(p)`
  abbrev pub any : (A → Bool) → List A → Bool
  any p [] = false
  any p (x ∷ xs) = p x || any p xs

  -- `xs.every(p)`
  abbrev pub all : (A → Bool) → List A → Bool
  all p [] = true
  all p (x ∷ xs) = p x && all p xs

  -- Membership as a sum: where the element stands.
  abbrev pub In : A → List A → Type ℓ
  In a [] = Never
  In a (x ∷ xs) = (a ≡ x) ⊎ In a xs

-- `xs.includes(n)`
abbrev pub includes : List ℕ → ℕ → Bool
includes [] n = false
includes (x ∷ xs) n = x == n || includes xs n

module _ {ℓ κ} {A : Type ℓ} where
  abbrev pub All : (A → Type κ) → List A → Type κ
  All P [] = Unit
  All P (x ∷ xs) = P x × All P xs

module _ {ℓ} {A : Type ℓ} where
  pub In-All {κ} : (P : A → Type κ) (a : A) (xs : List A) → In a xs → All P xs → P a
  In-All P a [] m h = elim m [ ]
  In-All P a (x ∷ xs) (inl e) h = rw e h.0
  In-All P a (x ∷ xs) (inr m) h = In-All P a xs m h.1

  pub All-of_In {κ} : {P : A → Type κ} (xs : List A) → ((a : A) → In a xs → P a) → All P xs
  All-of_In [] h = tt
  All-of_In (x ∷ xs) h = (h x (inl refl), All-of_In xs (λ a m. h a (inr m)))

  pub All-append {κ} : (P : A → Type κ) (xs ys : List A) → All P xs → All P ys → All P (xs ++ ys)
  All-append P [] ys h k = k
  All-append P (x ∷ xs) ys h k = (h.0, All-append P xs ys h.1 k)

  pub In-keep : (p : A → Bool) (a : A) (xs : List A) → In a (keep p xs) → In a xs × (p a ≡ true)
  In-keep p a [] m = elim m [ ]
  In-keep p a (x ∷ xs) m = elim (Bool-cases (p x)) [
    | inl yes_p ↦ elim (rw yes_p at m) as (λ _. In a (x ∷ xs) × (p a ≡ true)) [
      | inl e ↦ (inl e, rw e yes_p)
      | inr m' ↦ let (i, q) = In-keep p a xs m' in (inr i, q)
    ]
    | inr no_p ↦ let (i, q) = In-keep p a xs (rw no_p at m) in (inr i, q)
  ]

  pub keep-In : (p : A → Bool) (a : A) (xs : List A) → In a xs → p a ≡ true → In a (keep p xs)
  keep-In p a [] m q = elim m [ ]
  keep-In p a (x ∷ xs) (inl e) q = let px : p x ≡ true = rw (← e) q in rw px (inl e)
  keep-In p a (x ∷ xs) (inr m) q = elim (Bool-cases (p x)) [
    | inl yes_p ↦ rw yes_p (inr (keep-In p a xs m q))
    | inr no_p ↦ rw no_p (keep-In p a xs m q)
  ]

  pub find_sound :
      (p : A → Bool) (xs : List A) {a : A} → find p xs ≡ some a → In a xs × (p a ≡ true)
  find_sound p [] h = cc
  find_sound p (x ∷ xs) {a} h = elim (Bool-cases (p x)) [
    | inl yes_p ↦
        let e : some x ≡ some a = rw yes_p at h in
        let a_is : a ≡ x = cc in (inl a_is, rw a_is yes_p)
    | inr no_p ↦ let (i, q) = find_sound p xs (rw no_p at h) in (inr i, q)
  ]

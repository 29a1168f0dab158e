-- ===== src/Kitchen/Fefo/Laws.antt =====
-- The split is exact, takes no more than there is, no expired lot, and empties each lot before it
-- touches a later one.
use mathlib.Core.Path.{subst}
use axzy_ptnv_api.Base.{
  Bool, Bool-cases, List, Option, Option-cases, [], ap, arith, false, if◌then◌else◌, inl, inr, leb,
  ltb, none, refl, some, sym, true, ℕ, ◌+◌, ◌-◌, ◌<◌, ◌==◌, ◌∙◌, ◌∷◌, ◌≡◌, ◌≤◌, ◌⊎◌,
}
use axzy_ptnv_api.Base.Lists.{All, All-of_In, In, In-keep, Never, keep}
use axzy_ptnv_api.Kitchen.Fefo.{
  FefoAllocation, FefoLot, ahead, allocate_fefo, first_out, is_usable, smaller, take_lots,
  usable_lots,
}
use axzy_ptnv_api.Base.Sort.Laws.{IsOrder, IsSorted, sort-All, sort-IsSorted}

abbrev pub allocated : List FefoAllocation → ℕ
allocated [] = 0
allocated (a ∷ rest) = a.quantity + allocated rest

abbrev pub held_by : List FefoLot → ℕ
held_by [] = 0
held_by (l ∷ ls) = l.on_hand + held_by ls

ahead-IsOrder : IsOrder ahead
ahead-IsOrder = record {
  total = (λ x y h. total_of x.expires_on y.expires_on x.received_at y.received_at h);
  trans = (λ x y z h k.
      trans_of x.expires_on y.expires_on z.expires_on x.received_at y.received_at z.received_at h
        k);
}
  where
    total_of : (d e : Option ℕ) (a b : ℕ) → first_out d e a b ≡ false → first_out e d b a ≡ true
    total_of d e a b h = ground arith

    trans_of :
        (d e f : Option ℕ) (a b c : ℕ)
        → first_out d e a b ≡ true
        → first_out e f b c ≡ true
        → first_out d f a c ≡ true
    trans_of d e f a b c h k = ground arith

-- A lot that expires before the other does, where the other expires at all.
abbrev pub ExpiresFirst : FefoLot → FefoLot → Type 0
ExpiresFirst x y =
    (day : ℕ) × (x.expires_on ≡ some day)
    × ((y.expires_on ≡ none) ⊎ ((other : ℕ) × (y.expires_on ≡ some other) × (day < other)))

-- A lot that leaves no later than the other: it expires first, or both expire on one day or never
-- and it has arrived no later.
abbrev pub LeavesFirst : FefoLot → FefoLot → Type 0
LeavesFirst x y =
    ExpiresFirst x y ⊎ ((x.expires_on ≡ y.expires_on) × (x.received_at ≤ y.received_at))

-- Every lot leaves no later than those that stand behind it.
abbrev pub LeaveByExpiry : List FefoLot → Type 0
LeaveByExpiry [] = Unit
LeaveByExpiry (l ∷ ls) = All (LeavesFirst l) ls × LeaveByExpiry ls

ahead-LeavesFirst : (x y : FefoLot) → ahead x y ≡ true → LeavesFirst x y
ahead-LeavesFirst x y h = elim (Option-cases x.expires_on) [
  | inl never ↦ elim (Option-cases y.expires_on) [
    | inl never_too ↦
        let k : leb x.received_at y.received_at ≡ true = rw (never, never_too) at h in
        inr (never ∙ sym never_too, ground arith)
    | inr (e, on_e) ↦ let k : false ≡ true = rw (never, on_e) at h in cc
  ]
  | inr (d, on_d) ↦ elim (Option-cases y.expires_on) [
    | inl never ↦ inl (d, on_d, inl never)
    | inr (e, on_e) ↦
        let k : (if d == e then leb x.received_at y.received_at else ltb d e) ≡ true =
          rw (on_d, on_e) at h in
        elim (Bool-cases (d == e)) [
          | inl same ↦
              let j : leb x.received_at y.received_at ≡ true = rw same at k in
              let one_day : d ≡ e = ground arith in
              inr (on_d ∙ ap some one_day ∙ sym on_e, ground arith)
          | inr other ↦
              let j : ltb d e ≡ true = rw other at k in inl (d, on_d, inr (e, on_e, ground arith))
        ]
  ]
]

sorted_by_expiry : (ls : List FefoLot) → IsSorted ahead ls → LeaveByExpiry ls
sorted_by_expiry [] h = tt
sorted_by_expiry (l ∷ ls) h = (behind ls h.0, sorted_by_expiry ls h.1)
  where
    behind : (xs : List FefoLot) → All (λ y. ahead l y ≡ true) xs → All (LeavesFirst l) xs
    behind [] k = tt
    behind (x ∷ xs) k = (ahead-LeavesFirst l x k.0, behind xs k.1)

usable_lots-IsSorted :
    (lots : List FefoLot) (today : ℕ) (include_expired : Bool)
    → IsSorted ahead (usable_lots lots today include_expired)
unfolding usable_lots
usable_lots-IsSorted lots today include_expired = sort-IsSorted ahead ahead-IsOrder _

take_lots_total :
    (ls : List FefoLot) (n : ℕ)
    → (allocated (take_lots ls n).allocations + (take_lots ls n).missing ≡ n)
      × (allocated (take_lots ls n).allocations ≡ smaller (held_by ls) n)
unfolding take_lots smaller
take_lots_total [] n = ground arith
take_lots_total (l ∷ ls) n = let ih = take_lots_total ls (n - smaller l.on_hand n) in ground arith

-- The allocations and what is missing make up the quantity asked for, and as much is allocated
-- as the usable lots hold, up to that quantity.
pub allocate_fefo_total :
    (lots : List FefoLot) (quantity today : ℕ) (include_expired : Bool)
    → (allocated (allocate_fefo lots quantity today include_expired).allocations
          + (allocate_fefo lots quantity today include_expired).missing
        ≡ quantity)
      × (allocated (allocate_fefo lots quantity today include_expired).allocations
          ≡ smaller (held_by (usable_lots lots today include_expired)) quantity)
unfolding allocate_fefo
allocate_fefo_total lots quantity today include_expired =
    take_lots_total (usable_lots lots today include_expired) quantity

-- An allocation that takes something from a usable lot of a list, and at most what it holds.
abbrev pub IsTakenFrom : List FefoLot → ℕ → Bool → FefoAllocation → Type 0
IsTakenFrom lots today include_expired a =
    (l : FefoLot) × In l lots
    × (is_usable include_expired today l ≡ true)
    × (a.lot_id ≡ l.id)
    × (0 < a.quantity)
    × (a.quantity ≤ l.on_hand)

min_pos : (a b : ℕ) → 0 < a → (b == 0) ≡ false → 0 < smaller a b
unfolding smaller
min_pos a b h k = ground arith

min_le : (a b : ℕ) → smaller a b ≤ a
unfolding smaller
min_le a b = ground arith

take_lots-taken :
    (P : FefoLot → Type 0) (ls : List FefoLot) (n : ℕ)
    → All (λ l. P l × (0 < l.on_hand)) ls
    → All
        (λ a. (l : FefoLot) × P l × (a.lot_id ≡ l.id) × (0 < a.quantity) × (a.quantity ≤ l.on_hand))
        (take_lots ls n).allocations
unfolding take_lots
take_lots-taken P [] n h = tt
take_lots-taken P (l ∷ ls) n h = elim (Bool-cases (n == 0)) [
  | inl done ↦ rw done tt
  | inr more ↦ rw more (
    (l, h.0.0, refl, min_pos l.on_hand n h.0.1 more, min_le l.on_hand n),
    take_lots-taken P ls (n - smaller l.on_hand n) h.1,
  )
]

usable-pos :
    (include_expired : Bool) (today : ℕ) (l : FefoLot)
    → is_usable include_expired today l ≡ true
    → 0 < l.on_hand
unfolding is_usable
usable-pos include_expired today l h = ground arith

-- Every allocation takes something from a usable lot of the list, and at most what that lot
-- holds.
pub allocate_fefo-IsTakenFrom :
    (lots : List FefoLot) (quantity today : ℕ) (include_expired : Bool)
    → All
        (IsTakenFrom lots today include_expired)
        (allocate_fefo lots quantity today include_expired).allocations
unfolding allocate_fefo usable_lots
allocate_fefo-IsTakenFrom lots quantity today include_expired =
    subst (λ P. All P (take_lots (usable_lots lots today include_expired) quantity).allocations)
      refl
      (repack _ (
        take_lots-taken (λ l. In l lots × (is_usable include_expired today l ≡ true))
          (usable_lots lots today include_expired) quantity
          (sort-All ahead _ (keep (is_usable include_expired today) lots) (
            All-of_In (keep (is_usable include_expired today) lots) (λ l m.
              let (i, u) = In-keep (is_usable include_expired today) l lots m in
              ((i, u), usable-pos include_expired today l u))))))
  where
    repack :
        (rest : List FefoAllocation)
        → All
            (λ a.
              (l : FefoLot) × (In l lots × (is_usable include_expired today l ≡ true))
              × (a.lot_id ≡ l.id)
              × (0 < a.quantity)
              × (a.quantity ≤ l.on_hand))
            rest
        → All (IsTakenFrom lots today include_expired) rest
    repack [] h = tt
    repack (a ∷ rest) ((l, (i, u), e, p, q), h) = ((l, i, u, e, p, q), repack rest h)

-- The allocations follow the lots one by one, and each but the last takes its whole lot.
abbrev pub EmptiesInOrder : List FefoLot → List FefoAllocation → Type 0
EmptiesInOrder ls [] = Unit
EmptiesInOrder [] (a ∷ rest) = Never
EmptiesInOrder (l ∷ ls) (a ∷ rest) =
    (a.lot_id ≡ l.id) × ((rest ≡ []) ⊎ (a.quantity ≡ l.on_hand)) × EmptiesInOrder ls rest

take_lots-zero : (ls : List FefoLot) → (take_lots ls 0).allocations ≡ []
unfolding take_lots
take_lots-zero [] = refl
take_lots-zero (l ∷ ls) = refl

take_lots-in_order : (ls : List FefoLot) (n : ℕ) → EmptiesInOrder ls (take_lots ls n).allocations
unfolding take_lots smaller
take_lots-in_order [] n = tt
take_lots-in_order (l ∷ ls) n = elim (Bool-cases (n == 0)) [
  | inl done ↦ rw done tt
  | inr more ↦ rw more (refl, last_or_whole, take_lots-in_order ls (n - smaller l.on_hand n))
]
  where
    min_cases : (a : ℕ) → (n - smaller a n ≡ 0) ⊎ (smaller a n ≡ a)
    min_cases a = ground arith

    last_or_whole :
        ((take_lots ls (n - smaller l.on_hand n)).allocations ≡ [])
        ⊎ (smaller l.on_hand n ≡ l.on_hand)
    last_or_whole = elim (min_cases l.on_hand) [
      | inl spent ↦ inl (rw spent (take_lots-zero ls))
      | inr all_of_it ↦ inr all_of_it
    ]

-- Among the usable lots each expires before those behind it, or on the same day or like them
-- never and has arrived no later, those that never expire standing last; the allocations go
-- through them from the first on, and each but the last takes its whole lot.
pub allocate_fefo-in_order :
    (lots : List FefoLot) (quantity today : ℕ) (include_expired : Bool)
    → LeaveByExpiry (usable_lots lots today include_expired)
      × EmptiesInOrder
          (usable_lots lots today include_expired)
          (allocate_fefo lots quantity today include_expired).allocations
unfolding allocate_fefo
allocate_fefo-in_order lots quantity today include_expired = (
  sorted_by_expiry _ (usable_lots-IsSorted lots today include_expired),
  take_lots-in_order (usable_lots lots today include_expired) quantity,
)

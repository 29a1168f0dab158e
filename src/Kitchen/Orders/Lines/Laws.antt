-- ===== src/Kitchen/Orders/Lines/Laws.antt =====
-- Merging keeps what is asked for of each item, in one line per item.
use axzy_ptnv_api.Base.{
  Bool, Bool-cases, List, [], arith, false, if◌then◌else◌, inl, inr, refl, true, ℕ, ◌+◌, ◌==◌, ◌||◌,
  ◌∙◌, ◌∷◌, ◌≡◌,
}
use axzy_ptnv_api.Base.Lists.{any}
use axzy_ptnv_api.Kitchen.Orders.Lines.{ResolvedLine, add_line, merge_into, merge_line, merge_lines}

-- What lines ask for of the item `k`.
abbrev pub requested_of : ℕ → List ResolvedLine → ℕ
requested_of k [] = 0
requested_of k (l ∷ ls) = (if l.item == k then l.quantity else 0) + requested_of k ls

abbrev pub has_item : ℕ → List ResolvedLine → Bool
has_item k lines = any (λ (l : ResolvedLine). l.item == k) lines

-- No two lines are of one item.
abbrev pub IsMerged : List ResolvedLine → Type 0
IsMerged [] = Unit
IsMerged (l ∷ ls) = (has_item l.item ls ≡ false) × IsMerged ls

requested_of-add_line :
    (k : ℕ) (merged : List ResolvedLine) (line : ResolvedLine)
    → requested_of k (add_line merged line)
      ≡ requested_of k merged + (if line.item == k then line.quantity else 0)
unfolding add_line merge_line
requested_of-add_line k [] line = omega arith
requested_of-add_line k (prev ∷ merged) line = elim (Bool-cases (prev.item == line.item)) [
  | inl mine ↦
      let same : prev.item ≡ line.item = ground arith in
      rw (mine, same) (both (line.item == k) prev.quantity line.quantity (requested_of k merged))
  | inr other ↦ rw other (let ih = requested_of-add_line k merged line in omega arith)
]
  where
    both :
        (b : Bool) (p q r : ℕ)
        → (if b then p + q else 0) + r ≡ (if b then p else 0) + r + (if b then q else 0)
    both b p q r = ground arith

has_item-add_line :
    (k : ℕ) (merged : List ResolvedLine) (line : ResolvedLine)
    → has_item k (add_line merged line) ≡ (line.item == k || has_item k merged)
unfolding add_line merge_line
has_item-add_line k [] line = refl
has_item-add_line k (prev ∷ merged) line = elim (Bool-cases (prev.item == line.item)) [
  | inl mine ↦
      let same : prev.item ≡ line.item = ground arith in
      rw (mine, same) (twice (line.item == k) (has_item k merged))
  | inr other ↦
      rw (other, has_item-add_line k merged line)
        (swapped (prev.item == k) (line.item == k) (has_item k merged))
]
  where
    twice : (a b : Bool) → (a || b) ≡ (a || (a || b))
    twice true b = refl
    twice false b = refl

    swapped : (a b c : Bool) → (a || (b || c)) ≡ (b || (a || c))
    swapped true true c = refl
    swapped true false c = refl
    swapped false b c = refl

add_line-IsMerged :
    (merged : List ResolvedLine) (line : ResolvedLine)
    → IsMerged merged
    → IsMerged (add_line merged line)
unfolding add_line merge_line
add_line-IsMerged [] line h = (refl, tt)
add_line-IsMerged (prev ∷ merged) line h = elim (Bool-cases (prev.item == line.item)) [
  | inl mine ↦ rw mine h
  | inr other ↦ rw other (
    has_item-add_line prev.item merged line ∙ absent (has_item prev.item merged) other h.0,
    add_line-IsMerged merged line h.1,
  )
]
  where
    absent :
        (b : Bool)
        → (prev.item == line.item) ≡ false
        → b ≡ false
        → (line.item == prev.item || b) ≡ false
    absent b o e = let apart : (line.item == prev.item) ≡ false = ground arith in rw (apart, e) refl

merge_into_lem :
    (merged lines : List ResolvedLine)
    → IsMerged merged
    → IsMerged (merge_into merged lines)
      × ((k : ℕ)
          → requested_of k (merge_into merged lines) ≡ requested_of k merged + requested_of k lines)
unfolding merge_into
merge_into_lem merged [] h = (h, λ k. omega arith)
merge_into_lem merged (line ∷ lines) h =
    let (one_each, totals) =
      merge_into_lem (add_line merged line) lines (add_line-IsMerged merged line h) in
    (
      one_each,
      (λ k. let e = totals k in let f = requested_of-add_line k merged line in omega arith),
    )

-- The merged lines of a purchase order are of different items, and ask for as much of every item
-- as the lines of the request together.
pub merge_lines-requested_of :
    (lines : List ResolvedLine)
    → IsMerged (merge_lines lines)
      × ((k : ℕ) → requested_of k (merge_lines lines) ≡ requested_of k lines)
unfolding merge_lines
merge_lines-requested_of lines =
    let (one_each, totals) = merge_into_lem [] lines tt in
    (one_each, (λ k. let e = totals k in omega arith))

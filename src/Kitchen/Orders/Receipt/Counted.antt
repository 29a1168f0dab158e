-- ===== src/Kitchen/Orders/Receipt/Counted.antt =====
-- What is counted on the lines of an order is what is stocked.
use axzy_ptnv_api.Base.{
  Bool, Bool-cases, List, Option, [], ap, arith, false, if◌then◌else◌, inl, inr, ltb, none, refl,
  some, true, ℕ, ◌+◌, ◌==◌, ◌∙◌, ◌∷◌, ◌≡◌,
}
use axzy_ptnv_api.Base.Outcome.{>>=-eq-ok, http, ok, required, throw_if}
use axzy_ptnv_api.Kitchen.Errors.{purchase_order_line_not_found, purchase_order_over_receipt}
use axzy_ptnv_api.Kitchen.Orders.Receipt.{
  ReceiptLine, add_increment, check_receipt, find_line, increment_line, increment_lines, stock_line,
}
use axzy_ptnv_api.Kitchen.Orders.Tables.{OrderLine}
use axzy_ptnv_api.Kitchen.Store.Operations.{InLine}
use axzy_ptnv_api.Kitchen.Orders.Receipt.Bounds.{find_line-id}
use axzy_ptnv_api.Kitchen.Store.Soundness.Counts.{entered_of}

-- What the lines of an order have received of the item `k`.
abbrev pub received_of : ℕ → List OrderLine → ℕ
received_of k [] = 0
received_of k (l ∷ ls) = (if l.item == k then l.received_quantity else 0) + received_of k ls

-- What a quantity is, of the item `k`, for the line that was found.
abbrev of_line : ℕ → Option OrderLine → ℕ → ℕ
of_line k none n = 0
of_line k (some l) n = if l.item == k then n else 0

-- What increments bring of the item `k`.
abbrev pub brings_of : ℕ → List OrderLine → List (ℕ × ℕ) → ℕ
brings_of k lines [] = 0
brings_of k lines (e ∷ es) = of_line k (find_line e.0 lines) e.1 + brings_of k lines es

of_line_add :
    (k : ℕ) (o : Option OrderLine) (a b : ℕ) → of_line k o (a + b) ≡ of_line k o a + of_line k o b
of_line_add k none a b = omega arith
of_line_add k (some l) a b = elim (Bool-cases (l.item == k)) [
  | inl mine ↦ rw mine refl
  | inr other ↦ rw other (omega arith)
]

brings_of-add_increment :
    (k : ℕ) (lines : List OrderLine) (id quantity : ℕ) (es : List (ℕ × ℕ))
    → brings_of k lines (add_increment id quantity es)
      ≡ of_line k (find_line id lines) quantity + brings_of k lines es
unfolding add_increment
brings_of-add_increment k lines id quantity [] = refl
brings_of-add_increment k lines id quantity (e ∷ es) = elim (Bool-cases (e.0 == id)) [
  | inl hit ↦
      let same : e.0 ≡ id = ground arith in
      let sum = of_line_add k (find_line id lines) e.1 quantity in rw (hit, same) (omega arith)
  | inr miss ↦ rw miss (let ih = brings_of-add_increment k lines id quantity es in omega arith)
]

check_receipt-brings_of :
    (k : ℕ) (lines : List OrderLine) (inputs : List ReceiptLine) (increments : List (ℕ × ℕ))
    {r : List InLine × List (ℕ × ℕ)}
    → check_receipt lines inputs increments ≡ ok r
    → brings_of k lines r.1 ≡ brings_of k lines increments + entered_of k r.0
unfolding check_receipt
check_receipt-brings_of k lines [] increments {r} h =
    let same : ◌≡◌ {A = List InLine × List (ℕ × ℕ)} ([], increments) r = cc in
    rw (← same) (omega arith)
check_receipt-brings_of k lines (line ∷ inputs) increments {r} h =
    let (l, there, h1) =
      >>=-eq-ok (required (find_line line.line lines) (http 404 purchase_order_line_not_found)) _
        h in
    let (u, guard, h2) =
      >>=-eq-ok
        (throw_if (ltb l.quantity (l.received_quantity + line.quantity)) 409
          purchase_order_over_receipt)
        _ h1 in
    let (q, rest, h3) =
      >>=-eq-ok (check_receipt lines inputs (add_increment l.id line.quantity increments)) _ h2 in
    let found : find_line line.line lines ≡ some l = ground arith in
    let found' : find_line l.id lines ≡ some l =
      ap (λ i. find_line i lines) (find_line-id line.line lines found) ∙ found in
    let ih = check_receipt-brings_of k lines inputs _ rest in
    let one = brings_of-add_increment k lines l.id line.quantity increments in
    let of_it = ap (λ o. of_line k o line.quantity) found' in
    let end : ◌≡◌ {A = List InLine × List (ℕ × ℕ)} (stock_line l line ∷ q.0, q.1) r = cc in
    rw (← end) (omega arith)

increment_line-received_of :
    (k id quantity : ℕ) (lines : List OrderLine) {lines' : List OrderLine}
    → increment_line id quantity lines ≡ ok lines'
    → (received_of k lines' ≡ received_of k lines + of_line k (find_line id lines) quantity)
      × ((j n : ℕ) → of_line k (find_line j lines') n ≡ of_line k (find_line j lines) n)
unfolding increment_line
increment_line-received_of k id quantity [] h = cc
increment_line-received_of k id quantity (l ∷ lines) {lines'} h = elim (Bool-cases (l.id == id)) [
  | inl hit ↦
      let h0 = rw (increment_line, hit) at h in
      let end : record l { received_quantity = l.received_quantity + quantity } ∷ lines ≡ lines' =
        cc in
      rw (← end, hit)
        (
          more (l.item == k) l.received_quantity quantity (received_of k lines),
          (λ j n. same_item (l.id == j) n j),
        )
  | inr miss ↦
      let h0 = rw (increment_line, miss) at h in
      let (rest, r, h1) = >>=-eq-ok (increment_line id quantity lines) _ h0 in
      let (sum, others) = increment_line-received_of k id quantity lines r in
      let end : l ∷ rest ≡ lines' = cc in
      rw (← end, miss)
        (
          omega arith,
          (λ j n. kept (l.id == j) n (find_line j rest) (find_line j lines) (others j n)),
        )
]
  where
    more :
        (b : Bool) (x q s : ℕ)
        → (if b then x + q else 0) + s ≡ ((if b then x else 0) + s) + (if b then q else 0)
    more true x q s = omega arith
    more false x q s = omega arith

    same_item :
        (b : Bool) (n j : ℕ)
        → of_line k
            (if b
              then some (record l { received_quantity = l.received_quantity + quantity })
              else find_line j lines)
            n
          ≡ of_line k (if b then some l else find_line j lines) n
    same_item true n j = refl
    same_item false n j = refl

    kept :
        (b : Bool) (n : ℕ) (o o' : Option OrderLine)
        → of_line k o n ≡ of_line k o' n
        → of_line k (if b then some l else o) n ≡ of_line k (if b then some l else o') n
    kept true n o o' e = refl
    kept false n o o' e = e

increment_lines-received_of :
    (k : ℕ) (increments : List (ℕ × ℕ)) (lines : List OrderLine) {lines' : List OrderLine}
    → increment_lines increments lines ≡ ok lines'
    → received_of k lines' ≡ received_of k lines + brings_of k lines increments
unfolding increment_lines
increment_lines-received_of k [] lines {lines'} h =
    let same : lines ≡ lines' = cc in rw (← same) (omega arith)
increment_lines-received_of k (e ∷ es) lines h =
    let (mid, first, rest) = >>=-eq-ok (increment_line e.0 e.1 lines) _ h in
    let (sum, others) = increment_line-received_of k e.0 e.1 lines first in
    let ih = increment_lines-received_of k es mid rest in
    let same = unmoved mid es others in omega arith
  where
    unmoved :
        (mid : List OrderLine) (xs : List (ℕ × ℕ))
        → ((j n : ℕ) → of_line k (find_line j mid) n ≡ of_line k (find_line j lines) n)
        → brings_of k mid xs ≡ brings_of k lines xs
    unmoved mid [] others = refl
    unmoved mid (x ∷ xs) others =
        let a = others x.0 x.1 in let b = unmoved mid xs others in omega arith

-- Counted on the lines of the order is, of every item, what is stocked.
pub check_receipt-received_of :
    (k : ℕ) (lines : List OrderLine) (inputs : List ReceiptLine) {r : List InLine × List (ℕ × ℕ)}
    {lines' : List OrderLine}
    → check_receipt lines inputs [] ≡ ok r
    → increment_lines r.1 lines ≡ ok lines'
    → received_of k lines' ≡ received_of k lines + entered_of k r.0
check_receipt-received_of k lines inputs {r} h g =
    let a = check_receipt-brings_of k lines inputs [] h in
    let b = increment_lines-received_of k r.1 lines g in omega arith

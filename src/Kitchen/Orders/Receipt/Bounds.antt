-- ===== src/Kitchen/Orders/Receipt/Bounds.antt =====
-- What a receipt may count on a line.
use axzy_ptnv_api.Base.{
  Bool, Bool-cases, List, [], ap, arith, false, if◌then◌else◌, inl, inr, ltb, refl, some, true, ℕ,
  ◌+◌, ◌==◌, ◌||◌, ◌∙◌, ◌∷◌, ◌≡◌, ◌≤◌,
}
use axzy_ptnv_api.Access.Catalog.{distinct}
use axzy_ptnv_api.Base.Lists.{All, any, find_sound}
use axzy_ptnv_api.Base.Outcome.{>>=-eq-ok, Result, http, ok, required, throw_if}
use axzy_ptnv_api.Kitchen.Errors.{
  KitchenCode, purchase_order_line_not_found, purchase_order_over_receipt,
}
use axzy_ptnv_api.Kitchen.Orders.Receipt.{
  ReceiptLine, add_increment, check_receipt, find_line, increment_line, increment_lines,
}
use axzy_ptnv_api.Kitchen.Orders.Tables.{OrderLine}
use axzy_ptnv_api.Kitchen.Store.Operations.{InLine}

-- A line that has received no more than was ordered.
abbrev pub IsWithin : OrderLine → Type 0
IsWithin l = l.received_quantity ≤ l.quantity

-- An increment that its line has room for.
abbrev pub Fits : List OrderLine → ℕ × ℕ → Type 0
Fits lines e =
    (l : OrderLine) × (find_line e.0 lines ≡ some l) × (l.received_quantity + e.1 ≤ l.quantity)

abbrev pub has_key : ℕ → List (ℕ × ℕ) → Bool
has_key id increments = any (λ (e : ℕ × ℕ). e.0 == id) increments

-- Every line is incremented once.
abbrev pub IsDistinct : List (ℕ × ℕ) → Type 0
IsDistinct [] = Unit
IsDistinct (e ∷ increments) = (has_key e.0 increments ≡ false) × IsDistinct increments

abbrev pub names_line : ℕ → List ReceiptLine → Bool
names_line id lines = any (λ (l : ReceiptLine). l.line == id) lines

-- A request that names each line of the order once.
abbrev pub NamesOnce : List ReceiptLine → Type 0
NamesOnce [] = Unit
NamesOnce (l ∷ ls) = (names_line l.line ls ≡ false) × NamesOnce ls

pub find_line-id :
    (id : ℕ) (lines : List OrderLine) {l : OrderLine} → find_line id lines ≡ some l → l.id ≡ id
find_line-id id lines f =
    let hit = (find_sound (λ (l : OrderLine). l.id == id) lines f).1 in ground arith

-- A new key goes to the end.
add_increment-new :
    (lines : List OrderLine) (id quantity : ℕ) (increments : List (ℕ × ℕ))
    → has_key id increments ≡ false
    → Fits lines (id, quantity)
    → All (Fits lines) increments
    → IsDistinct increments
    → All (Fits lines) (add_increment id quantity increments)
      × IsDistinct (add_increment id quantity increments)
      × ((j : ℕ)
          → has_key j (add_increment id quantity increments) ≡ (id == j || has_key j increments))
unfolding add_increment
add_increment-new lines id quantity [] free fit h d = ((fit, tt), (refl, tt), (λ j. refl))
add_increment-new lines id quantity (e ∷ es) free fit h d =
    let other : (e.0 == id) ≡ false = first_false (e.0 == id) (has_key id es) free in
    let later : has_key id es ≡ false = second_false (e.0 == id) (has_key id es) free in
    let (fits, distinct, named) = add_increment-new lines id quantity es later fit h.1 d.1 in
    rw other (
      (h.0, fits),
      (named e.0 ∙ apart other d.0, distinct),
      (λ j. ap (λ b. e.0 == j || b) (named j) ∙ swapped (e.0 == j) (id == j) (has_key j es)),
    )
  where
    first_false : (a b : Bool) → (a || b) ≡ false → a ≡ false
    first_false a b q = ground arith

    second_false : (a b : Bool) → (a || b) ≡ false → b ≡ false
    second_false a b q = ground arith

    swapped : (a b c : Bool) → (a || (b || c)) ≡ (b || (a || c))
    swapped a b c = ground arith

    apart : {b : Bool} → (e.0 == id) ≡ false → b ≡ false → (id == e.0 || b) ≡ false
    apart o q = let o' : (id == e.0) ≡ false = ground arith in rw (o', q) refl

-- What the guard of the loop gives.
pub Guarded :
    (lines : List OrderLine) (line : ReceiptLine) (l : OrderLine) {u : Unit {0}}
    → find_line line.line lines ≡ some l
    → throw_if
        (ltb l.quantity (l.received_quantity + line.quantity))
        409
        purchase_order_over_receipt
      ≡ ok u
    → Fits lines (l.id, line.quantity)
Guarded lines line l found guard =
    (l, ap (λ i. find_line i lines) (find_line-id line.line lines found) ∙ found, (ground arith))

check_receipt-Fits :
    (lines : List OrderLine) (inputs : List ReceiptLine) (increments : List (ℕ × ℕ))
    {r : List InLine × List (ℕ × ℕ)}
    → check_receipt lines inputs increments ≡ ok r
    → NamesOnce inputs
    → All (λ (l : ReceiptLine). has_key l.line increments ≡ false) inputs
    → All (Fits lines) increments
    → IsDistinct increments
    → All (Fits lines) r.1 × IsDistinct r.1
unfolding check_receipt
check_receipt-Fits lines [] increments {r} h once new fits d =
    let same : ◌≡◌ {A = List InLine × List (ℕ × ℕ)} ([], increments) r = cc in rw (← same) (fits, d)
check_receipt-Fits lines (line ∷ inputs) increments {r} h once new fits d =
    let (l, there, h1) =
      >>=-eq-ok (required (find_line line.line lines) (http 404 purchase_order_line_not_found)) _
        h in
    let (u, guard, h2) =
      >>=-eq-ok
        (throw_if (ltb l.quantity (l.received_quantity + line.quantity)) 409
          purchase_order_over_receipt)
        _ h1 in
    let (q, rest, h3) =
      >>=-eq-ok (check_receipt lines inputs (add_increment l.id line.quantity increments)) _ h2 in
    let found : find_line line.line lines ≡ some l = ground arith in
    let same_id : l.id ≡ line.line = find_line-id line.line lines found in
    let fit = Guarded lines line l found guard in
    let (fits', d', named) =
      add_increment-new lines l.id line.quantity increments
        (ap (λ i. has_key i increments) same_id ∙ new.0) fit fits d in
    let end : q.1 ≡ r.1 = cc in
    rw (← end) (
      check_receipt-Fits lines inputs _ rest once.1
        (still _ inputs (λ j. named j ∙ ap (λ i. i == j || has_key j increments) same_id) once.0
          new.1)
        fits' d')
  where
    still :
        (added : List (ℕ × ℕ)) (ls : List ReceiptLine)
        → ((j : ℕ) → has_key j added ≡ (line.line == j || has_key j increments))
        → names_line line.line ls ≡ false
        → All (λ (l : ReceiptLine). has_key l.line increments ≡ false) ls
        → All (λ (l : ReceiptLine). has_key l.line added ≡ false) ls
    still added [] named o k = tt
    still added (x ∷ ls) named o k = (
      named x.line ∙ both (names_line line.line ls) (has_key x.line increments) o k.0,
      still added ls named (tail_false (x.line == line.line) (names_line line.line ls) o) k.1,
    )
      where
        both :
            (rest b : Bool)
            → (x.line == line.line || rest) ≡ false
            → b ≡ false
            → (line.line == x.line || b) ≡ false
        both rest b p q = ground arith

        tail_false : (a b : Bool) → (a || b) ≡ false → b ≡ false
        tail_false a b q = ground arith

-- The loop leaves increments that fit, one for each line.
pub check_receipt_room :
    (lines : List OrderLine) (inputs : List ReceiptLine) {r : List InLine × List (ℕ × ℕ)}
    → check_receipt lines inputs [] ≡ ok r
    → NamesOnce inputs
    → All (Fits lines) r.1 × IsDistinct r.1
check_receipt_room lines inputs h once =
    check_receipt-Fits lines inputs [] h once (all_new inputs) tt tt
  where
    all_new : (ls : List ReceiptLine) → All (λ (l : ReceiptLine). has_key l.line [] ≡ false) ls
    all_new [] = tt
    all_new (l ∷ ls) = (refl, all_new ls)

increment_line-IsWithin :
    (id quantity : ℕ) (lines : List OrderLine) {lines' : List OrderLine}
    → increment_line id quantity lines ≡ ok lines'
    → Fits lines (id, quantity)
    → All IsWithin lines
    → All IsWithin lines' × ((j : ℕ) → (id == j) ≡ false → find_line j lines' ≡ find_line j lines)
unfolding increment_line
increment_line-IsWithin id quantity [] h fit w = cc
increment_line-IsWithin id quantity (l ∷ lines) {lines'} h (x, found, room) w =
    elim (Bool-cases (l.id == id)) [
      | inl hit ↦
          let h0 = rw (increment_line, hit) at h in
          let first : some l ≡ some x = rw hit at found in
          let same : l ≡ x = cc in
          let end : record l { received_quantity = l.received_quantity + quantity } ∷ lines
              ≡ lines' =
            cc in
          rw (← end) ((rw same room, w.1), (λ j o. unmoved hit j o))
      | inr miss ↦
          let h0 = rw (increment_line, miss) at h in
          let (rest, r, h1) = >>=-eq-ok (increment_line id quantity lines) _ h0 in
          let (within, others) =
            increment_line-IsWithin id quantity lines r (x, (rw miss at found), room) w.1 in
          let end : l ∷ rest ≡ lines' = cc in
          rw (← end)
            ((w.0, within), (λ j o. ap (λ z. if l.id == j then some l else z) (others j o)))
    ]
  where
    unmoved :
        (l.id == id) ≡ true
        → (j : ℕ) → (id == j) ≡ false
        → find_line j (record l { received_quantity = l.received_quantity + quantity } ∷ lines)
          ≡ find_line j (l ∷ lines)
    unmoved hit j o = let other : (l.id == j) ≡ false = ground arith in rw other refl

increment_lines-IsWithin :
    (increments : List (ℕ × ℕ)) (lines : List OrderLine) {lines' : List OrderLine}
    → increment_lines increments lines ≡ ok lines'
    → All (Fits lines) increments
    → IsDistinct increments
    → All IsWithin lines
    → All IsWithin lines'
unfolding increment_lines
increment_lines-IsWithin [] lines h fits d w = let same : lines ≡ _ = ok_eq h in rw (← same) w
  where
    ok_eq :
        {a b : List OrderLine} → ◌≡◌ {A = Result KitchenCode (List OrderLine)} (ok a) (ok b) → a ≡ b
    ok_eq e = cc
increment_lines-IsWithin (e ∷ increments) lines h fits d w =
    let (mid, first, rest) = >>=-eq-ok (increment_line e.0 e.1 lines) _ h in
    let (within, others) = increment_line-IsWithin e.0 e.1 lines first fits.0 w in
    increment_lines-IsWithin increments mid rest (still mid increments d.0 others fits.1) d.1 within
  where
    still :
        (mid : List OrderLine) (es : List (ℕ × ℕ))
        → has_key e.0 es ≡ false
        → ((j : ℕ) → (e.0 == j) ≡ false → find_line j mid ≡ find_line j lines)
        → All (Fits lines) es
        → All (Fits mid) es
    still mid [] free others f = tt
    still mid (x ∷ es) free others f = (
      (f.0.0, others x.0 (apart (has_key e.0 es) free) ∙ f.0.1, f.0.2),
      still mid es (later (x.0 == e.0) (has_key e.0 es) free) others f.1,
    )
      where
        apart : (b : Bool) → (x.0 == e.0 || b) ≡ false → (e.0 == x.0) ≡ false
        apart b q = ground arith

        later : (a b : Bool) → (a || b) ≡ false → b ≡ false
        later a b q = ground arith

-- A request that names each line once, checked against an order of which no line has received more
-- than was ordered, leaves no such line once it is counted.
pub check_receipt-IsWithin :
    (lines : List OrderLine) (inputs : List ReceiptLine) {r : List InLine × List (ℕ × ℕ)}
    {lines' : List OrderLine}
    → NamesOnce inputs
    → All IsWithin lines
    → check_receipt lines inputs [] ≡ ok r
    → increment_lines r.1 lines ≡ ok lines'
    → All IsWithin lines'
check_receipt-IsWithin lines inputs {r} once w h k =
    let (fits, d) = check_receipt_room lines inputs h once in
    increment_lines-IsWithin r.1 lines k fits d w

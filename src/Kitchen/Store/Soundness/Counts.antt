-- ===== src/Kitchen/Store/Soundness/Counts.antt =====
-- A plain count per item, and what the requests of the kitchen store do to it.
use axzy_ptnv_api.Base.{
  Bool, List, Option, [], false, if◌then◌else◌, some, true, ℕ, ◌+◌, ◌==◌, ◌∙◌, ◌∷◌, ◌≡◌,
}
use axzy_ptnv_api.Base.Int.{int_laws, negate, pos, ℤ, ◌+ℤ◌}
use axzy_ptnv_api.Kitchen.Rules.{Sign, minus, plus}
use axzy_ptnv_api.Kitchen.Rules.Laws.{signed}
use axzy_ptnv_api.Kitchen.Store.Operations.{AdjustmentLine, InLine, OutLine, OutType}
use axzy_ptnv_api.Kitchen.Store.Tables.{KitchenDb}
use axzy_ptnv_api.Kitchen.Store.Soundness.Items.{stock_of}
use axzy_ptnv_api.Kitchen.Store.Soundness.Taken.{asked_of}

abbrev pub Counts : Type 0
Counts = ℕ → ℤ

abbrev pub counted : ℕ → ℤ → Counts → Counts
counted item delta counts k = if item == k then counts k +ℤ delta else counts k

abbrev pub count_in : List InLine → Counts → Counts
count_in [] counts = counts
count_in (l ∷ ls) counts = count_in ls (counted l.item (pos l.quantity) counts)

abbrev pub count_out : List OutLine → Counts → Counts
count_out [] counts = counts
count_out (l ∷ ls) counts = count_out ls (counted l.item (negate (pos l.quantity)) counts)

abbrev pub count_adjusted : Bool → List AdjustmentLine → Counts → Counts
count_adjusted upwards [] counts = counts
count_adjusted upwards (l ∷ ls) counts =
    count_adjusted upwards ls
      (counted l.item (if upwards then pos l.quantity else negate (pos l.quantity)) counts)

-- The operations that take lines, with their arguments.
pub data KitchenChange : Type 0 where
  enters : ℕ → ℕ → Option ℕ → List InLine → ℕ → Option ℕ → KitchenChange
  leaves : ℕ → ℕ → OutType → Option ℕ → List OutLine → ℕ → KitchenChange
  recounts : ℕ → Bool → List AdjustmentLine → ℕ → KitchenChange

abbrev pub count_change : KitchenChange → Counts → Counts
count_change (enters id received_at supplier lines actor po) = count_in lines
count_change (leaves id today type reason lines actor) = count_out lines
count_change (recounts id upwards lines actor) = count_adjusted upwards lines

-- The counts of a store.
abbrev pub counts_of : KitchenDb → Counts
counts_of db k = stock_of k db.lots

pub line_then :
    (b : Bool) (s : Sign) (x : ℤ) (n m : ℕ)
    → (if b then x +ℤ signed (some s) n else x) +ℤ signed (some s) m
      ≡ x +ℤ signed (some s) ((if b then n else 0) + m)
line_then true plus x n m = omega int_laws
line_then true minus x n m = omega int_laws
line_then false plus x n m = omega int_laws
line_then false minus x n m = omega int_laws

pub no_line : (s : Sign) (x : ℤ) → x ≡ x +ℤ signed (some s) 0
no_line plus x = omega int_laws
no_line minus x = omega int_laws

pub count_out-sum :
    (lines : List OutLine) (counts : Counts) (k : ℕ)
    → count_out lines counts k ≡ counts k +ℤ signed (some minus) (asked_of k lines)
count_out-sum [] counts k = no_line minus (counts k)
count_out-sum (l ∷ ls) counts k =
    count_out-sum ls (counted l.item (negate (pos l.quantity)) counts) k
    ∙ line_then (l.item == k) minus (counts k) l.quantity (asked_of k ls)

-- What a list of entries brings of the item `k`.
abbrev pub entered_of : ℕ → List InLine → ℕ
entered_of k [] = 0
entered_of k (l ∷ ls) = (if l.item == k then l.quantity else 0) + entered_of k ls

pub count_in-sum :
    (lines : List InLine) (counts : Counts) (k : ℕ)
    → count_in lines counts k ≡ counts k +ℤ signed (some plus) (entered_of k lines)
count_in-sum [] counts k = no_line plus (counts k)
count_in-sum (l ∷ ls) counts k =
    count_in-sum ls (counted l.item (pos l.quantity) counts) k
    ∙ line_then (l.item == k) plus (counts k) l.quantity (entered_of k ls)

abbrev pub recounted_of : ℕ → List AdjustmentLine → ℕ
recounted_of k [] = 0
recounted_of k (l ∷ ls) = (if l.item == k then l.quantity else 0) + recounted_of k ls

abbrev pub sign_upwards : Bool → Sign
sign_upwards true = plus
sign_upwards false = minus

pub count_adjusted-sum :
    (upwards : Bool) (lines : List AdjustmentLine) (counts : Counts) (k : ℕ)
    → count_adjusted upwards lines counts k
      ≡ counts k +ℤ signed (some (sign_upwards upwards)) (recounted_of k lines)
count_adjusted-sum upwards [] counts k = no_line (sign_upwards upwards) (counts k)
count_adjusted-sum true (l ∷ ls) counts k =
    count_adjusted-sum true ls (counted l.item (pos l.quantity) counts) k
    ∙ line_then (l.item == k) plus (counts k) l.quantity (recounted_of k ls)
count_adjusted-sum false (l ∷ ls) counts k =
    count_adjusted-sum false ls (counted l.item (negate (pos l.quantity)) counts) k
    ∙ line_then (l.item == k) minus (counts k) l.quantity (recounted_of k ls)

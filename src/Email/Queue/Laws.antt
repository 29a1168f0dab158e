-- ===== src/Email/Queue/Laws.antt =====
-- The attempts at a mail are counted and come to an end.
use native.Mathlib.Nat.{mul-le-mul_left, one-le-pow, pow-le-pow_right}
use axzy_ptnv_api.Base.{
  Bool, Bool-cases, List, Option-cases, [], arith, false, if◌then◌else◌, inl, inr, leb, none, refl,
  suc, true, zero, ℕ, ◌&&◌, ◌*◌, ◌+◌, ◌-◌, ◌<◌, ◌==◌, ◌^◌, ◌∷◌, ◌≡◌, ◌≤◌, ◌⊎◌,
}
use axzy_ptnv_api.Base.Lists.{All, All-of_In, In-All, In-keep, keep}
use axzy_ptnv_api.Email.Queue.{
  EmailLog, EmailLogStatus, QueueConfig, Sending, backoff_ms, batch, delivered, email_failed,
  email_pending, email_sent, enqueue_email, find_email, first_rows, is_due, is_pending, is_sent,
  max_backoff_ms, older, poll, reset_row, retry_email, run_row, run_rows, thrown_error, update_row,
}
use axzy_ptnv_api.Base.Sort.Laws.{sort-All}

-- What a row says of its attempts: a pending one has some left, a failed one has had them all.
abbrev pub AttemptsOf : EmailLogStatus → QueueConfig → EmailLog → Type 0
AttemptsOf email_pending c r = r.attempts < c.max_attempts
AttemptsOf email_sent c r = r.attempts < c.max_attempts
AttemptsOf email_failed c r = (r.attempts ≡ c.max_attempts) × (r.next_attempt_at ≡ none)

abbrev pub IsTracked : QueueConfig → EmailLog → Type 0
IsTracked c r = AttemptsOf r.status c r

run_row-IsTracked :
    (c : QueueConfig) (now : ℕ) (s : Sending) (r : EmailLog)
    → r.attempts < c.max_attempts
    → IsTracked c (run_row c now s r)
unfolding run_row
run_row-IsTracked c now delivered r left = left
run_row-IsTracked c now (thrown_error message) r left =
    elim (Bool-cases (leb c.max_attempts (r.attempts + 1))) [
      | inl spent ↦ rw spent (last spent, refl)
      | inr more ↦ rw more (ground arith)
    ]
  where
    last : leb c.max_attempts (r.attempts + 1) ≡ true → r.attempts + 1 ≡ c.max_attempts
    last h = ground arith

update_row-All :
    (P : EmailLog → Type 0) (id : ℕ) (change : EmailLog → EmailLog) (rows : List EmailLog)
    → ((r : EmailLog) → P r → P (change r))
    → All P rows
    → All P (update_row id change rows)
unfolding update_row
update_row-All P id change [] keeps h = tt
update_row-All P id change (r ∷ rows) keeps h = elim (Bool-cases (r.id == id)) [
  | inl hit ↦ rw hit (keeps r h.0, h.1)
  | inr miss ↦ rw miss (h.0, update_row-All P id change rows keeps h.1)
]

first_rows-All :
    (P : EmailLog → Type 0) (n : ℕ) (rows : List EmailLog) → All P rows → All P (first_rows n rows)
unfolding first_rows
first_rows-All P zero rows h = tt
first_rows-All P (suc n) [] h = tt
first_rows-All P (suc n) (r ∷ rows) h = (h.0, first_rows-All P n rows h.1)

-- A row of a batch is pending and among the rows.
batch-left :
    (c : QueueConfig) (now : ℕ) (rows : List EmailLog)
    → All (IsTracked c) rows
    → All (λ (r : EmailLog). r.attempts < c.max_attempts) (batch c now rows)
unfolding batch is_due
batch-left c now rows tracked =
    first_rows-All (λ (r : EmailLog). r.attempts < c.max_attempts) c.batch_size _
      (sort-All older (λ (r : EmailLog). r.attempts < c.max_attempts) (keep (is_due now) rows)
        (All-of_In (keep (is_due now) rows) (λ r m.
          let (there, due) = In-keep (is_due now) r rows m in
          left r.status r (In-All (IsTracked c) r rows there tracked) (first_true _ _ due))))
  where
    first_true : (a b : Bool) → (a && b) ≡ true → a ≡ true
    first_true a b h = ground arith

    left :
        (s : EmailLogStatus) (r : EmailLog)
        → AttemptsOf s c r
        → is_pending s ≡ true
        → r.attempts < c.max_attempts
    left email_pending r h p = h
    left email_sent r h p = cc
    left email_failed r h p = cc

run_rows-IsTracked :
    (c : QueueConfig) (now : ℕ) (sending : ℕ → Sending) (taken rows : List EmailLog)
    → All (λ (r : EmailLog). r.attempts < c.max_attempts) taken
    → All (IsTracked c) rows
    → All (IsTracked c) (run_rows c now sending taken rows)
unfolding run_rows
run_rows-IsTracked c now sending [] rows left h = h
run_rows-IsTracked c now sending (r ∷ rest) rows left h =
    run_rows-IsTracked c now sending rest _ left.1 (
      update_row-All (IsTracked c) r.id (λ x. run_row c now (sending r.id) r) rows
        (λ x t. run_row-IsTracked c now (sending r.id) r left.0) h)

-- What happens to the queue: a mail comes in, the worker polls, or someone asks for a retry.
pub data QueueStep (c : QueueConfig) (rows : List EmailLog) : List EmailLog → Type 0 where
  enqueues :
      (enabled stored : Bool) (id now : ℕ)
      → QueueStep c rows (enqueue_email enabled stored id now rows).1
  polls : (now : ℕ) (sending : ℕ → Sending) → QueueStep c rows (poll c now sending rows)
  retries_mail : (id now : ℕ) → QueueStep c rows (retry_email id now rows).1

pub data QueueReach (c : QueueConfig) (rows : List EmailLog) : List EmailLog → Type 0 where
  no_queue_step : QueueReach c rows rows
  and_queue_step :
      {mid rows' : List EmailLog}
      → QueueReach c rows mid
      → QueueStep c mid rows'
      → QueueReach c rows rows'

QueueStep-IsTracked :
    (c : QueueConfig) {rows rows' : List EmailLog}
    → 0 < c.max_attempts
    → All (IsTracked c) rows
    → QueueStep c rows rows'
    → All (IsTracked c) rows'
unfolding enqueue_email retry_email poll
QueueStep-IsTracked c {rows} some_left h (enqueues enabled stored id now) =
    elim enabled as (λ b. All (IsTracked c) (enqueue_email b stored id now rows).1) [
      | false ↦ h
      | true ↦ elim stored as (λ b. All (IsTracked c) (enqueue_email true b id now rows).1) [
        | true ↦ (some_left, h)
        | false ↦ h
      ]
    ]
QueueStep-IsTracked c {rows} some_left h (polls now sending) =
    run_rows-IsTracked c now sending (batch c now rows) rows (batch-left c now rows h) h
QueueStep-IsTracked c {rows} some_left h (retries_mail id now) =
    elim (Option-cases (find_email id rows)) [
      | inl absent ↦ rw (retry_email, absent) h
      | inr (r, found) ↦ elim (Bool-cases (is_sent r.status)) [
        | inl gone ↦ rw (retry_email, found, gone) h
        | inr open_one ↦
            rw (retry_email, found, open_one)
              (update_row-All (IsTracked c) id (reset_row now) rows (λ x t. some_left) h)
      ]
    ]

-- In every state of the mail queue, from an empty one, at least one attempt being allowed: a row
-- that is pending or sent has fewer attempts than are allowed, and a failed one has had them all
-- and is not due again.
pub QueueReach-IsTracked :
    (c : QueueConfig) {rows : List EmailLog}
    → 0 < c.max_attempts
    → QueueReach c [] rows
    → All (IsTracked c) rows
QueueReach-IsTracked c some_left no_queue_step = tt
QueueReach-IsTracked c some_left (and_queue_step r s) =
    QueueStep-IsTracked c some_left (QueueReach-IsTracked c some_left r) s

-- A row that is run, time after time, as long as it is pending.
unfoldable pub run_times : QueueConfig → (ℕ → ℕ) → (ℕ → Sending) → ℕ → EmailLog → EmailLog
run_times c now sending zero r = r
run_times c now sending (suc n) r =
    let next = run_times c now sending n (run_row c (now n) (sending n) r) in
    if is_pending r.status then next else r

run_times-stays :
    (c : QueueConfig) (now : ℕ → ℕ) (sending : ℕ → Sending) (n : ℕ) (r : EmailLog)
    → is_pending r.status ≡ false
    → is_pending (run_times c now sending n r).status ≡ false
unfolding run_times
run_times-stays c now sending zero r h = h
run_times-stays c now sending (suc n) r h = rw (run_times, h) h

-- A run ends the row, or adds an attempt to it and leaves some.
run_row-cases :
    (c : QueueConfig) (now : ℕ) (s : Sending) (r : EmailLog)
    → (is_pending (run_row c now s r).status ≡ false)
      ⊎ (((run_row c now s r).attempts ≡ r.attempts + 1) × (r.attempts + 1 < c.max_attempts))
unfolding run_row
run_row-cases c now delivered r = inl refl
run_row-cases c now (thrown_error message) r =
    elim (Bool-cases (leb c.max_attempts (r.attempts + 1))) [
      | inl spent ↦ rw spent (inl refl)
      | inr more ↦ rw more (inr (refl, ground arith))
    ]

-- A mail's row that has attempts left and is run as often as it has, while it is pending, is not
-- pending any more, however the sendings end and whenever they are.
pub run_times-ends :
    (c : QueueConfig) (now : ℕ → ℕ) (sending : ℕ → Sending) (n : ℕ) (r : EmailLog)
    → r.attempts < c.max_attempts
    → c.max_attempts ≤ r.attempts + n
    → is_pending (run_times c now sending n r).status ≡ false
unfolding run_times
run_times-ends c now sending zero r left it_suffices =
    let bad : c.max_attempts ≤ r.attempts = omega arith in ground arith
run_times-ends c now sending (suc n) r left it_suffices = elim (Bool-cases (is_pending r.status)) [
  | inr over_now ↦ rw (run_times, over_now) over_now
  | inl on ↦
      rw (run_times, on)
        (elim (run_row-cases c (now n) (sending n) r) [
          | inl ended ↦ run_times-stays c now sending n _ ended
          | inr (one_more, some_left) ↦
              run_times-ends c now sending n _ (rw one_more some_left) (rw one_more (omega arith))
        ])
]

-- From the first attempt on, the wait before the next one is never more than 15 minutes, does
-- not shrink as attempts are added, and is at least the base unless that is above 15 minutes.
pub backoff_ms-bounds :
    (c : QueueConfig) (a b : ℕ)
    → 0 < a
    → a ≤ b
    → (backoff_ms c b ≤ max_backoff_ms)
      × (backoff_ms c a ≤ backoff_ms c b)
      × (c.retry_base_ms ≤ max_backoff_ms → c.retry_base_ms ≤ backoff_ms c a)
unfolding backoff_ms
backoff_ms-bounds c a b h k =
    let grows : 2 ^ (a - 1) ≤ 2 ^ (b - 1) = pow-le-pow_right (omega arith) (omega arith) in
    let more : c.retry_base_ms * 2 ^ (a - 1) ≤ c.retry_base_ms * 2 ^ (b - 1) =
      mul-le-mul_left c.retry_base_ms grows in
    let one : 1 ≤ 2 ^ (a - 1) = one-le-pow (a - 1) 2 (omega arith) in
    let base : c.retry_base_ms * 1 ≤ c.retry_base_ms * 2 ^ (a - 1) =
      mul-le-mul_left c.retry_base_ms one in
    capped (c.retry_base_ms * 2 ^ (a - 1)) (c.retry_base_ms * 2 ^ (b - 1)) c.retry_base_ms more
      (omega arith)
  where
    capped :
        (x y n : ℕ)
        → x ≤ y
        → n ≤ x
        → ((if leb y 900000 then y else 900000) ≤ 900000)
          × ((if leb x 900000 then x else 900000) ≤ (if leb y 900000 then y else 900000))
          × (n ≤ 900000 → n ≤ (if leb x 900000 then x else 900000))
    capped x y n p q = ground arith

-- ===== src/Email/Queue.antt =====
-- The outbox of e-mails and its worker (core/services/email-queue.ts). Times count in milliseconds;
-- what is in a mail is left out, and how the sending of a row ends is an argument. A batch is run row
-- by row: the rows differ, so the order in which the concurrent sends end does not matter.
pub mod Laws
use axzy_ptnv_api.Base.{
  Bool, List, Option, [], false, if◌then◌else◌, leb, none, not, some, suc, true, zero, ℕ, ◌&&◌, ◌*◌,
  ◌+◌, ◌-◌, ◌==◌, ◌^◌, ◌∷◌,
}
use axzy_ptnv_api.Base.Lists.{find, keep}
use axzy_ptnv_api.Base.Sort.{sort}

pub data EmailLogStatus : Type 0 where
  email_pending email_sent email_failed : EmailLogStatus

pub record EmailLog : Type 0 where
  pub id : ℕ
  pub status : EmailLogStatus
  pub attempts : ℕ
  pub last_error : Option ℕ
  pub next_attempt_at : Option ℕ
  pub sent_at : Option ℕ
  pub created_at : ℕ

-- The settings of the environment that the queue reads.
pub record QueueConfig : Type 0 where
  pub max_attempts : ℕ
  pub retry_base_ms : ℕ
  pub batch_size : ℕ

-- The top of the back-off: 15 minutes.
abbrev pub max_backoff_ms : ℕ
max_backoff_ms = 15 * 60 * 1000

-- `attempts` is not 0.
unfoldable pub backoff_ms : QueueConfig → ℕ → ℕ
backoff_ms c attempts =
    if leb (c.retry_base_ms * 2 ^ (attempts - 1)) max_backoff_ms
    then c.retry_base_ms * 2 ^ (attempts - 1)
    else max_backoff_ms

-- How a sending ends: well, or with the message of an error.
pub data Sending : Type 0 where
  delivered : Sending
  thrown_error : ℕ → Sending

-- A new row, at the defaults of the table.
abbrev pub pending_row : ℕ → ℕ → EmailLog
pending_row id now = record {
  id = id;
  status = email_pending;
  attempts = 0;
  last_error = none;
  next_attempt_at = none;
  sent_at = none;
  created_at = now;
}

-- `enqueueEmail`: whether the request may take the mail as queued, and the rows. Where sending is
-- switched off nothing is stored, which is no failure; `stored` is whether the insert goes through.
unfoldable pub enqueue_email : Bool → Bool → ℕ → ℕ → List EmailLog → Bool × List EmailLog
enqueue_email enabled stored id now rows =
    if not enabled
    then (true, rows)
    else if stored
    then (true, pending_row id now ∷ rows)
    else (false, rows)

-- `update({ where: { id }, data })`
unfoldable pub update_row : ℕ → (EmailLog → EmailLog) → List EmailLog → List EmailLog
update_row id change [] = []
update_row id change (r ∷ rows) =
    if r.id == id then change r ∷ rows else r ∷ update_row id change rows

abbrev pub find_email : ℕ → List EmailLog → Option EmailLog
find_email id rows = find (λ (r : EmailLog). r.id == id) rows

abbrev pub is_sent : EmailLogStatus → Bool
is_sent email_sent = true
is_sent _ = false

abbrev pub is_pending : EmailLogStatus → Bool
is_pending email_pending = true
is_pending _ = false

abbrev pub reset_row : ℕ → EmailLog → EmailLog
reset_row now r = record r {
  status = email_pending;
  attempts = 0;
  last_error = none;
  next_attempt_at = some now;
}

-- `retryEmail`: the row as it then is, or none where there is nothing to send again.
unfoldable pub retry_email : ℕ → ℕ → List EmailLog → Option EmailLog × List EmailLog
retry_email id now rows = elim (find_email id rows) [
  | none ↦ (none, rows)
  | some r ↦
      if is_sent r.status
      then (none, rows)
      else (some (reset_row now r), update_row id (reset_row now) rows)
]

-- `runRow`, as it changes the row; a row that is sent keeps its number of attempts.
unfoldable pub run_row : QueueConfig → ℕ → Sending → EmailLog → EmailLog
run_row c now delivered r = record r { status = email_sent; sent_at = some now; last_error = none }
run_row c now (thrown_error message) r =
    if leb c.max_attempts (r.attempts + 1)
    then record r {
      status = email_failed;
      attempts = r.attempts + 1;
      last_error = some message;
      next_attempt_at = none;
    }
    else record r {
      status = email_pending;
      attempts = r.attempts + 1;
      last_error = some message;
      next_attempt_at = some (now + backoff_ms c (r.attempts + 1));
    }

abbrev pub is_due_at : ℕ → Option ℕ → Bool
is_due_at now none = true
is_due_at now (some t) = leb t now

unfoldable pub is_due : ℕ → EmailLog → Bool
is_due now r = is_pending r.status && is_due_at now r.next_attempt_at

abbrev pub older : EmailLog → EmailLog → Bool
older a b = leb a.created_at b.created_at

unfoldable pub first_rows : ℕ → List EmailLog → List EmailLog
first_rows zero rows = []
first_rows (suc n) [] = []
first_rows (suc n) (r ∷ rows) = r ∷ first_rows n rows

-- The rows that a poll takes on: the oldest that are due.
unfoldable pub batch : QueueConfig → ℕ → List EmailLog → List EmailLog
batch c now rows = first_rows c.batch_size (sort older (keep (is_due now) rows))

-- `sending` is how the sending of each row ends.
unfoldable pub run_rows :
    QueueConfig → ℕ → (ℕ → Sending) → List EmailLog → List EmailLog → List EmailLog
run_rows c now sending [] rows = rows
run_rows c now sending (r ∷ rest) rows =
    run_rows c now sending rest (update_row r.id (λ x. run_row c now (sending r.id) r) rows)

unfoldable pub poll : QueueConfig → ℕ → (ℕ → Sending) → List EmailLog → List EmailLog
poll c now sending rows = run_rows c now sending (batch c now rows) rows

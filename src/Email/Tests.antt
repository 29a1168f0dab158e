-- ===== src/Email/Tests.antt =====
-- A queue of two mails, and the theorems at it.
use axzy_ptnv_api.Base.{List, [], arith, false, true, ℕ, ◌≡◌, ◌≤◌}
use axzy_ptnv_api.Base.Lists.{All}
use axzy_ptnv_api.Email.Queue.{
  EmailLog, QueueConfig, Sending, backoff_ms, enqueue_email, is_pending, max_backoff_ms,
  pending_row, poll, retry_email, thrown_error,
}
use axzy_ptnv_api.Email.Queue.Laws.{
  IsTracked, QueueReach-IsTracked, and_queue_step, backoff_ms-bounds, enqueues, no_queue_step,
  polls, retries_mail, run_times, run_times-ends,
}

abbrev settings : QueueConfig
settings = record { max_attempts = 3; retry_base_ms = 1000; batch_size = 10 }

abbrev always_down : ℕ → Sending
always_down id = thrown_error 7

-- Mail 1 comes in and fails, mail 2 comes in, and someone retries mail 1.
abbrev two_mails : List EmailLog
two_mails =
    (retry_email 1 90
      (enqueue_email true true 2 80
        (poll settings 70 always_down (enqueue_email true true 1 50 []).1)).1).1

QueueReach-IsTracked_example : All (IsTracked settings) two_mails
QueueReach-IsTracked_example = QueueReach-IsTracked settings (omega arith) (
    and_queue_step
      (and_queue_step
        (and_queue_step (and_queue_step no_queue_step (enqueues true true 1 50))
          (polls 70 always_down))
        (enqueues true true 2 80))
      (retries_mail 1 90))

run_times-ends_example :
    is_pending (run_times settings (λ n. n) always_down 3 (pending_row 1 50)).status ≡ false
run_times-ends_example =
    run_times-ends settings (λ n. n) always_down 3 (pending_row 1 50) (omega arith) (omega arith)

backoff_ms-bounds_example :
    (backoff_ms settings 4 ≤ max_backoff_ms)
    × (backoff_ms settings 2 ≤ backoff_ms settings 4)
    × (1000 ≤ max_backoff_ms → 1000 ≤ backoff_ms settings 2)
backoff_ms-bounds_example = backoff_ms-bounds settings 2 4 (omega arith) (omega arith)

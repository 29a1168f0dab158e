-- ===== src/Hotel/Posting/Retries.antt =====
-- The attempts of a request: a conflict is tried again, twice at most.
use mathlib.Core.Path.{subst}
use axzy_ptnv_api.Base.{
  Option, arith, none, refl, some, suc, true, zero, ℕ, ◌+◌, ◌<◌, ◌∙◌, ◌≡◌, ◌≤◌,
}
use axzy_ptnv_api.Base.Outcome.{Failure, conflict, err, ok}
use axzy_ptnv_api.Hotel.Errors.{Code}
use axzy_ptnv_api.Hotel.Kardex.{ApprovalThresholds, assert_movement_shape}
use axzy_ptnv_api.Hotel.Posting.{attempt, is_api_type, post, post_from, shape_of, thrown}
use axzy_ptnv_api.Hotel.Tables.{Db, Movement, MovementInput, Stamp}
use axzy_ptnv_api.Hotel.Transaction.{apply_in_transaction, find_request}
use axzy_ptnv_api.Hotel.Posting.Replay.{fresh_key}

module _ (thresholds : ApprovalThresholds) (stamp : Stamp)
    (aborts : ℕ → Option (Failure Code)) where
  post-new :
      (input : MovementInput) (actor : ℕ) (request : Option ℕ) (db : Db)
      → is_api_type input.type ≡ true
      → find_request (fresh_key request) db.movements ≡ none
      → assert_movement_shape input.type (shape_of input) ≡ ok tt
      → post thresholds stamp aborts input actor request db
        ≡ post_from thresholds stamp aborts 2 1 input actor request db
  unfolding post
  post-new input actor request db api fresh shape = rw (post, api, fresh, shape) refl

  attempt-conflict :
      (n : ℕ) (input : MovementInput) (actor : ℕ) (request : Option ℕ) (db : Db)
      → aborts n ≡ some conflict
      → attempt thresholds stamp aborts n input actor request db ≡ err conflict
  unfolding attempt
  attempt-conflict n input actor request db h = rw (attempt, h) refl

  attempt-runs :
      (n : ℕ) (input : MovementInput) (actor : ℕ) (request : Option ℕ) (db : Db)
      → aborts n ≡ none
      → attempt thresholds stamp aborts n input actor request db
        ≡ apply_in_transaction thresholds stamp input actor request db
  unfolding attempt
  attempt-runs n input actor request db h = rw (attempt, h) refl

  at_turn :
      (n k m : ℕ) → n + k ≡ m → (e : Option (Failure Code)) → aborts (n + k) ≡ e → aborts m ≡ e
  at_turn n k m same e h = subst (λ x. aborts x ≡ e) same h

  -- From attempt `n`, with `left` more to follow, `k` conflicts in a row are made up for.
  post_from-reaches :
      (left n k : ℕ) (input : MovementInput) (actor : ℕ) (request : Option ℕ) (db : Db)
      {r : Movement × Db}
      → k ≤ left
      → ((i : ℕ) → i < k → aborts (n + i) ≡ some conflict)
      → aborts (n + k) ≡ none
      → apply_in_transaction thresholds stamp input actor request db ≡ ok r
      → post_from thresholds stamp aborts left n input actor request db ≡ ok r
  unfolding post_from
  post_from-reaches zero n zero input actor request db le conflicts runs done =
      rw
        (
          post_from,
          attempt-runs n input actor request db (at_turn n 0 n (omega arith) none runs),
          done,
        )
        refl
  post_from-reaches zero n (suc k) input actor request db le conflicts runs done =
      absurd (omega (arith, le))
  post_from-reaches (suc left) n zero input actor request db le conflicts runs done =
      rw
        (
          post_from,
          attempt-runs n input actor request db (at_turn n 0 n (omega arith) none runs),
          done,
        )
        refl
  post_from-reaches (suc left) n (suc k) input actor request db le conflicts runs done =
      rw
        (
          post_from,
          attempt-conflict n input actor request db
              (at_turn n 0 n (omega arith) (some conflict) (conflicts 0 (omega arith))),
        )
        (post_from-reaches left (n + 1) k input actor request db (omega (arith, le))
          (λ i lt.
            at_turn n (suc i) (n + 1 + i) (omega arith) (some conflict)
              (conflicts (suc i) (omega (arith, lt))))
          (at_turn n (suc k) (n + 1 + k) (omega arith) none runs) done)

  -- A new request of an accepted type and a good shape, whose transaction goes through, is
  -- answered with its result as long as the database ends at most the first two attempts with a
  -- conflict and lets the next one run.
  pub post-reaches :
      (k : ℕ) (input : MovementInput) (actor : ℕ) (request : Option ℕ) (db : Db) {r : Movement × Db}
      → is_api_type input.type ≡ true
      → find_request (fresh_key request) db.movements ≡ none
      → assert_movement_shape input.type (shape_of input) ≡ ok tt
      → k ≤ 2
      → ((i : ℕ) → i < k → aborts (1 + i) ≡ some conflict)
      → aborts (1 + k) ≡ none
      → apply_in_transaction thresholds stamp input actor request db ≡ ok r
      → post thresholds stamp aborts input actor request db ≡ ok r
  post-reaches k input actor request db api fresh shape le conflicts runs done =
      post-new input actor request db api fresh shape
      ∙ post_from-reaches 2 1 k input actor request db le conflicts runs done

  -- A new request of an accepted type and a good shape that meets three conflicts fails with
  -- the conflict.
  pub post-gives_up :
      (input : MovementInput) (actor : ℕ) (request : Option ℕ) (db : Db)
      → is_api_type input.type ≡ true
      → find_request (fresh_key request) db.movements ≡ none
      → assert_movement_shape input.type (shape_of input) ≡ ok tt
      → ((i : ℕ) → i < 3 → aborts (1 + i) ≡ some conflict)
      → post thresholds stamp aborts input actor request db ≡ err conflict
  unfolding post_from thrown
  post-gives_up input actor request db api fresh shape conflicts =
      post-new input actor request db api fresh shape
      ∙ rw
          (
            post_from,
            attempt-conflict 1 input actor request db (conflicts 0 (omega arith)),
            attempt-conflict 2 input actor request db (conflicts 1 (omega arith)),
            attempt-conflict 3 input actor request db (conflicts 2 (omega arith)),
          )
          refl

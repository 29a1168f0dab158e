-- ===== src/Hotel/Posting/Replay.antt =====
-- What a posted request leaves: a sound store, and an answer that a repeated request gets again.
use axzy_ptnv_api.Base.{
  Bool-cases, List, Option, Option-cases, ap, arith, false, given, if◌then◌else◌, inl, inr, none,
  refl, same_id, some, suc, sym, true, zero, ℕ, ◌+◌, ◌∙◌, ◌∷◌, ◌≡◌, ◌⊎◌,
}
use axzy_ptnv_api.Base.Outcome.{>>=-eq-ok, Failure, ok, ◌>>◌}
use axzy_ptnv_api.Hotel.Errors.{Code}
use axzy_ptnv_api.Hotel.Kardex.{ApprovalThresholds, assert_movement_shape}
use axzy_ptnv_api.Hotel.Posting.{attempt, is_api_type, post, post_from, shape_of}
use axzy_ptnv_api.Hotel.Tables.{Db, Movement, MovementInput, Stamp, Status}
use axzy_ptnv_api.Hotel.Transaction.{ResolvedLine, apply_in_transaction, find_request, movement_of}
use axzy_ptnv_api.Hotel.Soundness.Invariant.{IsSound}
use axzy_ptnv_api.Hotel.Soundness.Requested.{
  apply_in_transaction-Applied, apply_in_transaction-IsSound,
}
use axzy_ptnv_api.Hotel.Transaction.Applied.{HasThreeDecimals}

-- `requestId` where it is not empty.
abbrev pub fresh_key : Option ℕ → Option ℕ
fresh_key request = if given request then request else none

module _ (thresholds : ApprovalThresholds) (stamp : Stamp)
    (aborts : ℕ → Option (Failure Code)) where
  attempt-eq-ok :
      (n : ℕ) (input : MovementInput) (actor : ℕ) (request : Option ℕ) (db : Db) {r : Movement × Db}
      → attempt thresholds stamp aborts n input actor request db ≡ ok r
      → apply_in_transaction thresholds stamp input actor request db ≡ ok r
  unfolding attempt
  attempt-eq-ok n input actor request db h = ground arith

  -- Whatever the attempts before it met, a result is that of one transaction.
  post_from-eq-ok :
      (left n : ℕ) (input : MovementInput) (actor : ℕ) (request : Option ℕ) (db : Db)
      {r : Movement × Db}
      → post_from thresholds stamp aborts left n input actor request db ≡ ok r
      → apply_in_transaction thresholds stamp input actor request db ≡ ok r
  unfolding post_from
  post_from-eq-ok zero n input actor request db h =
      attempt-eq-ok n input actor request db (ground arith)
  post_from-eq-ok (suc left) n input actor request db {r} h = ground (
    arith,
    attempt-eq-ok n input actor request db {r = r},
    post_from-eq-ok left (n + 1) input actor request db {r = r},
  )

  -- A request that is answered is a replay, or has gone through in one transaction.
  pub post-eq-ok :
      (input : MovementInput) (actor : ℕ) (request : Option ℕ) (db : Db) {r : Movement × Db}
      → post thresholds stamp aborts input actor request db ≡ ok r
      → ((find_request (fresh_key request) db.movements ≡ some r.0) × (r.1 ≡ db))
        ⊎ ((find_request (fresh_key request) db.movements ≡ none)
            × (assert_movement_shape input.type (shape_of input) ≡ ok tt)
            × (apply_in_transaction thresholds stamp input actor request db ≡ ok r))
  unfolding post
  post-eq-ok input actor request db {r} h =
      elim (Option-cases (find_request (fresh_key request) db.movements)) [
        | inl absent ↦
            let h1 : (assert_movement_shape input.type (shape_of input)
                  >> post_from thresholds stamp aborts 2 1 input actor request db)
                ≡ ok r =
              ground arith in
            let (u, shape, gone) =
              >>=-eq-ok (assert_movement_shape input.type (shape_of input)) _ h1 in
            inr (absent, shape, post_from-eq-ok 2 1 input actor request db gone)
        | inr (m, there) ↦ inl (ground arith, ground arith)
      ]

  -- From a store in which the stock of every position is the signed sum of the active movements,
  -- no position is negative, the rows are unique and the movements have the warehouses that
  -- their types need, posting a movement whose quantities have three decimals at most and that
  -- is answered leaves such a store, for every type, replayed or not, whichever attempts the
  -- database aborts.
  pub post-IsSound :
      (input : MovementInput) (actor : ℕ) (request : Option ℕ) (db : Db) {r : Movement × Db}
      → HasThreeDecimals input
      → IsSound db
      → post thresholds stamp aborts input actor request db ≡ ok r
      → IsSound r.1
  post-IsSound input actor request db {r} exact sound h =
      elim (post-eq-ok input actor request db h) [
        | inl (found, same) ↦ rw same sound
        | inr (absent, shape, gone) ↦
            apply_in_transaction-IsSound thresholds stamp input actor request db shape exact sound
              gone
      ]

find_request-cons :
    (request : Option ℕ) (m : Movement) (ms : List Movement)
    → given request ≡ true
    → m.request ≡ request
    → find_request request (m ∷ ms) ≡ some m
unfolding find_request
find_request-cons none m ms g e = cc
find_request-cons (some r) m ms g e =
    let same : same_id m.request (some r) ≡ true = rw e (ground arith) in rw same

movement_of-request :
    (stamp : Stamp) (input : MovementInput) (actor : ℕ) (request : Option ℕ) (folio : ℕ)
    (status : Status) (ls : List ResolvedLine)
    → (movement_of stamp input actor request folio status ls).request ≡ request
unfolding movement_of
movement_of-request stamp input actor request folio status ls = refl

fresh_key-given : (request : Option ℕ) → given request ≡ true → fresh_key request ≡ request
fresh_key-given request g = rw g

-- The stores that posts that are answered lead to from the store `start`.
pub data PostReach (start : Db) : Db → Type 0 where
  no_post : PostReach start start
  and_post :
      (thresholds : ApprovalThresholds) (stamp : Stamp) (aborts : ℕ → Option (Failure Code))
      (input : MovementInput) (actor : ℕ) (request : Option ℕ) {db : Db} {q : Movement × Db}
      → PostReach start db
      → post thresholds stamp aborts input actor request db ≡ ok q
      → PostReach start q.1

-- A movement under another key in front hides nothing.
find_request-behind :
    (r : ℕ) (m : Movement) (ms : List Movement)
    → same_id m.request (some r) ≡ false
    → find_request (some r) (m ∷ ms) ≡ find_request (some r) ms
unfolding find_request
find_request-behind r m ms other = rw other refl

-- A key that finds a movement finds it after any post that is answered.
find_request-post :
    (thresholds : ApprovalThresholds) (stamp : Stamp) (aborts : ℕ → Option (Failure Code))
    (input : MovementInput) (actor r : ℕ) (request : Option ℕ) (db : Db) {q : Movement × Db}
    {m : Movement}
    → given (some r) ≡ true
    → find_request (some r) db.movements ≡ some m
    → post thresholds stamp aborts input actor request db ≡ ok q
    → find_request (some r) q.1.movements ≡ some m
find_request-post thresholds stamp aborts input actor r request db {q} {m} g f h =
    elim (post-eq-ok thresholds stamp aborts input actor request db h) [
      | inl (found, same) ↦ rw same f
      | inr (absent, shape, gone) ↦
          let a = apply_in_transaction-Applied thresholds stamp input actor request db gone in
          let asked : q.0.request ≡ request =
            ap (λ (x : Movement). x.request) a.movement ∙ movement_of-request _ _ _ _ _ _ _ in
          elim (Bool-cases (same_id q.0.request (some r))) [
            | inr other ↦
                ap (λ (d : Db). find_request (some r) d.movements) a.after
                ∙ find_request-behind r q.0 db.movements other
                ∙ f
            | inl same ↦
                let mine : same_id request (some r) ≡ true =
                  ap (λ x. same_id x (some r)) (sym asked) ∙ same in
                let key_is : request ≡ some r = own_key request mine in
                let none_there : find_request (some r) db.movements ≡ none =
                  ap (λ x. find_request x db.movements)
                    (sym (fresh_key-given (some r) g) ∙ ap fresh_key (sym key_is))
                  ∙ absent in
                let bad : none ≡ some m = sym none_there ∙ f in cc
          ]
    ]
  where
    own_key : (x : Option ℕ) → same_id x (some r) ≡ true → x ≡ some r
    own_key none e = cc
    own_key (some x) e = ap some (ground arith)

find_request-reach :
    (r : ℕ) {start db : Db} {m : Movement}
    → given (some r) ≡ true
    → find_request (some r) start.movements ≡ some m
    → PostReach start db
    → find_request (some r) db.movements ≡ some m
find_request-reach r g f no_post = f
find_request-reach r g f (and_post thresholds stamp aborts input actor request {db} so_far h) =
    find_request-post thresholds stamp aborts input actor r request db g
      (find_request-reach r g f so_far) h

-- Once a request under a key that is not empty has been answered, and nothing but answered
-- posts, however many, has come since, a request of an accepted type under that key gets the
-- same movement and writes nothing, whatever it asks for, whoever asks and however the database
-- would end its attempts.
pub post_again :
    (thresholds : ApprovalThresholds) (stamp stamp' : Stamp)
    (aborts aborts' : ℕ → Option (Failure Code)) (input input' : MovementInput) (actor actor' : ℕ)
    (request : Option ℕ) (db : Db) {r : Movement × Db} {db' : Db}
    → given request ≡ true
    → is_api_type input'.type ≡ true
    → post thresholds stamp aborts input actor request db ≡ ok r
    → PostReach r.1 db'
    → post thresholds stamp' aborts' input' actor' request db' ≡ ok (r.0, db')
unfolding post
post_again thresholds stamp stamp' aborts aborts' input input' actor actor' none db g api h posts =
    let bad : false ≡ true = g in cc
post_again thresholds stamp stamp' aborts aborts' input input' actor actor' (some k) db {r} {db'} g
      api h posts =
    let still : find_request (some k) db'.movements ≡ some r.0 =
      find_request-reach k g there posts in
    rw (api, fresh_key-given request g) (rw (still, post) refl)
  where
    request : Option ℕ
    request = some k

    key : fresh_key request ≡ request
    key = fresh_key-given request g

    made :
        apply_in_transaction thresholds stamp input actor request db ≡ ok r
        → find_request request r.1.movements ≡ some r.0
    made gone =
        let a = apply_in_transaction-Applied thresholds stamp input actor request db gone in
        ap (λ (d : Db). find_request request d.movements) a.after
        ∙ find_request-cons request r.0 db.movements g
            (ap (λ (m : Movement). m.request) a.movement ∙ movement_of-request _ _ _ _ _ _ _)

    there : find_request request r.1.movements ≡ some r.0
    there = elim (post-eq-ok thresholds stamp aborts input actor request db h) [
      | inl (found, same) ↦ rw (same, ← key) found
      | inr (absent, shape, gone) ↦ made gone
    ]

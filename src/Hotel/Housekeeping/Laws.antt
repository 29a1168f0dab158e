-- ===== src/Hotel/Housekeeping/Laws.antt =====
-- What finishing a task keeps, who may do it, and that it is done once.
use mathlib.Core.Path.{subst}
use axzy_ptnv_api.Base.{
  Bool, Bool-cases, List, Option, [], ap, arith, false, given, inl, inr, none, not, refl, same_id,
  some, sym, true, ℕ, ◌&&◌, ◌==◌, ◌∙◌, ◌∷◌, ◌≡◌, ◌⊎◌,
}
use axzy_ptnv_api.Base.Lists.{find, find_sound}
use axzy_ptnv_api.Base.Outcome.{>>=-eq-ok, http, ok, refused, required, throw_if}
use axzy_ptnv_api.Hotel.Errors.{
  Code, insufficient_permissions, kit_not_available, laundry_not_configured, task_invalid_state,
  task_unassigned,
}
use axzy_ptnv_api.Hotel.Kardex.{ApprovalThresholds, MovementType, assert_movement_shape}
use axzy_ptnv_api.Hotel.Posting.{shape_of}
use axzy_ptnv_api.Hotel.Tables.{Db, Line, MovementInput, ProductKind, Stamp}
use axzy_ptnv_api.Hotel.Transaction.{apply_in_transaction}
use axzy_ptnv_api.Hotel.Housekeeping.Finish.{
  consume, exchange_linen, finish, finish_task, is_laundry, lines_with_kind, move_room,
  movement_lines, post_task, split_linen_lines, task_movement,
}
use axzy_ptnv_api.Hotel.Housekeeping.Rules.{
  RoomStatus, TaskStatus, finished, in_progress, is_finished, is_in_progress,
  room_status_after_finish,
}
use axzy_ptnv_api.Hotel.Housekeeping.Service.{find_task, is_checkout, put_task}
use axzy_ptnv_api.Hotel.Housekeeping.Tables.{House, HouseWarehouse, Room, Task, TaskLine}
use axzy_ptnv_api.Hotel.Soundness.Invariant.{IsSound}
use axzy_ptnv_api.Hotel.Soundness.Requested.{apply_in_transaction-IsSound}
use axzy_ptnv_api.Hotel.Transaction.Applied.{HasThreeDecimals, exact_line-finer}

post_task-IsSound :
    (thresholds : ApprovalThresholds) (stamp : Stamp) (input : MovementInput) (actor : ℕ) (db : Db)
    {r : Option ℕ × Db}
    → HasThreeDecimals input
    → IsSound db
    → post_task thresholds stamp input actor db ≡ ok r
    → IsSound r.1
unfolding post_task
post_task-IsSound thresholds stamp input actor db {r} exact sound h =
    let (u, shape, h1) = >>=-eq-ok (assert_movement_shape input.type (shape_of input)) _ h in
    let (p, gone, h2) =
      >>=-eq-ok (apply_in_transaction thresholds stamp input actor none db) _ h1 in
    let same : p.1 ≡ r.1 = ground arith in
    rw (← same)
      (apply_in_transaction-IsSound thresholds stamp input actor none db shape exact sound gone)

task_movement-HasThreeDecimals :
    (type : MovementType) (source target : Option ℕ) (room : ℕ)
    (lines : List (TaskLine × ProductKind))
    → HasThreeDecimals (task_movement type source target room lines)
unfolding task_movement
task_movement-HasThreeDecimals type source target room lines =
    exact_line-finer (λ (l : Line). l) (movement_lines lines)

consume-IsSound :
    (thresholds : ApprovalThresholds) (stamp : Stamp) (t : Task)
    (lines : List (TaskLine × ProductKind)) (actor : ℕ) (db : Db) {r : Option ℕ × Db}
    → IsSound db
    → consume thresholds stamp t lines actor db ≡ ok r
    → IsSound r.1
unfolding consume
consume-IsSound thresholds stamp t [] actor db {r} sound h =
    let same : db ≡ r.1 = ground arith in rw (← same) sound
consume-IsSound thresholds stamp t (l ∷ ls) actor db sound h =
    post_task-IsSound thresholds stamp _ actor db (task_movement-HasThreeDecimals _ _ _ _ (l ∷ ls))
      sound h

exchange_linen-IsSound :
    (thresholds : ApprovalThresholds) (stamp : Stamp) (t : Task) (ws : List HouseWarehouse)
    (lines : List (TaskLine × ProductKind)) (actor : ℕ) (db : Db) {r : Option ℕ × Db}
    → IsSound db
    → exchange_linen thresholds stamp t ws lines actor db ≡ ok r
    → IsSound r.1
unfolding exchange_linen
exchange_linen-IsSound thresholds stamp t ws [] actor db {r} sound h =
    let same : db ≡ r.1 = ground arith in rw (← same) sound
exchange_linen-IsSound thresholds stamp t ws (l ∷ ls) actor db sound h =
    let (w, there, h1) =
      >>=-eq-ok (required (find is_laundry ws) (http 422 laundry_not_configured)) _ h in
    post_task-IsSound thresholds stamp _ actor db (task_movement-HasThreeDecimals _ _ _ _ (l ∷ ls))
      sound h1

move_room-db :
    (next : Option RoomStatus) (room : Room) (actor : ℕ) (reason : Option ℕ) (h : House)
    → ((move_room next room actor reason h).db ≡ h.db)
      × ((move_room next room actor reason h).tasks ≡ h.tasks)
unfolding move_room
move_room-db none room actor reason h = (refl, refl)
move_room-db (some s) room actor reason h = (refl, refl)

-- What a task that is finished has tested and done.
pub record Finished (thresholds : ApprovalThresholds) (t : Task) (actor : ℕ) (can_manage : Bool)
    (h h' : House) : Type 0 where
  pub started : t.status ≡ in_progress
  pub allowed : (t.assigned_to ≡ some actor) ⊎ (can_manage ≡ true)
  pub stocked : (t.kit_alert && is_checkout t.cleaning_type) ≡ false
  pub sound : IsSound h.db → IsSound h'.db
  pub task : Task
  pub same_task : task.id ≡ t.id
  pub done : task.status ≡ finished
  pub stored : h'.tasks ≡ put_task task h.tasks

finish_task-Finished :
    (thresholds : ApprovalThresholds) (stamp stamp' : Stamp) (t : Task) (actor : ℕ)
    (can_manage : Bool) (h : House) {h' : House}
    → finish_task thresholds stamp stamp' t actor can_manage h ≡ ok h'
    → Finished thresholds t actor can_manage h h'
unfolding finish_task
finish_task-Finished thresholds stamp stamp' t actor can_manage h {h'} e =
    let (u1, on, h1) =
      >>=-eq-ok (throw_if (not (is_in_progress t.status)) 409 task_invalid_state) _ e in
    let (u2, mine, h2) =
      >>=-eq-ok (throw_if (not (given t.assigned_to)) 409 task_unassigned) _ h1 in
    let (u3, may, h3) =
      >>=-eq-ok
        (throw_if (not (same_id t.assigned_to (some actor)) && not can_manage) 403
          insufficient_permissions)
        _ h2 in
    let (u4, kit, h4) =
      >>=-eq-ok (throw_if (t.kit_alert && is_checkout t.cleaning_type) 409 kit_not_available) _
        h3 in
    let (ls, with_kind, h5) = >>=-eq-ok (lines_with_kind t.id h.db.products h.lines) _ h4 in
    let (c, consumed, h6) =
      >>=-eq-ok (consume thresholds stamp t (split_linen_lines ls).0 actor h.db) _ h5 in
    let (x, exchanged, h7) =
      >>=-eq-ok (exchange_linen thresholds stamp' t h.warehouses (split_linen_lines ls).1 actor c.1)
        _ h6 in
    let (room, there, h8) =
      >>=-eq-ok (required (find (λ (r : Room). r.id == t.room) h.rooms) refused) _ h7 in
    let task : Task = record t {
      status = finished;
      finished_at = some stamp.now;
      movement = c.0;
      linen_movement = x.0;
    } in
    let next =
      room_status_after_finish room.status t.cleaning_type t.is_rework t.requires_inspection in
    let before : House = record h { db = x.1; tasks = put_task task h.tasks } in
    let end : move_room next room actor none before ≡ h' = cc in
    let (same_db, same_tasks) = move_room-db next room actor none before in
    record {
      started = in_progress_of t.status on;
      allowed = who can_manage t.assigned_to may;
      stocked = open_guard _ kit;
      sound = (λ s. subst IsSound (sym same_db ∙ ap (λ (x : House). x.db) end) (
          exchange_linen-IsSound thresholds stamp' t h.warehouses _ actor c.1
            (consume-IsSound thresholds stamp t _ actor h.db s consumed) exchanged));
      task = task;
      same_task = refl;
      done = refl;
      stored = ap (λ (x : House). x.tasks) (sym end) ∙ same_tasks;
    }
  where
    in_progress_of :
        (s : TaskStatus) {u : Unit {0}}
        → throw_if {C = Code} (not (is_in_progress s)) 409 task_invalid_state ≡ ok u
        → s ≡ in_progress
    in_progress_of s q = ground arith

    open_guard : (b : Bool) {u : Unit {0}} → throw_if b 409 kit_not_available ≡ ok u → b ≡ false
    open_guard b q = ground arith

    who :
        (b : Bool) (a : Option ℕ) {u : Unit {0}}
        → throw_if (not (same_id a (some actor)) && not b) 403 insufficient_permissions ≡ ok u
        → (a ≡ some actor) ⊎ (b ≡ true)
    who true a q = inr refl
    who false none q = inl (ground arith)
    who false (some a) q = inl (ground arith)

-- A task that is finished, by this or by an earlier call.
finish-cases :
    (thresholds : ApprovalThresholds) (stamp stamp' : Stamp) (id actor : ℕ) (can_manage : Bool)
    (h : House) {h' : House}
    → finish thresholds stamp stamp' id actor can_manage h ≡ ok h'
    → (t : Task) × (find_task id h ≡ ok t)
      × (((t.status ≡ finished) × (h ≡ h')) ⊎ Finished thresholds t actor can_manage h h')
unfolding finish
finish-cases thresholds stamp stamp' id actor can_manage h {h'} e =
    let (t, found, e1) = >>=-eq-ok (find_task id h) _ e in
    (
      t,
      found,
      elim (Bool-cases (is_finished t.status)) [
        | inl past ↦
            let unchanged : ok h ≡ ok h' = rw past at e1 in
            inl (finished_of t.status past, ground arith)
        | inr going ↦
            inr (finish_task-Finished thresholds stamp stamp' t actor can_manage h (rw going at e1))
      ],
    )
  where
    finished_of : (s : TaskStatus) → is_finished s ≡ true → s ≡ finished
    finished_of s q = ground arith

-- A finish of a task that goes through over a sound store (IsSound) leaves it sound; it goes
-- through only on a task that is finished already or in progress, and one in progress is
-- finished only by its assignee or one who may manage, and not for a checkout whose kit is
-- missing.
pub finish-IsSound :
    (thresholds : ApprovalThresholds) (stamp stamp' : Stamp) (id actor : ℕ) (can_manage : Bool)
    (h : House) {h' : House}
    → IsSound h.db
    → finish thresholds stamp stamp' id actor can_manage h ≡ ok h'
    → IsSound h'.db
      × ((t : Task) × (find_task id h ≡ ok t)
          × ((t.status ≡ finished)
              ⊎ ((t.status ≡ in_progress)
                  × ((t.assigned_to ≡ some actor) ⊎ (can_manage ≡ true))
                  × ((t.kit_alert && is_checkout t.cleaning_type) ≡ false))))
finish-IsSound thresholds stamp stamp' id actor can_manage h {h'} sound e =
    let (t, found, c) = finish-cases thresholds stamp stamp' id actor can_manage h e in
    elim c [
      | inl (past, same) ↦ (subst (λ (x : House). IsSound x.db) same sound, (t, found, inl past))
      | inr f ↦ (f.sound sound, (t, found, inr (f.started, f.allowed, f.stocked)))
    ]

find-put_task :
    (id : ℕ) (u t : Task) (ts : List Task)
    → find (λ (x : Task). x.id == id) ts ≡ some t
    → u.id ≡ t.id
    → find (λ (x : Task). x.id == id) (put_task u ts) ≡ some u
unfolding put_task
find-put_task id u t [] f e = cc
find-put_task id u t (x ∷ xs) f e = elim (Bool-cases (x.id == id)) [
  | inl here ↦
      let first : some x ≡ some t = rw here at f in
      let number : x.id ≡ t.id = ground arith in
      let hit : (x.id == u.id) ≡ true = ground arith in
      let found : (u.id == id) ≡ true = ground arith in rw (hit, found) refl
  | inr there ↦
      let rest = rw there at f in
      let number = find_task-id id t xs rest in
      let miss : (x.id == u.id) ≡ false = ground arith in
      rw (miss, there) (find-put_task id u t xs rest e)
]
  where
    find_task-id :
        (i : ℕ) (y : Task) (ys : List Task) → find (λ (z : Task). z.id == i) ys ≡ some y → y.id ≡ i
    find_task-id i y ys q = let (m, k) = find_sound (λ (z : Task). z.id == i) ys q in ground arith

-- Once a task has been finished, finishing it again, by whomever, is answered and changes
-- nothing, so no stock is consumed twice.
pub finish_again :
    (thresholds : ApprovalThresholds) (stamp stamp' other other' : Stamp) (id actor actor' : ℕ)
    (can_manage can_manage' : Bool) (h : House) {h' : House}
    → finish thresholds stamp stamp' id actor can_manage h ≡ ok h'
    → finish thresholds other other' id actor' can_manage' h' ≡ ok h'
unfolding finish find_task
finish_again thresholds stamp stamp' other other' id actor actor' can_manage can_manage' h {h'} e =
    let (t, found, c) = finish-cases thresholds stamp stamp' id actor can_manage h e in
    let there : find (λ (x : Task). x.id == id) h.tasks ≡ some t = ground arith in
    elim c [
      | inl (past, same) ↦
          again t
            (subst (λ (x : House). find (λ (y : Task). y.id == id) x.tasks ≡ some t) same there)
            past
      | inr f ↦
          again f.task
            (ap (find (λ (x : Task). x.id == id)) f.stored
              ∙ find-put_task id f.task t h.tasks there f.same_task)
            f.done
    ]
  where
    again :
        (u : Task)
        → find (λ (x : Task). x.id == id) h'.tasks ≡ some u
        → u.status ≡ finished
        → finish thresholds other other' id actor' can_manage' h' ≡ ok h'
    again u q s = rw (finish, find_task, q, s) refl

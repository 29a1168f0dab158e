-- ===== src/TimeClock/Roster.antt =====
-- The roster of employees from the clocks (modules/time-clock/services/roster-plan.ts). Texts are
-- numbers in the order of the texts, and times are milliseconds.
pub mod Laws
use axzy_ptnv_api.Base.{
  Bool, List, Option, [], false, if◌then◌else◌, leb, ltb, none, not, or_else, some, true, ℕ, ◌&&◌,
  ◌*◌, ◌++◌, ◌+◌, ◌-◌, ◌==◌, ◌||◌, ◌∷◌,
}
use axzy_ptnv_api.Access.Catalog.{distinct}
use axzy_ptnv_api.Base.Lists.{any, includes, keep, length}
use axzy_ptnv_api.Base.Outcome.{ok}
use axzy_ptnv_api.Base.Sort.{sort}

abbrev pub grace_runs : ℕ
grace_runs = 3

abbrev pub grace_ms : ℕ
grace_ms = 24 * 60 * 60 * 1000

pub record RosterReading : Type 0 where
  pub clock_serial : ℕ
  pub ok : Bool
  pub numbers : List ℕ
  pub previous_numbers : List ℕ

pub data LinkStatus : Type 0 where
  linked_active pending_removal : LinkStatus

pub data RosterEvent : Type 0 where
  removal_pending removal_cancelled reappeared : RosterEvent

pub record RosterLink : Type 0 where
  pub employee_number : ℕ
  pub user_active : Bool
  pub status : LinkStatus
  pub missing_runs : ℕ
  pub missing_since : Option ℕ
  pub reappeared_at : Option ℕ

-- A field is none where the change leaves it out.
pub record RosterLinkChange : Type 0 where
  pub employee_number : ℕ
  pub status : Option LinkStatus
  pub missing_runs : Option ℕ
  pub missing_since : Option (Option ℕ)
  pub reappeared_at : Option (Option ℕ)
  pub event : Option RosterEvent

pub record RosterPlan : Type 0 where
  pub no_run : Bool
  pub suspicious : Bool
  pub replace_clocks : List ℕ
  pub added : ℕ
  pub new_numbers : List ℕ
  pub changes : List RosterLinkChange

-- `(previous - read) / previous > 0.2`, multiplied out.
unfoldable pub dropped : RosterReading → Bool
dropped r =
    r.ok
    && ltb 0 (length r.previous_numbers)
    && ltb (length r.previous_numbers) (5 * (length r.previous_numbers - length r.numbers))

unfoldable pub is_trusted : RosterReading → Bool
is_trusted r = r.ok && not (dropped r)

unfoldable pub numbers_of_trusted : List RosterReading → List ℕ
numbers_of_trusted [] = []
numbers_of_trusted (r ∷ rs) =
    let rest = numbers_of_trusted rs in if is_trusted r then r.numbers ++ rest else rest

unfoldable pub numbers_kept : List RosterReading → List ℕ
numbers_kept [] = []
numbers_kept (r ∷ rs) =
    let rest = numbers_kept rs in if is_trusted r then rest else r.previous_numbers ++ rest

unfoldable pub present_numbers : List RosterReading → List ℕ
present_numbers readings = distinct (numbers_of_trusted readings ++ numbers_kept readings)

unfoldable pub count_added : List RosterReading → ℕ
count_added [] = 0
count_added (r ∷ rs) =
    let rest = count_added rs in
    if is_trusted r
    then length (keep (λ n. not (includes r.previous_numbers n)) r.numbers) + rest
    else rest

abbrev pub no_change : ℕ → RosterLinkChange
no_change employee_number = record {
  employee_number = employee_number;
  status = none;
  missing_runs = none;
  missing_since = none;
  reappeared_at = none;
  event = none;
}

abbrev pub is_pending : LinkStatus → Bool
is_pending linked_active = false
is_pending pending_removal = true

abbrev pub is_some {ℓ} : {A : Type ℓ} → Option A → Bool
is_some none = false
is_some (some a) = true

-- The four steps of `onPresent`, in order.
unfoldable pub cancel_removal : RosterLink → RosterLinkChange → RosterLinkChange
cancel_removal link out =
    if is_pending link.status
    then record out { status = some linked_active; event = some removal_cancelled }
    else out

unfoldable pub reset_missing : RosterLink → RosterLinkChange → RosterLinkChange
reset_missing link out =
    if ltb 0 link.missing_runs
    then record out { missing_runs = some 0; missing_since = some none }
    else out

unfoldable pub mark_reappeared : RosterLink → ℕ → RosterLinkChange → RosterLinkChange
mark_reappeared link now out =
    if not link.user_active && not (is_some link.reappeared_at)
    then record out { reappeared_at = some (some now); event = some (or_else out.event reappeared) }
    else out

unfoldable pub clear_reappeared : RosterLink → RosterLinkChange → RosterLinkChange
clear_reappeared link out =
    if link.user_active && is_some link.reappeared_at
    then record out { reappeared_at = some none }
    else out

unfoldable pub on_present : RosterLink → ℕ → RosterLinkChange
on_present link now = clear_reappeared link (
    mark_reappeared link now
      (reset_missing link (cancel_removal link (no_change link.employee_number))))

unfoldable pub grace_met : RosterLink → ℕ → Bool
grace_met link now =
    leb grace_runs (link.missing_runs + 1) && leb (or_else link.missing_since now + grace_ms) now

unfoldable pub on_absent : RosterLink → ℕ → RosterLinkChange
on_absent link now =
    if grace_met link now && not (is_pending link.status)
    then record {
      employee_number = link.employee_number;
      status = some pending_removal;
      missing_runs = some (link.missing_runs + 1);
      missing_since = some (some (or_else link.missing_since now));
      reappeared_at = none;
      event = some removal_pending;
    }
    else record {
      employee_number = link.employee_number;
      status = none;
      missing_runs = some (link.missing_runs + 1);
      missing_since = some (some (or_else link.missing_since now));
      reappeared_at = none;
      event = none;
    }

-- The loop over the links.
unfoldable pub link_changes : List ℕ → Bool → ℕ → List RosterLink → List RosterLinkChange
link_changes present suspicious now [] = []
link_changes present suspicious now (link ∷ links) =
    let rest = link_changes present suspicious now links in
    if includes present link.employee_number
    then on_present link now ∷ rest
    else if link.user_active && not suspicious
    then on_absent link now ∷ rest
    else rest

-- `Object.keys(c).length > 1`
unfoldable pub has_changes : RosterLinkChange → Bool
has_changes c =
    is_some c.status
    || is_some c.missing_runs
    || is_some c.missing_since
    || is_some c.reappeared_at
    || is_some c.event

unfoldable pub serials : List RosterReading → List ℕ
serials [] = []
serials (r ∷ rs) = r.clock_serial ∷ serials rs

unfoldable pub linked_numbers : List RosterLink → List ℕ
linked_numbers [] = []
linked_numbers (l ∷ ls) = l.employee_number ∷ linked_numbers ls

unfoldable pub plan_roster : ℕ → List RosterReading → List RosterLink → RosterPlan
plan_roster now readings links =
    if length (keep is_trusted readings) == 0
    then record {
      no_run = true;
      suspicious = any dropped readings;
      replace_clocks = [];
      added = 0;
      new_numbers = [];
      changes = [];
    }
    else record {
      no_run = false;
      suspicious = any dropped readings;
      replace_clocks = serials (keep is_trusted readings);
      added = count_added readings;
      new_numbers =
          sort leb (keep (λ n. not (includes (linked_numbers links) n)) (present_numbers readings));
      changes =
          keep has_changes
            (link_changes (present_numbers readings) (any dropped readings) now links);
    }

-- The update of a link by a change, in `TimeClockRosterService.run`: the fields the change has.
unfoldable pub apply_change : RosterLink → RosterLinkChange → RosterLink
apply_change link change = record link {
  status = or_else change.status link.status;
  missing_runs = or_else change.missing_runs link.missing_runs;
  missing_since = or_else change.missing_since link.missing_since;
  reappeared_at = or_else change.reappeared_at link.reappeared_at;
}

-- ===== src/TimeClock/Tests.antt =====
-- Two clocks and their people, and the theorems at them.
use axzy_ptnv_api.Base.{Bool, List, [], false, none, not, some, true, ℕ, ◌∷◌, ◌≡◌}
use axzy_ptnv_api.TimeClock.Roster.{
  RosterLink, RosterLinkChange, RosterReading, apply_change, is_some, linked_active, on_present,
  pending_removal, removal_cancelled, removal_pending,
}
use axzy_ptnv_api.TimeClock.Roster.Laws.{apply_change-on_present}

abbrev reading : ℕ → Bool → List ℕ → List ℕ → RosterReading
reading serial was_read numbers previous = record {
  clock_serial = serial;
  ok = was_read;
  numbers = numbers;
  previous_numbers = previous;
}

abbrev readings : List RosterReading
readings =
    reading 1 true (5 ∷ 6 ∷ 8 ∷ 9 ∷ 10 ∷ []) (5 ∷ 6 ∷ 7 ∷ 8 ∷ 9 ∷ [])
    ∷ reading 2 false [] (3 ∷ [])
    ∷ []

-- Nobody has seen 7 for two runs; 6 was awaiting removal.
abbrev missing_person : RosterLink
missing_person = record {
  employee_number = 7;
  user_active = true;
  status = linked_active;
  missing_runs = 2;
  missing_since = some 1000;
  reappeared_at = none;
}

abbrev back_again : RosterLink
back_again = record {
  employee_number = 6;
  user_active = true;
  status = pending_removal;
  missing_runs = 4;
  missing_since = some 500;
  reappeared_at = none;
}

abbrev links : List RosterLink
links = missing_person ∷ back_again ∷ []

abbrev day_later : ℕ
day_later = 86401000

abbrev to_remove : RosterLinkChange
to_remove = record {
  employee_number = 7;
  status = some pending_removal;
  missing_runs = some 3;
  missing_since = some (some 1000);
  reappeared_at = none;
  event = some removal_pending;
}

abbrev to_keep : RosterLinkChange
to_keep = record {
  employee_number = 6;
  status = some linked_active;
  missing_runs = some 0;
  missing_since = some none;
  reappeared_at = none;
  event = some removal_cancelled;
}

apply_change-on_present_example :
    ((apply_change back_again (on_present back_again 700)).status ≡ linked_active)
    × ((apply_change back_again (on_present back_again 700)).missing_runs ≡ 0)
    × ((apply_change back_again (on_present back_again 700)).missing_since ≡ none)
    × (is_some (apply_change back_again (on_present back_again 700)).reappeared_at ≡ not true)
apply_change-on_present_example = apply_change-on_present back_again 700 (λ h. cc)

-- ===== src/TimeClock/Roster/Laws.antt =====
-- When a removal becomes pending, and whom a run sees.
use axzy_ptnv_api.Base.{List, [], arith, false, none, not, refl, true, ℕ, ◌∷◌, ◌≡◌}
use axzy_ptnv_api.Base.Lists.{All, includes, keep}
use axzy_ptnv_api.TimeClock.Roster.{
  RosterLink, RosterReading, apply_change, cancel_removal, clear_reappeared, grace_met, is_some,
  is_trusted, linked_active, mark_reappeared, on_present, plan_roster, reset_missing,
}

-- A link that a run may put up for removal.
abbrev pub IsAwaited : List ℕ → ℕ → RosterLink → Type 0
IsAwaited present now link =
    (link.user_active ≡ true)
    × (includes present link.employee_number ≡ false)
    × (link.status ≡ linked_active)
    × (grace_met link now ≡ true)

-- A run without a reading that it trusts says so, replaces no clock and changes no link.
pub plan_roster-no_run :
    (now : ℕ) (readings : List RosterReading) (links : List RosterLink)
    → All (λ r. is_trusted r ≡ false) readings
    → ((plan_roster now readings links).no_run ≡ true)
      × ((plan_roster now readings links).replace_clocks ≡ [])
      × ((plan_roster now readings links).changes ≡ [])
unfolding plan_roster
plan_roster-no_run now readings links h = rw (none_kept readings h) (refl, refl, refl)
  where
    none_kept :
        (rs : List RosterReading) → All (λ r. is_trusted r ≡ false) rs → keep is_trusted rs ≡ []
    none_kept [] k = refl
    none_kept (r ∷ rs) k = rw (k.0) (none_kept rs k.1)

-- Once the change for a person that a clock shows is stored, the link is active, no run is
-- missed, the start of the absence is cleared, given that a link without missed runs has none,
-- and the person is marked as reappeared exactly when the user is not active.
pub apply_change-on_present :
    (link : RosterLink) (now : ℕ)
    → (link.missing_runs ≡ 0 → link.missing_since ≡ none)
    → ((apply_change link (on_present link now)).status ≡ linked_active)
      × ((apply_change link (on_present link now)).missing_runs ≡ 0)
      × ((apply_change link (on_present link now)).missing_since ≡ none)
      × (is_some (apply_change link (on_present link now)).reappeared_at ≡ not link.user_active)
unfolding apply_change on_present clear_reappeared mark_reappeared reset_missing cancel_removal
apply_change-on_present link now h = ground arith

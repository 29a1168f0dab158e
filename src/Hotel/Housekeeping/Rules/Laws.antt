-- ===== src/Hotel/Housekeeping/Rules/Laws.antt =====
-- Which lines of a kit apply to which cleaning.
use axzy_ptnv_api.Base.{
  List, Option, [], arith, false, refl, some, true, ℕ, ◌*◌, ◌+◌, ◌∷◌, ◌≡◌, ◌≤◌,
}
use axzy_ptnv_api.Base.Lists.{In, In-keep, keep-In}
use axzy_ptnv_api.Hotel.Housekeeping.Rules.{
  Frequency, KitLineRule, applies, checkout, days_passed, every_n_days, resolve_kit_lines, stay,
  turndown,
}

applies-turndown :
    (f : Frequency) (every last : Option ℕ) (now : ℕ) → applies turndown f every last now ≡ false
unfolding applies
applies-turndown f every last now = ground arith

applies-checkout :
    (f : Frequency) (every last : Option ℕ) (now : ℕ) → applies checkout f every last now ≡ true
unfolding applies
applies-checkout f every last now = ground arith

module _ (last : ℕ → Option ℕ) (now : ℕ) where
  no_turndown_lines : (lines : List KitLineRule) → resolve_kit_lines lines turndown last now ≡ []
  unfolding resolve_kit_lines
  no_turndown_lines [] = refl
  no_turndown_lines (l ∷ ls) =
      rw (applies-turndown l.frequency l.every_n_days (last l.product) now) (no_turndown_lines ls)

  -- No kit line applies to a turndown, and every line that applies to a stay applies to a
  -- checkout.
  pub resolve_kit_lines-stay :
      (lines : List KitLineRule)
      → (resolve_kit_lines lines turndown last now ≡ [])
        × ((l : KitLineRule)
            → In l (resolve_kit_lines lines stay last now)
            → In l (resolve_kit_lines lines checkout last now))
  unfolding resolve_kit_lines
  resolve_kit_lines-stay lines = (
    no_turndown_lines lines,
    λ l m.
        let (i, a) =
          In-keep
            (λ (x : KitLineRule). applies stay x.frequency x.every_n_days (last x.product) now) l
            lines m in
        keep-In
          (λ (x : KitLineRule). applies checkout x.frequency x.every_n_days (last x.product) now) l
          lines i (applies-checkout l.frequency l.every_n_days (last l.product) now),
  )

  -- A kit line for every n days whose product was last used at least n whole days ago applies
  -- to a stay.
  pub resolve_kit_lines-every_n_days :
      (lines : List KitLineRule) (l : KitLineRule) (used n : ℕ)
      → In l lines
      → l.frequency ≡ every_n_days
      → l.every_n_days ≡ some n
      → last l.product ≡ some used
      → used + n * 86400000 ≤ now
      → In l (resolve_kit_lines lines stay last now)
  unfolding resolve_kit_lines applies
  resolve_kit_lines-every_n_days lines l used n i f e u h =
      keep-In (λ (x : KitLineRule). applies stay x.frequency x.every_n_days (last x.product) now) l
        lines i (rw (f, e, u) (days used n h))
    where
      days : (a b : ℕ) → a + b * 86400000 ≤ now → days_passed a now b ≡ true
      days a b k = ground arith

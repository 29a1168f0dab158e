-- ===== src/Hotel/Soundness/Settled.antt =====
-- The ledger when a movement's status is updated (`cancel`, `approve` and `reject`).
use axzy_ptnv_api.Base.{
  Bool-cases, List, [], ap, if◌then◌else◌, inl, inr, map, refl, some, ℕ, ◌==◌, ◌∷◌, ◌≡◌,
}
use axzy_ptnv_api.Base.Int.{int_laws, neg_part, pos, pos_part, ℤ, ◌+ℤ◌}
use axzy_ptnv_api.Base.Lists.{All, In-All, find_sound}
use axzy_ptnv_api.Hotel.Decision.{find_movement, settle}
use axzy_ptnv_api.Hotel.Positions.{Key}
use axzy_ptnv_api.Hotel.Stock.{active_ledger, ledger_line, ledger_movement}
use axzy_ptnv_api.Hotel.Tables.{Movement, Status}
use axzy_ptnv_api.Hotel.Transaction.{is_active}
use axzy_ptnv_api.Hotel.Positions.Laws.{ledger_effect, lines_effect}
use axzy_ptnv_api.Hotel.Soundness.Invariant.{MovementIsShaped}

-- What a movement contributes to a position under a status.
unfoldable pub contribution : Key → Movement → Status → ℤ
contribution k m status =
    if is_active status then lines_effect k (ledger_movement m) (map ledger_line m.lines) else pos 0

pub ledger_effect-cons :
    (k : Key) (m : Movement) (ms : List Movement)
    → ledger_effect k (active_ledger (m ∷ ms))
      ≡ contribution k m m.status +ℤ ledger_effect k (active_ledger ms)
unfolding ledger_effect active_ledger contribution ledger_movement
ledger_effect-cons k m ms = elim (Bool-cases (is_active m.status)) [
  | inl on ↦ rw on refl
  | inr off ↦ rw off (omega int_laws)
]

abbrev settled : Movement → Status → ℕ → Movement
settled m status actor = record m { status = status; approved_by = some actor }

contribution-settled :
    (k : Key) (m : Movement) (status : Status) (actor : ℕ)
    → contribution k (settled m status actor) status ≡ contribution k m status
unfolding contribution ledger_movement
contribution-settled k m status actor = refl

-- The new ledger has the movement's contribution under the new status in place of the old one.
pub settle_effect :
    (k : Key) (id : ℕ) (status : Status) (actor : ℕ) (ms : List Movement) {m : Movement}
    → find_movement id ms ≡ some m
    → ledger_effect k (active_ledger (settle id status actor ms)) +ℤ contribution k m m.status
      ≡ ledger_effect k (active_ledger ms) +ℤ contribution k m status
unfolding settle find_movement
settle_effect k id status actor [] h = cc
settle_effect k id status actor (n ∷ ms) {m} h = elim (Bool-cases (n.id == id)) [
  | inl same ↦
      let here : some n ≡ some m = rw same at h in
      let e : n ≡ m = cc in
      rw (same, ← e)
        (rw (ledger_effect-cons k (settled n status actor) ms) (
          rw (ledger_effect-cons k n ms)
            (rw (contribution-settled k n status actor) (omega int_laws))))
  | inr other ↦
      let later : find_movement id ms ≡ some m = rw other at h in
      rw other (
        rw (ledger_effect-cons k n (settle id status actor ms)) (
          rw (ledger_effect-cons k n ms) (
            omega (
              int_laws,
              ap pos_part (settle_effect k id status actor ms later),
              ap neg_part (settle_effect k id status actor ms later),
            ))))
]

pub settle-shaped :
    (id : ℕ) (status : Status) (actor : ℕ) (ms : List Movement)
    → All MovementIsShaped ms
    → All MovementIsShaped (settle id status actor ms)
unfolding settle
settle-shaped id status actor [] h = tt
settle-shaped id status actor (n ∷ ms) h = elim (Bool-cases (n.id == id)) [
  | inl same ↦ rw same (record { source = h.0.source; target = h.0.target }, h.1)
  | inr other ↦ rw other (h.0, settle-shaped id status actor ms h.1)
]

pub find_movement-shaped :
    (id : ℕ) (ms : List Movement) {m : Movement}
    → All MovementIsShaped ms
    → find_movement id ms ≡ some m
    → MovementIsShaped m
unfolding find_movement
find_movement-shaped id ms {m} h f =
    In-All MovementIsShaped m ms (find_sound (λ n. n.id == id) ms f).0 h

-- ===== src/Market/Lifecycle.antt =====
-- `transitionMarket`, `reopenMarket`, `proposeResolution` and the gate of `resolveMarket`
-- (src/markets/parimutuel.engine.ts). Instants are milliseconds.
use text.Mathlib.Text.{starts_with}
use oro_backend.Base.{
  ℕ, ◌+◌, ◌*◌, Bool, true, false, not, ◌&&◌, ◌==◌, Option, none, some, [], ◌∷◌, ltb, leb, is_some,
  holds_key, includes, if◌then◌else◌,
}
use oro_backend.Entities.{MarketStatus, upcoming, opened, closed, resolving, resolved, settled}
use oro_backend.Market.State.{Market}

pub data Error : Type 0 where
  market_not_found not_reopenable not_closed has_proposal invalid_date not_in_future : Error
  proposed_outcome_unknown already_settled not_resolving different_outcome : Error
  winning_outcome_unknown window_open : Error
  forbidden_transition : MarketStatus → MarketStatus → Error

pub data Result (A : Type 0) : Type 0 where
  ok : A → Result A
  err : Error → Result A

-- `VALID_TRANSITIONS[status].includes(to)`.
unfoldable pub is_valid_transition : MarketStatus → MarketStatus → Bool
is_valid_transition upcoming opened = true
is_valid_transition opened closed = true
is_valid_transition closed resolving = true
is_valid_transition resolved settled = true
is_valid_transition _ _ = false

unfoldable pub transition_market : Option Market → MarketStatus → Result Market
unfolding is_valid_transition
transition_market none to = err market_not_found
transition_market (some m) to =
    if is_valid_transition m.status to
    then ok (record m { status = to })
    else err (forbidden_transition m.status to)

abbrev pub is_closed : MarketStatus → Bool
is_closed closed = true
is_closed _ = false

abbrev is_world_cup : Market → Bool
is_world_cup m = elim m.subcategory [ none ↦ false | some s ↦ starts_with "wc-" s ]

-- `none` is a date that does not parse.
unfoldable pub reopen_market : Option Market → Option ℕ → ℕ → Result Market
reopen_market none new_closes_at now = err market_not_found
reopen_market (some m) new_closes_at now =
    if not (is_world_cup m)
    then err not_reopenable
    else if not (is_closed m.status)
    then err not_closed
    else if is_some m.proposed_outcome
    then err has_proposal
    else elim new_closes_at [
      | none ↦ err invalid_date
      | some t ↦
          if leb t now
          then err not_in_future
          else ok (record m {
            status = opened;
            closes_at = t;
            proposed_outcome = none;
            dispute_deadline_at = none;
          })
    ]

abbrev pub window_of : ℕ → ℕ
window_of minutes = if includes (10 ∷ 20 ∷ 30 ∷ 60 ∷ 120 ∷ []) minutes then minutes else 60

unfoldable pub propose_resolution : Option Market → ℕ → ℕ → ℕ → Result Market
propose_resolution none proposed minutes now = err market_not_found
propose_resolution (some m) proposed minutes now =
    if not (is_closed m.status)
    then err not_closed
    else if not (includes m.outcomes proposed)
    then err proposed_outcome_unknown
    else ok (record m {
      proposed_outcome = some proposed;
      window_minutes = some (window_of minutes);
      dispute_deadline_at = some (now + window_of minutes * 60 * 1000);
      status = resolving;
    })

abbrev pub window_still_open : Market → ℕ → Bool
window_still_open m now = elim m.dispute_deadline_at [
  | none ↦ false
  | some deadline ↦ ltb now deadline
]

-- The winner is checked, then the window, then the market is claimed.
abbrev claim : Market → ℕ → Bool → ℕ → ℕ → Result Market
claim m winning is_recovery objections now =
    if not (includes m.outcomes winning)
    then err winning_outcome_unknown
    else if window_still_open m now && not is_recovery && objections == 0
    then err window_open
    else ok (record m { status = resolved; resolved_outcome = some winning })

-- `resolveMarket` up to the point where the winner is fixed: `has_settlement` tells whether a
-- settlement row exists, `objections` counts the disputes of the market.
unfoldable pub resolve_gate : Option Market → ℕ → Bool → ℕ → ℕ → Result Market
resolve_gate none winning has_settlement objections now = err market_not_found
resolve_gate (some m) winning has_settlement objections now = elim m.status [
  | resolving ↦ claim m winning false objections now
  | resolved ↦
      if has_settlement
      then err already_settled
      else if holds_key m.resolved_outcome winning
      then claim m winning true objections now
      else err different_outcome
  | _ ↦ err not_resolving
]

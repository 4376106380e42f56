-- ===== src/Examples/Tables.antt =====
-- Amounts as text, rebuilt rows and the table of a group.
use oro_backend.Base.{◌+◌, ℕ, ◌≡◌, ◌↔◌, refl, none, some, List, [], ◌∷◌}
use oro_backend.Base.Int.{◌-ℤ◌}
use oro_backend.Usdt.{to_base_units, from_base_units}
use oro_backend.Usdt.RoundTrip.{to_base_units-from_base_units}
use oro_backend.Ledger.{Transaction, btn_currency}
use oro_backend.Ledger.Balance.{ledger_balance}
use oro_backend.Ledger.Rebuild.{rebuild_running_balances}
use oro_backend.Ledger.Rebuilt.{
  IsRunningFor, rebuild_running_balances-IsRunningFor, rebuild_running_balances_iff,
}
use oro_backend.Standings.{
  Team, Fixture, tally_for, tally_of, team_ids, fallback_order, order_level_teams, group_order,
}
use oro_backend.Standings.Ranking.{IsRanked, group_order-IsRanked}
use oro_backend.Standings.Counting.{occurs}
use oro_backend.Standings.Sorting.{group_order-occurs}
use oro_backend.Standings.Enough.{order_level_teams_enough}
use oro_backend.Examples.Duels.{deposit_of}

to_base_units-from_base_units_example : to_base_units (from_base_units 1500000) ≡ some 1500000
to_base_units-from_base_units_example = to_base_units-from_base_units 1500000

abbrev team : ℕ → Team
team id = record { id = id; name = "team"; flag_url = none; sort_order = id }

abbrev match_result : ℕ → ℕ → ℕ → ℕ → Fixture
match_result home away goals against = record {
  home_team = home;
  away_team = away;
  home_score = some goals;
  away_score = some against;
}

abbrev four_teams : List Team
four_teams = team 1 ∷ team 2 ∷ team 3 ∷ team 4 ∷ []

-- Each of the first three beats the next in turn, and the fourth has not played.
abbrev round_robin : List Fixture
round_robin = match_result 1 2 1 0 ∷ match_result 2 3 2 0 ∷ match_result 3 1 1 0 ∷ []

-- Two goals against one put the second team first.
round_robin_order : group_order four_teams round_robin ≡ some (2 ∷ 1 ∷ 3 ∷ 4 ∷ [])
unfolding group_order tally_for fallback_order ◌-ℤ◌
round_robin_order = refl

group_order-occurs_example :
    (order : List ℕ) × (group_order four_teams round_robin ≡ some order)
    × ((x : ℕ) → occurs x order ≡ occurs x (1 ∷ 2 ∷ 3 ∷ 4 ∷ []))
group_order-occurs_example = group_order-occurs four_teams round_robin

group_order-IsRanked_example :
    (order : List ℕ) × (group_order four_teams round_robin ≡ some order)
    × IsRanked (λ id. (tally_of (tally_for (team_ids four_teams) round_robin) id).points) order
group_order-IsRanked_example = group_order-IsRanked four_teams round_robin

order_level_teams_enough_example :
    (order : List ℕ) × ((extra : ℕ)
      → order_level_teams
          (extra + 4)
          (1 ∷ 2 ∷ 3 ∷ [])
          (tally_for (1 ∷ 2 ∷ 3 ∷ []) round_robin)
          round_robin
          four_teams
        ≡ some order)
order_level_teams_enough_example =
    order_level_teams_enough (1 ∷ 2 ∷ 3 ∷ []) (tally_for (1 ∷ 2 ∷ 3 ∷ []) round_robin) round_robin
      four_teams

-- A row that was put in below has left the upper one stale.
abbrev stale_rows : List Transaction
stale_rows = deposit_of 2 30 ∷ deposit_of 2 100 ∷ []

rebuild_running_balances-IsRunningFor_example :
    let after = (rebuild_running_balances stale_rows 2 btn_currency).1 in
    IsRunningFor 2 btn_currency after
    × (ledger_balance after 2 btn_currency ≡ ledger_balance stale_rows 2 btn_currency)
    × (rebuild_running_balances after 2 btn_currency ≡ (0, after))
rebuild_running_balances-IsRunningFor_example =
    rebuild_running_balances-IsRunningFor stale_rows 2 btn_currency 2 btn_currency

rebuild_running_balances_iff_example :
    (IsRunningFor 2 btn_currency stale_rows)
    ↔ ((rebuild_running_balances stale_rows 2 btn_currency).0 ≡ 0)
rebuild_running_balances_iff_example = rebuild_running_balances_iff stale_rows 2 btn_currency

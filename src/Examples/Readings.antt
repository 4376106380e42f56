-- ===== src/Examples/Readings.antt =====
-- Results of matches, streaks and payouts.
use oro_backend.Base.{
  ℕ, ◌+◌, ◌*◌, ◌≤◌, ◌<◌, ◌==◌, ◌≡◌, ◌≢◌, ◌↔◌, refl, ◌⊎◌, inl, inr, Bool, true, false, Option, none,
  some, List, [], ◌∷◌, arith, length, sum,
}
use oro_backend.Base.Int.{pos}
use oro_backend.Fixture.{MatchData, FixtureWinner, is_fixture_stable, Reason}
use oro_backend.Fixture.Settling.{is_fixture_stable_after_wait}
use oro_backend.Duel.{RawInventory}
use oro_backend.Streak.{User, update_user, get_streak_info}
use oro_backend.Streak.Snapshot.{get_streak_info-update_user}
use oro_backend.Payout.{half_up, compute_winner_payouts}
use oro_backend.Payout.Bounds.{overpaid_by_rounding}

abbrev match_of : Option FixtureWinner → MatchData
match_of winner = record {
  status = some "FINISHED";
  home = some 2;
  away = some 1;
  winner = winner;
  home_name = some "Paro";
  away_name = some "Thimphu";
  last_updated = some 1_000_000;
  utc_date = some 0;
}

revised_lately :
    (is_fixture_stable (match_of none) 1_030_000 3_600_000).reason ≡ Reason.revised (pos 0) (pos 60)
unfolding is_fixture_stable oro_backend.Base.Int.◌-ℤ◌
revised_lately = refl

is_fixture_stable_after_wait_example :
    (is_fixture_stable (match_of none) (1_030_000 + 60 * 60000) 3_600_000).stable ≡ true
is_fixture_stable_after_wait_example =
    is_fixture_stable_after_wait (match_of none) 1_030_000 3_600_000 60 (pos 0) revised_lately

abbrev newcomer : User
newcomer = record {
  bet_streak_count = 0;
  bet_streak_last_at = none;
  streak_boost_used = false;
  card_inventory = RawInventory.null;
}

abbrev sixth_day : User
sixth_day = record newcomer {
  bet_streak_count = 6;
  bet_streak_last_at = some 105;
  card_inventory = RawInventory.object none (some 1) none;
}

-- The seventh day's bet, whose boost the snapshot does not show.
get_streak_info-update_user_example :
    let r = update_user sixth_day 106 in
    let info = get_streak_info (some r.1) 106 in
    (info.bet_streak_count ≡ r.0.new_streak)
    × (info.day_in_cycle ≡ r.0.day_in_cycle)
    × (info.boost_ready ≡ false)
get_streak_info-update_user_example = get_streak_info-update_user sixth_day 106 (λ e. ground arith)

-- Three stakes of 400.00 against 50.00: the pool of 1250.00 pays out 1250.01.
overpaid_by_rounding_example :
    (compute_winner_payouts half_up (record {
      stakes = 40000 ∷ 40000 ∷ 40000 ∷ [];
      payout_num = 115000;
      payout_den = 1;
      total_pool = 125000;
    })).total
    ≡ 125001
overpaid_by_rounding_example = overpaid_by_rounding half_up 40000 1666 115000 1 (omega arith)

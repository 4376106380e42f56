-- ===== src/Fixture/Stability.antt =====
-- `isFixtureStable` and its fallback (src/markets/fixture-result.util.ts).
use oro_backend.Base.{ℕ, ◌+◌, ◌*◌, ◌/◌, Bool, true, false, none, some, if◌then◌else◌}
use oro_backend.Base.Int.{ℤ, pos, ◌-ℤ◌, ltb_ℤ, leb_ℤ}
use oro_backend.Fixture.Result.{MatchData}

abbrev pub proposal_min_stable_ms : ℕ
proposal_min_stable_ms = 60 * 60 * 1000

-- 3.5 hours.
abbrev pub proposal_fallback_min_age_ms : ℕ
proposal_fallback_min_age_ms = 7 * 60 * 60 * 1000 / 2

pub data Why : Type 0 where
  implausibly_ahead no_last_updated : Why

pub data Reason : Type 0 where
  unchanged_for : ℤ → Reason
  revised : ℤ → ℤ → Reason
  cannot_judge : Why → Reason
  past_kickoff : Why → ℤ → Reason
  waits_for_kickoff : Why → ℤ → ℤ → Reason

pub record StabilityReadout : Type 0 where
  pub stable : Bool
  pub reason : Reason

abbrev minute_ms : ℕ
minute_ms = 60000

-- `Math.floor(ms / 60_000)` and `Math.ceil(ms / 60_000)` of a signed span.
abbrev pub floor_minutes : ℤ → ℤ
floor_minutes (pos n) = pos (n / 60000)
floor_minutes (ℤ.negsuc n) = pos 0 -ℤ pos ((n + 1 + 59999) / 60000)

abbrev pub ceil_minutes : ℤ → ℤ
ceil_minutes (pos n) = pos ((n + 59999) / 60000)
ceil_minutes (ℤ.negsuc n) = pos 0 -ℤ pos ((n + 1) / 60000)

abbrev max_zero : ℤ → ℤ
max_zero (pos n) = pos n
max_zero (ℤ.negsuc n) = pos 0

unfoldable pub from_kickoff : MatchData → ℕ → Why → StabilityReadout
from_kickoff m now why = elim m.utc_date [
  | none ↦ record { stable = false; reason = cannot_judge why }
  | some kickoff ↦
      let since = pos now -ℤ pos kickoff in
      if leb_ℤ (pos proposal_fallback_min_age_ms) since
      then record { stable = true; reason = past_kickoff why (floor_minutes since) }
      else record {
        stable = false;
        reason =
            waits_for_kickoff why (floor_minutes since)
              (ceil_minutes (pos proposal_fallback_min_age_ms -ℤ since));
      }
]

unfoldable pub is_fixture_stable : MatchData → ℕ → ℕ → StabilityReadout
unfolding from_kickoff
is_fixture_stable m now min_stable = elim m.last_updated [
  | none ↦ from_kickoff m now no_last_updated
  | some updated ↦
      let quiet_for = pos now -ℤ pos updated in
      if ltb_ℤ quiet_for (pos 0 -ℤ pos min_stable)
      then from_kickoff m now implausibly_ahead
      else if leb_ℤ (pos min_stable) quiet_for
      then record { stable = true; reason = unchanged_for (floor_minutes quiet_for) }
      else record {
        stable = false;
        reason =
            revised (max_zero (floor_minutes quiet_for))
              (ceil_minutes (pos min_stable -ℤ quiet_for));
      }
]

-- ===== src/Fixture/Result.antt =====
-- `isFinalStatus` and `readFixtureResult` (src/markets/fixture-result.util.ts).
use Prim.Native.String.{String}
use text.Mathlib.Text.{◌==◌ as str_eq}
use oro_backend.Base.{
  ℕ, ◌+◌, Bool, true, false, not, ◌&&◌, Option, none, some, List, [], ◌∷◌, ltb, get_or, exists_in,
  if◌then◌else◌,
}

pub data FixtureWinner : Type 0 where
  home_team away_team draw : FixtureWinner

pub record FixtureResult : Type 0 where
  pub winner : FixtureWinner
  pub home_team_name : String
  pub away_team_name : String
  pub home_score : ℕ
  pub away_score : ℕ
  pub total_goals : ℕ

-- Why a record is not usable.
pub data Refusal : Type 0 where
  not_finished : String → Refusal
  score_incomplete : Option ℕ → Option ℕ → Refusal
  no_verdict : Refusal
  contradicts : FixtureWinner → ℕ → ℕ → FixtureWinner → Refusal

pub data FixtureReadout : Type 0 where
  ok : FixtureResult → FixtureReadout
  refused : Refusal → Bool → FixtureReadout

-- What the reads of `matchData` find. `status` is the text, if it is one; a field that is
-- absent, or of another type, is `none`.
pub record MatchData : Type 0 where
  pub status : Option String
  pub home : Option ℕ
  pub away : Option ℕ
  pub winner : Option FixtureWinner
  pub home_name : Option String
  pub away_name : Option String
  pub last_updated : Option ℕ
  pub utc_date : Option ℕ

abbrev pub final_statuses : List String
final_statuses = "FINISHED" ∷ "AWARDED" ∷ []

unfoldable pub is_final_status : Option String → Bool
is_final_status none = false
is_final_status (some status) = exists_in (λ s. str_eq s status) final_statuses

abbrev pub same_winner : FixtureWinner → FixtureWinner → Bool
same_winner home_team home_team = true
same_winner away_team away_team = true
same_winner draw draw = true
same_winner _ _ = false

-- What the goals say.
unfoldable pub implied_winner : ℕ → ℕ → FixtureWinner
implied_winner home away =
    if ltb away home then home_team else if ltb home away then away_team else draw

-- The last steps, on a record with both scores and a verdict.
unfoldable pub read_verdict : MatchData → String → ℕ → ℕ → FixtureWinner → FixtureReadout
unfolding implied_winner
read_verdict m status home away winner =
    let implied = implied_winner home away in
    if not (str_eq status "AWARDED") && not (same_winner implied winner)
    then refused (contradicts winner home away implied) true
    else ok (record {
      winner = winner;
      home_team_name = get_or m.home_name "";
      away_team_name = get_or m.away_name "";
      home_score = home;
      away_score = away;
      total_goals = home + away;
    })

-- The reads of the scores and of the verdict.
unfoldable pub read_scores : MatchData → String → FixtureReadout
unfolding read_verdict
read_scores m status = elim m.home [
  | none ↦ refused (score_incomplete m.home m.away) false
  | some home ↦ elim m.away [
    | none ↦ refused (score_incomplete m.home m.away) false
    | some away ↦ elim m.winner [
      | none ↦ refused no_verdict false
      | some winner ↦ read_verdict m status home away winner
    ]
  ]
]

abbrev pub is_final : String → Bool
is_final status = exists_in (λ s. str_eq s status) final_statuses

unfoldable pub read_fixture_result : MatchData → FixtureReadout
unfolding read_scores
read_fixture_result m =
    let status = get_or m.status "" in
    if is_final status then read_scores m status else refused (not_finished status) false

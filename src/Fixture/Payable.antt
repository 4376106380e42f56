-- ===== src/Fixture/Payable.antt =====
-- When a record is a result, when it is refused, and when the refusal is an anomaly
-- (src/markets/fixture-result.util.ts).
use Prim.Native.String.{String}
use text.Mathlib.Text.{◌==◌ as str_eq}
use mathlib.Core.Path.{subst}
use oro_backend.Base.{
  sym, ap, ◌∙◌, if◌then◌else◌, Bool-cases, ◌≤◌, inl, inr, ltb, lt→ltb, ℕ, ◌+◌, ◌<◌, ◌≡◌, ◌≢◌, ◌⊎◌,
  refl, Bool, true, false, Option, none, some, arith, Option-cases, get_or,
}
use oro_backend.Fixture.Result.{
  read_scores, is_final, FixtureWinner, home_team, away_team, draw, FixtureResult, FixtureReadout,
  ok, refused, Refusal, MatchData, implied_winner, read_fixture_result, is_final_status,
}

lt_or_eq_or_gt : (a b : ℕ) → (a < b) ⊎ (a ≡ b) ⊎ (b < a)
lt_or_eq_or_gt a b = grind arith

not_lt→ltb : (a b : ℕ) → b ≤ a → ltb a b ≡ false
not_lt→ltb a b h = ground arith

-- The verdict that follows from the goals, as a relation.
pub data Implies : ℕ → ℕ → FixtureWinner → Type 0 where
  home_ahead : {h a : ℕ} → a < h → Implies h a home_team
  away_ahead : {h a : ℕ} → h < a → Implies h a away_team
  level : {h a : ℕ} → h ≡ a → Implies h a draw

Implies-implied_winner : (h a : ℕ) → Implies h a (implied_winner h a)
unfolding implied_winner
Implies-implied_winner h a = elim (lt_or_eq_or_gt h a) [
  | inl less ↦ rw (lt→ltb h a less, not_lt→ltb a h (omega arith)) (away_ahead less)
  | inr (inl same) ↦ rw (not_lt→ltb h a (omega arith), not_lt→ltb a h (omega arith)) (level same)
  | inr (inr more) ↦ rw (lt→ltb a h more) (home_ahead more)
]

Implies-eq : (h a : ℕ) (w : FixtureWinner) → Implies h a w → w ≡ implied_winner h a
unfolding implied_winner
Implies-eq h a home_team (home_ahead p) = ground arith
Implies-eq h a away_team (away_ahead p) = ground arith
Implies-eq h a draw (level p) = ground arith

-- What a successful read found, with the goals' verdict as a computed value.
refused_ne_ok : {why : Refusal} {b : Bool} {r : FixtureResult} → refused why b ≢ ok r
refused_ne_ok e = cc

read_scores_facts :
    (m : MatchData) (status : String) (r : FixtureResult)
    → read_scores m status ≡ ok r
    → (m.home ≡ some r.home_score)
      × (m.away ≡ some r.away_score)
      × (m.winner ≡ some r.winner)
      × (r.total_goals ≡ r.home_score + r.away_score)
      × (str_eq status "AWARDED" ≡ false → implied_winner r.home_score r.away_score ≡ r.winner)
unfolding read_scores
read_scores_facts m status r h = ground arith

abbrev read_status : MatchData → String → FixtureReadout
read_status m status =
    if is_final status then read_scores m status else refused (Refusal.not_finished status) false

read_of :
    (m : MatchData) (o : Option String)
    → m.status ≡ o
    → read_fixture_result m ≡ read_status m (get_or o "")
unfolding read_fixture_result
read_of m o e = ap (λ st. read_status m (get_or st "")) e

read_passed :
    (m : MatchData) (r : FixtureResult) (status : String)
    → read_status m status ≡ ok r
    → (is_final status ≡ true) × (read_scores m status ≡ ok r)
read_passed m r status h = elim (Bool-cases (is_final status)) [
  | inl final ↦ (final, rw final at h)
  | inr other ↦ absurd (refused_ne_ok (rw other at h))
]

read_facts :
    (m : MatchData) (r : FixtureResult)
    → read_fixture_result m ≡ ok r
    → (status : String) × (m.status ≡ some status)
      × (is_final status ≡ true)
      × (read_scores m status ≡ ok r)
read_facts m r h = elim (Option-cases m.status) [
  | inl absent ↦ absurd (refused_ne_ok (sym (read_of m none absent) ∙ h))
  | inr (status, e) ↦
      let p = read_passed m r status (sym (read_of m (some status) e) ∙ h) in (status, e, p.0, p.1)
]

not_awarded : (status : String) → some status ≡ some "FINISHED" → str_eq status "AWARDED" ≡ false
not_awarded status e = let q : status ≡ "FINISHED" = ground arith in rw q refl

-- A result is read only off a final record with both scores and a verdict, and repeats them.
pub read_fixture_result_sound :
    (m : MatchData) (r : FixtureResult)
    → read_fixture_result m ≡ ok r
    → (is_final_status m.status ≡ true)
      × (m.home ≡ some r.home_score)
      × (m.away ≡ some r.away_score)
      × (m.winner ≡ some r.winner)
      × (r.total_goals ≡ r.home_score + r.away_score)
unfolding is_final_status
read_fixture_result_sound m r h =
    let (status, e, final, scores) = read_facts m r h in
    let f = read_scores_facts m status r scores in (rw e final, f.0, f.1, f.2, f.3)

-- The winner that is read off a FINISHED record is the one that its goals imply.
pub read_fixture_result_winner :
    (m : MatchData) (r : FixtureResult)
    → read_fixture_result m ≡ ok r
    → m.status ≡ some "FINISHED"
    → Implies r.home_score r.away_score r.winner
read_fixture_result_winner m r h finished =
    let (status, e, final, scores) = read_facts m r h in
    let f = read_scores_facts m status r scores in
    subst (Implies r.home_score r.away_score) (f.4 (not_awarded status (sym e ∙ finished)))
      (Implies-implied_winner r.home_score r.away_score)

incomplete_facts :
    (m : MatchData) (out : FixtureReadout)
    → read_fixture_result m ≡ out
    → (m.home ≡ none) ⊎ (m.away ≡ none) ⊎ (m.winner ≡ none)
    → (why : Refusal) × (out ≡ refused why false)
unfolding read_fixture_result
incomplete_facts m (ok r) e h = ground arith
incomplete_facts m (refused why false) e h = (why, refl)
incomplete_facts m (refused why true) e h = ground arith

-- A record without both scores and a verdict is refused, and not as an anomaly.
pub read_fixture_result_incomplete :
    (m : MatchData)
    → (m.home ≡ none) ⊎ (m.away ≡ none) ⊎ (m.winner ≡ none)
    → (why : Refusal) × (read_fixture_result m ≡ refused why false)
read_fixture_result_incomplete m h = incomplete_facts m (read_fixture_result m) refl h

other_winner :
    (home away : ℕ) (winner : FixtureWinner)
    → ¬ Implies home away winner
    → implied_winner home away ≢ winner
other_winner home away winner wrong e =
    wrong (subst (Implies home away) e (Implies-implied_winner home away))

contradiction_facts :
    (m : MatchData) (home away : ℕ) (winner : FixtureWinner)
    → m.home ≡ some home
    → m.away ≡ some away
    → m.winner ≡ some winner
    → implied_winner home away ≢ winner
    → read_scores m "FINISHED"
      ≡ refused (Refusal.contradicts winner home away (implied_winner home away)) true
unfolding read_scores
contradiction_facts m home away winner h a w other = ground arith

-- A FINISHED record with both scores and a verdict that its goals do not imply is refused as an
-- anomaly.
pub read_fixture_result_contradiction :
    (m : MatchData) (home away : ℕ) (winner : FixtureWinner)
    → m.status ≡ some "FINISHED"
    → m.home ≡ some home
    → m.away ≡ some away
    → m.winner ≡ some winner
    → ¬ Implies home away winner
    → read_fixture_result m
      ≡ refused (Refusal.contradicts winner home away (implied_winner home away)) true
read_fixture_result_contradiction m home away winner st h a w wrong =
    read_of m (some "FINISHED") st
    ∙ contradiction_facts m home away winner h a w (other_winner home away winner wrong)

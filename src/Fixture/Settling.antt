-- ===== src/Fixture/Settling.antt =====
-- When a record has been left alone long enough, and the wait that a refusal announces
-- (src/markets/fixture-result.util.ts).
use oro_backend.Base.{
  inl, inr, ℕ, ◌+◌, ◌*◌, ◌≤◌, ◌<◌, ◌≡◌, ◌↔◌, ◌⊎◌, true, Option, none, some, arith, Option-cases,
}
use oro_backend.Base.Int.{ℤ, pos, pos_part, ◌-ℤ◌, int_laws}
use oro_backend.Fixture.Result.{MatchData}
use oro_backend.Fixture.Stability.{Reason, is_fixture_stable, ceil_minutes}

-- Quiet for the span since the last update.
abbrev pub IsQuiet : ℕ → ℕ → Option ℕ → Type 0
IsQuiet now span none = ⊥
IsQuiet now span (some t) = t + span ≤ now

-- An update time that is absent, or further ahead of the clock than the span.
abbrev pub IsUnusable : ℕ → ℕ → Option ℕ → Type 0
IsUnusable now span none = Unit
IsUnusable now span (some t) = now + span < t

-- A record is stable exactly when the provider has been quiet for the span, or its update time is
-- unusable and the kickoff is three and a half hours past.
pub is_fixture_stable_iff :
    (m : MatchData) (now span : ℕ)
    → ((is_fixture_stable m now span).stable ≡ true) ↔ (
        IsQuiet now span m.last_updated
        ⊎ (IsUnusable now span m.last_updated × IsQuiet now 12_600_000 m.utc_date))
unfolding is_fixture_stable ◌-ℤ◌
is_fixture_stable_iff m now span = elim (Option-cases m.last_updated) [
  | inl absent ↦ elim (Option-cases m.utc_date) [
    | inl unknown ↦ ground arith
    | inr (k, f) ↦ ground arith
  ]
  | inr (t, e) ↦ elim (Option-cases m.utc_date) [
    | inl unknown ↦ ground arith
    | inr (k, f) ↦ ground arith
  ]
]

revised_facts :
    (m : MatchData) (now span : ℕ) (quiet wait : ℤ)
    → (is_fixture_stable m now span).reason ≡ Reason.revised quiet wait
    → (t : ℕ) × (m.last_updated ≡ some t) × (wait ≡ ceil_minutes (pos span -ℤ (pos now -ℤ pos t)))
unfolding is_fixture_stable
revised_facts m now span quiet wait h = elim (Option-cases m.last_updated) [
  | inl absent ↦ ground arith
  | inr (t, e) ↦ (t, e, ground arith)
]

wait_covers :
    (waited : ℕ) (left : ℤ) → pos waited ≡ ceil_minutes left → pos_part left ≤ waited * 60000
wait_covers waited (pos k) h = ground arith
wait_covers waited (ℤ.negsuc k) h = ground arith

-- The wait that the refusal of a recently revised record announces is enough for the record to be
-- stable, unless it is revised again.
pub is_fixture_stable_after_wait :
    (m : MatchData) (now span waited : ℕ) (quiet : ℤ)
    → (is_fixture_stable m now span).reason ≡ Reason.revised quiet (pos waited)
    → (is_fixture_stable m (now + waited * 60000) span).stable ≡ true
is_fixture_stable_after_wait m now span waited quiet h =
    let (t, e, w) = revised_facts m now span quiet (pos waited) h in
    let covered = wait_covers waited (pos span -ℤ (pos now -ℤ pos t)) w in
    let enough : t + span ≤ now + waited * 60000 = omega int_laws in
    (is_fixture_stable_iff m (now + waited * 60000) span).1 (inl (rw e enough))

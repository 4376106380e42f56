-- ===== src/Streak/Days.antt =====
-- A bet on every day: the streak and the boost (src/users/streak.service.ts).
use oro_backend.Base.{ℕ, zero, suc, ◌+◌, ◌%◌, ◌≡◌, false, ◌==◌, none, some, arith}
use oro_backend.Streak.Update.{User, update_user}

-- The row after a bet on each of `n` days, the first of them on `day`.
pub bet_days : User → ℕ → ℕ → User
bet_days u day zero = u
bet_days u day (suc n) = (update_user (bet_days u day n) (day + n)).1

-- What holds of a row in the midst of such a run.
abbrev OnRun : User → ℕ → ℕ → Type 0
OnRun u count day =
    (u.bet_streak_count ≡ count)
    × (u.bet_streak_last_at ≡ some day)
    × (u.streak_boost_used ≡ (count % 7 == 0))

OnRun-next :
    (u : User) (count day day' : ℕ)
    → day' ≡ suc day
    → OnRun u (suc count) day
    → let r = update_user u day' in
      OnRun r.1 (suc (suc count)) day'
      × (r.0.boost_active ≡ (suc (suc count) % 7 == 0))
      × (r.0.new_streak ≡ suc (suc count))
unfolding update_user
OnRun-next u count day day' e h = ground arith

OnRun-first :
    (u : User) (day : ℕ)
    → u.bet_streak_last_at ≡ none
    → let r = update_user u day in
      OnRun r.1 1 day × (r.0.boost_active ≡ false) × (r.0.new_streak ≡ 1)
unfolding update_user
OnRun-first u day h = ground arith

bet_days-OnRun :
    (u : User) (day n : ℕ)
    → u.bet_streak_last_at ≡ none
    → OnRun (bet_days u day (suc n)) (suc n) (day + n)
unfolding bet_days
bet_days-OnRun u day zero h = (OnRun-first u (day + 0) h).0
bet_days-OnRun u day (suc n) h =
    (OnRun-next (bet_days u day (suc n)) n (day + n) (day + suc n) (omega arith)
      (bet_days-OnRun u day n h)).0

-- A new player who bets on every day is told a streak of n on the n-th day, with the boost active
-- exactly when seven divides n.
pub bet_days_boost :
    (u : User) (day n : ℕ)
    → u.bet_streak_last_at ≡ none
    → let r = (update_user (bet_days u day n) (day + n)).0 in
      (r.new_streak ≡ suc n) × (r.boost_active ≡ (suc n % 7 == 0))
unfolding bet_days
bet_days_boost u day zero h = let f = OnRun-first u (day + 0) h in (f.2, f.1)
bet_days_boost u day (suc n) h =
    let f =
      OnRun-next (bet_days u day (suc n)) n (day + n) (day + suc n) (omega arith)
        (bet_days-OnRun u day n h) in
    (f.2, f.1)

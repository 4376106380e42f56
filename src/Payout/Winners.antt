-- ===== src/Payout/Winners.antt =====
-- `computeWinnerPayouts` (src/markets/winner-payouts.ts).
use oro_backend.Base.{ℕ, ◌*◌, List, [], ◌∷◌, sum, max, ltb, leb, if◌then◌else◌}
use oro_backend.Payout.Nearest.{Rounding}

-- The pool net of the house edge is `payout_num / payout_den` units.
pub record PayoutArgs : Type 0 where
  pub stakes : List ℕ
  pub payout_num : ℕ
  pub payout_den : ℕ
  pub total_pool : ℕ

-- The factor by which the payouts are scaled: `none` of the two bands that do not scale is the
-- quotient of equal numbers.
pub record Payouts : Type 0 where
  pub payouts : List ℕ
  pub scale_num : ℕ
  pub scale_den : ℕ
  pub total : ℕ

abbrev pub zeros : List ℕ → List ℕ
zeros [] = []
zeros (stake ∷ stakes) = 0 ∷ zeros stakes

module _ (r : Rounding) where
  open r use {nearest}

  -- The pro-rata share of the post-rake pool, raised to 1.05 times the stake.
  unfoldable pub desired_payout : PayoutArgs → ℕ → ℕ → ℕ
  desired_payout args winner_pool stake =
      max (nearest (args.payout_num * stake) (args.payout_den * winner_pool))
        (nearest (stake * 105) 100)

  unfoldable pub scaled_payouts : ℕ → ℕ → List ℕ → List ℕ
  scaled_payouts num den [] = []
  scaled_payouts num den (d ∷ ds) = nearest (d * num) den ∷ scaled_payouts num den ds

  unfoldable pub desired_payouts : PayoutArgs → ℕ → List ℕ → List ℕ
  unfolding desired_payout
  desired_payouts args winner_pool [] = []
  desired_payouts args winner_pool (stake ∷ stakes) =
      desired_payout args winner_pool stake ∷ desired_payouts args winner_pool stakes

  unfoldable pub compute_winner_payouts : PayoutArgs → Payouts
  unfolding desired_payouts scaled_payouts
  compute_winner_payouts args =
      let winner_pool = sum args.stakes in
      if leb winner_pool 0
      then record { payouts = zeros args.stakes; scale_num = 1; scale_den = 1; total = 0 }
      else (let desired = desired_payouts args winner_pool args.stakes in
          let desired_total = sum desired in
          let capped = ltb args.total_pool desired_total in
          let num = if capped then args.total_pool else 1 in
          let den = if capped then desired_total else 1 in
          let payouts = scaled_payouts num den desired in
          record { payouts = payouts; scale_num = num; scale_den = den; total = sum payouts })

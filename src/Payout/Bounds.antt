-- ===== src/Payout/Bounds.antt =====
-- Bounds on what the winners are paid (src/markets/winner-payouts.ts).
use oro_backend.Base.{ℕ, ◌+◌, ◌*◌, ◌≤◌, ◌<◌, ◌≡◌, true, false, [], ◌∷◌, ltb, leb, arith}
use mathlib.Core.Path.{subst}
use oro_backend.Payout.Nearest.{Rounding, positive_product, cancel_factor}
use oro_backend.Payout.Winners.{PayoutArgs, desired_payout, compute_winner_payouts}

mul_mono : (d x y : ℕ) → x ≤ y → d * x ≤ d * y
mul_mono d x y h = grind arith

module _ (r : Rounding) where
  open r use {unit, some_unit, nearest, whole, not_above, not_below}

  -- A third of 3m + 2 last decimals rounds up.
  pub third_share :
      (d m : ℕ) → 0 < d → nearest (d * ((3 * m + 2) * unit)) (d + (d + (d + 0))) ≡ (m + 1) * unit
  third_share d m h =
      let a = d * ((3 * m + 2) * unit) in
      let b = d + (d + (d + 0)) in
      let (q, e) = whole a b in
      let above : 2 * (b * (q * unit)) ≤ 2 * a + b * unit =
        subst (λ (n : ℕ). 2 * (b * n) ≤ 2 * a + b * unit) e (not_above a b (omega arith)) in
      let below : 2 * a ≤ 2 * (b * (q * unit)) + b * unit =
        subst (λ (n : ℕ). 2 * a ≤ 2 * (b * n) + b * unit) e (not_below a b (omega arith)) in
      let some : 0 < d * unit = positive_product d unit h some_unit in
      let up : d * unit * (6 * q) ≤ d * unit * (6 * m + 7) = omega (arith, above) in
      let down : d * unit * (6 * m + 1) ≤ d * unit * (6 * q) = omega (arith, below) in
      let same : q ≡ m + 1 = omega (
        arith,
        cancel_factor (d * unit) (6 * q) (6 * m + 7) some up,
        cancel_factor (d * unit) (6 * m + 1) (6 * q) some down,
      ) in
      cc (e, same)

  -- With a rounding to the nearest last decimal place, three equal winning stakes with a losing
  -- side of 3k + 2 last decimals that is too small to fund the floor are paid one last decimal
  -- more than the pool holds.
  pub overpaid_by_rounding :
      (s k payout_num payout_den : ℕ)
      → 20 * k + 30 ≤ s
      → (compute_winner_payouts r (record {
        stakes = s * unit ∷ s * unit ∷ s * unit ∷ [];
        payout_num = payout_num;
        payout_den = payout_den;
        total_pool = (3 * (s + k) + 2) * unit;
      })).total
        ≡ (3 * (s + k) + 3) * unit
  unfolding compute_winner_payouts
  overpaid_by_rounding s k payout_num payout_den h =
      let pool = (3 * (s + k) + 2) * unit in
      let stake = s * unit in
      let args : PayoutArgs = record {
        stakes = stake ∷ stake ∷ stake ∷ [];
        payout_num = payout_num;
        payout_den = payout_den;
        total_pool = pool;
      } in
      let d = desired_payout r args (stake + (stake + (stake + 0))) stake in
      let scaled : unit * (20 * k + 30) ≤ unit * s = mul_mono unit (20 * k + 30) s h in
      let floor : nearest (stake * 105) 100 ≤ d = omega arith in
      let enough : (s + k + 1) * unit ≤ d =
        omega (arith, not_below (stake * 105) 100 (omega arith), scaled, floor) in
      let some_stake : 0 < stake =
        omega
          (arith, scaled, some_unit, positive_product unit (20 * k + 30) some_unit (omega arith)) in
      let somebody : leb (stake + (stake + (stake + 0))) 0 ≡ false = ground arith in
      let capped : ltb pool (d + (d + (d + 0))) ≡ true = ground arith in
      rw (somebody, capped, third_share d (s + k) (omega arith)) (omega arith)

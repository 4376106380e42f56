-- ===== src/Payout/Nearest.antt =====
-- `roundMoney` (src/shared/utils/money.util.ts) of a quotient.
use oro_backend.Base.{ℕ, zero, suc, ◌+◌, ◌*◌, ◌-◌, ◌/◌, ◌≤◌, ◌<◌, ◌≡◌, refl, sym, ap, ◌∙◌, arith}

-- Amounts are counted in parts of the last decimal place of their currency, and `unit` of them
-- make one. `nearest a b` is a / b rounded to the last decimal place: what is relied on, whichever
-- way a half goes.
pub record Rounding : Type 0 where
  pub unit : ℕ
  pub some_unit : 0 < unit
  pub nearest : ℕ → ℕ → ℕ
  pub whole : (a b : ℕ) → (q : ℕ) × (nearest a b ≡ q * unit)
  pub not_above : (a b : ℕ) → 0 < b → 2 * (b * nearest a b) ≤ 2 * a + b * unit
  pub not_below : (a b : ℕ) → 0 < b → 2 * a ≤ 2 * (b * nearest a b) + b * unit

-- `Math.round`: a half goes up.
abbrev pub round_money : ℕ → ℕ → ℕ
round_money a b = (2 * a + b) / (2 * b)

pub round_money_not_above : (a b : ℕ) → 0 < b → 2 * (b * round_money a b) ≤ 2 * a + b
round_money_not_above a b h = omega arith

pub round_money_not_below : (a b : ℕ) → 0 < b → 2 * a ≤ 2 * (b * round_money a b) + b
round_money_not_below a b h = omega arith

pub positive_product : (a b : ℕ) → 0 < a → 0 < b → 0 < a * b
positive_product a b h k = grind arith

abbrev pub half_up_to : (unit : ℕ) → 0 < unit → Rounding
half_up_to unit h = record {
  unit = unit;
  some_unit = h;
  nearest = λ a b. round_money a (b * unit) * unit;
  whole = λ a b. (round_money a (b * unit), refl);
  not_above =
      λ a b k. omega (arith, round_money_not_above a (b * unit) (positive_product b unit k h));
  not_below =
      λ a b k. omega (arith, round_money_not_below a (b * unit) (positive_product b unit k h));
}

abbrev pub half_up : Rounding
half_up = half_up_to 1 (omega arith)

pub cancel_factor : (d x y : ℕ) → 0 < d → d * x ≤ d * y → x ≤ y
cancel_factor d x y h p = grind arith

module _ (r : Rounding) where
  open r use {unit, nearest}

  -- A whole number of last decimal places is left as it is.
  pub nearest_whole : (q : ℕ) → nearest (q * unit) 1 ≡ q * unit
  nearest_whole q =
      let (p, e) = r.whole (q * unit) 1 in
      let above = r.not_above (q * unit) 1 (omega arith) in
      let below = r.not_below (q * unit) 1 (omega arith) in
      let up : unit * (2 * p) ≤ unit * (2 * q + 1) = omega (arith, above, e) in
      let down : unit * (2 * q) ≤ unit * (2 * p + 1) = omega (arith, below, e) in
      let same : p ≡ q = omega (
        arith,
        cancel_factor unit (2 * p) (2 * q + 1) r.some_unit up,
        cancel_factor unit (2 * q) (2 * p + 1) r.some_unit down,
      ) in
      cc (e, same)

  abbrev pub IsWhole : ℕ → Type 0
  IsWhole n = (q : ℕ) × (n ≡ q * unit)

  pub IsWhole-sum : (a b : ℕ) → IsWhole a → IsWhole b → IsWhole (a + b)
  IsWhole-sum a b (p, e) (q, e') = (p + q, omega (arith, e, e'))

  -- Sums of whole amounts are left as they are.
  pub nearest_sum : (a b : ℕ) → IsWhole a → IsWhole b → nearest (a + b) 1 ≡ a + b
  nearest_sum a b (p, e) (q, e') =
      let same : a + b ≡ (p + q) * unit = omega (arith, e, e') in
      ap (λ (n : ℕ). nearest n 1) same ∙ nearest_whole (p + q) ∙ sym same

  -- How far a rounded amount is above, or below, the amount.
  pub nearest_error :
      (a : ℕ)
      → (over under : ℕ) × (over ≤ unit / 2) × (under ≤ unit / 2) × (nearest a 1 + under ≡ a + over)
  nearest_error a =
      let up = r.not_above a 1 (omega arith) in
      let down = r.not_below a 1 (omega arith) in
      (
        nearest a 1 - a,
        a - nearest a 1,
        omega (arith, up, down),
        omega (arith, up, down),
        omega arith,
      )

  no_multiple : (q : ℕ) → 0 < unit → 2 * (q * unit) ≤ unit → q * unit ≡ 0
  no_multiple zero h k = omega arith
  no_multiple (suc q) h k = absurd (omega (arith, h, k))

  nearest_nothing : nearest 0 1 ≡ 0
  nearest_nothing =
      let (q, e) = r.whole 0 1 in
      let up = r.not_above 0 1 (omega arith) in
      let small : 2 * (q * unit) ≤ unit = omega (arith, up, e) in
      omega (arith, e, no_multiple q r.some_unit small)

  -- Nothing rounds to nothing.
  pub nearest_positive : (a : ℕ) → 0 < nearest a 1 → 0 < a
  nearest_positive zero h = absurd (omega (arith, nearest_nothing, h))
  nearest_positive (suc a) h = omega arith

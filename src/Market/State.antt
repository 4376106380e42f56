-- ===== src/Market/State.antt =====
-- The rows of a market (src/entities/market.entity.ts, src/entities/position.entity.ts,
-- src/entities/dispute.entity.ts, src/entities/market-book.entity.ts,
-- src/entities/settlement.entity.ts, and the bonus columns of src/entities/user.entity.ts).
--
-- A house edge is counted in hundredths of a per cent, as its column `decimal(5, 2)` does, and is at
-- most the whole.
use Prim.Native.String.{String}
use text.Mathlib.Text.{◌==◌ as str_eq}
use oro_backend.Base.{ℕ, Bool, ◌||◌, Option, none, some, List, if◌then◌else◌}
use oro_backend.Base.Rows.{Rows}
use oro_backend.Entities.{MarketStatus, PositionStatus}
use oro_backend.Duel.{Store as DuelStore}

pub record Market : Type 0 where
  pub id : ℕ
  pub status : MarketStatus
  pub subcategory : Option String
  pub closes_at : ℕ
  pub outcomes : List ℕ
  pub proposed_outcome : Option ℕ
  pub window_minutes : Option ℕ
  pub dispute_deadline_at : Option ℕ
  pub resolved_outcome : Option ℕ
  pub total_pool : ℕ
  pub house_edge : ℕ
  pub external_source : Option String

pub data DisputeBondStatus : Type 0 where
  locked rewarded forfeited not_applicable : DisputeBondStatus

pub data DisputeSide : Type 0 where
  object support : DisputeSide

pub record Dispute : Type 0 where
  pub market : ℕ
  pub user : ℕ
  pub side : DisputeSide
  pub bond_amount : ℕ
  pub bond_status : DisputeBondStatus
  pub currency : Option String
  pub upheld : Option Bool
  pub reward_amount : ℕ

pub record Bet : Type 0 where
  pub market : ℕ
  pub user : ℕ
  pub amount : ℕ
  pub currency : Option String
  pub status : PositionStatus
  pub outcome : ℕ
  pub payout : Option ℕ
  pub is_bonus_funded : Bool
  pub streak_boost_armed : Bool

-- One pool per currency that a market took stakes in.
pub record MarketBook : Type 0 where
  pub market : ℕ
  pub currency : String
  pub total_pool : ℕ
  pub house_edge : ℕ
  pub dispute_bond_pool : ℕ
  pub min_stake : ℕ
  pub is_enabled : Bool

-- `btnMinStakeFor` (src/markets/market-book.util.ts), in hundredths of a ngultrum.
abbrev pub btn_min_stake_for : Market → ℕ
btn_min_stake_for m = elim m.external_source [
  | none ↦ 5000
  | some c ↦ if str_eq c "ter" || str_eq c "btc" then 1000 else 5000
]

-- `payout_pool` counts ten-thousandth parts of a unit.
pub record Settlement : Type 0 where
  pub market : ℕ
  pub currency : String
  pub winning_outcome : ℕ
  pub total_positions : ℕ
  pub winning_positions : ℕ
  pub total_pool : ℕ
  pub house_amount : ℕ
  pub house_forfeit : ℕ
  pub payout_pool : ℕ
  pub total_paid_out : ℕ
  pub is_thin_pool : Bool

pub record Bonus : Type 0 where
  pub bonus_balance : ℕ
  pub real_payout_remaining : ℕ

-- `duels` holds the ledger too.
pub record Store : Type 0 where
  pub markets : Rows Market
  pub bets : Rows Bet
  pub disputes : Rows Dispute
  pub books : List MarketBook
  pub settlements : List Settlement
  pub bonuses : Rows Bonus
  pub duels : DuelStore

-- ===== src/Ledger.antt =====
-- The ledger: `transactions` rows and the balances derived from them
-- (src/entities/transaction.entity.ts, src/shared/utils/ledger.util.ts).
--
-- Row keys (uuids) are numbers, since the program only compares them. Money is counted in units
-- of the last decimal place of the money columns, `decimal(28, 9)`. Display notes are data with
-- what the template strings interpolate. Columns that no modelled code reads, such as the bonus flag
-- of a row, are left out.
pub mod Balance
pub mod Rebuild
pub mod Rebuilt
use Prim.Native.String.{String}
use oro_backend.Base.{ℕ, Bool, Option}
use oro_backend.Base.Int.{ℤ}

pub data TransactionType : Type 0 where
  deposit withdrawal position_opened position_payout refund : TransactionType
  dispute_bond dispute_refund dispute_bond_lock dispute_bond_forfeit : TransactionType
  dispute_bond_reward referral_bonus free_credit streak_bonus referral_prize : TransactionType
  duel_wager duel_payout season_prize adjustment : TransactionType

pub data Note : Type 0 where
  wager_locked_market : ℕ → Note
  wager_locked_challenge : ℕ → Note
  duel_void_refund : ℕ → Note
  duel_win : Bool → ℕ → Note
  duel_expired_refund : ℕ → Note
  withdrawal_reserved withdrawal_confirmed withdrawal_refunded : Note
  market_cancelled_refund : Note
  bond_returned : ℕ → Note
  contest_won : Bool → ℕ → Note
  thin_pool_refund : Note
  position_won : ℕ → Note
  streak_boost : Note
  position_opened_on : ℕ → Note
  objection_rewarded : ℕ → ℕ → Note
  usdt_withdrawal_requested : String → Note
  usdt_withdrawal_returned usdt_deposit_reversed : Note
  usdt_deposit : String → Note

abbrev pub btn_currency : String
btn_currency = "BTN"

pub record Transaction : Type 0 where
  pub user : ℕ
  pub type : TransactionType
  pub amount : ℤ
  pub currency : String
  pub balance_before : ℤ
  pub balance_after : ℤ
  pub payment : Option ℕ
  pub position : Option ℕ
  pub note : Note

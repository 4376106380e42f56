-- ===== src/Book/Settle.antt =====
-- `settleBook`, `refundAndRecordSettlement` and the reward of the objectors
-- (src/markets/parimutuel.engine.ts).
use Prim.Native.String.{String}
use text.Mathlib.Text.{◌==◌ as str_eq}
use oro_backend.Base.{
  ℕ, ◌+◌, ◌-◌, ◌*◌, Bool, true, false, ◌&&◌, ◌||◌, ◌==◌, Option, none, some, List, [], ◌∷◌, ◌++◌,
  ltb, leb, min, keep, find, length, includes, if◌then◌else◌,
}
use oro_backend.Base.Int.{pos, ◌+ℤ◌}
use oro_backend.Base.Rows.{Rows}
use oro_backend.Ledger.{Transaction, TransactionType, Note}
use oro_backend.Duel.{ledger_balance_for_account}
use oro_backend.Payout.{Rounding, compute_winner_payouts}
use oro_backend.Market.{
  Bet, Dispute, DisputeSide, MarketBook, Settlement, Store, is_pending, refund_positions,
  with_ledger,
}
use oro_backend.Book.Bets.{Context}

-- MIN_UNIQUE_BETTORS, and CHALLENGER_REWARD_HOUSE_CUT_FRACTION as a quotient: `none` is a value that
-- is not finite or is negative.
pub record Config : Type 0 where
  pub min_unique_bettors : ℕ
  pub reward_fraction : Option (ℕ × ℕ)

pub record Objector : Type 0 where
  pub user : ℕ
  pub bond_amount : ℕ

abbrev pub find_settlement : ℕ → String → List Settlement → Option Settlement
find_settlement market currency settlements =
    find (λ (t : Settlement). t.market == market && str_eq t.currency currency) settlements

abbrev pub in_currency : Option String → String → Bool
in_currency none currency = false
in_currency (some c) currency = str_eq c currency

abbrev pub bets_of_book : ℕ → String → Rows Bet → Rows Bet
bets_of_book market currency bets =
    keep
      (λ (r : ℕ × Bet).
        (r.1.market == market && in_currency r.1.currency currency) && is_pending r.1.status)
      bets

abbrev pub user_ids : Rows Bet → List ℕ
user_ids [] = []
user_ids (r ∷ bets) = r.1.user ∷ user_ids bets

-- `new Set(ids).size`.
abbrev pub unique_count : List ℕ → ℕ
unique_count [] = 0
unique_count (u ∷ us) = let rest = unique_count us in if includes us u then rest else 1 + rest

abbrev pub winning_bets : ℕ → Rows Bet → Rows Bet
winning_bets winner bets = keep (λ (r : ℕ × Bet). r.1.outcome == winner) bets

abbrev pub stakes_of : Rows Bet → List ℕ
stakes_of [] = []
stakes_of (r ∷ bets) = r.1.amount ∷ stakes_of bets

unfoldable pub is_thin : ℕ → ℕ → Rows Bet → Bool
is_thin min_unique_bettors winner bets =
    let winning = length (winning_bets winner bets) in
    (ltb (unique_count (user_ids bets)) min_unique_bettors || length bets - winning == 0)
    || winning == 0

-- `payoutByPositionId`.
unfoldable pub payout_by_position_id : Rows Bet → List ℕ → Rows ℕ
payout_by_position_id (b ∷ bets) (p ∷ payouts) = (b.0, p) ∷ payout_by_position_id bets payouts
payout_by_position_id _ _ = []

abbrev pub house_scale : ℕ
house_scale = 10000

abbrev pub record_settlement : Settlement → Store → Settlement × Store
record_settlement t s = (t, record s { settlements = s.settlements ++ (t ∷ []) })

unfoldable pub refund_and_record_settlement :
    ℕ → ℕ → Rows Bet → ℕ → String → Store → Settlement × Store
refund_and_record_settlement market winner bets total_pool currency s =
    record_settlement
      (record {
        market = market;
        currency = currency;
        winning_outcome = winner;
        total_positions = length bets;
        winning_positions = 0;
        total_pool = total_pool;
        house_amount = 0;
        house_forfeit = 0;
        payout_pool = 0;
        total_paid_out = 0;
        is_thin_pool = true;
      })
      (refund_positions bets Note.thin_pool_refund s)

abbrev pub is_objection : DisputeSide → Bool
is_objection DisputeSide.object = true
is_objection DisputeSide.support = false

-- Every objection of the user on the market is given the reward.
abbrev pub set_reward : ℕ → ℕ → ℕ → Rows Dispute → Rows Dispute
set_reward market user share [] = []
set_reward market user share ((k, d) ∷ disputes) =
    let rest = set_reward market user share disputes in
    if (d.market == market && d.user == user) && is_objection d.side
    then (k, record d { reward_amount = share }) ∷ rest
    else (k, d) ∷ rest

abbrev pub total_bond : List Objector → ℕ
total_bond [] = 0
total_bond (o ∷ os) = o.bond_amount + total_bond os

-- The fraction is clamped to [0, 1], with a fifth in place of an unusable one.
unfoldable pub reward_fraction_of : Option (ℕ × ℕ) → ℕ × ℕ
reward_fraction_of none = (1, 5)
reward_fraction_of (some (num, den)) = if leb num den then (num, den) else (1, 5)

abbrev pub reward_row : Store → ℕ → String → ℕ → ℕ → Transaction
reward_row s market currency user share =
    let balance_before = ledger_balance_for_account s.duels user in
    record {
      user = user;
      type = TransactionType.dispute_bond_reward;
      amount = pos share;
      currency = currency;
      balance_before = balance_before;
      balance_after = balance_before +ℤ pos share;
      payment = none;
      position = none;
      note = Note.objection_rewarded market share;
    }

module _ (r : Rounding) where
  open r use {nearest}

  unfoldable pub pay_objector : ℕ → String → ℕ → ℕ → Objector → ℕ × Store → ℕ × Store
  pay_objector market currency reward_pool bonds o (paid, s) =
      let share = nearest (o.bond_amount * reward_pool) bonds in
      if leb share 0 then (paid, s) else (
        nearest (paid + share) 1,
        record (with_ledger (reward_row s market currency o.user share ∷ s.duels.ledger) s) {
          disputes = set_reward market o.user share s.disputes;
        },
      )

  unfoldable pub pay_objectors : ℕ → String → ℕ → ℕ → List Objector → ℕ × Store → ℕ × Store
  unfolding pay_objector
  pay_objectors market currency reward_pool bonds [] acc = acc
  pay_objectors market currency reward_pool bonds (o ∷ os) acc =
      pay_objectors market currency reward_pool bonds os
        (pay_objector market currency reward_pool bonds o acc)

  unfoldable pub reward_pool_of : Config → MarketBook → ℕ → ℕ
  unfolding reward_fraction_of
  reward_pool_of config book pool_residual =
      let house_cut = nearest (book.total_pool * book.house_edge) house_scale in
      let fraction = reward_fraction_of config.reward_fraction in
      min (nearest (house_cut * fraction.0) fraction.1) pool_residual

  unfoldable pub reward_challengers : Config → MarketBook → ℕ → List Objector → Store → ℕ × Store
  unfolding pay_objectors reward_pool_of
  reward_challengers config book pool_residual objectors s =
      let reward_pool = reward_pool_of config book pool_residual in
      if ltb 0 reward_pool && ltb 0 (total_bond objectors)
      then pay_objectors book.market book.currency reward_pool (total_bond objectors) objectors
          (0, s)
      else (0, s)

  -- What the loop over the bets is given, and where it starts.
  abbrev pub context_of : ℕ → MarketBook → Rows Bet → Store → Context
  context_of winner book bets s =
      let winning = winning_bets winner bets in
      record {
        currency = book.currency;
        winner = winner;
        preloaded = s.duels.ledger;
        users = s.bonuses;
        payouts =
            payout_by_position_id winning
              (compute_winner_payouts r (record {
                stakes = stakes_of winning;
                payout_num = book.total_pool * (house_scale - book.house_edge);
                payout_den = house_scale;
                total_pool = book.total_pool;
              })).payouts;
      }

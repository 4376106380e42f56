-- ===== src/Book/Bets.antt =====
-- The loop of `settleBook` over the bets of a book (src/markets/parimutuel.engine.ts).
use Prim.Native.String.{String}
use text.Mathlib.Text.{◌==◌ as str_eq}
use oro_backend.Base.{
  ℕ, ◌+◌, ◌-◌, Bool, ◌&&◌, ◌==◌, none, some, List, [], ◌∷◌, ltb, min, get_or, if◌then◌else◌,
}
use oro_backend.Base.Int.{pos, ◌+ℤ◌}
use oro_backend.Base.Rows.{Rows, lookup, insert}
use oro_backend.Entities.{PositionStatus}
use oro_backend.Ledger.{Transaction, TransactionType, Note, btn_currency}
use oro_backend.Ledger.Balance.{ledger_balance}
use oro_backend.Payout.{Rounding}
use oro_backend.Market.{Bet, Bonus, Deltas, delta_of}

-- What the loop reads: the ledger and the users as loaded before it, and the payouts by position.
pub record Context : Type 0 where
  pub currency : String
  pub winner : ℕ
  pub preloaded : List Transaction
  pub users : Rows Bonus
  pub payouts : Rows ℕ

-- What the loop accumulates: the new rows stand in front of `rows`, `bets` is the table of
-- positions, `bonus_updates` the map of that name.
pub record Run : Type 0 where
  pub rows : List Transaction
  pub deltas : Deltas
  pub bonus_updates : Rows Bonus
  pub bets : Rows Bet
  pub total_paid_out : ℕ
  pub winning_positions : ℕ

abbrev pub no_bonus : Bonus
no_bonus = record { bonus_balance = 0; real_payout_remaining = 0 }

abbrev pub bonus_of : Context → ℕ → Run → Bonus
bonus_of c user run = elim (lookup user run.bonus_updates) [
  | none ↦ get_or (lookup user c.users) no_bonus
  | some b ↦ b
]

abbrev pub is_funded_here : Context → Bet → Bool
is_funded_here c bet = bet.is_bonus_funded && str_eq c.currency btn_currency

abbrev pub use_bonus : Context → Bet → ℕ → Run → Run
use_bonus c bet withdrawable run =
    let b = bonus_of c bet.user run in
    if is_funded_here c bet
    then record run {
      bonus_updates =
          insert bet.user
            (record {
              bonus_balance = b.bonus_balance - bet.amount;
              real_payout_remaining = b.real_payout_remaining - withdrawable;
            })
            run.bonus_updates;
    }
    else run

-- One row for the user of a bet, with the running balance of this loop.
unfoldable pub pay_row : Context → TransactionType → Note → ℕ → ℕ → ℕ → Run → Run
unfolding delta_of
pay_row c type note key user amount run =
    let balance_before =
      ledger_balance c.preloaded user c.currency +ℤ pos (delta_of run.deltas user c.currency) in
    let row : Transaction = record {
      user = user;
      type = type;
      amount = pos amount;
      currency = c.currency;
      balance_before = balance_before;
      balance_after = balance_before +ℤ pos amount;
      payment = none;
      position = some key;
      note = note;
    } in
    record run { rows = row ∷ run.rows; deltas = (user, c.currency, amount) ∷ run.deltas }

abbrev pub lose_bonus : Context → Bet → Run → Run
lose_bonus c bet run =
    let b = bonus_of c bet.user run in
    if is_funded_here c bet && ltb 0 b.bonus_balance
    then record run {
      bonus_updates =
          insert bet.user (record b { bonus_balance = b.bonus_balance - bet.amount })
            run.bonus_updates;
    }
    else run

abbrev pub won : Bet → ℕ → Bet
won bet payout = record bet { status = PositionStatus.won; payout = some payout }

abbrev pub lost : Bet → Bet
lost bet = record bet { status = PositionStatus.lost }

module _ (r : Rounding) where
  open r use {nearest}

  -- A bonus stake pays at most what the user may still withdraw of bonus winnings, or the stake
  -- when nothing is left.
  unfoldable pub withdrawable_of : Context → Bet → ℕ → Run → ℕ
  withdrawable_of c bet effective run =
      let capped = nearest (min effective (bonus_of c bet.user run).real_payout_remaining) 1 in
      if is_funded_here c bet then (if capped == 0 then bet.amount else capped) else effective

  -- A fifth of the payout, when the bet armed the boost of day 7.
  unfoldable pub boost_of : Bet → ℕ → ℕ
  boost_of bet withdrawable = if bet.streak_boost_armed then nearest withdrawable 5 else 0

  unfoldable pub win_bet : Context → ℕ → Bet → Run → Run
  unfolding pay_row withdrawable_of boost_of
  win_bet c key bet run =
      let withdrawable = withdrawable_of c bet (get_or (lookup key c.payouts) 0) run in
      let paid =
        pay_row c TransactionType.position_payout (Note.position_won c.winner) key bet.user
          withdrawable (use_bonus c bet withdrawable run) in
      let boost = boost_of bet withdrawable in
      let boosted =
        if ltb 0 boost
        then pay_row c TransactionType.streak_bonus Note.streak_boost key bet.user boost paid
        else paid in
      record boosted {
        bets = insert key (won bet withdrawable) run.bets;
        total_paid_out = run.total_paid_out + withdrawable;
        winning_positions = run.winning_positions + 1;
      }

  unfoldable pub lose_bet : Context → ℕ → Bet → Run → Run
  lose_bet c key bet run = record (lose_bonus c bet run) { bets = insert key (lost bet) run.bets }

  unfoldable pub settle_bet : Context → ℕ × Bet → Run → Run
  unfolding win_bet lose_bet
  settle_bet c (key, bet) run =
      if bet.outcome == c.winner then win_bet c key bet run else lose_bet c key bet run

  unfoldable pub settle_bets : Context → Rows Bet → Run → Run
  unfolding settle_bet
  settle_bets c [] run = run
  settle_bets c (b ∷ bets) run = settle_bets c bets (settle_bet c b run)

-- ===== src/Stake/Place.antt =====
-- `placePosition`, `ensureBook` and `ensureOutcomeBooks` (src/markets/parimutuel.engine.ts,
-- src/markets/market-book.util.ts).
use Prim.Native.String.{String}
use text.Mathlib.Text.{◌==◌ as str_eq}
use oro_backend.Base.{
  ℕ, ◌+◌, Bool, true, false, not, ◌&&◌, ◌==◌, Option, none, some, List, [], ◌∷◌, ◌++◌, ltb, leb,
  find, is_none, if◌then◌else◌,
}
use oro_backend.Base.Int.{ℤ, pos, ◌-ℤ◌, ltb_ℤ, pos_part}
use oro_backend.Base.Rows.{Rows, lookup, insert}
use oro_backend.Entities.{MarketStatus, PositionStatus}
use oro_backend.Ledger.{Transaction, TransactionType, Note, btn_currency}
use oro_backend.Ledger.Balance.{ledger_balance}
use oro_backend.Market.{Market, Bet, MarketBook, Store, btn_min_stake_for, with_ledger}
use oro_backend.Stake.Wallet.{Account, resolve_wallet_currency}

-- The columns of a market's outcomes: eliminated or not, and the stakes of the mirror.
pub record OutcomeRow : Type 0 where
  pub market : ℕ
  pub is_eliminated : Bool
  pub total_bet_amount : ℕ

pub record OutcomeBook : Type 0 where
  pub outcome : ℕ
  pub currency : String
  pub total_bet_amount : ℕ

-- The tables of the engine, with those that only a placement reads.
pub record Desk : Type 0 where
  pub store : Store
  pub accounts : Rows Account
  pub betting_closes_at : Rows ℕ
  pub outcomes : Rows OutcomeRow
  pub outcome_books : List OutcomeBook
  pub next_position : ℕ

pub data Error : Type 0 where
  amount_not_positive market_not_found market_not_open betting_closed outcome_not_found : Error
  outcome_eliminated user_not_found currency_not_allowed dk_account_missing phone_missing : Error
  book_disabled below_minimum insufficient_balance : Error

pub data Result (A : Type 0) : Type 0 where
  ok : A → Result A
  err : Error → Result A

abbrev pub is_book : ℕ → String → MarketBook → Bool
is_book market currency b = b.market == market && str_eq b.currency currency

abbrev pub find_book : ℕ → String → List MarketBook → Option MarketBook
find_book market currency books = find (is_book market currency) books

-- The terms that a book opens with.
abbrev pub new_book : ℕ → Market → String → ℕ → MarketBook
new_book market m currency usdt_min_stake =
    let is_btn = str_eq currency btn_currency in
    record {
      market = market;
      currency = currency;
      total_pool = if is_btn then m.total_pool else 0;
      house_edge = m.house_edge;
      dispute_bond_pool = 0;
      min_stake = if is_btn then btn_min_stake_for m else usdt_min_stake;
      is_enabled = true;
    }

unfoldable pub ensure_book :
    ℕ → Market → String → ℕ → List MarketBook → MarketBook × List MarketBook
ensure_book market m currency usdt_min_stake books = elim (find_book market currency books) [
  | some b ↦ (b, books)
  | none ↦ let b = new_book market m currency usdt_min_stake in (b, books ++ (b ∷ []))
]

-- The stake goes into the pool of the book.
abbrev pub raise_pool : ℕ → String → ℕ → List MarketBook → List MarketBook
raise_pool market currency amount [] = []
raise_pool market currency amount (b ∷ books) =
    let rest = raise_pool market currency amount books in
    if is_book market currency b
    then record b { total_pool = b.total_pool + amount } ∷ books
    else b ∷ rest

abbrev pub is_outcome_book : ℕ → String → OutcomeBook → Bool
is_outcome_book outcome currency b = b.outcome == outcome && str_eq b.currency currency

-- Missing rows of the outcomes are made, in ngultrum with the stakes of the mirror.
abbrev pub ensure_outcome_books : ℕ → String → Rows OutcomeRow → List OutcomeBook → List OutcomeBook
ensure_outcome_books market currency [] books = books
ensure_outcome_books market currency ((key, o) ∷ outcomes) books =
    let rest = ensure_outcome_books market currency outcomes books in
    if o.market == market && is_none (find (is_outcome_book key currency) rest)
    then rest
      ++ (record {
        outcome = key;
        currency = currency;
        total_bet_amount = if str_eq currency btn_currency then o.total_bet_amount else 0;
      }
          ∷ [])
    else rest

abbrev pub raise_outcome : ℕ → String → ℕ → List OutcomeBook → List OutcomeBook
raise_outcome outcome currency amount [] = []
raise_outcome outcome currency amount (b ∷ books) =
    let rest = raise_outcome outcome currency amount books in
    if is_outcome_book outcome currency b
    then record b { total_bet_amount = b.total_bet_amount + amount } ∷ books
    else b ∷ rest

-- The mirror of the ngultrum book on the outcomes of the market.
abbrev pub mirror_outcomes : ℕ → List OutcomeBook → Rows OutcomeRow → Rows OutcomeRow
mirror_outcomes market books [] = []
mirror_outcomes market books ((key, o) ∷ outcomes) =
    let rest = mirror_outcomes market books outcomes in
    let mirrored = elim (find (is_outcome_book key btn_currency) books) as (λ _. OutcomeRow) [
      | none ↦ o
      | some b ↦ record o { total_bet_amount = b.total_bet_amount }
    ] in
    (key, if o.market == market then mirrored else o) ∷ rest

-- Only a ngultrum stake that the money without the bonus does not cover is paid from the bonus.
unfoldable pub is_bonus_stake : String → ℕ → ℕ → ℤ → Bool
is_bonus_stake currency amount bonus balance =
    ((str_eq currency btn_currency && ltb 0 bonus) && leb amount bonus)
    && ltb (pos_part (balance -ℤ pos bonus)) amount

abbrev pub new_bet : ℕ → ℕ → ℕ → ℕ → String → Bool → Bet
new_bet user market outcome amount currency is_bonus_funded = record {
  market = market;
  user = user;
  amount = amount;
  currency = some currency;
  status = PositionStatus.pending;
  outcome = outcome;
  payout = none;
  is_bonus_funded = is_bonus_funded;
  streak_boost_armed = false;
}

abbrev pub stake_row : Store → ℕ → ℕ → ℕ → ℕ → String → Transaction
stake_row s user key market amount currency =
    let balance_before = ledger_balance s.duels.ledger user currency in
    record {
      user = user;
      type = TransactionType.position_opened;
      amount = pos 0 -ℤ pos amount;
      currency = currency;
      balance_before = balance_before;
      balance_after = balance_before -ℤ pos amount;
      payment = none;
      position = some key;
      note = Note.position_opened_on market;
    }

-- The writes of the transaction, with the book that `ensureBook` returned.
unfoldable pub write_position :
    ℕ → ℕ → ℕ → ℕ → Market → String → MarketBook × List MarketBook → Desk → Desk
unfolding is_bonus_stake
write_position user market outcome amount m currency (book, books) d =
    let s = d.store in
    let is_btn = str_eq currency btn_currency in
    let balance = ledger_balance s.duels.ledger user currency in
    let bonus = elim (lookup user s.bonuses) as (λ _. ℕ) [ none ↦ 0 | some b ↦ b.bonus_balance ] in
    let stakes =
      raise_outcome outcome currency amount
        (ensure_outcome_books market currency d.outcomes d.outcome_books) in
    let mirror = record m { total_pool = book.total_pool + amount } in
    let paid =
      with_ledger (stake_row s user d.next_position market amount currency ∷ s.duels.ledger) s in
    record d {
      store = record paid {
        markets = if is_btn then insert market mirror s.markets else s.markets;
        books = raise_pool market currency amount books;
        bets =
            insert d.next_position
              (new_bet user market outcome amount currency
                (is_bonus_stake currency amount bonus balance))
              s.bets;
      };
      outcomes = if is_btn then mirror_outcomes market stakes d.outcomes else d.outcomes;
      outcome_books = stakes;
      next_position = d.next_position + 1;
    }

-- The checks from the book on.
unfoldable pub check_stake : ℕ → ℕ → ℕ → ℕ → ℕ → Market → String → Desk → Result Desk
unfolding ensure_book write_position
check_stake user market outcome amount usdt_min_stake m currency d =
    let b = ensure_book market m currency usdt_min_stake d.store.books in
    if not b.0.is_enabled
    then err book_disabled
    else if ltb amount b.0.min_stake
    then err below_minimum
    else if ltb_ℤ (ledger_balance d.store.duels.ledger user currency) (pos amount)
    then err insufficient_balance
    else ok (write_position user market outcome amount m currency b d)

abbrev pub is_opened : MarketStatus → Bool
is_opened MarketStatus.opened = true
is_opened _ = false

abbrev pub has_closed : Option ℕ → ℕ → Bool
has_closed none now = false
has_closed (some t) now = leb t now

abbrev pub outcome_on : ℕ → Option OutcomeRow → Option OutcomeRow
outcome_on market none = none
outcome_on market (some o) = if o.market == market then some o else none

-- The checks of the account.
unfoldable pub check_account : (String → String) → Account → Option String → Result String
unfolding resolve_wallet_currency
check_account to_upper_case a requested =
    let wallet = resolve_wallet_currency to_upper_case a requested in
    let is_btn = str_eq wallet.0 btn_currency in
    if not wallet.1
    then err currency_not_allowed
    else if is_btn && not a.has_dk_account
    then err dk_account_missing
    else if is_btn && not a.has_phone
    then err phone_missing
    else ok wallet.0

-- The transaction of `placePosition`; what raises leaves the tables as they were.
unfoldable pub place_position :
    (String → String) → ℕ → ℕ → ℕ → ℕ → ℕ → Option String → ℕ → Desk → Result Desk
unfolding check_account check_stake
place_position to_upper_case usdt_min_stake user market outcome amount requested now d =
    if amount == 0 then err amount_not_positive else elim (lookup market d.store.markets) [
      | none ↦ err market_not_found
      | some m ↦
          if not (is_opened m.status)
          then err market_not_open
          else if has_closed (lookup market d.betting_closes_at) now
          then err betting_closed
          else elim (outcome_on market (lookup outcome d.outcomes)) [
            | none ↦ err outcome_not_found
            | some o ↦
                if o.is_eliminated then err outcome_eliminated else elim (lookup user d.accounts) [
                  | none ↦ err user_not_found
                  | some a ↦ elim (check_account to_upper_case a requested) [
                    | err e ↦ err e
                    | ok currency ↦
                        check_stake user market outcome amount usdt_min_stake m currency d
                  ]
                ]
          ]
    ]

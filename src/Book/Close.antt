-- ===== src/Book/Close.antt =====
-- `settleBook` and `settleMarket` as a whole (src/markets/parimutuel.engine.ts).
use Prim.Native.String.{String}
use text.Mathlib.Text.{◌==◌ as str_eq}
use oro_backend.Base.{
  ℕ, ◌+◌, ◌-◌, ◌*◌, Bool, true, false, not, ◌==◌, Option, none, some, List, [], ◌∷◌, ◌++◌, keep,
  length, if◌then◌else◌,
}
use oro_backend.Base.Rows.{Rows, lookup, insert}
use oro_backend.Entities.{MarketStatus}
use oro_backend.Ledger.{btn_currency}
use oro_backend.Payout.{Rounding}
use oro_backend.Market.{
  btn_min_stake_for, Market, Bet, Bonus, MarketBook, Settlement, Store, with_ledger,
}
use oro_backend.Book.Bets.{Run, settle_bets}
use oro_backend.Book.Settle.{
  Config, Objector, find_settlement, bets_of_book, is_thin, house_scale, record_settlement,
  refund_and_record_settlement, reward_challengers, context_of,
}

-- `em.update(User, ...)` for every entry; it does nothing for an unknown user.
unfoldable pub write_bonuses : Rows Bonus → Rows Bonus → Rows Bonus
write_bonuses [] users = users
write_bonuses ((user, b) ∷ updates) users =
    write_bonuses updates (elim (lookup user users) [ none ↦ users | some _ ↦ insert user b users ])

abbrev pub start_run : Store → Run
start_run s = record {
  rows = s.duels.ledger;
  deltas = [];
  bonus_updates = [];
  bets = s.bets;
  total_paid_out = 0;
  winning_positions = 0;
}

-- The bulk writes after the loop.
unfoldable pub write_run : Run → Store → Store
write_run run s = record (with_ledger run.rows s) {
  bets = run.bets;
  bonuses = write_bonuses run.bonus_updates s.bonuses;
}

-- The entries of a map by currency.
abbrev pub forfeit_in : List (String × ℕ) → String → ℕ
forfeit_in [] currency = 0
forfeit_in ((c, n) ∷ forfeits) currency =
    let rest = forfeit_in forfeits currency in if str_eq c currency then n else rest

abbrev pub objectors_in : List (String × List Objector) → String → List Objector
objectors_in [] currency = []
objectors_in ((c, os) ∷ rewards) currency =
    let rest = objectors_in rewards currency in if str_eq c currency then os else rest

abbrev pub books_of : ℕ → List MarketBook → List MarketBook
books_of market books = keep (λ (b : MarketBook). b.market == market) books

abbrev pub btn_first : List MarketBook → List MarketBook
btn_first books =
    keep (λ (b : MarketBook). str_eq b.currency btn_currency) books
    ++ keep (λ (b : MarketBook). not (str_eq b.currency btn_currency)) books

abbrev pub settlements_of : ℕ → Store → List Settlement
settlements_of market s = keep (λ (t : Settlement). t.market == market) s.settlements

abbrev pub set_status : ℕ → Market → MarketStatus → Store → Store
set_status market m status s = record s {
  markets = insert market (record m { status = status }) s.markets;
}

-- The books of a market, or a first one in ngultrum, which is saved.
abbrev pub or_fresh : MarketBook → List MarketBook → List MarketBook
or_fresh fresh [] = fresh ∷ []
or_fresh fresh (b ∷ books) = b ∷ books

abbrev pub save_fresh : MarketBook → List MarketBook → List MarketBook → List MarketBook
save_fresh fresh [] saved = saved ++ (fresh ∷ [])
save_fresh fresh (b ∷ books) saved = saved

module _ (r : Rounding) where
  -- The loop over the bets, its writes, the objectors and the record.
  unfoldable pub pay_book :
      Config → ℕ → MarketBook → ℕ → List Objector → Rows Bet → Store → Settlement × Store
  pay_book config winner book forfeit objectors bets s =
      let run = settle_bets r (context_of r winner book bets s) bets (start_run s) in
      let pool_residual = r.nearest (book.total_pool - run.total_paid_out) 1 in
      let rewarded = reward_challengers r config book pool_residual objectors (write_run run s) in
      record_settlement
        (record {
          market = book.market;
          currency = book.currency;
          winning_outcome = winner;
          total_positions = length bets;
          winning_positions = run.winning_positions;
          total_pool = book.total_pool;
          house_amount = r.nearest (pool_residual + forfeit - rewarded.0) 1;
          house_forfeit = r.nearest forfeit 1;
          payout_pool = book.total_pool * (house_scale - book.house_edge);
          total_paid_out = run.total_paid_out;
          is_thin_pool = false;
        })
        rewarded.1

  unfoldable pub settle_book :
      Config → ℕ → MarketBook → ℕ → List Objector → Store → Settlement × Store
  unfolding pay_book is_thin refund_and_record_settlement
  settle_book config winner book forfeit objectors s =
      let bets = bets_of_book book.market book.currency s.bets in
      elim (find_settlement book.market book.currency s.settlements) [
        | some existing ↦ (existing, s)
        | none ↦
            if is_thin config.min_unique_bettors winner bets
            then refund_and_record_settlement book.market winner bets book.total_pool book.currency
                s
            else pay_book config winner book forfeit objectors bets s
      ]

  unfoldable pub settle_books :
      Config
      → ℕ
      → List (String × ℕ)
      → List (String × List Objector)
      → List MarketBook
      → Store
      → List Settlement × Store
  unfolding settle_book
  settle_books config winner forfeits rewards [] s = ([], s)
  settle_books config winner forfeits rewards (b ∷ books) s =
      let (t, s') =
        settle_book config winner b (forfeit_in forfeits b.currency)
          (objectors_in rewards b.currency) s in
      let (ts, s'') = settle_books config winner forfeits rewards books s' in (t ∷ ts, s'')

  -- `settleMarket` under the lock of its market, given the settlements that are there. The flag is
  -- `run.alreadySettled`.
  unfoldable pub settle_locked :
      Config
      → ℕ
      → ℕ
      → List (String × ℕ)
      → List (String × List Objector)
      → Market
      → List Settlement
      → Store
      → Bool × List Settlement × Store
  unfolding settle_books
  settle_locked config market winner forfeits rewards m (t ∷ ts) s =
      (true, t ∷ ts, set_status market m MarketStatus.settled s)
  settle_locked config market winner forfeits rewards m [] s =
      let fresh : MarketBook = record {
        market = market;
        currency = btn_currency;
        total_pool = m.total_pool;
        house_edge = m.house_edge;
        dispute_bond_pool = 0;
        min_stake = btn_min_stake_for m;
        is_enabled = true;
      } in
      let found = books_of market s.books in
      let (ts, s') =
        settle_books config winner forfeits rewards (btn_first (or_fresh fresh found))
          (record s { books = save_fresh fresh found s.books }) in
      (false, ts, set_status market m MarketStatus.settled s')

  -- `none` is an unknown market.
  unfoldable pub settle_market :
      Config
      → ℕ
      → ℕ
      → List (String × ℕ)
      → List (String × List Objector)
      → Store
      → Option (Bool × List Settlement × Store)
  unfolding settle_locked
  settle_market config market winner forfeits rewards s = elim (lookup market s.markets) [
    | none ↦ none
    | some m ↦
        some (settle_locked config market winner forfeits rewards m (settlements_of market s) s)
  ]

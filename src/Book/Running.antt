-- ===== src/Book/Running.antt =====
-- The balances that the rows of a settlement record (src/markets/parimutuel.engine.ts).
use Prim.Native.String.{String}
use text.Mathlib.Text.{◌==◌ as str_eq}
use oro_backend.Base.{
  ℕ, ◌-◌, ◌*◌, ◌≡◌, refl, sym, inl, inr, ◌&&◌, ◌==◌, some, List, [], ◌∷◌, ltb, leb, get_or,
  Bool-cases, Option-cases, All,
}
use mathlib.Core.Path.{subst}
use oro_backend.Base.Int.{int_laws}
use oro_backend.Base.Rows.{Rows, lookup}
use oro_backend.Ledger.{Transaction, TransactionType, Note}
use oro_backend.Ledger.Balance.{ledger_balance}
use oro_backend.Duel.{User, ledger_balance_for_account}
use oro_backend.Payout.{Rounding}
use oro_backend.Market.{Bet, MarketBook, Store, Deltas, delta_of}
use oro_backend.Market.Refunds.{IsRunning, Tracks, refund_positions-IsRunning}
use oro_backend.Book.Bets.{
  Context, Run, withdrawable_of, use_bonus, pay_row, boost_of, win_bet, lose_bet, settle_bet,
  settle_bets,
}
use oro_backend.Book.Settle.{
  Config, Objector, find_settlement, bets_of_book, is_thin, context_of, pay_objector, pay_objectors,
  reward_challengers, reward_pool_of, total_bond, refund_and_record_settlement,
}
use oro_backend.Book.Branches.{settle_book_existing, settle_book_thin, settle_book_thick}
use oro_backend.Book.Close.{start_run, write_run, pay_book, settle_book}
use oro_backend.Book.Money.{use_bonus_frame, lose_bonus_frame}

-- The rows so far are in order, and the deltas are what they add to the preloaded ledger.
abbrev IsOrdered : List Transaction → Deltas → List Transaction → Type 0
IsOrdered preloaded deltas rows = Tracks preloaded deltas rows × IsRunning rows

pay_row-IsOrdered :
    (c : Context) (type : TransactionType) (note : Note) (key user amount : ℕ) (run : Run)
    → IsOrdered c.preloaded run.deltas run.rows
    → IsOrdered c.preloaded
        (pay_row c type note key user amount run).deltas
        (pay_row c type note key user amount run).rows
unfolding pay_row ledger_balance delta_of
pay_row-IsOrdered c type note key user amount run (tracks, running) = (
  λ u currency. elim (Bool-cases (user == u && str_eq c.currency currency)) [
    | inl mine ↦ rw (mine, tracks u currency) (omega int_laws)
    | inr other ↦ rw (other, tracks u currency) refl
  ],
  ((sym (tracks user c.currency), refl), running),
)

-- Every objector is a user whose account is in the currency.
abbrev pub AreIn : String → Store → List Objector → Type 0
AreIn currency s os =
    All
      (λ (o : Objector).
        (u : User) × (lookup o.user s.duels.users ≡ some u) × (u.currency ≡ currency))
      os

module _ (r : Rounding) where
  settle_bet-IsOrdered :
      (c : Context) (b : ℕ × Bet) (run : Run)
      → IsOrdered c.preloaded run.deltas run.rows
      → IsOrdered c.preloaded (settle_bet r c b run).deltas (settle_bet r c b run).rows
  unfolding settle_bet win_bet lose_bet
  settle_bet-IsOrdered c (key, bet) run h = elim (Bool-cases (bet.outcome == c.winner)) [
    | inr loses ↦
        let (rows, deltas, paid) = lose_bonus_frame c bet run in rw (loses, rows, deltas) h
    | inl wins ↦
        let w = withdrawable_of r c bet (get_or (lookup key c.payouts) 0) run in
        let (rows, deltas) = use_bonus_frame c bet w run in
        let start : IsOrdered c.preloaded (use_bonus c bet w run).deltas
            (use_bonus c bet w run).rows =
          rw (rows, deltas) h in
        let paid =
          pay_row c TransactionType.position_payout (Note.position_won c.winner) key bet.user w
            (use_bonus c bet w run) in
        let first =
          pay_row-IsOrdered c TransactionType.position_payout (Note.position_won c.winner) key
            bet.user w (use_bonus c bet w run) start in
        elim (Bool-cases (ltb 0 (boost_of r bet w))) [
          | inl boosted ↦
              rw (wins, boosted)
                (pay_row-IsOrdered c TransactionType.streak_bonus Note.streak_boost key bet.user
                  (boost_of r bet w) paid first)
          | inr plain ↦ rw (wins, plain) first
        ]
  ]

  settle_bets-IsOrdered :
      (c : Context) (bets : Rows Bet) (run : Run)
      → IsOrdered c.preloaded run.deltas run.rows
      → IsOrdered c.preloaded (settle_bets r c bets run).deltas (settle_bets r c bets run).rows
  unfolding settle_bets
  settle_bets-IsOrdered c [] run h = h
  settle_bets-IsOrdered c (b ∷ bets) run h =
      settle_bets-IsOrdered c bets (settle_bet r c b run) (settle_bet-IsOrdered c b run h)

  pay_objector-IsRunning :
      (market : ℕ) (currency : String) (reward_pool bonds : ℕ) (o : Objector) (acc : ℕ × Store)
      → AreIn currency acc.1 (o ∷ [])
      → IsRunning acc.1.duels.ledger
      → IsRunning (pay_objector r market currency reward_pool bonds o acc).1.duels.ledger
        × ((pay_objector r market currency reward_pool bonds o acc).1.duels.users
            ≡ acc.1.duels.users)
  unfolding pay_objector
  pay_objector-IsRunning market currency reward_pool bonds o (paid, s) ((u, known, c), none_left)
        h =
      elim (Bool-cases (leb (r.nearest (o.bond_amount * reward_pool) bonds) 0)) [
        | inl nothing ↦ rw nothing (h, refl)
        | inr share ↦ rw share (((rw (ledger_balance_for_account, known, c) refl, refl), h), refl)
      ]

  pay_objectors-IsRunning :
      (market : ℕ) (currency : String) (reward_pool bonds : ℕ) (os : List Objector)
      (acc : ℕ × Store)
      → AreIn currency acc.1 os
      → IsRunning acc.1.duels.ledger
      → IsRunning (pay_objectors r market currency reward_pool bonds os acc).1.duels.ledger
  unfolding pay_objectors
  pay_objectors-IsRunning market currency reward_pool bonds [] acc accounts h = h
  pay_objectors-IsRunning market currency reward_pool bonds (o ∷ os) acc (account, accounts) h =
      let (running, same) =
        pay_objector-IsRunning market currency reward_pool bonds o acc (account, tt) h in
      pay_objectors-IsRunning market currency reward_pool bonds os
        (pay_objector r market currency reward_pool bonds o acc)
        (subst
          (λ (users : Rows User).
            All
              (λ (x : Objector).
                (u : User) × (lookup x.user users ≡ some u) × (u.currency ≡ currency))
              os)
          (sym same) accounts)
        running

  reward_challengers-IsRunning :
      (config : Config) (book : MarketBook) (residual : ℕ) (os : List Objector) (s : Store)
      → AreIn book.currency s os
      → IsRunning s.duels.ledger
      → IsRunning (reward_challengers r config book residual os s).1.duels.ledger
  unfolding reward_challengers
  reward_challengers-IsRunning config book residual os s accounts h =
      let pool = reward_pool_of r config book residual in
      elim (Bool-cases (ltb 0 pool && ltb 0 (total_bond os))) [
        | inl some_reward ↦ rw some_reward (
            pay_objectors-IsRunning book.market book.currency pool (total_bond os) os (0, s)
              accounts h)
        | inr nothing ↦ rw nothing h
      ]

  -- If every row of the ledger records the balance of its account just before it, so does every
  -- row after a book is settled, whether it was settled before, is refunded as thin or pays, when
  -- the objectors to reward have accounts in the currency of the book.
  pub settle_book-IsRunning :
      (config : Config) (winner : ℕ) (book : MarketBook) (forfeit : ℕ) (os : List Objector)
      (s : Store)
      → AreIn book.currency s os
      → IsRunning s.duels.ledger
      → IsRunning (settle_book r config winner book forfeit os s).1.duels.ledger
  unfolding pay_book write_run refund_and_record_settlement
  settle_book-IsRunning config winner book forfeit os s accounts h =
      let bets = bets_of_book book.market book.currency s.bets in
      elim (Option-cases (find_settlement book.market book.currency s.settlements)) [
        | inr (t, settled) ↦ rw (settle_book_existing r config winner book forfeit os s t settled) h
        | inl fresh ↦ elim (Bool-cases (is_thin config.min_unique_bettors winner bets)) [
          | inl thin ↦
              rw (settle_book_thin r config winner book forfeit os s fresh thin)
                (refund_positions-IsRunning bets Note.thin_pool_refund s h)
          | inr thick ↦
              let run = settle_bets r (context_of r winner book bets s) bets (start_run s) in
              let (tracks, running) =
                settle_bets-IsOrdered (context_of r winner book bets s) bets (start_run s)
                  (λ user currency. unfold delta_of in omega int_laws, h) in
              rw (settle_book_thick r config winner book forfeit os s fresh thick) (
                reward_challengers-IsRunning config book
                  (r.nearest (book.total_pool - run.total_paid_out) 1) os (write_run run s) accounts
                  running)
        ]
      ]

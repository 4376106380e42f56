-- ===== src/Book/Money.antt =====
-- The money of one book: what its settlement pays out of the pool and what the house books
-- (src/markets/parimutuel.engine.ts).
use Prim.Native.String.{String}
use text.Mathlib.Text.{◌==◌ as str_eq}
use text.Mathlib.TextEquality.{eq_iff}
use oro_backend.Base.{
  ℕ, ◌+◌, ◌-◌, ◌*◌, ◌/◌, ◌<◌, ◌≤◌, ◌≡◌, refl, sym, ap, ◌∙◌, inl, inr, Bool, true, false, ◌&&◌, ◌==◌,
  not, none, List, [], ◌∷◌, ltb, leb, get_or, Bool-cases, arith, if◌then◌else◌,
}
use oro_backend.Base.Int.{ℤ, pos, ◌+ℤ◌, int_laws}
use oro_backend.Base.Rows.{Rows, lookup}
use oro_backend.Ledger.{Transaction, TransactionType}
use oro_backend.Payout.{
  Rounding, IsWhole, IsWhole-sum, nearest_sum, nearest_error, nearest_positive,
}
use oro_backend.Market.{Bet, MarketBook, Settlement, Store}
use oro_backend.Book.Bets.{
  Context, Run, withdrawable_of, use_bonus, pay_row, is_funded_here, boost_of, win_bet, lose_bet,
  lose_bonus, bonus_of, settle_bet, settle_bets,
}
use oro_backend.Book.Settle.{
  Config, Objector, find_settlement, bets_of_book, is_thin, context_of, pay_objector, pay_objectors,
  reward_challengers, reward_pool_of, total_bond,
}
use oro_backend.Book.Branches.{settle_book_thick}
use oro_backend.Book.Close.{start_run, write_run, pay_book, settle_book}

abbrev is_boost : TransactionType → Bool
is_boost TransactionType.streak_bonus = true
is_boost _ = false

-- All money of one currency in the ledger but the streak bonuses, which the platform funds.
abbrev pub pool_money : List Transaction → String → ℤ
pool_money [] currency = pos 0
pool_money (t ∷ ts) currency =
    let rest = pool_money ts currency in
    if str_eq t.currency currency && not (is_boost t.type) then t.amount +ℤ rest else rest

-- Two amounts are the same but for two roundings, each by half a last decimal place at most.
abbrev pub Balances : Rounding → ℤ → ℤ → Type 0
Balances r a b =
    (over under : ℕ) × (over ≤ 2 * (r.unit / 2))
    × (under ≤ 2 * (r.unit / 2))
    × (a +ℤ pos under ≡ b +ℤ pos over)

pub str_eq_refl : (c : String) → str_eq c c ≡ true
str_eq_refl c = (eq_iff c c).1 refl

pub use_bonus_frame :
    (c : Context) (bet : Bet) (w : ℕ) (run : Run)
    → ((use_bonus c bet w run).rows ≡ run.rows) × ((use_bonus c bet w run).deltas ≡ run.deltas)
use_bonus_frame c bet w run = elim (Bool-cases (is_funded_here c bet)) [
  | inl funded ↦ rw funded (refl, refl)
  | inr own ↦ rw own (refl, refl)
]

pub lose_bonus_frame :
    (c : Context) (bet : Bet) (run : Run)
    → ((lose_bonus c bet run).rows ≡ run.rows)
      × ((lose_bonus c bet run).deltas ≡ run.deltas)
      × ((lose_bonus c bet run).total_paid_out ≡ run.total_paid_out)
lose_bonus_frame c bet run =
    elim (Bool-cases (is_funded_here c bet && ltb 0 (bonus_of c bet.user run).bonus_balance)) [
      | inl funded ↦ rw funded (refl, refl, refl)
      | inr own ↦ rw own (refl, refl, refl)
    ]

module _ (r : Rounding) where
  win_bet-money :
      (c : Context) (key : ℕ) (bet : Bet) (run : Run) (n : ℤ)
      → pool_money run.rows c.currency ≡ n +ℤ pos run.total_paid_out
      → pool_money (win_bet r c key bet run).rows c.currency
        ≡ n +ℤ pos (win_bet r c key bet run).total_paid_out
  unfolding win_bet pay_row
  win_bet-money c key bet run n h =
      let w = withdrawable_of r c bet (get_or (lookup key c.payouts) 0) run in
      let (same, kept) = use_bonus_frame c bet w run in
      let mine = str_eq_refl c.currency in
      elim (Bool-cases (ltb 0 (boost_of r bet w))) [
        | inl boosted ↦ rw (boosted, mine, same, h) (omega int_laws)
        | inr plain ↦ rw (plain, mine, same, h) (omega int_laws)
      ]

  settle_bet-money :
      (c : Context) (b : ℕ × Bet) (run : Run) (n : ℤ)
      → pool_money run.rows c.currency ≡ n +ℤ pos run.total_paid_out
      → pool_money (settle_bet r c b run).rows c.currency
        ≡ n +ℤ pos (settle_bet r c b run).total_paid_out
  unfolding settle_bet lose_bet
  settle_bet-money c b run n h = elim (Bool-cases (b.1.outcome == c.winner)) [
    | inl wins ↦ rw wins (win_bet-money c b.0 b.1 run n h)
    | inr loses ↦ let (same, kept, paid) = lose_bonus_frame c b.1 run in rw (loses, same, paid) h
  ]

  settle_bets-money :
      (c : Context) (bets : Rows Bet) (run : Run) (n : ℤ)
      → pool_money run.rows c.currency ≡ n +ℤ pos run.total_paid_out
      → pool_money (settle_bets r c bets run).rows c.currency
        ≡ n +ℤ pos (settle_bets r c bets run).total_paid_out
  unfolding settle_bets
  settle_bets-money c [] run n h = h
  settle_bets-money c (b ∷ bets) run n h =
      settle_bets-money c bets (settle_bet r c b run) n (settle_bet-money c b run n h)

  pay_objector-money :
      (market : ℕ) (currency : String) (reward_pool bonds : ℕ) (o : Objector) (paid : ℕ) (s : Store)
      (n : ℤ)
      → IsWhole r paid
      → pool_money s.duels.ledger currency ≡ n +ℤ pos paid
      → let acc = pay_objector r market currency reward_pool bonds o (paid, s) in
        IsWhole r acc.0 × (pool_money acc.1.duels.ledger currency ≡ n +ℤ pos acc.0)
  unfolding pay_objector
  pay_objector-money market currency reward_pool bonds o paid s n w h =
      let share = r.nearest (o.bond_amount * reward_pool) bonds in
      elim (Bool-cases (leb share 0)) [
        | inl nothing ↦ rw nothing (w, h)
        | inr some_share ↦
            let sum = nearest_sum r paid share w (r.whole (o.bond_amount * reward_pool) bonds) in
            rw (some_share, str_eq_refl currency, sum, h)
              (
                IsWhole-sum r paid share w (r.whole (o.bond_amount * reward_pool) bonds),
                omega int_laws,
              )
      ]

  pay_objectors-money :
      (market : ℕ) (currency : String) (reward_pool bonds : ℕ) (os : List Objector)
      (acc : ℕ × Store) (n : ℤ)
      → IsWhole r acc.0
      → pool_money acc.1.duels.ledger currency ≡ n +ℤ pos acc.0
      → pool_money
          (pay_objectors r market currency reward_pool bonds os acc).1.duels.ledger
          currency
        ≡ n +ℤ pos (pay_objectors r market currency reward_pool bonds os acc).0
  unfolding pay_objectors
  pay_objectors-money market currency reward_pool bonds [] acc n w h = h
  pay_objectors-money market currency reward_pool bonds (o ∷ os) (paid, s) n w h =
      let (w', h') = pay_objector-money market currency reward_pool bonds o paid s n w h in
      pay_objectors-money market currency reward_pool bonds os
        (pay_objector r market currency reward_pool bonds o (paid, s)) n w' h'

  reward_challengers-money :
      (config : Config) (book : MarketBook) (residual : ℕ) (os : List Objector) (s : Store)
      → pool_money (reward_challengers r config book residual os s).1.duels.ledger book.currency
        ≡ pool_money s.duels.ledger book.currency
          +ℤ pos (reward_challengers r config book residual os s).0
  unfolding reward_challengers
  reward_challengers-money config book residual os s =
      let pool = reward_pool_of r config book residual in
      elim (Bool-cases (ltb 0 pool && ltb 0 (total_bond os))) [
        | inl some_reward ↦ rw some_reward (
            pay_objectors-money book.market book.currency pool (total_bond os) os (0, s)
              (pool_money s.duels.ledger book.currency) (0, omega arith) (omega int_laws))
        | inr nothing ↦ rw nothing (omega int_laws)
      ]

  pay_book-money :
      (config : Config) (winner : ℕ) (book : MarketBook) (forfeit : ℕ) (os : List Objector)
      (bets : Rows Bet) (s : Store)
      → (pay_book r config winner book forfeit os bets s).0.total_paid_out ≤ book.total_pool
      → 0 < (pay_book r config winner book forfeit os bets s).0.house_amount
      → Balances r
          (pool_money (pay_book r config winner book forfeit os bets s).1.duels.ledger book.currency
            +ℤ pos (pay_book r config winner book forfeit os bets s).0.house_amount)
          (pool_money s.duels.ledger book.currency +ℤ pos (book.total_pool + forfeit))
  unfolding pay_book write_run
  pay_book-money config winner book forfeit os bets s funded revenue =
      let run = settle_bets r (context_of r winner book bets s) bets (start_run s) in
      let residual = r.nearest (book.total_pool - run.total_paid_out) 1 in
      let paid =
        settle_bets-money (context_of r winner book bets s) bets (start_run s)
          (pool_money s.duels.ledger book.currency) (omega int_laws) in
      let rewarded = reward_challengers-money config book residual os (write_run run s) in
      let reward = (reward_challengers r config book residual os (write_run run s)).0 in
      let (over, under, o, u, kept) = nearest_error r (book.total_pool - run.total_paid_out) in
      let (over', under', o', u', booked) = nearest_error r (residual + forfeit - reward) in
      let some_left = nearest_positive r (residual + forfeit - reward) revenue in
      (
        over + over',
        under + under',
        omega (arith, o, o'),
        omega (arith, u, u'),
        rw (rewarded, paid) (omega (int_laws, funded, some_left, kept, booked)),
      )

  -- When a book with bets on both sides from at least the configured number of bettors is settled
  -- for the first time, pays its winners no more than its pool and books some revenue, the growth
  -- of the ledger in its currency, streak bonuses aside, and the booked revenue are together the
  -- pool and the forfeited bonds but for two roundings, each by half a last decimal place at most,
  -- so exactly these where the last decimal place is the unit that amounts are counted in.
  pub settle_book-money :
      (config : Config) (winner : ℕ) (book : MarketBook) (forfeit : ℕ) (os : List Objector)
      (s s' : Store) (t : Settlement)
      → find_settlement book.market book.currency s.settlements ≡ none
      → is_thin config.min_unique_bettors winner (bets_of_book book.market book.currency s.bets)
        ≡ false
      → settle_book r config winner book forfeit os s ≡ (t, s')
      → t.total_paid_out ≤ book.total_pool
      → 0 < t.house_amount
      → Balances r
          (pool_money s'.duels.ledger book.currency +ℤ pos t.house_amount)
          (pool_money s.duels.ledger book.currency +ℤ pos (book.total_pool + forfeit))
  settle_book-money config winner book forfeit os s s' t fresh thick e funded revenue =
      let bets = bets_of_book book.market book.currency s.bets in
      let e' = sym (settle_book_thick r config winner book forfeit os s fresh thick) ∙ e in
      let et = ap (λ (x : Settlement × Store). x.0) e' in
      let es = ap (λ (x : Settlement × Store). x.1) e' in
      let (over, under, o, u, m) =
        pay_book-money config winner book forfeit os bets s (rw et funded) (rw et revenue) in
      (over, under, o, u, cc (m, et, es))

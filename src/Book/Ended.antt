-- ===== src/Book/Ended.antt =====
-- The bets that `settleBook` leaves (src/markets/parimutuel.engine.ts).
use Prim.Native.String.{String}
use oro_backend.Base.{
  ℕ, ◌-◌, ◌*◌, ◌≡◌, refl, sym, ap, ◌∙◌, inl, inr, false, ◌&&◌, ◌==◌, Option, none, some, List, [],
  ◌∷◌, ltb, leb, get_or, Bool-cases, ==_iff, if◌then◌else◌, arith,
}
use mathlib.Core.Path.{subst}
use oro_backend.Base.Rows.{
  Rows, lookup, insert, lookup-insert, UniqueKeys, only, lookup-keep, keep-UniqueKeys,
}
use oro_backend.Payout.{Rounding}
use oro_backend.Market.{Bet, MarketBook, Settlement, Store, is_pending}
use oro_backend.Book.Bets.{
  Context, Run, withdrawable_of, use_bonus, is_funded_here, win_bet, lose_bet, lose_bonus, bonus_of,
  settle_bet, settle_bets, won, lost,
}
use oro_backend.Book.Settle.{
  Config, Objector, find_settlement, bets_of_book, in_currency, is_thin, context_of, pay_objector,
  pay_objectors, reward_challengers, reward_pool_of, total_bond,
}
use oro_backend.Book.Branches.{settle_book_thick}
use oro_backend.Book.Close.{start_run, write_run, pay_book, settle_book}

-- A bet on the winner is won, with some payout; any other is lost.
abbrev pub IsEnd : ℕ → Bet → Bet → Type 0
IsEnd winner b x = if b.outcome == winner then ((p : ℕ) × (x ≡ won b p)) else (x ≡ lost b)

-- What a book's settlement makes of the bet that stands under a key.
abbrev pub IsEndIn : ℕ → Option Bet → Option Bet → Option Bet → Type 0
IsEndIn winner none before after = after ≡ before
IsEndIn winner (some b) before after = (x : Bet) × (after ≡ some x) × IsEnd winner b x

use_bonus-bets :
    (c : Context) (bet : Bet) (w : ℕ) (run : Run) → (use_bonus c bet w run).bets ≡ run.bets
use_bonus-bets c bet w run = elim (Bool-cases (is_funded_here c bet)) [
  | inl funded ↦ rw funded refl
  | inr own ↦ rw own refl
]

lose_bonus-bets : (c : Context) (bet : Bet) (run : Run) → (lose_bonus c bet run).bets ≡ run.bets
lose_bonus-bets c bet run =
    elim (Bool-cases (is_funded_here c bet && ltb 0 (bonus_of c bet.user run).bonus_balance)) [
      | inl funded ↦ rw funded refl
      | inr own ↦ rw own refl
    ]

module _ (r : Rounding) where
  settle_bet-bets :
      (c : Context) (key : ℕ) (bet : Bet) (run : Run)
      → (x : Bet) × ((settle_bet r c (key, bet) run).bets ≡ insert key x run.bets)
        × IsEnd c.winner bet x
  unfolding settle_bet win_bet lose_bet
  settle_bet-bets c key bet run = elim (Bool-cases (bet.outcome == c.winner)) [
    | inl wins ↦
        let w = withdrawable_of r c bet (get_or (lookup key c.payouts) 0) run in
        (won bet w, rw wins refl, rw wins (w, refl))
    | inr loses ↦ (lost bet, rw loses refl, rw loses refl)
  ]

  settle_bets-lookup :
      (c : Context) (bets : Rows Bet) (run : Run) (j : ℕ)
      → UniqueKeys bets
      → IsEndIn c.winner
          (lookup j bets)
          (lookup j run.bets)
          (lookup j (settle_bets r c bets run).bets)
  unfolding settle_bets
  settle_bets-lookup c [] run j u = refl
  settle_bets-lookup c ((key, bet) ∷ bets) run j u =
      let (x, e, end) = settle_bet-bets c key bet run in
      let ih = settle_bets-lookup c bets (settle_bet r c (key, bet) run) j u.1 in
      let at_key = lookup-insert j key x run.bets in
      elim (Bool-cases (j == key)) [
        | inl here ↦
            let same : j ≡ key = (==_iff j key).0 here in
            let absent : lookup j bets ≡ none = rw same u.0 in
            let now : lookup j (settle_bet r c (key, bet) run).bets ≡ some x =
              ap (lookup j) e ∙ at_key ∙ rw here refl in
            let after : lookup j (settle_bets r c bets (settle_bet r c (key, bet) run)).bets
                ≡ lookup j (settle_bet r c (key, bet) run).bets =
              subst
                (λ (o : Option Bet).
                  IsEndIn c.winner o (lookup j (settle_bet r c (key, bet) run).bets)
                    (lookup j (settle_bets r c bets (settle_bet r c (key, bet) run)).bets))
                absent ih in
            rw here (x, after ∙ now, end)
        | inr there ↦
            let now : lookup j (settle_bet r c (key, bet) run).bets ≡ lookup j run.bets =
              ap (lookup j) e ∙ at_key ∙ rw there refl in
            rw there (
              subst
                (λ (o : Option Bet).
                  IsEndIn c.winner (lookup j bets) o
                    (lookup j (settle_bets r c bets (settle_bet r c (key, bet) run)).bets))
                now ih)
      ]

  pay_objectors-bets :
      (market : ℕ) (currency : String) (reward_pool bonds : ℕ) (os : List Objector)
      (acc : ℕ × Store)
      → ((pay_objectors r market currency reward_pool bonds os acc).1.bets ≡ acc.1.bets)
        × ((pay_objectors r market currency reward_pool bonds os acc).1.settlements
            ≡ acc.1.settlements)
  unfolding pay_objectors pay_objector
  pay_objectors-bets market currency reward_pool bonds [] acc = (refl, refl)
  pay_objectors-bets market currency reward_pool bonds (o ∷ os) (paid, s) =
      let (b, t) =
        pay_objectors-bets market currency reward_pool bonds os
          (pay_objector r market currency reward_pool bonds o (paid, s)) in
      elim (Bool-cases (leb (r.nearest (o.bond_amount * reward_pool) bonds) 0)) [
        | inl nothing ↦ ground (arith, b, t, nothing)
        | inr share ↦ ground (arith, b, t, share)
      ]

  -- The reward of the objectors leaves the bets and the settlements alone.
  pub reward_challengers_frame :
      (config : Config) (book : MarketBook) (residual : ℕ) (os : List Objector) (s : Store)
      → ((reward_challengers r config book residual os s).1.bets ≡ s.bets)
        × ((reward_challengers r config book residual os s).1.settlements ≡ s.settlements)
  unfolding reward_challengers
  reward_challengers_frame config book residual os s =
      let pool = reward_pool_of r config book residual in
      elim (Bool-cases (ltb 0 pool && ltb 0 (total_bond os))) [
        | inl some_reward ↦
            rw some_reward
              (pay_objectors-bets book.market book.currency pool (total_bond os) os (0, s))
        | inr nothing ↦ rw nothing (refl, refl)
      ]

  -- When keys stand once and a book with bets on both sides from at least the configured number of
  -- bettors is settled for the first time, every pending bet of the book on the winner is won with
  -- some payout, every other pending bet of the book is lost, and all other bets stay as they
  -- were.
  pub settle_book-lookup :
      (config : Config) (winner : ℕ) (book : MarketBook) (forfeit : ℕ) (os : List Objector)
      (s s' : Store) (t : Settlement)
      → UniqueKeys s.bets
      → find_settlement book.market book.currency s.settlements ≡ none
      → is_thin config.min_unique_bettors winner (bets_of_book book.market book.currency s.bets)
        ≡ false
      → settle_book r config winner book forfeit os s ≡ (t, s')
      → (j : ℕ)
      → IsEndIn winner
          (only
            (λ (b : ℕ × Bet).
              (b.1.market == book.market && in_currency b.1.currency book.currency)
              && is_pending b.1.status)
            j
            (lookup j s.bets))
          (lookup j s.bets)
          (lookup j s'.bets)
  unfolding pay_book write_run
  settle_book-lookup config winner book forfeit os s s' t u fresh thick e j =
      let in_book = λ (b : ℕ × Bet).
        (b.1.market == book.market && in_currency b.1.currency book.currency)
        && is_pending b.1.status in
      let bets = bets_of_book book.market book.currency s.bets in
      let c = context_of r winner book bets s in
      let run = settle_bets r c bets (start_run s) in
      let residual = r.nearest (book.total_pool - run.total_paid_out) 1 in
      let (same, same') = reward_challengers_frame config book residual os (write_run run s) in
      let e' = sym (settle_book_thick r config winner book forfeit os s fresh thick) ∙ e in
      let es = ap (λ (x : Settlement × Store). x.1.bets) e' in
      let after : s'.bets ≡ run.bets = sym es ∙ same in
      let ended = settle_bets-lookup c bets (start_run s) j (keep-UniqueKeys in_book s.bets u) in
      let kept = lookup-keep in_book j s.bets u in rw (after, sym kept) ended

-- ===== src/Book/Once.antt =====
-- Settling again (src/markets/parimutuel.engine.ts).
use Prim.Native.String.{String}
use text.Mathlib.Text.{◌==◌ as str_eq}
use oro_backend.Base.{
  ℕ, ◌-◌, ◌≡◌, refl, sym, ap, ◌∙◌, inl, inr, ◌&&◌, ◌==◌, ==_refl, none, some, List, [], ◌∷◌, ◌++◌,
  Bool-cases, Option-cases, arith,
}
use oro_backend.Base.Rows.{Rows}
use oro_backend.Payout.{Rounding}
use oro_backend.Market.{Bet, MarketBook, Settlement, Store, refund_positions}
use oro_backend.Book.Bets.{settle_bets}
use oro_backend.Book.Settle.{
  Config, Objector, find_settlement, bets_of_book, is_thin, context_of,
  refund_and_record_settlement,
}
use oro_backend.Book.Close.{start_run, write_run, pay_book, settle_book}
use oro_backend.Book.Money.{str_eq_refl}
use oro_backend.Book.Branches.{settle_book_existing, settle_book_thin, settle_book_thick}
use oro_backend.Book.Ended.{reward_challengers_frame}

find-append :
    (market : ℕ) (currency : String) (ts us : List Settlement)
    → find_settlement market currency ts ≡ none
    → find_settlement market currency (ts ++ us) ≡ find_settlement market currency us
find-append market currency [] us h = refl
find-append market currency (t ∷ ts) us h =
    elim (Bool-cases (t.market == market && str_eq t.currency currency)) [
      | inl here ↦ ground (arith, here, h)
      | inr there ↦ ground (arith, there, find-append market currency ts us)
    ]

found_alone :
    (market : ℕ) (currency : String) (t : Settlement)
    → t.market ≡ market
    → t.currency ≡ currency
    → find_settlement market currency (t ∷ []) ≡ some t
found_alone market currency t m c = rw (m, c, ==_refl market, str_eq_refl currency) refl

module _ (r : Rounding) where
  pub pay_book-settlements :
      (config : Config) (winner : ℕ) (book : MarketBook) (forfeit : ℕ) (os : List Objector)
      (bets : Rows Bet) (s : Store)
      → let p = pay_book r config winner book forfeit os bets s in
        (p.1.settlements ≡ s.settlements ++ (p.0 ∷ []))
        × (p.0.market ≡ book.market)
        × (p.0.currency ≡ book.currency)
  unfolding pay_book write_run
  pay_book-settlements config winner book forfeit os bets s =
      let run = settle_bets r (context_of r winner book bets s) bets (start_run s) in
      let (b, t) =
        reward_challengers_frame r config book (r.nearest (book.total_pool - run.total_paid_out) 1)
          os (write_run run s) in
      (rw t refl, refl, refl)

  pub refund-settlements :
      (winner : ℕ) (book : MarketBook) (bets : Rows Bet) (s : Store)
      → let p =
          refund_and_record_settlement book.market winner bets book.total_pool book.currency s in
        (p.1.settlements ≡ s.settlements ++ (p.0 ∷ []))
        × (p.0.market ≡ book.market)
        × (p.0.currency ≡ book.currency)
  unfolding refund_and_record_settlement refund_positions
  refund-settlements winner book bets s = (refl, refl, refl)

  -- A book that is settled has its record, and the others stay.
  pub settle_book-settlements :
      (config : Config) (winner : ℕ) (book : MarketBook) (forfeit : ℕ) (os : List Objector)
      (s : Store)
      → let p = settle_book r config winner book forfeit os s in
        find_settlement book.market book.currency p.1.settlements ≡ some p.0
  settle_book-settlements config winner book forfeit os s =
      let bets = bets_of_book book.market book.currency s.bets in
      elim (Option-cases (find_settlement book.market book.currency s.settlements)) [
        | inr (t, settled) ↦
            rw (settle_book_existing r config winner book forfeit os s t settled) settled
        | inl fresh ↦ elim (Bool-cases (is_thin config.min_unique_bettors winner bets)) [
          | inl thin ↦
              let p =
                refund_and_record_settlement book.market winner bets book.total_pool book.currency
                  s in
              let (e, m, c) = refund-settlements winner book bets s in
              rw (settle_book_thin r config winner book forfeit os s fresh thin) (
                ap (find_settlement book.market book.currency) e
                ∙ find-append book.market book.currency s.settlements (p.0 ∷ []) fresh
                ∙ found_alone book.market book.currency p.0 m c)
          | inr thick ↦
              let p = pay_book r config winner book forfeit os bets s in
              let (e, m, c) = pay_book-settlements config winner book forfeit os bets s in
              rw (settle_book_thick r config winner book forfeit os s fresh thick) (
                ap (find_settlement book.market book.currency) e
                ∙ find-append book.market book.currency s.settlements (p.0 ∷ []) fresh
                ∙ found_alone book.market book.currency p.0 m c)
        ]
      ]

  pub settle_book_twice :
      (config : Config) (winner winner' : ℕ) (book : MarketBook) (forfeit forfeit' : ℕ)
      (os os' : List Objector) (s s' : Store) (t : Settlement)
      → settle_book r config winner book forfeit os s ≡ (t, s')
      → settle_book r config winner' book forfeit' os' s' ≡ (t, s')
  settle_book_twice config winner winner' book forfeit forfeit' os os' s s' t e =
      let et = ap (λ (x : Settlement × Store). x.0) e in
      let es = ap (λ (x : Settlement × Store). x.1) e in
      let known : find_settlement book.market book.currency s'.settlements ≡ some t =
        rw (sym es, sym et) (settle_book-settlements config winner book forfeit os s) in
      settle_book_existing r config winner' book forfeit' os' s' t known

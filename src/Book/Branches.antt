-- ===== src/Book/Branches.antt =====
-- The three ways through `settleBook` (src/markets/parimutuel.engine.ts).
use oro_backend.Base.{ℕ, true, false, ◌≡◌, refl, none, some, List}
use oro_backend.Payout.{Rounding}
use oro_backend.Market.{MarketBook, Settlement, Store}
use oro_backend.Book.Settle.{
  Config, Objector, find_settlement, bets_of_book, is_thin, refund_and_record_settlement,
}
use oro_backend.Book.Close.{pay_book, settle_book}

module _ (r : Rounding) where
  pub settle_book_existing :
      (config : Config) (winner : ℕ) (book : MarketBook) (forfeit : ℕ) (os : List Objector)
      (s : Store) (t : Settlement)
      → find_settlement book.market book.currency s.settlements ≡ some t
      → settle_book r config winner book forfeit os s ≡ (t, s)
  unfolding settle_book
  settle_book_existing config winner book forfeit os s t known = rw (settle_book, known) refl

  pub settle_book_thin :
      (config : Config) (winner : ℕ) (book : MarketBook) (forfeit : ℕ) (os : List Objector)
      (s : Store)
      → find_settlement book.market book.currency s.settlements ≡ none
      → is_thin config.min_unique_bettors winner (bets_of_book book.market book.currency s.bets)
        ≡ true
      → settle_book r config winner book forfeit os s
        ≡ refund_and_record_settlement book.market winner
            (bets_of_book book.market book.currency s.bets)
            book.total_pool
            book.currency
            s
  unfolding settle_book
  settle_book_thin config winner book forfeit os s fresh thin = rw (settle_book, fresh, thin) refl

  pub settle_book_thick :
      (config : Config) (winner : ℕ) (book : MarketBook) (forfeit : ℕ) (os : List Objector)
      (s : Store)
      → find_settlement book.market book.currency s.settlements ≡ none
      → is_thin config.min_unique_bettors winner (bets_of_book book.market book.currency s.bets)
        ≡ false
      → settle_book r config winner book forfeit os s
        ≡ pay_book r config winner book forfeit os (bets_of_book book.market book.currency s.bets) s
  unfolding settle_book
  settle_book_thick config winner book forfeit os s fresh thick =
      rw (settle_book, fresh, thick) refl

-- ===== src/Book/Pools.antt =====
-- What a book pays against what its pool holds (src/markets/parimutuel.engine.ts).
use Prim.Native.String.{String}
use oro_backend.Base.{
  ℕ, ◌+◌, ◌*◌, ◌<◌, ◌≡◌, sym, ap, ◌∙◌, true, false, none, List, [], ◌∷◌, ltb, leb, arith,
}
use oro_backend.Base.Int.{pos, ◌+ℤ◌}
use oro_backend.Ledger.{Note}
use oro_backend.Ledger.Balance.{ledger_balance}
use oro_backend.Payout.{Rounding, positive_product, IsWhole, nearest_sum}
use oro_backend.Payout.Bounds.{third_share}
use oro_backend.Market.{MarketBook, Settlement, Store, refund_positions, pending_of}
use oro_backend.Market.Refunds.{in_bets, refund_rows-ledger_balance}
use oro_backend.Book.Settle.{
  Config, Objector, find_settlement, bets_of_book, is_thin, pay_objector, pay_objectors,
  reward_challengers, reward_pool_of, refund_and_record_settlement,
}
use oro_backend.Book.Branches.{settle_book_thin}
use oro_backend.Book.Close.{settle_book}

module _ (r : Rounding) where
  -- A book with bets on one side only that is settled for the first time gives each bettor back
  -- the pending stakes and books no revenue, however many forfeited bonds came with it.
  pub settle_book_forfeit :
      (config : Config) (winner : ℕ) (book : MarketBook) (forfeit : ℕ) (os : List Objector)
      (s s' : Store) (t : Settlement)
      → find_settlement book.market book.currency s.settlements ≡ none
      → is_thin config.min_unique_bettors winner (bets_of_book book.market book.currency s.bets)
        ≡ true
      → settle_book r config winner book forfeit os s ≡ (t, s')
      → (user : ℕ) (currency : String)
      → (t.house_amount ≡ 0)
        × (ledger_balance s'.duels.ledger user currency
            ≡ ledger_balance s.duels.ledger user currency
              +ℤ pos (
                  in_bets user currency
                    (pending_of (bets_of_book book.market book.currency s.bets))))
  unfolding refund_and_record_settlement refund_positions
  settle_book_forfeit config winner book forfeit os s s' t fresh thin e user currency =
      let bets = bets_of_book book.market book.currency s.bets in
      let e' = sym e ∙ settle_book_thin r config winner book forfeit os s fresh thin in
      (
        ap (λ (x : Settlement × Store). x.0.house_amount) e',
        ap (λ (x : Settlement × Store). ledger_balance x.1.duels.ledger user currency) e'
            ∙ refund_rows-ledger_balance user currency s.duels.ledger [] Note.thin_pool_refund
                (pending_of bets) s.duels.ledger,
      )

  -- With a rounding to the nearest last decimal place, three objectors with equal bonds are paid
  -- one last decimal more than a reward pool of 3k + 2 last decimals.
  pub reward_challengers_overpays :
      (config : Config) (book : MarketBook) (residual bond k u1 u2 u3 : ℕ) (s : Store)
      → 0 < bond
      → reward_pool_of r config book residual ≡ (3 * k + 2) * r.unit
      → (reward_challengers r config book residual
          (record { user = u1; bond_amount = bond }
            ∷ record { user = u2; bond_amount = bond }
            ∷ record { user = u3; bond_amount = bond }
            ∷ [])
          s).0
        ≡ (3 * k + 3) * r.unit
  unfolding reward_challengers pay_objectors pay_objector
  reward_challengers_overpays config book residual bond k u1 u2 u3 s some_bond pool =
      let share = third_share r bond k some_bond in
      let some_pool = positive_product (3 * k + 2) r.unit (omega arith) r.some_unit in
      let some_share = positive_product (k + 1) r.unit (omega arith) r.some_unit in
      let positive : ltb 0 ((3 * k + 2) * r.unit) ≡ true = ground (arith, some_pool) in
      let bonded : ltb 0 (bond + (bond + (bond + 0))) ≡ true = ground arith in
      let paid : leb ((k + 1) * r.unit) 0 ≡ false = ground (arith, some_share) in
      let x = (k + 1) * r.unit in
      let whole : IsWhole r x = (k + 1, omega arith) in
      let one = nearest_sum r 0 x (0, omega arith) whole in
      let two = nearest_sum r (0 + x) x (k + 1, omega arith) whole in
      let three = nearest_sum r (0 + x + x) x (2 * k + 2, omega arith) whole in
      rw (pool, positive, bonded, share, paid, one, two, three) (omega arith)

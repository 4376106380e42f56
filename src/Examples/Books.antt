-- ===== src/Examples/Books.antt =====
-- Books: one with bets on both sides and forfeited bonds, and one with bets on one side only.
use oro_backend.Base.{ℕ, ◌≡◌, refl, true, false, Bool, none, some, List, [], ◌∷◌, arith}
use oro_backend.Base.Int.{pos, ◌+ℤ◌}
use oro_backend.Base.Rows.{Rows, lookup}
use oro_backend.Entities.{MarketStatus, PositionStatus}
use oro_backend.Ledger.{btn_currency}
use oro_backend.Ledger.Balance.{ledger_balance}
use oro_backend.Payout.{Rounding, half_up, half_up_to}
use oro_backend.Market.{Market, Bet, Dispute, DisputeSide, MarketBook, Settlement, Store}
use oro_backend.Market.Refunds.{IsRunning}
use oro_backend.Book
use oro_backend.Book.{
  Config, Objector, Contest, Group, settle_book, settle_market, settle_group, settle_contest,
  settlements_of, bets_of_book, winning_bets, set_status, reward_challengers, won, winners_of,
}
use oro_backend.Book.Money.{Balances, pool_money, settle_book-money}
use oro_backend.Book.Ended.{IsEnd, settle_book-lookup}
use oro_backend.Book.Again.{settle_market_twice}
use oro_backend.Book.Running.{settle_book-IsRunning}
use oro_backend.Book.Bonds.{settle_group-money}
use oro_backend.Book.Passes.{settle_contest_relocks}
use oro_backend.Book.Pools.{settle_book_forfeit, reward_challengers_overpays}
use oro_backend.Examples.Markets.{bet_of, before, before-IsRunning, bond}

abbrev config : Config
config = record { min_unique_bettors = 2; reward_fraction = some (1, 5) }

abbrev on : ℕ → Bet → Bet
on outcome b = record b { outcome = outcome }

abbrev stake : ℕ → ℕ → ℕ → Bet
stake user amount outcome =
    on outcome (bet_of user amount (some btn_currency) PositionStatus.pending)

abbrev book : MarketBook
book = record {
  market = 7;
  currency = btn_currency;
  total_pool = 350;
  house_edge = 1000;
  dispute_bond_pool = 0;
  min_stake = 5000;
  is_enabled = true;
}

-- Two bets on the winner, one with an armed boost, and one against it.
abbrev two_sided : Store
two_sided = record before {
  bets =
      (1, stake 1 100 100)
      ∷ (2, stake 2 200 101)
      ∷ (3, record (stake 3 50 100) { streak_boost_armed = true })
      ∷ [];
  books = book ∷ [];
}

abbrev paid : Settlement × Store
paid = settle_book half_up config 100 book 5 [] two_sided

-- Amounts in tenths of the last decimal place: 320 are paid and 40 are booked.
abbrev tenths : Rounding
tenths = half_up_to 10 (omega arith)

abbrev paid_in_tenths : Settlement × Store
paid_in_tenths = settle_book tenths config 100 book 5 [] two_sided

settle_book-money_example :
    Balances tenths
      (pool_money paid_in_tenths.1.duels.ledger btn_currency +ℤ pos 40)
      (pool_money two_sided.duels.ledger btn_currency +ℤ pos 355)
unfolding settle_book Book.settle_bets Book.payout_by_position_id
    oro_backend.Payout.compute_winner_payouts reward_challengers
settle_book-money_example =
    settle_book-money tenths config 100 book 5 [] two_sided paid_in_tenths.1 paid_in_tenths.0 refl
      refl refl (omega arith) (omega arith)

settle_book-lookup_example :
    (x : Bet) × (lookup 2 paid.1.bets ≡ some x) × IsEnd 100 (stake 2 200 101) x
unfolding Book.is_thin
settle_book-lookup_example =
    settle_book-lookup half_up config 100 book 5 [] two_sided paid.1 paid.0
      (refl, (refl, (refl, tt))) refl refl refl 2

settle_book-IsRunning_example : IsRunning paid.1.duels.ledger
settle_book-IsRunning_example =
    settle_book-IsRunning half_up config 100 book 5 [] two_sided tt before-IsRunning

abbrev closed_market : Bool × List Settlement × Store
closed_market = elim (settle_market half_up config 7 100 [] [] two_sided) [
  | none ↦ (false, [], two_sided)
  | some x ↦ x
]

settle_market_twice_example :
    (m : Market) × (lookup 7 closed_market.2.markets ≡ some m)
    × (settle_market half_up config 7 101 [] [] closed_market.2
        ≡ some (
          true,
          settlements_of 7 closed_market.2,
          set_status 7 m MarketStatus.settled closed_market.2,
        ))
unfolding settle_market
settle_market_twice_example =
    settle_market_twice half_up config config 7 100 101 [] [] [] [] two_sided closed_market.2
      closed_market.0 closed_market.1 refl

-- Both bets are on the winner, and forfeited bonds of 9 came with the market.
abbrev one_sided : Store
one_sided = record before { bets = (1, stake 1 100 100) ∷ (3, stake 3 50 100) ∷ [] }

abbrev refunded : Settlement × Store
refunded = settle_book half_up config 100 book 9 [] one_sided

settle_book_forfeit_example :
    (refunded.0.house_amount ≡ 0)
    × (ledger_balance refunded.1.duels.ledger 3 btn_currency
        ≡ ledger_balance one_sided.duels.ledger 3 btn_currency +ℤ pos 50)
unfolding Book.is_thin
settle_book_forfeit_example =
    settle_book_forfeit half_up config 100 book 9 [] one_sided refunded.1 refunded.0 refl refl refl
      3 btn_currency

-- A fifth of a house cut of 10 is 2.
reward_challengers_overpays_example :
    (reward_challengers half_up config
      (record book { total_pool = 100 })
      10
      (record { user = 1; bond_amount = 15 }
        ∷ record { user = 2; bond_amount = 15 }
        ∷ record { user = 3; bond_amount = 15 }
        ∷ [])
      two_sided).0
    ≡ 3
unfolding Book.reward_pool_of
reward_challengers_overpays_example =
    reward_challengers_overpays half_up config (record book { total_pool = 100 }) 10 15 0 1 2 3
      two_sided (omega arith) refl

abbrev dispute_of : ℕ → DisputeSide → ℕ → Dispute
dispute_of user side amount = record bond { user = user; side = side; bond_amount = amount }

-- Two objectors with bonds of 10 against a defender with 5: one unit is left over.
abbrev contested : Rows Dispute
contested =
    (1, dispute_of 1 DisputeSide.object 10)
    ∷ (2, dispute_of 2 DisputeSide.object 10)
    ∷ (3, dispute_of 3 DisputeSide.support 5)
    ∷ []

abbrev with_contest : Store
with_contest = record before { disputes = contested }

settle_group-money_example :
    pool_money
        (settle_group 7 true btn_currency contested with_contest).store.duels.ledger
        btn_currency
      +ℤ pos (settle_group 7 true btn_currency contested with_contest).unclaimed
    ≡ pool_money with_contest.duels.ledger btn_currency +ℤ pos 25
settle_group-money_example =
    settle_group-money 7 true btn_currency contested with_contest (refl, (refl, (refl, tt)))
      ((refl, refl), ((refl, refl), tt))

abbrev pass_once : Store → Store
pass_once s = (settle_contest 7 (some 101) 100 ((1, bond) ∷ []) s).store

settle_contest_relocks_example :
    ((pass_once (pass_once before)).duels ≡ (pass_once before).duels)
    × (lookup 1 (pass_once (pass_once before)).disputes ≡ some bond)
    × (ledger_balance (pass_once (pass_once (pass_once before))).duels.ledger 2 btn_currency
        ≡ ledger_balance before.duels.ledger 2 btn_currency +ℤ pos 30)
settle_contest_relocks_example =
    settle_contest_relocks 7 (some 101) 100 1 bond before refl refl refl

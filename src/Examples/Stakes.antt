-- ===== src/Examples/Stakes.antt =====
-- A first stake on a market without books.
use Prim.Native.String.{String}
use text.Mathlib.Text.{◌==◌ as str_eq}
use oro_backend.Base.{
  ℕ, ◌≡◌, refl, inl, inr, true, false, ◌&&◌, ◌==◌, none, [], ◌∷◌, Bool-cases, if◌then◌else◌, arith,
}
use oro_backend.Base.Int.{pos, ◌-ℤ◌, ◌+ℤ◌, ◌≤ℤ◌}
use oro_backend.Ledger.Balance.{ledger_balance}
use oro_backend.Market.{Store}
use oro_backend.Stake.{Desk, ok, err, place_position}
use oro_backend.Stake.Pools.{PoolsMatch}
use oro_backend.Stake.Placed.{place_position-PoolsMatch, place_position-ledger_balance}
use oro_backend.Examples.Duels.{deposit_of}
use oro_backend.Examples.Markets.{before}

abbrev funded : Store
funded = record before {
  bets = [];
  duels = record before.duels { ledger = deposit_of 5 20000 ∷ [] };
}

abbrev desk : Desk
desk = record {
  store = funded;
  accounts =
      (
        5,
        record {
          currency = none;
          is_kyc_approved = false;
          has_dk_account = true;
          has_phone = true;
        },
      )
      ∷ [];
  betting_closes_at = (7, 900) ∷ [];
  outcomes =
      (100, record { market = 7; is_eliminated = false; total_bet_amount = 0 })
      ∷ (101, record { market = 7; is_eliminated = false; total_bet_amount = 0 })
      ∷ [];
  outcome_books = [];
  next_position = 1;
}

abbrev same_text : String → String
same_text t = t

abbrev placed : Desk
placed = elim (place_position same_text 1000000 5 7 100 6000 none 800 desk) [
  | ok d ↦ d
  | err e ↦ desk
]

position_placed : place_position same_text 1000000 5 7 100 6000 none 800 desk ≡ ok placed
unfolding place_position ledger_balance ◌+ℤ◌
position_placed = refl

desk-PoolsMatch : PoolsMatch desk
desk-PoolsMatch k m c h = elim (Bool-cases (k == 7)) [
  | inl here ↦ ground (arith, here, h)
  | inr elsewhere ↦ ground (arith, elsewhere, h)
]

place_position-PoolsMatch_example : PoolsMatch placed
place_position-PoolsMatch_example =
    place_position-PoolsMatch same_text 1000000 5 7 100 6000 none 800 desk placed desk-PoolsMatch
      refl position_placed

place_position-ledger_balance_example :
    (currency : String) × (pos 6000 ≤ℤ ledger_balance desk.store.duels.ledger 5 currency)
    × ((u : ℕ) (c : String)
        → ledger_balance placed.store.duels.ledger u c ≡ (
            if 5 == u && str_eq currency c
            then ledger_balance desk.store.duels.ledger u c -ℤ pos 6000
            else ledger_balance desk.store.duels.ledger u c))
place_position-ledger_balance_example =
    place_position-ledger_balance same_text 1000000 5 7 100 6000 none 800 desk placed
      position_placed

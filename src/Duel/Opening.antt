-- ===== src/Duel/Opening.antt =====
-- `create`: what opening a duel does, and what a refused one leaves behind
-- (src/challenges/challenges.service.ts).
use oro_backend.Base.{ℕ, ◌≤◌, ◌≡◌, ◌≢◌, true, false, Option, some, arith}
use oro_backend.Base.Int.{ℤ, pos, ◌-ℤ◌, ◌≤ℤ◌, int_laws}
use oro_backend.Base.Rows.{lookup}
use oro_backend.Ledger.{btn_currency}
use oro_backend.Ledger.Balance.{ledger_balance}
use oro_backend.Duel.Tables.{Store, User, Market, CardType, ok, err, card_missing}
use oro_backend.Duel.Wager.{debit}
use oro_backend.Duel.Cards.{held, normalize_inventory, consume_card}
use oro_backend.Duel.Create.{check_create, create, bets_of, has_active_bet, has_open_challenge}

check_create_state :
    (creator market : ℕ) (wager : ℤ) (card : Option CardType) (s : Store)
    → (check_create creator market wager card s).1 ≡ s
unfolding check_create
check_create_state creator market wager card s = ground arith

-- When the checks of `create` pass, the wager is not negative, the card is no shield, the creator
-- has made five bets and has one on the market and no open duel there, and the market exists.
pub check_create_passed :
    (creator market : ℕ) (wager : ℤ) (card : Option CardType) (s : Store) (m : Market)
    → (check_create creator market wager card s).0 ≡ ok m
    → (pos 0 ≤ℤ wager)
      × (card ≢ some CardType.shield)
      × (5 ≤ bets_of s creator)
      × (lookup market s.markets ≡ some m)
      × (has_active_bet s creator market ≡ true)
      × (has_open_challenge s creator market ≡ false)
unfolding check_create
check_create_passed creator market wager card s m h = ground arith

-- Opening a duel with a card that the creator does not hold is refused and makes no duel, but
-- takes the wager from the creator's balance.
pub create_without_card :
    (creator market outcome : ℕ) (wager : ℤ) (card : CardType) (s : Store) (m : Market) (u : User)
    → (check_create creator market wager (some card) s).0 ≡ ok m
    → lookup creator s.users ≡ some u
    → held (normalize_inventory u.card_inventory) card ≡ 0
    → pos 1 ≤ℤ wager
    → wager ≤ℤ ledger_balance s.ledger creator btn_currency
    → let r = create creator market outcome wager (some card) s in
      (r.0 ≡ err (card_missing card))
      × (r.1.challenges ≡ s.challenges)
      × (ledger_balance r.1.ledger creator btn_currency
          ≡ ledger_balance s.ledger creator btn_currency -ℤ wager)
unfolding create debit consume_card ledger_balance
create_without_card creator market outcome wager card s m u passed known missing some_wager funds =
    let same = check_create_state creator market wager (some card) s in grind int_laws

-- ===== src/Examples/Duels.antt =====
-- Duels: a market with an accepted duel and an open one, and another market's duel.
use oro_backend.Base.{ℕ, ◌≡◌, refl, Option, none, some, [], ◌∷◌, arith}
use oro_backend.Base.Int.{pos, ◌+ℤ◌, ◌-ℤ◌}
use oro_backend.Entities.{MarketStatus, PositionStatus}
use oro_backend.Ledger.{Transaction, TransactionType, Note, btn_currency}
use oro_backend.Ledger.Balance.{ledger_balance}
use oro_backend.Duel
use oro_backend.Duel.{
  Store, Challenge, ChallengeStatus, CardType, RawInventory, Position, User, Result, ok, err,
  create, join, check_create, settle_by_market, expire_one, expire_stale_duels, settle_decided,
  total_wins, challenge_not_open, challenge_expired, card_missing, has_active_bet,
  has_open_challenge, bets_of,
}
use oro_backend.Duel.Money.{money}
use oro_backend.Duel.Closing.{IsConsistent, settle_by_market-ledger_balance}
use oro_backend.Duel.Joining.{join-money, join_accepts, join_succeeded, join_once}
use oro_backend.Duel.Opening.{create_without_card}
use oro_backend.Duel.Upkeep.{IsSound}
use oro_backend.Duel.History.{Step, Steps, Steps-IsSound}
use oro_backend.Duel.Milestones.{milestone_lags}

abbrev pub deposit_of : ℕ → ℕ → Transaction
deposit_of user amount = record {
  user = user;
  type = TransactionType.deposit;
  amount = pos amount;
  currency = btn_currency;
  balance_before = pos 0;
  balance_after = pos amount;
  payment = none;
  position = none;
  note = Note.withdrawal_reserved;
}

abbrev pub duel_of : ℕ → ℕ → ChallengeStatus → Option ℕ → ℕ → Challenge
duel_of creator market status joiner wager = record {
  creator = creator;
  market = market;
  outcome = 100;
  status = status;
  participant_count = 1;
  wager_amount = wager;
  joiner = joiner;
  winner = none;
  settled_at = none;
  equipped_card = none;
  expires_at = 1000;
}

abbrev pub accepted : Challenge
accepted = duel_of 1 7 ChallengeStatus.active (some 2) 50

abbrev pub waiting : Challenge
waiting = duel_of 3 7 ChallengeStatus.opened none 20

abbrev pub plain_user : User
plain_user = record { currency = btn_currency; card_inventory = RawInventory.null }

abbrev pub bet_on : ℕ → ℕ → Position
bet_on user market = record { user = user; market = market; status = PositionStatus.pending }

abbrev pub duels : Store
duels = record {
  users = (1, plain_user) ∷ (2, plain_user) ∷ (3, plain_user) ∷ [];
  markets = (7, record { status = MarketStatus.opened; closes_at = 1000 }) ∷ [];
  positions = bet_on 2 7 ∷ bet_on 2 7 ∷ bet_on 2 8 ∷ bet_on 2 8 ∷ bet_on 2 9 ∷ [];
  challenges =
      (10, accepted) ∷ (11, waiting) ∷ (12, duel_of 1 8 ChallengeStatus.active (some 3) 5) ∷ [];
  next_challenge = 13;
  ledger = deposit_of 2 500 ∷ [];
  distributions = [];
}

pub duels-IsConsistent : IsConsistent duels
duels-IsConsistent = record {
  unique_keys = (refl, (refl, (refl, tt)));
  unbooked = λ k c e live. refl;
}

abbrev pub draw_double : ℕ → CardType
draw_double k = CardType.double_down

-- The winner of the pot of 100 is paid 90.
settle_by_market-ledger_balance_example :
    ledger_balance (settle_by_market 7 (some 100) 2000 draw_double duels).ledger 1 btn_currency
    ≡ ledger_balance duels.ledger 1 btn_currency +ℤ pos 90
unfolding Duel.live_on Duel.platform_cut_of
settle_by_market-ledger_balance_example =
    settle_by_market-ledger_balance 7 (some 100) 2000 draw_double duels duels-IsConsistent 1

-- The checks pass for a player with five bets, one of them on the market.
check_ok :
    (check_create 2 7 (pos 30) (some CardType.ghost) duels).0
    ≡ ok (record { status = MarketStatus.opened; closes_at = 1000 })
unfolding check_create
check_ok = refl

-- A player without a ghost card pays 30 for a duel that is not made.
create_without_card_example :
    let r = create 2 7 100 (pos 30) (some CardType.ghost) duels in
    (r.0 ≡ err (card_missing CardType.ghost))
    × (r.1.challenges ≡ duels.challenges)
    × (ledger_balance r.1.ledger 2 btn_currency ≡ pos 470)
unfolding ledger_balance ◌-ℤ◌ ◌+ℤ◌ Duel.normalize_inventory
create_without_card_example =
    create_without_card 2 7 100 (pos 30) CardType.ghost duels
      (record { status = MarketStatus.opened; closes_at = 1000 }) plain_user check_ok refl refl
      (omega arith) (omega arith)

abbrev won_before : ℕ → ℕ × Challenge
won_before key = (key, record (duel_of 1 6 ChallengeStatus.settled (some 2) 5) { winner = some 1 })

abbrev two_wins : Store
two_wins = record duels { challenges = won_before 1 ∷ won_before 2 ∷ duels.challenges }

-- The third win, which the milestones reward, hands out no card.
milestone_lags_example :
    let s' = settle_decided 10 accepted 2 100 2000 CardType.ghost two_wins in
    (total_wins s'.challenges 1 ≡ 3) × (s'.users ≡ two_wins.users)
unfolding Duel.winner_of total_wins Duel.milestone_card
milestone_lags_example =
    milestone_lags 10 accepted 2 100 2000 CardType.ghost two_wins refl refl refl

waiting_unjoined : (k : ℕ) → Duel.Joining.OpenIsUnjoined duels k
waiting_unjoined k c e h = ground arith

duels-IsSound : IsSound duels
duels-IsSound = record { consistent = duels-IsConsistent; unjoined = waiting_unjoined }

abbrev ended : Store
ended = settle_by_market 7 (some 100) 2000 draw_double (join 11 2 900 duels).1

Steps-IsSound_example : IsSound ended × (money ended ≡ money duels)
Steps-IsSound_example =
    Steps-IsSound
      (Steps.next (Step.joins 11 2 900)
        (Steps.next (Step.settles 7 (some 100) 2000 draw_double) Steps.done))
      duels-IsSound

-- ===== src/Examples/Markets.antt =====
-- Markets: one with pending bets and a locked bond beside the duels, and its changes of status.
use oro_backend.Base.{ℕ, ◌≡◌, refl, false, Option, none, some, [], ◌∷◌, arith}
use Prim.Native.String.{String}
use oro_backend.Base.Int.{pos, ◌+ℤ◌}
use oro_backend.Entities.{MarketStatus, PositionStatus}
use oro_backend.Ledger.{btn_currency}
use oro_backend.Ledger.Balance.{ledger_balance}
use oro_backend.Market.{
  Market, Bet, Dispute, DisputeBondStatus, DisputeSide, Store, Error, Result, ok, err,
  transition_market, propose_resolution, resolve_gate, cancel_rows, cancel_market,
}
use oro_backend.Market.Statuses.{
  resolve_gate-propose_resolution_early, resolve_gate_passed, Passes,
  resolve_gate-transition_market_stranded, resolve_gate-transition_market_unproposed,
}
use oro_backend.Market.Refunds.{IsRunning}
use oro_backend.Market.Cancelled.{cancel_market-ledger_balance}
use oro_backend.Examples.Duels.{duels, duels-IsConsistent, draw_double}

abbrev pub market_in : MarketStatus → Market
market_in status = record {
  id = 7;
  status = status;
  subcategory = none;
  closes_at = 1000;
  outcomes = 100 ∷ 101 ∷ [];
  proposed_outcome = none;
  window_minutes = none;
  dispute_deadline_at = none;
  resolved_outcome = none;
  total_pool = 0;
  house_edge = 1000;
  external_source = none;
}

abbrev pub bet_of : ℕ → ℕ → Option String → PositionStatus → Bet
bet_of user amount currency status = record {
  market = 7;
  user = user;
  amount = amount;
  currency = currency;
  status = status;
  outcome = 100;
  payout = none;
  is_bonus_funded = false;
  streak_boost_armed = false;
}

abbrev pub bond : Dispute
bond = record {
  market = 7;
  user = 2;
  side = DisputeSide.object;
  bond_amount = 15;
  bond_status = DisputeBondStatus.locked;
  currency = none;
  upheld = none;
  reward_amount = 0;
}

-- Two pending bets of one user in ngultrum, one in another currency, and one that was lost.
abbrev pub before : Store
before = record {
  markets = (7, market_in MarketStatus.opened) ∷ [];
  bets =
      (1, bet_of 2 40 none PositionStatus.pending)
      ∷ (2, bet_of 2 60 (some btn_currency) PositionStatus.pending)
      ∷ (3, bet_of 2 5 (some "USDT") PositionStatus.pending)
      ∷ (4, bet_of 1 70 none PositionStatus.lost)
      ∷ [];
  disputes = (1, bond) ∷ [];
  books = [];
  settlements = [];
  bonuses = [];
  duels = duels;
}

abbrev cancelled_or : Option Store → Store
cancelled_or none = before
cancelled_or (some s) = s

abbrev after_rows : Store
after_rows = cancelled_or (cancel_rows 7 before)

rows_cancelled : cancel_rows 7 before ≡ some after_rows
unfolding cancel_rows
rows_cancelled = refl

market_cancelled :
    cancel_market 7 2000 draw_double before
    ≡ some (cancelled_or (cancel_market 7 2000 draw_double before))
unfolding cancel_market
market_cancelled = refl

-- The second player gets back bets of 100, a bond of 15 and a duel wager of 50.
cancel_market-ledger_balance_example :
    ledger_balance
      (cancelled_or (cancel_market 7 2000 draw_double before)).duels.ledger
      2
      btn_currency
    ≡ ledger_balance before.duels.ledger 2 btn_currency +ℤ pos 165
unfolding oro_backend.Duel.live_on
cancel_market-ledger_balance_example =
    cancel_market-ledger_balance 7 2000 draw_double before
      (cancelled_or (cancel_market 7 2000 draw_double before)) duels-IsConsistent market_cancelled 2

pub before-IsRunning : IsRunning before.duels.ledger
unfolding ledger_balance ◌+ℤ◌
before-IsRunning = ((refl, refl), tt)

abbrev or_market : Result Market → Market
or_market (ok m) = m
or_market (err e) = market_in MarketStatus.upcoming

abbrev proposed : Market
proposed = or_market (propose_resolution (some (market_in MarketStatus.closed)) 100 10 5000)

proposal : propose_resolution (some (market_in MarketStatus.closed)) 100 10 5000 ≡ ok proposed
unfolding propose_resolution
proposal = refl

resolve_gate-propose_resolution_early_example :
    resolve_gate (some proposed) 101 false 0 600000 ≡ err Error.window_open
resolve_gate-propose_resolution_early_example =
    resolve_gate-propose_resolution_early (market_in MarketStatus.closed) proposed 100 10 101 5000
      600000 false proposal refl (omega arith)

abbrev resolved_market : Market
resolved_market = record (market_in MarketStatus.resolved) { resolved_outcome = some 100 }

gate_open : resolve_gate (some resolved_market) 100 false 0 9000 ≡ ok resolved_market
unfolding resolve_gate
gate_open = refl

resolve_gate_passed_example :
    Passes resolved_market 100 false 0 9000 × (resolved_market ≡ resolved_market)
resolve_gate_passed_example =
    resolve_gate_passed resolved_market resolved_market 100 false 0 9000 gate_open

resolve_gate-transition_market_stranded_example :
    (resolve_gate (some resolved_market) 100 false 0 9000 ≡ ok resolved_market)
    × (resolve_gate
          (some (record resolved_market { status = MarketStatus.settled }))
          100
          false
          0
          9000
        ≡ err Error.not_resolving)
unfolding transition_market
resolve_gate-transition_market_stranded_example =
    resolve_gate-transition_market_stranded resolved_market
      (record resolved_market { status = MarketStatus.settled }) 100 100 0 9000 refl refl refl refl

resolve_gate-transition_market_unproposed_example :
    resolve_gate (some (market_in MarketStatus.resolving)) 101 false 0 9000
    ≡ ok (record (market_in MarketStatus.resolved) { resolved_outcome = some 101 })
unfolding transition_market
resolve_gate-transition_market_unproposed_example =
    resolve_gate-transition_market_unproposed (market_in MarketStatus.closed)
      (market_in MarketStatus.resolving) 101 9000 false refl refl refl refl

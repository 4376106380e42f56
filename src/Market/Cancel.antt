-- ===== src/Market/Cancel.antt =====
-- `cancelMarket`, `refundPositions` and `releaseLockedDisputeBonds`
-- (src/markets/parimutuel.engine.ts).
use Prim.Native.String.{String}
use text.Mathlib.Text.{◌==◌ as str_eq}
use oro_backend.Base.{
  ℕ, ◌+◌, Bool, true, false, ◌&&◌, ◌==◌, Option, none, some, List, [], ◌∷◌, leb, keep, get_or,
  if◌then◌else◌,
}
use oro_backend.Base.Int.{pos, ◌+ℤ◌}
use oro_backend.Base.Rows.{Rows, lookup, insert}
use oro_backend.Entities.{MarketStatus, PositionStatus}
use oro_backend.Ledger.{Transaction, TransactionType, Note, btn_currency}
use oro_backend.Ledger.Balance.{ledger_balance}
use oro_backend.Duel.{CardType, settle_by_market}
use oro_backend.Market.State.{Bet, Dispute, DisputeBondStatus, Store}

abbrev pub is_pending : PositionStatus → Bool
is_pending PositionStatus.pending = true
is_pending _ = false

abbrev pub currency_of : Option String → String
currency_of c = get_or c btn_currency

-- `balanceDelta`: what this run has already refunded, by user and currency.
abbrev pub Deltas : Type 0
Deltas = List (ℕ × String × ℕ)

unfoldable pub delta_of : Deltas → ℕ → String → ℕ
delta_of [] user currency = 0
delta_of ((u, c, n) ∷ ds) user currency =
    let rest = delta_of ds user currency in
    if u == user && str_eq c currency then n + rest else rest

-- The rows of the pending bets, with balances from the preloaded ledger and the deltas. The new
-- rows stand in front of `rows`.
unfoldable pub refund_rows :
    List Transaction → Deltas → Note → Rows Bet → List Transaction → List Transaction
unfolding delta_of
refund_rows preloaded deltas note [] rows = rows
refund_rows preloaded deltas note ((key, bet) ∷ bets) rows =
    let currency = currency_of bet.currency in
    let balance_before =
      ledger_balance preloaded bet.user currency +ℤ pos (delta_of deltas bet.user currency) in
    let row : Transaction = record {
      user = bet.user;
      type = TransactionType.refund;
      amount = pos bet.amount;
      currency = currency;
      balance_before = balance_before;
      balance_after = balance_before +ℤ pos bet.amount;
      payment = none;
      position = some key;
      note = note;
    } in
    refund_rows preloaded ((bet.user, currency, bet.amount) ∷ deltas) note bets (row ∷ rows)

-- The bulk update of the refunded bets.
unfoldable pub mark_refunded : Rows Bet → Rows Bet → Rows Bet
mark_refunded [] table = table
mark_refunded ((key, bet) ∷ bets) table = mark_refunded bets (elim (lookup key table) [
  | none ↦ table
  | some b ↦ insert key (record b { status = PositionStatus.refunded }) table
])

abbrev pub pending_of : Rows Bet → Rows Bet
pending_of bets = keep (λ (r : ℕ × Bet). is_pending r.1.status) bets

abbrev pub with_ledger : List Transaction → Store → Store
with_ledger ledger s = record s { duels = record s.duels { ledger = ledger } }

unfoldable pub refund_positions : Rows Bet → Note → Store → Store
unfolding refund_rows mark_refunded
refund_positions bets note s =
    let pending_bets = pending_of bets in
    let refunded = with_ledger (refund_rows s.duels.ledger [] note pending_bets s.duels.ledger) s in
    record refunded { bets = mark_refunded pending_bets s.bets }

abbrev pub is_locked : DisputeBondStatus → Bool
is_locked DisputeBondStatus.locked = true
is_locked _ = false

abbrev pub locked_on : ℕ → Rows Dispute → Rows Dispute
locked_on market disputes =
    keep (λ (r : ℕ × Dispute). r.1.market == market && is_locked r.1.bond_status) disputes

-- One bond goes back into the book it was locked in; its row is released in any case.
unfoldable pub release_bond : ℕ → ℕ × Dispute → Store → Store
release_bond market (key, d) s =
    let currency = currency_of d.currency in
    let balance_before = ledger_balance s.duels.ledger d.user currency in
    let row : Transaction = record {
      user = d.user;
      type = TransactionType.dispute_refund;
      amount = pos d.bond_amount;
      currency = currency;
      balance_before = balance_before;
      balance_after = balance_before +ℤ pos d.bond_amount;
      payment = none;
      position = none;
      note = Note.bond_returned market;
    } in
    let paid = if leb d.bond_amount 0 then s else with_ledger (row ∷ s.duels.ledger) s in
    record paid {
      disputes =
          insert key (record d { bond_status = DisputeBondStatus.not_applicable }) s.disputes;
    }

unfoldable pub release_bonds : ℕ → Rows Dispute → Store → Store
unfolding release_bond
release_bonds market [] s = s
release_bonds market (r ∷ rows) s = release_bonds market rows (release_bond market r s)

unfoldable pub release_locked_dispute_bonds : ℕ → Store → Store
unfolding release_bonds
release_locked_dispute_bonds market s = release_bonds market (locked_on market s.disputes) s

abbrev pub bets_on : ℕ → Rows Bet → Rows Bet
bets_on market bets = keep (λ (r : ℕ × Bet). r.1.market == market) bets

-- The transaction: the status, the bets, the bonds. `none` is an unknown market.
unfoldable pub cancel_rows : ℕ → Store → Option Store
unfolding refund_positions release_locked_dispute_bonds
cancel_rows market s = elim (lookup market s.markets) [
  | none ↦ none
  | some m ↦
      let cancelled = record s {
        markets = insert market (record m { status = MarketStatus.cancelled }) s.markets;
      } in
      some (
        release_locked_dispute_bonds market
          (refund_positions (bets_on market cancelled.bets) Note.market_cancelled_refund cancelled))
]

-- The duels are voided after the commit.
unfoldable pub cancel_market : ℕ → ℕ → (ℕ → CardType) → Store → Option Store
unfolding cancel_rows
cancel_market market now draw s = elim (cancel_rows market s) [
  | none ↦ none
  | some committed ↦
      some (record committed { duels = settle_by_market market none now draw committed.duels })
]

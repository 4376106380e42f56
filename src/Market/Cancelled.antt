-- ===== src/Market/Cancelled.antt =====
-- What `cancelMarket` leaves behind (src/markets/parimutuel.engine.ts).
use Prim.Native.String.{String}
use oro_backend.Base.{
  ℕ, ◌+◌, ◌≡◌, refl, ◌∙◌, inl, inr, none, some, [], ◌∷◌, arith, leb, Bool-cases, Option-cases,
}
use oro_backend.Base.Int.{pos, ◌+ℤ◌, int_laws}
use oro_backend.Base.Rows.{Rows, lookup, insert}
use oro_backend.Entities.{MarketStatus}
use oro_backend.Ledger.{Note, btn_currency}
use oro_backend.Ledger.Balance.{ledger_balance}
use oro_backend.Duel.{Store as DuelStore, CardType, settle_by_market, live_on}
use oro_backend.Duel.Settlement.{paid_by}
use oro_backend.Duel.Closing.{IsConsistent, settle_by_market-ledger_balance}
use oro_backend.Market.State.{Market, Dispute, Store}
use oro_backend.Market.Cancel.{
  pending_of, refund_positions, locked_on, release_bond, release_bonds,
  release_locked_dispute_bonds, bets_on, cancel_rows, cancel_market,
}
use oro_backend.Market.Refunds.{
  staked, bonded, refund_rows-ledger_balance, release_bonds-ledger_balance, in_bets-pending_of,
  in_bonds-locked_on,
}

-- The bonds leave the duels and the bets alone.
pub release_bonds_frame :
    (market : ℕ) (rows : Rows Dispute) (s : Store)
    → ((release_bonds market rows s).duels.challenges ≡ s.duels.challenges)
      × ((release_bonds market rows s).duels.distributions ≡ s.duels.distributions)
      × ((release_bonds market rows s).bets ≡ s.bets)
unfolding release_bonds release_bond
release_bonds_frame market [] s = (refl, refl, refl)
release_bonds_frame market (r ∷ rows) s =
    let (c, d, b) = release_bonds_frame market rows (release_bond market r s) in
    elim (Bool-cases (leb r.1.bond_amount 0)) [
      | inl empty ↦ ground (arith, c, d, b, empty)
      | inr paid ↦ ground (arith, c, d, b, paid)
    ]

-- The bets as a cancellation leaves them, with everything else.
abbrev pub refunded_store : ℕ → Market → Store → Store
refunded_store market m s =
    refund_positions (bets_on market s.bets) Note.market_cancelled_refund (record s {
      markets = insert market (record m { status = MarketStatus.cancelled }) s.markets;
    })

pub cancel_rows_known :
    (market : ℕ) (s s' : Store)
    → cancel_rows market s ≡ some s'
    → (m : Market) × (lookup market s.markets ≡ some m)
      × (s' ≡ release_locked_dispute_bonds market (refunded_store market m s))
unfolding cancel_rows
cancel_rows_known market s s' h = elim (Option-cases (lookup market s.markets)) [
  | inl unknown ↦ ground arith
  | inr (m, known) ↦ (m, known, ground (arith, known, h))
]

-- The transaction of a cancellation adds to each user's balance, in each currency, exactly the
-- stakes of their pending bets and their locked bonds on the market.
pub cancel_rows-ledger_balance :
    (market : ℕ) (s s' : Store)
    → cancel_rows market s ≡ some s'
    → (user : ℕ) (currency : String)
    → ledger_balance s'.duels.ledger user currency
      ≡ ledger_balance s.duels.ledger user currency
        +ℤ pos (staked market user currency s.bets + bonded market user currency s.disputes)
cancel_rows-ledger_balance market s s' h user currency =
    let (m, known, e) = cancel_rows_known market s s' h in
    let bonds =
      release_bonds-ledger_balance market user currency (locked_on market s.disputes)
        (refunded_store market m s) in
    let bets =
      refund_rows-ledger_balance user currency s.duels.ledger [] Note.market_cancelled_refund
        (pending_of (bets_on market s.bets)) s.duels.ledger in
    let same_bets = in_bets-pending_of market user currency s.bets in
    let same_bonds = in_bonds-locked_on market user currency s.disputes in
    rw e (
      unfold refund_positions release_locked_dispute_bonds in
      bonds ∙ rw (bets, same_bets, same_bonds) (omega int_laws))

cancel_rows_frame :
    (market : ℕ) (s s' : Store)
    → cancel_rows market s ≡ some s'
    → (s'.duels.challenges ≡ s.duels.challenges) × (s'.duels.distributions ≡ s.duels.distributions)
cancel_rows_frame market s s' h =
    let (m, known, e) = cancel_rows_known market s s' h in
    let (c, d, b) =
      release_bonds_frame market (locked_on market s.disputes) (refunded_store market m s) in
    rw e (unfold refund_positions release_locked_dispute_bonds in (c, d))

IsConsistent-frame :
    (s s' : DuelStore)
    → s'.challenges ≡ s.challenges
    → s'.distributions ≡ s.distributions
    → IsConsistent s
    → IsConsistent s'
IsConsistent-frame s s' c d h = record {
  unique_keys = rw c h.unique_keys;
  unbooked = λ k x e live. rw d (h.unbooked k x (ground (arith, e, c)) live);
}

-- When the duel tables are consistent, cancelling a market adds to each user's ngultrum balance
-- exactly the stakes of their pending bets, their locked bonds, and their wagers in live duels on
-- it.
pub cancel_market-ledger_balance :
    (market now : ℕ) (draw : ℕ → CardType) (s s' : Store)
    → IsConsistent s.duels
    → cancel_market market now draw s ≡ some s'
    → (user : ℕ)
    → ledger_balance s'.duels.ledger user btn_currency
      ≡ ledger_balance s.duels.ledger user btn_currency
        +ℤ pos (
            staked market user btn_currency s.bets
            + bonded market user btn_currency s.disputes
            + paid_by none user (live_on market s.duels.challenges))
unfolding cancel_market
cancel_market-ledger_balance market now draw s s' h e user =
    elim (Option-cases (cancel_rows market s)) [
      | inl unknown ↦ ground arith
      | inr (committed, c) ↦
          let (same, fees) = cancel_rows_frame market s committed c in
          let kept = IsConsistent-frame s.duels committed.duels same fees h in
          let back = cancel_rows-ledger_balance market s committed c user btn_currency in
          let duels =
            settle_by_market-ledger_balance market none now draw committed.duels kept user in
          let e' : s'.duels ≡ settle_by_market market none now draw committed.duels =
            ground (arith, e, c) in
          rw e' (duels ∙ rw (back, same) (omega int_laws))
    ]

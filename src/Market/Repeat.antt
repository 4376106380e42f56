-- ===== src/Market/Repeat.antt =====
-- A second cancellation of a market (src/markets/parimutuel.engine.ts).
use Prim.Native.String.{String}
use oro_backend.Base.{
  ℕ, ◌==◌, ◌&&◌, ◌≡◌, refl, ◌∙◌, sym, false, Option, none, some, [], ◌∷◌, arith, ==_refl,
}
use oro_backend.Base.Int.{int_laws}
use oro_backend.Base.Rows.{Rows, lookup, UniqueKeys}
use oro_backend.Ledger.Balance.{ledger_balance}
use oro_backend.Market.State.{Bet, Dispute, Store}
use oro_backend.Market.Cancel.{
  is_pending, pending_of, refund_positions, is_locked, locked_on, release_locked_dispute_bonds,
  bets_on, cancel_rows,
}
use oro_backend.Market.Refunds.{staked, bonded}
use oro_backend.Market.Cancelled.{
  refunded_store, cancel_rows_known, release_bonds_frame, cancel_rows-ledger_balance,
}
use oro_backend.Market.Emptied.{
  bet_after, dispute_after, mark_refunded-UniqueKeys, release_bonds-UniqueKeys, cancel_rows-lookup,
}

cancel_rows-UniqueKeys :
    (market : ℕ) (s s' : Store)
    → UniqueKeys s.bets
    → UniqueKeys s.disputes
    → cancel_rows market s ≡ some s'
    → UniqueKeys s'.bets × UniqueKeys s'.disputes
unfolding refund_positions release_locked_dispute_bonds
cancel_rows-UniqueKeys market s s' ub ud h =
    let (m, known, e) = cancel_rows_known market s s' h in
    let (c, d, same) =
      release_bonds_frame market (locked_on market s.disputes) (refunded_store market m s) in
    (
      rw e (rw same (mark_refunded-UniqueKeys (pending_of (bets_on market s.bets)) s.bets ub)),
      rw e (
          release_bonds-UniqueKeys market (locked_on market s.disputes) (refunded_store market m s)
            ud),
    )

staked-none :
    (market user : ℕ) (currency : String) (bets : Rows Bet)
    → UniqueKeys bets
    → ((k : ℕ) (b : Bet)
        → lookup k bets ≡ some b
        → (b.market == market && is_pending b.status) ≡ false)
    → staked market user currency bets ≡ 0
staked-none market user currency [] u over = refl
staked-none market user currency ((k, b) ∷ bets) u over =
    let b_over = over k b (ground (arith, ==_refl k)) in
    let ih = staked-none market user currency bets u.1 (λ j c e. over j c (ground arith)) in
    ground (arith, b_over, ih)

bonded-none :
    (market user : ℕ) (currency : String) (disputes : Rows Dispute)
    → UniqueKeys disputes
    → ((k : ℕ) (d : Dispute)
        → lookup k disputes ≡ some d
        → (d.market == market && is_locked d.bond_status) ≡ false)
    → bonded market user currency disputes ≡ 0
bonded-none market user currency [] u over = refl
bonded-none market user currency ((k, d) ∷ disputes) u over =
    let d_over = over k d (ground (arith, ==_refl k)) in
    let ih = bonded-none market user currency disputes u.1 (λ j c e. over j c (ground arith)) in
    ground (arith, d_over, ih)

bet_over :
    (market : ℕ) (o : Option Bet) (b : Bet)
    → bet_after market o ≡ some b
    → (b.market == market && is_pending b.status) ≡ false
bet_over market none b h = ground arith
bet_over market (some a) b h = ground arith

dispute_over :
    (market : ℕ) (o : Option Dispute) (d : Dispute)
    → dispute_after market o ≡ some d
    → (d.market == market && is_locked d.bond_status) ≡ false
dispute_over market none d h = ground arith
dispute_over market (some a) d h = ground arith

-- When keys stand once, cancelling a market a second time changes no balance.
pub cancel_rows_twice :
    (market : ℕ) (s s' s'' : Store)
    → UniqueKeys s.bets
    → UniqueKeys s.disputes
    → cancel_rows market s ≡ some s'
    → cancel_rows market s' ≡ some s''
    → (user : ℕ) (currency : String)
    → ledger_balance s''.duels.ledger user currency ≡ ledger_balance s'.duels.ledger user currency
cancel_rows_twice market s s' s'' ub ud h h' user currency =
    let after = cancel_rows-lookup market s s' ub ud h in
    let no_bets =
      staked-none market user currency s'.bets (cancel_rows-UniqueKeys market s s' ub ud h).0
        (λ k b e. bet_over market (lookup k s.bets) b (sym (after k).0 ∙ e)) in
    let no_bonds =
      bonded-none market user currency s'.disputes (cancel_rows-UniqueKeys market s s' ub ud h).1
        (λ k d e. dispute_over market (lookup k s.disputes) d (sym (after k).1 ∙ e)) in
    cancel_rows-ledger_balance market s' s'' h' user currency
    ∙ rw (no_bets, no_bonds) (omega int_laws)

-- ===== src/Market/Emptied.antt =====
-- The rows that `cancelMarket` leaves
-- (src/markets/parimutuel.engine.ts).
use oro_backend.Base.{
  ℕ, ◌==◌, ◌&&◌, ◌≡◌, refl, ◌∙◌, ap, inl, inr, Option, none, some, [], ◌∷◌, arith, Bool-cases,
  Option-cases, if◌then◌else◌, ==_iff,
}
use oro_backend.Base.Rows.{
  Rows, lookup, insert, lookup-insert, UniqueKeys, insert-UniqueKeys, only, keep-UniqueKeys,
  lookup-keep,
}
use oro_backend.Entities.{PositionStatus}
use oro_backend.Market.State.{Bet, Dispute, DisputeBondStatus, Store}
use oro_backend.Market.Cancel.{
  is_pending, mark_refunded, pending_of, refund_positions, is_locked, locked_on, release_bond,
  release_bonds, release_locked_dispute_bonds, bets_on, cancel_rows,
}
use oro_backend.Market.Cancelled.{refunded_store, cancel_rows_known, release_bonds_frame}

-- The bet that stands under a key after its market is cancelled.
abbrev pub bet_after : ℕ → Option Bet → Option Bet
bet_after market none = none
bet_after market (some b) = some (
    if b.market == market && is_pending b.status
    then record b { status = PositionStatus.refunded }
    else b)

-- The dispute that stands under a key after its market is cancelled.
abbrev pub dispute_after : ℕ → Option Dispute → Option Dispute
dispute_after market none = none
dispute_after market (some d) = some (
    if d.market == market && is_locked d.bond_status
    then record d { bond_status = DisputeBondStatus.not_applicable }
    else d)

abbrev refund_in : Option Bet → Option Bet → Option Bet
refund_in none o = o
refund_in (some _) none = none
refund_in (some _) (some b) = some (record b { status = PositionStatus.refunded })

lookup-mark_refunded :
    (j : ℕ) (bets table : Rows Bet)
    → UniqueKeys bets
    → lookup j (mark_refunded bets table) ≡ refund_in (lookup j bets) (lookup j table)
unfolding mark_refunded
lookup-mark_refunded j [] table u = refl
lookup-mark_refunded j ((key, bet) ∷ bets) table u = elim (Option-cases (lookup key table)) [
  | inl absent ↦ elim (Bool-cases (j == key)) [
    | inl here ↦
        let e : j ≡ key = (==_iff j key).0 here in
        rw (absent, here, lookup-mark_refunded j bets table u.1, e, u.0, absent) refl
    | inr there ↦ rw (absent, there) (lookup-mark_refunded j bets table u.1)
  ]
  | inr (b, found) ↦
      let table' = insert key (record b { status = PositionStatus.refunded }) table in
      let ih = lookup-mark_refunded j bets table' u.1 in
      let at_key = lookup-insert j key (record b { status = PositionStatus.refunded }) table in
      elim (Bool-cases (j == key)) [
        | inl here ↦
            let e : j ≡ key = (==_iff j key).0 here in
            rw (found, here) (ih ∙ rw (at_key, here, e, u.0, found) refl)
        | inr there ↦ rw (found, there) (ih ∙ rw (at_key, there) refl)
      ]
]

pub mark_refunded-UniqueKeys :
    (bets table : Rows Bet) → UniqueKeys table → UniqueKeys (mark_refunded bets table)
unfolding mark_refunded
mark_refunded-UniqueKeys [] table u = u
mark_refunded-UniqueKeys ((key, bet) ∷ bets) table u = elim (Option-cases (lookup key table)) [
  | inl absent ↦ rw absent (mark_refunded-UniqueKeys bets table u)
  | inr (b, found) ↦ rw found (
      mark_refunded-UniqueKeys bets _
        (insert-UniqueKeys key (record b { status = PositionStatus.refunded }) table u))
]

abbrev release_in : Option Dispute → Option Dispute → Option Dispute
release_in none o = o
release_in (some d) o = some (record d { bond_status = DisputeBondStatus.not_applicable })

release_bond-disputes :
    (market key : ℕ) (d : Dispute) (s : Store)
    → (release_bond market (key, d) s).disputes
      ≡ insert key (record d { bond_status = DisputeBondStatus.not_applicable }) s.disputes
unfolding release_bond
release_bond-disputes market key d s = refl

lookup-release_bonds :
    (market j : ℕ) (rows : Rows Dispute) (s : Store)
    → UniqueKeys rows
    → lookup j (release_bonds market rows s).disputes
      ≡ release_in (lookup j rows) (lookup j s.disputes)
unfolding release_bonds
lookup-release_bonds market j [] s u = refl
lookup-release_bonds market j ((key, d) ∷ rows) s u =
    let ih = lookup-release_bonds market j rows (release_bond market (key, d) s) u.1 in
    let written = release_bond-disputes market key d s in
    let at_key =
      lookup-insert j key (record d { bond_status = DisputeBondStatus.not_applicable })
        s.disputes in
    elim (Bool-cases (j == key)) [
      | inl here ↦
          let e : j ≡ key = (==_iff j key).0 here in
          rw here (ih ∙ rw (written, at_key, here, e, u.0) refl)
      | inr there ↦ rw there (ih ∙ rw (written, at_key, there) refl)
    ]

pub release_bonds-UniqueKeys :
    (market : ℕ) (rows : Rows Dispute) (s : Store)
    → UniqueKeys s.disputes
    → UniqueKeys (release_bonds market rows s).disputes
unfolding release_bonds
release_bonds-UniqueKeys market [] s u = u
release_bonds-UniqueKeys market ((key, d) ∷ rows) s u =
    release_bonds-UniqueKeys market rows (release_bond market (key, d) s)
      (rw (release_bond-disputes market key d s) (insert-UniqueKeys key _ s.disputes u))

bet_step :
    (market j : ℕ) (o : Option Bet)
    → refund_in
        (only
          (λ (r : ℕ × Bet). is_pending r.1.status)
          j
          (only (λ (r : ℕ × Bet). r.1.market == market) j o))
        o
      ≡ bet_after market o
bet_step market j none = refl
bet_step market j (some b) = ground arith

dispute_step :
    (market j : ℕ) (o : Option Dispute)
    → release_in
        (only (λ (r : ℕ × Dispute). r.1.market == market && is_locked r.1.bond_status) j o)
        o
      ≡ dispute_after market o
dispute_step market j none = refl
dispute_step market j (some d) = ground arith

-- When keys stand once, the transaction of a cancellation marks every pending bet of the market as
-- refunded and every locked bond of it as released, and leaves every other bet and dispute as it
-- was.
pub cancel_rows-lookup :
    (market : ℕ) (s s' : Store)
    → UniqueKeys s.bets
    → UniqueKeys s.disputes
    → cancel_rows market s ≡ some s'
    → (j : ℕ)
    → (lookup j s'.bets ≡ bet_after market (lookup j s.bets))
      × (lookup j s'.disputes ≡ dispute_after market (lookup j s.disputes))
unfolding refund_positions release_locked_dispute_bonds
cancel_rows-lookup market s s' ub ud h j =
    let (m, known, e) = cancel_rows_known market s s' h in
    let (c, d, same) =
      release_bonds_frame market (locked_on market s.disputes) (refunded_store market m s) in
    let on_market = keep-UniqueKeys (λ (r : ℕ × Bet). r.1.market == market) s.bets ub in
    let bets = lookup-mark_refunded j (pending_of (bets_on market s.bets)) s.bets (
      keep-UniqueKeys (λ (r : ℕ × Bet). is_pending r.1.status) (bets_on market s.bets) on_market) in
    let kept =
      lookup-keep (λ (r : ℕ × Bet). is_pending r.1.status) j (bets_on market s.bets) on_market in
    let chosen = lookup-keep (λ (r : ℕ × Bet). r.1.market == market) j s.bets ub in
    let locked = λ (r : ℕ × Dispute). r.1.market == market && is_locked r.1.bond_status in
    let bonds =
      lookup-release_bonds market j (locked_on market s.disputes) (refunded_store market m s)
        (keep-UniqueKeys locked s.disputes ud) in
    let kept_bonds = lookup-keep locked j s.disputes ud in
    (
      rw e (ap (lookup j) same ∙ bets ∙ rw (kept, chosen) (bet_step market j (lookup j s.bets))),
      rw e (bonds ∙ rw kept_bonds (dispute_step market j (lookup j s.disputes))),
    )

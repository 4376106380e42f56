-- ===== src/Duel/Closing.antt =====
-- The money of `settleByMarket` as a whole (src/challenges/challenges.service.ts).
use oro_backend.Base.{
  ℕ, ◌==◌, ◌&&◌, ◌≡◌, refl, inl, inr, true, false, Option, none, some, [], ◌∷◌, arith, Bool-cases,
  ==_refl,
}
use oro_backend.Base.Int.{pos, ◌+ℤ◌}
use oro_backend.Base.Rows.{Rows, lookup, UniqueKeys}
use oro_backend.Ledger.{btn_currency}
use oro_backend.Ledger.Balance.{ledger_balance}
use oro_backend.Duel.Tables.{Store, Challenge, CardType}
use oro_backend.Duel.Void.{is_live}
use oro_backend.Duel.Settle.{is_distributed, live_on, settle_by_market}
use oro_backend.Duel.Money.{money}
use oro_backend.Duel.Settlement.{Pending, settle_all-money, settle_all-ledger_balance, paid_by}

-- What the duel tables keep true: a key stands once, and a live duel has no fee booked.
pub record IsConsistent (s : Store) : Type 0 where
  pub unique_keys : UniqueKeys s.challenges
  pub unbooked :
      (k : ℕ) (c : Challenge)
      → lookup k s.challenges ≡ some c
      → is_live c.status ≡ true
      → is_distributed s k ≡ false

lookup-live_on-none :
    (market j : ℕ) (rows : Rows Challenge)
    → lookup j rows ≡ none
    → lookup j (live_on market rows) ≡ none
unfolding live_on
lookup-live_on-none market j [] h = refl
lookup-live_on-none market j (r ∷ rows) h = ground (arith, lookup-live_on-none market j rows)

live_on-UniqueKeys :
    (market : ℕ) (rows : Rows Challenge) → UniqueKeys rows → UniqueKeys (live_on market rows)
unfolding live_on
live_on-UniqueKeys market [] u = tt
live_on-UniqueKeys market ((k, c) ∷ rows) u =
    elim (Bool-cases (c.market == market && is_live c.status)) [
      | inl kept ↦
          rw kept (lookup-live_on-none market k rows u.0, live_on-UniqueKeys market rows u.1)
      | inr dropped ↦ rw dropped (live_on-UniqueKeys market rows u.1)
    ]

-- The table agrees with a list of rows.
abbrev pub Agrees : Rows Challenge → Rows Challenge → Type 0
Agrees full [] = Unit
Agrees full ((k, c) ∷ rows) = (lookup k full ≡ some c) × Agrees full rows

Agrees-cons :
    (x : ℕ × Challenge) (full rows : Rows Challenge)
    → lookup x.0 rows ≡ none
    → Agrees full rows
    → Agrees (x ∷ full) rows
Agrees-cons x full [] absent a = tt
Agrees-cons x full (r ∷ rows) absent a = (ground arith, Agrees-cons x full rows (ground arith) a.1)

pub Agrees-self : (rows : Rows Challenge) → UniqueKeys rows → Agrees rows rows
Agrees-self [] u = tt
Agrees-self (r ∷ rows) u =
    (ground (arith, ==_refl r.0), Agrees-cons r rows rows u.0 (Agrees-self rows u.1))

live_on-Pending :
    (market : ℕ) (s : Store) (rows : Rows Challenge)
    → IsConsistent s
    → Agrees s.challenges rows
    → Pending s (live_on market rows)
unfolding live_on
live_on-Pending market s [] h a = tt
live_on-Pending market s ((k, c) ∷ rows) h a =
    elim (Bool-cases (c.market == market && is_live c.status)) [
      | inl kept ↦
          let live : is_live c.status ≡ true = ground arith in
          rw kept ((a.0, live, h.unbooked k c a.0 live), live_on-Pending market s rows h a.1)
      | inr dropped ↦ rw dropped (live_on-Pending market s rows h a.1)
    ]

module _ (market : ℕ) (winning : Option ℕ) (now : ℕ) (draw : ℕ → CardType) (s : Store)
    (h : IsConsistent s) where
  pub snapshot-UniqueKeys : UniqueKeys (live_on market s.challenges)
  snapshot-UniqueKeys = live_on-UniqueKeys market s.challenges h.unique_keys

  pub snapshot-Pending : Pending s (live_on market s.challenges)
  snapshot-Pending =
      live_on-Pending market s s.challenges h (Agrees-self s.challenges h.unique_keys)

  -- When the duel tables are consistent, settling the duels of a market, with a winning outcome or
  -- with none, keeps the sum of the ledger, of the escrow of live duels and of the booked fees.
  pub settle_by_market-money : money (settle_by_market market winning now draw s) ≡ money s
  unfolding settle_by_market
  settle_by_market-money =
      settle_all-money winning now draw (live_on market s.challenges) s snapshot-UniqueKeys
        snapshot-Pending

  -- When the duel tables are consistent, settling the duels of a market adds to each user's
  -- ngultrum balance exactly what the live duels owe them: the wager back when nobody joined or
  -- the market was called off, the pot less the fee for the winner.
  pub settle_by_market-ledger_balance :
      (user : ℕ)
      → ledger_balance (settle_by_market market winning now draw s).ledger user btn_currency
        ≡ ledger_balance s.ledger user btn_currency
          +ℤ pos (paid_by winning user (live_on market s.challenges))
  unfolding settle_by_market
  settle_by_market-ledger_balance user =
      settle_all-ledger_balance winning now draw user (live_on market s.challenges) s
        snapshot-UniqueKeys snapshot-Pending

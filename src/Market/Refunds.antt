-- ===== src/Market/Refunds.antt =====
-- The ledger rows of a cancellation (src/markets/parimutuel.engine.ts).
use Prim.Native.String.{String}
use text.Mathlib.Text.{◌==◌ as str_eq}
use oro_backend.Base.{
  ℕ, ◌+◌, ◌==◌, ◌&&◌, ◌≡◌, refl, ◌∙◌, sym, inl, inr, List, [], ◌∷◌, leb, Bool-cases, if◌then◌else◌,
}
use oro_backend.Base.Int.{pos, ◌+ℤ◌, int_laws}
use oro_backend.Base.Rows.{Rows}
use oro_backend.Ledger.{Transaction, Note}
use oro_backend.Ledger.Balance.{ledger_balance}
use oro_backend.Market.State.{Bet, Dispute, Store}
use oro_backend.Market.Cancel.{
  is_pending, currency_of, Deltas, delta_of, refund_rows, pending_of, refund_positions, is_locked,
  locked_on, release_bond, release_bonds, bets_on,
}

-- What the pending bets on a market staked for one user in one currency.
abbrev pub staked : ℕ → ℕ → String → Rows Bet → ℕ
staked market user currency [] = 0
staked market user currency (r ∷ bets) =
    let rest = staked market user currency bets in
    if r.1.market == market
    then (if is_pending r.1.status
        then (if r.1.user == user && str_eq (currency_of r.1.currency) currency
            then r.1.amount + rest
            else rest)
        else rest)
    else rest

-- What the bonds locked on a market hold for one user in one currency.
abbrev pub bonded : ℕ → ℕ → String → Rows Dispute → ℕ
bonded market user currency [] = 0
bonded market user currency (r ∷ disputes) =
    let rest = bonded market user currency disputes in
    if r.1.market == market
    then (if is_locked r.1.bond_status
        then (if r.1.user == user && str_eq (currency_of r.1.currency) currency
            then r.1.bond_amount + rest
            else rest)
        else rest)
    else rest

abbrev pub in_bets : ℕ → String → Rows Bet → ℕ
in_bets user currency [] = 0
in_bets user currency (r ∷ bets) =
    let rest = in_bets user currency bets in
    if r.1.user == user && str_eq (currency_of r.1.currency) currency
    then r.1.amount + rest
    else rest

pub in_bets-pending_of :
    (market user : ℕ) (currency : String) (bets : Rows Bet)
    → in_bets user currency (pending_of (bets_on market bets)) ≡ staked market user currency bets
in_bets-pending_of market user currency [] = refl
in_bets-pending_of market user currency (r ∷ bets) = elim (Bool-cases (r.1.market == market)) [
  | inl here ↦ elim (Bool-cases (is_pending r.1.status)) [
    | inl waits ↦ rw (here, waits, in_bets-pending_of market user currency bets) refl
    | inr over ↦ rw (here, over) (in_bets-pending_of market user currency bets)
  ]
  | inr there ↦ rw there (in_bets-pending_of market user currency bets)
]

pub refund_rows-ledger_balance :
    (user : ℕ) (currency : String) (preloaded : List Transaction) (deltas : Deltas) (note : Note)
    (bets : Rows Bet) (rows : List Transaction)
    → ledger_balance (refund_rows preloaded deltas note bets rows) user currency
      ≡ ledger_balance rows user currency +ℤ pos (in_bets user currency bets)
unfolding refund_rows ledger_balance
refund_rows-ledger_balance user currency preloaded deltas note [] rows = omega int_laws
refund_rows-ledger_balance user currency preloaded deltas note ((key, bet) ∷ bets) rows =
    let paid_now : ℕ × String × ℕ = (bet.user, currency_of bet.currency, bet.amount) in
    elim (Bool-cases (bet.user == user && str_eq (currency_of bet.currency) currency)) [
      | inl mine ↦
          refund_rows-ledger_balance user currency preloaded (paid_now ∷ deltas) note bets _
          ∙ rw mine (omega int_laws)
      | inr other ↦
          refund_rows-ledger_balance user currency preloaded (paid_now ∷ deltas) note bets _
          ∙ rw other refl
    ]

-- Every row of the ledger records the balance of its account just before it, in its currency.
abbrev pub IsRunning : List Transaction → Type 0
IsRunning [] = Unit
IsRunning (t ∷ ts) =
    ((t.balance_before ≡ ledger_balance ts t.user t.currency)
      × (t.balance_after ≡ t.balance_before +ℤ t.amount))
    × IsRunning ts

-- The deltas are what the rows of this run have added to the preloaded ledger.
abbrev pub Tracks : List Transaction → Deltas → List Transaction → Type 0
Tracks preloaded deltas rows =
    (user : ℕ) (currency : String)
    → ledger_balance rows user currency
      ≡ ledger_balance preloaded user currency +ℤ pos (delta_of deltas user currency)

refund_rows-IsRunning :
    (preloaded : List Transaction) (deltas : Deltas) (note : Note) (bets : Rows Bet)
    (rows : List Transaction)
    → Tracks preloaded deltas rows
    → IsRunning rows
    → IsRunning (refund_rows preloaded deltas note bets rows)
unfolding refund_rows ledger_balance delta_of
refund_rows-IsRunning preloaded deltas note [] rows tracks running = running
refund_rows-IsRunning preloaded deltas note ((key, bet) ∷ bets) rows tracks running =
    refund_rows-IsRunning preloaded ((bet.user, currency_of bet.currency, bet.amount) ∷ deltas) note
      bets _
      (λ user currency.
        elim (Bool-cases (bet.user == user && str_eq (currency_of bet.currency) currency)) [
          | inl mine ↦ rw (mine, tracks user currency) (omega int_laws)
          | inr other ↦ rw (other, tracks user currency) refl
        ])
      ((sym (tracks bet.user (currency_of bet.currency)), refl), running)

-- If every row of the ledger records the balance of its account just before it, so does every row
-- after a refund of any bets from balances that were read once ahead of the loop.
pub refund_positions-IsRunning :
    (bets : Rows Bet) (note : Note) (s : Store)
    → IsRunning s.duels.ledger
    → IsRunning (refund_positions bets note s).duels.ledger
unfolding refund_positions
refund_positions-IsRunning bets note s running =
    refund_rows-IsRunning s.duels.ledger [] note (pending_of bets) s.duels.ledger
      (λ user currency. unfold delta_of in omega int_laws) running

abbrev pub in_bonds : ℕ → String → Rows Dispute → ℕ
in_bonds user currency [] = 0
in_bonds user currency (r ∷ rows) =
    let rest = in_bonds user currency rows in
    if r.1.user == user && str_eq (currency_of r.1.currency) currency
    then r.1.bond_amount + rest
    else rest

pub in_bonds-locked_on :
    (market user : ℕ) (currency : String) (disputes : Rows Dispute)
    → in_bonds user currency (locked_on market disputes) ≡ bonded market user currency disputes
in_bonds-locked_on market user currency [] = refl
in_bonds-locked_on market user currency (r ∷ disputes) = elim (Bool-cases (r.1.market == market)) [
  | inl here ↦ elim (Bool-cases (is_locked r.1.bond_status)) [
    | inl locked ↦ rw (here, locked, in_bonds-locked_on market user currency disputes) refl
    | inr free ↦ rw (here, free) (in_bonds-locked_on market user currency disputes)
  ]
  | inr there ↦ rw there (in_bonds-locked_on market user currency disputes)
]

release_bond-ledger_balance :
    (market user : ℕ) (currency : String) (r : ℕ × Dispute) (s : Store)
    → ledger_balance (release_bond market r s).duels.ledger user currency
      ≡ ledger_balance s.duels.ledger user currency +ℤ pos (in_bonds user currency (r ∷ []))
unfolding release_bond ledger_balance
release_bond-ledger_balance market user currency r s = elim (Bool-cases (leb r.1.bond_amount 0)) [
  | inl empty ↦ grind (int_laws, empty)
  | inr paid ↦ elim (Bool-cases (r.1.user == user && str_eq (currency_of r.1.currency) currency)) [
    | inl mine ↦ rw (paid, mine) (omega int_laws)
    | inr other ↦ rw (paid, other) (omega int_laws)
  ]
]

pub release_bonds-ledger_balance :
    (market user : ℕ) (currency : String) (rows : Rows Dispute) (s : Store)
    → ledger_balance (release_bonds market rows s).duels.ledger user currency
      ≡ ledger_balance s.duels.ledger user currency +ℤ pos (in_bonds user currency rows)
unfolding release_bonds
release_bonds-ledger_balance market user currency [] s = omega int_laws
release_bonds-ledger_balance market user currency (r ∷ rows) s =
    release_bonds-ledger_balance market user currency rows (release_bond market r s)
    ∙ rw (release_bond-ledger_balance market user currency r s) (grind int_laws)

-- ===== src/Stake/Placed.antt =====
-- What a placed position leaves (src/markets/parimutuel.engine.ts).
use Prim.Native.String.{String}
use text.Mathlib.Text.{◌==◌ as str_eq}
use oro_backend.Base.{
  ℕ, ◌≡◌, ◌⊎◌, refl, sym, ap, ◌∙◌, inl, inr, false, not, ◌&&◌, ◌==◌, Option, none, some, ltb,
  Bool-cases, Option-cases, if◌then◌else◌, arith,
}
use mathlib.Core.Path.{subst}
use oro_backend.Base.Int.{pos, ◌-ℤ◌, ltb_ℤ, ◌≤ℤ◌, int_laws}
use oro_backend.Base.Rows.{lookup}
use oro_backend.Ledger.Balance.{ledger_balance}
use oro_backend.Market.{Market}
use oro_backend.Stake.Wallet.{Account}
use oro_backend.Stake.Place.{
  Desk, Error, Result, ok, err, ensure_book, write_position, check_stake, check_account,
  place_position, is_opened, has_closed, outcome_on,
}
use oro_backend.Stake.Pools.{PoolsMatch, write_position-PoolsMatch}

-- What a success comes from.
abbrev IsWritten : ℕ → ℕ → ℕ → ℕ → ℕ → Market → String → Desk → Desk → Type 0
IsWritten user market outcome amount usdt m currency d d' =
    (d'
      ≡ write_position user market outcome amount m currency
          (ensure_book market m currency usdt d.store.books) d)
    × (ltb_ℤ (ledger_balance d.store.duels.ledger user currency) (pos amount) ≡ false)

result_cases : (x : Result String) → ((e : Error) × (x ≡ err e)) ⊎ ((c : String) × (x ≡ ok c))
result_cases (ok c) = inr (c, refl)
result_cases (err e) = inl (e, refl)

check_stake_ok :
    (user market outcome amount usdt : ℕ) (m : Market) (currency : String) (d d' : Desk)
    → check_stake user market outcome amount usdt m currency d ≡ ok d'
    → IsWritten user market outcome amount usdt m currency d d'
unfolding check_stake
check_stake_ok user market outcome amount usdt m currency d d' h =
    let b = ensure_book market m currency usdt d.store.books in
    elim (Bool-cases (not b.0.is_enabled)) [
      | inl disabled ↦ ground (arith, disabled, h)
      | inr enabled ↦ elim (Bool-cases (ltb amount b.0.min_stake)) [
        | inl low ↦ ground (arith, enabled, low, h)
        | inr enough ↦
            elim (Bool-cases
              (ltb_ℤ (ledger_balance d.store.duels.ledger user currency) (pos amount))) [
                | inl poor ↦ ground (arith, enabled, enough, poor, h)
                | inr covered ↦ (ground (arith, enabled, enough, covered, h), covered)
              ]
      ]
    ]

account_cases :
    (to_upper_case : String → String) (a : Account) (requested : Option String)
    → ((e : Error) × (check_account to_upper_case a requested ≡ err e))
      ⊎ ((c : String) × (check_account to_upper_case a requested ≡ ok c))
account_cases to_upper_case a requested = result_cases (check_account to_upper_case a requested)

place_position_ok :
    (to_upper_case : String → String) (usdt user market outcome amount : ℕ)
    (requested : Option String) (now : ℕ) (d d' : Desk)
    → place_position to_upper_case usdt user market outcome amount requested now d ≡ ok d'
    → (m : Market) × (currency : String) × (lookup market d.store.markets ≡ some m)
      × IsWritten user market outcome amount usdt m currency d d'
unfolding place_position
place_position_ok to_upper_case usdt user market outcome amount requested now d d' h =
    elim (Bool-cases (amount == 0)) [
      | inl nothing ↦ ground (arith, nothing, h)
      | inr stake ↦ elim (Option-cases (lookup market d.store.markets)) [
        | inl unknown ↦ ground (arith, stake, unknown, h)
        | inr (m, known) ↦ elim (Bool-cases (not (is_opened m.status))) [
          | inl shut ↦ ground (arith, stake, known, shut, h)
          | inr opened ↦ elim (Bool-cases (has_closed (lookup market d.betting_closes_at) now)) [
            | inl late ↦ ground (arith, stake, known, opened, late, h)
            | inr early ↦ elim (Option-cases (outcome_on market (lookup outcome d.outcomes))) [
              | inl no_outcome ↦ ground (arith, stake, known, opened, early, no_outcome, h)
              | inr (o, chosen) ↦ elim (Bool-cases o.is_eliminated) [
                | inl out ↦ ground (arith, stake, known, opened, early, chosen, out, h)
                | inr live ↦ elim (Option-cases (lookup user d.accounts)) [
                  | inl nobody ↦
                      ground (arith, stake, known, opened, early, chosen, live, nobody, h)
                  | inr (a, account) ↦ elim (account_cases to_upper_case a requested) [
                    | inl (e, refused) ↦
                        ground
                          (arith, stake, known, opened, early, chosen, live, account, refused, h)
                    | inr (currency, admitted) ↦ (
                      m,
                      currency,
                      known,
                      check_stake_ok user market outcome amount usdt m currency d d' (
                          ground (
                            arith, stake, known, opened, early, chosen, live, account, admitted, h,
                          )),
                    )
                  ]
                ]
              ]
            ]
          ]
        ]
      ]
    ]

written_balance :
    (user market outcome amount usdt : ℕ) (m : Market) (currency : String) (d : Desk) (u : ℕ)
    (c : String)
    → ledger_balance
        (write_position user market outcome amount m currency
          (ensure_book market m currency usdt d.store.books)
          d).store.duels.ledger
        u
        c
      ≡ (if user == u && str_eq currency c
          then ledger_balance d.store.duels.ledger u c -ℤ pos amount
          else ledger_balance d.store.duels.ledger u c)
unfolding write_position ledger_balance
written_balance user market outcome amount usdt m currency d u c =
    elim (Bool-cases (user == u && str_eq currency c)) [
      | inl mine ↦ rw mine (omega int_laws)
      | inr other ↦ rw other refl
    ]

-- If the pool of every book of every market, or what a book that is not there yet would open with,
-- is what was staked in it, this still holds after a position has been placed under a new key.
pub place_position-PoolsMatch :
    (to_upper_case : String → String) (usdt user market outcome amount : ℕ)
    (requested : Option String) (now : ℕ) (d d' : Desk)
    → PoolsMatch d
    → lookup d.next_position d.store.bets ≡ none
    → place_position to_upper_case usdt user market outcome amount requested now d ≡ ok d'
    → PoolsMatch d'
place_position-PoolsMatch to_upper_case usdt user market outcome amount requested now d d' match
      fresh h =
    let (m, currency, known, (e, covered)) =
      place_position_ok to_upper_case usdt user market outcome amount requested now d d' h in
    subst PoolsMatch (sym e)
      (write_position-PoolsMatch user market outcome amount usdt m currency d match fresh known)

-- A placed position was covered by the user's balance in one currency, takes exactly its amount
-- from that balance, and leaves every other balance as it was.
pub place_position-ledger_balance :
    (to_upper_case : String → String) (usdt user market outcome amount : ℕ)
    (requested : Option String) (now : ℕ) (d d' : Desk)
    → place_position to_upper_case usdt user market outcome amount requested now d ≡ ok d'
    → (currency : String) × (pos amount ≤ℤ ledger_balance d.store.duels.ledger user currency)
      × ((u : ℕ) (c : String)
          → ledger_balance d'.store.duels.ledger u c ≡ (
              if user == u && str_eq currency c
              then ledger_balance d.store.duels.ledger u c -ℤ pos amount
              else ledger_balance d.store.duels.ledger u c))
place_position-ledger_balance to_upper_case usdt user market outcome amount requested now d d' h =
    let (m, currency, known, (e, covered)) =
      place_position_ok to_upper_case usdt user market outcome amount requested now d d' h in
    (
      currency,
      ground (arith, covered),
      (λ u c.
          ap (λ (x : Desk). ledger_balance x.store.duels.ledger u c) e
          ∙ written_balance user market outcome amount usdt m currency d u c),
    )

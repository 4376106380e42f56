-- ===== src/Duel/Joining.antt =====
-- `join`: who may accept a duel, and what it costs
-- (src/challenges/challenges.service.ts).
use oro_backend.Base.{
  ℕ, ◌+◌, ◌≤◌, ◌≡◌, ◌≢◌, refl, ◌⊎◌, inl, inr, none, some, arith, Option-cases, ap,
}
use oro_backend.Base.Int.{pos, ◌-ℤ◌, ◌≤ℤ◌, int_laws}
use oro_backend.Base.Rows.{lookup, insert, lookup-insert_self}
use oro_backend.Ledger.{btn_currency}
use oro_backend.Ledger.Balance.{ledger_balance, btn_total}
use oro_backend.Duel.Tables.{
  Store, Challenge, ChallengeStatus, ok, err, Error, challenge_not_open, challenge_expired,
}
use oro_backend.Duel.Wager.{debit}
use oro_backend.Duel.Create.{join, match_wager}
use oro_backend.Duel.Money.{money, escrow-insert}

-- An open duel has no second side yet.
abbrev pub OpenIsUnjoined : Store → ℕ → Type 0
OpenIsUnjoined s key =
    (c : Challenge)
    → lookup key s.challenges ≡ some c
    → c.status ≡ ChallengeStatus.opened
    → c.joiner ≡ none

abbrev pub joined_row : ℕ → Challenge → Challenge
joined_row user c = record c {
  participant_count = c.participant_count + 1;
  joiner = some user;
  status = ChallengeStatus.active;
}

-- Joining makes and loses no money, whether it succeeds or is refused, if an open duel has no
-- second side.
pub join-money :
    (key user now : ℕ) (s : Store) → OpenIsUnjoined s key → money (join key user now s).1 ≡ money s
unfolding join debit btn_total
join-money key user now s unjoined = elim (Option-cases (lookup key s.challenges)) [
  | inl absent ↦ ground arith
  | inr (c, e) ↦
      grind (int_laws, escrow-insert key (joined_row user c) c s.challenges e, unjoined c e)
]

-- A refused join leaves every table as it was.
pub join_refused :
    (key user now : ℕ) (s : Store) {e : Error}
    → (join key user now s).0 ≡ err e
    → (join key user now s).1 ≡ s
unfolding join debit
join_refused key user now s h = ground arith

-- The whole run of a join that no guard stops.
join_run :
    (key user now : ℕ) (c : Challenge) (s : Store)
    → lookup key s.challenges ≡ some c
    → c.status ≡ ChallengeStatus.opened
    → now ≤ c.expires_at
    → c.creator ≢ user
    → (match_wager user c.wager_amount key s).0 ≡ ok tt
    → let paid = (match_wager user c.wager_amount key s).1 in
      join key user now s ≡ (
        ok (joined_row user c),
        record paid { challenges = insert key (joined_row user c) paid.challenges },
      )
unfolding join
join_run key user now c s e st fresh other paid = ground arith

match_wager_lem :
    (user wager key : ℕ) (s : Store)
    → lookup user s.users ≢ none
    → pos wager ≤ℤ ledger_balance s.ledger user btn_currency
    → ((match_wager user wager key s).0 ≡ ok tt)
      × ((match_wager user wager key s).1.challenges ≡ s.challenges)
      × (ledger_balance (match_wager user wager key s).1.ledger user btn_currency
          ≡ ledger_balance s.ledger user btn_currency -ℤ pos wager)
unfolding debit ledger_balance
match_wager_lem user wager key s known funds = grind int_laws

-- An open duel that has not expired is joined by a known user who is not its creator and holds the
-- wager: it becomes active with that user on its other side, and the user's balance falls by the
-- wager.
pub join_accepts :
    (key user now : ℕ) (c : Challenge) (s : Store)
    → lookup key s.challenges ≡ some c
    → c.status ≡ ChallengeStatus.opened
    → now ≤ c.expires_at
    → c.creator ≢ user
    → lookup user s.users ≢ none
    → pos c.wager_amount ≤ℤ ledger_balance s.ledger user btn_currency
    → let r = join key user now s in
      (r.0 ≡ ok (joined_row user c))
      × (r.1.challenges ≡ insert key (joined_row user c) s.challenges)
      × (ledger_balance r.1.ledger user btn_currency
          ≡ ledger_balance s.ledger user btn_currency -ℤ pos c.wager_amount)
join_accepts key user now c s e st fresh other known funds =
    let m = match_wager_lem user c.wager_amount key s known funds in
    rw (join_run key user now c s e st fresh other m.0)
      (refl, ap (insert key (joined_row user c)) m.1, m.2)

-- After a join has succeeded the stored duel is the one returned: active, with the caller as its
-- second side, and another user's.
pub join_succeeded :
    (key user now : ℕ) (c' : Challenge) (s : Store)
    → (join key user now s).0 ≡ ok c'
    → (lookup key (join key user now s).1.challenges ≡ some c')
      × (c'.status ≡ ChallengeStatus.active)
      × (c'.joiner ≡ some user)
      × (c'.creator ≢ user)
unfolding join debit
join_succeeded key user now c' s h = elim (Option-cases (lookup key s.challenges)) [
  | inl absent ↦ ground arith
  | inr (c, e) ↦ ground (arith, lookup-insert_self key (joined_row user c) s.challenges)
]

join_of_active :
    (key user now : ℕ) (c : Challenge) (s : Store)
    → lookup key s.challenges ≡ some c
    → c.status ≡ ChallengeStatus.active
    → ((join key user now s).0 ≡ err challenge_not_open)
      ⊎ ((join key user now s).0 ≡ err challenge_expired)
unfolding join debit
join_of_active key user now c s e st = ground arith

-- Once a join has succeeded every later one is refused, whoever makes it and whenever.
pub join_once :
    (key user now : ℕ) (c' : Challenge) (s : Store)
    → (join key user now s).0 ≡ ok c'
    → (user' now' : ℕ)
    → let s' = (join key user now s).1 in
      ((join key user' now' s').0 ≡ err challenge_not_open)
      ⊎ ((join key user' now' s').0 ≡ err challenge_expired)
join_once key user now c' s h user' now' =
    let r = join_succeeded key user now c' s h in
    join_of_active key user' now' c' (join key user now s).1 r.0 r.1

-- ===== src/Crypto/Money.antt =====
-- The money of USDT withdrawals (src/payment/crypto-withdrawal.service.ts).
use Prim.Native.String.{String}
use oro_backend.Base.{
  ℕ, ◌+◌, ◌≡◌, ◌≤◌, refl, ap, ◌∙◌, inl, inr, Bool, ◌&&◌, ◌==◌, Option, none, some, [], ◌∷◌, arith,
  length, ==_iff, Bool-cases, Option-cases, is_none, is_some, if◌then◌else◌,
}
use oro_backend.Base.Int.{ℤ, pos, ◌+ℤ◌, int_laws}
use oro_backend.Base.Rows.{Rows, lookup, insert, lookup-insert, UniqueKeys, insert-UniqueKeys}
use oro_backend.Ledger.Balance.{ledger_balance}
use oro_backend.Stake.{usdt}
use oro_backend.Crypto.Tables.{CryptoWithdrawal, Store, RemoteStatus, Remote, Result, ok, err}
use oro_backend.Crypto.Apply.{
  Phase, paid, failure, in_flight, phase_of, is_terminal, is_broadcast, or_hash, post_refund,
  returned_row, restore, with_withdrawal, completed_row, held_row, seen_row, failed_row, then_fail,
  apply_phase, apply_loaded,
}

-- What a withdrawal keeps out of its user's balance.
abbrev pub held : ℕ → CryptoWithdrawal → ℕ
held user w = if w.user == user && is_none w.restore_transaction then w.amount_usdt else 0

abbrev pub held_total : ℕ → Rows CryptoWithdrawal → ℕ
held_total user [] = 0
held_total user (r ∷ rows) = held user r.1 + held_total user rows

-- A user's balance and what withdrawals took out of it without giving it back.
abbrev pub wealth : ℕ → Store → ℤ
wealth user s = ledger_balance s.ledger user usdt +ℤ pos (held_total user s.withdrawals)

pub held_total-insert :
    (user k : ℕ) (w old : CryptoWithdrawal) (rows : Rows CryptoWithdrawal)
    → lookup k rows ≡ some old
    → held_total user (insert k w rows) + held user old ≡ held_total user rows + held user w
held_total-insert user k w old [] e = cc
held_total-insert user k w old (r ∷ rows) e = ground (arith, held_total-insert user k w old rows)

pub held_total-insert_new :
    (user k : ℕ) (w : CryptoWithdrawal) (rows : Rows CryptoWithdrawal)
    → lookup k rows ≡ none
    → held_total user (insert k w rows) ≡ held_total user rows + held user w
held_total-insert_new user k w [] e = omega arith
held_total-insert_new user k w (r ∷ rows) e = ground (arith, held_total-insert_new user k w rows)

-- New rows get keys that no row has.
abbrev pub IsFresh : Store → Type 0
IsFresh s = (k : ℕ) → s.next_withdrawal ≤ k → lookup k s.withdrawals ≡ none

-- A copy of a row, of whatever age, has the user and the amount of the stored row.
abbrev pub IsCopy : Store → ℕ → CryptoWithdrawal → Type 0
IsCopy s key w =
    (row : CryptoWithdrawal)
    → lookup key s.withdrawals ≡ some row
    → (row.user ≡ w.user) × (row.amount_usdt ≡ w.amount_usdt)

-- A change that leaves alone who withdraws how much, and whether it was given back.
abbrev pub Keeps : (CryptoWithdrawal → CryptoWithdrawal) → Type 0
Keeps change =
    (row : CryptoWithdrawal)
    → ((change row).user ≡ row.user)
      × ((change row).amount_usdt ≡ row.amount_usdt)
      × ((change row).restore_transaction ≡ row.restore_transaction)

-- What every operation must keep.
pub record Sound (user : ℕ) (s s' : Store) : Type 0 where
  pub money : wealth user s' ≡ wealth user s
  pub fresh : IsFresh s → IsFresh s'
  pub unique : UniqueKeys s.withdrawals → UniqueKeys s'.withdrawals
  pub copies : (key : ℕ) (w : CryptoWithdrawal) → IsCopy s key w → IsCopy s' key w

pub Sound-refl : (user : ℕ) (s : Store) → Sound user s s
Sound-refl user s = record { money = refl; fresh = λ h. h; unique = λ h. h; copies = λ key w h. h }

pub Sound-trans : (user : ℕ) (s t u : Store) → Sound user s t → Sound user t u → Sound user s u
Sound-trans user s t u a b = record {
  money = b.money ∙ a.money;
  fresh = λ h. b.fresh (a.fresh h);
  unique = λ h. b.unique (a.unique h);
  copies = λ key w h. b.copies key w (a.copies key w h);
}

-- Writing a row that changes nothing of the money, with any rows of the ledger beside it.
IsFresh-insert :
    (key k : ℕ) (new row : CryptoWithdrawal) (s : Store)
    → lookup key s.withdrawals ≡ some row
    → lookup k s.withdrawals ≡ none
    → lookup k (insert key new s.withdrawals) ≡ none
IsFresh-insert key k new row s e absent = ground (arith, lookup-insert k key new s.withdrawals)

IsCopy-insert :
    (key k : ℕ) (new row w found : CryptoWithdrawal) (s : Store)
    → lookup key s.withdrawals ≡ some row
    → (new.user ≡ row.user) × (new.amount_usdt ≡ row.amount_usdt)
    → IsCopy s k w
    → lookup k (insert key new s.withdrawals) ≡ some found
    → (found.user ≡ w.user) × (found.amount_usdt ≡ w.amount_usdt)
IsCopy-insert key k new row w found s e same c there =
    let written = lookup-insert k key new s.withdrawals in
    elim (Bool-cases (k == key)) [
      | inl here ↦
          let at : k ≡ key = (==_iff k key).0 here in
          let stored = c row (ap (λ (j : ℕ). lookup j s.withdrawals) at ∙ e) in
          ground (arith, stored, same, written, here, there)
      | inr other ↦ ground (arith, written, other, there, c found)
    ]

pub with_withdrawal-Sound :
    (user key : ℕ) (change : CryptoWithdrawal → CryptoWithdrawal) (s : Store)
    → Keeps change
    → Sound user s (with_withdrawal key change s)
with_withdrawal-Sound user key change s h = elim (Option-cases (lookup key s.withdrawals)) [
  | inl absent ↦ rw (absent, with_withdrawal) (Sound-refl user s)
  | inr (row, e) ↦
      let kept = h row in
      rw (e, with_withdrawal)
        (record {
          money =
              ap (λ (n : ℕ). ledger_balance s.ledger user usdt +ℤ pos n)
                (ground (arith, held_total-insert user key (change row) row s.withdrawals e, kept));
          fresh = λ f k le. IsFresh-insert key k (change row) row s e (f k le);
          unique = λ u. insert-UniqueKeys key (change row) s.withdrawals u;
          copies = λ k w c found there.
              IsCopy-insert key k (change row) row w found s e (kept.0, kept.1) c there;
        })
]

post_refund-money :
    (user key : ℕ) (w row : CryptoWithdrawal) (s : Store) (n : ℕ)
    → lookup key s.withdrawals ≡ some row
    → row.restore_transaction ≡ none
    → (row.user ≡ w.user) × (row.amount_usdt ≡ w.amount_usdt)
    → ledger_balance (returned_row w s.ledger ∷ s.ledger) user usdt
        +ℤ pos (
            held_total user
              (insert key (record row { restore_transaction = some n }) s.withdrawals))
      ≡ wealth user s
unfolding ledger_balance
post_refund-money user key w row s n e held_back same =
    let total =
      held_total-insert user key (record row { restore_transaction = some n }) row s.withdrawals
        e in
    grind (int_laws, total)

pub post_refund-Sound :
    (user key : ℕ) (w : CryptoWithdrawal) (s : Store)
    → IsCopy s key w
    → Sound user s (post_refund key w s).1
unfolding post_refund
post_refund-Sound user key w s c = elim (Option-cases (lookup w.user s.accounts)) [
  | inl nobody ↦ rw (nobody, post_refund) (Sound-refl user s)
  | inr (a, known) ↦ elim (Option-cases (lookup key s.withdrawals)) [
    | inl absent ↦ rw (known, absent, post_refund) (Sound-refl user s)
    | inr (row, e) ↦ elim (Option-cases row.restore_transaction) [
      | inr (t, done) ↦ rw (known, e, done, post_refund) (Sound-refl user s)
      | inl open_row ↦
          let n = length s.ledger in
          let new : CryptoWithdrawal = record row { restore_transaction = some n } in
          rw (known, e, open_row, post_refund)
            (record {
              money = post_refund-money user key w row s n e open_row (c row e);
              fresh = λ f k le. IsFresh-insert key k new row s e (f k le);
              unique = λ u. insert-UniqueKeys key new s.withdrawals u;
              copies =
                  λ k v d found there. IsCopy-insert key k new row v found s e (refl, refl) d there;
            })
    ]
  ]
]

restore-Sound :
    (user key : ℕ) (w : CryptoWithdrawal) (s : Store)
    → IsCopy s key w
    → Sound user s (restore key w s).1
unfolding restore
restore-Sound user key w s c = elim (Bool-cases (is_some w.restore_transaction)) [
  | inl done ↦ rw done (Sound-refl user s)
  | inr fresh ↦ rw fresh (post_refund-Sound user key w s c)
]

completed_row-Keeps :
    (status : RemoteStatus) (h : Option String) (now : ℕ) → Keeps (completed_row status h now)
completed_row-Keeps status h now row = ground arith

then_fail-Sound :
    (user key : ℕ) (status : RemoteStatus) (s : Store) (r : Result Bool × Store)
    → Sound user s r.1
    → Sound user s (then_fail key status r).1
then_fail-Sound user key status s (ok b, t) h =
    Sound-trans user s t (with_withdrawal key (failed_row status) t) h
      (with_withdrawal-Sound user key (failed_row status) t (λ row. (refl, refl, refl)))
then_fail-Sound user key status s (err e, t) h = h

apply_phase-Sound :
    (user : ℕ) (phase : Phase) (key : ℕ) (w : CryptoWithdrawal) (status : RemoteStatus)
    (h : Option String) (now : ℕ) (s : Store)
    → IsCopy s key w
    → Sound user s (apply_phase phase key w status h now s).1
apply_phase-Sound user paid key w status h now s c =
    with_withdrawal-Sound user key (completed_row status h now) s (completed_row-Keeps status h now)
apply_phase-Sound user failure key w status h now s c = elim (Bool-cases (is_broadcast h)) [
  | inl sent ↦
      rw sent (with_withdrawal-Sound user key (held_row status h) s (λ row. (refl, refl, refl)))
  | inr unsent ↦
      rw unsent (then_fail-Sound user key status s (restore key w s) (restore-Sound user key w s c))
]
apply_phase-Sound user in_flight key w status h now s c =
    with_withdrawal-Sound user key (seen_row status h) s (λ row. (refl, refl, refl))

-- Applying what the provider says keeps the money, however old the loaded copy is.
pub apply_loaded-Sound :
    (user key : ℕ) (w : CryptoWithdrawal) (r : Remote) (now : ℕ) (s : Store)
    → IsCopy s key w
    → Sound user s (apply_loaded key w r now s).1
unfolding apply_loaded
apply_loaded-Sound user key w r now s c = elim (Bool-cases (is_terminal w.remote_status)) [
  | inl over ↦ rw over (Sound-refl user s)
  | inr live ↦ rw live (
      apply_phase-Sound user (phase_of r.status) key w r.status (or_hash r.tx_hash w.tx_hash) now s
        c)
]

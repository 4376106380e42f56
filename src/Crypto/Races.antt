-- ===== src/Crypto/Races.antt =====
-- When a balance moves, and what a second decision does
-- (src/payment/crypto-withdrawal.service.ts).
use oro_backend.Base.{
  ℕ, ◌≡◌, refl, ap, ◌∙◌, ◌⊎◌, inl, inr, Bool, true, false, ◌==◌, none, some, arith, ==_iff, ==_refl,
  List, Bool-cases, Option-cases, is_some, if◌then◌else◌,
}
use oro_backend.Base.Int.{pos, ◌+ℤ◌, int_laws}
use oro_backend.Base.Rows.{lookup, insert, lookup-insert_self}
use oro_backend.Ledger.Balance.{ledger_balance}
use oro_backend.Stake.{Account, usdt}
use oro_backend.Usdt.{trim}
use oro_backend.Crypto.Tables.{
  CryptoWithdrawal, Destination, Store, RemoteStatus, Remote, refused, Client, Result, ok, err,
  is_pending, is_approved, is_definite_refusal,
}
use oro_backend.Crypto.Request.{is_blank}
use oro_backend.Crypto.Apply.{
  Phase, paid, failure, in_flight, phase_of, is_terminal, is_broadcast, or_hash, post_refund,
  restore, with_withdrawal, completed_row, held_row, seen_row, failed_row, then_fail, apply_phase,
  apply_loaded, apply_remote_state,
}
use oro_backend.Crypto.Decide.{
  ask_payout, requeued_row, take_answer, submit, reject_loaded, reject, rejected_row,
}
use oro_backend.Crypto.Deliver.{resubmit_one}
use oro_backend.Crypto.News.{refunded, post_refund_cases}

-- The one way in which news moves a balance: a failure of a payout that never had a hash gives the
-- amount back to the user of a withdrawal that was not refunded.
pub record Refunds (w : CryptoWithdrawal) (r : Remote) (user : ℕ) (s s' : Store) : Type 0 where
  pub failed : phase_of r.status ≡ failure
  pub not_broadcast : is_broadcast (or_hash r.tx_hash w.tx_hash) ≡ false
  pub first : w.restore_transaction ≡ none
  pub payee : w.user ≡ user
  pub paid_back :
      ledger_balance s'.ledger user usdt ≡ ledger_balance s.ledger user usdt +ℤ pos w.amount_usdt

with_withdrawal-ledger :
    (key : ℕ) (change : CryptoWithdrawal → CryptoWithdrawal) (s : Store)
    → (with_withdrawal key change s).ledger ≡ s.ledger
with_withdrawal-ledger key change s = ground arith

-- The balance of a user after a refund.
refunded_balance :
    (key : ℕ) (w row : CryptoWithdrawal) (user : ℕ) (s : Store)
    → ledger_balance (refunded key w row s).ledger user usdt ≡ (
        if w.user == user
        then ledger_balance s.ledger user usdt +ℤ pos w.amount_usdt
        else ledger_balance s.ledger user usdt)
unfolding ledger_balance
refunded_balance key w row user s = grind int_laws

-- Either a balance stays, or the news are a refund of its user.
abbrev pub Moves : CryptoWithdrawal → Remote → ℕ → Store → Store → Type 0
Moves w r user s s' =
    (ledger_balance s'.ledger user usdt ≡ ledger_balance s.ledger user usdt) ⊎ Refunds w r user s s'

same-Moves :
    (w : CryptoWithdrawal) (r : Remote) (user : ℕ) (s s' : Store)
    → s'.ledger ≡ s.ledger
    → Moves w r user s s'
same-Moves w r user s s' e = inl (rw e refl)

then_fail-ledger :
    (key : ℕ) (status : RemoteStatus) (r : Result Bool × Store)
    → (then_fail key status r).1.ledger ≡ r.1.ledger
then_fail-ledger key status (ok b, t) = with_withdrawal-ledger key (failed_row status) t
then_fail-ledger key status (err e, t) = refl

failure-Moves :
    (key : ℕ) (w : CryptoWithdrawal) (r : Remote) (user : ℕ) (s : Store)
    → lookup key s.withdrawals ≡ some w
    → phase_of r.status ≡ failure
    → is_broadcast (or_hash r.tx_hash w.tx_hash) ≡ false
    → Moves w r user s (then_fail key r.status (restore key w s)).1
unfolding restore
failure-Moves key w r user s e down never =
    let result = then_fail key r.status (restore key w s) in
    let ledger = then_fail-ledger key r.status (restore key w s) in
    elim (Option-cases w.restore_transaction) [
      | inr (t, done) ↦ inl (ground (arith, ledger, done))
      | inl held_back ↦ elim (post_refund_cases key w w s e) [
        | inl nothing ↦ inl (ground (arith, ledger, held_back, nothing))
        | inr posted ↦
            let balance = refunded_balance key w w user s in
            let moved : result.1.ledger ≡ (refunded key w w s).ledger =
              ground (arith, ledger, held_back, posted) in
            elim (Bool-cases (w.user == user)) [
              | inr other ↦
                  inl (ap (λ l. ledger_balance l user usdt) moved ∙ ground (arith, balance, other))
              | inl own ↦ inr (record {
                failed = down;
                not_broadcast = never;
                first = held_back;
                payee = (==_iff w.user user).0 own;
                paid_back =
                    ap (λ l. ledger_balance l user usdt) moved ∙ ground (arith, balance, own);
              })
            ]
      ]
    ]

phase-Moves :
    (phase : Phase) (key : ℕ) (w : CryptoWithdrawal) (r : Remote) (user now : ℕ) (s : Store)
    → lookup key s.withdrawals ≡ some w
    → phase_of r.status ≡ phase
    → Moves w r user s (apply_phase phase key w r.status (or_hash r.tx_hash w.tx_hash) now s).1
phase-Moves paid key w r user now s e p =
    same-Moves w r user s _
      (with_withdrawal-ledger key (completed_row r.status (or_hash r.tx_hash w.tx_hash) now) s)
phase-Moves failure key w r user now s e p =
    elim (Bool-cases (is_broadcast (or_hash r.tx_hash w.tx_hash))) [
      | inl out ↦ rw out (
          same-Moves w r user s _
            (with_withdrawal-ledger key (held_row r.status (or_hash r.tx_hash w.tx_hash)) s))
      | inr never ↦ rw never (failure-Moves key w r user s e p never)
    ]
phase-Moves in_flight key w r user now s e p =
    same-Moves w r user s _
      (with_withdrawal-ledger key (seen_row r.status (or_hash r.tx_hash w.tx_hash)) s)

-- News of a stored withdrawal leaves a user's USDT balance as it is, or is a failure of a payout
-- that never had a hash and gives that user the amount of a withdrawal that was not refunded
-- before.
pub apply_remote_state-Moves :
    (key : ℕ) (w : CryptoWithdrawal) (r : Remote) (user now : ℕ) (s : Store)
    → lookup key s.withdrawals ≡ some w
    → Moves w r user s (apply_remote_state key r now s).1
unfolding apply_remote_state apply_loaded
apply_remote_state-Moves key w r user now s e = elim (Bool-cases (is_terminal w.remote_status)) [
  | inl over ↦ rw (e, apply_remote_state) (rw over (inl refl))
  | inr live ↦
      rw (e, apply_remote_state)
        (rw live (phase-Moves (phase_of r.status) key w r user now s e refl))
]

reject_refunds :
    (admin key : ℕ) (reason : List ℕ) (w : CryptoWithdrawal) (a : Account) (s : Store)
    → lookup key s.withdrawals ≡ some w
    → is_pending w.approval_status ≡ true
    → w.restore_transaction ≡ none
    → lookup w.user s.accounts ≡ some a
    → is_blank (trim reason) ≡ false
    → reject admin key reason s ≡ (
      ok tt,
      refunded key w
          (rejected_row admin w)
          (record s { withdrawals = insert key (rejected_row admin w) s.withdrawals }),
    )
unfolding reject reject_loaded post_refund
reject_refunds admin key reason w a s e waiting held_back known given =
    let claimed : Store = record s {
      withdrawals = insert key (rejected_row admin w) s.withdrawals;
    } in
    let posted : post_refund key w claimed
        ≡ (ok true, refunded key w (rejected_row admin w) claimed) =
      rw (known, lookup-insert_self key (rejected_row admin w) s.withdrawals, post_refund)
        (rw held_back refl) in
    let unpaid : is_some w.restore_transaction ≡ false = rw held_back refl in
    rw (given, e, reject) (rw (waiting, unpaid) (rw (e, waiting) (rw posted refl)))

requeued :
    (client : Client) (now key status : ℕ) (w : CryptoWithdrawal) (d : Destination) (s : Store)
    → lookup key s.withdrawals ≡ some w
    → lookup w.destination s.destinations ≡ some d
    → is_approved w.approval_status ≡ true
    → w.pay21_withdrawal ≡ none
    → ask_payout client w d ≡ refused status
    → is_definite_refusal status ≡ true
    → resubmit_one client now (key, w) s
      ≡ record s { withdrawals = insert key (requeued_row w) s.withdrawals }
unfolding submit take_answer
requeued client now key status w d s e there sent alone no_answer definite =
    rw (there, resubmit_one) (rw no_answer (rw definite (rw (e, with_withdrawal) refl)))

-- When an approved withdrawal without a payout is sent again, is answered with a status of
-- definite refusal and is then rejected with a reason, the rejection succeeds and gives the amount
-- back.
pub resubmit_one_refunds :
    (client : Client) (now key status admin : ℕ) (reason : List ℕ) (w : CryptoWithdrawal)
    (d : Destination) (a : Account) (s : Store)
    → lookup key s.withdrawals ≡ some w
    → lookup w.user s.accounts ≡ some a
    → lookup w.destination s.destinations ≡ some d
    → is_approved w.approval_status ≡ true
    → w.pay21_withdrawal ≡ none
    → w.restore_transaction ≡ none
    → ask_payout client w d ≡ refused status
    → is_definite_refusal status ≡ true
    → is_blank (trim reason) ≡ false
    → let r = reject admin key reason (resubmit_one client now (key, w) s) in
      (r.0 ≡ ok tt)
      × (ledger_balance r.1.ledger w.user usdt
          ≡ ledger_balance s.ledger w.user usdt +ℤ pos w.amount_usdt)
resubmit_one_refunds client now key status admin reason w d a s e known there sent alone held_back
      no_answer definite given =
    let w' = requeued_row w in
    let s' : Store = record s { withdrawals = insert key w' s.withdrawals } in
    let waiting : is_pending w'.approval_status ≡ true = ground (arith, sent, alone) in
    let back : w'.restore_transaction ≡ none = ground (arith, sent, alone, held_back) in
    let payee : w'.user ≡ w.user = ground (arith, sent, alone) in
    let amount : w'.amount_usdt ≡ w.amount_usdt = ground (arith, sent, alone) in
    let account : lookup w'.user s'.accounts ≡ some a =
      ap (λ (k : ℕ). lookup k s.accounts) payee ∙ known in
    let claimed : Store = record s' {
      withdrawals = insert key (rejected_row admin w') s'.withdrawals;
    } in
    let balance = refunded_balance key w' (rejected_row admin w') w.user claimed in
    rw
      (
        requeued client now key status w d s e there sent alone no_answer definite,
        reject_refunds admin key reason w' a s' (lookup-insert_self key w' s.withdrawals) waiting
            back account given,
      )
      (refl, ground (arith, balance, payee, amount, ==_refl w.user))

-- ===== src/Crypto/Exclusive.antt =====
-- A withdrawal is paid or refunded, never both (src/payment/crypto-withdrawal.service.ts).
use oro_backend.Base.{
  ℕ, ◌≡◌, refl, ◌⊎◌, inl, inr, true, ◌==◌, Option, some, List, [], arith, Bool-cases, Option-cases,
  is_none,
}
use oro_backend.Base.Rows.{lookup, UniqueKeys, insert-UniqueKeys}
use oro_backend.Usdt.{trim}
use oro_backend.Crypto.Tables.{
  CryptoWithdrawal, IdempotencyKey, Destination, Store, Remote, Client, Config, Error, Result, ok,
  err, is_approved,
}
use oro_backend.Crypto.Request.{is_blank, debit, new_withdrawal, request}
use oro_backend.Crypto.Apply.{apply_remote_state}
use oro_backend.Crypto.Decide.{require_pending, approve_loaded, approve, reject_loaded, reject}
use oro_backend.Crypto.Deliver.{resubmit_one, handle_webhook}
use oro_backend.Ledger.Balance.{ledger_balance}
use oro_backend.Stake.{usdt}
use oro_backend.Base.Int.{pos, ltb_ℤ}
use oro_backend.Crypto.Asking.{request_cases}
use oro_backend.Crypto.Columns.{AllOk, insert-AllOk, AllOk-AllOkBut}
use oro_backend.Crypto.News.{apply_remote_state-AllOk}
use oro_backend.Crypto.Money.{Sound}
use oro_backend.Crypto.Deciding.{
  IsCopy-stored, apply_remote_state-Sound, approve_loaded-Sound, reject_loaded-Sound,
}
use oro_backend.Crypto.Deliveries.{resubmit_one-Sound, handle_webhook-Sound}
use oro_backend.Crypto.Decisions.{submit-AllOk, approve_loaded-AllOk, reject_loaded-AllOk}
use oro_backend.Crypto.Webhooks.{HasPayout, handle_webhook-AllOk}

-- The tables of withdrawals in order.
abbrev IsOrdered : Store → Type 0
IsOrdered s = AllOk s × UniqueKeys s.withdrawals

Sound-IsOrdered : (s s' : Store) → Sound 0 s s' → IsOrdered s → AllOk s' → IsOrdered s'
Sound-IsOrdered s s' h o fine = (fine, h.unique o.1)

debit-IsOrdered :
    (payer key : ℕ) (d : Destination) (amount : ℕ) (id : IdempotencyKey) (s : Store)
    → IsOrdered s
    → IsOrdered (debit payer key d amount id s).1
unfolding debit
debit-IsOrdered payer key d amount id s o =
    let new = new_withdrawal payer key d amount id s.ledger in
    elim (Bool-cases (ltb_ℤ (ledger_balance s.ledger payer usdt) (pos amount))) [
      | inl short ↦ rw (short, debit) o
      | inr enough ↦
          rw (enough, debit)
            (
              insert-AllOk s.next_withdrawal new s
                  (AllOk-AllOkBut (λ k. k == s.next_withdrawal) s o.0) refl,
              insert-UniqueKeys s.next_withdrawal new s.withdrawals o.1,
            )
    ]

request-IsOrdered :
    (cfg : Config) (client : Client) (payer key : ℕ) (amount id : List ℕ) (now : ℕ) (s : Store)
    → IsOrdered s
    → IsOrdered (request cfg client payer key amount id now s).1
request-IsOrdered cfg client payer key amount id now s o =
    let asked : IdempotencyKey = record { user = payer; client_request = trim id } in
    elim (request_cases cfg client payer key amount id now s) [
      | inl same ↦ rw same o
      | inr (d, n, debited) ↦ rw debited (debit-IsOrdered payer key d n asked s o)
    ]

-- What `requirePending` gives is the stored row.
require_pending_stored :
    (key : ℕ) (w : CryptoWithdrawal) (s : Store)
    → require_pending key s ≡ ok w
    → lookup key s.withdrawals ≡ some w
require_pending_stored key w s e = elim (Option-cases (lookup key s.withdrawals)) [
  | inl absent ↦ absurd (ground (arith, absent, e))
  | inr (row, there) ↦ ground (arith, there, e)
]

Result-cases : {A : Type 0} (r : Result A) → ((e : Error) × (r ≡ err e)) ⊎ ((a : A) × (r ≡ ok a))
Result-cases (err e) = inl (e, refl)
Result-cases (ok a) = inr (a, refl)

approve-IsOrdered :
    (cfg : Config) (client : Client) (admin key now : ℕ) (s : Store)
    → IsOrdered s
    → IsOrdered (approve cfg client admin key now s).1
unfolding approve
approve-IsOrdered cfg client admin key now s o = elim (Bool-cases client.enabled) [
  | inr off ↦ rw (off, approve) o
  | inl on ↦ elim (Result-cases (require_pending key s)) [
    | inl (e, refusal) ↦ rw (on, refusal, approve) o
    | inr (w, waiting) ↦
        rw (on, waiting, approve)
          (Sound-IsOrdered s (approve_loaded cfg client admin key w now s).1
            (approve_loaded-Sound 0 cfg client admin key w now s) o
            (approve_loaded-AllOk cfg client admin key w now s o.0))
  ]
]

reject-IsOrdered :
    (admin key : ℕ) (reason : List ℕ) (s : Store)
    → IsOrdered s
    → IsOrdered (reject admin key reason s).1
unfolding reject
reject-IsOrdered admin key reason s o = elim (Bool-cases (is_blank (trim reason))) [
  | inl blank ↦ rw (blank, reject) o
  | inr given ↦ elim (Result-cases (require_pending key s)) [
    | inl (e, refusal) ↦ rw (given, refusal, reject) o
    | inr (w, waiting) ↦
        rw (given, waiting, reject)
          (Sound-IsOrdered s (reject_loaded admin key w s).1
            (reject_loaded-Sound 0 admin key w s
              (IsCopy-stored key w s (require_pending_stored key w s waiting)))
            o (reject_loaded-AllOk admin key w s o.0))
  ]
]

resubmit_one-AllOk :
    (client : Client) (now : ℕ) (r : ℕ × CryptoWithdrawal) (s : Store)
    → lookup r.0 s.withdrawals ≡ some r.1
    → is_approved r.1.approval_status ≡ true
    → AllOk s
    → AllOk (resubmit_one client now r s)
resubmit_one-AllOk client now r s e yes_approved h =
    elim (Option-cases (lookup r.1.destination s.destinations)) [
      | inl absent ↦ rw (absent, resubmit_one) h
      | inr (d, there) ↦
          rw (there, resubmit_one)
            (submit-AllOk client r.0 r.1 d now s (λ row at. ground (arith, e, at, yes_approved)) h)
    ]

-- One operation that loads its row as it is stored; a re-submission is of a row that is approved
-- by then, and a poll of one that has a payout.
pub data Turn : Store → Store → Type 0 where
  ask :
      (cfg : Config) (client : Client) (payer key : ℕ) (amount id : List ℕ) (now : ℕ) (s : Store)
      → Turn s (request cfg client payer key amount id now s).1
  approval :
      (cfg : Config) (client : Client) (admin key now : ℕ) (s : Store)
      → Turn s (approve cfg client admin key now s).1
  rejection : (admin key : ℕ) (reason : List ℕ) (s : Store) → Turn s (reject admin key reason s).1
  resubmission :
      (client : Client) (now : ℕ) (r : ℕ × CryptoWithdrawal) (s : Store)
      → lookup r.0 s.withdrawals ≡ some r.1
      → is_approved r.1.approval_status ≡ true
      → Turn s (resubmit_one client now r s)
  news :
      (key : ℕ) (r : Remote) (now : ℕ) (s : Store)
      → HasPayout key s
      → Turn s (apply_remote_state key r now s).1
  webhook :
      (client : Client) (payout : Option ℕ) (id : Option IdempotencyKey) (now : ℕ) (s : Store)
      → Turn s (handle_webhook client payout id now s).1

pub data Turns (s : Store) : Store → Type 0 where
  start : Turns s s
  then : {t u : Store} → Turns s t → Turn t u → Turns s u

Turn-IsOrdered : {s s' : Store} → Turn s s' → IsOrdered s → IsOrdered s'
Turn-IsOrdered (Turn.ask cfg client payer key amount id now s) o =
    request-IsOrdered cfg client payer key amount id now s o
Turn-IsOrdered (Turn.approval cfg client admin key now s) o =
    approve-IsOrdered cfg client admin key now s o
Turn-IsOrdered (Turn.rejection admin key reason s) o = reject-IsOrdered admin key reason s o
Turn-IsOrdered (Turn.resubmission client now r s e yes_approved) o =
    Sound-IsOrdered s (resubmit_one client now r s) (resubmit_one-Sound 0 client now r s) o
      (resubmit_one-AllOk client now r s e yes_approved o.0)
Turn-IsOrdered (Turn.news key r now s has) o =
    Sound-IsOrdered s (apply_remote_state key r now s).1 (apply_remote_state-Sound 0 key r now s) o
      (apply_remote_state-AllOk key r now s has o.0)
Turn-IsOrdered (Turn.webhook client payout id now s) o =
    Sound-IsOrdered s (handle_webhook client payout id now s).1
      (handle_webhook-Sound 0 client payout id now s) o
      (handle_webhook-AllOk client payout id now s o.1 o.0)

Turns-IsOrdered : {s s' : Store} → Turns s s' → IsOrdered s → IsOrdered s'
Turns-IsOrdered Turns.start o = o
Turns-IsOrdered (Turns.then turns turn) o = Turn-IsOrdered turn (Turns-IsOrdered turns o)

no_withdrawals-IsOrdered : (s : Store) → s.withdrawals ≡ [] → IsOrdered s
no_withdrawals-IsOrdered s none_yet = rw none_yet ((λ k row e. absurd (ground (arith, e))), tt)

-- From a table without withdrawals, after any sequence of requests, approvals, rejections,
-- webhooks, news of rows that have a payout and re-submissions of rows approved by then, each
-- loading its row as stored, no withdrawal is both completed and refunded.
pub Turns-exclusive :
    (key : ℕ) (w : CryptoWithdrawal) {s s' : Store}
    → s.withdrawals ≡ []
    → Turns s s'
    → lookup key s'.withdrawals ≡ some w
    → (is_none w.completed_at ≡ true) ⊎ (is_none w.restore_transaction ≡ true)
Turns-exclusive key w {s} none_yet turns e =
    let fine = (Turns-IsOrdered turns (no_withdrawals-IsOrdered s none_yet)).0 key w e in
    ground (arith, fine)

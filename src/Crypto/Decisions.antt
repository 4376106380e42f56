-- ===== src/Crypto/Decisions.antt =====
-- Decisions and submissions leave the columns of a withdrawal in order
-- (src/payment/crypto-withdrawal.service.ts).
use oro_backend.Base.{
  ℕ, ◌≡◌, refl, ap, ◌∙◌, sym, inl, inr, Bool, true, false, ◌==◌, Option, some, arith, Bool-cases,
  Option-cases, length, is_some,
}
use oro_backend.Base.Rows.{lookup, insert, lookup-insert, lookup-insert_self}
use oro_backend.Crypto.Tables.{
  CryptoWithdrawal, Destination, Store, Answer, accepted, refused, unreachable, Client, Config,
  PayoutKind, Result, ok, err, is_pending, is_approved, is_definite_refusal,
}
use oro_backend.Crypto.Addresses.{refuses_payout}
use oro_backend.Crypto.Apply.{with_withdrawal, post_refund}
use oro_backend.Crypto.Decide.{
  ask_payout, requeued_row, reviewed_row, adopted_row, take_answer, submit, approved_row,
  rejected_row, claim, approve_loaded, or_roll_back, reject_loaded,
}
use oro_backend.Crypto.Columns.{is_ok, AllOk, insert-AllOk, with_withdrawal-AllOk, AllOk-AllOkBut}
use oro_backend.Crypto.News.{refunded, refunded_row, apply_remote_state-AllOk}

-- A change that keeps every row in order that it meets under a key.
pub changed-AllOk :
    (key : ℕ) (change : CryptoWithdrawal → CryptoWithdrawal) (s : Store)
    → ((row : CryptoWithdrawal)
        → lookup key s.withdrawals ≡ some row
        → is_ok row ≡ true
        → is_ok (change row) ≡ true)
    → AllOk s
    → AllOk (with_withdrawal key change s)
changed-AllOk key change s keep h =
    with_withdrawal-AllOk key change s (AllOk-AllOkBut (λ k. k == key) s h)
      (λ row e. keep row e (h key row e))

requeued_row_ok : (row : CryptoWithdrawal) → is_ok row ≡ true → is_ok (requeued_row row) ≡ true
requeued_row_ok row fine = ground arith

pub adopted_row_ok :
    (payout : ℕ) (row : CryptoWithdrawal)
    → is_approved row.approval_status ≡ true
    → is_ok row ≡ true
    → is_ok (adopted_row payout row) ≡ true
adopted_row_ok payout row yes_approved fine = ground arith

approved_row_ok :
    (admin : ℕ) (kind : PayoutKind) (now : ℕ) (row : CryptoWithdrawal)
    → is_pending row.approval_status ≡ true
    → is_ok row ≡ true
    → is_ok (approved_row admin kind now row) ≡ true
approved_row_ok admin kind now row waiting fine = ground arith

-- A pending row that is refunded with its rejection.
rejected_row_ok :
    (admin : ℕ) (row : CryptoWithdrawal) (restored : Option ℕ)
    → is_pending row.approval_status ≡ true
    → is_ok row ≡ true
    → is_ok (record (rejected_row admin row) { restore_transaction = restored }) ≡ true
rejected_row_ok admin row restored waiting fine = ground arith

-- Only an approved row is sent.
abbrev pub IsApproved : ℕ → Store → Type 0
IsApproved key s =
    (row : CryptoWithdrawal)
    → lookup key s.withdrawals ≡ some row
    → is_approved row.approval_status ≡ true

-- What stands under a key after a change of it.
pub changed_row :
    (key : ℕ) (change : CryptoWithdrawal → CryptoWithdrawal) (s : Store) (row : CryptoWithdrawal)
    → lookup key (with_withdrawal key change s).withdrawals ≡ some row
    → (old : CryptoWithdrawal) × (lookup key s.withdrawals ≡ some old) × (row ≡ change old)
changed_row key change s row there = elim (Option-cases (lookup key s.withdrawals)) [
  | inl absent ↦ absurd (ground (arith, absent, there))
  | inr (old, e) ↦
      (old, e, ground (arith, e, there, lookup-insert_self key (change old) s.withdrawals))
]

take_answer-AllOk :
    (key : ℕ) (a : Answer) (now : ℕ) (s : Store)
    → IsApproved key s
    → AllOk s
    → AllOk (take_answer key a now s).1
unfolding take_answer
take_answer-AllOk key (accepted r) now s yes_approved h =
    let adopted = with_withdrawal key (adopted_row r.id) s in
    apply_remote_state-AllOk key r now adopted
      (λ row e.
        let (old, _, change) = changed_row key (adopted_row r.id) s row e in ground (arith, change))
      (changed-AllOk key (adopted_row r.id) s
        (λ row e fine. adopted_row_ok r.id row (yes_approved row e) fine) h)
take_answer-AllOk key (refused status) now s yes_approved h =
    elim (Bool-cases (is_definite_refusal status)) [
      | inl definite ↦
          rw (definite, take_answer)
            (changed-AllOk key requeued_row s (λ row e fine. requeued_row_ok row fine) h)
      | inr vague ↦ elim (Bool-cases (status == 409)) [
        | inl conflict ↦
            rw (vague, conflict, take_answer)
              (changed-AllOk key reviewed_row s (λ row e fine. fine) h)
        | inr other ↦ rw (vague, other, take_answer) h
      ]
    ]
take_answer-AllOk key unreachable now s yes_approved h = h

-- A claim that succeeds met a pending row.
pub claim_won :
    (key : ℕ) (change : CryptoWithdrawal → CryptoWithdrawal) (s s' : Store)
    → claim key change s ≡ some s'
    → (row : CryptoWithdrawal) × (lookup key s.withdrawals ≡ some row)
      × (is_pending row.approval_status ≡ true)
      × (s' ≡ record s { withdrawals = insert key (change row) s.withdrawals })
claim_won key change s s' won = elim (Option-cases (lookup key s.withdrawals)) [
  | inl absent ↦ absurd (ground (arith, absent, won))
  | inr (row, e) ↦ elim (Bool-cases (is_pending row.approval_status)) [
    | inr over ↦ absurd (ground (arith, e, over, won))
    | inl waiting ↦ (row, e, waiting, ground (arith, e, waiting, won))
  ]
]

pub submit-AllOk :
    (client : Client) (key : ℕ) (w : CryptoWithdrawal) (d : Destination) (now : ℕ) (s : Store)
    → IsApproved key s
    → AllOk s
    → AllOk (submit client key w d now s).1
unfolding submit
submit-AllOk client key w d now s yes_approved h =
    take_answer-AllOk key (ask_payout client w d) now s yes_approved h

sent-AllOk :
    (cfg : Config) (client : Client) (admin key : ℕ) (w : CryptoWithdrawal) (d : Destination)
    (now : ℕ) (s s' : Store)
    → claim key (approved_row admin cfg.payout_kind now) s ≡ some s'
    → AllOk s
    → AllOk (submit client key w d now s').1
sent-AllOk cfg client admin key w d now s s' won h =
    let change = approved_row admin cfg.payout_kind now in
    let (row, e, waiting, written) = claim_won key change s s' won in
    let there = lookup-insert_self key (change row) s.withdrawals in
    submit-AllOk client key w d now s' (λ found at. ground (arith, written, at, there))
      (rw written (
        insert-AllOk key (change row) s (AllOk-AllOkBut (λ k. k == key) s h)
          (approved_row_ok admin cfg.payout_kind now row waiting (h key row e))))

pub approve_loaded-AllOk :
    (cfg : Config) (client : Client) (admin key : ℕ) (w : CryptoWithdrawal) (now : ℕ) (s : Store)
    → AllOk s
    → AllOk (approve_loaded cfg client admin key w now s).1
unfolding approve_loaded
approve_loaded-AllOk cfg client admin key w now s h = elim (Bool-cases (w.user == admin)) [
  | inl own ↦ rw (own, approve_loaded) h
  | inr other ↦ elim (Option-cases (lookup w.destination s.destinations)) [
    | inl absent ↦ rw (other, absent, approve_loaded) h
    | inr (d, e) ↦ elim (Option-cases (refuses_payout cfg now cfg.payout_kind d)) [
      | inr (reason, refusal) ↦ rw (other, e, refusal, approve_loaded) h
      | inl sendable ↦
          let change = approved_row admin cfg.payout_kind now in
          elim (Option-cases (claim key change s)) [
            | inl lost ↦ rw (other, e, sendable, lost, approve_loaded) h
            | inr (s', won) ↦
                rw (other, e, sendable, won, approve_loaded)
                  (sent-AllOk cfg client admin key (change w) d now s s' won h)
          ]
    ]
  ]
]

rolled_back-AllOk :
    (s : Store) (r : Result Bool × Store)
    → ((t : Store) → r ≡ (ok true, t) → AllOk t)
    → AllOk s
    → AllOk (or_roll_back s r).1
rolled_back-AllOk s (err e, t) fine h = h
rolled_back-AllOk s (ok true, t) fine h = fine t refl
rolled_back-AllOk s (ok false, t) fine h = h

-- What a refund that was posted wrote.
posted_refund :
    (key : ℕ) (w : CryptoWithdrawal) (s t : Store)
    → post_refund key w s ≡ (ok true, t)
    → (row : CryptoWithdrawal) × (lookup key s.withdrawals ≡ some row) × (t ≡ refunded key w row s)
unfolding post_refund
posted_refund key w s t posted = elim (Option-cases (lookup key s.withdrawals)) [
  | inl absent ↦ absurd (ground (arith, absent, posted))
  | inr (row, e) ↦ (row, e, ground (arith, e, posted))
]

rejected-AllOk :
    (admin key : ℕ) (w : CryptoWithdrawal) (s s' : Store)
    → claim key (rejected_row admin) s ≡ some s'
    → AllOk s
    → AllOk (or_roll_back s (post_refund key w s')).1
rejected-AllOk admin key w s s' won h =
    let (row, e, waiting, written) = claim_won key (rejected_row admin) s s' won in
    rolled_back-AllOk s (post_refund key w s')
      (λ t posted.
        let (stored, at, wrote) = posted_refund key w s' t posted in
        let there = lookup-insert_self key (rejected_row admin row) s.withdrawals in
        let same : rejected_row admin row ≡ stored = ground (arith, written, at, there) in
        rw wrote (
          insert-AllOk key (refunded_row stored s') s'
            (λ k found from other. h k found (
              ground (
                arith,
                from,
                other,
                written,
                lookup-insert k key (rejected_row admin row) s.withdrawals,
              )))
            (ap (λ (v : CryptoWithdrawal). is_ok (refunded_row v s')) (sym same)
              ∙ rejected_row_ok admin row (some (length s'.ledger)) waiting (h key row e))))
      h

-- A rejection whose refund does not come to be is undone.
pub reject_loaded-AllOk :
    (admin key : ℕ) (w : CryptoWithdrawal) (s : Store)
    → AllOk s
    → AllOk (reject_loaded admin key w s).1
unfolding reject_loaded
reject_loaded-AllOk admin key w s h = elim (Bool-cases (is_some w.restore_transaction)) [
  | inl done ↦ rw (done, reject_loaded) h
  | inr open_row ↦ elim (Option-cases (claim key (rejected_row admin) s)) [
    | inl lost ↦ rw (open_row, lost, reject_loaded) h
    | inr (s', won) ↦ rw (open_row, won, reject_loaded) (rejected-AllOk admin key w s s' won h)
  ]
]

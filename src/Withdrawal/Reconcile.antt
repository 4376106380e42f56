-- ===== src/Withdrawal/Reconcile.antt =====
-- `reconcileOne` and the sweep (src/payment/dk-withdrawal.reconciler.ts). Instants and spans are
-- milliseconds.
use oro_backend.Base.{
  ℕ, zero, suc, ◌+◌, ◌*◌, Bool, true, false, ◌&&◌, Option, none, some, List, [], ◌∷◌, ltb, leb,
  keep, get_or, if◌then◌else◌,
}
use oro_backend.Base.Rows.{Rows, lookup, insert}
use oro_backend.Withdrawal.Tables.{
  Payment, Metadata, BankResult, Verdict, Gateway, Answer, answered, raised, Store, Result, ok, err,
  bank_unreachable, is_processing, is_withdrawal, is_dk_bank,
}
use oro_backend.Withdrawal.Status.{classify_dk_status}
use oro_backend.Withdrawal.Finalise.{Outcome, success, failed, Options, finalise}

abbrev pub new_core_settle_grace_ms : ℕ
new_core_settle_grace_ms = 2 * 60 * 1000

abbrev pub legacy_settle_grace_ms : ℕ
legacy_settle_grace_ms = 10 * 60 * 1000

abbrev pub new_core_recheck_ms : ℕ
new_core_recheck_ms = 5 * 60 * 1000

abbrev pub legacy_recheck_ms : ℕ
legacy_recheck_ms = 30 * 60 * 1000

-- `a || b` on handles.
abbrev pub or_else {ℓ} : {A : Type ℓ} → Option A → Option A → Option A
or_else none b = b
or_else (some a) _ = some a

-- The merged metadata goes to the one column of the row as it is now.
unfoldable pub stamp_metadata : Payment → Metadata → Store → Store
stamp_metadata payment merged s = record s {
  payments = elim (lookup payment.id s.payments) [
    | none ↦ s.payments
    | some row ↦ insert payment.id (record row { metadata = merged }) s.payments
  ];
}

-- The handle that a new-core transfer left, with the account that it credits.
unfoldable pub new_core_handle : Payment → Option (ℕ × ℕ)
new_core_handle p = elim (or_else p.metadata.payment_number p.metadata.request_id) [
  | none ↦ none
  | some handle ↦ elim p.metadata.dk_account_number [
    | none ↦ none
    | some account ↦ some (handle, account)
  ]
]

unfoldable pub legacy_txn_id : Payment → Option ℕ
legacy_txn_id p = or_else p.external_payment_id (or_else p.dk_txn_status_id p.metadata.txn_id)

abbrev pub ask_new_core : Gateway → ℕ × ℕ → Answer (Verdict × BankResult)
ask_new_core gw (handle, account) = elim (gw.check_transfer_status handle account) [
  | answered a ↦ answered (
    a.verdict,
    record { status = or_else a.status (some a.response_code); status_desc = a.status_desc },
  )
  | raised e ↦ raised e
]

abbrev pub ask_legacy : Gateway → ℕ → Answer (Verdict × BankResult)
ask_legacy gw txn = elim (gw.check_transaction_status txn) [
  | answered r ↦ answered (classify_dk_status gw.to_upper r.status, r)
  | raised e ↦ raised e
]

abbrev quiet : Options
quiet = record { manual = none; notify = true }

abbrev drop_outcome : Result (Option Outcome) × Store → Result (Unit {0}) × Store
drop_outcome (ok _, s) = (ok tt, s)
drop_outcome (err e, s) = (err e, s)

-- What the bank's answer leads to.
unfoldable pub apply_answer :
    Payment → Answer (Verdict × BankResult) → ℕ → Store → Result (Unit {0}) × Store
unfolding finalise stamp_metadata
apply_answer p (raised e) now s = (
  err (bank_unreachable e),
  stamp_metadata p (record p.metadata { checked_at = now; last_error = some e }) s,
)
apply_answer p (answered (Verdict.pending, result)) now s = (
  ok tt,
  stamp_metadata p (record p.metadata { checked_at = now; last_status = result.status }) s,
)
apply_answer p (answered (Verdict.success, result)) now s =
    drop_outcome (finalise p success result quiet now s)
apply_answer p (answered (Verdict.failed, result)) now s =
    drop_outcome (finalise p failed result quiet now s)

-- Younger than the legacy grace; a row with no creation time is not held back.
abbrev pub is_young : Option ℕ → ℕ → Bool
is_young none now = false
is_young (some created) now = ltb now (created + legacy_settle_grace_ms)

abbrev reconcile_legacy : Gateway → Payment → ℕ → Store → Result (Unit {0}) × Store
reconcile_legacy gw p now s =
    if is_young p.created_at now then (ok tt, s) else elim (legacy_txn_id p) [
      | none ↦
          if ltb now (p.metadata.warned_at + legacy_recheck_ms)
          then (ok tt, s)
          else (ok tt, stamp_metadata p (record p.metadata { warned_at = now }) s)
      | some txn ↦
          if ltb now (p.metadata.checked_at + legacy_recheck_ms)
          then (ok tt, s)
          else apply_answer p (ask_legacy gw txn) now s
    ]

unfoldable pub reconcile_one : Gateway → Payment → ℕ → Store → Result (Unit {0}) × Store
reconcile_one gw p now s = elim (new_core_handle p) [
  | some handle ↦
      if ltb now (p.metadata.checked_at + new_core_recheck_ms)
      then (ok tt, s)
      else apply_answer p (ask_new_core gw handle) now s
  | none ↦ reconcile_legacy gw p now s
]

abbrev pub is_stuck : ℕ → ℕ × Payment → Bool
is_stuck now (_, p) =
    is_withdrawal p.type && is_dk_bank p.method && is_processing p.status && elim p.created_at [
      | none ↦ false
      | some created ↦ ltb (created + new_core_settle_grace_ms) now
    ]

-- `ORDER BY createdAt ASC` and `take`.
unfoldable pub insert_by_age : ℕ × Payment → Rows Payment → Rows Payment
insert_by_age r [] = r ∷ []
insert_by_age r (q ∷ rows) =
    let rest = insert_by_age r rows in
    if leb (get_or r.1.created_at 0) (get_or q.1.created_at 0) then r ∷ q ∷ rows else q ∷ rest

unfoldable pub sort_by_age : Rows Payment → Rows Payment
unfolding insert_by_age
sort_by_age [] = []
sort_by_age (r ∷ rows) = insert_by_age r (sort_by_age rows)

abbrev pub take {ℓ} : {A : Type ℓ} → ℕ → List A → List A
take zero xs = []
take (suc n) [] = []
take (suc n) (x ∷ xs) = x ∷ take n xs

unfoldable pub stuck_payments : ℕ → Store → Rows Payment
unfolding sort_by_age
stuck_payments now s = take 50 (sort_by_age (keep (is_stuck now) s.payments))

-- A payment that raises is logged, and the loop goes on.
unfoldable pub reconcile_all : Gateway → Rows Payment → ℕ → Store → Store
unfolding reconcile_one
reconcile_all gw [] now s = s
reconcile_all gw (r ∷ rows) now s = reconcile_all gw rows now (reconcile_one gw r.1 now s).1

-- The single-flight flag, and the flag's release at the end.
unfoldable pub run_reconcile_stuck_withdrawals : Gateway → ℕ → Store → Store
unfolding stuck_payments reconcile_all
run_reconcile_stuck_withdrawals gw now s =
    if s.running
    then s
    else let started = record s { running = true } in
      record (reconcile_all gw (stuck_payments now started) now started) { running = false }

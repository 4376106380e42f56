-- ===== src/Withdrawal/Finalise.antt =====
-- `finalise` and `resolveManually` (src/payment/dk-withdrawal.reconciler.ts).
use oro_backend.Base.{
  ℕ, Bool, true, false, not, ◌&&◌, Option, none, some, List, [], ◌∷◌, holds_key, if◌then◌else◌,
}
use oro_backend.Base.Int.{pos, ◌+ℤ◌}
use oro_backend.Base.Rows.{lookup, insert}
use oro_backend.Ledger.{Transaction, TransactionType, Note, btn_currency}
use oro_backend.Ledger.Balance.{ledger_balance}
use oro_backend.Withdrawal.Tables.{
  Payment, PaymentStatus, Metadata, ManualEntry, BankResult, Verdict, Store, Result, ok, err,
  not_found, already_closed, closed_by_other, unique_violation, is_processing, is_withdrawal,
  is_dk_bank, same_type, has_row,
}
use oro_backend.Withdrawal.Status.{codes}

-- The terminal verdicts.
pub data Outcome : Type 0 where
  success failed : Outcome

pub record Options : Type 0 where
  pub manual : Option (ℕ × List ℕ)
  pub notify : Bool

abbrev pub verdict_of : Outcome → Verdict
verdict_of success = Verdict.success
verdict_of failed = Verdict.failed

abbrev manual_entry : Outcome → ℕ → Option (ℕ × List ℕ) → Option ManualEntry → Option ManualEntry
manual_entry verdict now none old = old
manual_entry verdict now (some (admin, note)) old =
    some (record { verdict = verdict_of verdict; admin = admin; note = note; at = now })

-- The metadata merge of a closed payment.
abbrev pub closed_metadata : Outcome → BankResult → Options → ℕ → Metadata → Metadata
closed_metadata verdict result opts now m = record m {
  checked_at = now;
  dk_reconcile = some (record { result = result; at = now });
  manual_reconcile = manual_entry verdict now opts.manual m.manual_reconcile;
}

-- The restamp of the debit's note: the amount and the row's identity stay.
unfoldable pub confirm_debit : ℕ → List Transaction → List Transaction
confirm_debit payment [] = []
confirm_debit payment (t ∷ ts) =
    (if holds_key t.payment payment && same_type t.type TransactionType.withdrawal
      then record t { note = Note.withdrawal_confirmed }
      else t)
    ∷ confirm_debit payment ts

unfoldable pub refund_row : ℕ → ℕ → ℕ → List Transaction → Transaction
refund_row payment user amount ledger =
    let balance_now = ledger_balance ledger user btn_currency in
    record {
      user = user;
      type = TransactionType.refund;
      amount = pos amount;
      currency = btn_currency;
      balance_before = balance_now;
      balance_after = balance_now +ℤ pos amount;
      payment = some payment;
      position = none;
      note = Note.withdrawal_refunded;
    }

-- `result.statusDesc || "DK Bank transfer failed (reconciled)"`: an empty text counts as absent.
abbrev failure_text : Option (List ℕ) → List ℕ
failure_text (some (c ∷ s)) = c ∷ s
failure_text _ = codes "DK Bank transfer failed (reconciled)"

-- The body of the transaction on the locked row, with what it finalised.
unfoldable pub close_locked :
    Payment → Payment → Outcome → BankResult → Options → ℕ → Store → Result Outcome × Store
unfolding confirm_debit refund_row
close_locked payment locked success result opts now s = (
  ok success,
  record s {
    ledger = confirm_debit locked.id s.ledger;
    payments =
        insert payment.id
          (record locked {
            metadata = closed_metadata success result opts now locked.metadata;
            status = PaymentStatus.success;
            confirmed_at = some now;
            failure_reason = none;
          })
          s.payments;
  },
)
close_locked payment locked failed result opts now s =
    if has_row s.ledger locked.id TransactionType.refund then (err unique_violation, s) else (
      ok failed,
      record s {
        ledger = refund_row locked.id payment.user payment.amount s.ledger ∷ s.ledger;
        payments =
            insert payment.id
              (record locked {
                metadata = closed_metadata failed result opts now locked.metadata;
                status = PaymentStatus.failed;
                failure_reason = some (failure_text result.status_desc);
                confirmed_at = some now;
              })
              s.payments;
      },
    )

abbrev is_sent : Outcome → Bool
is_sent success = true
is_sent failed = false

abbrev notify_transaction : Payment → Outcome → Bool → Store → Store
notify_transaction payment outcome wanted s =
    if wanted
    then record s {
      notifications =
          record { user = payment.user; amount = payment.amount; sent = is_sent outcome }
          ∷ s.notifications;
    }
    else s

abbrev announce : Payment → Bool → Result Outcome × Store → Result (Option Outcome) × Store
announce payment wanted (ok outcome, s) =
    (ok (some outcome), notify_transaction payment outcome wanted s)
announce payment wanted (err e, s) = (err e, s)

-- `none` is the `null` of a row that was no longer PROCESSING under the lock.
unfoldable pub finalise :
    Payment → Outcome → BankResult → Options → ℕ → Store → Result (Option Outcome) × Store
unfolding close_locked
finalise payment verdict result opts now s = elim (lookup payment.id s.payments) [
  | none ↦ (ok none, s)
  | some locked ↦
      if is_processing locked.status
      then announce payment opts.notify (close_locked payment locked verdict result opts now s)
      else (ok none, s)
]

pub data ManualVerdict : Type 0 where
  sent not_sent : ManualVerdict

abbrev pub outcome_of : ManualVerdict → Outcome
outcome_of sent = success
outcome_of not_sent = failed

abbrev manual_result : ManualVerdict → BankResult
manual_result sent = record { status = some (codes "MANUAL"); status_desc = none }
manual_result not_sent = record {
  status = some (codes "MANUAL");
  status_desc = some (codes "Withdrawal could not be completed — funds returned to your wallet");
}

-- The `null` of a lost race becomes a conflict.
abbrev or_conflict : Result (Option Outcome) × Store → Result Outcome × Store
or_conflict (ok (some outcome), s) = (ok outcome, s)
or_conflict (ok none, s) = (err closed_by_other, s)
or_conflict (err e, s) = (err e, s)

unfoldable pub resolve_manually :
    ℕ → ManualVerdict → ℕ × List ℕ → Bool → ℕ → Store → Result Outcome × Store
unfolding finalise
resolve_manually key verdict admin notify_user now s = elim (lookup key s.payments) [
  | none ↦ (err not_found, s)
  | some payment ↦
      if not (is_withdrawal payment.type && is_dk_bank payment.method)
      then (err not_found, s)
      else if not (is_processing payment.status)
      then (err already_closed, s)
      else or_conflict (
          finalise payment (outcome_of verdict) (manual_result verdict)
            (record { manual = some admin; notify = notify_user }) now s)
]

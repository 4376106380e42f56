-- ===== src/Examples/Withdrawals.antt =====
-- Withdrawals: one reserved payment, and a bank that does not answer for it.
use oro_backend.Base.{◌≡◌, refl, true, false, none, some, [], ◌∷◌}
use oro_backend.Base.Int.{pos, ◌+ℤ◌, ◌-ℤ◌}
use oro_backend.Ledger.{Transaction, TransactionType, Note, btn_currency}
use oro_backend.Ledger.Balance.{ledger_balance}
use oro_backend.Withdrawal.{
  Payment, PaymentType, PaymentStatus, PaymentMethod, BankResult, Gateway, Answer, Store, ok,
  Outcome, Options, finalise, run_reconcile_stuck_withdrawals, codes,
}
use oro_backend.Withdrawal.Closing.{money, finalise_returns, finalise_once}
use oro_backend.Withdrawal.Sweep.{run_reconcile_stuck_withdrawals-money}

abbrev reserved : Payment
reserved = record {
  id = 5;
  user = 1;
  type = PaymentType.withdrawal;
  status = PaymentStatus.processing;
  method = PaymentMethod.dk_bank;
  amount = 300;
  external_payment_id = some 77;
  dk_txn_status_id = none;
  created_at = some 0;
  confirmed_at = none;
  failure_reason = none;
  metadata = record {
    payment_number = none;
    request_id = none;
    txn_id = none;
    dk_account_number = none;
    warned_at = 0;
    checked_at = 0;
    last_status = none;
    last_error = none;
    dk_reconcile = none;
    manual_reconcile = none;
  };
}

abbrev debit_row : Transaction
debit_row = record {
  user = 1;
  type = TransactionType.withdrawal;
  amount = pos 0 -ℤ pos 300;
  currency = btn_currency;
  balance_before = pos 1000;
  balance_after = pos 700;
  payment = some 5;
  position = none;
  note = Note.withdrawal_reserved;
}

abbrev bank_store : Store
bank_store = record {
  payments = (5, reserved) ∷ [];
  ledger = debit_row ∷ [];
  notifications = [];
  running = false;
}

abbrev silent : Gateway
silent = record {
  check_transfer_status = λ handle account. Answer.raised (codes "timeout");
  check_transaction_status = λ txn. Answer.raised (codes "timeout");
  to_upper = λ s. s;
}

abbrev no_text : BankResult
no_text = record { status = none; status_desc = none }

abbrev options : Options
options = record { manual = none; notify = true }

run_reconcile_stuck_withdrawals-money_example :
    money (run_reconcile_stuck_withdrawals silent 9_000_000 bank_store) ≡ money bank_store
run_reconcile_stuck_withdrawals-money_example =
    run_reconcile_stuck_withdrawals-money silent 9_000_000 bank_store (refl, refl, tt)

closed_failed :
    (finalise reserved Outcome.failed no_text options 9 bank_store).0 ≡ ok (some Outcome.failed)
unfolding finalise
closed_failed = refl

finalise_returns_example :
    (Outcome.failed ≡ Outcome.failed)
    × (ledger_balance
          (finalise reserved Outcome.failed no_text options 9 bank_store).1.ledger
          1
          btn_currency
        ≡ ledger_balance bank_store.ledger 1 btn_currency +ℤ pos 300)
finalise_returns_example =
    finalise_returns reserved Outcome.failed no_text options 9 bank_store 1 btn_currency
      closed_failed

finalise_once_example :
    let s' = (finalise reserved Outcome.failed no_text options 9 bank_store).1 in
    finalise reserved Outcome.success no_text options 10 s' ≡ (ok none, s')
finalise_once_example =
    finalise_once reserved reserved Outcome.failed Outcome.success no_text no_text options options 9
      10 bank_store refl closed_failed

abbrev confirmed : Payment
confirmed = record reserved { status = PaymentStatus.success }

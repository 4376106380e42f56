-- ===== src/Examples/Credits.antt =====
-- USDT deposits and the transfers of fees.
use oro_backend.Base.{ℕ, ◌≡◌, refl, none, some, [], ◌∷◌, arith}
use oro_backend.Ledger.{btn_currency}
use oro_backend.Stake.{usdt}
use oro_backend.Deposit.{
  IntentStatus, Intent, Store, SettlementInput, unique_violation, settle, reverse,
}
use oro_backend.Deposit.Credits.{other_money, Step, Steps, Steps-other_money, settle-reverse}
use oro_backend.Revenue.{
  Distribution, DistributionStatus, Gateway, Fate, unknown, process_all_pending,
}
use oro_backend.Revenue as Fees
use oro_backend.Revenue.Paid.{IsAccounted}
use oro_backend.Revenue.History as FeeHistory
use oro_backend.Revenue.History.{Steps-IsAccounted}
use oro_backend.Revenue.Batches.{sent_mixed}

-- A deposit of three USDT that was credited.
abbrev landed : Intent
landed = record {
  user = 2;
  network = "tron";
  status = IntentStatus.confirmed;
  detected_amount_usdt = some 3000000;
  tx_hash = some "h";
  credited_at = some 50;
  expires_at = 1000;
}

abbrev credited_once : Store
credited_once = record {
  intents = (40, landed) ∷ [];
  payments = record { user = 2; amount = 3000000; external_payment = 40; network = "tron" } ∷ [];
  ledger = [];
}

abbrev confirmed_again : SettlementInput
confirmed_again = record {
  pay21_intent = 40;
  status = "confirmed";
  detected_amount_base_units = some 3000000;
  tx_hash = none;
}

settle-reverse_example :
    settle confirmed_again 90 (reverse 40 credited_once).1
    ≡ (unique_violation, (reverse 40 credited_once).1)
settle-reverse_example =
    settle-reverse 40 50 landed confirmed_again IntentStatus.confirmed 90 credited_once refl refl
      refl (omega arith) refl refl refl (omega arith)

Steps-other_money_example : other_money 2 (reverse 40 credited_once).1 ≡ other_money 2 credited_once
Steps-other_money_example =
    Steps-other_money 2 {s = credited_once} {s' = (reverse 40 credited_once).1}
      (Steps.then Steps.start (Step.reversal 40 credited_once))

abbrev fee : ℕ → Distribution
fee amount = record {
  market = some 7;
  settlement = none;
  challenge = none;
  amount = amount;
  house_forfeit = 0;
  total_pool = 1000;
  currency = btn_currency;
  public_account = some 9;
  status = DistributionStatus.pending;
  payment_reference = none;
  paid_at = none;
  pending_transfer_ref = none;
}

abbrev usdt_fee : ℕ → Distribution
usdt_fee amount = record (fee amount) { currency = usdt }

-- A bank that never knows.
abbrev vague_bank : Gateway
vague_bank = record {
  transfer_to_account = λ account amount. Fees.TransferAnswer.ambiguous none;
  check_transfer_status = λ ref account. none;
}

abbrev fees : Fees.Store
fees = record {
  distributions = (1, fee 100) ∷ (2, usdt_fee 7) ∷ [];
  active_account = none;
  calls = [];
  returned = [];
}

sent_mixed_example :
    (process_all_pending vague_bank 60 fees).1.calls
    ≡ record { account = 9; amount = 107; fate = unknown } ∷ []
sent_mixed_example = sent_mixed vague_bank 60 9 (1, fee 100) ((2, usdt_fee 7) ∷ []) fees refl refl

Steps-IsAccounted_example : IsAccounted (process_all_pending vague_bank 60 fees).1
Steps-IsAccounted_example =
    Steps-IsAccounted {s = fees} {s' = (process_all_pending vague_bank 60 fees).1}
      (FeeHistory.Steps.then FeeHistory.Steps.start (FeeHistory.Step.batch vague_bank 60 fees))
      (record { unique = (refl, (refl, tt)); balanced = refl })

-- ===== src/Deposit/Settle.antt =====
-- `settle`, `reverse` and `writeUsdtDepositCredit` (src/payment/crypto-settlement.service.ts,
-- src/payment/usdt-deposit-credit.ts).
use Prim.Native.String.{String}
use oro_backend.Base.{
  ℕ, Bool, not, ◌==◌, Option, none, some, List, ◌∷◌, exists_in, is_some, get_or, if◌then◌else◌,
}
use oro_backend.Base.Int.{pos, ◌+ℤ◌, ◌-ℤ◌}
use oro_backend.Base.Rows.{lookup, insert}
use oro_backend.Ledger.{Transaction, TransactionType, Note}
use oro_backend.Ledger.Balance.{ledger_balance}
use oro_backend.Stake.{usdt}
use oro_backend.Deposit.Tables.{
  IntentStatus, is_crediting, is_topup, parse_status, Intent, DepositPayment, Store,
  SettlementInput, unknown_intent, unknown_status, already_credited, topup_parent,
  no_detected_amount, no_credit, not_credited, no_amount, reversed, Outcome, credited, handled,
  not_handled, unique_violation,
}

abbrev pub has_external : ℕ → DepositPayment → Bool
has_external key p = p.external_payment == key

abbrev pub credit_row : ℕ → ℕ → String → List Transaction → Transaction
credit_row user amount network ledger =
    let balance_before = ledger_balance ledger user usdt in
    record {
      user = user;
      type = TransactionType.deposit;
      amount = pos amount;
      currency = usdt;
      balance_before = balance_before;
      balance_after = balance_before +ℤ pos amount;
      payment = none;
      position = none;
      note = Note.usdt_deposit network;
    }

-- One row of `payments` and one of the ledger; `none` is the unique index's refusal.
unfoldable pub write_usdt_deposit_credit : ℕ → ℕ → ℕ → String → Store → Option Store
write_usdt_deposit_credit user amount external network s =
    if exists_in (has_external external) s.payments
    then none
    else some (record s {
      payments =
          record { user = user; amount = amount; external_payment = external; network = network }
          ∷ s.payments;
      ledger = credit_row user amount network s.ledger ∷ s.ledger;
    })

abbrev pub or_text : Option String → Option String → Option String
or_text (some t) _ = some t
or_text none t = t

-- The metadata of an event that credits nothing.
abbrev pub apply_metadata : ℕ → Intent → SettlementInput → IntentStatus → Store → Store
apply_metadata key intent input status s = record s {
  intents =
      insert key (record intent { status = status; tx_hash = or_text input.tx_hash intent.tx_hash })
        s.intents;
}

-- Never the expected amount.
abbrev pub detected_amount : SettlementInput → Intent → ℕ
detected_amount input intent = elim input.detected_amount_base_units [
  | some n ↦ n
  | none ↦ get_or intent.detected_amount_usdt 0
]

abbrev pub credited_row : ℕ → Intent → SettlementInput → IntentStatus → ℕ → Intent
credited_row amount intent input status now = record intent {
  status = status;
  detected_amount_usdt = some amount;
  tx_hash = or_text input.tx_hash intent.tx_hash;
  credited_at = some now;
}

abbrev pub credit : ℕ → Intent → ℕ → SettlementInput → IntentStatus → ℕ → Store → Outcome × Store
credit key intent amount input status now s =
    elim (write_usdt_deposit_credit intent.user amount key intent.network s) [
      | none ↦ (unique_violation, s)
      | some s1 ↦ (
        credited,
        record s1 { intents = insert key (credited_row amount intent input status now) s1.intents },
      )
    ]

abbrev pub settle_status : ℕ → Intent → SettlementInput → IntentStatus → ℕ → Store → Outcome × Store
settle_status key intent input status now s =
    let noted = apply_metadata key intent input status s in
    if is_some intent.credited_at
    then (handled already_credited, apply_metadata key intent input intent.status s)
    else if is_topup status
    then (handled topup_parent, noted)
    else if not (is_crediting status)
    then (handled (no_credit status), noted)
    else if detected_amount input intent == 0
    then (handled no_detected_amount, noted)
    else credit key intent (detected_amount input intent) input status now s

unfoldable pub settle : SettlementInput → ℕ → Store → Outcome × Store
unfolding write_usdt_deposit_credit
settle input now s = elim (lookup input.pay21_intent s.intents) [
  | none ↦ (not_handled unknown_intent, s)
  | some intent ↦ elim (parse_status input.status) [
    | none ↦ (not_handled unknown_status, s)
    | some status ↦ settle_status input.pay21_intent intent input status now s
  ]
]

abbrev pub reversal_row : Intent → ℕ → List Transaction → Transaction
reversal_row intent amount ledger =
    let balance_before = ledger_balance ledger intent.user usdt in
    record {
      user = intent.user;
      type = TransactionType.refund;
      amount = pos 0 -ℤ pos amount;
      currency = usdt;
      balance_before = balance_before;
      balance_after = balance_before -ℤ pos amount;
      payment = none;
      position = none;
      note = Note.usdt_deposit_reversed;
    }

-- A deposit that a reorganisation of the chain undid. The balance may become negative.
unfoldable pub reverse : ℕ → Store → Outcome × Store
reverse key s = elim (lookup key s.intents) [
  | none ↦ (not_handled not_credited, s)
  | some intent ↦
      let amount = get_or intent.detected_amount_usdt 0 in
      if not (is_some intent.credited_at)
      then (not_handled not_credited, s)
      else if amount == 0
      then (not_handled no_amount, s)
      else (
        handled reversed,
        record s {
          ledger = reversal_row intent amount s.ledger ∷ s.ledger;
          intents =
              insert key (record intent { status = IntentStatus.failed; credited_at = none })
                s.intents;
        },
      )
]

-- ===== src/Deposit/Tables.antt =====
-- The tables of USDT deposits (src/entities/crypto-payment-intent.entity.ts).
use Prim.Native.String.{String}
use text.Mathlib.Text.{◌==◌ as str_eq}
use oro_backend.Base.{ℕ, Bool, true, false, Option, none, some, List, if◌then◌else◌}
use oro_backend.Base.Rows.{Rows}
use oro_backend.Ledger.{Transaction}

pub data IntentStatus : Type 0 where
  awaiting_deposit confirming accepted confirmed confirmed_partial : IntentStatus
  confirmed_overpaid completed_via_topup expired failed : IntentStatus

-- The states in which money has landed.
abbrev pub is_crediting : IntentStatus → Bool
is_crediting IntentStatus.confirmed = true
is_crediting IntentStatus.confirmed_partial = true
is_crediting IntentStatus.confirmed_overpaid = true
is_crediting _ = false

abbrev pub is_topup : IntentStatus → Bool
is_topup IntentStatus.completed_via_topup = true
is_topup _ = false

abbrev pub parse_status : String → Option IntentStatus
parse_status raw =
    if str_eq raw "awaiting_deposit"
    then some IntentStatus.awaiting_deposit
    else if str_eq raw "confirming"
    then some IntentStatus.confirming
    else if str_eq raw "accepted"
    then some IntentStatus.accepted
    else if str_eq raw "confirmed"
    then some IntentStatus.confirmed
    else if str_eq raw "confirmed_partial"
    then some IntentStatus.confirmed_partial
    else if str_eq raw "confirmed_overpaid"
    then some IntentStatus.confirmed_overpaid
    else if str_eq raw "completed_via_topup"
    then some IntentStatus.completed_via_topup
    else if str_eq raw "expired"
    then some IntentStatus.expired
    else if str_eq raw "failed"
    then some IntentStatus.failed
    else none

pub record Intent : Type 0 where
  pub user : ℕ
  pub network : String
  pub status : IntentStatus
  pub detected_amount_usdt : Option ℕ
  pub tx_hash : Option String
  pub credited_at : Option ℕ
  pub expires_at : ℕ

-- The rows of `payments`, with the unique `externalPaymentId`.
pub record DepositPayment : Type 0 where
  pub user : ℕ
  pub amount : ℕ
  pub external_payment : ℕ
  pub network : String

pub record Store : Type 0 where
  pub intents : Rows Intent
  pub payments : List DepositPayment
  pub ledger : List Transaction

-- What an event or a poll says of an intent.
pub record SettlementInput : Type 0 where
  pub pay21_intent : ℕ
  pub status : String
  pub detected_amount_base_units : Option ℕ
  pub tx_hash : Option String

pub data Reason : Type 0 where
  unknown_intent unknown_status already_credited topup_parent no_detected_amount : Reason
  no_credit : IntentStatus → Reason
  not_credited no_amount reversed : Reason

-- The outcome of a call, or the database's refusal of a second payment for an intent.
pub data Outcome : Type 0 where
  credited : Outcome
  handled : Reason → Outcome
  not_handled : Reason → Outcome
  unique_violation : Outcome

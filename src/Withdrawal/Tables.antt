-- ===== src/Withdrawal/Tables.antt =====
-- The tables that the reconciler works on, and the bank's answers.
use oro_backend.Base.{ℕ, Bool, true, false, Option, List, ◌&&◌, holds_key, exists_in}
use oro_backend.Base.Rows.{Rows}
use oro_backend.Ledger.{Transaction, TransactionType}

pub data PaymentType : Type 0 where
  deposit withdrawal position_placed position_payout refund : PaymentType

pub data PaymentStatus : Type 0 where
  pending processing success failed cancelled : PaymentStatus

pub data PaymentMethod : Type 0 where
  dk_bank ton credits usdt : PaymentMethod

pub data Verdict : Type 0 where
  success failed pending : Verdict

-- What the bank said: its status word and its description.
pub record BankResult : Type 0 where
  pub status : Option (List ℕ)
  pub status_desc : Option (List ℕ)

-- `metadata.dkReconcile` and `metadata.manualReconcile`.
pub record ReconcileEntry : Type 0 where
  pub result : BankResult
  pub at : ℕ

pub record ManualEntry : Type 0 where
  pub verdict : Verdict
  pub admin : ℕ
  pub note : List ℕ
  pub at : ℕ

-- The metadata fields that the reconciler reads and writes. Handles are numbers; `none` is an
-- absent or empty one.
pub record Metadata : Type 0 where
  pub payment_number : Option ℕ
  pub request_id : Option ℕ
  pub txn_id : Option ℕ
  pub dk_account_number : Option ℕ
  pub warned_at : ℕ
  pub checked_at : ℕ
  pub last_status : Option (List ℕ)
  pub last_error : Option (List ℕ)
  pub dk_reconcile : Option ReconcileEntry
  pub manual_reconcile : Option ManualEntry

pub record Payment : Type 0 where
  pub id : ℕ
  pub user : ℕ
  pub type : PaymentType
  pub status : PaymentStatus
  pub method : PaymentMethod
  pub amount : ℕ
  pub external_payment_id : Option ℕ
  pub dk_txn_status_id : Option ℕ
  pub created_at : Option ℕ
  pub confirmed_at : Option ℕ
  pub failure_reason : Option (List ℕ)
  pub metadata : Metadata

pub record Notification : Type 0 where
  pub user : ℕ
  pub amount : ℕ
  pub sent : Bool

pub record Store : Type 0 where
  pub payments : Rows Payment
  pub ledger : List Transaction
  pub notifications : List Notification
  pub running : Bool

pub data Error : Type 0 where
  not_found already_closed closed_by_other unique_violation : Error
  bank_unreachable : List ℕ → Error

pub data Result (A : Type 0) : Type 0 where
  ok : A → Result A
  err : Error → Result A

abbrev pub is_processing : PaymentStatus → Bool
is_processing PaymentStatus.processing = true
is_processing _ = false

abbrev pub is_withdrawal : PaymentType → Bool
is_withdrawal PaymentType.withdrawal = true
is_withdrawal _ = false

abbrev pub is_dk_bank : PaymentMethod → Bool
is_dk_bank PaymentMethod.dk_bank = true
is_dk_bank _ = false

-- The row types that the reconciler compares.
abbrev pub same_type : TransactionType → TransactionType → Bool
same_type TransactionType.refund TransactionType.refund = true
same_type TransactionType.withdrawal TransactionType.withdrawal = true
same_type _ _ = false

-- The unique index on (`paymentId`, `type`) of the transactions.
abbrev pub has_row : List Transaction → ℕ → TransactionType → Bool
has_row ledger payment type =
    exists_in (λ (t : Transaction). holds_key t.payment payment && same_type t.type type) ledger

-- An answer, or the call's exception with its message.
pub data Answer (A : Type 0) : Type 0 where
  answered : A → Answer A
  raised : List ℕ → Answer A

pub record TransferAnswer : Type 0 where
  pub verdict : Verdict
  pub status : Option (List ℕ)
  pub response_code : List ℕ
  pub status_desc : Option (List ℕ)

-- `checkTransferStatus` by reference and beneficiary account, `checkTransactionStatus` by id.
pub record Gateway : Type 0 where
  pub check_transfer_status : ℕ → ℕ → Answer TransferAnswer
  pub check_transaction_status : ℕ → Answer BankResult
  pub to_upper : List ℕ → List ℕ

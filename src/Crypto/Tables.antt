-- ===== src/Crypto/Tables.antt =====
-- The tables of USDT withdrawals and the answers of 21 Pay
-- (src/entities/crypto-withdrawal.entity.ts, src/payment/crypto-withdrawal.service.ts).
use Prim.Native.String.{String}
use text.Mathlib.Text.{◌==◌ as str_eq}
use oro_backend.Base.{ℕ, Bool, true, false, ◌&&◌, ◌||◌, ◌==◌, Option, List, [], ◌∷◌, includes}
use oro_backend.Base.Rows.{Rows}
use oro_backend.Ledger.{Transaction}
use oro_backend.Stake.{Account}

pub data DestinationStatus : Type 0 where
  cooldown active disabled : DestinationStatus

pub data ApprovalStatus : Type 0 where
  pending_approval approved rejected : ApprovalStatus

pub data PayoutKind : Type 0 where
  destination customer_payout : PayoutKind

-- The nine states of the provider, and any other text that it may send.
pub data RemoteStatus : Type 0 where
  requested pending_approval approved broadcasting confirming : RemoteStatus
  completed rejected failed cancelled : RemoteStatus
  unknown : String → RemoteStatus

pub record Destination : Type 0 where
  pub user : ℕ
  pub pay21_destination : Option ℕ
  pub network : String
  pub address : String
  pub label : Option String
  pub status : DestinationStatus
  pub usable_at : Option ℕ
  pub created_at : ℕ

-- `wd:${userId}:${clientRequestId}`.
pub record IdempotencyKey : Type 0 where
  pub user : ℕ
  pub client_request : List ℕ

pub record CryptoWithdrawal : Type 0 where
  pub user : ℕ
  pub destination : ℕ
  pub pay21_withdrawal : Option ℕ
  pub network : String
  pub amount_usdt : ℕ
  pub approval_status : ApprovalStatus
  pub remote_status : Option RemoteStatus
  pub debit_transaction : ℕ
  pub restore_transaction : Option ℕ
  pub tx_hash : Option String
  pub needs_manual_review : Bool
  pub approved_by : Option ℕ
  pub approved_at : Option ℕ
  pub completed_at : Option ℕ
  pub idempotency_key : IdempotencyKey
  pub kind : PayoutKind

pub record Store : Type 0 where
  pub accounts : Rows Account
  pub destinations : Rows Destination
  pub withdrawals : Rows CryptoWithdrawal
  pub ledger : List Transaction
  pub next_destination : ℕ
  pub next_withdrawal : ℕ

pub data Error : Type 0 where
  not_enabled user_not_found usdt_not_allowed unsupported_network network_unavailable : Error
  bad_address address_not_found address_disabled address_in_cooldown : Error
  address_not_registered network_not_supported provider_unreachable : Error
  bad_amount too_many_decimals below_minimum request_id_missing insufficient_balance : Error
  withdrawal_not_found already_decided own_withdrawal reason_missing : Error
  refused_upstream : ℕ → Error

pub data Result (A : Type 0) : Type 0 where
  ok : A → Result A
  err : Error → Result A

-- What the provider says of a payout.
pub record Remote : Type 0 where
  pub id : ℕ
  pub status : RemoteStatus
  pub tx_hash : Option String

-- An answer, an HTTP status, or neither: a timeout or a network error.
pub data Answer : Type 0 where
  accepted : Remote → Answer
  refused : ℕ → Answer
  unreachable : Answer

pub record PayoutRequest : Type 0 where
  pub idempotency_key : IdempotencyKey
  pub user : ℕ
  pub network : String
  pub to_address : Option String
  pub pay21_destination : Option ℕ
  pub amount_base_units : ℕ

pub record RemoteDestination : Type 0 where
  pub id : ℕ
  pub status : Option DestinationStatus
  pub active_at : Option ℕ
  pub usable_at : Option ℕ

pub record Client : Type 0 where
  pub enabled : Bool
  pub is_network_enabled : String → Bool
  pub create_withdrawal_destination : String → String → Option RemoteDestination
  pub create_customer_payout : PayoutRequest → Answer
  pub create_withdrawal : PayoutRequest → Answer
  pub get_withdrawal : ℕ → Option Remote

-- The settings of the deployment, and the check of an address, which hashes by a library.
pub record Config : Type 0 where
  pub payout_kind : PayoutKind
  pub cooldown_ms : ℕ
  pub min_withdrawal : ℕ
  pub is_valid_address : String → String → Bool
  pub to_lower_case : String → String
  pub trim_text : String → String

abbrev pub is_pending : ApprovalStatus → Bool
is_pending pending_approval = true
is_pending _ = false

abbrev pub is_approved : ApprovalStatus → Bool
is_approved approved = true
is_approved _ = false

abbrev pub is_customer_payout : PayoutKind → Bool
is_customer_payout customer_payout = true
is_customer_payout destination = false

abbrev pub same_codes : List ℕ → List ℕ → Bool
same_codes [] [] = true
same_codes (c ∷ cs) (d ∷ ds) = let rest = same_codes cs ds in c == d && rest
same_codes _ _ = false

abbrev pub same_key : IdempotencyKey → IdempotencyKey → Bool
same_key a b = a.user == b.user && same_codes a.client_request b.client_request

-- The statuses of a request that created nothing.
abbrev pub is_definite_refusal : ℕ → Bool
is_definite_refusal status = includes (400 ∷ 401 ∷ 403 ∷ 404 ∷ 422 ∷ 429 ∷ []) status

abbrev pub is_crypto_network : String → Bool
is_crypto_network n =
    (((str_eq n "tron" || str_eq n "base") || str_eq n "polygon") || str_eq n "arbitrum")
    || str_eq n "ethereum"

-- The networks of HD wallets.
abbrev pub is_hd_network : String → Bool
is_hd_network n = str_eq n "tron"

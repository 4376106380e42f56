-- ===== src/Examples/Payouts.antt =====
-- USDT withdrawals, deposits and the transfers of fees.
use oro_backend.Base.{ℕ, ◌≡◌, ◌⊎◌, refl, true, false, none, some, [], ◌∷◌, is_none}
use oro_backend.Base.Int.{pos, ◌+ℤ◌, ◌-ℤ◌}
use oro_backend.Base.Rows.{lookup}
use oro_backend.Ledger.{Transaction, TransactionType, Note}
use oro_backend.Ledger.Balance.{ledger_balance}
use oro_backend.Stake.{Account, usdt}
use oro_backend.Usdt.{trim}
use oro_backend.Crypto.{
  DestinationStatus, ApprovalStatus, PayoutKind, RemoteStatus, Destination, CryptoWithdrawal, Store,
  ok, Remote, Answer, Client, Config, request, approve, approve_loaded, reject, reject_loaded,
  resubmit_one, apply_remote_state, is_usable,
}
use oro_backend.Crypto.Races.{Moves, apply_remote_state-Moves, resubmit_one_refunds}
use oro_backend.Crypto.Once.{approve_loaded_once}
use oro_backend.Crypto.History.{Step, Steps, IsKept, Steps-wealth}
use oro_backend.Crypto.Exclusive.{Turn, Turns, Turns-exclusive}

abbrev usdt_deposit_of : ℕ → ℕ → Transaction
usdt_deposit_of user amount = record {
  user = user;
  type = TransactionType.deposit;
  amount = pos amount;
  currency = usdt;
  balance_before = pos 0;
  balance_after = pos amount;
  payment = none;
  position = none;
  note = Note.usdt_deposit "tron";
}

abbrev player : Account
player = record {
  currency = some "BTN";
  is_kyc_approved = true;
  has_dk_account = true;
  has_phone = true;
}

abbrev tron_address : Destination
tron_address = record {
  user = 2;
  pay21_destination = none;
  network = "tron";
  address = "T9";
  label = none;
  status = DestinationStatus.active;
  usable_at = some 100;
  created_at = 10;
}

abbrev settings : Config
settings = record {
  payout_kind = PayoutKind.customer_payout;
  cooldown_ms = 86400000;
  min_withdrawal = 1000000;
  is_valid_address = λ network address. true;
  to_lower_case = λ s. s;
  trim_text = λ s. s;
}

-- A provider that gives one answer to every payout.
abbrev provider : Answer → Client
provider a = record {
  enabled = true;
  is_network_enabled = λ network. true;
  create_withdrawal_destination = λ network address. none;
  create_customer_payout = λ r. a;
  create_withdrawal = λ r. a;
  get_withdrawal = λ payout. none;
}

abbrev opening : Store
opening = record {
  accounts = (2, player) ∷ [];
  destinations = (5, tron_address) ∷ [];
  withdrawals = [];
  ledger = usdt_deposit_of 2 9000000 ∷ [];
  next_destination = 6;
  next_withdrawal = 7;
}

-- "2.5" and the request "a".
abbrev asking : Store
asking =
    (request settings (provider Answer.unreachable) 2 5 (50 ∷ 46 ∷ 53 ∷ []) (97 ∷ []) 200 opening).1

abbrev asked_row : CryptoWithdrawal
asked_row = record {
  user = 2;
  destination = 5;
  pay21_withdrawal = none;
  network = "tron";
  amount_usdt = 2500000;
  approval_status = ApprovalStatus.pending_approval;
  remote_status = none;
  debit_transaction = 1;
  restore_transaction = none;
  tx_hash = none;
  needs_manual_review = false;
  approved_by = none;
  approved_at = none;
  completed_at = none;
  idempotency_key = record { user = 2; client_request = 97 ∷ [] };
  kind = PayoutKind.destination;
}

asked_stored : lookup 7 asking.withdrawals ≡ some asked_row
unfolding request is_usable ledger_balance ◌+ℤ◌ ◌-ℤ◌
asked_stored = refl

abbrev done : Remote
done = record { id = 31; status = RemoteStatus.completed; tx_hash = some "h" }

abbrev paid_row : CryptoWithdrawal
paid_row = record asked_row {
  pay21_withdrawal = some 31;
  approval_status = ApprovalStatus.approved;
  remote_status = some RemoteStatus.completed;
  tx_hash = some "h";
  approved_by = some 1;
  approved_at = some 300;
  completed_at = some 300;
  kind = PayoutKind.customer_payout;
}

abbrev paying : Store
paying = (approve settings (provider (Answer.accepted done)) 1 7 300 asking).1

paid_stored : lookup 7 paying.withdrawals ≡ some paid_row
unfolding request approve is_usable ledger_balance ◌+ℤ◌ ◌-ℤ◌
paid_stored = refl

Turns-exclusive_example :
    (is_none paid_row.completed_at ≡ true) ⊎ (is_none paid_row.restore_transaction ≡ true)
Turns-exclusive_example =
    Turns-exclusive 7 paid_row {s = opening} {s' = paying} refl
      (Turns.then
        (Turns.then Turns.start (
          Turn.ask settings (provider Answer.unreachable) 2 5 (50 ∷ 46 ∷ 53 ∷ []) (97 ∷ []) 200
            opening))
        (Turn.approval settings (provider (Answer.accepted done)) 1 7 300 asking))
      paid_stored

Steps-wealth_example : IsKept 2 opening asking
Steps-wealth_example =
    Steps-wealth 2 {s = opening} {s' = asking}
      (Steps.then Steps.start (
        Step.ask settings (provider Answer.unreachable) 2 5 (50 ∷ 46 ∷ 53 ∷ []) (97 ∷ []) 200
          opening))
      (λ k le. refl)

approve_loaded_once_example :
    let s' =
      (approve_loaded settings (provider (Answer.accepted done)) 1 7 asked_row 300 asking).1 in
    ((approve_loaded settings (provider Answer.unreachable) 3 7 asked_row 301 s').1 ≡ s')
    × ((reject_loaded 3 7 asked_row s').1 ≡ s')
unfolding request is_usable ledger_balance ◌+ℤ◌ ◌-ℤ◌ approve_loaded
approve_loaded_once_example =
    approve_loaded_once settings settings (provider (Answer.accepted done))
      (provider Answer.unreachable) 1 3 7 asked_row asked_row 300 301 asking refl

-- Approved, sent, and never answered.
abbrev unanswered_row : CryptoWithdrawal
unanswered_row = record asked_row {
  approval_status = ApprovalStatus.approved;
  approved_by = some 1;
  approved_at = some 300;
  kind = PayoutKind.customer_payout;
}

abbrev unanswered : Store
unanswered = record opening { withdrawals = (7, unanswered_row) ∷ []; next_withdrawal = 8 }

abbrev dropped : Remote
dropped = record { id = 31; status = RemoteStatus.failed; tx_hash = none }

apply_remote_state-Moves_example :
    Moves unanswered_row dropped 2 unanswered (apply_remote_state 7 dropped 400 unanswered).1
apply_remote_state-Moves_example =
    apply_remote_state-Moves 7 unanswered_row dropped 2 400 unanswered refl

resubmit_one_refunds_example :
    let r =
      reject 1 7
        (120 ∷ [])
        (resubmit_one (provider (Answer.refused 429)) 400 (7, unanswered_row) unanswered) in
    (r.0 ≡ ok tt)
    × (ledger_balance r.1.ledger 2 usdt ≡ ledger_balance unanswered.ledger 2 usdt +ℤ pos 2500000)
unfolding trim
resubmit_one_refunds_example =
    resubmit_one_refunds (provider (Answer.refused 429)) 400 7 429 1 (120 ∷ []) unanswered_row
      tron_address player unanswered refl refl refl refl refl refl refl refl refl

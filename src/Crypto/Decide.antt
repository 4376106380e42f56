-- ===== src/Crypto/Decide.antt =====
-- Decisions and submission of USDT withdrawals (src/payment/crypto-withdrawal.service.ts).
use oro_backend.Base.{
  ℕ, Bool, true, false, not, ◌&&◌, ◌==◌, Option, none, some, List, is_none, is_some, if◌then◌else◌,
}
use oro_backend.Base.Rows.{lookup, insert}
use oro_backend.Usdt.{trim}
use oro_backend.Crypto.Tables.{
  ApprovalStatus, PayoutKind, Destination, CryptoWithdrawal, Store, not_enabled, address_not_found,
  withdrawal_not_found, already_decided, own_withdrawal, reason_missing, refused_upstream, Result,
  ok, err, Answer, accepted, refused, unreachable, PayoutRequest, Client, Config, is_pending,
  is_approved, is_customer_payout, is_definite_refusal,
}
use oro_backend.Crypto.Addresses.{refuses_payout}
use oro_backend.Crypto.Request.{is_blank}
use oro_backend.Crypto.Apply.{with_withdrawal, post_refund, apply_remote_state}

abbrev pub payout_request : CryptoWithdrawal → Destination → PayoutRequest
payout_request w d = record {
  idempotency_key = w.idempotency_key;
  user = w.user;
  network = if is_customer_payout w.kind then d.network else w.network;
  to_address = if is_customer_payout w.kind then some d.address else none;
  pay21_destination = if is_customer_payout w.kind then none else d.pay21_destination;
  amount_base_units = w.amount_usdt;
}

abbrev pub ask_payout : Client → CryptoWithdrawal → Destination → Answer
ask_payout client w d =
    if is_customer_payout w.kind
    then client.create_customer_payout (payout_request w d)
    else client.create_withdrawal (payout_request w d)

-- Back into the queue, if it is approved and has no payout.
abbrev pub requeued_row : CryptoWithdrawal → CryptoWithdrawal
requeued_row row =
    if is_approved row.approval_status && is_none row.pay21_withdrawal
    then record row {
      approval_status = ApprovalStatus.pending_approval;
      approved_by = none;
      approved_at = none;
    }
    else row

abbrev pub reviewed_row : CryptoWithdrawal → CryptoWithdrawal
reviewed_row row = record row { needs_manual_review = true }

abbrev pub adopted_row : ℕ → CryptoWithdrawal → CryptoWithdrawal
adopted_row payout row =
    if is_none row.pay21_withdrawal then record row { pay21_withdrawal = some payout } else row

-- What a submission does with the provider's answer.
unfoldable pub take_answer : ℕ → Answer → ℕ → Store → Result (Unit {0}) × Store
unfolding apply_remote_state
take_answer key (accepted r) now s =
    apply_remote_state key r now (with_withdrawal key (adopted_row r.id) s)
take_answer key (refused status) now s =
    if is_definite_refusal status
    then (err (refused_upstream status), with_withdrawal key requeued_row s)
    else if status == 409
    then (ok tt, with_withdrawal key reviewed_row s)
    else (ok tt, s)
take_answer key unreachable now s = (ok tt, s)

unfoldable pub submit :
    Client → ℕ → CryptoWithdrawal → Destination → ℕ → Store → Result (Unit {0}) × Store
unfolding take_answer
submit client key w d now s = take_answer key (ask_payout client w d) now s

-- `requirePending`.
abbrev pub require_pending : ℕ → Store → Result CryptoWithdrawal
require_pending key s = elim (lookup key s.withdrawals) [
  | none ↦ err withdrawal_not_found
  | some w ↦ if is_pending w.approval_status then ok w else err already_decided
]

abbrev pub approved_row : ℕ → PayoutKind → ℕ → CryptoWithdrawal → CryptoWithdrawal
approved_row admin kind now row = record row {
  approval_status = ApprovalStatus.approved;
  approved_by = some admin;
  approved_at = some now;
  kind = kind;
}

-- The claim on the stored row: `none` if it is no longer pending.
abbrev pub claim : ℕ → (CryptoWithdrawal → CryptoWithdrawal) → Store → Option Store
claim key change s = elim (lookup key s.withdrawals) [
  | none ↦ none
  | some row ↦
      if is_pending row.approval_status
      then some (record s { withdrawals = insert key (change row) s.withdrawals })
      else none
]

-- What follows `requirePending`, on the copy that it loaded.
unfoldable pub approve_loaded :
    Config → Client → ℕ → ℕ → CryptoWithdrawal → ℕ → Store → Result (Unit {0}) × Store
unfolding refuses_payout submit
approve_loaded cfg client admin key w now s =
    if w.user == admin
    then (err own_withdrawal, s)
    else elim (lookup w.destination s.destinations) [
      | none ↦ (err address_not_found, s)
      | some d ↦ elim (refuses_payout cfg now cfg.payout_kind d) [
        | some e ↦ (err e, s)
        | none ↦ elim (claim key (approved_row admin cfg.payout_kind now) s) [
          | none ↦ (err already_decided, s)
          | some s1 ↦ submit client key (approved_row admin cfg.payout_kind now w) d now s1
        ]
      ]
    ]

unfoldable pub approve : Config → Client → ℕ → ℕ → ℕ → Store → Result (Unit {0}) × Store
unfolding approve_loaded
approve cfg client admin key now s =
    if not client.enabled then (err not_enabled, s) else elim (require_pending key s) [
      | err e ↦ (err e, s)
      | ok w ↦ approve_loaded cfg client admin key w now s
    ]

abbrev pub rejected_row : ℕ → CryptoWithdrawal → CryptoWithdrawal
rejected_row admin row = record row {
  approval_status = ApprovalStatus.rejected;
  approved_by = some admin;
}

-- A transaction that raises leaves the tables as they were before it.
abbrev pub or_roll_back : Store → Result Bool × Store → Result (Unit {0}) × Store
or_roll_back before (err e, s) = (err e, before)
or_roll_back before (ok true, s) = (ok tt, s)
or_roll_back before (ok false, s) = (ok tt, before)

-- The claim and the refund are one transaction; a copy that is already restored starts none.
unfoldable pub reject_loaded : ℕ → ℕ → CryptoWithdrawal → Store → Result (Unit {0}) × Store
unfolding post_refund
reject_loaded admin key w s =
    if is_some w.restore_transaction then (ok tt, s) else elim (claim key (rejected_row admin) s) [
      | none ↦ (err already_decided, s)
      | some s1 ↦ or_roll_back s (post_refund key w s1)
    ]

unfoldable pub reject : ℕ → ℕ → List ℕ → Store → Result (Unit {0}) × Store
unfolding reject_loaded trim
reject admin key reason s =
    if is_blank (trim reason)
    then (err reason_missing, s)
    else elim (require_pending key s) [ err e ↦ (err e, s) | ok w ↦ reject_loaded admin key w s ]

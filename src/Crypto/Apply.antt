-- ===== src/Crypto/Apply.antt =====
-- `applyRemoteState` and `restore` (src/payment/crypto-withdrawal.service.ts).
use Prim.Native.String.{String}
use text.Mathlib.Text.{◌==◌ as str_eq}
use oro_backend.Base.{
  ℕ, Bool, true, false, not, Option, none, some, List, ◌∷◌, length, is_some, if◌then◌else◌,
}
use oro_backend.Base.Int.{pos, ◌+ℤ◌}
use oro_backend.Base.Rows.{lookup, insert}
use oro_backend.Ledger.{Transaction, TransactionType, Note}
use oro_backend.Ledger.Balance.{ledger_balance}
use oro_backend.Stake.{usdt}
use oro_backend.Crypto.Tables.{
  RemoteStatus, CryptoWithdrawal, Store, user_not_found, Result, ok, err, Remote,
}

-- What a status means for the money.
pub data Phase : Type 0 where
  paid failure in_flight : Phase

abbrev pub phase_of : RemoteStatus → Phase
phase_of RemoteStatus.completed = paid
phase_of RemoteStatus.failed = failure
phase_of RemoteStatus.rejected = failure
phase_of RemoteStatus.cancelled = failure
phase_of _ = in_flight

abbrev pub is_terminal : Option RemoteStatus → Bool
is_terminal none = false
is_terminal (some status) = elim (phase_of status) [ in_flight ↦ false | _ ↦ true ]

-- `a ?? b`.
abbrev pub or_hash : Option String → Option String → Option String
or_hash (some h) _ = some h
or_hash none h = h

-- An empty text counts as no hash.
abbrev pub is_broadcast : Option String → Bool
is_broadcast none = false
is_broadcast (some h) = not (str_eq h "")

abbrev pub returned_row : CryptoWithdrawal → List Transaction → Transaction
returned_row w ledger =
    let balance = ledger_balance ledger w.user usdt in
    record {
      user = w.user;
      type = TransactionType.refund;
      amount = pos w.amount_usdt;
      currency = usdt;
      balance_before = balance;
      balance_after = balance +ℤ pos w.amount_usdt;
      payment = none;
      position = none;
      note = Note.usdt_withdrawal_returned;
    }

-- The refund of the copy in hand with the claim on the stored row, which holds back a second one.
unfoldable pub post_refund : ℕ → CryptoWithdrawal → Store → Result Bool × Store
post_refund key w s = elim (lookup w.user s.accounts) [
  | none ↦ (err user_not_found, s)
  | some a ↦ elim (lookup key s.withdrawals) [
    | none ↦ (ok false, s)
    | some row ↦ if is_some row.restore_transaction then (ok false, s) else (
      ok true,
      record s {
        ledger = returned_row w s.ledger ∷ s.ledger;
        withdrawals =
            insert key (record row { restore_transaction = some (length s.ledger) }) s.withdrawals;
      },
    )
  ]
]

-- Whether this call posted the refund.
unfoldable pub restore : ℕ → CryptoWithdrawal → Store → Result Bool × Store
unfolding post_refund
restore key w s = if is_some w.restore_transaction then (ok false, s) else post_refund key w s

abbrev pub with_withdrawal : ℕ → (CryptoWithdrawal → CryptoWithdrawal) → Store → Store
with_withdrawal key change s = elim (lookup key s.withdrawals) as (λ _. Store) [
  | none ↦ s
  | some row ↦ record s { withdrawals = insert key (change row) s.withdrawals }
]

-- Only a row without a completion is completed.
abbrev pub completed_row : RemoteStatus → Option String → ℕ → CryptoWithdrawal → CryptoWithdrawal
completed_row status tx_hash now row =
    if is_some row.completed_at
    then row
    else record row { remote_status = some status; tx_hash = tx_hash; completed_at = some now }

abbrev pub held_row : RemoteStatus → Option String → CryptoWithdrawal → CryptoWithdrawal
held_row status tx_hash row = record row {
  remote_status = some status;
  tx_hash = tx_hash;
  needs_manual_review = true;
}

abbrev pub seen_row : RemoteStatus → Option String → CryptoWithdrawal → CryptoWithdrawal
seen_row status tx_hash row = record row { remote_status = some status; tx_hash = tx_hash }

abbrev pub failed_row : RemoteStatus → CryptoWithdrawal → CryptoWithdrawal
failed_row status row = record row { remote_status = some status }

-- The status is written after the refund, unless that raised.
abbrev pub then_fail : ℕ → RemoteStatus → Result Bool × Store → Result (Unit {0}) × Store
then_fail key status (ok _, s) = (ok tt, with_withdrawal key (failed_row status) s)
then_fail key status (err e, s) = (err e, s)

abbrev pub apply_phase :
    Phase
    → ℕ
    → CryptoWithdrawal
    → RemoteStatus
    → Option String
    → ℕ
    → Store
    → Result (Unit {0}) × Store
apply_phase paid key w status tx_hash now s =
    (ok tt, with_withdrawal key (completed_row status tx_hash now) s)
apply_phase failure key w status tx_hash now s =
    if is_broadcast tx_hash
    then (ok tt, with_withdrawal key (held_row status tx_hash) s)
    else then_fail key status (restore key w s)
apply_phase in_flight key w status tx_hash now s =
    (ok tt, with_withdrawal key (seen_row status tx_hash) s)

-- What follows the load of the row, on the copy that was loaded.
unfoldable pub apply_loaded : ℕ → CryptoWithdrawal → Remote → ℕ → Store → Result (Unit {0}) × Store
unfolding restore
apply_loaded key w r now s =
    if is_terminal w.remote_status
    then (ok tt, s)
    else apply_phase (phase_of r.status) key w r.status (or_hash r.tx_hash w.tx_hash) now s

unfoldable pub apply_remote_state : ℕ → Remote → ℕ → Store → Result (Unit {0}) × Store
unfolding apply_loaded
apply_remote_state key r now s = elim (lookup key s.withdrawals) [
  | none ↦ (ok tt, s)
  | some w ↦ apply_loaded key w r now s
]

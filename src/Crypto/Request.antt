-- ===== src/Crypto/Request.antt =====
-- `request` (src/payment/crypto-withdrawal.service.ts).
use oro_backend.Base.{
  ℕ, ◌+◌, ◌-◌, ◌*◌, Bool, true, false, not, ◌&&◌, ◌==◌, none, some, List, [], ◌∷◌, ◌++◌, ltb,
  length, find, if◌then◌else◌,
}
use oro_backend.Base.Int.{pos, ◌-ℤ◌, ltb_ℤ}
use oro_backend.Base.Rows.{lookup, insert}
use oro_backend.Ledger.{Transaction, TransactionType, Note}
use oro_backend.Ledger.Balance.{ledger_balance}
use oro_backend.Stake.{usdt}
use oro_backend.Usdt.{trim, split_dot, is_number, read_digits, zero_digits, usdt_decimals, scale}
use oro_backend.Crypto.Tables.{
  ApprovalStatus, Destination, PayoutKind, IdempotencyKey, CryptoWithdrawal, Store, not_enabled,
  address_not_found, address_disabled, address_in_cooldown, bad_amount, too_many_decimals,
  below_minimum, request_id_missing, insufficient_balance, Result, ok, err, Client, Config,
  same_key,
}
use oro_backend.Crypto.Addresses.{refuses_user, is_disabled, is_usable}

abbrev pub at_least : ℕ → ℕ → Result ℕ
at_least least value = if ltb value least then err below_minimum else ok value

-- `^\d+(\.\d+)?$`, at most six places, at least the minimum.
unfoldable pub parse_amount : Config → List ℕ → Result ℕ
unfolding trim
parse_amount cfg raw =
    let parts = split_dot (trim raw) in
    elim parts.1 [
      | none ↦
          if is_number parts.0
          then at_least cfg.min_withdrawal (read_digits 0 parts.0 * scale)
          else err bad_amount
      | some fraction ↦
          if not (is_number parts.0 && is_number fraction)
          then err bad_amount
          else if ltb usdt_decimals (length fraction)
          then err too_many_decimals
          else at_least cfg.min_withdrawal (
              read_digits 0 parts.0 * scale
              + read_digits 0 (fraction ++ zero_digits (usdt_decimals - length fraction)))
    ]

abbrev pub debit_row : ℕ → ℕ → Destination → List Transaction → Transaction
debit_row user amount d ledger =
    let balance = ledger_balance ledger user usdt in
    record {
      user = user;
      type = TransactionType.withdrawal;
      amount = pos 0 -ℤ pos amount;
      currency = usdt;
      balance_before = balance;
      balance_after = balance -ℤ pos amount;
      payment = none;
      position = none;
      note = Note.usdt_withdrawal_requested d.network;
    }

abbrev pub new_withdrawal :
    ℕ → ℕ → Destination → ℕ → IdempotencyKey → List Transaction → CryptoWithdrawal
new_withdrawal user key d amount id ledger = record {
  user = user;
  destination = key;
  pay21_withdrawal = none;
  network = d.network;
  amount_usdt = amount;
  approval_status = ApprovalStatus.pending_approval;
  remote_status = none;
  debit_transaction = length ledger;
  restore_transaction = none;
  tx_hash = none;
  needs_manual_review = false;
  approved_by = none;
  approved_at = none;
  completed_at = none;
  idempotency_key = id;
  kind = PayoutKind.destination;
}

-- The transaction: the check of the balance, the debit and the row.
unfoldable pub debit : ℕ → ℕ → Destination → ℕ → IdempotencyKey → Store → Result ℕ × Store
debit user key d amount id s =
    if ltb_ℤ (ledger_balance s.ledger user usdt) (pos amount)
    then (err insufficient_balance, s)
    else (
      ok s.next_withdrawal,
      record s {
        ledger = debit_row user amount d s.ledger ∷ s.ledger;
        withdrawals =
            insert s.next_withdrawal (new_withdrawal user key d amount id s.ledger) s.withdrawals;
        next_withdrawal = s.next_withdrawal + 1;
      },
    )

abbrev pub has_request_id : IdempotencyKey → ℕ × CryptoWithdrawal → Bool
has_request_id id r = same_key r.1.idempotency_key id

abbrev pub is_blank : List ℕ → Bool
is_blank [] = true
is_blank (_ ∷ _) = false

-- What a parsed amount leads to: a request that is known is answered with its row.
abbrev pub or_debit : ℕ → ℕ → Destination → IdempotencyKey → Store → Result ℕ → Result ℕ × Store
or_debit user key d id s (err e) = (err e, s)
or_debit user key d id s (ok amount) =
    if is_blank id.client_request
    then (err request_id_missing, s)
    else elim (find (has_request_id id) s.withdrawals) [
      | some r ↦ (ok r.0, s)
      | none ↦ debit user key d amount id s
    ]

unfoldable pub request : Config → Client → ℕ → ℕ → List ℕ → List ℕ → ℕ → Store → Result ℕ × Store
unfolding parse_amount debit trim
request cfg client user key raw_amount raw_id now s =
    let id : IdempotencyKey = record { user = user; client_request = trim raw_id } in
    if not client.enabled then (err not_enabled, s) else elim (refuses_user user s) [
      | some e ↦ (err e, s)
      | none ↦ elim (lookup key s.destinations) [
        | none ↦ (err address_not_found, s)
        | some d ↦
            if not (d.user == user)
            then (err address_not_found, s)
            else if is_disabled d.status
            then (err address_disabled, s)
            else if not (is_usable cfg now d)
            then (err address_in_cooldown, s)
            else or_debit user key d id s (parse_amount cfg raw_amount)
      ]
    ]

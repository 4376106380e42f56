-- ===== src/Crypto/Columns.antt =====
-- How the columns of a withdrawal hang together (src/payment/crypto-withdrawal.service.ts).
use Prim.Native.String.{String}
use oro_backend.Base.{
  ℕ, ◌≡◌, ap, ◌∙◌, sym, inl, inr, Bool, true, false, ◌&&◌, ◌||◌, ◌==◌, Option, none, some, arith,
  ==_iff, Bool-cases, Option-cases, is_none, is_some,
}
use oro_backend.Base.Rows.{lookup, insert, lookup-insert}
use oro_backend.Crypto.Tables.{ApprovalStatus, CryptoWithdrawal, Store, RemoteStatus, is_approved}
use oro_backend.Crypto.Apply.{
  paid, failure, in_flight, phase_of, is_terminal, with_withdrawal, completed_row, held_row,
  seen_row, failed_row,
}

abbrev pub is_rejected : ApprovalStatus → Bool
is_rejected ApprovalStatus.rejected = true
is_rejected _ = false

-- How the columns of a row hang together: a completed row is terminal and not refunded, a refunded
-- one is terminal or rejected, a status comes from a payout, and only approved rows have one.
abbrev pub is_ok : CryptoWithdrawal → Bool
is_ok w =
    (is_none w.completed_at || (is_terminal w.remote_status && is_none w.restore_transaction))
    && ((is_none w.restore_transaction
          || (is_terminal w.remote_status || is_rejected w.approval_status))
        && ((is_some w.pay21_withdrawal || is_none w.remote_status)
            && (is_approved w.approval_status || is_none w.pay21_withdrawal)))

abbrev pub AllOkBut : (ℕ → Bool) → Store → Type 0
AllOkBut spared s =
    (k : ℕ) (row : CryptoWithdrawal)
    → lookup k s.withdrawals ≡ some row
    → spared k ≡ false
    → is_ok row ≡ true

abbrev pub AllOk : Store → Type 0
AllOk s = (k : ℕ) (row : CryptoWithdrawal) → lookup k s.withdrawals ≡ some row → is_ok row ≡ true

pub insert-AllOk :
    (key : ℕ) (new : CryptoWithdrawal) (s : Store)
    → AllOkBut (λ k. k == key) s
    → is_ok new ≡ true
    → (k : ℕ) (row : CryptoWithdrawal) → lookup k (insert key new s.withdrawals) ≡ some row
    → is_ok row ≡ true
insert-AllOk key new s h fine k row e =
    let written = lookup-insert k key new s.withdrawals in
    elim (Bool-cases (k == key)) [
      | inl here ↦
          let same : new ≡ row = ground (arith, written, here, e) in ap is_ok (sym same) ∙ fine
      | inr other ↦ h k row (ground (arith, written, other, e)) other
    ]

-- A change of the row under a key, the other rows being in order.
pub with_withdrawal-AllOk :
    (key : ℕ) (change : CryptoWithdrawal → CryptoWithdrawal) (s : Store)
    → AllOkBut (λ k. k == key) s
    → ((row : CryptoWithdrawal) → lookup key s.withdrawals ≡ some row → is_ok (change row) ≡ true)
    → AllOk (with_withdrawal key change s)
with_withdrawal-AllOk key change s h fine = elim (Option-cases (lookup key s.withdrawals)) [
  | inl absent ↦
      rw (absent, with_withdrawal)
        (λ k row e. elim (Bool-cases (k == key)) [
          | inl here ↦
              let at = (==_iff k key).0 here in
              let gone : none ≡ some row =
                sym absent ∙ ap (λ (j : ℕ). lookup j s.withdrawals) (sym at) ∙ e in
              cc
          | inr other ↦ h k row e other
        ])
  | inr (row, e) ↦ rw (e, with_withdrawal) (insert-AllOk key (change row) s h (fine row e))
]

pub AllOk-AllOkBut : (spared : ℕ → Bool) (s : Store) → AllOk s → AllOkBut spared s
AllOk-AllOkBut spared s h k row e _ = h k row e

pub completed_row_ok :
    (status : RemoteStatus) (h : Option String) (now : ℕ) (w : CryptoWithdrawal)
    → phase_of status ≡ paid
    → is_terminal w.remote_status ≡ false
    → is_some w.pay21_withdrawal ≡ true
    → is_ok w ≡ true
    → is_ok (completed_row status h now w) ≡ true
completed_row_ok status h now w done live sent fine = ground arith

pub held_row_ok :
    (status : RemoteStatus) (h : Option String) (w : CryptoWithdrawal)
    → phase_of status ≡ failure
    → is_terminal w.remote_status ≡ false
    → is_some w.pay21_withdrawal ≡ true
    → is_ok w ≡ true
    → is_ok (held_row status h w) ≡ true
held_row_ok status h w down live sent fine = ground arith

pub seen_row_ok :
    (status : RemoteStatus) (h : Option String) (w : CryptoWithdrawal)
    → phase_of status ≡ in_flight
    → is_terminal w.remote_status ≡ false
    → is_some w.pay21_withdrawal ≡ true
    → is_ok w ≡ true
    → is_ok (seen_row status h w) ≡ true
seen_row_ok status h w flying live sent fine = ground arith

-- Whatever the refund did to the row, the terminal status puts it in order.
pub failed_row_ok :
    (status : RemoteStatus) (w : CryptoWithdrawal) (restored : Option ℕ)
    → phase_of status ≡ failure
    → is_terminal w.remote_status ≡ false
    → is_some w.pay21_withdrawal ≡ true
    → is_ok w ≡ true
    → is_ok (failed_row status (record w { restore_transaction = restored })) ≡ true
failed_row_ok status w restored down live sent fine = ground arith

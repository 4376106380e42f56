-- ===== src/Withdrawal/Manual.antt =====
-- `resolveManually`: which payments an admin may close, and with what effect
-- (src/payment/dk-withdrawal.reconciler.ts).
use Prim.Native.String.{String}
use oro_backend.Base.{ℕ, ◌≡◌, ◌≢◌, ◌⊎◌, Bool, false, some, List, arith}
use oro_backend.Base.Int.{int_laws}
use oro_backend.Base.Rows.{lookup}
use oro_backend.Ledger.{TransactionType}
use oro_backend.Ledger.Balance.{ledger_balance}
use oro_backend.Withdrawal.Tables.{
  Payment, PaymentType, PaymentStatus, PaymentMethod, Store, ok, err, not_found, already_closed,
  has_row,
}
use oro_backend.Withdrawal.Finalise.{ManualVerdict, sent, not_sent, outcome_of, resolve_manually}
use oro_backend.Withdrawal.Closing.{Returned, ledger_balance-confirm_debit}

-- For a PROCESSING DK withdrawal without a refund row the admin's verdict is carried out: sent
-- moves no balance, not sent returns the amount to the user.
pub resolve_manually_closes :
    (key user : ℕ) (verdict : ManualVerdict) (admin : ℕ × List ℕ) (notify : Bool) (now : ℕ)
    (p : Payment) (s : Store) (currency : String)
    → lookup key s.payments ≡ some p
    → p.id ≡ key
    → p.type ≡ PaymentType.withdrawal
    → p.method ≡ PaymentMethod.dk_bank
    → p.status ≡ PaymentStatus.processing
    → has_row s.ledger key TransactionType.refund ≡ false
    → let r = resolve_manually key verdict admin notify now s in
      (r.0 ≡ ok (outcome_of verdict))
      × Returned (outcome_of verdict) p.user p.amount user currency s r.1
unfolding resolve_manually ledger_balance
resolve_manually_closes key user sent admin notify now p s currency e same t m st fresh =
    ground (arith, ledger_balance-confirm_debit p.id s.ledger user currency)
resolve_manually_closes key user not_sent admin notify now p s currency e same t m st fresh =
    grind int_laws

-- A payment that is no withdrawal, not by DK Bank or not PROCESSING is refused by a manual close,
-- and every table stays as it was.
pub resolve_manually_refuses :
    (key : ℕ) (verdict : ManualVerdict) (admin : ℕ × List ℕ) (notify : Bool) (now : ℕ) (p : Payment)
    (s : Store)
    → lookup key s.payments ≡ some p
    → (p.type ≢ PaymentType.withdrawal)
      ⊎ (p.method ≢ PaymentMethod.dk_bank)
      ⊎ (p.status ≢ PaymentStatus.processing)
    → ((resolve_manually key verdict admin notify now s) ≡ (err not_found, s))
      ⊎ ((resolve_manually key verdict admin notify now s) ≡ (err already_closed, s))
unfolding resolve_manually
resolve_manually_refuses key verdict admin notify now p s e other = ground arith

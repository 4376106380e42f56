-- ===== src/Revenue/Batches.antt =====
-- What a batch sends (src/markets/revenue-distribution.service.ts).
use text.Mathlib.Text.{◌==◌ as str_eq}
use oro_backend.Base.{ℕ, ◌+◌, ◌≡◌, refl, some, [], ◌∷◌, arith, if◌then◌else◌, keep}
use oro_backend.Base.Rows.{Rows}
use oro_backend.Ledger.{btn_currency}
use oro_backend.Revenue.Tables.{Distribution, Store, Gateway}
use oro_backend.Revenue.Transfer.{
  is_free_row, total_amount, or_active, batch_fate, process_all_pending,
}

-- The free fees of the table that are in ngultrum, and those that are not.
abbrev pub btn_fees : Rows Distribution → ℕ
btn_fees [] = 0
btn_fees (r ∷ rows) =
    (if is_free_row r then (if str_eq r.1.currency btn_currency then r.1.amount else 0) else 0)
    + btn_fees rows

abbrev pub other_fees : Rows Distribution → ℕ
other_fees [] = 0
other_fees (r ∷ rows) =
    (if is_free_row r then (if str_eq r.1.currency btn_currency then 0 else r.1.amount) else 0)
    + other_fees rows

total_amount-keep :
    (rows : Rows Distribution)
    → total_amount (keep is_free_row rows) ≡ btn_fees rows + other_fees rows
total_amount-keep [] = omega arith
total_amount-keep (r ∷ rows) = ground (arith, total_amount-keep rows)

-- When some fee is free and an account is known, a batch sends the sum of all free fees, those in
-- ngultrum and those in other currencies alike, as one transfer to one account.
pub sent_mixed :
    (gw : Gateway) (now account : ℕ) (d : ℕ × Distribution) (batch : Rows Distribution) (s : Store)
    → keep is_free_row s.distributions ≡ d ∷ batch
    → or_active d.1.public_account s.active_account ≡ some account
    → (process_all_pending gw now s).1.calls
      ≡ record {
        account = account;
        amount = btn_fees s.distributions + other_fees s.distributions;
        fate = batch_fate (
            gw.transfer_to_account account (btn_fees s.distributions + other_fees s.distributions));
      }
        ∷ s.calls
unfolding process_all_pending
sent_mixed gw now account d batch s e known =
    rw (e, process_all_pending) (rw known (rw (← total_amount-keep s.distributions) (rw e refl)))

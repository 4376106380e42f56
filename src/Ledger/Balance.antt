-- ===== src/Ledger/Balance.antt =====
-- Derived balances (src/shared/utils/ledger.util.ts).
use Prim.Native.String.{String}
use text.Mathlib.Text.{◌==◌ as str_eq}
use oro_backend.Base.{ℕ, List, [], ◌∷◌, ◌&&◌, ◌==◌, if◌then◌else◌}
use oro_backend.Base.Int.{ℤ, pos, ◌+ℤ◌}
use oro_backend.Ledger.{Transaction, btn_currency}

-- `COALESCE(SUM(t.amount), 0)` over the user's rows in one currency.
unfoldable pub ledger_balance : List Transaction → ℕ → String → ℤ
ledger_balance [] user currency = pos 0
ledger_balance (t ∷ ts) user currency =
    let rest = ledger_balance ts user currency in
    if t.user == user && str_eq t.currency currency then t.amount +ℤ rest else rest

-- All the ngultrum that the ledger holds, over every account.
unfoldable pub btn_total : List Transaction → ℤ
btn_total [] = pos 0
btn_total (t ∷ ts) =
    let rest = btn_total ts in if str_eq t.currency btn_currency then t.amount +ℤ rest else rest

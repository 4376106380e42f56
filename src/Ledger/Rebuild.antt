-- ===== src/Ledger/Rebuild.antt =====
-- `rebuildRunningBalances` (src/shared/utils/ledger.util.ts). The rows stand newest first, in the
-- order of `createdAt` and `id` that the window sums follow.
use Prim.Native.String.{String}
use text.Mathlib.Text.{◌==◌ as str_eq}
use oro_backend.Base.{ℕ, suc, Bool, List, [], ◌∷◌, ◌&&◌, ◌==◌, if◌then◌else◌}
use oro_backend.Base.Int.{ℤ, ◌+ℤ◌, eqb_ℤ}
use oro_backend.Ledger.{Transaction}
use oro_backend.Ledger.Balance.{ledger_balance}

abbrev pub is_of : ℕ → String → Transaction → Bool
is_of user currency t = t.user == user && str_eq t.currency currency

abbrev pub is_stamped : Transaction → ℤ → ℤ → Bool
is_stamped t before after = eqb_ℤ t.balance_before before && eqb_ℤ t.balance_after after

-- The rows, and how many of them changed.
unfoldable pub rebuild_running_balances : List Transaction → ℕ → String → ℕ × List Transaction
rebuild_running_balances [] user currency = (0, [])
rebuild_running_balances (t ∷ ts) user currency =
    let rest = rebuild_running_balances ts user currency in
    let before = ledger_balance ts user currency in
    let after = before +ℤ t.amount in
    if is_of user currency t
    then (if is_stamped t before after
        then (rest.0, t ∷ rest.1)
        else (suc rest.0, record t { balance_before = before; balance_after = after } ∷ rest.1))
    else (rest.0, t ∷ rest.1)

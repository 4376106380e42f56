-- ===== src/Ledger/Rebuilt.antt =====
-- What a rebuild of running balances leaves (src/shared/utils/ledger.util.ts).
use Prim.Native.String.{String}
use oro_backend.Base.{
  ℕ, true, List, [], ◌∷◌, ◌≡◌, ◌↔◌, refl, ap, inl, inr, Bool-cases, if◌then◌else◌, arith,
}
use oro_backend.Base.Int.{ℤ, ◌+ℤ◌, eqb_ℤ}
use oro_backend.Ledger.{Transaction}
use oro_backend.Ledger.Balance.{ledger_balance}
use oro_backend.Ledger.Rebuild.{is_of, is_stamped, rebuild_running_balances}

-- Every row of one account records the account's balance just before it and after it.
abbrev pub IsRunningFor : ℕ → String → List Transaction → Type 0
IsRunningFor user currency [] = Unit
IsRunningFor user currency (t ∷ ts) =
    (if is_of user currency t
      then ((t.balance_before ≡ ledger_balance ts user currency)
          × (t.balance_after ≡ ledger_balance ts user currency +ℤ t.amount))
      else Unit)
    × IsRunningFor user currency ts

stamped_eq :
    (t : Transaction) (before after : ℤ)
    → is_stamped t before after ≡ true
    → (t.balance_before ≡ before) × (t.balance_after ≡ after)
stamped_eq t before after h = (ground arith, ground arith)

eqb_refl : (a : ℤ) → eqb_ℤ a a ≡ true
eqb_refl a = ground arith

rebuild-ledger_balance :
    (ts : List Transaction) (user : ℕ) (currency : String) (u : ℕ) (c : String)
    → ledger_balance (rebuild_running_balances ts user currency).1 u c ≡ ledger_balance ts u c
unfolding rebuild_running_balances ledger_balance
rebuild-ledger_balance [] user currency u c = refl
rebuild-ledger_balance (t ∷ ts) user currency u c =
    let ih = rebuild-ledger_balance ts user currency u c in
    let before = ledger_balance ts user currency in
    elim (Bool-cases (is_of user currency t)) [
      | inr other ↦ rw (other, ih) refl
      | inl mine ↦ elim (Bool-cases (is_stamped t before (before +ℤ t.amount))) [
        | inl stamped ↦ rw (mine, stamped, ih) refl
        | inr stale ↦ rw (mine, stale, ih) refl
      ]
    ]

is_stamped_self :
    (t : Transaction) (before after : ℤ)
    → is_stamped (record t { balance_before = before; balance_after = after }) before after ≡ true
is_stamped_self t before after = rw (eqb_refl before, eqb_refl after) refl

rebuilt_rows :
    (ts : List Transaction) (user : ℕ) (currency : String)
    → IsRunningFor user currency (rebuild_running_balances ts user currency).1
unfolding rebuild_running_balances
rebuilt_rows [] user currency = tt
rebuilt_rows (t ∷ ts) user currency =
    let ih = rebuilt_rows ts user currency in
    let same = rebuild-ledger_balance ts user currency user currency in
    let before = ledger_balance ts user currency in
    elim (Bool-cases (is_of user currency t)) [
      | inr other ↦ rw (other, other) (tt, ih)
      | inl mine ↦ elim (Bool-cases (is_stamped t before (before +ℤ t.amount))) [
        | inl stamped ↦
            let (b, a) = stamped_eq t before (before +ℤ t.amount) stamped in
            rw (mine, stamped, mine, same) ((b, a), ih)
        | inr stale ↦ rw (mine, stale, mine, same) ((refl, refl), ih)
      ]
    ]

unchanged :
    (ts : List Transaction) (user : ℕ) (currency : String)
    → (rebuild_running_balances ts user currency).0 ≡ 0
    → IsRunningFor user currency ts
unfolding rebuild_running_balances
unchanged [] user currency h = tt
unchanged (t ∷ ts) user currency h =
    let before = ledger_balance ts user currency in
    elim (Bool-cases (is_of user currency t)) [
      | inr other ↦ rw (other) (tt, unchanged ts user currency (ground (arith, other, h)))
      | inl mine ↦ elim (Bool-cases (is_stamped t before (before +ℤ t.amount))) [
        | inl stamped ↦ rw (mine) (
          stamped_eq t before (before +ℤ t.amount) stamped,
          unchanged ts user currency (ground (arith, mine, stamped, h)),
        )
        | inr stale ↦ ground (arith, mine, stale, h)
      ]
    ]

rebuilt_again :
    (ts : List Transaction) (user : ℕ) (currency : String)
    → IsRunningFor user currency ts
    → rebuild_running_balances ts user currency ≡ (0, ts)
unfolding rebuild_running_balances
rebuilt_again [] user currency h = refl
rebuilt_again (t ∷ ts) user currency (here, h) =
    let ih = rebuilt_again ts user currency h in
    elim (Bool-cases (is_of user currency t)) [
      | inr other ↦ rw (other, ih) refl
      | inl mine ↦
          let before = ledger_balance ts user currency in
          let (b, a) : (t.balance_before ≡ before) × (t.balance_after ≡ before +ℤ t.amount) =
            rw mine at here in
          let stamped : is_stamped t before (before +ℤ t.amount) ≡ true =
            rw (b, a, eqb_refl before, eqb_refl (before +ℤ t.amount)) refl in
          rw (mine, stamped, ih) refl
    ]

-- A rebuild of the running balances of an account reports no changed row exactly when every row of
-- the account already records the account's balance just before it and after it.
pub rebuild_running_balances_iff :
    (ts : List Transaction) (user : ℕ) (currency : String)
    → (IsRunningFor user currency ts) ↔ ((rebuild_running_balances ts user currency).0 ≡ 0)
rebuild_running_balances_iff ts user currency = (
  λ h. ap (λ (x : ℕ × List Transaction). x.0) (rebuilt_again ts user currency h),
  λ h. unchanged ts user currency h,
)

-- A rebuild of the running balances of an account leaves every row of the account with the
-- account's balance just before it and after it, changes no balance of any account, and rebuilt
-- once more it changes no row.
pub rebuild_running_balances-IsRunningFor :
    (ts : List Transaction) (user : ℕ) (currency : String) (u : ℕ) (c : String)
    → let after = (rebuild_running_balances ts user currency).1 in
      IsRunningFor user currency after
      × (ledger_balance after u c ≡ ledger_balance ts u c)
      × (rebuild_running_balances after user currency ≡ (0, after))
rebuild_running_balances-IsRunningFor ts user currency u c =
    let rows = rebuilt_rows ts user currency in
    (rows, rebuild-ledger_balance ts user currency u c, rebuilt_again _ user currency rows)

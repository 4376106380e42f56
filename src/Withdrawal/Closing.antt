-- ===== src/Withdrawal/Closing.antt =====
-- What `finalise` does to the money, to the payment, and to later calls
-- (src/payment/dk-withdrawal.reconciler.ts).
use Prim.Native.String.{String}
use text.Mathlib.Text.{◌==◌ as str_eq}
use oro_backend.Base.{
  ℕ, ◌+◌, ◌≡◌, ◌≢◌, refl, inl, inr, Bool, true, false, ◌&&◌, ◌==◌, none, some, List, [], ◌∷◌, arith,
  Option-cases, if◌then◌else◌,
}
use oro_backend.Base.Int.{ℤ, pos, ◌+ℤ◌, int_laws}
use oro_backend.Base.Rows.{Rows, lookup, insert, lookup-insert_self}
use oro_backend.Ledger.{Transaction, btn_currency}
use oro_backend.Ledger.Balance.{ledger_balance, btn_total}
use oro_backend.Withdrawal.Tables.{Payment, PaymentStatus, BankResult, Store, ok}
use oro_backend.Withdrawal.Finalise.{Outcome, success, failed, Options, confirm_debit, finalise}

-- The money that a payment keeps out of the ledger: reserved, or sent to the bank.
abbrev pub keeps : PaymentStatus → Bool
keeps PaymentStatus.processing = true
keeps PaymentStatus.success = true
keeps _ = false

abbrev pub kept : Payment → ℕ
kept p = if keeps p.status then p.amount else 0

abbrev pub outside : Rows Payment → ℕ
outside [] = 0
outside (r ∷ rows) = kept r.1 + outside rows

abbrev pub money : Store → ℤ
money s = btn_total s.ledger +ℤ pos (outside s.payments)

pub outside-insert :
    (k : ℕ) (p old : Payment) (rows : Rows Payment)
    → lookup k rows ≡ some old
    → outside (insert k p rows) + kept old ≡ outside rows + kept p
outside-insert k p old [] e = cc
outside-insert k p old (r ∷ rows) e = ground (arith, outside-insert k p old rows)

btn_total-confirm_debit :
    (payment : ℕ) (ts : List Transaction) → btn_total (confirm_debit payment ts) ≡ btn_total ts
unfolding confirm_debit btn_total
btn_total-confirm_debit payment [] = refl
btn_total-confirm_debit payment (t ∷ ts) = ground (arith, btn_total-confirm_debit payment ts)

pub ledger_balance-confirm_debit :
    (payment : ℕ) (ts : List Transaction) (user : ℕ) (currency : String)
    → ledger_balance (confirm_debit payment ts) user currency ≡ ledger_balance ts user currency
unfolding confirm_debit ledger_balance
ledger_balance-confirm_debit payment [] user currency = refl
ledger_balance-confirm_debit payment (t ∷ ts) user currency =
    ground (arith, ledger_balance-confirm_debit payment ts user currency)

-- The payment in hand has the amount of its stored row.
abbrev pub SameAmount : Store → Payment → Type 0
SameAmount s p =
    (locked : Payment) → lookup p.id s.payments ≡ some locked → locked.amount ≡ p.amount

-- Closing a payment, when the copy in hand has the stored amount, keeps the sum of the ledger and
-- of the money that is reserved or sent.
pub finalise-money :
    (p : Payment) (verdict : Outcome) (result : BankResult) (opts : Options) (now : ℕ) (s : Store)
    → SameAmount s p
    → money (finalise p verdict result opts now s).1 ≡ money s
unfolding finalise btn_total
finalise-money p success result opts now s same = elim (Option-cases (lookup p.id s.payments)) [
  | inl absent ↦ ground arith
  | inr (l, e) ↦ grind (
    int_laws,
    λ (q : Payment). outside-insert p.id q l s.payments e,
    btn_total-confirm_debit l.id s.ledger,
  )
]
finalise-money p failed result opts now s same = elim (Option-cases (lookup p.id s.payments)) [
  | inl absent ↦ ground arith
  | inr (l, e) ↦ grind (int_laws, λ (q : Payment). outside-insert p.id q l s.payments e, same l e)
]

-- What a finalised payment did to a balance.
abbrev pub Returned : Outcome → ℕ → ℕ → ℕ → String → Store → Store → Type 0
Returned success payee amount user currency s s' =
    ledger_balance s'.ledger user currency ≡ ledger_balance s.ledger user currency
Returned failed payee amount user currency s s' =
    ledger_balance s'.ledger user currency
    ≡ ledger_balance s.ledger user currency
      +ℤ pos (if payee == user && str_eq btn_currency currency then amount else 0)

-- When the call closed the payment, the outcome is the verdict; a confirmed payment moves no
-- balance in any currency, and a failed one adds the amount to the ngultrum balance of its user
-- and moves no other balance.
pub finalise_returns :
    (p : Payment) (verdict : Outcome) (result : BankResult) (opts : Options) (now : ℕ) (s : Store)
    {outcome : Outcome} (user : ℕ) (currency : String)
    → (finalise p verdict result opts now s).0 ≡ ok (some outcome)
    → (outcome ≡ verdict)
      × Returned verdict p.user p.amount user currency s (finalise p verdict result opts now s).1
unfolding finalise ledger_balance
finalise_returns p success result opts now s user currency h =
    elim (Option-cases (lookup p.id s.payments)) [
      | inl absent ↦ ground arith
      | inr (l, e) ↦ ground (arith, ledger_balance-confirm_debit l.id s.ledger user currency)
    ]
finalise_returns p failed result opts now s user currency h = grind int_laws

-- A call that closed nothing changed nothing.
pub finalise_unclosed :
    (p : Payment) (verdict : Outcome) (result : BankResult) (opts : Options) (now : ℕ) (s : Store)
    → ((outcome : Outcome) → (finalise p verdict result opts now s).0 ≢ ok (some outcome))
    → (finalise p verdict result opts now s).1 ≡ s
unfolding finalise
finalise_unclosed p success result opts now s h = ground (arith, h success)
finalise_unclosed p failed result opts now s h = ground (arith, h failed)

-- After a call has closed a payment, every other call for it finds it closed and changes nothing.
pub finalise_once :
    (p q : Payment) (verdict verdict' : Outcome) (result result' : BankResult)
    (opts opts' : Options) (now now' : ℕ) (s : Store) {outcome : Outcome}
    → q.id ≡ p.id
    → (finalise p verdict result opts now s).0 ≡ ok (some outcome)
    → let s' = (finalise p verdict result opts now s).1 in
      finalise q verdict' result' opts' now' s' ≡ (ok none, s')
unfolding finalise
finalise_once p q success verdict' result result' opts opts' now now' s same h =
    grind (arith, lookup-insert_self)
finalise_once p q failed verdict' result result' opts opts' now now' s same h =
    grind (arith, lookup-insert_self)

-- ===== src/Withdrawal/Verdicts.antt =====
-- Which bank answers can return money (src/payment/dk-withdrawal.reconciler.ts,
-- src/payment/dk-status.util.ts).
use oro_backend.Base.{
  ℕ, ◌≡◌, ◌≢◌, refl, ◌⊎◌, inl, inr, Bool, true, some, List, [], ◌∷◌, ◌++◌, arith, Option-cases,
  exists_in, ==_refl,
}
use mathlib.Core.List.{Memᴰ}
use oro_backend.Base.Rows.{lookup}
use oro_backend.Ledger.{btn_currency}
use oro_backend.Ledger.Balance.{ledger_balance}
use oro_backend.Withdrawal.Tables.{
  Payment, Verdict, TransferAnswer, Answer, answered, raised, Gateway, BankResult, Store,
}
use oro_backend.Withdrawal.Status.{starts_with, includes_text, failure_markers, classify_dk_status}
use oro_backend.Withdrawal.Reconcile.{
  apply_answer, reconcile_one, stamp_metadata, new_core_handle, legacy_txn_id, ask_new_core,
  ask_legacy,
}
use oro_backend.Withdrawal.Closing.{ledger_balance-confirm_debit}

starts_with-append : (m t : List ℕ) → starts_with (m ++ t) m ≡ true
unfolding starts_with
starts_with-append [] [] = refl
starts_with-append [] (c ∷ t) = refl
starts_with-append (c ∷ m) t = rw (==_refl c, starts_with-append m t)

pub includes_text-append :
    (before m after : List ℕ) → includes_text (before ++ (m ++ after)) m ≡ true
unfolding includes_text
includes_text-append [] [] [] = refl
includes_text-append [] [] (c ∷ t) = refl
includes_text-append [] (c ∷ m) t = ground (arith, starts_with-append (c ∷ m) t)
includes_text-append (c ∷ b) m t = ground (arith, includes_text-append b m t)

exists_in_mem :
    (p : List ℕ → Bool) (m : List ℕ) (ms : List (List ℕ))
    → Memᴰ m ms
    → p m ≡ true
    → exists_in p ms ≡ true
exists_in_mem p m [] i h = elim i [ ]
exists_in_mem p m (x ∷ ms) (Memᴰ.head e) h = rw (rw e at h)
exists_in_mem p m (x ∷ ms) (Memᴰ.tail i) h = ground (arith, exists_in_mem p m ms i h)

-- A status whose upper-case text contains a failure word is read as a failure, whatever stands
-- around the word.
pub classify_dk_status_failure :
    (to_upper : List ℕ → List ℕ) (status before after marker : List ℕ)
    → Memᴰ marker failure_markers
    → to_upper status ≡ before ++ (marker ++ after)
    → classify_dk_status to_upper (some status) ≡ Verdict.failed
unfolding classify_dk_status
classify_dk_status_failure to_upper status before after marker which e =
    let found : includes_text (to_upper status) marker ≡ true =
      rw e (includes_text-append before marker after) in
    rw (exists_in_mem (λ m. includes_text (to_upper status) m) marker failure_markers which found)

-- The bank's answers when it rejects nothing: its verdict is no failure, and its status text
-- is not read as one.
pub record RejectsNothing (gw : Gateway) : Type 0 where
  pub transfers :
      (handle account : ℕ) (a : TransferAnswer)
      → gw.check_transfer_status handle account ≡ answered a
      → a.verdict ≢ Verdict.failed
  pub transactions :
      (txn : ℕ) (r : BankResult)
      → gw.check_transaction_status txn ≡ answered r
      → classify_dk_status gw.to_upper r.status ≢ Verdict.failed

abbrev IsRejection : Answer (Verdict × BankResult) → Type 0
IsRejection a = (r : BankResult) × (a ≡ answered (Verdict.failed, r))

Answer-cases :
    {A : Type 0} (a : Answer A) → ((x : A) × (a ≡ answered x)) ⊎ ((e : List ℕ) × (a ≡ raised e))
Answer-cases (answered x) = inl (x, refl)
Answer-cases (raised e) = inr (e, refl)

apply_answer_balance :
    (p : Payment) (a : Answer (Verdict × BankResult)) (now user : ℕ) (s : Store)
    → ¬ IsRejection a
    → ledger_balance (apply_answer p a now s).1.ledger user btn_currency
      ≡ ledger_balance s.ledger user btn_currency
unfolding apply_answer ledger_balance
apply_answer_balance p (raised e) now user s h = refl
apply_answer_balance p (answered (Verdict.pending, r)) now user s h = refl
apply_answer_balance p (answered (Verdict.failed, r)) now user s h = absurd (h (r, refl))
apply_answer_balance p (answered (Verdict.success, r)) now user s h =
    elim (Option-cases (lookup p.id s.payments)) [
      | inl absent ↦ ground arith
      | inr (l, e) ↦ ground (arith, ledger_balance-confirm_debit l.id s.ledger user btn_currency)
    ]

ask_new_core-IsRejection :
    (gw : Gateway) (handle : ℕ × ℕ) → RejectsNothing gw → ¬ IsRejection (ask_new_core gw handle)
ask_new_core-IsRejection gw (handle, account) h (r, q) =
    elim (Answer-cases (gw.check_transfer_status handle account)) [
      | inl (a, e) ↦ ground (arith, h.transfers handle account a e)
      | inr (m, e) ↦ ground arith
    ]

ask_legacy-IsRejection :
    (gw : Gateway) (txn : ℕ) → RejectsNothing gw → ¬ IsRejection (ask_legacy gw txn)
ask_legacy-IsRejection gw txn h (r, q) = elim (Answer-cases (gw.check_transaction_status txn)) [
  | inl (a, e) ↦ ground (arith, h.transactions txn a e)
  | inr (m, e) ↦ ground arith
]

-- When the bank rejects nothing, reconciling a payment changes no balance, whether the bank
-- confirms, is pending, or cannot be reached.
pub reconcile_one_without_rejection :
    (gw : Gateway) (p : Payment) (now user : ℕ) (s : Store)
    → RejectsNothing gw
    → ledger_balance (reconcile_one gw p now s).1.ledger user btn_currency
      ≡ ledger_balance s.ledger user btn_currency
unfolding reconcile_one stamp_metadata
reconcile_one_without_rejection gw p now user s h = elim (Option-cases (new_core_handle p)) [
  | inl absent ↦ elim (Option-cases (legacy_txn_id p)) [
    | inl no_txn ↦ ground arith
    | inr (txn, e) ↦ ground (
      arith,
      apply_answer_balance p (ask_legacy gw txn) now user s (ask_legacy-IsRejection gw txn h),
    )
  ]
  | inr (handle, e) ↦ ground (
    arith,
    apply_answer_balance p (ask_new_core gw handle) now user s
        (ask_new_core-IsRejection gw handle h),
  )
]

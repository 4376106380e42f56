-- ===== src/Withdrawal/Sweep.antt =====
-- The five-minute sweep as a whole (src/payment/dk-withdrawal.reconciler.ts).
use oro_backend.Base.{
  ℕ, zero, suc, ◌≡◌, refl, inl, inr, Bool, true, Option, none, some, [], ◌∷◌, arith, Bool-cases,
  Option-cases, ◌∙◌, keep, leb, get_or, ==_refl,
}
use oro_backend.Base.Int.{int_laws}
use oro_backend.Base.Rows.{Rows, lookup, insert, lookup-insert}
use oro_backend.Withdrawal.Tables.{
  Payment, Metadata, Verdict, Answer, answered, raised, Gateway, BankResult, Store, is_processing,
}
use oro_backend.Withdrawal.Finalise.{Outcome, success, failed, Options, finalise}
use oro_backend.Withdrawal.Reconcile.{
  apply_answer, reconcile_one, reconcile_all, stamp_metadata, new_core_handle, legacy_txn_id,
  ask_new_core, ask_legacy, insert_by_age, sort_by_age, take, is_stuck, stuck_payments,
  run_reconcile_stuck_withdrawals,
}
use oro_backend.Withdrawal.Closing.{money, outside-insert, SameAmount, finalise-money}

-- The amount that stands under a key.
abbrev pub amount_at : ℕ → Rows Payment → Option ℕ
amount_at k rows = elim (lookup k rows) [ none ↦ none | some p ↦ some p.amount ]

abbrev pub HasAmount : Rows Payment → Payment → Type 0
HasAmount rows p = amount_at p.id rows ≡ some p.amount

HasAmount-SameAmount : (s : Store) (p : Payment) → HasAmount s.payments p → SameAmount s p
HasAmount-SameAmount s p h locked f = ground arith

amount_at-insert :
    (j k : ℕ) (old new : Payment) (rows : Rows Payment)
    → lookup k rows ≡ some old
    → new.amount ≡ old.amount
    → amount_at j (insert k new rows) ≡ amount_at j rows
amount_at-insert j k old new rows e same = ground (arith, lookup-insert j k new rows)

stamp_metadata-money :
    (p : Payment) (m : Metadata) (s : Store) → money (stamp_metadata p m s) ≡ money s
unfolding stamp_metadata
stamp_metadata-money p m s = elim (Option-cases (lookup p.id s.payments)) [
  | inl absent ↦ ground arith
  | inr (row, e) ↦
      grind (int_laws, outside-insert p.id (record row { metadata = m }) row s.payments e)
]

apply_answer-money :
    (p : Payment) (a : Answer (Verdict × BankResult)) (now : ℕ) (s : Store)
    → SameAmount s p
    → money (apply_answer p a now s).1 ≡ money s
unfolding apply_answer
apply_answer-money p (raised e) now s h = stamp_metadata-money p _ s
apply_answer-money p (answered (Verdict.pending, r)) now s h = stamp_metadata-money p _ s
apply_answer-money p (answered (Verdict.success, r)) now s h =
    ground (arith, finalise-money p success r (record { manual = none; notify = true }) now s h)
apply_answer-money p (answered (Verdict.failed, r)) now s h =
    ground (arith, finalise-money p failed r (record { manual = none; notify = true }) now s h)

stamp_metadata_amounts :
    (p : Payment) (m : Metadata) (j : ℕ) (s : Store)
    → amount_at j (stamp_metadata p m s).payments ≡ amount_at j s.payments
unfolding stamp_metadata
stamp_metadata_amounts p m j s = elim (Option-cases (lookup p.id s.payments)) [
  | inl absent ↦ rw (absent, stamp_metadata)
  | inr (row, e) ↦
      rw (e, stamp_metadata)
        (amount_at-insert j p.id row (record row { metadata = m }) s.payments e refl)
]

finalise_amounts :
    (p : Payment) (verdict : Outcome) (r : BankResult) (opts : Options) (now j : ℕ) (s : Store)
    → amount_at j (finalise p verdict r opts now s).1.payments ≡ amount_at j s.payments
unfolding finalise
finalise_amounts p success r opts now j s = elim (Option-cases (lookup p.id s.payments)) [
  | inl absent ↦ rw (absent, finalise)
  | inr (l, e) ↦ elim (Bool-cases (is_processing l.status)) [
    | inl held ↦ rw (e, finalise) (rw held (grind (arith, amount_at-insert)))
    | inr over ↦ rw (e, finalise) (rw over)
  ]
]
finalise_amounts p failed r opts now j s = elim (Option-cases (lookup p.id s.payments)) [
  | inl absent ↦ rw (absent, finalise)
  | inr (l, e) ↦ elim (Bool-cases (is_processing l.status)) [
    | inl held ↦ rw (e, finalise) (rw held (grind (arith, amount_at-insert)))
    | inr over ↦ rw (e, finalise) (rw over)
  ]
]

apply_answer_amounts :
    (p : Payment) (a : Answer (Verdict × BankResult)) (now j : ℕ) (s : Store)
    → amount_at j (apply_answer p a now s).1.payments ≡ amount_at j s.payments
unfolding apply_answer
apply_answer_amounts p (raised e) now j s = stamp_metadata_amounts p _ j s
apply_answer_amounts p (answered (Verdict.pending, r)) now j s = stamp_metadata_amounts p _ j s
apply_answer_amounts p (answered (Verdict.success, r)) now j s =
    ground (arith, finalise_amounts p success r (record { manual = none; notify = true }) now j s)
apply_answer_amounts p (answered (Verdict.failed, r)) now j s =
    ground (arith, finalise_amounts p failed r (record { manual = none; notify = true }) now j s)

-- The two facts of a round, by where the payment's handle leads.
reconcile_one_facts :
    (gw : Gateway) (p : Payment) (now j : ℕ) (s : Store)
    → SameAmount s p
    → (money (reconcile_one gw p now s).1 ≡ money s)
      × (amount_at j (reconcile_one gw p now s).1.payments ≡ amount_at j s.payments)
unfolding reconcile_one
reconcile_one_facts gw p now j s h = elim (Option-cases (new_core_handle p)) [
  | inl absent ↦ elim (Option-cases (legacy_txn_id p)) [
    | inl no_txn ↦
        let warned : Metadata = record p.metadata { warned_at = now } in
        ground (arith, stamp_metadata-money p warned s, stamp_metadata_amounts p warned j s)
    | inr (txn, e) ↦
        let a = ask_legacy gw txn in
        ground (arith, apply_answer-money p a now s h, apply_answer_amounts p a now j s)
  ]
  | inr (handle, e) ↦
      let a = ask_new_core gw handle in
      ground (arith, apply_answer-money p a now s h, apply_answer_amounts p a now j s)
]

-- Every row of the list has the amount that stands under its key.
abbrev Known : Rows Payment → Rows Payment → Type 0
Known table [] = Unit
Known table (r ∷ rows) = HasAmount table r.1 × Known table rows

reconcile_one-Known :
    (gw : Gateway) (p : Payment) (now : ℕ) (s : Store) (rows : Rows Payment)
    → SameAmount s p
    → Known s.payments rows
    → Known (reconcile_one gw p now s).1.payments rows
reconcile_one-Known gw p now s [] h k = tt
reconcile_one-Known gw p now s (r ∷ rows) h k =
    ((reconcile_one_facts gw p now r.1.id s h).1 ∙ k.0, reconcile_one-Known gw p now s rows h k.1)

reconcile_all-money :
    (gw : Gateway) (rows : Rows Payment) (now : ℕ) (s : Store)
    → Known s.payments rows
    → money (reconcile_all gw rows now s) ≡ money s
unfolding reconcile_all
reconcile_all-money gw [] now s k = refl
reconcile_all-money gw (r ∷ rows) now s k =
    let h = HasAmount-SameAmount s r.1 k.0 in
    reconcile_all-money gw rows now (reconcile_one gw r.1 now s).1
      (reconcile_one-Known gw r.1 now s rows h k.1)
    ∙ (reconcile_one_facts gw r.1 now 0 s h).0

keep-Known :
    (table : Rows Payment) (test : ℕ × Payment → Bool) (rows : Rows Payment)
    → Known table rows
    → Known table (keep test rows)
keep-Known table test [] k = tt
keep-Known table test (r ∷ rows) k = elim (Bool-cases (test r)) [
  | inl kept_row ↦ rw kept_row (k.0, keep-Known table test rows k.1)
  | inr dropped ↦ rw dropped (keep-Known table test rows k.1)
]

insert_by_age-Known :
    (table : Rows Payment) (r : ℕ × Payment) (rows : Rows Payment)
    → HasAmount table r.1
    → Known table rows
    → Known table (insert_by_age r rows)
unfolding insert_by_age
insert_by_age-Known table r [] h k = (h, tt)
insert_by_age-Known table r (q ∷ rows) h k =
    elim (Bool-cases (leb (get_or r.1.created_at 0) (get_or q.1.created_at 0))) [
      | inl older ↦ rw older (h, k)
      | inr younger ↦ rw younger (k.0, insert_by_age-Known table r rows h k.1)
    ]

sort_by_age-Known : (table rows : Rows Payment) → Known table rows → Known table (sort_by_age rows)
unfolding sort_by_age
sort_by_age-Known table [] k = tt
sort_by_age-Known table (r ∷ rows) k =
    insert_by_age-Known table r (sort_by_age rows) k.0 (sort_by_age-Known table rows k.1)

take-Known :
    (table : Rows Payment) (n : ℕ) (rows : Rows Payment)
    → Known table rows
    → Known table (take n rows)
take-Known table zero rows k = tt
take-Known table (suc n) [] k = tt
take-Known table (suc n) (r ∷ rows) k = (k.0, take-Known table n rows k.1)

-- A payment stands under its own key, and a key stands once.
abbrev pub IsKeyed : Rows Payment → Type 0
IsKeyed [] = Unit
IsKeyed ((k, p) ∷ rows) = (p.id ≡ k) × (lookup k rows ≡ none) × IsKeyed rows

Known-cons :
    (x : ℕ × Payment) (table rows : Rows Payment)
    → lookup x.0 rows ≡ none
    → IsKeyed rows
    → Known table rows
    → Known (x ∷ table) rows
Known-cons x table [] absent keyed k = tt
Known-cons x table (r ∷ rows) absent keyed k =
    (ground (arith, ==_refl x.0), Known-cons x table rows (ground arith) keyed.2 k.1)

Known-self : (rows : Rows Payment) → IsKeyed rows → Known rows rows
Known-self [] keyed = tt
Known-self (r ∷ rows) keyed =
    (ground (arith, ==_refl r.0), Known-cons r rows rows keyed.1 keyed.2 (Known-self rows keyed.2))

-- When every payment stands under its own key once, a sweep over the stuck withdrawals, whatever
-- the bank answers, keeps the sum of the ledger and of the money that is reserved or sent.
pub run_reconcile_stuck_withdrawals-money :
    (gw : Gateway) (now : ℕ) (s : Store)
    → IsKeyed s.payments
    → money (run_reconcile_stuck_withdrawals gw now s) ≡ money s
unfolding run_reconcile_stuck_withdrawals
run_reconcile_stuck_withdrawals-money gw now s keyed = elim (Bool-cases s.running) [
  | inl busy ↦ ground arith
  | inr idle ↦
      let started : Store = record s { running = true } in
      let known : Known s.payments (stuck_payments now started) =
        unfold stuck_payments in
        take-Known s.payments 50 (sort_by_age (keep (is_stuck now) s.payments)) (
          sort_by_age-Known s.payments (keep (is_stuck now) s.payments)
            (keep-Known s.payments (is_stuck now) s.payments (Known-self s.payments keyed))) in
      ground (arith, reconcile_all-money gw (stuck_payments now started) now started known)
]

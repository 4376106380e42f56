-- ===== src/Crypto/News.antt =====
-- News of the provider leave the columns of a withdrawal in order
-- (src/payment/crypto-withdrawal.service.ts).
use Prim.Native.String.{String}
use mathlib.Core.Path.{subst}
use oro_backend.Base.{
  ℕ, ◌≡◌, refl, ap, ◌∙◌, sym, inl, inr, ◌⊎◌, Bool, true, false, ◌==◌, ◌∷◌, length, Option, some,
  arith, Bool-cases, Option-cases, is_some,
}
use oro_backend.Base.Rows.{lookup, insert, lookup-insert, lookup-insert_self}
use oro_backend.Crypto.Tables.{CryptoWithdrawal, Store, RemoteStatus, Remote, Result, ok, err}
use oro_backend.Crypto.Apply.{
  Phase, paid, failure, in_flight, phase_of, is_terminal, is_broadcast, or_hash, post_refund,
  returned_row, restore, with_withdrawal, completed_row, held_row, seen_row, failed_row, then_fail,
  apply_phase, apply_loaded, apply_remote_state,
}
use oro_backend.Crypto.Columns.{
  is_ok, AllOkBut, AllOk, with_withdrawal-AllOk, AllOk-AllOkBut, completed_row_ok, held_row_ok,
  seen_row_ok, failed_row_ok,
}

abbrev pub refunded_row : CryptoWithdrawal → Store → CryptoWithdrawal
refunded_row row s = record row { restore_transaction = some (length s.ledger) }

abbrev pub refunded : ℕ → CryptoWithdrawal → CryptoWithdrawal → Store → Store
refunded key w row s = record s {
  ledger = returned_row w s.ledger ∷ s.ledger;
  withdrawals = insert key (refunded_row row s) s.withdrawals;
}

-- What a refund comes to.
pub post_refund_cases :
    (key : ℕ) (w row : CryptoWithdrawal) (s : Store)
    → lookup key s.withdrawals ≡ some row
    → ((post_refund key w s).1 ≡ s) ⊎ (post_refund key w s ≡ (ok true, refunded key w row s))
unfolding post_refund
post_refund_cases key w row s e = elim (Option-cases (lookup w.user s.accounts)) [
  | inl nobody ↦ inl (rw (nobody, post_refund) refl)
  | inr (a, known) ↦ elim (Option-cases row.restore_transaction) [
    | inl held_back ↦ inr (rw (known, e, held_back, post_refund) refl)
    | inr (t, done) ↦ inl (rw (known, e, done, post_refund) refl)
  ]
]

refunded-AllOkBut :
    (key : ℕ) (w row : CryptoWithdrawal) (s : Store)
    → AllOk s
    → AllOkBut (λ k. k == key) (refunded key w row s)
refunded-AllOkBut key w row s h k found e other =
    let written = lookup-insert k key (refunded_row row s) s.withdrawals in
    h k found (ground (arith, written, other, e))

-- A stored row that the provider has not finished.
pub record IsLive (key : ℕ) (w : CryptoWithdrawal) (s : Store) : Type 0 where
  pub stored : lookup key s.withdrawals ≡ some w
  pub live : is_terminal w.remote_status ≡ false
  pub sent : is_some w.pay21_withdrawal ≡ true

failing-AllOk :
    (key : ℕ) (w : CryptoWithdrawal) (status : RemoteStatus) (s : Store)
    → IsLive key w s
    → phase_of status ≡ failure
    → AllOk s
    → AllOk (with_withdrawal key (failed_row status) s)
failing-AllOk key w status s l down h =
    with_withdrawal-AllOk key (failed_row status) s (AllOk-AllOkBut (λ k. k == key) s h) (λ row e.
      let same : w ≡ row = ground (arith, l.stored, e) in
      let fine = h key w l.stored in
      ap (λ (v : CryptoWithdrawal). is_ok (failed_row status v)) (sym same)
      ∙ failed_row_ok status w w.restore_transaction down l.live l.sent fine)

then_fail-AllOk :
    (key : ℕ) (w : CryptoWithdrawal) (status : RemoteStatus) (s : Store) (r : Result Bool × Store)
    → r.1 ≡ s
    → IsLive key w s
    → phase_of status ≡ failure
    → AllOk s
    → AllOk (then_fail key status r).1
then_fail-AllOk key w status s (ok b, t) p l down h =
    subst (λ (x : Store). AllOk (with_withdrawal key (failed_row status) x)) (sym p)
      (failing-AllOk key w status s l down h)
then_fail-AllOk key w status s (err e, t) p l down h = subst (λ (x : Store). AllOk x) (sym p) h

refunded-AllOk :
    (key : ℕ) (w : CryptoWithdrawal) (status : RemoteStatus) (s : Store)
    → IsLive key w s
    → phase_of status ≡ failure
    → AllOk s
    → AllOk (with_withdrawal key (failed_row status) (refunded key w w s))
refunded-AllOk key w status s l down h =
    let s' = refunded key w w s in
    with_withdrawal-AllOk key (failed_row status) s' (refunded-AllOkBut key w w s h) (λ row e.
      let there = lookup-insert_self key (refunded_row w s) s.withdrawals in
      let same : refunded_row w s ≡ row = ground (arith, there, e) in
      ap (λ (v : CryptoWithdrawal). is_ok (failed_row status v)) (sym same)
      ∙ failed_row_ok status w (some (length s.ledger)) down l.live l.sent (h key w l.stored))

restored-AllOk :
    (key : ℕ) (w : CryptoWithdrawal) (status : RemoteStatus) (s : Store)
    → IsLive key w s
    → phase_of status ≡ failure
    → AllOk s
    → AllOk (then_fail key status (restore key w s)).1
unfolding restore
restored-AllOk key w status s l down h = elim (Bool-cases (is_some w.restore_transaction)) [
  | inl done ↦ rw done (failing-AllOk key w status s l down h)
  | inr fresh ↦ rw fresh (elim (post_refund_cases key w w s l.stored) [
    | inl nothing ↦ then_fail-AllOk key w status s (post_refund key w s) nothing l down h
    | inr posted ↦ rw posted (refunded-AllOk key w status s l down h)
  ])
]

live-AllOk :
    (key : ℕ) (w : CryptoWithdrawal) (change : CryptoWithdrawal → CryptoWithdrawal) (s : Store)
    → IsLive key w s
    → is_ok (change w) ≡ true
    → AllOk s
    → AllOk (with_withdrawal key change s)
live-AllOk key w change s l fine h =
    with_withdrawal-AllOk key change s (AllOk-AllOkBut (λ k. k == key) s h) (λ row e.
      let same : w ≡ row = ground (arith, l.stored, e) in
      ap (λ (v : CryptoWithdrawal). is_ok (change v)) (sym same) ∙ fine)

apply_phase-AllOk :
    (phase : Phase) (key : ℕ) (w : CryptoWithdrawal) (status : RemoteStatus) (hash : Option String)
    (now : ℕ) (s : Store)
    → phase_of status ≡ phase
    → IsLive key w s
    → AllOk s
    → AllOk (apply_phase phase key w status hash now s).1
apply_phase-AllOk paid key w status hash now s p l h =
    live-AllOk key w (completed_row status hash now) s l
      (completed_row_ok status hash now w p l.live l.sent (h key w l.stored)) h
apply_phase-AllOk failure key w status hash now s p l h = elim (Bool-cases (is_broadcast hash)) [
  | inl out ↦ rw out (
      live-AllOk key w (held_row status hash) s l
        (held_row_ok status hash w p l.live l.sent (h key w l.stored)) h)
  | inr never ↦ rw never (restored-AllOk key w status s l p h)
]
apply_phase-AllOk in_flight key w status hash now s p l h =
    live-AllOk key w (seen_row status hash) s l
      (seen_row_ok status hash w p l.live l.sent (h key w l.stored)) h

-- A row that is stored with a payout stays in order under what the provider says.
pub apply_remote_state-AllOk :
    (key : ℕ) (r : Remote) (now : ℕ) (s : Store)
    → ((w : CryptoWithdrawal)
        → lookup key s.withdrawals ≡ some w
        → is_some w.pay21_withdrawal ≡ true)
    → AllOk s
    → AllOk (apply_remote_state key r now s).1
unfolding apply_remote_state apply_loaded
apply_remote_state-AllOk key r now s sent h = elim (Option-cases (lookup key s.withdrawals)) [
  | inl absent ↦ rw (absent, apply_remote_state) h
  | inr (w, e) ↦ elim (Bool-cases (is_terminal w.remote_status)) [
    | inl over ↦ rw (e, apply_remote_state) (rw over h)
    | inr live ↦
        rw (e, apply_remote_state)
          (rw live (
            apply_phase-AllOk (phase_of r.status) key w r.status (or_hash r.tx_hash w.tx_hash) now s
              refl (record { stored = e; live = live; sent = sent w e }) h))
  ]
]

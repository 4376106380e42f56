-- ===== src/Crypto/Once.antt =====
-- A withdrawal is decided once (src/payment/crypto-withdrawal.service.ts).
use Prim.Native.String.{String}
use oro_backend.Base.{
  ℕ, ◌≡◌, refl, ap, ◌∙◌, sym, inl, inr, Bool, ◌==◌, Option, none, some, arith, Bool-cases,
  Option-cases, is_some,
}
use oro_backend.Base.Rows.{lookup, lookup-insert_self}
use oro_backend.Crypto.Tables.{
  CryptoWithdrawal, Store, RemoteStatus, Answer, accepted, refused, unreachable, Client, Config,
  Result, ok, err, is_definite_refusal,
}
use oro_backend.Crypto.Addresses.{refuses_payout}
use oro_backend.Crypto.Apply.{
  Phase, paid, failure, in_flight, phase_of, is_terminal, is_broadcast, or_hash, post_refund,
  restore, with_withdrawal, completed_row, held_row, seen_row, failed_row, then_fail, apply_phase,
  apply_loaded, apply_remote_state,
}
use oro_backend.Crypto.Decide.{
  ask_payout, reviewed_row, adopted_row, take_answer, submit, approved_row, claim, approve_loaded,
  reject_loaded, rejected_row,
}
use oro_backend.Crypto.News.{refunded_row, post_refund_cases}
use oro_backend.Crypto.Decisions.{IsApproved, changed_row, claim_won}

IsApproved-change :
    (key : ℕ) (change : CryptoWithdrawal → CryptoWithdrawal) (s : Store)
    → ((row : CryptoWithdrawal) → (change row).approval_status ≡ row.approval_status)
    → IsApproved key s
    → IsApproved key (with_withdrawal key change s)
IsApproved-change key change s keep h row e =
    let (old, stored, changed) = changed_row key change s row e in
    ground (arith, changed, keep old, h old stored)

post_refund-IsApproved :
    (key : ℕ) (w row : CryptoWithdrawal) (s : Store)
    → lookup key s.withdrawals ≡ some row
    → IsApproved key s
    → IsApproved key (post_refund key w s).1
post_refund-IsApproved key w row s e h found there = elim (post_refund_cases key w row s e) [
  | inl nothing ↦ h found (ap (λ (t : Store). lookup key t.withdrawals) (sym nothing) ∙ there)
  | inr posted ↦
      let written = lookup-insert_self key (refunded_row row s) s.withdrawals in
      let moved = ap (λ (r : Result Bool × Store). lookup key r.1.withdrawals) posted in
      ground (arith, written, moved, there, h row e)
]

then_fail-IsApproved :
    (key : ℕ) (status : RemoteStatus) (r : Result Bool × Store)
    → IsApproved key r.1
    → IsApproved key (then_fail key status r).1
then_fail-IsApproved key status (ok b, t) h =
    IsApproved-change key (failed_row status) t (λ row. refl) h
then_fail-IsApproved key status (err e, t) h = h

apply_phase-IsApproved :
    (phase : Phase) (key : ℕ) (w : CryptoWithdrawal) (status : RemoteStatus) (hash : Option String)
    (now : ℕ) (s : Store)
    → lookup key s.withdrawals ≡ some w
    → IsApproved key s
    → IsApproved key (apply_phase phase key w status hash now s).1
unfolding restore
apply_phase-IsApproved paid key w status hash now s e h =
    IsApproved-change key (completed_row status hash now) s (λ row. ground arith) h
apply_phase-IsApproved failure key w status hash now s e h = elim (Bool-cases (is_broadcast hash)) [
  | inl out ↦ rw out (IsApproved-change key (held_row status hash) s (λ row. refl) h)
  | inr never ↦ rw never (
      then_fail-IsApproved key status (restore key w s)
        (elim (Bool-cases (is_some w.restore_transaction)) [
          | inl done ↦ rw done h
          | inr first ↦ rw first (post_refund-IsApproved key w w s e h)
        ]))
]
apply_phase-IsApproved in_flight key w status hash now s e h =
    IsApproved-change key (seen_row status hash) s (λ row. refl) h

take_answer-IsApproved :
    (key : ℕ) (a : Answer) (now : ℕ) (s : Store)
    → (take_answer key a now s).0 ≡ ok tt
    → IsApproved key s
    → IsApproved key (take_answer key a now s).1
unfolding take_answer apply_remote_state apply_loaded
take_answer-IsApproved key (accepted r) now s fine h =
    let adopted = with_withdrawal key (adopted_row r.id) s in
    let held = IsApproved-change key (adopted_row r.id) s (λ row. ground arith) h in
    elim (Option-cases (lookup key adopted.withdrawals)) [
      | inl absent ↦ rw (absent, take_answer, apply_remote_state) held
      | inr (w, e) ↦ elim (Bool-cases (is_terminal w.remote_status)) [
        | inl over ↦ rw (e, take_answer, apply_remote_state) (rw over held)
        | inr live ↦
            rw (e, take_answer, apply_remote_state)
              (rw live (
                apply_phase-IsApproved (phase_of r.status) key w r.status
                  (or_hash r.tx_hash w.tx_hash) now adopted e held))
      ]
    ]
take_answer-IsApproved key (refused status) now s fine h =
    elim (Bool-cases (is_definite_refusal status)) [
      | inl definite ↦ absurd (ground (arith, definite, fine))
      | inr vague ↦ elim (Bool-cases (status == 409)) [
        | inl conflict ↦
            rw (vague, conflict, take_answer) (IsApproved-change key reviewed_row s (λ row. refl) h)
        | inr other ↦ rw (vague, other, take_answer) h
      ]
    ]
take_answer-IsApproved key unreachable now s fine h = h

-- A row that is decided is claimed by nobody.
claim_lost :
    (key : ℕ) (change : CryptoWithdrawal → CryptoWithdrawal) (s : Store)
    → IsApproved key s
    → claim key change s ≡ none
claim_lost key change s h = elim (Option-cases (lookup key s.withdrawals)) [
  | inl absent ↦ rw (absent, claim) refl
  | inr (row, e) ↦ rw (e, claim) (ground (arith, h row e))
]

approve_loaded_lost :
    (cfg : Config) (client : Client) (admin key : ℕ) (w : CryptoWithdrawal) (now : ℕ) (s : Store)
    → claim key (approved_row admin cfg.payout_kind now) s ≡ none
    → (approve_loaded cfg client admin key w now s).1 ≡ s
unfolding approve_loaded
approve_loaded_lost cfg client admin key w now s lost = elim (Bool-cases (w.user == admin)) [
  | inl own ↦ rw (own, approve_loaded) refl
  | inr other ↦ elim (Option-cases (lookup w.destination s.destinations)) [
    | inl absent ↦ rw (other, absent, approve_loaded) refl
    | inr (d, e) ↦ elim (Option-cases (refuses_payout cfg now cfg.payout_kind d)) [
      | inr (reason, refusal) ↦ rw (other, e, refusal, approve_loaded) refl
      | inl sendable ↦ rw (other, e, sendable, lost, approve_loaded) refl
    ]
  ]
]

reject_loaded_lost :
    (admin key : ℕ) (w : CryptoWithdrawal) (s : Store)
    → claim key (rejected_row admin) s ≡ none
    → (reject_loaded admin key w s).1 ≡ s
unfolding reject_loaded
reject_loaded_lost admin key w s lost = elim (Bool-cases (is_some w.restore_transaction)) [
  | inl done ↦ rw (done, reject_loaded) refl
  | inr fresh ↦ rw (fresh, lost, reject_loaded) refl
]

approve_loaded-IsApproved :
    (cfg : Config) (client : Client) (admin key : ℕ) (w : CryptoWithdrawal) (now : ℕ) (s : Store)
    → (approve_loaded cfg client admin key w now s).0 ≡ ok tt
    → IsApproved key (approve_loaded cfg client admin key w now s).1
unfolding approve_loaded submit
approve_loaded-IsApproved cfg client admin key w now s fine = elim (Bool-cases (w.user == admin)) [
  | inl own ↦ absurd (ground (arith, own, fine))
  | inr other ↦ elim (Option-cases (lookup w.destination s.destinations)) [
    | inl absent ↦ absurd (ground (arith, other, absent, fine))
    | inr (d, e) ↦ elim (Option-cases (refuses_payout cfg now cfg.payout_kind d)) [
      | inr (reason, refusal) ↦ absurd (ground (arith, other, e, refusal, fine))
      | inl sendable ↦
          let change = approved_row admin cfg.payout_kind now in
          elim (Option-cases (claim key change s)) [
            | inl lost ↦ absurd (ground (arith, other, e, sendable, lost, fine))
            | inr (s', won) ↦
                let (row, stored, waiting, written) = claim_won key change s s' won in
                let there = lookup-insert_self key (change row) s.withdrawals in
                let a = ask_payout client (change w) d in
                let sent : (take_answer key a now s').0 ≡ ok tt =
                  ground (arith, other, e, sendable, won, fine) in
                rw (other, e, sendable, won, approve_loaded)
                  (take_answer-IsApproved key a now s' sent
                    (λ found at. ground (arith, written, at, there)))
          ]
    ]
  ]
]

-- Where an approval of a withdrawal, from whatever copy, has returned normally, an approval or a
-- rejection of it that comes next, from whatever copy, changes nothing.
pub approve_loaded_once :
    (cfg cfg' : Config) (client client' : Client) (admin admin' key : ℕ) (w w' : CryptoWithdrawal)
    (now now' : ℕ) (s : Store)
    → (approve_loaded cfg client admin key w now s).0 ≡ ok tt
    → let s' = (approve_loaded cfg client admin key w now s).1 in
      ((approve_loaded cfg' client' admin' key w' now' s').1 ≡ s')
      × ((reject_loaded admin' key w' s').1 ≡ s')
approve_loaded_once cfg cfg' client client' admin admin' key w w' now now' s fine =
    let s' = (approve_loaded cfg client admin key w now s).1 in
    let decided = approve_loaded-IsApproved cfg client admin key w now s fine in
    (
      approve_loaded_lost cfg' client' admin' key w' now' s'
          (claim_lost key (approved_row admin' cfg'.payout_kind now') s' decided),
      reject_loaded_lost admin' key w' s' (claim_lost key (rejected_row admin') s' decided),
    )

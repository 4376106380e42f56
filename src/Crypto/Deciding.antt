-- ===== src/Crypto/Deciding.antt =====
-- Requests, decisions, submissions and webhooks keep the money
-- (src/payment/crypto-withdrawal.service.ts).
use oro_backend.Base.{
  ℕ, ◌≡◌, refl, ◌⊎◌, inl, inr, Bool, true, false, ◌==◌, none, some, arith, Bool-cases, Option-cases,
  is_some,
}
use oro_backend.Base.Int.{int_laws}
use oro_backend.Base.Rows.{lookup, lookup-insert}
use oro_backend.Ledger.Balance.{ledger_balance}
use oro_backend.Crypto.Tables.{
  CryptoWithdrawal, IdempotencyKey, Destination, Store, Remote, Answer, accepted, refused,
  unreachable, Client, Config, Result, ok, err, is_pending, is_definite_refusal,
}
use oro_backend.Crypto.Request.{debit, new_withdrawal}
use oro_backend.Crypto.Addresses.{refuses_payout}
use oro_backend.Crypto.Apply.{with_withdrawal, post_refund, apply_remote_state}
use oro_backend.Crypto.Decide.{
  ask_payout, requeued_row, reviewed_row, adopted_row, take_answer, submit, approved_row,
  rejected_row, claim, approve_loaded, or_roll_back, reject_loaded,
}
use oro_backend.Crypto.Deliver.{poll_payout}
use oro_backend.Crypto.Money.{
  held_total-insert_new, wealth, IsFresh, IsCopy, Keeps, Sound, Sound-refl, Sound-trans,
  with_withdrawal-Sound, post_refund-Sound, apply_loaded-Sound,
}

pub debit-money :
    (user payer key : ℕ) (d : Destination) (amount : ℕ) (id : IdempotencyKey) (s : Store)
    → lookup s.next_withdrawal s.withdrawals ≡ none
    → wealth user (debit payer key d amount id s).1 ≡ wealth user s
unfolding debit ledger_balance
debit-money user payer key d amount id s absent = grind (
  int_laws,
  held_total-insert_new user s.next_withdrawal (new_withdrawal payer key d amount id s.ledger)
      s.withdrawals absent,
)

pub debit-IsFresh :
    (payer key : ℕ) (d : Destination) (amount : ℕ) (id : IdempotencyKey) (s : Store)
    → IsFresh s
    → IsFresh (debit payer key d amount id s).1
unfolding debit
debit-IsFresh payer key d amount id s f k le = ground (
  arith,
  lookup-insert k s.next_withdrawal (new_withdrawal payer key d amount id s.ledger) s.withdrawals,
  f k,
)

-- The row of an answer is in hand as it is stored.
pub IsCopy-stored :
    (key : ℕ) (w : CryptoWithdrawal) (s : Store)
    → lookup key s.withdrawals ≡ some w
    → IsCopy s key w
IsCopy-stored key w s e row there = ground (arith, e, there)

pub apply_remote_state-Sound :
    (user key : ℕ) (r : Remote) (now : ℕ) (s : Store)
    → Sound user s (apply_remote_state key r now s).1
unfolding apply_remote_state
apply_remote_state-Sound user key r now s = elim (Option-cases (lookup key s.withdrawals)) [
  | inl absent ↦ rw (absent, apply_remote_state) (Sound-refl user s)
  | inr (w, e) ↦
      rw (e, apply_remote_state) (apply_loaded-Sound user key w r now s (IsCopy-stored key w s e))
]

pub adopted_row-Keeps : (payout : ℕ) → Keeps (adopted_row payout)
adopted_row-Keeps payout row = ground arith

requeued_row-Keeps : Keeps requeued_row
requeued_row-Keeps row = ground arith

pub take_answer-Sound :
    (user key : ℕ) (a : Answer) (now : ℕ) (s : Store) → Sound user s (take_answer key a now s).1
unfolding take_answer
take_answer-Sound user key (accepted r) now s =
    let adopted = with_withdrawal key (adopted_row r.id) s in
    Sound-trans user s adopted (apply_remote_state key r now adopted).1
      (with_withdrawal-Sound user key (adopted_row r.id) s (adopted_row-Keeps r.id))
      (apply_remote_state-Sound user key r now adopted)
take_answer-Sound user key (refused status) now s = elim (Bool-cases (is_definite_refusal status)) [
  | inl definite ↦
      rw (definite, take_answer) (with_withdrawal-Sound user key requeued_row s requeued_row-Keeps)
  | inr vague ↦ elim (Bool-cases (status == 409)) [
    | inl conflict ↦
        rw (vague, conflict, take_answer)
          (with_withdrawal-Sound user key reviewed_row s (λ row. (refl, refl, refl)))
    | inr other ↦ rw (vague, other, take_answer) (Sound-refl user s)
  ]
]
take_answer-Sound user key unreachable now s = Sound-refl user s

pub submit-Sound :
    (user : ℕ) (client : Client) (key : ℕ) (w : CryptoWithdrawal) (d : Destination) (now : ℕ)
    (s : Store)
    → Sound user s (submit client key w d now s).1
unfolding submit
submit-Sound user client key w d now s = take_answer-Sound user key (ask_payout client w d) now s

-- A claim is a write, or nothing.
claim_cases :
    (key : ℕ) (change : CryptoWithdrawal → CryptoWithdrawal) (s : Store)
    → (claim key change s ≡ none) ⊎ (claim key change s ≡ some (with_withdrawal key change s))
claim_cases key change s = elim (Option-cases (lookup key s.withdrawals)) [
  | inl absent ↦ inl (rw (absent, claim) refl)
  | inr (row, e) ↦ elim (Bool-cases (is_pending row.approval_status)) [
    | inl waiting ↦ inr (rw (e, with_withdrawal) (rw (e, waiting, claim) refl))
    | inr over ↦ inl (rw (e, over, claim) refl)
  ]
]

pub approve_loaded-Sound :
    (user : ℕ) (cfg : Config) (client : Client) (admin key : ℕ) (w : CryptoWithdrawal) (now : ℕ)
    (s : Store)
    → Sound user s (approve_loaded cfg client admin key w now s).1
unfolding approve_loaded
approve_loaded-Sound user cfg client admin key w now s = elim (Bool-cases (w.user == admin)) [
  | inl own ↦ rw (own, approve_loaded) (Sound-refl user s)
  | inr other ↦ elim (Option-cases (lookup w.destination s.destinations)) [
    | inl absent ↦ rw (other, absent, approve_loaded) (Sound-refl user s)
    | inr (d, e) ↦ elim (Option-cases (refuses_payout cfg now cfg.payout_kind d)) [
      | inr (reason, refusal) ↦ rw (other, e, refusal, approve_loaded) (Sound-refl user s)
      | inl sendable ↦
          let change = approved_row admin cfg.payout_kind now in
          elim (claim_cases key change s) [
            | inl lost ↦ rw (other, e, sendable, lost, approve_loaded) (Sound-refl user s)
            | inr won ↦
                let claimed = with_withdrawal key change s in
                rw (other, e, sendable, won, approve_loaded)
                  (Sound-trans user s claimed (submit client key (change w) d now claimed).1
                    (with_withdrawal-Sound user key change s (λ row. (refl, refl, refl)))
                    (submit-Sound user client key (change w) d now claimed))
          ]
    ]
  ]
]

or_roll_back-Sound :
    (user : ℕ) (s : Store) (r : Result Bool × Store)
    → Sound user s r.1
    → Sound user s (or_roll_back s r).1
or_roll_back-Sound user s (err e, t) h = Sound-refl user s
or_roll_back-Sound user s (ok true, t) h = h
or_roll_back-Sound user s (ok false, t) h = Sound-refl user s

pub reject_loaded-Sound :
    (user admin key : ℕ) (w : CryptoWithdrawal) (s : Store)
    → IsCopy s key w
    → Sound user s (reject_loaded admin key w s).1
unfolding reject_loaded
reject_loaded-Sound user admin key w s c = elim (Bool-cases (is_some w.restore_transaction)) [
  | inl done ↦ rw (done, reject_loaded) (Sound-refl user s)
  | inr open_row ↦ elim (claim_cases key (rejected_row admin) s) [
    | inl lost ↦ rw (open_row, lost, reject_loaded) (Sound-refl user s)
    | inr won ↦
        let claimed = with_withdrawal key (rejected_row admin) s in
        let first =
          with_withdrawal-Sound user key (rejected_row admin) s (λ row. (refl, refl, refl)) in
        rw (open_row, won, reject_loaded)
          (or_roll_back-Sound user s (post_refund key w claimed) (
            Sound-trans user s claimed (post_refund key w claimed).1 first
              (post_refund-Sound user key w claimed (first.copies key w c))))
  ]
]

pub poll_payout-Sound :
    (user : ℕ) (client : Client) (key payout now : ℕ) (s : Store)
    → Sound user s (poll_payout client key payout now s).1
unfolding poll_payout
poll_payout-Sound user client key payout now s =
    elim (Option-cases (client.get_withdrawal payout)) [
      | inl silent ↦ rw (silent, poll_payout) (Sound-refl user s)
      | inr (r, e) ↦ rw (e, poll_payout) (apply_remote_state-Sound user key r now s)
    ]

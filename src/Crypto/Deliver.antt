-- ===== src/Crypto/Deliver.antt =====
-- Re-submission, polling and webhooks of USDT withdrawals
-- (src/payment/crypto-withdrawal.service.ts, src/payment/crypto-intent.poller.ts).
use oro_backend.Base.{
  ℕ, zero, suc, ◌+◌, Bool, false, not, ◌&&◌, Option, none, some, [], ◌∷◌, ltb, leb, find, keep,
  get_or, holds_key, is_none, if◌then◌else◌,
}
use oro_backend.Base.Rows.{Rows, lookup}
use oro_backend.Crypto.Tables.{
  IdempotencyKey, CryptoWithdrawal, Store, provider_unreachable, Result, ok, err, Client,
  is_approved, same_key,
}
use oro_backend.Crypto.Request.{has_request_id}
use oro_backend.Crypto.Apply.{with_withdrawal, apply_remote_state}
use oro_backend.Crypto.Decide.{submit, adopted_row}

-- The rows of which no answer was learned.
abbrev pub is_unconfirmed : ℕ → ℕ → ℕ × CryptoWithdrawal → Bool
is_unconfirmed older_than now r =
    ((is_approved r.1.approval_status && is_none r.1.pay21_withdrawal)
      && not r.1.needs_manual_review)
    && elim r.1.approved_at [ none ↦ false | some t ↦ ltb (t + older_than) now ]

abbrev pub insert_by_approval : ℕ × CryptoWithdrawal → Rows CryptoWithdrawal → Rows CryptoWithdrawal
insert_by_approval r [] = r ∷ []
insert_by_approval r (q ∷ rows) =
    let rest = insert_by_approval r rows in
    if leb (get_or r.1.approved_at 0) (get_or q.1.approved_at 0) then r ∷ q ∷ rows else q ∷ rest

abbrev pub sort_by_approval : Rows CryptoWithdrawal → Rows CryptoWithdrawal
sort_by_approval [] = []
sort_by_approval (r ∷ rows) = insert_by_approval r (sort_by_approval rows)

abbrev pub take : ℕ → Rows CryptoWithdrawal → Rows CryptoWithdrawal
take zero rows = []
take (suc n) [] = []
take (suc n) (r ∷ rows) = r ∷ take n rows

abbrev pub resubmit_one : Client → ℕ → ℕ × CryptoWithdrawal → Store → Store
resubmit_one client now r s = elim (lookup r.1.destination s.destinations) as (λ _. Store) [
  | none ↦ s
  | some d ↦ (submit client r.0 r.1 d now s).1
]

unfoldable pub resubmit_all : Client → ℕ → Rows CryptoWithdrawal → Store → Store
unfolding submit
resubmit_all client now [] s = s
resubmit_all client now (r ∷ rows) s = resubmit_all client now rows (resubmit_one client now r s)

unfoldable pub resubmit_unconfirmed : Client → ℕ → ℕ → Store → Store
unfolding resubmit_all
resubmit_unconfirmed client older_than now s =
    resubmit_all client now
      (take 20 (sort_by_approval (keep (is_unconfirmed older_than now) s.withdrawals))) s

-- What the webhook answers.
pub data Handled : Type 0 where
  handled not_approved unknown_withdrawal key_mismatch : Handled

abbrev pub has_payout : ℕ → ℕ × CryptoWithdrawal → Bool
has_payout payout r = holds_key r.1.pay21_withdrawal payout

abbrev pub mismatches : Option IdempotencyKey → CryptoWithdrawal → Bool
mismatches none w = false
mismatches (some id) w = not (same_key id w.idempotency_key)

-- Reads the provider's record of a payout and applies it.
unfoldable pub poll_payout : Client → ℕ → ℕ → ℕ → Store → Result (Unit {0}) × Store
unfolding apply_remote_state
poll_payout client key payout now s = elim (client.get_withdrawal payout) [
  | none ↦ (err provider_unreachable, s)
  | some r ↦ apply_remote_state key r now s
]

abbrev pub as_handled : Result (Unit {0}) × Store → Result Handled × Store
as_handled (ok _, s) = (ok handled, s)
as_handled (err e, s) = (err e, s)

abbrev pub act_on :
    Client → Option IdempotencyKey → ℕ → CryptoWithdrawal → ℕ → Store → Result Handled × Store
act_on client id key w now s = elim w.pay21_withdrawal [
  | none ↦ (ok unknown_withdrawal, s)
  | some payout ↦
      if mismatches id w
      then (ok key_mismatch, s)
      else as_handled (poll_payout client key payout now s)
]

-- A payout that no row names: the row of its key adopts it, if it is approved.
abbrev pub adopt : Client → Option ℕ → Option IdempotencyKey → ℕ → Store → Result Handled × Store
adopt client payout none now s = (ok unknown_withdrawal, s)
adopt client payout (some id) now s = elim (find (has_request_id id) s.withdrawals) [
  | none ↦ (ok unknown_withdrawal, s)
  | some (key, w) ↦ elim w.pay21_withdrawal [
    | some _ ↦ act_on client (some id) key w now s
    | none ↦ elim payout [
      | none ↦ (ok unknown_withdrawal, s)
      | some p ↦
          if not (is_approved w.approval_status)
          then (ok not_approved, s)
          else act_on client (some id) key (record w { pay21_withdrawal = some p }) now
              (with_withdrawal key (adopted_row p) s)
    ]
  ]
]

unfoldable pub handle_webhook :
    Client → Option ℕ → Option IdempotencyKey → ℕ → Store → Result Handled × Store
unfolding poll_payout
handle_webhook client none id now s = adopt client none id now s
handle_webhook client (some p) id now s = elim (find (has_payout p) s.withdrawals) [
  | none ↦ adopt client (some p) id now s
  | some (key, w) ↦ act_on client id key w now s
]

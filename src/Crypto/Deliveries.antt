-- ===== src/Crypto/Deliveries.antt =====
-- Webhooks and re-submissions keep the money (src/payment/crypto-withdrawal.service.ts).
use oro_backend.Base.{
  ℕ, inl, inr, Option, none, some, [], ◌∷◌, Bool-cases, Option-cases, find, keep,
}
use oro_backend.Base.Rows.{Rows, lookup}
use oro_backend.Crypto.Tables.{
  CryptoWithdrawal, IdempotencyKey, Store, Client, Result, ok, err, is_approved,
}
use oro_backend.Crypto.Request.{has_request_id}
use oro_backend.Crypto.Apply.{with_withdrawal}
use oro_backend.Crypto.Decide.{adopted_row}
use oro_backend.Crypto.Deliver.{
  resubmit_one, resubmit_all, resubmit_unconfirmed, has_payout, is_unconfirmed, sort_by_approval,
  take, mismatches, poll_payout, as_handled, act_on, adopt, handle_webhook,
}
use oro_backend.Crypto.Money.{Sound, Sound-refl, Sound-trans, with_withdrawal-Sound}
use oro_backend.Crypto.Deciding.{submit-Sound, poll_payout-Sound, adopted_row-Keeps}

pub resubmit_one-Sound :
    (user : ℕ) (client : Client) (now : ℕ) (r : ℕ × CryptoWithdrawal) (s : Store)
    → Sound user s (resubmit_one client now r s)
resubmit_one-Sound user client now r s =
    elim (Option-cases (lookup r.1.destination s.destinations)) [
      | inl absent ↦ rw (absent, resubmit_one) (Sound-refl user s)
      | inr (d, e) ↦ rw (e, resubmit_one) (submit-Sound user client r.0 r.1 d now s)
    ]

resubmit_all-Sound :
    (user : ℕ) (client : Client) (now : ℕ) (rows : Rows CryptoWithdrawal) (s : Store)
    → Sound user s (resubmit_all client now rows s)
unfolding resubmit_all
resubmit_all-Sound user client now [] s = Sound-refl user s
resubmit_all-Sound user client now (r ∷ rows) s =
    Sound-trans user s (resubmit_one client now r s)
      (resubmit_all client now rows (resubmit_one client now r s))
      (resubmit_one-Sound user client now r s)
      (resubmit_all-Sound user client now rows (resubmit_one client now r s))

as_handled-Sound :
    (user : ℕ) (s : Store) (r : Result (Unit {0}) × Store)
    → Sound user s r.1
    → Sound user s (as_handled r).1
as_handled-Sound user s (ok _, t) h = h
as_handled-Sound user s (err e, t) h = h

act_on-Sound :
    (user : ℕ) (client : Client) (id : Option IdempotencyKey) (key : ℕ) (w : CryptoWithdrawal)
    (now : ℕ) (s : Store)
    → Sound user s (act_on client id key w now s).1
act_on-Sound user client id key w now s = elim (Option-cases w.pay21_withdrawal) [
  | inl absent ↦ rw (absent, act_on) (Sound-refl user s)
  | inr (payout, e) ↦ elim (Bool-cases (mismatches id w)) [
    | inl wrong ↦ rw (e, wrong, act_on) (Sound-refl user s)
    | inr right ↦
        rw (e, right, act_on)
          (as_handled-Sound user s (poll_payout client key payout now s)
            (poll_payout-Sound user client key payout now s))
  ]
]

adopt-Sound :
    (user : ℕ) (client : Client) (payout : Option ℕ) (id : Option IdempotencyKey) (now : ℕ)
    (s : Store)
    → Sound user s (adopt client payout id now s).1
adopt-Sound user client payout none now s = Sound-refl user s
adopt-Sound user client payout (some id) now s =
    elim (Option-cases (find (has_request_id id) s.withdrawals)) [
      | inl absent ↦ rw (absent, adopt) (Sound-refl user s)
      | inr (r, e) ↦ elim (Option-cases r.1.pay21_withdrawal) [
        | inr (p, has) ↦ rw (e, has, adopt) (act_on-Sound user client (some id) r.0 r.1 now s)
        | inl lacks ↦ elim (Option-cases payout) [
          | inl nothing ↦ rw (e, lacks, nothing, adopt) (Sound-refl user s)
          | inr (p, known) ↦ elim (Bool-cases (is_approved r.1.approval_status)) [
            | inr unapproved ↦ rw (e, lacks, known, unapproved, adopt) (Sound-refl user s)
            | inl yes_approved ↦
                let adopted = with_withdrawal r.0 (adopted_row p) s in
                let w : CryptoWithdrawal = record r.1 { pay21_withdrawal = some p } in
                rw (e, lacks, known, yes_approved, adopt)
                  (Sound-trans user s adopted (act_on client (some id) r.0 w now adopted).1
                    (with_withdrawal-Sound user r.0 (adopted_row p) s (adopted_row-Keeps p))
                    (act_on-Sound user client (some id) r.0 w now adopted))
          ]
        ]
      ]
    ]

pub handle_webhook-Sound :
    (user : ℕ) (client : Client) (payout : Option ℕ) (id : Option IdempotencyKey) (now : ℕ)
    (s : Store)
    → Sound user s (handle_webhook client payout id now s).1
unfolding handle_webhook
handle_webhook-Sound user client none id now s = adopt-Sound user client none id now s
handle_webhook-Sound user client (some p) id now s =
    elim (Option-cases (find (has_payout p) s.withdrawals)) [
      | inl absent ↦ rw (absent, handle_webhook) (adopt-Sound user client (some p) id now s)
      | inr (r, e) ↦ rw (e, handle_webhook) (act_on-Sound user client id r.0 r.1 now s)
    ]

pub resubmit_unconfirmed-Sound :
    (user : ℕ) (client : Client) (older_than now : ℕ) (s : Store)
    → Sound user s (resubmit_unconfirmed client older_than now s)
unfolding resubmit_unconfirmed
resubmit_unconfirmed-Sound user client older_than now s =
    resubmit_all-Sound user client now
      (take 20 (sort_by_approval (keep (is_unconfirmed older_than now) s.withdrawals))) s

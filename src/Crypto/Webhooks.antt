-- ===== src/Crypto/Webhooks.antt =====
-- Webhooks leave the columns of a withdrawal in order (src/payment/crypto-withdrawal.service.ts).
use oro_backend.Base.{
  ℕ, ◌≡◌, refl, ap, inl, inr, Bool, true, ◌==◌, Option, none, some, [], ◌∷◌, arith, ==_iff, ==_refl,
  Bool-cases, Option-cases, find, is_some,
}
use oro_backend.Base.Rows.{Rows, lookup, UniqueKeys}
use oro_backend.Crypto.Tables.{
  CryptoWithdrawal, IdempotencyKey, Store, Client, Result, ok, err, is_approved,
}
use oro_backend.Crypto.Request.{has_request_id}
use oro_backend.Crypto.Apply.{with_withdrawal}
use oro_backend.Crypto.Decide.{adopted_row}
use oro_backend.Crypto.Deliver.{
  poll_payout, as_handled, has_payout, mismatches, act_on, adopt, handle_webhook,
}
use oro_backend.Crypto.Columns.{AllOk}
use oro_backend.Crypto.News.{apply_remote_state-AllOk}
use oro_backend.Crypto.Decisions.{changed-AllOk, changed_row, adopted_row_ok}

-- A row that is found stands under its key, where keys stand once.
lookup-find :
    (p : ℕ × CryptoWithdrawal → Bool) (rows : Rows CryptoWithdrawal) (k : ℕ) (w : CryptoWithdrawal)
    → UniqueKeys rows
    → find p rows ≡ some (k, w)
    → lookup k rows ≡ some w
lookup-find p [] k w u e = cc
lookup-find p ((j, v) ∷ rows) k w u e = elim (Bool-cases (p (j, v))) [
  | inl hit ↦ ground (arith, hit, e, ==_refl j)
  | inr miss ↦
      let later : find p rows ≡ some (k, w) = ground (arith, miss, e) in
      let there = lookup-find p rows k w u.1 later in
      elim (Bool-cases (k == j)) [
        | inl here ↦
            let at = (==_iff k j).0 here in
            absurd (ground (arith, at, there, u.0, ap (λ (i : ℕ). lookup i rows) at))
        | inr other ↦ rw other there
      ]
]

-- The provider's record of a payout that a stored row has.
abbrev pub HasPayout : ℕ → Store → Type 0
HasPayout key s =
    (w : CryptoWithdrawal) → lookup key s.withdrawals ≡ some w → is_some w.pay21_withdrawal ≡ true

poll_payout-AllOk :
    (client : Client) (key payout now : ℕ) (s : Store)
    → HasPayout key s
    → AllOk s
    → AllOk (poll_payout client key payout now s).1
unfolding poll_payout
poll_payout-AllOk client key payout now s has h =
    elim (Option-cases (client.get_withdrawal payout)) [
      | inl silent ↦ rw (silent, poll_payout) h
      | inr (r, e) ↦ rw (e, poll_payout) (apply_remote_state-AllOk key r now s has h)
    ]

as_handled-AllOk : (r : Result (Unit {0}) × Store) → AllOk r.1 → AllOk (as_handled r).1
as_handled-AllOk (ok _, t) h = h
as_handled-AllOk (err e, t) h = h

act_on-AllOk :
    (client : Client) (id : Option IdempotencyKey) (key : ℕ) (w : CryptoWithdrawal) (now : ℕ)
    (s : Store)
    → (is_some w.pay21_withdrawal ≡ true → HasPayout key s)
    → AllOk s
    → AllOk (act_on client id key w now s).1
act_on-AllOk client id key w now s has h = elim (Option-cases w.pay21_withdrawal) [
  | inl absent ↦ rw (absent, act_on) h
  | inr (payout, e) ↦ elim (Bool-cases (mismatches id w)) [
    | inl wrong ↦ rw (e, wrong, act_on) h
    | inr right ↦
        rw (e, right, act_on)
          (as_handled-AllOk (poll_payout client key payout now s)
            (poll_payout-AllOk client key payout now s (has (rw e refl)) h))
  ]
]

stored-HasPayout :
    (key : ℕ) (w : CryptoWithdrawal) (s : Store)
    → lookup key s.withdrawals ≡ some w
    → is_some w.pay21_withdrawal ≡ true
    → HasPayout key s
stored-HasPayout key w s e has row there = ground (arith, e, there, has)

adopted-HasPayout :
    (key payout : ℕ) (s : Store) → HasPayout key (with_withdrawal key (adopted_row payout) s)
adopted-HasPayout key payout s row there =
    let (old, _, change) = changed_row key (adopted_row payout) s row there in
    ground (arith, change)

adopt-AllOk :
    (client : Client) (payout : Option ℕ) (id : Option IdempotencyKey) (now : ℕ) (s : Store)
    → UniqueKeys s.withdrawals
    → AllOk s
    → AllOk (adopt client payout id now s).1
adopt-AllOk client payout none now s u h = h
adopt-AllOk client payout (some id) now s u h =
    elim (Option-cases (find (has_request_id id) s.withdrawals)) [
      | inl absent ↦ rw (absent, adopt) h
      | inr (r, e) ↦
          let stored = lookup-find (has_request_id id) s.withdrawals r.0 r.1 u e in
          elim (Option-cases r.1.pay21_withdrawal) [
            | inr (p, has) ↦
                rw (e, has, adopt)
                  (act_on-AllOk client (some id) r.0 r.1 now s
                    (λ some_payout. stored-HasPayout r.0 r.1 s stored some_payout) h)
            | inl lacks ↦ elim (Option-cases payout) [
              | inl nothing ↦ rw (e, lacks, nothing, adopt) h
              | inr (p, known) ↦ elim (Bool-cases (is_approved r.1.approval_status)) [
                | inr unapproved ↦ rw (e, lacks, known, unapproved, adopt) h
                | inl yes_approved ↦
                    rw (e, lacks, known, yes_approved, adopt)
                      (act_on-AllOk client (some id) r.0 (record r.1 { pay21_withdrawal = some p })
                        now (with_withdrawal r.0 (adopted_row p) s) (λ _. adopted-HasPayout r.0 p s)
                        (changed-AllOk r.0 (adopted_row p) s
                          (λ row there fine.
                            adopted_row_ok p row (ground (arith, stored, there, yes_approved)) fine)
                          h))
              ]
            ]
          ]
    ]

pub handle_webhook-AllOk :
    (client : Client) (payout : Option ℕ) (id : Option IdempotencyKey) (now : ℕ) (s : Store)
    → UniqueKeys s.withdrawals
    → AllOk s
    → AllOk (handle_webhook client payout id now s).1
unfolding handle_webhook
handle_webhook-AllOk client none id now s u h = adopt-AllOk client none id now s u h
handle_webhook-AllOk client (some p) id now s u h =
    elim (Option-cases (find (has_payout p) s.withdrawals)) [
      | inl absent ↦ rw (absent, handle_webhook) (adopt-AllOk client (some p) id now s u h)
      | inr (r, e) ↦
          rw (e, handle_webhook)
            (act_on-AllOk client id r.0 r.1 now s
              (λ has.
                stored-HasPayout r.0 r.1 s (lookup-find (has_payout p) s.withdrawals r.0 r.1 u e)
                  has)
              h)
    ]

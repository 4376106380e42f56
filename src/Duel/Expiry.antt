-- ===== src/Duel/Expiry.antt =====
-- `expireAndNotifyStaleDuels` (src/jobs/engagement.job.ts) and `ledgerBalanceForAccount`
-- (src/shared/utils/ledger.util.ts).
use oro_backend.Base.{ℕ, ◌&&◌, none, some, [], ◌∷◌, ltb, keep, if◌then◌else◌}
use oro_backend.Base.Int.{ℤ, pos, ◌+ℤ◌}
use oro_backend.Base.Rows.{Rows, lookup, insert}
use oro_backend.Ledger.{Transaction, TransactionType, Note, btn_currency}
use oro_backend.Ledger.Balance.{ledger_balance}
use oro_backend.Duel.Tables.{Store, Challenge, ChallengeStatus, post}
use oro_backend.Duel.Create.{is_open}

-- The balance in the currency of the user's account; there is no row to add up without a user.
abbrev pub ledger_balance_for_account : Store → ℕ → ℤ
ledger_balance_for_account s user = elim (lookup user s.users) [
  | none ↦ pos 0
  | some u ↦ ledger_balance s.ledger user u.currency
]

abbrev pub mark_expired : ℕ → ℕ → Challenge → Store → Store
mark_expired key now c s = record s {
  challenges =
      insert key (record c { status = ChallengeStatus.expired; settled_at = some now })
        s.challenges;
}

-- The row takes the currency column's default.
abbrev pub expired_refund : ℕ → Challenge → Store → Transaction
expired_refund key ch s =
    let raw_before = ledger_balance_for_account s ch.creator in
    record {
      user = ch.creator;
      type = TransactionType.refund;
      amount = pos ch.wager_amount;
      currency = btn_currency;
      balance_before = raw_before;
      balance_after = raw_before +ℤ pos ch.wager_amount;
      payment = none;
      position = none;
      note = Note.duel_expired_refund key;
    }

-- One stale challenge as it was read; the claim is on the row as it is now.
unfoldable pub expire_one : ℕ → ℕ × Challenge → Store → Store
expire_one now (key, ch) s = elim (lookup key s.challenges) [
  | none ↦ s
  | some c ↦
      let claimed = mark_expired key now c s in
      if is_open c.status
      then (if ltb 0 ch.wager_amount then post (expired_refund key ch claimed) claimed else claimed)
      else s
]

unfoldable pub expire_all : ℕ → Rows Challenge → Store → Store
unfolding expire_one
expire_all now [] s = s
expire_all now (r ∷ rows) s = expire_all now rows (expire_one now r s)

abbrev pub stale_of : ℕ → Rows Challenge → Rows Challenge
stale_of now rows = keep (λ (r : ℕ × Challenge). is_open r.1.status && ltb r.1.expires_at now) rows

unfoldable pub expire_stale_duels : ℕ → Store → Store
unfolding expire_all
expire_stale_duels now s = expire_all now (stale_of now s.challenges) s

-- ===== src/Duel/Wager.antt =====
-- The ledger helpers `debit` and `credit` (src/challenges/challenges.service.ts).
use oro_backend.Base.{ℕ, Option, none}
use oro_backend.Base.Int.{pos, ◌+ℤ◌, ◌-ℤ◌, ltb_ℤ}
use oro_backend.Base.Rows.{lookup}
use oro_backend.Ledger.{Note, TransactionType, btn_currency}
use oro_backend.Ledger.Balance.{ledger_balance}
use oro_backend.Duel.Tables.{
  Store, Action, user_not_found, insufficient_balance, gets, or_raise, raise_if, modify, post,
  ◌>>=◌, ◌>>◌,
}

-- The body that `debit` runs, in its own transaction or in the caller's.
unfoldable pub debit : ℕ → ℕ → Note → Option ℕ → Action (Unit {0})
debit user amount note reference = do
  or_raise (← gets (λ s. lookup user s.users)) user_not_found
  balance_before ← gets (λ s. ledger_balance s.ledger user btn_currency)
  raise_if (ltb_ℤ balance_before (pos amount)) insufficient_balance
  modify (
      post (record {
        user = user;
        type = TransactionType.duel_wager;
        amount = pos 0 -ℤ pos amount;
        currency = btn_currency;
        balance_before = balance_before;
        balance_after = balance_before -ℤ pos amount;
        payment = none;
        position = reference;
        note = note;
      }))

unfoldable pub credit : ℕ → ℕ → Note → Option ℕ → TransactionType → Store → Store
credit user amount note reference type s =
    let balance_before = ledger_balance s.ledger user btn_currency in
    post
      (record {
        user = user;
        type = type;
        amount = pos amount;
        currency = btn_currency;
        balance_before = balance_before;
        balance_after = balance_before +ℤ pos amount;
        payment = none;
        position = reference;
        note = note;
      })
      s

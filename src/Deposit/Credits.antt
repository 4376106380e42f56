-- ===== src/Deposit/Credits.antt =====
-- What deposits do to the balances (src/payment/crypto-settlement.service.ts).
use oro_backend.Base.{
  ℕ, ◌+◌, ◌≡◌, ◌≢◌, refl, ap, ◌∙◌, inl, inr, Bool, true, false, ◌&&◌, ◌==◌, Option, none, some, [],
  ◌∷◌, arith, Bool-cases, Option-cases, exists_in, keep, is_some, get_or, if◌then◌else◌,
}
use oro_backend.Base.Int.{ℤ, pos, ◌-ℤ◌, int_laws}
use oro_backend.Base.Rows.{Rows, lookup, insert, lookup-insert_self}
use oro_backend.Ledger.Balance.{ledger_balance}
use oro_backend.Stake.{usdt}
use oro_backend.Deposit.Tables.{
  IntentStatus, is_crediting, is_topup, parse_status, Intent, Store, SettlementInput,
  unique_violation,
}
use oro_backend.Deposit.Settle.{
  has_external, write_usdt_deposit_credit, apply_metadata, detected_amount, credited_row, credit,
  settle_status, settle, reverse,
}
use oro_backend.Deposit.Poll.{
  RemoteIntent, says, sync_one, check_reversal, check_reversals, poll_for_reversals, expire,
  sweep_expired, take, latest_first, is_confirmed_credit,
}

-- The credit of an intent that stands in its user's balance.
abbrev pub credited_part : ℕ → Intent → ℕ
credited_part user i =
    if i.user == user && is_some i.credited_at then get_or i.detected_amount_usdt 0 else 0

abbrev pub credited_total : ℕ → Rows Intent → ℕ
credited_total user [] = 0
credited_total user (r ∷ rows) = credited_part user r.1 + credited_total user rows

-- What a user's USDT balance holds besides credited deposits.
abbrev pub other_money : ℕ → Store → ℤ
other_money user s = ledger_balance s.ledger user usdt -ℤ pos (credited_total user s.intents)

credited_total-insert :
    (user k : ℕ) (i old : Intent) (rows : Rows Intent)
    → lookup k rows ≡ some old
    → credited_total user (insert k i rows) + credited_part user old
      ≡ credited_total user rows + credited_part user i
credited_total-insert user k i old [] e = cc
credited_total-insert user k i old (r ∷ rows) e =
    ground (arith, credited_total-insert user k i old rows)

metadata-money :
    (user key : ℕ) (intent : Intent) (input : SettlementInput) (status : IntentStatus) (s : Store)
    → lookup key s.intents ≡ some intent
    → other_money user (apply_metadata key intent input status s) ≡ other_money user s
metadata-money user key intent input status s e =
    let total = λ (i : Intent). credited_total-insert user key i intent s.intents e in
    ap (λ (n : ℕ). ledger_balance s.ledger user usdt -ℤ pos n) (grind (arith, total))

credit-money :
    (user key : ℕ) (intent : Intent) (amount : ℕ) (input : SettlementInput) (status : IntentStatus)
    (now : ℕ) (s : Store)
    → lookup key s.intents ≡ some intent
    → is_some intent.credited_at ≡ false
    → other_money user (credit key intent amount input status now s).1 ≡ other_money user s
unfolding write_usdt_deposit_credit ledger_balance
credit-money user key intent amount input status now s e fresh =
    elim (Bool-cases (exists_in (has_external key) s.payments)) [
      | inl known ↦ rw (known, credit) refl
      | inr new ↦
          let total =
            credited_total-insert user key (credited_row amount intent input status now) intent
              s.intents e in
          rw (new, credit) (grind (int_laws, total))
    ]

settle_status-money :
    (user key : ℕ) (intent : Intent) (input : SettlementInput) (status : IntentStatus) (now : ℕ)
    (s : Store)
    → lookup key s.intents ≡ some intent
    → other_money user (settle_status key intent input status now s).1 ≡ other_money user s
settle_status-money user key intent input status now s e =
    let noted = metadata-money user key intent input status s e in
    elim (Bool-cases (is_some intent.credited_at)) [
      | inl done ↦ rw (done, settle_status) (metadata-money user key intent input intent.status s e)
      | inr open_intent ↦ elim (Bool-cases (is_topup status)) [
        | inl parent ↦ rw (open_intent, parent, settle_status) noted
        | inr own ↦ elim (Bool-cases (is_crediting status)) [
          | inr early ↦ rw (open_intent, own, early, settle_status) noted
          | inl landed ↦ elim (Bool-cases (detected_amount input intent == 0)) [
            | inl nothing ↦ rw (open_intent, own, landed, nothing, settle_status) noted
            | inr something ↦
                rw (open_intent, own, landed, something, settle_status)
                  (credit-money user key intent (detected_amount input intent) input status now s e
                    open_intent)
          ]
        ]
      ]
    ]

settle-money :
    (user : ℕ) (input : SettlementInput) (now : ℕ) (s : Store)
    → other_money user (settle input now s).1 ≡ other_money user s
unfolding settle
settle-money user input now s = elim (Option-cases (lookup input.pay21_intent s.intents)) [
  | inl absent ↦ rw (absent, settle) refl
  | inr (intent, e) ↦ elim (Option-cases (parse_status input.status)) [
    | inl strange ↦ rw (e, strange, settle) refl
    | inr (status, known) ↦
        rw (e, known, settle)
          (settle_status-money user input.pay21_intent intent input status now s e)
  ]
]

reverse-money : (user key : ℕ) (s : Store) → other_money user (reverse key s).1 ≡ other_money user s
unfolding reverse ledger_balance
reverse-money user key s = elim (Option-cases (lookup key s.intents)) [
  | inl absent ↦ rw (absent, reverse) refl
  | inr (intent, e) ↦ elim (Option-cases intent.credited_at) [
    | inl never ↦ rw (e, reverse) (rw never refl)
    | inr (at, credited_before) ↦ elim (Bool-cases (get_or intent.detected_amount_usdt 0 == 0)) [
      | inl nothing ↦ rw (e, reverse) (rw (credited_before, nothing) refl)
      | inr something ↦
          let new : Intent = record intent { status = IntentStatus.failed; credited_at = none } in
          let total = credited_total-insert user key new intent s.intents e in
          rw (e, reverse) (rw (credited_before, something) (grind (int_laws, total)))
    ]
  ]
]

sync_one-money :
    (user : ℕ) (get : ℕ → Option RemoteIntent) (key : ℕ) (intent : Intent) (now : ℕ) (s : Store)
    → other_money user (sync_one get key intent now s) ≡ other_money user s
unfolding sync_one
sync_one-money user get key intent now s = elim (Option-cases (get key)) [
  | inl silent ↦ rw (silent, sync_one) refl
  | inr (r, e) ↦ elim (Bool-cases (says intent.status r.status)) [
    | inl same ↦ rw (e, same, sync_one) refl
    | inr other ↦
        rw (e, other, sync_one)
          (settle-money user
            (record {
              pay21_intent = key;
              status = r.status;
              detected_amount_base_units = r.detected_amount;
              tx_hash = r.tx_hash;
            })
            now s)
  ]
]

check_reversal-money :
    (user : ℕ) (get : ℕ → Option RemoteIntent) (now : ℕ) (r : ℕ × Intent) (s : Store)
    → other_money user (check_reversal get now r s) ≡ other_money user s
check_reversal-money user get now r s = ground (arith, reverse-money user r.0 s)

check_reversals-money :
    (user : ℕ) (get : ℕ → Option RemoteIntent) (now : ℕ) (rows : Rows Intent) (s : Store)
    → other_money user (check_reversals get now rows s) ≡ other_money user s
unfolding check_reversals
check_reversals-money user get now [] s = refl
check_reversals-money user get now (r ∷ rows) s =
    check_reversals-money user get now rows (check_reversal get now r s)
    ∙ check_reversal-money user get now r s

credited_total-expire :
    (user now : ℕ) (rows : Rows Intent)
    → credited_total user (expire now rows) ≡ credited_total user rows
credited_total-expire user now [] = refl
credited_total-expire user now ((k, i) ∷ rows) = ground (arith, credited_total-expire user now rows)

-- One event, poll or sweep; a polled intent may be of whatever age.
pub data Step : Store → Store → Type 0 where
  event : (input : SettlementInput) (now : ℕ) (s : Store) → Step s (settle input now s).1
  reversal : (key : ℕ) (s : Store) → Step s (reverse key s).1
  poll :
      (get : ℕ → Option RemoteIntent) (key : ℕ) (intent : Intent) (now : ℕ) (s : Store)
      → Step s (sync_one get key intent now s)
  reversals :
      (enabled : Bool) (get : ℕ → Option RemoteIntent) (now : ℕ) (s : Store)
      → Step s (poll_for_reversals enabled get now s)
  sweep : (enabled : Bool) (now : ℕ) (s : Store) → Step s (sweep_expired enabled now s)

pub data Steps (s : Store) : Store → Type 0 where
  start : Steps s s
  then : {t u : Store} → Steps s t → Step t u → Steps s u

Step-money : (user : ℕ) {s s' : Store} → Step s s' → other_money user s' ≡ other_money user s
unfolding poll_for_reversals sweep_expired
Step-money user (Step.event input now s) = settle-money user input now s
Step-money user (Step.reversal key s) = reverse-money user key s
Step-money user (Step.poll get key intent now s) = sync_one-money user get key intent now s
Step-money user (Step.reversals true get now s) =
    check_reversals-money user get now (take 20 (latest_first (keep is_confirmed_credit s.intents)))
      s
Step-money user (Step.reversals false get now s) = refl
Step-money user (Step.sweep true now s) =
    ap (λ (n : ℕ). ledger_balance s.ledger user usdt -ℤ pos n)
      (credited_total-expire user now s.intents)
Step-money user (Step.sweep false now s) = refl

-- Any sequence of events, reversals, polls, reversal polls and expiry sweeps keeps, for every
-- user, the USDT balance less the credited deposits.
pub Steps-other_money :
    (user : ℕ) {s s' : Store} → Steps s s' → other_money user s' ≡ other_money user s
Steps-other_money user Steps.start = refl
Steps-other_money user (Steps.then steps step) = Step-money user step ∙ Steps-other_money user steps

-- After a credited deposit that has its payment row is reversed, every event that would credit it
-- is refused by the unique index on the payments and changes nothing.
pub settle-reverse :
    (key at : ℕ) (intent : Intent) (input : SettlementInput) (status : IntentStatus) (now : ℕ)
    (s : Store)
    → lookup key s.intents ≡ some intent
    → exists_in (has_external key) s.payments ≡ true
    → intent.credited_at ≡ some at
    → get_or intent.detected_amount_usdt 0 ≢ 0
    → input.pay21_intent ≡ key
    → parse_status input.status ≡ some status
    → is_crediting status ≡ true
    → detected_amount input intent ≢ 0
    → let s' = (reverse key s).1 in settle input now s' ≡ (unique_violation, s')
unfolding reverse settle write_usdt_deposit_credit
settle-reverse key at intent input status now s e known credited_before something same parsed landed
      detected =
    ground (
      arith,
      lookup-insert_self key (record intent { status = IntentStatus.failed; credited_at = none })
          s.intents,
    )

-- ===== src/Deposit/Poll.antt =====
-- What the poller does with deposits (src/payment/crypto-intent.poller.ts).
use Prim.Native.String.{String}
use text.Mathlib.Text.{◌==◌ as str_eq}
use oro_backend.Base.{
  ℕ, zero, suc, ◌+◌, ◌*◌, Bool, true, false, not, ◌&&◌, Option, none, some, [], ◌∷◌, ltb, leb, keep,
  is_some, get_or, if◌then◌else◌,
}
use oro_backend.Base.Rows.{Rows}
use oro_backend.Deposit.Tables.{IntentStatus, Intent, Store, parse_status}
use oro_backend.Deposit.Settle.{settle, reverse}

-- What the provider says of an intent; `none` is a call that raised.
pub record RemoteIntent : Type 0 where
  pub status : String
  pub detected_amount : Option ℕ
  pub tx_hash : Option String

abbrev pub same_status : IntentStatus → IntentStatus → Bool
same_status IntentStatus.awaiting_deposit IntentStatus.awaiting_deposit = true
same_status IntentStatus.confirming IntentStatus.confirming = true
same_status IntentStatus.accepted IntentStatus.accepted = true
same_status IntentStatus.confirmed IntentStatus.confirmed = true
same_status IntentStatus.confirmed_partial IntentStatus.confirmed_partial = true
same_status IntentStatus.confirmed_overpaid IntentStatus.confirmed_overpaid = true
same_status IntentStatus.completed_via_topup IntentStatus.completed_via_topup = true
same_status IntentStatus.expired IntentStatus.expired = true
same_status IntentStatus.failed IntentStatus.failed = true
same_status _ _ = false

abbrev pub says : IntentStatus → String → Bool
says status raw = elim (parse_status raw) [ none ↦ false | some s ↦ same_status s status ]

-- One intent of the poll, as it was read.
unfoldable pub sync_one : (ℕ → Option RemoteIntent) → ℕ → Intent → ℕ → Store → Store
unfolding settle
sync_one get_payment_intent key intent now s = elim (get_payment_intent key) as (λ _. Store) [
  | none ↦ s
  | some r ↦
      if says intent.status r.status
      then s
      else (settle
          (record {
            pay21_intent = key;
            status = r.status;
            detected_amount_base_units = r.detected_amount;
            tx_hash = r.tx_hash;
          })
          now s).1
]

abbrev pub reorg_window_ms : ℕ
reorg_window_ms = 60 * 60000

abbrev pub is_confirmed_credit : ℕ × Intent → Bool
is_confirmed_credit r = is_some r.1.credited_at && same_status r.1.status IntentStatus.confirmed

abbrev pub insert_latest : ℕ × Intent → Rows Intent → Rows Intent
insert_latest r [] = r ∷ []
insert_latest r (q ∷ rows) =
    let rest = insert_latest r rows in
    if leb (get_or q.1.credited_at 0) (get_or r.1.credited_at 0) then r ∷ q ∷ rows else q ∷ rest

abbrev pub latest_first : Rows Intent → Rows Intent
latest_first [] = []
latest_first (r ∷ rows) = insert_latest r (latest_first rows)

abbrev pub take : ℕ → Rows Intent → Rows Intent
take zero rows = []
take (suc n) [] = []
take (suc n) (r ∷ rows) = r ∷ take n rows

-- A credit of the last hour that the provider now calls failed.
abbrev pub check_reversal : (ℕ → Option RemoteIntent) → ℕ → ℕ × Intent → Store → Store
check_reversal get_payment_intent now r s =
    if not (leb now (get_or r.1.credited_at 0 + reorg_window_ms))
    then s
    else elim (get_payment_intent r.0) as (λ _. Store) [
      | none ↦ s
      | some remote ↦ if str_eq remote.status "failed" then (reverse r.0 s).1 else s
    ]

unfoldable pub check_reversals : (ℕ → Option RemoteIntent) → ℕ → Rows Intent → Store → Store
unfolding reverse
check_reversals get_payment_intent now [] s = s
check_reversals get_payment_intent now (r ∷ rows) s =
    check_reversals get_payment_intent now rows (check_reversal get_payment_intent now r s)

unfoldable pub poll_for_reversals : Bool → (ℕ → Option RemoteIntent) → ℕ → Store → Store
unfolding check_reversals
poll_for_reversals enabled get_payment_intent now s =
    if enabled
    then check_reversals get_payment_intent now
        (take 20 (latest_first (keep is_confirmed_credit s.intents))) s
    else s

abbrev pub expire : ℕ → Rows Intent → Rows Intent
expire now [] = []
expire now ((k, i) ∷ rows) =
    let rest = expire now rows in
    (
      k,
      if same_status i.status IntentStatus.awaiting_deposit && ltb i.expires_at now
          then record i { status = IntentStatus.expired }
          else i,
    )
    ∷ rest

unfoldable pub sweep_expired : Bool → ℕ → Store → Store
sweep_expired enabled now s = if enabled then record s { intents = expire now s.intents } else s

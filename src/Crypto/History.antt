-- ===== src/Crypto/History.antt =====
-- Any history of USDT withdrawals (src/payment/crypto-withdrawal.service.ts,
-- src/payment/crypto-intent.poller.ts).
use Prim.Native.String.{String}
use oro_backend.Base.{ℕ, ◌≡◌, refl, ap, ◌∙◌, inl, inr, Option, List, arith}
use oro_backend.Base.Rows.{lookup}
use oro_backend.Crypto.Tables.{CryptoWithdrawal, IdempotencyKey, Store, Remote, Client, Config}
use oro_backend.Crypto.Addresses.{add_destination, list_destinations}
use oro_backend.Usdt.{trim}
use oro_backend.Crypto.Request.{request}
use oro_backend.Crypto.Apply.{apply_loaded}
use oro_backend.Crypto.Decide.{approve_loaded, reject_loaded}
use oro_backend.Crypto.Deliver.{resubmit_unconfirmed, poll_payout, handle_webhook}
use oro_backend.Crypto.Money.{wealth, IsFresh, IsCopy, Sound, apply_loaded-Sound}
use oro_backend.Crypto.Deciding.{
  debit-money, debit-IsFresh, approve_loaded-Sound, reject_loaded-Sound, poll_payout-Sound,
}
use oro_backend.Crypto.Asking.{request_cases}
use oro_backend.Crypto.Deliveries.{handle_webhook-Sound, resubmit_unconfirmed-Sound}

-- What a step keeps, once keys are fresh.
abbrev pub IsKept : ℕ → Store → Store → Type 0
IsKept user s s' = (wealth user s' ≡ wealth user s) × IsFresh s'

request-IsKept :
    (user : ℕ) (cfg : Config) (client : Client) (payer key : ℕ) (amount id : List ℕ) (now : ℕ)
    (s : Store)
    → IsFresh s
    → IsKept user s (request cfg client payer key amount id now s).1
request-IsKept user cfg client payer key amount id now s f =
    let asked : IdempotencyKey = record { user = payer; client_request = trim id } in
    elim (request_cases cfg client payer key amount id now s) [
      | inl same ↦ rw same (refl, f)
      | inr (d, n, debited) ↦ rw debited (
        debit-money user payer key d n asked s (f s.next_withdrawal (omega arith)),
        debit-IsFresh payer key d n asked s f,
      )
    ]

add_destination_tables :
    (cfg : Config) (client : Client) (user : ℕ) (network address : String) (label : Option String)
    (now : ℕ) (s : Store)
    → let s' = (add_destination cfg client user network address label now s).1 in
      (s'.ledger ≡ s.ledger)
      × (s'.withdrawals ≡ s.withdrawals)
      × (s'.next_withdrawal ≡ s.next_withdrawal)
unfolding add_destination
add_destination_tables cfg client user network address label now s = ground arith

tables-IsKept :
    (user : ℕ) (s s' : Store)
    → (s'.ledger ≡ s.ledger)
      × (s'.withdrawals ≡ s.withdrawals)
      × (s'.next_withdrawal ≡ s.next_withdrawal)
    → IsFresh s
    → IsKept user s s'
tables-IsKept user s s' (ledger, rows, next) f =
    (rw (ledger, rows) refl, λ k le. ap (lookup k) rows ∙ f k (omega arith))

-- One operation, with what the provider answers and with copies of whatever age.
pub data Step : Store → Store → Type 0 where
  add :
      (cfg : Config) (client : Client) (user : ℕ) (network address : String) (label : Option String)
      (now : ℕ) (s : Store)
      → Step s (add_destination cfg client user network address label now s).1
  list : (cfg : Config) (user now : ℕ) (s : Store) → Step s (list_destinations cfg user now s).1
  ask :
      (cfg : Config) (client : Client) (user key : ℕ) (amount id : List ℕ) (now : ℕ) (s : Store)
      → Step s (request cfg client user key amount id now s).1
  approval :
      (cfg : Config) (client : Client) (admin key : ℕ) (w : CryptoWithdrawal) (now : ℕ) (s : Store)
      → Step s (approve_loaded cfg client admin key w now s).1
  rejection :
      (admin key : ℕ) (w : CryptoWithdrawal) (s : Store)
      → IsCopy s key w
      → Step s (reject_loaded admin key w s).1
  news :
      (key : ℕ) (w : CryptoWithdrawal) (r : Remote) (now : ℕ) (s : Store)
      → IsCopy s key w
      → Step s (apply_loaded key w r now s).1
  poll :
      (client : Client) (key payout now : ℕ) (s : Store)
      → Step s (poll_payout client key payout now s).1
  webhook :
      (client : Client) (payout : Option ℕ) (id : Option IdempotencyKey) (now : ℕ) (s : Store)
      → Step s (handle_webhook client payout id now s).1
  resubmission :
      (client : Client) (older_than now : ℕ) (s : Store)
      → Step s (resubmit_unconfirmed client older_than now s)

pub data Steps (s : Store) : Store → Type 0 where
  start : Steps s s
  then : {t u : Store} → Steps s t → Step t u → Steps s u

Sound-IsKept : (user : ℕ) (s s' : Store) → Sound user s s' → IsFresh s → IsKept user s s'
Sound-IsKept user s s' h f = (h.money, h.fresh f)

Step-IsKept : (user : ℕ) {s s' : Store} → Step s s' → IsFresh s → IsKept user s s'
unfolding list_destinations
Step-IsKept user (Step.add cfg client owner network address label now s) f =
    tables-IsKept user s (add_destination cfg client owner network address label now s).1
      (add_destination_tables cfg client owner network address label now s) f
Step-IsKept user (Step.list cfg owner now s) f = (refl, f)
Step-IsKept user (Step.ask cfg client payer key amount id now s) f =
    request-IsKept user cfg client payer key amount id now s f
Step-IsKept user (Step.approval cfg client admin key w now s) f =
    Sound-IsKept user s _ (approve_loaded-Sound user cfg client admin key w now s) f
Step-IsKept user (Step.rejection admin key w s c) f =
    Sound-IsKept user s _ (reject_loaded-Sound user admin key w s c) f
Step-IsKept user (Step.news key w r now s c) f =
    Sound-IsKept user s _ (apply_loaded-Sound user key w r now s c) f
Step-IsKept user (Step.poll client key payout now s) f =
    Sound-IsKept user s _ (poll_payout-Sound user client key payout now s) f
Step-IsKept user (Step.webhook client payout id now s) f =
    Sound-IsKept user s _ (handle_webhook-Sound user client payout id now s) f
Step-IsKept user (Step.resubmission client older_than now s) f =
    Sound-IsKept user s _ (resubmit_unconfirmed-Sound user client older_than now s) f

-- When the keys to come are new, any sequence of saved and listed addresses, requests, approvals,
-- rejections, news, polls, webhooks and re-submissions, whatever the provider answers and however
-- old the copies that they loaded with the stored user and amount, keeps for each user the sum of
-- the USDT balance and of what withdrawals took and did not give back, and the keys to come stay
-- new.
pub Steps-wealth : (user : ℕ) {s s' : Store} → Steps s s' → IsFresh s → IsKept user s s'
Steps-wealth user Steps.start f = (refl, f)
Steps-wealth user (Steps.then steps step) f =
    let (before, fresh) = Steps-wealth user steps f in
    let (after, fresh') = Step-IsKept user step fresh in (after ∙ before, fresh')

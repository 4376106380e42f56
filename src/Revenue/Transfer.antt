-- ===== src/Revenue/Transfer.antt =====
-- `recordDistribution`, `executeTransfer` and `processAllPending`
-- (src/markets/revenue-distribution.service.ts).
use Prim.Native.String.{String}
use oro_backend.Base.{
  ℕ, ◌+◌, Bool, not, ◌==◌, Option, none, some, List, [], ◌∷◌, find, keep, holds_key, is_some,
  if◌then◌else◌,
}
use oro_backend.Base.Rows.{Rows, lookup, insert}
use oro_backend.Revenue.Tables.{
  DistributionStatus, Reference, issued, manual, manual_batch, Distribution, Fate, done, refused,
  unknown, raised, Call, Store, TransferAnswer, Gateway, is_pending, is_free,
}

abbrev pub is_of_settlement : ℕ → ℕ × Distribution → Bool
is_of_settlement settlement r = holds_key r.1.settlement settlement

abbrev pub new_distribution : ℕ → ℕ → ℕ → ℕ → ℕ → String → Option ℕ → Distribution
new_distribution market settlement amount pool forfeit currency account = record {
  market = some market;
  settlement = some settlement;
  challenge = none;
  amount = amount;
  house_forfeit = forfeit;
  total_pool = pool;
  currency = currency;
  public_account = account;
  status = DistributionStatus.pending;
  payment_reference = none;
  paid_at = none;
  pending_transfer_ref = none;
}

-- The key of the row of a settlement, under the given key if it is new.
unfoldable pub record_distribution : ℕ → ℕ → ℕ → ℕ → ℕ → ℕ → String → Store → Option ℕ × Store
record_distribution key market settlement amount pool forfeit currency s =
    if amount == 0 then (none, s) else elim (find (is_of_settlement settlement) s.distributions) [
      | some r ↦ (some r.0, s)
      | none ↦ (
        some key,
        record s {
          distributions =
              insert key
                (new_distribution market settlement amount pool forfeit currency s.active_account)
                s.distributions;
        },
      )
    ]

abbrev pub completed_row : Reference → ℕ → Distribution → Distribution
completed_row ref now d = record d {
  status = DistributionStatus.completed;
  payment_reference = some ref;
  paid_at = some now;
}

abbrev pub failed_row : Distribution → Distribution
failed_row d = record d { status = DistributionStatus.failed }

abbrev pub held_row : Reference → Distribution → Distribution
held_row ref d = record d { pending_transfer_ref = some ref }

abbrev pub update : ℕ → (Distribution → Distribution) → Rows Distribution → Rows Distribution
update key change rows = elim (lookup key rows) as (λ _. Rows Distribution) [
  | none ↦ rows
  | some d ↦ insert key (change d) rows
]

abbrev pub fate_of : TransferAnswer → Fate
fate_of (TransferAnswer.success _) = done
fate_of TransferAnswer.failure = refused
fate_of (TransferAnswer.ambiguous _) = unknown
fate_of TransferAnswer.no_answer = raised

-- A batch that got no answer is held like one of which nobody knows.
abbrev pub batch_fate : TransferAnswer → Fate
batch_fate TransferAnswer.no_answer = unknown
batch_fate a = fate_of a

abbrev pub called : ℕ → ℕ → Fate → Store → List Call
called account amount fate s = record { account = account; amount = amount; fate = fate } ∷ s.calls

-- The handle of a held row, best first.
abbrev pub hold_ref : Option ℕ → Reference → Reference
hold_ref none fallback = fallback
hold_ref (some r) _ = issued r

-- What a transfer does to the row that it is for.
abbrev pub transferred : ℕ → TransferAnswer → ℕ → Distribution → Distribution
transferred key (TransferAnswer.success ref) now d = completed_row ref now d
transferred key TransferAnswer.failure now d = failed_row d
transferred key (TransferAnswer.ambiguous ref) now d = held_row (hold_ref ref (manual key)) d
transferred key TransferAnswer.no_answer now d = failed_row d

pub data Refusal : Type 0 where
  not_found not_pending already_at_bank not_positive no_account : Refusal

-- The answer of the bank, or the refusal to ask it.
pub data Sending : Type 0 where
  answered : TransferAnswer → Sending
  refusal : Refusal → Sending

unfoldable pub execute_transfer : Gateway → ℕ → ℕ → Store → Sending × Store
execute_transfer gw key now s = elim (lookup key s.distributions) [
  | none ↦ (refusal not_found, s)
  | some d ↦
      if not (is_pending d.status)
      then (refusal not_pending, s)
      else if is_some d.pending_transfer_ref
      then (refusal already_at_bank, s)
      else if d.amount == 0
      then (refusal not_positive, s)
      else elim d.public_account [
        | none ↦ (refusal no_account, s)
        | some account ↦
            let a = gw.transfer_to_account account d.amount in
            (
              answered a,
              record s {
                distributions = insert key (transferred key a now d) s.distributions;
                calls = called account d.amount (fate_of a) s;
              },
            )
      ]
]

abbrev pub is_free_row : ℕ × Distribution → Bool
is_free_row r = is_free r.1

-- Over rows of every currency.
abbrev pub total_amount : Rows Distribution → ℕ
total_amount [] = 0
total_amount (r ∷ rows) = r.1.amount + total_amount rows

abbrev pub or_active : Option ℕ → Option ℕ → Option ℕ
or_active (some account) _ = some account
or_active none active = active

-- One row after the other, as they were read.
unfoldable pub update_all :
    (Distribution → Distribution) → Rows Distribution → Rows Distribution → Rows Distribution
update_all change [] table = table
update_all change (r ∷ rows) table = update_all change rows (update r.0 change table)

-- What the transfer of a batch does to its rows; a refused one leaves them.
abbrev pub batch_table :
    TransferAnswer → ℕ → Rows Distribution → Rows Distribution → Rows Distribution
batch_table (TransferAnswer.success ref) now batch table =
    update_all (completed_row ref now) batch table
batch_table TransferAnswer.failure now batch table = table
batch_table (TransferAnswer.ambiguous ref) now batch table =
    update_all (held_row (hold_ref ref (manual_batch now))) batch table
batch_table TransferAnswer.no_answer now batch table =
    update_all (held_row (manual_batch now)) batch table

abbrev pub send_batch : Gateway → ℕ → ℕ → Rows Distribution → Store → Sending × Store
send_batch gw account now batch s =
    let a = gw.transfer_to_account account (total_amount batch) in
    (
      answered a,
      record s {
        distributions = batch_table a now batch s.distributions;
        calls = called account (total_amount batch) (batch_fate a) s;
      },
    )

-- All free rows as one transfer, to the account of the first.
unfoldable pub process_all_pending : Gateway → ℕ → Store → Option Sending × Store
unfolding update_all
process_all_pending gw now s = elim (keep is_free_row s.distributions) [
  | [] ↦ (none, s)
  | (r ∷ rows) ↦ elim (or_active r.1.public_account s.active_account) [
    | none ↦ (some (refusal no_account), s)
    | some account ↦ let sent = send_batch gw account now (r ∷ rows) s in (some sent.0, sent.1)
  ]
]

-- ===== src/Revenue/Paid.antt =====
-- No fee is paid twice (src/markets/revenue-distribution.service.ts).
use oro_backend.Base.{
  ℕ, ◌+◌, ◌≡◌, refl, inl, inr, Bool, true, false, ◌==◌, Option, some, List, [], ◌∷◌, arith,
  Bool-cases, Option-cases, keep, sum, is_some, if◌then◌else◌,
}
use oro_backend.Base.Rows.{Rows, lookup, insert, UniqueKeys, insert-UniqueKeys, keep-UniqueKeys}
use oro_backend.Revenue.Tables.{
  Reference, manual_batch, Distribution, Fate, done, unknown, Call, Store, TransferAnswer, Verdict,
  Gateway, is_pending, is_free,
}
use oro_backend.Revenue.Transfer.{
  completed_row, held_row, update, fate_of, batch_fate, called, hold_ref, transferred,
  execute_transfer, is_free_row, total_amount, or_active, batch_table, send_batch,
  process_all_pending,
}
use oro_backend.Revenue.Resolve.{or_ref, settled_row, released_row, take_verdict}
use oro_backend.Revenue.Sums.{
  out_part, out_total, out_total-insert, out_part-free, Stored, Stored-self, keep-Stored, AllFree,
  out_total-update_all, update_all-UniqueKeys,
}

abbrev pub is_moved : Fate → Bool
is_moved done = true
is_moved unknown = true
is_moved _ = false

-- What was sent, unless the bank refused it at once or a single transfer got no answer.
abbrev pub sent_total : List Call → ℕ
sent_total [] = 0
sent_total (c ∷ calls) = (if is_moved c.fate then c.amount else 0) + sent_total calls

-- All that was sent and did not come back stands in rows that are paid or held, once each.
pub record IsAccounted (s : Store) : Type 0 where
  pub unique : UniqueKeys s.distributions
  pub balanced : sent_total s.calls ≡ out_total s.distributions + sum s.returned

-- What a transfer adds to the fees that are out.
transferred_part :
    (key now : ℕ) (a : TransferAnswer) (d : Distribution)
    → is_free d ≡ true
    → out_part (transferred key a now d) ≡ (if is_moved (fate_of a) then d.amount else 0)
transferred_part key now (TransferAnswer.success ref) d free = ground arith
transferred_part key now TransferAnswer.failure d free = ground arith
transferred_part key now (TransferAnswer.ambiguous ref) d free = ground arith
transferred_part key now TransferAnswer.no_answer d free = ground arith

asked-IsAccounted :
    (key account now : ℕ) (d : Distribution) (a : TransferAnswer) (s : Store)
    → lookup key s.distributions ≡ some d
    → is_free d ≡ true
    → IsAccounted s
    → IsAccounted (record s {
      distributions = insert key (transferred key a now d) s.distributions;
      calls = called account d.amount (fate_of a) s;
    })
asked-IsAccounted key account now d a s e free h =
    let new = transferred key a now d in
    let total = out_total-insert key new d s.distributions e in
    let old = out_part-free d free in
    let part = transferred_part key now a d free in
    record {
      unique = insert-UniqueKeys key new s.distributions h.unique;
      balanced = omega (arith, total, old, part, h.balanced);
    }

pub execute_transfer-IsAccounted :
    (gw : Gateway) (key now : ℕ) (s : Store)
    → IsAccounted s
    → IsAccounted (execute_transfer gw key now s).1
unfolding execute_transfer
execute_transfer-IsAccounted gw key now s h = elim (Option-cases (lookup key s.distributions)) [
  | inl absent ↦ rw (absent, execute_transfer) h
  | inr (d, e) ↦ elim (Bool-cases (is_pending d.status)) [
    | inr over ↦ rw (e, over, execute_transfer) h
    | inl waiting ↦ elim (Bool-cases (is_some d.pending_transfer_ref)) [
      | inl held ↦ rw (e, waiting, held, execute_transfer) h
      | inr free ↦ elim (Bool-cases (d.amount == 0)) [
        | inl nothing ↦ rw (e, waiting, free, nothing, execute_transfer) h
        | inr something ↦ elim (Option-cases d.public_account) [
          | inl nowhere ↦ rw (e, execute_transfer) (rw (waiting, free, something, nowhere) h)
          | inr (account, known) ↦
              rw (e, execute_transfer)
                (rw (waiting, free, something, known)
                  (asked-IsAccounted key account now d (gw.transfer_to_account account d.amount) s e
                    (ground (arith, waiting, free)) h))
        ]
      ]
    ]
  ]
]

-- What a batch adds to the fees that are out.
batch_total :
    (a : TransferAnswer) (now : ℕ) (batch table : Rows Distribution)
    → UniqueKeys batch
    → Stored table batch
    → AllFree batch
    → out_total (batch_table a now batch table)
      ≡ out_total table + (if is_moved (batch_fate a) then total_amount batch else 0)
batch_total (TransferAnswer.success ref) now batch table u h free =
    out_total-update_all (completed_row ref now) batch table u h free (λ d. refl)
batch_total TransferAnswer.failure now batch table u h free = omega arith
batch_total (TransferAnswer.ambiguous ref) now batch table u h free =
    out_total-update_all (held_row (hold_ref ref (manual_batch now))) batch table u h free
      (λ d. ground arith)
batch_total TransferAnswer.no_answer now batch table u h free =
    out_total-update_all (held_row (manual_batch now)) batch table u h free (λ d. ground arith)

batch_table-UniqueKeys :
    (a : TransferAnswer) (now : ℕ) (batch table : Rows Distribution)
    → UniqueKeys table
    → UniqueKeys (batch_table a now batch table)
batch_table-UniqueKeys (TransferAnswer.success ref) now batch table u =
    update_all-UniqueKeys (completed_row ref now) batch table u
batch_table-UniqueKeys TransferAnswer.failure now batch table u = u
batch_table-UniqueKeys (TransferAnswer.ambiguous ref) now batch table u =
    update_all-UniqueKeys (held_row (hold_ref ref (manual_batch now))) batch table u
batch_table-UniqueKeys TransferAnswer.no_answer now batch table u =
    update_all-UniqueKeys (held_row (manual_batch now)) batch table u

keep-AllFree : (rows : Rows Distribution) → AllFree (keep is_free_row rows)
keep-AllFree [] = tt
keep-AllFree (r ∷ rows) = elim (Bool-cases (is_free_row r)) [
  | inl free ↦ rw free (free, keep-AllFree rows)
  | inr other ↦ rw other (keep-AllFree rows)
]

send_batch-IsAccounted :
    (gw : Gateway) (account now : ℕ) (batch : Rows Distribution) (s : Store)
    → UniqueKeys batch
    → Stored s.distributions batch
    → AllFree batch
    → IsAccounted s
    → IsAccounted (send_batch gw account now batch s).1
send_batch-IsAccounted gw account now batch s u stored free h =
    let a = gw.transfer_to_account account (total_amount batch) in
    let total = batch_total a now batch s.distributions u stored free in
    record {
      unique = batch_table-UniqueKeys a now batch s.distributions h.unique;
      balanced = omega (arith, total, h.balanced);
    }

batch_sent-IsAccounted :
    (gw : Gateway) (now : ℕ) (batch : Rows Distribution) (s : Store)
    → keep is_free_row s.distributions ≡ batch
    → UniqueKeys batch
    → Stored s.distributions batch
    → AllFree batch
    → IsAccounted s
    → IsAccounted (process_all_pending gw now s).1
unfolding process_all_pending
batch_sent-IsAccounted gw now [] s e u stored free h = rw (e, process_all_pending) h
batch_sent-IsAccounted gw now (r ∷ rows) s e u stored free h =
    elim (Option-cases (or_active r.1.public_account s.active_account)) [
      | inl nowhere ↦ rw (e, process_all_pending) (rw nowhere h)
      | inr (account, known) ↦
          rw (e, process_all_pending)
            (rw known (send_batch-IsAccounted gw account now (r ∷ rows) s u stored free h))
    ]

pub process_all_pending-IsAccounted :
    (gw : Gateway) (now : ℕ) (s : Store)
    → IsAccounted s
    → IsAccounted (process_all_pending gw now s).1
process_all_pending-IsAccounted gw now s h =
    batch_sent-IsAccounted gw now (keep is_free_row s.distributions) s refl
      (keep-UniqueKeys is_free_row s.distributions h.unique)
      (keep-Stored is_free_row s.distributions s.distributions
        (Stored-self s.distributions h.unique))
      (keep-AllFree s.distributions) h

-- A held row that is read as it is stored.
pub take_verdict-IsAccounted :
    (key : ℕ) (d : Distribution) (ref : Reference) (v : Verdict × Option Reference) (now : ℕ)
    (s : Store)
    → lookup key s.distributions ≡ some d
    → is_some d.pending_transfer_ref ≡ true
    → IsAccounted s
    → IsAccounted (take_verdict key d ref v now s)
take_verdict-IsAccounted key d ref (Verdict.pending, paid) now s e held h = h
take_verdict-IsAccounted key d ref (Verdict.success, paid) now s e held h =
    let new = settled_row (or_ref paid ref) now d in
    let total = out_total-insert key new d s.distributions e in
    let part : out_part d ≡ d.amount = ground (arith, held) in
    rw (e, update)
      (record {
        unique = insert-UniqueKeys key new s.distributions h.unique;
        balanced = omega (arith, total, part, h.balanced);
      })
take_verdict-IsAccounted key d ref (Verdict.failed, paid) now s e held h =
    let new = released_row d in
    let total = out_total-insert key new d s.distributions e in
    let part : out_part d ≡ d.amount = ground (arith, held) in
    rw (e, update)
      (record {
        unique = insert-UniqueKeys key new s.distributions h.unique;
        balanced = omega (arith, total, part, h.balanced);
      })

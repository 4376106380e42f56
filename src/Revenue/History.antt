-- ===== src/Revenue/History.antt =====
-- Any history of the fees (src/markets/revenue-distribution.service.ts).
use Prim.Native.String.{String}
use oro_backend.Base.{
  ℕ, zero, suc, ◌≡◌, inl, inr, true, ◌==◌, Option, none, some, [], ◌∷◌, arith, Bool-cases,
  Option-cases, find, keep,
}
use oro_backend.Base.Rows.{Rows, lookup, UniqueKeys, insert-UniqueKeys, keep-UniqueKeys}
use oro_backend.Revenue.Tables.{
  Reference, issued, manual, manual_batch, Distribution, Store, Verdict, Gateway,
}
use oro_backend.Revenue.Transfer.{
  is_of_settlement, new_distribution, record_distribution, update, execute_transfer,
  process_all_pending,
}
use oro_backend.Revenue.Resolve.{
  take, is_held_row, or_ref, settled_row, released_row, take_verdict, resolve_held, resolve_all,
  resolve_pending_transfers,
}
use oro_backend.Revenue.Sums.{
  out_total-insert_new, Stored, insert-Stored, Stored-self, keep-Stored, take-Stored,
  take-UniqueKeys,
}
use oro_backend.Revenue.Paid.{
  IsAccounted, execute_transfer-IsAccounted, process_all_pending-IsAccounted,
  take_verdict-IsAccounted,
}

AllHeld : Rows Distribution → Type 0
AllHeld [] = Unit
AllHeld (r ∷ rows) = (is_held_row r ≡ true) × AllHeld rows

resolve_held-IsAccounted :
    (gw : Gateway) (now : ℕ) (r : ℕ × Distribution) (s : Store)
    → lookup r.0 s.distributions ≡ some r.1
    → is_held_row r ≡ true
    → IsAccounted s
    → IsAccounted (resolve_held gw now r s)
resolve_held-IsAccounted gw now r s e held h = elim (Option-cases r.1.pending_transfer_ref) [
  | inl nothing ↦ rw (nothing, resolve_held) h
  | inr (issued ref, at) ↦ elim (Option-cases (gw.check_transfer_status ref r.1.public_account)) [
    | inl silent ↦ rw (at, resolve_held) (rw silent h)
    | inr (v, said) ↦
        rw (at, resolve_held)
          (rw said (take_verdict-IsAccounted r.0 r.1 (issued ref) v now s e held h))
  ]
  | inr (manual k, at) ↦ rw (at, resolve_held) h
  | inr (manual_batch k, at) ↦ rw (at, resolve_held) h
]

take_verdict-Stored :
    (key : ℕ) (d : Distribution) (ref : Reference) (v : Verdict × Option Reference) (now : ℕ)
    (rows : Rows Distribution) (s : Store)
    → lookup key s.distributions ≡ some d
    → lookup key rows ≡ none
    → Stored s.distributions rows
    → Stored (take_verdict key d ref v now s).distributions rows
take_verdict-Stored key d ref (Verdict.pending, paid) now rows s e absent h = h
take_verdict-Stored key d ref (Verdict.success, paid) now rows s e absent h =
    rw (e, update)
      (insert-Stored key (settled_row (or_ref paid ref) now d) s.distributions rows absent h)
take_verdict-Stored key d ref (Verdict.failed, paid) now rows s e absent h =
    rw (e, update) (insert-Stored key (released_row d) s.distributions rows absent h)

resolve_held-Stored :
    (gw : Gateway) (now : ℕ) (r : ℕ × Distribution) (rows : Rows Distribution) (s : Store)
    → lookup r.0 s.distributions ≡ some r.1
    → lookup r.0 rows ≡ none
    → Stored s.distributions rows
    → Stored (resolve_held gw now r s).distributions rows
resolve_held-Stored gw now r rows s e absent h = elim (Option-cases r.1.pending_transfer_ref) [
  | inl nothing ↦ rw (nothing, resolve_held) h
  | inr (issued ref, at) ↦ elim (Option-cases (gw.check_transfer_status ref r.1.public_account)) [
    | inl silent ↦ rw (at, resolve_held) (rw silent h)
    | inr (v, said) ↦
        rw (at, resolve_held)
          (rw said (take_verdict-Stored r.0 r.1 (issued ref) v now rows s e absent h))
  ]
  | inr (manual k, at) ↦ rw (at, resolve_held) h
  | inr (manual_batch k, at) ↦ rw (at, resolve_held) h
]

resolve_all-IsAccounted :
    (gw : Gateway) (now : ℕ) (rows : Rows Distribution) (s : Store)
    → UniqueKeys rows
    → Stored s.distributions rows
    → AllHeld rows
    → IsAccounted s
    → IsAccounted (resolve_all gw now rows s)
unfolding resolve_all AllHeld
resolve_all-IsAccounted gw now [] s u stored held h = h
resolve_all-IsAccounted gw now ((k, d) ∷ rows) s u stored held h =
    resolve_all-IsAccounted gw now rows (resolve_held gw now (k, d) s) u.1
      (resolve_held-Stored gw now (k, d) rows s stored.0 u.0 stored.1) held.1
      (resolve_held-IsAccounted gw now (k, d) s stored.0 held.0 h)

keep-AllHeld : (rows : Rows Distribution) → AllHeld (keep is_held_row rows)
unfolding AllHeld
keep-AllHeld [] = tt
keep-AllHeld (r ∷ rows) = elim (Bool-cases (is_held_row r)) [
  | inl held ↦ rw held (held, keep-AllHeld rows)
  | inr other ↦ rw other (keep-AllHeld rows)
]

take-AllHeld : (n : ℕ) (rows : Rows Distribution) → AllHeld rows → AllHeld (take n rows)
unfolding AllHeld
take-AllHeld zero rows h = tt
take-AllHeld (suc n) [] h = tt
take-AllHeld (suc n) (r ∷ rows) h = (h.0, take-AllHeld n rows h.1)

resolve_pending_transfers-IsAccounted :
    (gw : Gateway) (now : ℕ) (s : Store)
    → IsAccounted s
    → IsAccounted (resolve_pending_transfers gw now s)
unfolding resolve_pending_transfers
resolve_pending_transfers-IsAccounted gw now s h =
    let table = s.distributions in
    resolve_all-IsAccounted gw now (take 50 (keep is_held_row table)) s
      (take-UniqueKeys 50 (keep is_held_row table) (keep-UniqueKeys is_held_row table h.unique))
      (take-Stored 50 table (keep is_held_row table)
        (keep-Stored is_held_row table table (Stored-self table h.unique)))
      (take-AllHeld 50 (keep is_held_row table) (keep-AllHeld table)) h

record_distribution-IsAccounted :
    (key market settlement amount pool forfeit : ℕ) (currency : String) (s : Store)
    → lookup key s.distributions ≡ none
    → IsAccounted s
    → IsAccounted (record_distribution key market settlement amount pool forfeit currency s).1
unfolding record_distribution
record_distribution-IsAccounted key market settlement amount pool forfeit currency s new h =
    elim (Bool-cases (amount == 0)) [
      | inl nothing ↦ rw (nothing, record_distribution) h
      | inr something ↦ elim (Option-cases (find (is_of_settlement settlement) s.distributions)) [
        | inr (r, known) ↦ rw (something, known, record_distribution) h
        | inl unknown_yet ↦
            let d =
              new_distribution market settlement amount pool forfeit currency s.active_account in
            let total = out_total-insert_new key d s.distributions new in
            rw (something, unknown_yet, record_distribution)
              (record {
                unique = insert-UniqueKeys key d s.distributions h.unique;
                balanced = omega (arith, total, h.balanced);
              })
      ]
    ]

-- One booking, transfer, batch or check of what is held.
pub data Step : Store → Store → Type 0 where
  booking :
      (key market settlement amount pool forfeit : ℕ) (currency : String) (s : Store)
      → lookup key s.distributions ≡ none
      → Step s (record_distribution key market settlement amount pool forfeit currency s).1
  transfer : (gw : Gateway) (key now : ℕ) (s : Store) → Step s (execute_transfer gw key now s).1
  batch : (gw : Gateway) (now : ℕ) (s : Store) → Step s (process_all_pending gw now s).1
  check : (gw : Gateway) (now : ℕ) (s : Store) → Step s (resolve_pending_transfers gw now s)

pub data Steps (s : Store) : Store → Type 0 where
  start : Steps s s
  then : {t u : Store} → Steps s t → Step t u → Steps s u

Step-IsAccounted : {s s' : Store} → Step s s' → IsAccounted s → IsAccounted s'
Step-IsAccounted (Step.booking key market settlement amount pool forfeit currency s new) h =
    record_distribution-IsAccounted key market settlement amount pool forfeit currency s new h
Step-IsAccounted (Step.transfer gw key now s) h = execute_transfer-IsAccounted gw key now s h
Step-IsAccounted (Step.batch gw now s) h = process_all_pending-IsAccounted gw now s h
Step-IsAccounted (Step.check gw now s) h = resolve_pending_transfers-IsAccounted gw now s h

-- When keys stand once and what was sent, apart from what the bank refused at once and from single
-- transfers that it did not answer, equals the sum of the rows that are paid or held and of what
-- came back, this still holds after any sequence of bookings under new keys, transfers, batches
-- and checks.
pub Steps-IsAccounted : {s s' : Store} → Steps s s' → IsAccounted s → IsAccounted s'
Steps-IsAccounted Steps.start h = h
Steps-IsAccounted (Steps.then steps step) h = Step-IsAccounted step (Steps-IsAccounted steps h)

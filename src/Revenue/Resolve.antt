-- ===== src/Revenue/Resolve.antt =====
-- `resolvePendingTransfers`
-- (src/markets/revenue-distribution.service.ts).
use oro_backend.Base.{ℕ, zero, suc, Bool, Option, none, some, [], ◌∷◌, keep, is_some}
use oro_backend.Base.Rows.{Rows}
use oro_backend.Revenue.Tables.{
  DistributionStatus, Reference, issued, Distribution, Store, Verdict, Gateway,
}
use oro_backend.Revenue.Transfer.{update}

abbrev pub take : ℕ → Rows Distribution → Rows Distribution
take zero rows = []
take (suc n) [] = []
take (suc n) (r ∷ rows) = r ∷ take n rows

abbrev pub is_held_row : ℕ × Distribution → Bool
is_held_row r = is_some r.1.pending_transfer_ref

abbrev pub or_ref : Option Reference → Reference → Reference
or_ref (some r) _ = r
or_ref none r = r

abbrev pub settled_row : Reference → ℕ → Distribution → Distribution
settled_row ref now d = record d {
  status = DistributionStatus.completed;
  payment_reference = some ref;
  paid_at = some now;
  pending_transfer_ref = none;
}

abbrev pub released_row : Distribution → Distribution
released_row d = record d { status = DistributionStatus.pending; pending_transfer_ref = none }

abbrev pub take_verdict :
    ℕ → Distribution → Reference → Verdict × Option Reference → ℕ → Store → Store
take_verdict key d ref (Verdict.pending, paid) now s = s
take_verdict key d ref (Verdict.success, paid) now s = record s {
  distributions = update key (settled_row (or_ref paid ref) now) s.distributions;
}
take_verdict key d ref (Verdict.failed, paid) now s = record s {
  distributions = update key released_row s.distributions;
  returned = d.amount ∷ s.returned;
}

-- One held row as it was read; a handle of the program's own is for a human.
abbrev pub resolve_held : Gateway → ℕ → ℕ × Distribution → Store → Store
resolve_held gw now r s = elim r.1.pending_transfer_ref as (λ _. Store) [
  | some (issued ref) ↦ elim (gw.check_transfer_status ref r.1.public_account) as (λ _. Store) [
    | none ↦ s
    | some verdict ↦ take_verdict r.0 r.1 (issued ref) verdict now s
  ]
  | _ ↦ s
]

unfoldable pub resolve_all : Gateway → ℕ → Rows Distribution → Store → Store
resolve_all gw now [] s = s
resolve_all gw now (r ∷ rows) s = resolve_all gw now rows (resolve_held gw now r s)

unfoldable pub resolve_pending_transfers : Gateway → ℕ → Store → Store
unfolding resolve_all
resolve_pending_transfers gw now s =
    resolve_all gw now (take 50 (keep is_held_row s.distributions)) s

-- ===== src/Revenue/Sums.antt =====
-- Sums over the rows of fees (src/markets/revenue-distribution.service.ts).
use oro_backend.Base.{
  ℕ, zero, suc, ◌+◌, ◌≡◌, refl, inl, inr, Bool, true, ◌||◌, none, some, [], ◌∷◌, arith, ==_refl,
  Bool-cases, Option-cases, keep, is_some, if◌then◌else◌,
}
use oro_backend.Base.Rows.{Rows, lookup, insert, lookup-insert, UniqueKeys, insert-UniqueKeys}
use oro_backend.Revenue.Tables.{Distribution, is_completed, is_free}
use oro_backend.Revenue.Transfer.{update, update_all, total_amount}
use oro_backend.Revenue.Resolve.{take}

-- The fee of a row is paid, or at the bank.
abbrev pub is_out : Distribution → Bool
is_out d = is_completed d.status || is_some d.pending_transfer_ref

abbrev pub out_part : Distribution → ℕ
out_part d = if is_out d then d.amount else 0

abbrev pub out_total : Rows Distribution → ℕ
out_total [] = 0
out_total (r ∷ rows) = out_part r.1 + out_total rows

pub out_total-insert :
    (k : ℕ) (d old : Distribution) (rows : Rows Distribution)
    → lookup k rows ≡ some old
    → out_total (insert k d rows) + out_part old ≡ out_total rows + out_part d
out_total-insert k d old [] e = cc
out_total-insert k d old (r ∷ rows) e = ground (arith, out_total-insert k d old rows)

pub out_total-insert_new :
    (k : ℕ) (d : Distribution) (rows : Rows Distribution)
    → lookup k rows ≡ none
    → out_total (insert k d rows) ≡ out_total rows + out_part d
out_total-insert_new k d [] e = omega arith
out_total-insert_new k d (r ∷ rows) e = ground (arith, out_total-insert_new k d rows)

pub out_part-free : (d : Distribution) → is_free d ≡ true → out_part d ≡ 0
out_part-free d h = ground arith

-- Every row of the list stands in the table as it was read.
abbrev pub Stored : Rows Distribution → Rows Distribution → Type 0
Stored table [] = Unit
Stored table (r ∷ rows) = (lookup r.0 table ≡ some r.1) × Stored table rows

-- A write under a key that the list does not have.
pub insert-Stored :
    (k : ℕ) (d : Distribution) (table rows : Rows Distribution)
    → lookup k rows ≡ none
    → Stored table rows
    → Stored (insert k d table) rows
insert-Stored k d table [] absent h = tt
insert-Stored k d table (r ∷ rows) absent h = (
  ground (arith, lookup-insert r.0 k d table, h.0, absent),
  insert-Stored k d table rows (ground (arith, absent)) h.1,
)

Stored-cons :
    (x : ℕ × Distribution) (table rows : Rows Distribution)
    → lookup x.0 rows ≡ none
    → Stored table rows
    → Stored (x ∷ table) rows
Stored-cons x table [] absent h = tt
Stored-cons x table (r ∷ rows) absent h =
    (ground (arith, absent, h.0), Stored-cons x table rows (ground (arith, absent)) h.1)

pub Stored-self : (rows : Rows Distribution) → UniqueKeys rows → Stored rows rows
Stored-self [] u = tt
Stored-self (r ∷ rows) u =
    (ground (arith, ==_refl r.0), Stored-cons r rows rows u.0 (Stored-self rows u.1))

pub keep-Stored :
    (p : ℕ × Distribution → Bool) (table rows : Rows Distribution)
    → Stored table rows
    → Stored table (keep p rows)
keep-Stored p table [] h = tt
keep-Stored p table (r ∷ rows) h = elim (Bool-cases (p r)) [
  | inl kept ↦ rw kept (h.0, keep-Stored p table rows h.1)
  | inr dropped ↦ rw dropped (keep-Stored p table rows h.1)
]

pub take-Stored :
    (n : ℕ) (table rows : Rows Distribution) → Stored table rows → Stored table (take n rows)
take-Stored zero table rows h = tt
take-Stored (suc n) table [] h = tt
take-Stored (suc n) table (r ∷ rows) h = (h.0, take-Stored n table rows h.1)

lookup-take :
    (n k : ℕ) (rows : Rows Distribution) → lookup k rows ≡ none → lookup k (take n rows) ≡ none
lookup-take zero k rows h = refl
lookup-take (suc n) k [] h = refl
lookup-take (suc n) k (r ∷ rows) h = ground (arith, lookup-take n k rows)

pub take-UniqueKeys :
    (n : ℕ) (rows : Rows Distribution) → UniqueKeys rows → UniqueKeys (take n rows)
take-UniqueKeys zero rows u = tt
take-UniqueKeys (suc n) [] u = tt
take-UniqueKeys (suc n) ((k, d) ∷ rows) u = (lookup-take n k rows u.0, take-UniqueKeys n rows u.1)

abbrev pub AllFree : Rows Distribution → Type 0
AllFree [] = Unit
AllFree (r ∷ rows) = (is_free r.1 ≡ true) × AllFree rows

-- Rows that were free, each changed into one that is out.
pub out_total-update_all :
    (change : Distribution → Distribution) (rows table : Rows Distribution)
    → UniqueKeys rows
    → Stored table rows
    → AllFree rows
    → ((d : Distribution) → out_part (change d) ≡ d.amount)
    → out_total (update_all change rows table) ≡ out_total table + total_amount rows
unfolding update_all
out_total-update_all change [] table u h free out = omega arith
out_total-update_all change ((k, d) ∷ rows) table u h free out =
    let one = out_total-insert k (change d) d table h.0 in
    let step : update k change table ≡ insert k (change d) table = rw (h.0, update) refl in
    let rest =
      out_total-update_all change rows (insert k (change d) table) u.1
        (insert-Stored k (change d) table rows u.0 h.1) free.1 out in
    rw (step, rest) (omega (arith, one, out d, out_part-free d free.0))

pub update_all-UniqueKeys :
    (change : Distribution → Distribution) (rows table : Rows Distribution)
    → UniqueKeys table
    → UniqueKeys (update_all change rows table)
unfolding update_all
update_all-UniqueKeys change [] table u = u
update_all-UniqueKeys change (r ∷ rows) table u = elim (Option-cases (lookup r.0 table)) [
  | inl absent ↦ rw (absent, update) (update_all-UniqueKeys change rows table u)
  | inr (d, e) ↦
      rw (e, update)
        (update_all-UniqueKeys change rows (insert r.0 (change d) table)
          (insert-UniqueKeys r.0 (change d) table u))
]

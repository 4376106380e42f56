-- ===== src/Base/Rows.antt =====
-- A database table of rows by primary key, in insertion order: what the repositories' `find`,
-- `update` and `save` do with the rows that the program names.
use Prim.Native.Nat.{ℕ}
use mathlib.Core.Path.{◌≡◌, refl}
use mathlib.Core.Logic.{◌≢◌}
use mathlib.Core.Option.{Option, none, some}
use mathlib.Core.List.{List, [], ◌∷◌}
use native.Mathlib.Omega.{arith}
use mathlib.Core.Bool.{Bool}
use mathlib.Core.Logic.{inl, inr}
use oro_backend.Base.Tests.{◌==◌, if◌then◌else◌, Bool-cases, ==_iff}
use oro_backend.Base.Lists.{keep}

abbrev pub Rows {ℓ} : Type ℓ → Type ℓ
Rows V = List (ℕ × V)

module _ {ℓ} {V : Type ℓ} where
  abbrev pub lookup : ℕ → Rows V → Option V
  lookup k [] = none
  lookup k ((j, v) ∷ d) = let rest = lookup k d in if k == j then some v else rest

  -- Writes the row under its key, at the end if the key is new.
  abbrev pub insert : ℕ → V → Rows V → Rows V
  insert k v [] = (k, v) ∷ []
  insert k v (e ∷ d) = let rest = insert k v d in if k == e.0 then (k, v) ∷ d else e ∷ rest

  pub lookup-insert :
      (j k : ℕ) (v : V) (d : Rows V)
      → lookup j (insert k v d) ≡ (if j == k then some v else lookup j d)
  lookup-insert j k v [] = ground arith
  lookup-insert j k v (e ∷ d) = ground (arith, lookup-insert j k v d)

  pub lookup-insert_self : (k : ℕ) (v : V) (d : Rows V) → lookup k (insert k v d) ≡ some v
  lookup-insert_self k v d = ground (arith, lookup-insert k k v d)

  pub lookup-insert_ne :
      (j k : ℕ) (v : V) (d : Rows V) → j ≢ k → lookup j (insert k v d) ≡ lookup j d
  lookup-insert_ne j k v d h = ground (arith, lookup-insert j k v d)

-- A primary key stands once.
abbrev pub UniqueKeys {ℓ} : {V : Type ℓ} → Rows V → Type ℓ
UniqueKeys [] = Unit
UniqueKeys ((k, v) ∷ rows) = (lookup k rows ≡ none) × UniqueKeys rows

pub insert-UniqueKeys {ℓ} :
    {V : Type ℓ} (k : ℕ) (v : V) (rows : Rows V) → UniqueKeys rows → UniqueKeys (insert k v rows)
insert-UniqueKeys k v [] u = (refl, tt)
insert-UniqueKeys k v (r ∷ rows) u =
    ground (arith, insert-UniqueKeys k v rows u.1, lookup-insert r.0 k v rows)

-- Filtering a table: a key that stands once is kept with its row, or not at all.
abbrev pub only {ℓ} : {V : Type ℓ} → (ℕ × V → Bool) → ℕ → Option V → Option V
only p k none = none
only p k (some v) = if p (k, v) then some v else none

module _ {ℓ} {V : Type ℓ} (p : ℕ × V → Bool) where
  pub lookup-keep-none : (j : ℕ) (d : Rows V) → lookup j d ≡ none → lookup j (keep p d) ≡ none
  lookup-keep-none j [] h = refl
  lookup-keep-none j (r ∷ d) h = ground (arith, lookup-keep-none j d)

  pub keep-UniqueKeys : (d : Rows V) → UniqueKeys d → UniqueKeys (keep p d)
  keep-UniqueKeys [] u = tt
  keep-UniqueKeys (r ∷ d) u = elim (Bool-cases (p r)) [
    | inl kept ↦ rw kept (lookup-keep-none r.0 d u.0, keep-UniqueKeys d u.1)
    | inr dropped ↦ rw dropped (keep-UniqueKeys d u.1)
  ]

  pub lookup-keep :
      (j : ℕ) (d : Rows V) → UniqueKeys d → lookup j (keep p d) ≡ only p j (lookup j d)
  lookup-keep j [] u = refl
  lookup-keep j ((k, v) ∷ d) u =
      let ih = lookup-keep j d u.1 in
      elim (Bool-cases (j == k)) [
        | inl here ↦
            let e : j ≡ k = (==_iff j k).0 here in
            elim (Bool-cases (p (k, v))) [
              | inl kept ↦ rw (kept, here, e, kept) refl
              | inr dropped ↦ rw (dropped, here, ih, e, u.0, dropped) refl
            ]
        | inr there ↦ elim (Bool-cases (p (k, v))) [
          | inl kept ↦ rw (kept, there) ih
          | inr dropped ↦ rw (dropped, there) ih
        ]
      ]

-- ===== src/Standings/Counting.antt =====
-- Counts of teams in lists, sorts and buckets (src/markets/unl-standings.util.ts).
use oro_backend.Base.{
  ℕ, suc, ◌+◌, ◌≡◌, ◌≤◌, refl, ap, ◌∙◌, inl, inr, ◌==◌, List, [], ◌∷◌, ◌++◌, length, length-append,
  Bool-cases, All, if◌then◌else◌, arith,
}
use oro_backend.Base.Int.{ℤ, pos, leb_ℤ}
use oro_backend.Base.Rows.{Rows}
use oro_backend.Standings.Tally.{Fixture, Tally, tally_for}
use oro_backend.Standings.Order.{
  insert_by, sort_by, compare_level, same_record, join_bucket, buckets_of, level_buckets,
}

abbrev pub occurs : ℕ → List ℕ → ℕ
occurs x [] = 0
occurs x (y ∷ ys) = let rest = occurs x ys in if x == y then suc rest else rest

abbrev pub flatten : List (List ℕ) → List ℕ
flatten [] = []
flatten (b ∷ bs) = b ++ flatten bs

pub occurs-append : (x : ℕ) (xs ys : List ℕ) → occurs x (xs ++ ys) ≡ occurs x xs + occurs x ys
occurs-append x [] ys = omega arith
occurs-append x (y ∷ xs) ys = ground (arith, occurs-append x xs ys)

pub occurs-insert_by :
    (compare : ℕ → ℕ → ℤ) (x y : ℕ) (ys : List ℕ)
    → occurs x (insert_by compare y ys) ≡ occurs x (y ∷ ys)
occurs-insert_by compare x y [] = refl
occurs-insert_by compare x y (z ∷ zs) = elim (Bool-cases (leb_ℤ (compare y z) (pos 0))) [
  | inl first ↦ rw first refl
  | inr later ↦ rw later (ground (arith, occurs-insert_by compare x y zs))
]

pub occurs-sort_by :
    (compare : ℕ → ℕ → ℤ) (x : ℕ) (ys : List ℕ) → occurs x (sort_by compare ys) ≡ occurs x ys
occurs-sort_by compare x [] = refl
occurs-sort_by compare x (y ∷ ys) =
    occurs-insert_by compare x y (sort_by compare ys) ∙ ground (arith, occurs-sort_by compare x ys)

flatten-join_bucket :
    (mini : Rows Tally) (x : ℕ) (bs : List (List ℕ))
    → flatten (join_bucket mini x bs) ≡ x ∷ flatten bs
flatten-join_bucket mini x [] = refl
flatten-join_bucket mini x ([] ∷ bs) = refl
flatten-join_bucket mini x ((y ∷ ys) ∷ bs) = elim (Bool-cases (same_record mini x y)) [
  | inl same ↦ rw same refl
  | inr other ↦ rw other refl
]

pub flatten-buckets_of : (mini : Rows Tally) (xs : List ℕ) → flatten (buckets_of mini xs) ≡ xs
flatten-buckets_of mini [] = refl
flatten-buckets_of mini (x ∷ xs) =
    flatten-join_bucket mini x (buckets_of mini xs)
    ∙ ap (λ (t : List ℕ). x ∷ t) (flatten-buckets_of mini xs)

length-insert_by :
    (compare : ℕ → ℕ → ℤ) (y : ℕ) (ys : List ℕ) → length (insert_by compare y ys) ≡ suc (length ys)
length-insert_by compare y [] = refl
length-insert_by compare y (z ∷ zs) = elim (Bool-cases (leb_ℤ (compare y z) (pos 0))) [
  | inl first ↦ rw first refl
  | inr later ↦ rw later (ap suc (length-insert_by compare y zs))
]

length-sort_by : (compare : ℕ → ℕ → ℤ) (ys : List ℕ) → length (sort_by compare ys) ≡ length ys
length-sort_by compare [] = refl
length-sort_by compare (y ∷ ys) =
    length-insert_by compare y (sort_by compare ys) ∙ ap suc (length-sort_by compare ys)

parts_bound :
    (n : ℕ) (bs : List (List ℕ)) → length (flatten bs) ≤ n → All (λ (b : List ℕ). length b ≤ n) bs
parts_bound n [] h = tt
parts_bound n (b ∷ bs) h =
    let e = length-append b (flatten bs) in
    (omega (arith, e, h), parts_bound n bs (omega (arith, e, h)))

pub buckets_bound :
    (ids : List ℕ) (fixtures : List Fixture)
    → All (λ (b : List ℕ). length b ≤ length ids) (level_buckets ids fixtures)
buckets_bound ids fixtures =
    let mini = tally_for ids fixtures in
    parts_bound (length ids) (level_buckets ids fixtures) (
      omega (
        arith,
        ap length (flatten-buckets_of mini (sort_by (compare_level mini) ids)),
        length-sort_by (compare_level mini) ids,
      ))

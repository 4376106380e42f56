-- ===== src/Standings/Order.antt =====
-- `orderLevelTeams`, `fallbackOrder` and `computeGroupTable` (src/markets/unl-standings.util.ts).
use Prim.Native.String.{String}
use oro_backend.Base.{
  ℕ, zero, suc, ◌+◌, Bool, true, false, ◌&&◌, ◌==◌, Option, none, some, List, [], ◌∷◌, ◌++◌, leb,
  length, get_or, keep, if◌then◌else◌,
}
use oro_backend.Base.Int.{ℤ, pos, ◌-ℤ◌, leb_ℤ, eqb_ℤ}
use oro_backend.Base.Rows.{Rows}
use oro_backend.Standings.Tally.{Team, Fixture, Tally, tally_for, tally_of, gd_of, without}

-- `a || b` on the differences that a comparison returns.
abbrev pub or_else : ℤ → ℤ → ℤ
or_else a b = if eqb_ℤ a (pos 0) then b else a

-- Inserts before the first element that does not stand strictly before it.
abbrev pub insert_by : (ℕ → ℕ → ℤ) → ℕ → List ℕ → List ℕ
insert_by compare x [] = x ∷ []
insert_by compare x (y ∷ ys) =
    let rest = insert_by compare x ys in
    if leb_ℤ (compare x y) (pos 0) then x ∷ y ∷ ys else y ∷ rest

-- `[...ids].sort(compare)`.
abbrev pub sort_by : (ℕ → ℕ → ℤ) → List ℕ → List ℕ
sort_by compare [] = []
sort_by compare (x ∷ xs) = insert_by compare x (sort_by compare xs)

abbrev pub compare_level : Rows Tally → ℕ → ℕ → ℤ
compare_level mini a b =
    let ma = tally_of mini a in
    let mb = tally_of mini b in
    or_else (pos mb.points -ℤ pos ma.points)
      (or_else (gd_of mb -ℤ gd_of ma) (pos mb.gf -ℤ pos ma.gf))

-- `teamById.get(id)`: the last team under the key.
abbrev pub team_of : List Team → ℕ → Option Team
team_of [] id = none
team_of (t ∷ teams) id = elim (team_of teams id) [
  | some u ↦ some u
  | none ↦ if t.id == id then some t else none
]

abbrev pub sort_order_of : List Team → ℕ → ℕ
sort_order_of teams id = elim (team_of teams id) [ none ↦ 0 | some t ↦ t.sort_order ]

abbrev pub compare_fallback : Rows Tally → List Team → ℕ → ℕ → ℤ
compare_fallback overall teams a b =
    let ta = tally_of overall a in
    let tb = tally_of overall b in
    or_else (gd_of tb -ℤ gd_of ta) (
      or_else (pos tb.gf -ℤ pos ta.gf)
        (or_else (pos (sort_order_of teams a) -ℤ pos (sort_order_of teams b)) (pos a -ℤ pos b)))

unfoldable pub fallback_order : List ℕ → Rows Tally → List Team → List ℕ
fallback_order ids overall teams = sort_by (compare_fallback overall teams) ids

-- Equal head-to-head records.
abbrev pub same_record : Rows Tally → ℕ → ℕ → Bool
same_record mini a b =
    let ma = tally_of mini a in
    let mb = tally_of mini b in
    (ma.points == mb.points && eqb_ℤ (gd_of ma) (gd_of mb)) && ma.gf == mb.gf

abbrev pub join_bucket : Rows Tally → ℕ → List (List ℕ) → List (List ℕ)
join_bucket mini x [] = (x ∷ []) ∷ []
join_bucket mini x ([] ∷ buckets) = (x ∷ []) ∷ buckets
join_bucket mini x ((y ∷ ys) ∷ buckets) =
    if same_record mini x y then (x ∷ y ∷ ys) ∷ buckets else (x ∷ []) ∷ (y ∷ ys) ∷ buckets

-- Runs of teams with equal records.
abbrev pub buckets_of : Rows Tally → List ℕ → List (List ℕ)
buckets_of mini [] = []
buckets_of mini (x ∷ xs) = join_bucket mini x (buckets_of mini xs)

-- The lists of all parts, one after the other, unless a part gives none.
abbrev pub join_parts {ℓ} : {A : Type ℓ} → (A → Option (List ℕ)) → List A → Option (List ℕ)
join_parts f [] = some []
join_parts f (x ∷ xs) =
    let rest = join_parts f xs in
    elim (f x) [
      | none ↦ none
      | some order ↦ elim rest [ none ↦ none | some orders ↦ some (order ++ orders) ]
    ]

-- What becomes of one bucket of a list of `n` teams.
abbrev pub order_bucket :
    ℕ → (List ℕ → Option (List ℕ)) → Rows Tally → List Team → List ℕ → Option (List ℕ)
order_bucket n again overall teams bucket = elim (length bucket == 1) [
  | true ↦ some bucket
  | false ↦ elim (length bucket == n) [
    | true ↦ some (fallback_order bucket overall teams)
    | false ↦ again bucket
  ]
]

abbrev pub level_buckets : List ℕ → List Fixture → List (List ℕ)
level_buckets ids fixtures =
    let mini = tally_for ids fixtures in buckets_of mini (sort_by (compare_level mini) ids)

-- On fuel: `none` is a recursion that has not ended.
unfoldable pub order_level_teams :
    ℕ → List ℕ → Rows Tally → List Fixture → List Team → Option (List ℕ)
unfolding fallback_order
order_level_teams zero ids overall fixtures teams = none
order_level_teams (suc fuel) ids overall fixtures teams = elim (leb (length ids) 1) [
  | true ↦ some ids
  | false ↦
      join_parts
        (order_bucket (length ids) (λ bucket. order_level_teams fuel bucket overall fixtures teams)
          overall teams)
        (level_buckets ids fixtures)
]

-- The keys of `teamById`: a key that stands again replaces the team, not the place.
abbrev pub team_ids : List Team → List ℕ
team_ids [] = []
team_ids (t ∷ teams) = let rest = team_ids teams in t.id ∷ without t.id rest

-- The points that occur, each where it first occurs.
abbrev pub levels_of : Rows Tally → List ℕ → List ℕ
levels_of overall [] = []
levels_of overall (id ∷ ids) =
    let p = (tally_of overall id).points in p ∷ without p (levels_of overall ids)

abbrev pub on_level : Rows Tally → ℕ → List ℕ → List ℕ
on_level overall p ids = keep (λ id. (tally_of overall id).points == p) ids

unfoldable pub group_order : List Team → List Fixture → Option (List ℕ)
unfolding order_level_teams
group_order teams fixtures =
    let ids = team_ids teams in
    let overall = tally_for ids fixtures in
    join_parts
      (λ p.
        let level = on_level overall p ids in
        order_level_teams (suc (length level)) level overall fixtures teams)
      (sort_by (λ a b. pos b -ℤ pos a) (levels_of overall ids))

pub record Row : Type 0 where
  pub position : ℕ
  pub team_name : String
  pub team_badge : String
  pub tally : Tally
  pub gd : ℤ

abbrev pub table_rows : ℕ → List Team → Rows Tally → List ℕ → List Row
table_rows position teams overall [] = []
table_rows position teams overall (id ∷ ids) =
    let rest = table_rows (position + 1) teams overall ids in
    elim (team_of teams id) [
      | none ↦ rest
      | some t ↦
          record {
            position = position;
            team_name = t.name;
            team_badge = get_or t.flag_url "";
            tally = tally_of overall id;
            gd = gd_of (tally_of overall id);
          }
          ∷ rest
    ]

unfoldable pub compute_group_table : List Team → List Fixture → Option (List Row)
unfolding group_order
compute_group_table teams fixtures = elim (group_order teams fixtures) [
  | none ↦ none
  | some order ↦ some (table_rows 1 teams (tally_for (team_ids teams) fixtures) order)
]

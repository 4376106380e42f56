-- ===== src/Standings/Sorting.antt =====
-- Every team stands in the order of a group as often as in the list of teams
-- (src/markets/unl-standings.util.ts).
use oro_backend.Base.{
  ℕ, suc, ◌*◌, ◌≡◌, ◌<◌, refl, sym, ap, ◌∙◌, inl, inr, true, false, ◌==◌, ==_iff, Option, some,
  List, [], ◌∷◌, ◌++◌, leb, length, Bool-cases, if◌then◌else◌, arith,
}
use oro_backend.Base.Int.{pos, ◌-ℤ◌}
use oro_backend.Base.Rows.{Rows}
use oro_backend.Standings.Tally.{Team, Fixture, Tally, tally_for, tally_of, without}
use oro_backend.Standings.Order.{
  sort_by, join_parts, order_level_teams, team_ids, levels_of, on_level, group_order,
}
use oro_backend.Standings.Counting.{occurs, occurs-append, occurs-sort_by}
use oro_backend.Standings.Enough.{order_level_teams-Orders}

abbrev pub concat_levels : (ℕ → List ℕ) → List ℕ → List ℕ
concat_levels f [] = []
concat_levels f (p ∷ ps) = f p ++ concat_levels f ps

occurs-without_same : (q p : ℕ) (xs : List ℕ) → (q == p) ≡ true → occurs q (without p xs) ≡ 0
occurs-without_same q p [] h = refl
occurs-without_same q p (x ∷ xs) h = ground (arith, occurs-without_same q p xs h)

occurs-without_other :
    (q p : ℕ) (xs : List ℕ) → (q == p) ≡ false → occurs q (without p xs) ≡ occurs q xs
occurs-without_other q p [] h = refl
occurs-without_other q p (x ∷ xs) h = ground (arith, occurs-without_other q p xs h)

different :
    (overall : Rows Tally) (x id : ℕ)
    → ((tally_of overall x).points == (tally_of overall id).points) ≡ false
    → (x == id) ≡ false
different overall x id other = elim (Bool-cases (x == id)) [
  | inr ne ↦ ne
  | inl same ↦
      let e : x ≡ id = (==_iff x id).0 same in
      let points = ap (λ (k : ℕ). (tally_of overall k).points) e in ground (arith, points, other)
]

-- The level of a team occurs once.
occurs-levels_of :
    (overall : Rows Tally) (x : ℕ) (ids : List ℕ)
    → 0 < occurs x ids
    → occurs (tally_of overall x).points (levels_of overall ids) ≡ 1
occurs-levels_of overall x [] h = omega arith
occurs-levels_of overall x (id ∷ ids) h =
    let q = (tally_of overall x).points in
    let p = (tally_of overall id).points in
    elim (Bool-cases (q == p)) [
      | inl same ↦ rw same (ap suc (occurs-without_same q p (levels_of overall ids) same))
      | inr other ↦
          let ne : (x == id) ≡ false = different overall x id other in
          let rest : 0 < occurs x ids = ground (arith, ne, h) in
          rw other (
            occurs-without_other q p (levels_of overall ids) other
            ∙ occurs-levels_of overall x ids rest)
    ]

pub occurs-on_level :
    (overall : Rows Tally) (p x : ℕ) (ids : List ℕ)
    → occurs x (on_level overall p ids)
      ≡ (if (tally_of overall x).points == p then occurs x ids else 0)
occurs-on_level overall p x [] = ground arith
occurs-on_level overall p x (id ∷ ids) =
    let ih = occurs-on_level overall p x ids in
    elim (Bool-cases (x == id)) [
      | inl same ↦
          let e : x ≡ id = (==_iff x id).0 same in
          elim (Bool-cases ((tally_of overall id).points == p)) [
            | inl here ↦ rw (here, same, ih, e, here) (ap (λ (k : ℕ). suc (occurs k ids)) (sym e))
            | inr there ↦ rw (there, same, ih, e, there) refl
          ]
      | inr other ↦ elim (Bool-cases ((tally_of overall id).points == p)) [
        | inl here ↦ rw (here, other, ih) refl
        | inr there ↦ rw (there, other, ih) refl
      ]
    ]

occurs-concat_levels :
    (f : ℕ → List ℕ) (x q n : ℕ) (ps : List ℕ)
    → ((p : ℕ) → occurs x (f p) ≡ (if q == p then n else 0))
    → occurs x (concat_levels f ps) ≡ occurs q ps * n
occurs-concat_levels f x q n [] h = omega arith
occurs-concat_levels f x q n (p ∷ ps) h =
    occurs-append x (f p) (concat_levels f ps) ∙ elim (Bool-cases (q == p)) [
      | inl same ↦ rw (h p, occurs-concat_levels f x q n ps h, same) (grind arith)
      | inr other ↦ rw (h p, occurs-concat_levels f x q n ps h, other) (omega arith)
    ]

join_parts_levels :
    (f : ℕ → Option (List ℕ)) (g : ℕ → List ℕ) (ps : List ℕ)
    → ((p : ℕ) → f p ≡ some (g p))
    → join_parts f ps ≡ some (concat_levels g ps)
join_parts_levels f g [] h = refl
join_parts_levels f g (p ∷ ps) h = rw (join_parts, h p, join_parts_levels f g ps h) refl

-- The teams of one level in their order, which there is fuel enough for.
abbrev pub level_order : List Team → List Fixture → ℕ → List ℕ
level_order teams fixtures p =
    let ids = team_ids teams in
    let overall = tally_for ids fixtures in
    let level = on_level overall p ids in
    (order_level_teams-Orders (suc (length level)) level overall fixtures teams (omega arith)).0

pub occurs-level_order :
    (teams : List Team) (fixtures : List Fixture) (p x : ℕ)
    → let overall = tally_for (team_ids teams) fixtures in
      occurs x (level_order teams fixtures p)
      ≡ (if (tally_of overall x).points == p then occurs x (team_ids teams) else 0)
occurs-level_order teams fixtures p x =
    let ids = team_ids teams in
    let overall = tally_for ids fixtures in
    let level = on_level overall p ids in
    (order_level_teams-Orders (suc (length level)) level overall fixtures teams (omega arith)).2 x
    ∙ occurs-on_level overall p x ids

abbrev pub ranked_order : List Team → List Fixture → List ℕ
ranked_order teams fixtures =
    let ids = team_ids teams in
    concat_levels (level_order teams fixtures)
      (sort_by (λ a b. pos b -ℤ pos a) (levels_of (tally_for ids fixtures) ids))

pub group_order_ends :
    (teams : List Team) (fixtures : List Fixture)
    → group_order teams fixtures ≡ some (ranked_order teams fixtures)
unfolding group_order
group_order_ends teams fixtures =
    let ids = team_ids teams in
    let overall = tally_for ids fixtures in
    join_parts_levels
      (λ p.
        let level = on_level overall p ids in
        order_level_teams (suc (length level)) level overall fixtures teams)
      (level_order teams fixtures) (sort_by (λ a b. pos b -ℤ pos a) (levels_of overall ids))
      (λ p.
        let level = on_level overall p ids in
        (order_level_teams-Orders (suc (length level)) level overall fixtures teams
          (omega arith)).1)

-- The recursion that orders a group ends, whatever the fixtures are, with an order that holds
-- every team as often as the keys of its teams do.
pub group_order-occurs :
    (teams : List Team) (fixtures : List Fixture)
    → (order : List ℕ) × (group_order teams fixtures ≡ some order)
      × ((x : ℕ) → occurs x order ≡ occurs x (team_ids teams))
group_order-occurs teams fixtures =
    let ids = team_ids teams in
    let overall = tally_for ids fixtures in
    let by_points = λ (a : ℕ) (b : ℕ). pos b -ℤ pos a in
    let ps = sort_by by_points (levels_of overall ids) in
    (
      ranked_order teams fixtures,
      group_order_ends teams fixtures,
      (λ x.
          let q = (tally_of overall x).points in
          occurs-concat_levels (level_order teams fixtures) x q (occurs x ids) ps
            (λ p. occurs-level_order teams fixtures p x)
          ∙ elim (Bool-cases (leb (occurs x ids) 0)) [
            | inl never ↦ ground arith
            | inr some_time ↦
                let level = occurs-levels_of overall x ids (ground arith) in
                rw (occurs-sort_by by_points q (levels_of overall ids), level) (omega arith)
          ]),
    )

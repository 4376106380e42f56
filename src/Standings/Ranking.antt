-- ===== src/Standings/Ranking.antt =====
-- The order of a group goes by points (src/markets/unl-standings.util.ts).
use oro_backend.Base.{
  ℕ, ◌≡◌, ◌<◌, ◌≤◌, refl, inl, inr, true, false, ◌==◌, ==_iff, some, List, [], ◌∷◌, ◌++◌,
  Bool-cases, arith, leb,
}
use oro_backend.Base.Int.{ℤ, pos, leb_ℤ, ◌-ℤ◌}
use oro_backend.Standings.Tally.{Team, Fixture, tally_for, tally_of}
use oro_backend.Standings.Order.{insert_by, sort_by, team_ids, levels_of, group_order}
use oro_backend.Standings.Counting.{occurs, occurs-append, occurs-insert_by}
use oro_backend.Standings.Sorting.{
  concat_levels, level_order, occurs-level_order, ranked_order, group_order_ends,
}

-- Nothing that stands later has a greater key.
abbrev pub IsRanked : (ℕ → ℕ) → List ℕ → Type 0
IsRanked key [] = Unit
IsRanked key (x ∷ xs) = ((y : ℕ) → 0 < occurs y xs → key y ≤ key x) × IsRanked key xs

abbrev by_points : ℕ → ℕ → ℤ
by_points a b = pos b -ℤ pos a

by_points-le : (a b : ℕ) → leb_ℤ (by_points a b) (pos 0) ≡ true → b ≤ a
unfolding ◌-ℤ◌
by_points-le a b h = ground arith

by_points-ge : (a b : ℕ) → leb_ℤ (by_points a b) (pos 0) ≡ false → a ≤ b
unfolding ◌-ℤ◌
by_points-ge a b h = ground arith

abbrev itself : ℕ → ℕ
itself x = x

insert_by-IsRanked :
    (x : ℕ) (ys : List ℕ) → IsRanked itself ys → IsRanked itself (insert_by by_points x ys)
insert_by-IsRanked x [] h = ((λ y never. omega arith), tt)
insert_by-IsRanked x (y ∷ ys) h = elim (Bool-cases (leb_ℤ (by_points x y) (pos 0))) [
  | inl first ↦
      let le = by_points-le x y first in
      rw first (
        (λ z e. elim (Bool-cases (z == y)) [
          | inl same ↦ grind (arith, ==_iff)
          | inr other ↦
              let later : 0 < occurs z ys = ground (arith, other, e) in
              let below : z ≤ y = h.0 z later in omega arith
        ]),
        h,
      )
  | inr later ↦
      let le = by_points-ge x y later in
      rw later (
        (λ z e. elim (Bool-cases (z == x)) [
          | inl same ↦ grind (arith, ==_iff)
          | inr other ↦
              let e2 = occurs-insert_by by_points z x ys in
              let there : 0 < occurs z ys = ground (arith, other, e, e2) in h.0 z there
        ]),
        insert_by-IsRanked x ys h.1,
      )
]

sort_by-IsRanked : (xs : List ℕ) → IsRanked itself (sort_by by_points xs)
sort_by-IsRanked [] = tt
sort_by-IsRanked (x ∷ xs) = insert_by-IsRanked x (sort_by by_points xs) (sort_by-IsRanked xs)

-- Elements of one level stand in any order.
level-IsRanked :
    (key : ℕ → ℕ) (p : ℕ) (xs : List ℕ) → ((y : ℕ) → 0 < occurs y xs → key y ≡ p) → IsRanked key xs
level-IsRanked key p [] h = tt
level-IsRanked key p (x ∷ xs) h =
    let tail = λ (y : ℕ) (e : 0 < occurs y xs). h y (ground (arith, e)) in
    let here : key x ≡ p = h x (ground arith) in
    ((λ y e. let there = tail y e in omega arith), level-IsRanked key p xs tail)

append-IsRanked :
    (key : ℕ → ℕ) (xs ys : List ℕ)
    → IsRanked key xs
    → IsRanked key ys
    → ((x y : ℕ) → 0 < occurs x xs → 0 < occurs y ys → key y ≤ key x)
    → IsRanked key (xs ++ ys)
append-IsRanked key [] ys hx hy h = hy
append-IsRanked key (x ∷ xs) ys hx hy h = (
  (λ y e. elim (Bool-cases (leb (occurs y xs) 0)) [
    | inl absent ↦
        let split = occurs-append y xs ys in h x y (ground arith) (ground (arith, absent, split, e))
    | inr present ↦ hx.0 y (ground (arith, present))
  ]),
  append-IsRanked key xs ys hx.1 hy (λ a b e. h a b (ground (arith, e))),
)

level_of_occurs :
    (key : ℕ → ℕ) (f : ℕ → List ℕ) (y : ℕ) (ps : List ℕ)
    → ((p x : ℕ) → 0 < occurs x (f p) → key x ≡ p)
    → 0 < occurs y (concat_levels f ps)
    → 0 < occurs (key y) ps
level_of_occurs key f y [] h e = omega arith
level_of_occurs key f y (p ∷ ps) h e = elim (Bool-cases (leb (occurs y (f p)) 0)) [
  | inl absent ↦
      let split = occurs-append y (f p) (concat_levels f ps) in
      let later = level_of_occurs key f y ps h (ground (arith, absent, split, e)) in
      ground (arith, later)
  | inr present ↦
      let same = h p y (ground (arith, present)) in rw same (rw ((==_iff p p).1 refl) (omega arith))
]

concat_levels-IsRanked :
    (key : ℕ → ℕ) (f : ℕ → List ℕ) (ps : List ℕ)
    → IsRanked itself ps
    → ((p x : ℕ) → 0 < occurs x (f p) → key x ≡ p)
    → IsRanked key (concat_levels f ps)
concat_levels-IsRanked key f [] ranked h = tt
concat_levels-IsRanked key f (p ∷ ps) ranked h =
    append-IsRanked key (f p) (concat_levels f ps) (level-IsRanked key p (f p) (h p))
      (concat_levels-IsRanked key f ps ranked.1 h)
      (λ x y ex ey.
        let same = h p x ex in
        let below = ranked.0 (key y) (level_of_occurs key f y ps h ey) in omega arith)

-- The recursion that orders a group ends, with an order that never puts a team behind one with
-- fewer points.
pub group_order-IsRanked :
    (teams : List Team) (fixtures : List Fixture)
    → (order : List ℕ) × (group_order teams fixtures ≡ some order)
      × IsRanked (λ id. (tally_of (tally_for (team_ids teams) fixtures) id).points) order
group_order-IsRanked teams fixtures =
    let ids = team_ids teams in
    let overall = tally_for ids fixtures in
    (
      ranked_order teams fixtures,
      group_order_ends teams fixtures,
      concat_levels-IsRanked (λ id. (tally_of overall id).points) (level_order teams fixtures)
          (sort_by by_points (levels_of overall ids)) (sort_by-IsRanked (levels_of overall ids))
          (λ p x e.
            let kept = occurs-level_order teams fixtures p x in
            elim (Bool-cases ((tally_of overall x).points == p)) [
              | inl same ↦ (==_iff (tally_of overall x).points p).0 same
              | inr other ↦ ground (arith, kept, other, e)
            ]),
    )

-- ===== src/Standings/Enough.antt =====
-- The recursion of the order of level teams ends (src/markets/unl-standings.util.ts).
use oro_backend.Base.{
  ℕ, zero, suc, ◌+◌, ◌≡◌, ◌≤◌, ◌<◌, refl, sym, ap, ◌∙◌, inl, inr, true, false, ◌==◌, Option, none,
  some, List, [], ◌∷◌, ◌++◌, leb, length, Bool-cases, Option-cases, All, arith,
}
use oro_backend.Base.Rows.{Rows}
use oro_backend.Standings.Tally.{Team, Fixture, Tally, tally_for}
use oro_backend.Standings.Order.{
  sort_by, compare_level, fallback_order, compare_fallback, join_parts, order_bucket, level_buckets,
  order_level_teams,
}
use oro_backend.Standings.Counting.{
  occurs, occurs-append, occurs-sort_by, flatten, flatten-buckets_of, buckets_bound,
}

-- A result that is an order of the given teams.
abbrev pub Orders : List ℕ → Option (List ℕ) → Type 0
Orders ids result =
    (order : List ℕ) × (result ≡ some order) × ((x : ℕ) → occurs x order ≡ occurs x ids)

join_parts-Orders :
    (f : List ℕ → Option (List ℕ)) (bs : List (List ℕ))
    → All (λ (b : List ℕ). Orders b (f b)) bs
    → Orders (flatten bs) (join_parts f bs)
join_parts-Orders f [] h = ([], refl, λ x. refl)
join_parts-Orders f (b ∷ bs) ((order, e, same), h) =
    let (orders, e', same') = join_parts-Orders f bs h in
    (
      order ++ orders,
      rw (join_parts, e, e') refl,
      (λ x.
          occurs-append x order orders
          ∙ rw (same x, same' x) (sym (occurs-append x b (flatten bs)))),
    )

-- A bucket is handed on only when it is shorter than the list.
order_bucket-Orders :
    (n : ℕ) (again : List ℕ → Option (List ℕ)) (overall : Rows Tally) (teams : List Team)
    (b : List ℕ)
    → length b ≤ n
    → (length b < n → Orders b (again b))
    → Orders b (order_bucket n again overall teams b)
unfolding fallback_order
order_bucket-Orders n again overall teams b within h = elim (Bool-cases (length b == 1)) [
  | inl one ↦ rw (order_bucket, one) (b, refl, λ x. refl)
  | inr more ↦ elim (Bool-cases (length b == n)) [
    | inl whole ↦
        rw (order_bucket, more, whole)
          (_, refl, λ x. occurs-sort_by (compare_fallback overall teams) x b)
    | inr part ↦ rw (order_bucket, more, part) (h (ground arith))
  ]
]

each_bucket-Orders :
    (n : ℕ) (again : List ℕ → Option (List ℕ)) (overall : Rows Tally) (teams : List Team)
    (bs : List (List ℕ))
    → All (λ (b : List ℕ). length b ≤ n) bs
    → ((b : List ℕ) → length b < n → Orders b (again b))
    → All (λ (b : List ℕ). Orders b (order_bucket n again overall teams b)) bs
each_bucket-Orders n again overall teams [] h k = tt
each_bucket-Orders n again overall teams (b ∷ bs) h k = (
  order_bucket-Orders n again overall teams b h.0 (k b),
  each_bucket-Orders n again overall teams bs h.1 k,
)

order_level_teams-step :
    (fuel : ℕ) (ids : List ℕ) (overall : Rows Tally) (fixtures : List Fixture) (teams : List Team)
    → leb (length ids) 1 ≡ false
    → order_level_teams (suc fuel) ids overall fixtures teams
      ≡ join_parts
          (order_bucket
            (length ids)
            (λ bucket. order_level_teams fuel bucket overall fixtures teams)
            overall
            teams)
          (level_buckets ids fixtures)
unfolding order_level_teams
order_level_teams-step fuel ids overall fixtures teams h = rw (order_level_teams, h) refl

order_level_teams-short :
    (fuel : ℕ) (ids : List ℕ) (overall : Rows Tally) (fixtures : List Fixture) (teams : List Team)
    → leb (length ids) 1 ≡ true
    → order_level_teams (suc fuel) ids overall fixtures teams ≡ some ids
unfolding order_level_teams
order_level_teams-short fuel ids overall fixtures teams h = rw (order_level_teams, h) refl

pub order_level_teams-Orders :
    (fuel : ℕ) (ids : List ℕ) (overall : Rows Tally) (fixtures : List Fixture) (teams : List Team)
    → length ids < fuel
    → Orders ids (order_level_teams fuel ids overall fixtures teams)
order_level_teams-Orders zero ids overall fixtures teams h = absurd (omega (arith, h))
order_level_teams-Orders (suc fuel) ids overall fixtures teams h =
    elim (Bool-cases (leb (length ids) 1)) [
      | inl short ↦ (ids, order_level_teams-short fuel ids overall fixtures teams short, λ x. refl)
      | inr long ↦
          let mini = tally_for ids fixtures in
          let again = λ (bucket : List ℕ). order_level_teams fuel bucket overall fixtures teams in
          let (order, e, same) =
            join_parts-Orders (order_bucket (length ids) again overall teams)
              (level_buckets ids fixtures)
              (each_bucket-Orders (length ids) again overall teams (level_buckets ids fixtures)
                (buckets_bound ids fixtures)
                (λ b shorter.
                  order_level_teams-Orders fuel b overall fixtures teams
                    (omega (arith, shorter, h)))) in
          (
            order,
            order_level_teams-step fuel ids overall fixtures teams long ∙ e,
            (λ x.
                same x
                ∙ ap (occurs x) (flatten-buckets_of mini (sort_by (compare_level mini) ids))
                ∙ occurs-sort_by (compare_level mini) x ids),
          )
    ]

-- What is defined at `f` stays as it is at `g`.
abbrev Extends : (List ℕ → Option (List ℕ)) → (List ℕ → Option (List ℕ)) → Type 0
Extends f g = (b order : List ℕ) → f b ≡ some order → g b ≡ some order

join_parts-Extends :
    (f g : List ℕ → Option (List ℕ)) (bs : List (List ℕ)) (order : List ℕ)
    → Extends f g
    → join_parts f bs ≡ some order
    → join_parts g bs ≡ some order
join_parts-Extends f g [] order k h = h
join_parts-Extends f g (b ∷ bs) order k h = elim (Option-cases (f b)) [
  | inl never ↦ ground (arith, never, h)
  | inr (first, e) ↦ elim (Option-cases (join_parts f bs)) [
    | inl never ↦ ground (arith, e, never, h)
    | inr (rest, e') ↦
        rw (join_parts, k b first e, join_parts-Extends f g bs rest k e') (ground (arith, e, e', h))
  ]
]

order_bucket-Extends :
    (n : ℕ) (f g : List ℕ → Option (List ℕ)) (overall : Rows Tally) (teams : List Team)
    → Extends f g
    → Extends (order_bucket n f overall teams) (order_bucket n g overall teams)
order_bucket-Extends n f g overall teams k b order h = elim (Bool-cases (length b == 1)) [
  | inl one ↦ ground (arith, one, h)
  | inr more ↦ elim (Bool-cases (length b == n)) [
    | inl whole ↦ ground (arith, more, whole, h)
    | inr part ↦ rw (order_bucket, more, part) (k b order (ground (arith, more, part, h)))
  ]
]

one_more :
    (fuel : ℕ) (overall : Rows Tally) (fixtures : List Fixture) (teams : List Team)
    → Extends
        (λ ids. order_level_teams fuel ids overall fixtures teams)
        (λ ids. order_level_teams (suc fuel) ids overall fixtures teams)
one_more zero overall fixtures teams ids order h =
    absurd (let never : none ≡ some order = unfold order_level_teams in h in ground (arith, never))
one_more (suc fuel) overall fixtures teams ids order h = elim (Bool-cases (leb (length ids) 1)) [
  | inl short ↦
      order_level_teams-short (suc fuel) ids overall fixtures teams short
      ∙ sym (order_level_teams-short fuel ids overall fixtures teams short)
      ∙ h
  | inr long ↦
      order_level_teams-step (suc fuel) ids overall fixtures teams long
      ∙ join_parts-Extends _ _ (level_buckets ids fixtures) order
          (order_bucket-Extends (length ids)
            (λ bucket. order_level_teams fuel bucket overall fixtures teams)
            (λ bucket. order_level_teams (suc fuel) bucket overall fixtures teams) overall teams
            (one_more fuel overall fixtures teams))
          (sym (order_level_teams-step fuel ids overall fixtures teams long) ∙ h)
]

any_more :
    (extra fuel : ℕ) (ids order : List ℕ) (overall : Rows Tally) (fixtures : List Fixture)
    (teams : List Team)
    → order_level_teams fuel ids overall fixtures teams ≡ some order
    → order_level_teams (extra + fuel) ids overall fixtures teams ≡ some order
any_more zero fuel ids order overall fixtures teams h =
    ap (λ (n : ℕ). order_level_teams n ids overall fixtures teams) (omega arith) ∙ h
any_more (suc extra) fuel ids order overall fixtures teams h =
    ap (λ (n : ℕ). order_level_teams n ids overall fixtures teams) (omega arith)
    ∙ one_more (extra + fuel) overall fixtures teams ids order
        (any_more extra fuel ids order overall fixtures teams h)

-- The recursion that orders level teams ends: with any fuel above the number of teams it gives an
-- order, and always the same one.
pub order_level_teams_enough :
    (ids : List ℕ) (overall : Rows Tally) (fixtures : List Fixture) (teams : List Team)
    → (order : List ℕ) × ((extra : ℕ)
        → order_level_teams (extra + suc (length ids)) ids overall fixtures teams ≡ some order)
order_level_teams_enough ids overall fixtures teams =
    let (order, e, same) =
      order_level_teams-Orders (suc (length ids)) ids overall fixtures teams (omega arith) in
    (order, λ extra. any_more extra (suc (length ids)) ids order overall fixtures teams e)

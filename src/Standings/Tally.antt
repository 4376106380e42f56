-- ===== src/Standings/Tally.antt =====
-- `tallyFor` (src/markets/unl-standings.util.ts).
use Prim.Native.String.{String}
use oro_backend.Base.{
  ℕ, ◌+◌, ◌&&◌, ◌==◌, Option, none, some, List, [], ◌∷◌, ltb, get_or, includes, if◌then◌else◌,
}
use oro_backend.Base.Int.{ℤ, pos, ◌-ℤ◌}
use oro_backend.Base.Rows.{Rows, lookup}

pub record Team : Type 0 where
  pub id : ℕ
  pub name : String
  pub flag_url : Option String
  pub sort_order : ℕ

pub record Fixture : Type 0 where
  pub home_team : ℕ
  pub away_team : ℕ
  pub home_score : Option ℕ
  pub away_score : Option ℕ

pub record Tally : Type 0 where
  pub played : ℕ
  pub won : ℕ
  pub draw : ℕ
  pub lost : ℕ
  pub gf : ℕ
  pub ga : ℕ
  pub points : ℕ

abbrev pub empty_tally : Tally
empty_tally = record { played = 0; won = 0; draw = 0; lost = 0; gf = 0; ga = 0; points = 0 }

abbrev pub win_points : ℕ
win_points = 3

abbrev pub draw_points : ℕ
draw_points = 1

-- `new Set(ids)`: each key where it first stands.
abbrev pub without : ℕ → List ℕ → List ℕ
without k [] = []
without k (x ∷ xs) = let rest = without k xs in if x == k then rest else x ∷ rest

abbrev pub empty_table : List ℕ → Rows Tally
empty_table [] = []
empty_table (x ∷ xs) = (x, empty_tally) ∷ empty_table xs

-- One side of a counted match, with the goals for it and against it.
abbrev pub add_result : ℕ → ℕ → Tally → Tally
add_result scored conceded t =
    let counted = record t { played = t.played + 1; gf = t.gf + scored; ga = t.ga + conceded } in
    if ltb conceded scored
    then record counted { won = t.won + 1; points = t.points + win_points }
    else if ltb scored conceded
    then record counted { lost = t.lost + 1 }
    else record counted { draw = t.draw + 1; points = t.points + draw_points }

abbrev pub update_row : ℕ → (Tally → Tally) → Rows Tally → Rows Tally
update_row k f [] = []
update_row k f (r ∷ rows) =
    let rest = update_row k f rows in if k == r.0 then (r.0, f r.1) ∷ rows else r ∷ rest

abbrev pub add_scores : Fixture → ℕ → ℕ → Rows Tally → Rows Tally
add_scores f home away table =
    update_row f.away_team (add_result away home)
      (update_row f.home_team (add_result home away) table)

-- A fixture counts with both scores, between teams of the set.
unfoldable pub add_fixture : List ℕ → Fixture → Rows Tally → Rows Tally
add_fixture ids f table = elim f.home_score [
  | none ↦ table
  | some home ↦ elim f.away_score [
    | none ↦ table
    | some away ↦
        if includes ids f.home_team && includes ids f.away_team
        then add_scores f home away table
        else table
  ]
]

unfoldable pub add_fixtures : List ℕ → List Fixture → Rows Tally → Rows Tally
unfolding add_fixture
add_fixtures ids [] table = table
add_fixtures ids (f ∷ fixtures) table = add_fixtures ids fixtures (add_fixture ids f table)

unfoldable pub tally_for : List ℕ → List Fixture → Rows Tally
unfolding add_fixtures
tally_for ids fixtures = add_fixtures ids fixtures (empty_table ids)

abbrev pub tally_of : Rows Tally → ℕ → Tally
tally_of table id = get_or (lookup id table) empty_tally

abbrev pub gd_of : Tally → ℤ
gd_of t = pos t.gf -ℤ pos t.ga

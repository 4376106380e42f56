-- ===== src/Duel/Void.antt =====
-- `voidChallenge` (src/challenges/challenges.service.ts) and the expiry of stale duels
-- (src/jobs/engagement.job.ts).
use oro_backend.Base.{ℕ, Bool, true, false, Option, none, some, List, [], ◌∷◌, ltb, if◌then◌else◌}
use oro_backend.Base.Rows.{lookup, insert}
use oro_backend.Ledger.{Note, TransactionType}
use oro_backend.Duel.Tables.{Store, Challenge, ChallengeStatus, opened, active, void}
use oro_backend.Duel.Wager.{credit}

abbrev pub is_live : ChallengeStatus → Bool
is_live opened = true
is_live active = true
is_live _ = false

-- The update by key: the rows that it affects, and the store after it.
abbrev pub mark_void : ℕ → ℕ → Challenge → Store → Store
mark_void key now c s = record s {
  challenges = insert key (record c { status = void; settled_at = some now }) s.challenges;
}

abbrev pub refund_side : Option ℕ → ℕ → Note → ℕ → Store → Store
refund_side none wager note key s = s
refund_side (some user) wager note key s =
    credit user wager note (some key) TransactionType.refund s

abbrev pub refunds_of : Challenge → List (ℕ × ℕ)
refunds_of c =
    if ltb 0 c.wager_amount
    then ((c.creator, c.wager_amount)
        ∷ elim c.joiner [ none ↦ [] | some j ↦ (j, c.wager_amount) ∷ [] ])
    else []

-- The challenge is read first (`seen`), and claimed by a conditional update on the row as it is
-- when the transaction runs. `none` is the `null` of a lost claim.
unfoldable pub void_seen :
    ℕ → Challenge → Note → ℕ → Store → Option (Challenge × List (ℕ × ℕ)) × Store
void_seen key seen note now s = elim (lookup key s.challenges) [
  | none ↦ (none, s)
  | some c ↦
      if is_live c.status
      then (
        some (record seen { status = void; settled_at = some now }, refunds_of seen),
        let claimed = mark_void key now c s in
            if ltb 0 seen.wager_amount
            then refund_side seen.joiner seen.wager_amount note key
                (refund_side (some seen.creator) seen.wager_amount note key claimed)
            else claimed,
      )
      else (none, s)
]

unfoldable pub void_challenge : ℕ → Note → ℕ → Store → Option (Challenge × List (ℕ × ℕ)) × Store
unfolding void_seen
void_challenge key note now s = elim (lookup key s.challenges) [
  | none ↦ (none, s)
  | some seen ↦ void_seen key seen note now s
]

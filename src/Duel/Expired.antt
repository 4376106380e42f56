-- ===== src/Duel/Expired.antt =====
-- What the expiry of stale duels does to the money, and how it meets a join
-- (src/jobs/engagement.job.ts, src/challenges/challenges.service.ts).
use oro_backend.Base.{
  ℕ, ◌≡◌, ◌≢◌, refl, inl, inr, Bool, ◌&&◌, none, some, [], ◌∷◌, arith, ltb, keep, Bool-cases,
  Option-cases, ◌∙◌,
}
use oro_backend.Base.Int.{int_laws}
use oro_backend.Base.Rows.{
  Rows, lookup, lookup-insert_ne, lookup-insert_self, UniqueKeys, keep-UniqueKeys,
}
use oro_backend.Ledger.Balance.{btn_total}
use oro_backend.Duel.Tables.{Store, Challenge, ChallengeStatus, ok, err, challenge_expired}
use oro_backend.Duel.Create.{is_open, join}
use oro_backend.Duel.Expiry.{expire_one, expire_all, stale_of, expire_stale_duels}
use oro_backend.Duel.Money.{money, escrow-insert}
use oro_backend.Duel.Closing.{Agrees, Agrees-self}
use oro_backend.Duel.Joining.{OpenIsUnjoined, join_succeeded}

expire_one-money :
    (now key : ℕ) (ch : Challenge) (s : Store)
    → lookup key s.challenges ≡ some ch
    → OpenIsUnjoined s key
    → money (expire_one now (key, ch) s) ≡ money s
unfolding expire_one btn_total
expire_one-money now key ch s e unjoined =
    let done : Challenge = record ch { status = ChallengeStatus.expired; settled_at = some now } in
    grind (int_laws, escrow-insert key done ch s.challenges e, unjoined ch e)

-- A snapshot that the table still agrees with.
abbrev Seen : Store → Rows Challenge → Type 0
Seen s [] = Unit
Seen s ((k, c) ∷ rows) = ((lookup k s.challenges ≡ some c) × OpenIsUnjoined s k) × Seen s rows

lookup-expire_one :
    (now key j : ℕ) (ch : Challenge) (s : Store)
    → j ≢ key
    → lookup j (expire_one now (key, ch) s).challenges ≡ lookup j s.challenges
unfolding expire_one
lookup-expire_one now key j ch s ne = elim (Option-cases (lookup key s.challenges)) [
  | inl absent ↦ ground arith
  | inr (c, e) ↦
      let done : Challenge = record c { status = ChallengeStatus.expired; settled_at = some now } in
      ground (arith, lookup-insert_ne j key done s.challenges ne)
]

expire_one-Seen :
    (now key : ℕ) (ch : Challenge) (s : Store) (rows : Rows Challenge)
    → lookup key rows ≡ none
    → Seen s rows
    → Seen (expire_one now (key, ch) s) rows
expire_one-Seen now key ch s [] absent seen = tt
expire_one-Seen now key ch s ((k, c) ∷ rows) absent seen =
    let ne : k ≢ key = λ q. ground arith in
    let same = lookup-expire_one now key k ch s ne in
    (
      (rw same seen.0.0, λ c' e st. seen.0.1 c' (rw same at e) st),
      expire_one-Seen now key ch s rows (ground arith) seen.1,
    )

expire_all-money :
    (now : ℕ) (rows : Rows Challenge) (s : Store)
    → UniqueKeys rows
    → Seen s rows
    → money (expire_all now rows s) ≡ money s
unfolding expire_all
expire_all-money now [] s u seen = refl
expire_all-money now ((k, c) ∷ rows) s u seen =
    expire_all-money now rows (expire_one now (k, c) s) u.1
      (expire_one-Seen now k c s rows u.0 seen.1)
    ∙ expire_one-money now k c s seen.0.0 seen.0.1

keep-Seen :
    (s : Store) (p : ℕ × Challenge → Bool) (rows : Rows Challenge)
    → ((k : ℕ) → OpenIsUnjoined s k)
    → Agrees s.challenges rows
    → Seen s (keep p rows)
keep-Seen s p [] unjoined a = tt
keep-Seen s p ((k, c) ∷ rows) unjoined a = elim (Bool-cases (p (k, c))) [
  | inl kept ↦ rw kept ((a.0, unjoined k), keep-Seen s p rows unjoined a.1)
  | inr dropped ↦ rw dropped (keep-Seen s p rows unjoined a.1)
]

-- The hourly expiry keeps the sum of the ledger, the escrow of live duels and the booked fees, if
-- an open duel has no second side and a key stands once.
pub expire_stale_duels-money :
    (now : ℕ) (s : Store)
    → UniqueKeys s.challenges
    → ((k : ℕ) → OpenIsUnjoined s k)
    → money (expire_stale_duels now s) ≡ money s
unfolding expire_stale_duels
expire_stale_duels-money now s u unjoined =
    let is_stale = λ (r : ℕ × Challenge). is_open r.1.status && ltb r.1.expires_at now in
    expire_all-money now (stale_of now s.challenges) s (keep-UniqueKeys is_stale s.challenges u)
      (keep-Seen s is_stale s.challenges unjoined (Agrees-self s.challenges u))

expire_one_active :
    (now key : ℕ) (c ch : Challenge) (s : Store)
    → lookup key s.challenges ≡ some c
    → c.status ≡ ChallengeStatus.active
    → expire_one now (key, ch) s ≡ s
unfolding expire_one
expire_one_active now key c ch s e st = ground arith

-- A duel that was joined before the expiry claimed it is left as it is by the expiry of a stale
-- copy.
pub expire_one-join :
    (key user now later : ℕ) (c' ch : Challenge) (s : Store)
    → (join key user now s).0 ≡ ok c'
    → expire_one later (key, ch) (join key user now s).1 ≡ (join key user now s).1
expire_one-join key user now later c' ch s h =
    let r = join_succeeded key user now c' s h in
    expire_one_active later key c' ch (join key user now s).1 r.0 r.1

-- An open duel that the expiry claimed can be joined by nobody any more, at whatever time, and the
-- refusal changes nothing.
pub join-expire_one :
    (key user now later : ℕ) (ch c : Challenge) (s : Store)
    → lookup key s.challenges ≡ some c
    → c.status ≡ ChallengeStatus.opened
    → join key user later (expire_one now (key, ch) s)
      ≡ (err challenge_expired, expire_one now (key, ch) s)
unfolding expire_one join
join-expire_one key user now later ch c s e st =
    let done : Challenge = record c { status = ChallengeStatus.expired; settled_at = some now } in
    ground (arith, lookup-insert_self key done s.challenges)

-- ===== src/Duel/Upkeep.antt =====
-- What joins, voids, settlements and expiries keep true of the duel tables
-- (src/challenges/challenges.service.ts, src/jobs/engagement.job.ts).
use oro_backend.Base.{
  ℕ, ◌==◌, ◌≡◌, ◌≢◌, refl, sym, ◌∙◌, ◌⊎◌, inl, inr, true, false, Option, none, some, [], ◌∷◌, arith,
  Bool-cases, Option-cases, ==_iff,
}
use oro_backend.Base.Rows.{
  Rows, lookup, insert, lookup-insert_self, lookup-insert_ne, UniqueKeys, insert-UniqueKeys,
}
use oro_backend.Ledger.{Note}
use oro_backend.Duel.Tables.{Store, Challenge, ChallengeStatus, CardType, Result, ok, err, Error}
use oro_backend.Duel.Create.{join, is_open}
use oro_backend.Duel.Wager.{debit, credit}
use oro_backend.Duel.Void.{is_live, void_challenge}
use oro_backend.Duel.Settle.{is_distributed, settle_one, settle_all, live_on, settle_by_market}
use oro_backend.Duel.Expiry.{expire_one, expire_all, stale_of, expire_stale_duels}
use oro_backend.Duel.Round.{final_row, settle_one_round, settle_one_distributions}
use oro_backend.Duel.Settlement.{Pending, settle_one-Pending}
use oro_backend.Duel.Closing.{IsConsistent, snapshot-UniqueKeys, snapshot-Pending}
use oro_backend.Duel.Repeat.{final_row_closed}
use oro_backend.Duel.Joining.{OpenIsUnjoined, joined_row, join_refused}

-- What every operation on existing duels keeps true: the tables are consistent, and an open duel
-- has no second side.
pub record IsSound (s : Store) : Type 0 where
  pub consistent : IsConsistent s
  pub unjoined : (k : ℕ) → OpenIsUnjoined s k

-- The new row of a key is closed, or active where a live one stood.
abbrev Replaces : Challenge → Challenge → Type 0
Replaces new old =
    (new.status ≢ ChallengeStatus.opened) × (is_live new.status ≡ true → is_live old.status ≡ true)

-- A row that stands after a write is the new row, or was there before.
written_row :
    (key k : ℕ) (new x : Challenge) (s s' : Store)
    → s'.challenges ≡ insert key new s.challenges
    → lookup k s'.challenges ≡ some x
    → ((k ≡ key) × (x ≡ new)) ⊎ ((k ≢ key) × (lookup k s.challenges ≡ some x))
written_row key k new x s s' c f = elim (Bool-cases (k == key)) [
  | inl here ↦
      let q : k ≡ key = (==_iff k key).0 here in
      inl (q, ground (arith, c, f, lookup-insert_self key new s.challenges, q))
  | inr there ↦
      let ne : k ≢ key = λ q. ground (arith, (==_iff k key).1 q) in
      inr (ne, sym (lookup-insert_ne k key new s.challenges ne) ∙ sym (rw c refl) ∙ f)
]

insert-IsSound :
    (key : ℕ) (old new : Challenge) (s s' : Store)
    → IsSound s
    → lookup key s.challenges ≡ some old
    → Replaces new old
    → s'.challenges ≡ insert key new s.challenges
    → ((j : ℕ) → (j ≢ key) ⊎ (is_live new.status ≡ true) → is_distributed s' j ≡ is_distributed s j)
    → IsSound s'
insert-IsSound key old new s s' h e r c d = record {
  consistent = record {
    unique_keys = rw c (insert-UniqueKeys key new s.challenges h.consistent.unique_keys);
    unbooked = λ k x f live. elim (written_row key k new x s s' c f) [
      | inl (q, same) ↦
          let alive : is_live new.status ≡ true = rw (sym same) live in
          d k (inr alive) ∙ h.consistent.unbooked k old (rw q e) (r.1 alive)
      | inr (ne, before) ↦ d k (inl ne) ∙ h.consistent.unbooked k x before live
    ];
  };
  unjoined = λ k x f st. elim (written_row key k new x s s' c f) [
    | inl (q, same) ↦ absurd (r.0 (rw (sym same) st))
    | inr (ne, before) ↦ h.unjoined k x before st
  ];
}

join_effect :
    (key user now : ℕ) (s : Store) (c' : Challenge)
    → (join key user now s).0 ≡ ok c'
    → (c : Challenge) × (lookup key s.challenges ≡ some c)
      × (c.status ≡ ChallengeStatus.opened)
      × ((join key user now s).1.challenges ≡ insert key (joined_row user c) s.challenges)
      × ((join key user now s).1.distributions ≡ s.distributions)
unfolding join debit
join_effect key user now s c' h = elim (Option-cases (lookup key s.challenges)) [
  | inl absent ↦ ground arith
  | inr (c, e) ↦ (c, e, ground arith, ground arith, ground arith)
]

Result-cases : {A : Type 0} (r : Result A) → ((a : A) × (r ≡ ok a)) ⊎ ((e : Error) × (r ≡ err e))
Result-cases (ok a) = inl (a, refl)
Result-cases (err e) = inr (e, refl)

pub join-IsSound : (key user now : ℕ) (s : Store) → IsSound s → IsSound (join key user now s).1
join-IsSound key user now s h = elim (Result-cases (join key user now s).0) [
  | inl (c', done) ↦
      let (c, e, st, rows, fees) = join_effect key user now s c' done in
      insert-IsSound key c (joined_row user c) s (join key user now s).1 h e
        ((λ q. cc), λ live. rw st refl) rows (λ j any. rw fees refl)
  | inr (e, refused) ↦ rw (join_refused key user now s refused) h
]

void_effect :
    (key now : ℕ) (note : Note) (s : Store) (c : Challenge)
    → lookup key s.challenges ≡ some c
    → is_live c.status ≡ true
    → ((void_challenge key note now s).1.challenges
        ≡ insert key (final_row none now c) s.challenges)
      × ((void_challenge key note now s).1.distributions ≡ s.distributions)
unfolding void_challenge credit
void_effect key now note s c e live = ground arith

void_nothing :
    (key now : ℕ) (note : Note) (s : Store)
    → ((lookup key s.challenges ≡ none)
        ⊎ ((c : Challenge) × (lookup key s.challenges ≡ some c) × (is_live c.status ≡ false)))
    → (void_challenge key note now s).1 ≡ s
unfolding void_challenge
void_nothing key now note s (inl absent) = ground arith
void_nothing key now note s (inr (c, e, dead)) = ground arith

pub void_challenge-IsSound :
    (key now : ℕ) (note : Note) (s : Store) → IsSound s → IsSound (void_challenge key note now s).1
void_challenge-IsSound key now note s h = elim (Option-cases (lookup key s.challenges)) [
  | inl absent ↦ rw (void_nothing key now note s (inl absent)) h
  | inr (c, e) ↦ elim (Bool-cases (is_live c.status)) [
    | inl live ↦
        let (rows, fees) = void_effect key now note s c e live in
        insert-IsSound key c (final_row none now c) s (void_challenge key note now s).1 h e
          ((λ q. cc), λ alive. live) rows (λ j any. rw fees refl)
    | inr dead ↦ rw (void_nothing key now note s (inr (c, e, dead))) h
  ]
]

final_row-unopened :
    (winning : Option ℕ) (now : ℕ) (c : Challenge)
    → (final_row winning now c).status ≢ ChallengeStatus.opened
final_row-unopened winning now c e = ground (arith, e, final_row_closed winning now c)

settle_one-IsSound :
    (winning : Option ℕ) (now : ℕ) (draw : ℕ → CardType) (key : ℕ) (c : Challenge) (s : Store)
    → IsSound s
    → lookup key s.challenges ≡ some c
    → is_live c.status ≡ true
    → IsSound (settle_one winning now draw (key, c) s)
settle_one-IsSound winning now draw key c s h e live =
    insert-IsSound key c (final_row winning now c) s (settle_one winning now draw (key, c) s) h e
      (final_row-unopened winning now c, λ alive. live)
      (settle_one_round winning now draw key c 0 s e live).0
      (λ j why. elim why [
        | inl ne ↦ settle_one_distributions winning now draw key j c s e live ne
        | inr alive ↦ ground (arith, alive, final_row_closed winning now c)
      ])

settle_all-IsSound :
    (winning : Option ℕ) (now : ℕ) (draw : ℕ → CardType) (rows : Rows Challenge) (s : Store)
    → IsSound s
    → UniqueKeys rows
    → Pending s rows
    → IsSound (settle_all winning now draw rows s)
unfolding settle_all
settle_all-IsSound winning now draw [] s h u p = h
settle_all-IsSound winning now draw ((k, c) ∷ rows) s h u p =
    settle_all-IsSound winning now draw rows (settle_one winning now draw (k, c) s)
      (settle_one-IsSound winning now draw k c s h p.0.0 p.0.1) u.1
      (settle_one-Pending winning now draw k c s rows p.0.0 p.0.1 u.0 p.1)

pub settle_by_market-IsSound :
    (market : ℕ) (winning : Option ℕ) (now : ℕ) (draw : ℕ → CardType) (s : Store)
    → IsSound s
    → IsSound (settle_by_market market winning now draw s)
unfolding settle_by_market
settle_by_market-IsSound market winning now draw s h =
    settle_all-IsSound winning now draw (live_on market s.challenges) s h
      (snapshot-UniqueKeys market winning now draw s h.consistent)
      (snapshot-Pending market winning now draw s h.consistent)

abbrev expired_row : ℕ → Challenge → Challenge
expired_row now c = record c { status = ChallengeStatus.expired; settled_at = some now }

expire_effect :
    (now key : ℕ) (ch : Challenge) (s : Store)
    → (expire_one now (key, ch) s ≡ s)
      ⊎ ((c : Challenge) × (lookup key s.challenges ≡ some c)
          × ((expire_one now (key, ch) s).challenges ≡ insert key (expired_row now c) s.challenges)
          × ((expire_one now (key, ch) s).distributions ≡ s.distributions))
unfolding expire_one
expire_effect now key ch s = elim (Option-cases (lookup key s.challenges)) [
  | inl absent ↦ inl (ground arith)
  | inr (c, e) ↦ elim (Bool-cases (is_open c.status)) [
    | inl waits ↦ inr (c, e, ground arith, ground arith)
    | inr over ↦ inl (ground arith)
  ]
]

expire_one-IsSound :
    (now key : ℕ) (ch : Challenge) (s : Store) → IsSound s → IsSound (expire_one now (key, ch) s)
expire_one-IsSound now key ch s h = elim (expire_effect now key ch s) [
  | inl same ↦ rw same h
  | inr (c, e, rows, fees) ↦
      insert-IsSound key c (expired_row now c) s (expire_one now (key, ch) s) h e
        ((λ q. cc), λ live. ground (arith, live)) rows (λ j any. rw fees refl)
]

expire_all-IsSound :
    (now : ℕ) (rows : Rows Challenge) (s : Store) → IsSound s → IsSound (expire_all now rows s)
unfolding expire_all
expire_all-IsSound now [] s h = h
expire_all-IsSound now ((k, c) ∷ rows) s h =
    expire_all-IsSound now rows (expire_one now (k, c) s) (expire_one-IsSound now k c s h)

pub expire_stale_duels-IsSound :
    (now : ℕ) (s : Store) → IsSound s → IsSound (expire_stale_duels now s)
unfolding expire_stale_duels
expire_stale_duels-IsSound now s h = expire_all-IsSound now (stale_of now s.challenges) s h

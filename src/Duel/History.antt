-- ===== src/Duel/History.antt =====
-- Any sequence of joins, voids, settlements and expiries (src/challenges/challenges.service.ts,
-- src/jobs/engagement.job.ts).
use oro_backend.Base.{ℕ, ◌≡◌, refl, ◌∙◌, Option}
use oro_backend.Ledger.{Note}
use oro_backend.Duel.Tables.{Store, CardType}
use oro_backend.Duel.Create.{join}
use oro_backend.Duel.Void.{void_challenge}
use oro_backend.Duel.Settle.{settle_by_market}
use oro_backend.Duel.Expiry.{expire_stale_duels}
use oro_backend.Duel.Money.{money}
use oro_backend.Duel.Conservation.{void_challenge-money}
use oro_backend.Duel.Closing.{settle_by_market-money}
use oro_backend.Duel.Joining.{join-money}
use oro_backend.Duel.Expired.{expire_stale_duels-money}
use oro_backend.Duel.Upkeep.{
  IsSound, join-IsSound, void_challenge-IsSound, settle_by_market-IsSound,
  expire_stale_duels-IsSound,
}

-- One call of the service or of the job, whatever its arguments and however it ends.
pub data Step : Store → Store → Type 0 where
  joins : (key user now : ℕ) {s : Store} → Step s (join key user now s).1
  voids : (key : ℕ) (note : Note) (now : ℕ) {s : Store} → Step s (void_challenge key note now s).1
  settles :
      (market : ℕ) (winning : Option ℕ) (now : ℕ) (draw : ℕ → CardType) {s : Store}
      → Step s (settle_by_market market winning now draw s)
  expires : (now : ℕ) {s : Store} → Step s (expire_stale_duels now s)

pub data Steps : Store → Store → Type 0 where
  done : {s : Store} → Steps s s
  next : {s s' s'' : Store} → Step s s' → Steps s' s'' → Steps s s''

Step-IsSound : {s s' : Store} → Step s s' → IsSound s → IsSound s' × (money s' ≡ money s)
Step-IsSound {s} (Step.joins key user now) h =
    (join-IsSound key user now s h, join-money key user now s (h.unjoined key))
Step-IsSound {s} (Step.voids key note now) h =
    (void_challenge-IsSound key now note s h, void_challenge-money key note now s)
Step-IsSound {s} (Step.settles market winning now draw) h = (
  settle_by_market-IsSound market winning now draw s h,
  settle_by_market-money market winning now draw s h.consistent,
)
Step-IsSound {s} (Step.expires now) h = (
  expire_stale_duels-IsSound now s h,
  expire_stale_duels-money now s h.consistent.unique_keys h.unjoined,
)

-- From sound duel tables, any sequence of joins, voids, settlements and expiries, in any order and
-- whether they succeed or are refused, leads to sound tables and keeps the sum of the ledger, the
-- escrow of live duels and the booked fees.
pub Steps-IsSound : {s s' : Store} → Steps s s' → IsSound s → IsSound s' × (money s' ≡ money s)
Steps-IsSound Steps.done h = (h, refl)
Steps-IsSound (Steps.next step steps) h =
    let (sound, same) = Step-IsSound step h in
    let (sound', same') = Steps-IsSound steps sound in (sound', same' ∙ same)

-- ===== src/Jobs/Claim/Outcome.antt =====
-- What a call of `claim` comes to (app/jobs/redis_store.py): a job that has started, or none that has.
use ktb4_2nd_ai.Prelude.{ℕ, ◌≡◌, String, false, Option, none, some}
use ktb4_2nd_ai.Schemas.{TaskStatus}
use ktb4_2nd_ai.Jobs.Models.{JobKind, Codec, JobRecord, JobsSettings}
use ktb4_2nd_ai.Jobs.Store.{Store, Result, ok, raised, value_error}
use ktb4_2nd_ai.Jobs.Claim.{taken, Signals}
use ktb4_2nd_ai.Jobs.Claim.Attempts.{NoneStarted}

-- What a claim comes to: a job that waited runs under the name of its new owner and is returned, and
-- no stop signal has been seen behind it; or nothing is returned, or `index` raised where no slot is
-- free, and no job has started.
pub data Outcome (k : JobKind) (owner : String) (sig : Signals) (s : Store)
    : Result (Option JobRecord) × Store → Type 0 where
  started :
      {id : String} {r : JobRecord} {t : Store} {n : ℕ}
      → s.jobs id ≡ some r
      → r.status ≡ TaskStatus.queued
      → r.kind ≡ k
      → t.jobs id ≡ some (taken owner (sig.clock n) r)
      → sig.behind n ≡ false
      → Outcome k owner sig s (ok (some (taken owner (sig.clock n) r)), t)
  nothing : {t : Store} → NoneStarted s t → Outcome k owner sig s (ok none, t)
  no_slot : {t : Store} → NoneStarted s t → Outcome k owner sig s (raised value_error, t)

module _ (c : Codec) (cfg : JobsSettings) (k : JobKind) (owner : String) (sig : Signals) where
  -- the loop has an outcome, or is out of fuel
  data Concluded (s : Store) : Option (Result (Option JobRecord) × Store) → Type 0 where
    goes_on : Concluded s none
    comes_to :
        {x : Result (Option JobRecord) × Store} → Outcome k owner sig s x → Concluded s (some x)

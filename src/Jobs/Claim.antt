-- ===== src/Jobs/Claim.antt =====
-- `RedisJobStore.claim` (app/jobs/redis_store.py): one attempt of its `while` loop, and the loop.
use ktb4_2nd_ai.Prelude.{
  ℕ, zero, suc, ◌+◌, String, Bool, false, ◌||◌, Option, none, some, is_some, List, [], ◌∷◌, leb,
  bit, length, if◌then◌else◌, min,
}
use ktb4_2nd_ai.Schemas.{TaskStatus, is_terminal, is_status}
use ktb4_2nd_ai.Jobs.Models.{JobKind, Codec, JobRecord, JobsSettings, job_timeout}
use ktb4_2nd_ai.Jobs.Zset.{zadd, zrem, first}
use ktb4_2nd_ai.Jobs.Store.{Store, Result, ok, raised, value_error, set_job, set_kind}
use ktb4_2nd_ai.Jobs.Methods.{return_unstarted}
pub mod Attempts
pub mod Outcome

-- the value of a slot whose job has ended
unfoldable pub is_stale : Store → Option String → Bool
is_stale s none = false
is_stale s (some id) = elim (s.jobs id) [ none ↦ false | some r ↦ is_terminal r.status ]

unfoldable pub any_stale : Store → List (Option String) → Bool
unfolding is_stale
any_stale s [] = false
any_stale s (o ∷ os) = is_stale s o || any_stale s os

-- DEL of the stale slots
unfoldable pub drop_stale : Store → List (Option String) → List (Option String)
unfolding is_stale
drop_stale s [] = []
drop_stale s (o ∷ os) = (if is_stale s o then none else o) ∷ drop_stale s os

-- `sum(owner is not None for owner in occupants)`
unfoldable pub occupied : List (Option String) → ℕ
occupied [] = 0
occupied (o ∷ os) = bit (is_some o) + occupied os

-- SET of the first free slot, `slots[occupants.index(None)]`
unfoldable pub occupy : String → List (Option String) → Option (List (Option String))
occupy id [] = none
occupy id (none ∷ os) = some (some id ∷ os)
occupy id (some o ∷ os) = elim (occupy id os) [ none ↦ none | some rest ↦ some (some o ∷ rest) ]

-- how an attempt ends: `return None`, `continue`, a job with its score in the queue, or the
-- `ValueError` of `index` where no slot is free
pub data Attempt : Type 0 where
  idle retry broken : Attempt
  claimed : String → JobRecord → ℕ → Attempt

-- the record that a worker takes over, with the name that the claim gives its owner
abbrev pub taken : String → ℕ → JobRecord → JobRecord
taken owner now r = record r {
  status = TaskStatus.processing;
  owner = some owner;
  started_at = some now;
  heartbeat_at = some now;
}

-- the transaction of a claim
unfoldable pub take_over :
    JobsSettings → JobKind → String → JobRecord → List (Option String) → ℕ → Store → Store
unfolding job_timeout
take_over cfg k id r slots now s = record s {
  queue = set_kind k (zrem id (s.queue k)) s.queue;
  slots = set_kind k slots s.slots;
  jobs = set_job id r s.jobs;
  running = zadd id (now + min cfg.lease (job_timeout cfg r.kind)) s.running;
}

abbrev pub limit : JobsSettings → JobKind → ℕ
limit cfg JobKind.story = cfg.story_concurrency
limit cfg JobKind.process = 1

-- the waiting record is taken over, unless `should_stop` says so or no slot is free
unfoldable pub take_waiting :
    JobsSettings → JobKind → String → Bool → String → ℕ → JobRecord → ℕ → Store → Attempt × Store
unfolding take_over occupy
take_waiting cfg k owner stop id score r now s =
    if stop then (idle, s) else (elim (occupy id (s.slots k)) [
      | none ↦ (broken, s)
      | some slots ↦
          (claimed id (taken owner now r) score, take_over cfg k id (taken owner now r) slots now s)
    ])

-- the first entry of the queue: without a QUEUED record behind it, it is dropped
unfoldable pub take_first :
    JobsSettings → JobKind → String → Bool → Option (String × ℕ) → ℕ → Store → Attempt × Store
unfolding take_waiting is_status
take_first cfg k owner stop none now s = (idle, s)
take_first cfg k owner stop (some (id, score)) now s = elim (s.jobs id) [
  | none ↦ (retry, record s { queue = set_kind k (zrem id (s.queue k)) s.queue })
  | some r ↦
      if is_status r.status TaskStatus.queued
      then take_waiting cfg k owner stop id score r now s
      else (retry, record s { queue = set_kind k (zrem id (s.queue k)) s.queue })
]

-- one attempt; `stop` is `should_stop` before the transaction
unfoldable pub attempt : JobsSettings → JobKind → String → Bool → ℕ → Store → Attempt × Store
unfolding any_stale drop_stale occupied take_first
attempt cfg k owner stop now s =
    if any_stale s (s.slots k)
    then (retry, record s { slots = set_kind k (drop_stale s (s.slots k)) s.slots })
    else if leb (limit cfg k) (occupied (s.slots k))
    then (idle, s)
    else if leb (length (s.slots k)) (occupied (s.slots k))
    then (broken, s)
    else take_first cfg k owner stop (first (s.queue k)) now s

-- What `should_stop` says at each point of the loop, and the Redis time of each attempt. Attempts
-- are counted down, as the fuel is.
pub record Signals : Type 0 where
  pub before : ℕ → Bool
  pub during : ℕ → Bool
  pub behind : ℕ → Bool
  pub clock : ℕ → ℕ

-- behind the transaction: a claim that meets the stop signal goes back to its queue
unfoldable pub after_claim :
    Codec
    → JobsSettings
    → Bool
    → ℕ
    → String
    → JobRecord
    → ℕ
    → Store
    → Result (Option JobRecord) × Store
unfolding return_unstarted
after_claim c cfg stop now id r score s =
    if stop
    then (
      ok none,
      (return_unstarted c cfg id (elim r.owner [ none ↦ "" | some o ↦ o ]) score now s).1,
    )
    else (ok (some r), s)

-- how the loop goes on behind an attempt, `rest` being its next round
unfoldable pub conclude :
    Codec
    → JobsSettings
    → Bool
    → ℕ
    → Attempt × Store
    → (Store → Option (Result (Option JobRecord) × Store))
    → Option (Result (Option JobRecord) × Store)
unfolding after_claim
conclude c cfg stop now (Attempt.idle, s) rest = some (ok none, s)
conclude c cfg stop now (Attempt.broken, s) rest = some (raised value_error, s)
conclude c cfg stop now (Attempt.retry, s) rest = rest s
conclude c cfg stop now (Attempt.claimed id r score, s) rest =
    some (after_claim c cfg stop now id r score s)

-- `claim` on fuel, `none` when that runs out; `owner` is the worker's name with its fresh suffix
unfoldable pub claim :
    Codec
    → JobsSettings
    → JobKind
    → String
    → Signals
    → ℕ
    → Store
    → Option (Result (Option JobRecord) × Store)
unfolding attempt conclude
claim c cfg k owner sig zero s = none
claim c cfg k owner sig (suc fuel) s =
    if sig.before fuel
    then some (ok none, s)
    else conclude c cfg (sig.behind fuel) (sig.clock fuel)
        (attempt cfg k owner (sig.during fuel) (sig.clock fuel) s)
        (λ u. claim c cfg k owner sig fuel u)

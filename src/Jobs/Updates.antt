-- ===== src/Jobs/Updates.antt =====
-- `RedisJobStore.change` and the updates that the store's methods pass to it
-- (app/jobs/redis_store.py). WATCH and MULTI make a successful attempt atomic, so a method is one
-- function of the store at the Redis time `now`; an attempt that meets a `WatchError` wrote nothing
-- and runs again on the newer store.
use ktb4_2nd_ai.Prelude.{
  ℕ, ◌+◌, String, Bool, true, false, not, ◌&&◌, ◌||◌, Option, none, some, is_some, [], ltb, ◌==◌,
  str_eq, if◌then◌else◌, min, max,
}
use ktb4_2nd_ai.Schemas.{ErrorCode, TaskStatus, is_terminal, is_status, ErrorBody}
use ktb4_2nd_ai.Jobs.Models.{
  JobKind, TerminalStatus, to_status, Payload, JobResultEvent, Codec, new_event, enforce_size_limit,
  JobRecord, JobsSettings, job_timeout,
}
use ktb4_2nd_ai.Jobs.Zset.{zadd, zrem}
use ktb4_2nd_ai.Jobs.Metrics.{terminal_commands}
use ktb4_2nd_ai.Jobs.Store.{
  Store, Failure, Result, ok, raised, validation_error, value_error, type_error, app_error, set_job,
  set_kind, release,
}

-- what an update of `change` does with the record: a new record, `False`, or an exception
pub data Update : Type 0 where
  changed : JobRecord → Update
  unchanged : Update
  failing : Failure → Update

-- `record.owner == owner`
abbrev pub owned_by : Option String → String → Bool
owned_by none w = false
owned_by (some o) w = str_eq o w

-- `now < time + limit`; only a PROCESSING record is asked, and it has its times
abbrev pub before_limit : ℕ → Option ℕ → ℕ → Bool
before_limit now none limit = false
before_limit now (some t) limit = ltb now (t + limit)

-- `owns`
unfoldable pub owns : JobsSettings → JobRecord → String → ℕ → Bool
unfolding is_status job_timeout
owns cfg r w now =
    is_status r.status TaskStatus.processing
    && (owned_by r.owner w
        && (before_limit now r.heartbeat_at cfg.lease
            && before_limit now r.started_at (job_timeout cfg r.kind)))

-- the record that `terminate` leaves for an event
unfoldable pub ended : JobRecord → JobResultEvent → JobRecord
unfolding is_status
ended r e = record r {
  event = some e;
  status = to_status e.status;
  current_step = none;
  progress =
      if is_status (to_status e.status) TaskStatus.completed
      then record { done = r.progress.total; total = r.progress.total }
      else r.progress;
}

-- `terminate`
unfoldable pub terminate :
    Codec → JobRecord → TerminalStatus → Option Payload → Option ErrorBody → Update
unfolding new_event enforce_size_limit ended
terminate c r st result error = elim (new_event c r.kind r.trip_id r.execution_id st result error) [
  | none ↦ failing validation_error
  | some e ↦ changed (ended r (enforce_size_limit c e))
]

-- the transaction's writes for a record that has ended
unfoldable pub settle : JobRecord → Bool → String → ℕ → Store → Store
settle r was_terminal id now s = record s {
  jobs = set_job id r s.jobs;
  operations = if was_terminal then s.operations else terminal_commands r now s.operations;
  queue = set_kind r.kind (zrem id (s.queue r.kind)) s.queue;
  running = zrem id s.running;
  slots = set_kind r.kind (release id (s.slots r.kind)) s.slots;
  pending = if r.published then s.pending else zadd id (max now r.publish_until) s.pending;
}

-- `min(heartbeat_at + lease, started_at + timeout)`; `None + float` is a `TypeError`
unfoldable pub deadline : JobsSettings → JobRecord → Option ℕ
unfolding job_timeout
deadline cfg r = elim r.heartbeat_at [
  | none ↦ none
  | some h ↦ elim r.started_at [
    | none ↦ none
    | some t ↦ some (min (h + cfg.lease) (t + job_timeout cfg r.kind))
  ]
]

-- those for a record that goes back to its queue with a score
unfoldable pub requeue : JobRecord → String → Option ℕ → Store → Store
requeue r id none s = record s { jobs = set_job id r s.jobs }
requeue r id (some score) s = record s {
  jobs = set_job id r s.jobs;
  running = zrem id s.running;
  slots = set_kind r.kind (release id (s.slots r.kind)) s.slots;
  queue = set_kind r.kind (zadd id score (s.queue r.kind)) s.queue;
}

-- those for a record that is still PROCESSING
unfoldable pub watch : Option ℕ → JobRecord → String → Store → Result (Option JobRecord) × Store
watch none r id s = (raised type_error, s)
watch (some d) r id s =
    (ok (some r), record s { jobs = set_job id r s.jobs; running = zadd id d s.running })

-- the transaction of `change` behind a successful update
unfoldable pub commit :
    JobsSettings
    → TaskStatus
    → JobRecord
    → Bool
    → String
    → Option ℕ
    → ℕ
    → Store
    → Result (Option JobRecord) × Store
unfolding settle requeue deadline watch
commit cfg TaskStatus.queued r was id score now s = (ok (some r), requeue r id score s)
commit cfg TaskStatus.processing r was id score now s = watch (deadline cfg r) r id s
commit cfg _ r was id score now s = (ok (some r), settle r was id now s)

unfoldable pub applied :
    JobsSettings → Update → Bool → String → Option ℕ → ℕ → Store → Result (Option JobRecord) × Store
unfolding commit
applied cfg unchanged was id score now s = (ok none, s)
applied cfg (failing e) was id score now s = (raised e, s)
applied cfg (changed r) was id score now s = commit cfg r.status r was id score now s

-- `change`
unfoldable pub change :
    JobsSettings
    → String
    → (JobRecord → Update)
    → Option ℕ
    → ℕ
    → Store
    → Result (Option JobRecord) × Store
unfolding applied
change cfg id update score now s = elim (s.jobs id) [
  | none ↦ (ok none, s)
  | some r ↦ applied cfg (update r) (is_terminal r.status) id score now s
]

-- the update of `return_unstarted`
unfoldable pub return_update : Codec → JobsSettings → String → ℕ → JobRecord → Update
return_update c cfg w now r =
    if not (owns cfg r w now)
    then unchanged
    else if r.cancel_requested
    then terminate c r TerminalStatus.canceled none none
    else changed (record r {
      status = TaskStatus.queued;
      owner = none;
      started_at = none;
      heartbeat_at = none;
    })

-- the update of `heartbeat`
unfoldable pub heartbeat_update : JobsSettings → String → ℕ → JobRecord → Update
heartbeat_update cfg w now r =
    if owns cfg r w now then changed (record r { heartbeat_at = some now }) else unchanged

-- the steps that `progress` accepts for a kind
unfoldable pub allowed_step : JobKind → String → Bool
allowed_step JobKind.process step =
    str_eq step "DOWNLOADING"
    || (str_eq step "EMBEDDING"
        || (str_eq step "CLOCK"
            || (str_eq step "LOCATING"
                || (str_eq step "CLUSTERING"
                    || (str_eq step "FILTERING" || str_eq step "FINALIZING")))))
allowed_step JobKind.story step =
    str_eq step "SELECTING"
    || (str_eq step "CAPTIONING" || (str_eq step "WRITING" || str_eq step "VERIFYING"))

-- the update of `progress`; the counts are not negative
unfoldable pub progress_update : JobsSettings → String → String → ℕ → ℕ → ℕ → JobRecord → Update
progress_update cfg w step done total now r =
    if not (owns cfg r w now) || r.cancel_requested
    then unchanged
    else if not (allowed_step r.kind step) || (not (total == r.progress.total) || ltb total done)
    then failing value_error
    else changed
        (record r { current_step = some step; progress = record { done = done; total = total } })

-- the update of `finish`
unfoldable pub finish_update :
    Codec
    → JobsSettings
    → String
    → TerminalStatus
    → Option Payload
    → Option ErrorBody
    → ℕ
    → JobRecord
    → Update
finish_update c cfg w st result error now r =
    if not (owns cfg r w now)
    then unchanged
    else if r.cancel_requested
    then terminate c r TerminalStatus.canceled none none
    else terminate c r st result error

-- the update of `cancel`
unfoldable pub cancel_update : Codec → JobRecord → Update
cancel_update c r =
    if is_terminal r.status
    then failing (app_error ErrorCode.task_not_cancelable)
    else if is_status r.status TaskStatus.queued
    then terminate c (record r { cancel_requested = true }) TerminalStatus.canceled none none
    else changed (record r { cancel_requested = true })

-- the update of `recover`
unfoldable pub recover_update : Codec → JobsSettings → ℕ → JobRecord → Update
recover_update c cfg now r =
    if not (is_status r.status TaskStatus.processing)
    then unchanged
    else if before_limit now r.started_at (job_timeout cfg r.kind)
        && before_limit now r.heartbeat_at cfg.lease
    then unchanged
    else terminate c r TerminalStatus.failed none (
        some (record {
          code =
              if before_limit now r.started_at (job_timeout cfg r.kind)
              then ErrorCode.worker_dead
              else ErrorCode.timeout;
          message = "실행이 중단되었습니다.";
          detail = [];
        }))

-- the update of `claim_result`
unfoldable pub claim_result_update : JobsSettings → String → ℕ → JobRecord → Update
claim_result_update cfg publisher now r =
    if not (is_some r.event) || (r.published || ltb now r.publish_until)
    then unchanged
    else changed
        (record r { publish_owner = some publisher; publish_until = now + cfg.publish_lease })

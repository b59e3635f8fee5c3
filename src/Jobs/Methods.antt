-- ===== src/Jobs/Methods.antt =====
-- The methods of `RedisJobStore` (app/jobs/redis_store.py): registration, the claim of a job, the
-- owner's calls, cancellation, recovery and the publication of results.
use ktb4_2nd_ai.Prelude.{
  ℕ, ◌+◌, String, Bool, true, false, not, ◌&&◌, ◌||◌, Option, none, some, is_some, List, [], ◌∷◌,
  ltb, ◌==◌, str_eq, if◌then◌else◌, take,
}
use ktb4_2nd_ai.Schemas.{ErrorCode, is_terminal, ErrorBody}
use ktb4_2nd_ai.Jobs.Models.{JobKind, TerminalStatus, Payload, Codec, JobRecord, JobsSettings}
use ktb4_2nd_ai.Jobs.Zset.{zadd, zrem, up_to}
use ktb4_2nd_ai.Jobs.Metrics.{terminal_commands}
use ktb4_2nd_ai.Jobs.Store.{
  Store, PhotoBatchBuffer, ReadyAttachment, BatchEntry, Result, ok, raised, app_error, set_job,
  set_kind, set_latest, identity,
}
use ktb4_2nd_ai.Jobs.Updates.{
  change, return_update, heartbeat_update, progress_update, finish_update, cancel_update,
  recover_update, claim_result_update, owned_by,
}

-- GET of a photo buffer: a key whose time has come is gone
abbrev pub live_buffer : ℕ → Option (PhotoBatchBuffer × ℕ) → Option PhotoBatchBuffer
live_buffer now none = none
live_buffer now (some (b, expires)) = if ltb now expires then some b else none

abbrev pub same_entry : String → ℕ → BatchEntry → Bool
same_entry id nr e = str_eq e.identity id && e.batch_no == nr

zrem_batch : String → ℕ → List BatchEntry → List BatchEntry
zrem_batch id nr [] = []
zrem_batch id nr (e ∷ q) =
    let rest = zrem_batch id nr q in if same_entry id nr e then rest else e ∷ rest

-- ZREM of the staged batches of an execution from the batch queue
unfoldable pub zrem_batches :
    String → List (ℕ × List ReadyAttachment) → List BatchEntry → List BatchEntry
unfolding zrem_batch
zrem_batches id [] q = q
zrem_batches id ((nr, photos) ∷ bs) q = zrem_batches id bs (zrem_batch id nr q)

-- the batches of the buffer that the execution has at `now`
abbrev pub staged : ℕ → String → Store → List (ℕ × List ReadyAttachment)
staged now id s = elim (live_buffer now (s.photo_batches id)) [ none ↦ [] | some b ↦ b.batches ]

-- the record behind the trip's latest identity
abbrev pub previous : JobKind → ℕ → Store → Option JobRecord
previous k trip s = elim (s.latest k trip) [ none ↦ none | some id ↦ s.jobs id ]

abbrev pub is_live : Option JobRecord → Bool
is_live none = false
is_live (some r) = not (is_terminal r.status)

pub data Registered : Type 0 where
  accepted duplicate busy : Registered

-- the buffer of an execution and its queued batches are dropped
unfoldable pub drop_batches : String → ℕ → Store → Store
unfolding zrem_batches
drop_batches id now s = record s {
  batch_queue = zrem_batches id (staged now id s) s.batch_queue;
  photo_batches = λ j. if str_eq id j then none else s.photo_batches j;
}

-- the writes for an accepted job: a record that brings its event goes to the publishers
unfoldable pub enqueue : String → JobRecord → ℕ → Store → Store
enqueue id r now s = record s {
  enqueue_sequence = s.enqueue_sequence + 1;
  jobs = set_job id r s.jobs;
  latest = set_latest r.kind r.trip_id id s.latest;
  pending = if is_some r.event then zadd id now s.pending else s.pending;
  operations = if is_some r.event then terminal_commands r now s.operations else s.operations;
  queue =
      if is_some r.event
      then s.queue
      else set_kind r.kind (zadd id (s.enqueue_sequence + 1) (s.queue r.kind)) s.queue;
}

-- `register` under the identity that the record has
unfoldable pub register_as : String → JobRecord → ℕ → Store → Registered × Store
unfolding drop_batches enqueue
register_as id r now s =
    if is_some (s.jobs id) || s.ignored id
    then (duplicate, s)
    else if is_live (previous r.kind r.trip_id s)
    then (
      busy,
      record (drop_batches id now s) { ignored = λ j. if str_eq id j then true else s.ignored j },
    )
    else (accepted, enqueue id (record r { created_at = now }) now (drop_batches id now s))

-- `register`
unfoldable pub register : (String → String) → JobRecord → ℕ → Store → Registered × Store
unfolding register_as identity
register sha256 r now s = register_as (identity sha256 r.trip_id r.kind r.execution_id) r now s

-- `latest`
unfoldable pub latest : JobKind → ℕ → Store → Result JobRecord
latest k trip s = elim (previous k trip s) [
  | none ↦ raised (app_error ErrorCode.task_not_found)
  | some r ↦ ok r
]

-- `return_unstarted`
unfoldable pub return_unstarted :
    Codec → JobsSettings → String → String → ℕ → ℕ → Store → Result (Option JobRecord) × Store
return_unstarted c cfg id owner score now s =
    change cfg id (return_update c cfg owner now) (some score) now s

-- `heartbeat`
unfoldable pub heartbeat :
    JobsSettings → String → String → ℕ → Store → Result (Option JobRecord) × Store
heartbeat cfg id owner now s = change cfg id (heartbeat_update cfg owner now) none now s

-- `progress`
unfoldable pub progress :
    JobsSettings → String → String → String → ℕ → ℕ → ℕ → Store → Result (Option JobRecord) × Store
progress cfg id owner step done total now s =
    change cfg id (progress_update cfg owner step done total now) none now s

-- `finish`
unfoldable pub finish :
    Codec
    → JobsSettings
    → String
    → String
    → TerminalStatus
    → Option Payload
    → Option ErrorBody
    → ℕ
    → Store
    → Result (Option JobRecord) × Store
finish c cfg id owner st result error now s =
    change cfg id (finish_update c cfg owner st result error now) none now s

unfoldable pub or_missing : Result (Option JobRecord) × Store → Result JobRecord × Store
or_missing (raised e, s) = (raised e, s)
or_missing (ok none, s) = (raised (app_error ErrorCode.task_not_found), s)
or_missing (ok (some r), s) = (ok r, s)

-- `cancel`
unfoldable pub cancel : Codec → JobsSettings → JobKind → ℕ → ℕ → Store → Result JobRecord × Store
cancel c cfg k trip now s = elim (s.latest k trip) [
  | none ↦ (raised (app_error ErrorCode.task_not_found), s)
  | some id ↦ elim (s.jobs id) [
    | none ↦ (raised (app_error ErrorCode.task_not_found), s)
    | some r ↦ or_missing (change cfg id (cancel_update c) none now s)
  ]
]

-- the loop of `recover` over the identities that it read
unfoldable pub recover_each : Codec → JobsSettings → List String → ℕ → Store → Store
recover_each c cfg [] now s = s
recover_each c cfg (id ∷ ids) now s =
    recover_each c cfg ids now (change cfg id (recover_update c cfg now) none now s).1

-- `recover`: at most 100 running jobs whose deadline has come
unfoldable pub recover : Codec → JobsSettings → ℕ → Store → Store
unfolding recover_each
recover c cfg now s = recover_each c cfg (take 100 (up_to now s.running)) now s

-- `claim_result`
unfoldable pub claim_result :
    JobsSettings → String → String → ℕ → Store → Result (Option JobRecord) × Store
claim_result cfg id publisher now s =
    change cfg id (claim_result_update cfg publisher now) none now s

-- `acknowledge_result`
unfoldable pub acknowledge_result : String → String → Store → Store
acknowledge_result id publisher s = elim (s.jobs id) [
  | none ↦ s
  | some r ↦
      if owned_by r.publish_owner publisher
      then record s {
        jobs = set_job id (record r { published = true }) s.jobs;
        pending = zrem id s.pending;
      }
      else s
]

-- `pending`
unfoldable pub pending : ℕ → Store → List String
pending now s = take 100 (up_to now s.pending)

-- ===== src/Jobs/Models.antt =====
-- The records and messages of app/jobs/models.py, and the settings of app/jobs/config.py that the
-- store reads. Times are whole microseconds; JSON bodies that are stored unread are their text.
use ktb4_2nd_ai.Prelude.{
  ℕ, ◌*◌, String, Bool, true, false, not, Option, none, some, is_some, List, [], ◌∷◌, leb,
  if◌then◌else◌,
}
use ktb4_2nd_ai.Schemas.{ErrorCode, default_message, TaskStatus, Progress, ErrorBody, DetailValue}

-- `JobKind`
pub data JobKind : Type 0 where
  process story : JobKind

abbrev pub same_kind : JobKind → JobKind → Bool
same_kind process process = true
same_kind story story = true
same_kind _ _ = false

abbrev pub kind_name : JobKind → String
kind_name process = "process"
kind_name story = "story"

-- `TerminalStatus`
pub data TerminalStatus : Type 0 where
  completed failed canceled : TerminalStatus

-- `TaskStatus(event.status)`
abbrev pub to_status : TerminalStatus → TaskStatus
to_status completed = TaskStatus.completed
to_status failed = TaskStatus.failed
to_status canceled = TaskStatus.canceled

abbrev pub is_completed : TerminalStatus → Bool
is_completed completed = true
is_completed _ = false

abbrev pub is_failed : TerminalStatus → Bool
is_failed failed = true
is_failed _ = false

-- A job's result: a process result by the photo counts of its places and of its unclassified list,
-- a story by its number of blocks; each with the rest of its JSON.
pub data Payload : Type 0 where
  photos : List ℕ → ℕ → String → Payload
  blocks : ℕ → String → Payload

-- `JobResultEvent`; `type` is the kind with "_result" behind it
pub record JobResultEvent : Type 0 where
  pub kind : JobKind
  pub trip_id : ℕ
  pub execution_id : String
  pub status : TerminalStatus
  pub result : Option Payload
  pub error : Option ErrorBody

-- What pydantic and the JSON encoder compute: the validated form of a result (`none` where it is
-- refused) and the size of an event in bytes.
pub record Codec : Type 0 where
  pub validate_result : JobKind → Payload → Option Payload
  pub event_size : JobResultEvent → ℕ

abbrev pub result_max_bytes : ℕ
result_max_bytes = 512 * 1024

unfoldable pub same_bool : Bool → Bool → Bool
same_bool true b = b
same_bool false b = not b

unfoldable pub validated :
    Codec → JobKind → Option Payload → (Option Payload → JobResultEvent) → Option JobResultEvent
validated c k none build = some (build none)
validated c k (some p) build = elim (c.validate_result k p) [
  | none ↦ none
  | some q ↦ some (build (some q))
]

-- `JobResultEvent(…)` with its validator `check_payload`; `none` is a `ValidationError`
unfoldable pub new_event :
    Codec
    → JobKind
    → ℕ
    → String
    → TerminalStatus
    → Option Payload
    → Option ErrorBody
    → Option JobResultEvent
unfolding same_bool validated
new_event c k trip exec st result error =
    if not (same_bool (is_completed st) (is_some result))
    then none
    else if not (same_bool (is_failed st) (is_some error))
    then none
    else validated c k result (λ r. record {
      kind = k;
      trip_id = trip;
      execution_id = exec;
      status = st;
      result = r;
      error = error;
    })

-- `enforce_size_limit`
unfoldable pub enforce_size_limit : Codec → JobResultEvent → JobResultEvent
unfolding default_message
enforce_size_limit c e = if leb (c.event_size e) result_max_bytes then e else record {
  kind = e.kind;
  trip_id = e.trip_id;
  execution_id = e.execution_id;
  status = failed;
  result = none;
  error = some (record {
    code = ErrorCode.result_too_large;
    message = default_message ErrorCode.result_too_large;
    detail =
        ("max_bytes", DetailValue.number result_max_bytes)
        ∷ ("actual_bytes", DetailValue.number (c.event_size e))
        ∷ [];
  });
}

-- `JobRecord`
pub record JobRecord : Type 0 where
  pub trip_id : ℕ
  pub kind : JobKind
  pub execution_id : String
  pub request : String
  pub request_topic : String
  pub result_topic : String
  pub created_at : ℕ
  pub status : TaskStatus
  pub progress : Progress
  pub current_step : Option String
  pub owner : Option String
  pub heartbeat_at : Option ℕ
  pub started_at : Option ℕ
  pub cancel_requested : Bool
  pub event : Option JobResultEvent
  pub publish_owner : Option String
  pub publish_until : ℕ
  pub published : Bool

-- `JobStatusResponse`
pub record JobStatusResponse : Type 0 where
  pub trip_id : ℕ
  pub execution_id : String
  pub status : TaskStatus
  pub progress : Progress
  pub current_step : Option String

-- `JobRecord.response`
unfoldable pub response : JobRecord → JobStatusResponse
response r = record {
  trip_id = r.trip_id;
  execution_id = r.execution_id;
  status = r.status;
  progress = r.progress;
  current_step = r.current_step;
}

-- the settings of `JobsSettings` that the store reads, in microseconds
pub record JobsSettings : Type 0 where
  pub lease : ℕ
  pub timeout : ℕ
  pub process_timeout : ℕ
  pub publish_lease : ℕ
  pub photos_ready_ttl : ℕ
  pub story_concurrency : ℕ

-- `MAX_STORY_CONCURRENCY`
abbrev pub max_story_concurrency : ℕ
max_story_concurrency = 4

-- `job_timeout`
unfoldable pub job_timeout : JobsSettings → JobKind → ℕ
job_timeout cfg process = cfg.process_timeout
job_timeout cfg story = cfg.timeout

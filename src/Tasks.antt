-- ===== src/Tasks.antt =====
-- The v1 task manager: app/jobs/task_store.py, app/jobs/task_service.py and the replies of
-- app/jobs/worker_client.py. A method takes the service's state and the clock readings it makes,
-- and returns the new state; one that may raise `AppError` returns a `Result` beside it.
-- The store's dict is the list of its tasks in insertion order; the worker is a `Worker`, the
-- replies that its HTTP endpoints give. Logging is left out.
pub mod Methods
pub mod Counts
pub mod Invariant
pub mod Dispatch
pub mod Keeps
pub mod Watchdog
pub mod Calls
pub mod Waits
mod Tests
use ktb4_2nd_ai.Prelude.{
  ℕ, zero, suc, ◌+◌, String, Bool, true, false, Option, none, some, List, [], ◌∷◌, ltb, leb, ◌==◌,
  if◌then◌else◌, bit,
}
use ktb4_2nd_ai.Schemas.{
  ErrorCode, default_message, TaskStatus, is_status, ProcessStep, ErrorBody, DetailValue,
}

-- what the task manager reads of a `ProcessRequest`: its execution and its attachments
pub record Request : Type 0 where
  pub execution_id : Option String
  pub attachments : List ℕ

-- `Task`; a `ProcessResult` is stored and handed on unread, so only its name stands here
pub record Task : Type 0 where
  pub trip_id : ℕ
  pub request : Request
  pub total : ℕ
  pub created_at : ℕ
  pub status : TaskStatus
  pub done : ℕ
  pub current_step : Option ProcessStep
  pub result : Option String
  pub error : Option ErrorBody
  pub started_at : Option ℕ
  pub last_callback : Option ℕ
  pub finished_at : Option ℕ

-- `Settings`, the four limits that the task manager reads
pub record Settings : Type 0 where
  pub max_concurrent : ℕ
  pub max_queue : ℕ
  pub worker_dead_sec : ℕ
  pub task_timeout_sec : ℕ

-- the fields that `to_response` computes: `done` and the payload that the status allows
pub record TaskStatusResponse : Type 0 where
  pub trip_id : ℕ
  pub execution_id : Option String
  pub status : TaskStatus
  pub done : ℕ
  pub total : ℕ
  pub current_step : Option ProcessStep
  pub result : Option String
  pub error : Option ErrorBody

pub data Result (A : Type 0) : Type 0 where
  ok : A → Result A
  raised : ErrorCode → Result A

-- `TaskStore.get`
pub find : ℕ → List Task → Option Task
find k [] = none
find k (t ∷ ts) = if t.trip_id == k then some t else find k ts

-- `TaskStore.put`: a dict keeps the place of a key that it overwrites
pub put : Task → List Task → List Task
put t [] = t ∷ []
put t (u ∷ ts) = if u.trip_id == t.trip_id then t ∷ ts else u ∷ put t ts

-- a change to the fields of the task that the store holds under `k`
pub modify : ℕ → (Task → Task) → List Task → List Task
modify k f [] = []
modify k f (t ∷ ts) = if t.trip_id == k then f t ∷ ts else t ∷ modify k f ts

-- `TaskStore.count`
pub count : TaskStatus → List Task → ℕ
count st [] = 0
count st (t ∷ ts) = bit (is_status t.status st) + count st ts

-- `Task.to_response`
unfoldable pub to_response : Task → TaskStatusResponse
to_response t = record {
  trip_id = t.trip_id;
  execution_id = t.request.execution_id;
  status = t.status;
  done = if is_status t.status TaskStatus.completed then t.total else t.done;
  total = t.total;
  current_step = t.current_step;
  result = t.result;
  error = t.error;
}

-- `TaskService`, with the attributes of its `TaskStore`. `waiters k` is the event of trip `k`:
-- `none` where there is none, `some true` once it is set.
pub record Service : Type 0 where
  pub tasks : List Task
  pub boot_time : ℕ
  pub last_activity : Option ℕ
  pub waiters : ℕ → Option Bool

-- `SubmitResult`, and `WorkerUnavailable` with its reason
pub data SubmitResult : Type 0 where
  accepted busy not_ready : SubmitResult
  unavailable : String → SubmitResult

-- `WorkerClient.submit`: the status code of POST /jobs, `none` for an `httpx.HTTPError`
unfoldable pub submit_result : String → Option ℕ → SubmitResult
submit_result reason none = SubmitResult.unavailable reason
submit_result reason (some code) =
    if code == 202
    then SubmitResult.accepted
    else if code == 409
    then SubmitResult.busy
    else if code == 503
    then SubmitResult.not_ready
    else SubmitResult.unavailable reason

-- The worker process and the clock during one dispatch: whether `ready()` reports a loaded model,
-- the answer to POST /jobs for a trip, and the clock when that answer arrives.
pub record Worker : Type 0 where
  pub model_loaded : Bool
  pub reply : ℕ → SubmitResult
  pub clock : ℕ → ℕ

-- `waiter.set()`, where there is a waiter
unfoldable pub set_waiter : ℕ → (ℕ → Option Bool) → ℕ → Option Bool
set_waiter k w j = if j == k then (elim (w k) [ none ↦ none | some _ ↦ some true ]) else w j

-- `_finish`
unfoldable pub finish : ℕ → TaskStatus → Option String → Option ErrorBody → ℕ → Service → Service
unfolding set_waiter
finish k st res err now s = record s {
  tasks =
      modify k
        (λ t. record t {
          status = st;
          result = res;
          error = err;
          current_step = none;
          finished_at = some now;
        })
        s.tasks;
  last_activity = some now;
  waiters = set_waiter k s.waiters;
}

-- `_error`
pub error_body : ErrorCode → List (String × DetailValue) → ErrorBody
unfolding default_message
error_body c d = record { code = c; message = default_message c; detail = d }

-- the earlier of two candidates of `min(queued, key=created_at)`, the first one on a tie
earlier : Task → Option Task → Option Task
earlier t none = some t
earlier t (some u) = if leb t.created_at u.created_at then some t else some u

-- `min([t for t in all() if t.status is QUEUED], key=created_at)`, `none` for no such task
pub oldest : List Task → Option Task
unfolding earlier
oldest [] = none
oldest (t ∷ ts) =
    let rest = oldest ts in if is_status t.status TaskStatus.queued then earlier t rest else rest

-- what `_dispatch_next` does once a task was accepted
pub start : ℕ → ℕ → Service → Service
start k now s = record s {
  tasks =
      modify k
        (λ t. record t {
          status = TaskStatus.processing;
          started_at = some now;
          last_callback = some now;
        })
        s.tasks;
}

-- `_dispatch_next` with the answer to the task `k` that it picked: the state, and whether the
-- `while` loop goes on
pub on_reply : ℕ → SubmitResult → ℕ → Service → Service × Bool
unfolding finish error_body start
on_reply k SubmitResult.accepted now s = (start k now s, true)
on_reply k SubmitResult.busy now s = (s, false)
on_reply k SubmitResult.not_ready now s = (s, false)
on_reply k (SubmitResult.unavailable e) now s = (
  finish k TaskStatus.failed none
      (some (error_body ErrorCode.worker_dead (("reason", DetailValue.text e) ∷ []))) now s,
  true,
)

-- the `while` loop of `_dispatch_next`, on fuel
pub dispatch_loop : ℕ → Settings → Worker → Service → Service
dispatch_loop zero cfg w s = s
dispatch_loop (suc fuel) cfg w s =
    if ltb (count TaskStatus.processing s.tasks) cfg.max_concurrent
    then elim (oldest s.tasks) [
      | none ↦ s
      | some t ↦ elim ((on_reply t.trip_id (w.reply t.trip_id) (w.clock t.trip_id) s).1) [
        | true ↦
            dispatch_loop fuel cfg w
              (on_reply t.trip_id (w.reply t.trip_id) (w.clock t.trip_id) s).0
        | false ↦ (on_reply t.trip_id (w.reply t.trip_id) (w.clock t.trip_id) s).0
      ]
    ]
    else s

-- `_dispatch_next`: each round settles one queued task, so one round more than their number is
-- enough
pub dispatch_next : Settings → Worker → Service → Service
unfolding dispatch_loop oldest on_reply
dispatch_next cfg w s = dispatch_loop (suc (count TaskStatus.queued s.tasks)) cfg w s

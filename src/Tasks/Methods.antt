-- ===== src/Tasks/Methods.antt =====
-- The methods of `TaskService` (app/jobs/task_service.py): intake, worker callbacks, cancellation
-- and the watchdog. Each is run to its end: what other coroutines do at an `await` is not part of
-- these definitions.
use ktb4_2nd_ai.Prelude.{
  ℕ, ◌+◌, ◌-◌, ◌/◌, Bool, false, ◌&&◌, ◌||◌, not, Option, none, some, List, [], ◌∷◌, ltb, leb, ◌==◌,
  if◌then◌else◌, length, String,
}
use ktb4_2nd_ai.Schemas.{ErrorCode, TaskStatus, is_terminal, is_status, ProcessStep, ErrorBody}
use ktb4_2nd_ai.Tasks.{
  Request, Task, Settings, Result, ok, raised, find, put, modify, count, Service, Worker, finish,
  error_body, dispatch_next,
}

-- the task that a POST creates
abbrev pub new_task : ℕ → Request → ℕ → Task
new_task k request now = record {
  trip_id = k;
  request = request;
  total = length request.attachments;
  created_at = now;
  status = TaskStatus.queued;
  done = 0;
  current_step = none;
  result = none;
  error = none;
  started_at = none;
  last_callback = none;
  finished_at = none;
}

abbrev pub slot_free : Settings → Service → Bool
slot_free cfg s = ltb (count TaskStatus.processing s.tasks) cfg.max_concurrent

-- the unfinished attempt for which a POST is refused
unfoldable pub unfinished : Option Task → Bool
unfinished none = false
unfinished (some t) = not (is_terminal t.status)

-- the three guards of `submit`, in order
unfoldable pub admission : Settings → Worker → ℕ → Service → Option ErrorCode
unfolding unfinished
admission cfg w k s =
    if unfinished (find k s.tasks)
    then some ErrorCode.duplicate_task
    else if not (slot_free cfg s) && leb cfg.max_queue (count TaskStatus.queued s.tasks)
    then some ErrorCode.rate_limited
    else if slot_free cfg s && not w.model_loaded
    then some ErrorCode.model_not_ready
    else none

-- the task and its fresh event are stored
unfoldable pub intake : ℕ → Request → ℕ → Service → Service
intake k request now s = record s {
  tasks = put (new_task k request now) s.tasks;
  waiters = λ j. if j == k then some false else s.waiters j;
}

-- the body of `submit` behind its guards
unfoldable pub admitted :
    Option ErrorCode → Settings → Worker → ℕ → Request → ℕ → Service → Result ℕ × Service
admitted (some e) cfg w k request now s = (raised e, s)
admitted none cfg w k request now s = (ok k, dispatch_next cfg w (intake k request now s))

-- `submit`
unfoldable pub submit : Settings → Worker → ℕ → Request → ℕ → Service → Result ℕ × Service
unfolding admitted
submit cfg w k request now s = admitted (admission cfg w k s) cfg w k request now s

-- a worker callback that moves the service to `next`: an unknown trip raises, and one that is not
-- PROCESSING is ignored
unfoldable pub on_processing : ℕ → Service → Service → Result (Unit {0}) × Service
on_processing k s next = elim (find k s.tasks) [
  | none ↦ (raised ErrorCode.task_not_found, s)
  | some t ↦ if is_status t.status TaskStatus.processing then (ok tt, next) else (ok tt, s)
]

-- `progress`
unfoldable pub progress : ℕ → ProcessStep → ℕ → ℕ → Service → Result (Unit {0}) × Service
unfolding on_processing
progress k step done now s = on_processing k s (record s {
  tasks =
      modify k (λ t. record t { done = done; current_step = some step; last_callback = some now })
        s.tasks;
})

-- `complete`
unfoldable pub complete : Settings → Worker → ℕ → String → ℕ → Service → Result (Unit {0}) × Service
unfolding on_processing
complete cfg w k result now s =
    on_processing k s (dispatch_next cfg w (finish k TaskStatus.completed (some result) none now s))

-- the two ends that a failure callback can bring
unfoldable pub fail_end : ErrorBody → ErrorCode → ℕ → ℕ → Service → Service
fail_end e ErrorCode.canceled k now s = finish k TaskStatus.canceled none none now s
fail_end e _ k now s = finish k TaskStatus.failed none (some e) now s

-- `fail`
unfoldable pub fail : Settings → Worker → ℕ → ErrorBody → ℕ → Service → Result (Unit {0}) × Service
unfolding on_processing fail_end
fail cfg w k e now s = on_processing k s (dispatch_next cfg w (fail_end e e.code k now s))

-- `cancel`: a QUEUED task ends here; for a PROCESSING one the worker is asked, and the state stays
unfoldable pub cancel : ℕ → ℕ → Service → Result (Unit {0}) × Service
cancel k now s = elim (find k s.tasks) [
  | none ↦ (raised ErrorCode.task_not_found, s)
  | some t ↦
      if is_terminal t.status
      then (raised ErrorCode.task_not_cancelable, s)
      else if is_status t.status TaskStatus.queued
      then (ok tt, finish k TaskStatus.canceled none none now s)
      else (ok tt, s)
]

-- `now - since > limit`; the sum keeps the subtraction out
abbrev pub elapsed_over : ℕ → Option ℕ → ℕ → Bool
elapsed_over limit none now = false
elapsed_over limit (some since) now = ltb (since + limit) now

-- the watchdog's verdict on one task
unfoldable pub overdue : Settings → ℕ → Task → Option ErrorCode
overdue cfg now t =
    if is_status t.status TaskStatus.processing
    then if elapsed_over cfg.worker_dead_sec t.last_callback now
      then some ErrorCode.worker_dead
      else if elapsed_over cfg.task_timeout_sec t.started_at now
      then some ErrorCode.timeout
      else none
    else none

unfoldable pub expire_one : Option ErrorCode → ℕ → ℕ → Service → Service
expire_one none k now s = s
expire_one (some e) k now s = finish k TaskStatus.failed none (some (error_body e [])) now s

-- the loop of `tick` over the copied list of tasks
unfoldable pub expire : Settings → ℕ → List Task → Service → Service
unfolding expire_one overdue
expire cfg now [] s = s
expire cfg now (t ∷ ts) s = expire cfg now ts (expire_one (overdue cfg now t) t.trip_id now s)

-- `tick`
unfoldable pub tick : Settings → Worker → ℕ → Service → Service
unfolding expire
tick cfg w now s = dispatch_next cfg w (expire cfg now s.tasks s)

-- `idle_seconds`: the clock never goes back, so the truncated difference is exact; times are in
-- microseconds
unfoldable pub idle_seconds : ℕ → Service → ℕ
idle_seconds now s =
    if ltb 0 (count TaskStatus.processing s.tasks) || ltb 0 (count TaskStatus.queued s.tasks)
    then 0
    else (now - (elim s.last_activity [ none ↦ s.boot_time | some since ↦ since ])) / 1000000

-- `_require`, which `get` calls
unfoldable pub require : ℕ → Service → Result Task
require k s = elim (find k s.tasks) [ none ↦ raised ErrorCode.task_not_found | some t ↦ ok t ]

-- `active_tasks` and `queued`
unfoldable pub active_tasks : Service → ℕ
active_tasks s = count TaskStatus.processing s.tasks

unfoldable pub queued : Service → ℕ
queued s = count TaskStatus.queued s.tasks

-- `wait_done` at one moment: `none` while the event that it found is not set
unfoldable pub wait_done : ℕ → Service → Option (Result Task)
unfolding require
wait_done k s = elim (s.waiters k) [
  | none ↦ some (require k s)
  | some is_set ↦ if is_set then some (require k s) else none
]

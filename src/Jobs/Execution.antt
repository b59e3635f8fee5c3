-- ===== src/Jobs/Execution.antt =====
-- The child process that runs a job: `JobReporter`, `execute` and `record_evaluations` of
-- app/jobs/execution.py. A handler is the tree of its calls of the reporter. Traces and logs are left
-- out; calls of Redis answer, and an error of Redis in a handler is one of its exceptions.
use ktb4_2nd_ai.Prelude.{
  ℕ, zero, suc, ◌+◌, String, Bool, true, false, not, ◌||◌, ◌&&◌, Option, none, some, List, [], ◌∷◌,
  if◌then◌else◌,
}
use ktb4_2nd_ai.Schemas.{ErrorCode, TaskStatus, is_terminal, ErrorBody}
use ktb4_2nd_ai.Jobs.Models.{TerminalStatus, Payload, Codec, JobRecord, JobsSettings}
use ktb4_2nd_ai.Jobs.Store.{ReadyAttachment, Store, Result, ok, raised}
use ktb4_2nd_ai.Jobs.Updates.{owns}
use ktb4_2nd_ai.Jobs.Photos.{photo_batch}
use ktb4_2nd_ai.Jobs.PhotoMetrics.{PhotoKeys, save_photo_metrics}
use ktb4_2nd_ai.Jobs.Methods.{progress, finish}
pub mod Held
pub mod Ends

-- what leaves the handler as an exception: `PipelineCancelled`, a `PipelineError` with its body, or
-- any other
pub data Raised : Type 0 where
  cancelled : Raised
  pipeline_error : ErrorBody → Raised
  other : Raised

-- a handler: it ends with a result or an exception, or it calls `report` or `check_cancel` and goes
-- on with the exception that the call raised, if any
pub data Handler : Type 0 where
  returns : Payload → Handler
  fails : Raised → Handler
  reports : String → ℕ → ℕ → (Option Raised → Handler) → Handler
  checks : (Option Raised → Handler) → Handler

-- The Redis time at each call of the store, and what others did to the store before it. The calls
-- are counted from zero.
pub record World : Type 0 where
  pub time : ℕ → ℕ
  pub others : ℕ → Store → Store

-- `report`
unfoldable pub reported : Result (Option JobRecord) × Store → Option Raised × Store
reported (ok none, s) = (some cancelled, s)
reported (ok (some r), s) = (none, s)
reported (raised e, s) = (some other, s)

unfoldable pub report :
    JobsSettings → String → String → String → ℕ → ℕ → ℕ → Store → Option Raised × Store
unfolding reported
report cfg id owner step done total now s = reported (progress cfg id owner step done total now s)

-- `check_cancel`
unfoldable pub check_cancel : JobsSettings → String → String → ℕ → Store → Option Raised
check_cancel cfg id owner now s = elim (s.jobs id) [
  | none ↦ some cancelled
  | some r ↦ if r.cancel_requested || not (owns cfg r owner now) then some cancelled else none
]

pub data Ran : Type 0 where
  result : Payload → Ran
  exception : Raised → Ran

-- the end of a handler, the number of the next call, and the store
abbrev pub Run : Type 0
Run = Ran × (ℕ × Store)

module _ (c : Codec) (cfg : JobsSettings) (id owner : String) (world : World) where
  unfoldable pub run_handler : Handler → ℕ → Store → Run
  unfolding report check_cancel
  run_handler (returns p) n s = (result p, (n, s))
  run_handler (fails e) n s = (exception e, (n, s))
  run_handler (reports step done total next) n s =
      let r = report cfg id owner step done total (world.time n) (world.others n s) in
      run_handler (next r.0) (suc n) r.1
  run_handler (checks next) n s =
      let t = world.others n s in
      run_handler (next (check_cancel cfg id owner (world.time n) t)) (suc n) t

  -- `store.finish` at the n-th call
  abbrev pub finish_at :
      TerminalStatus
      → Option Payload
      → Option ErrorBody
      → ℕ
      → Store
      → Result (Option JobRecord) × Store
  finish_at st res err n s = finish c cfg id owner st res err (world.time n) (world.others n s)

  abbrev pub internal_error : ErrorBody
  internal_error = record {
    code = ErrorCode.internal_error;
    message = "작업 실행에 실패했습니다.";
    detail = [];
  }

  -- the branches behind an exception
  unfoldable pub on_exception : Raised → ℕ → Store → Result (Option JobRecord) × Store
  on_exception cancelled n s = finish_at TerminalStatus.canceled none none n s
  on_exception (pipeline_error e) n s = finish_at TerminalStatus.failed none (some e) n s
  on_exception other n s = finish_at TerminalStatus.failed none (some internal_error) n s

  -- a result whose `finish` raises is an exception of its own
  unfoldable pub on_completed :
      Result (Option JobRecord) × Store → ℕ → Result (Option JobRecord) × Store
  unfolding on_exception
  on_completed (ok r, s) n = (ok r, s)
  on_completed (raised e, s) n = on_exception other n s

  unfoldable pub store_result : Run → Result (Option JobRecord) × Store
  unfolding on_exception on_completed
  store_result (result p, (n, s)) =
      on_completed (finish_at TerminalStatus.completed (some p) none n s) (suc n)
  store_result (exception e, (n, s)) = on_exception e n s

  -- the body of `try` in `execute`, behind the check of the cancellation
  unfoldable pub try_handler : Handler → Option Raised → ℕ → Store → Run
  unfolding run_handler
  try_handler h none n s = run_handler h n s
  try_handler h (some e) n s = (exception e, (n, s))

  unfoldable pub execute_owned : Handler → Store → Result (Option JobRecord) × Store
  unfolding check_cancel try_handler store_result
  execute_owned h s =
      let t = world.others 1 s in
      store_result (try_handler h (check_cancel cfg id owner (world.time 1) t) 2 t)

  -- `execute` up to the result in the store
  unfoldable pub execute : Handler → Store → Result (Option JobRecord) × Store
  unfolding execute_owned
  execute h s =
      let t = world.others 0 s in
      elim (t.jobs id) [
        | none ↦ (ok none, t)
        | some r ↦ if owns cfg r owner (world.time 0) then execute_owned h t else (ok none, t)
      ]

-- `record_evaluations`: the reports that go to the dashboard; a report is its dashboard flag and its
-- text
unfoldable pub record_evaluations : TaskStatus → List (Bool × String) → List String
record_evaluations TaskStatus.completed [] = []
record_evaluations TaskStatus.completed ((dashboard, text) ∷ rs) =
    let rest = record_evaluations TaskStatus.completed rs in if dashboard then text ∷ rest else rest
record_evaluations _ rs = []

-- What `guard` of `run_job` says each time it wakes up: an ended job is left alone, and a job that is
-- not owned any more is aborted.
unfoldable pub guard_aborts : JobsSettings → String → String → ℕ → Store → Bool
guard_aborts cfg id owner now s = elim (s.jobs id) [
  | none ↦ true
  | some r ↦ if is_terminal r.status then false else not (owns cfg r owner now)
]

-- how `run_batch` ends: the batch is gone, the handler or the store raised, or so many photos were
-- embedded
pub data BatchRun : Type 0 where
  skipped failed : BatchRun
  completed : ℕ → BatchRun

unfoldable pub count_records : {A : Type 0} → List (ℕ × A) → ℕ
count_records [] = 0
count_records (r ∷ rs) = suc (count_records rs)

-- the dict from photo ids to the paths of their copies; a batch has no id twice
unfoldable pub paths_of : List ReadyAttachment → List (ℕ × String)
paths_of [] = []
paths_of (p ∷ ps) = (p.trip_attachment_id, p.analyze_storage_key) ∷ paths_of ps

-- `run_batch`; the handler embeds the photos and measures them, or raises, and the records go to the
-- keys of photos only
module _ {A : Type 0} (encode : A → String) (decode : String → Option A) where
  unfoldable pub run_batch :
      (List (ℕ × String) → Option (List (ℕ × A)))
      → String
      → ℕ
      → ℕ
      → ℕ
      → Store
      → PhotoKeys
      → BatchRun × PhotoKeys
  unfolding count_records paths_of
  run_batch handler id nr ttl now s keys = elim (photo_batch id nr now s) [
    | none ↦ (skipped, keys)
    | some photos ↦ elim (handler (paths_of photos)) [
      | none ↦ (failed, keys)
      | some records ↦
          (completed (count_records records), save_photo_metrics encode decode ttl now records keys)
    ]
  ]

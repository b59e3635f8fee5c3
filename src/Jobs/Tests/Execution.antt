-- ===== src/Jobs/Tests/Execution.antt =====
-- A child process and its runner on a concrete job (app/jobs/execution.py, app/jobs/runner.py).
use ktb4_2nd_ai.Prelude.{
  ℕ, ◌+◌, ◌*◌, sym, ap, ◌∙◌, some_injective, ◌≡◌, ◌⊎◌, refl, true, false, none, some, [], ◌∷◌,
}
use ktb4_2nd_ai.Schemas.{TaskStatus, is_status}
use ktb4_2nd_ai.Jobs.Models.{
  TerminalStatus, JobResultEvent, JobRecord, process, photos, job_timeout, new_event, same_bool,
  validated, enforce_size_limit,
}
use ktb4_2nd_ai.Jobs.Zset.{zadd, zrem, insert}
use ktb4_2nd_ai.Jobs.Methods.{register_as, drop_batches, enqueue, heartbeat, progress, finish}
use ktb4_2nd_ai.Jobs.Claim.{
  attempt, any_stale, is_stale, occupied, take_first, take_waiting, take_over, occupy,
}
use ktb4_2nd_ai.Jobs.Updates.{
  owns, heartbeat_update, change, applied, commit, watch, deadline, progress_update, allowed_step,
  finish_update, terminate, ended, settle,
}
use ktb4_2nd_ai.Jobs.Endings.{IsOver}
use ktb4_2nd_ai.Jobs.Execution.{
  Handler, World, returns, fails, reports, report, reported, check_cancel, execute,
}
use ktb4_2nd_ai.Jobs.Execution.Held.{IsHeld}
use ktb4_2nd_ai.Jobs.Execution.Ends.{
  Calls, handler_calls, try_calls, execute_calls, Kept, execute-IsOver,
}
use ktb4_2nd_ai.Jobs.Runner.{Tick, left, supervise}
use ktb4_2nd_ai.Jobs.Runner.Supervision.{exited_record, supervise-IsOver}
use ktb4_2nd_ai.Jobs.Tests.{codec, cfg, running, running_job, running_there}

-- Redis's clock goes on by 20 between the calls, a third of the lease, and the runner sends a heartbeat
-- before each
abbrev beating : World
beating = record {
  time = λ n. 25 + 20 * n;
  others = λ n s. (heartbeat cfg "j1" "w1" (25 + 20 * n) s).1;
}

-- a handler that reports once and returns a result, or passes on what the report raised
abbrev handler : Handler
handler =
    reports "DOWNLOADING" 1 3 (λ o. elim o [ none ↦ returns (photos [] 3 "{}") | some e ↦ fails e ])

-- the record of the run, by its last heartbeat
abbrev beaten : ℕ → JobRecord
beaten t = record running_job { heartbeat_at = some t }

abbrev reported_job : JobRecord
reported_job = record running_job {
  heartbeat_at = some 85;
  current_step = some "DOWNLOADING";
  progress = record { done = 1; total = 3 };
}

abbrev stored_event : JobResultEvent
stored_event = record {
  kind = process;
  trip_id = 7;
  execution_id = "e1";
  status = TerminalStatus.completed;
  result = some (photos [] 3 "{}");
  error = none;
}

abbrev stored_job : JobRecord
stored_job = record reported_job {
  status = TaskStatus.completed;
  event = some stored_event;
  current_step = none;
  progress = record { done = 3; total = 3 };
}

first-IsHeld : IsHeld cfg "j1" "w1" process 25 (beating.others 0 running)
unfolding register_as drop_batches enqueue attempt any_stale is_stale occupied take_first
    take_waiting take_over is_status occupy zadd zrem insert heartbeat heartbeat_update change
    applied commit watch deadline owns job_timeout
first-IsHeld = record { last = beaten 25; there = refl; mine = refl; kind = refl }

kept :
    Kept cfg "j1" "w1" process beating (execute_calls codec cfg "j1" "w1" beating handler running)
unfolding register_as drop_batches enqueue attempt any_stale is_stale occupied take_first
    take_waiting take_over is_status occupy zadd zrem insert heartbeat heartbeat_update change
    applied commit watch deadline owns job_timeout Kept Calls execute_calls try_calls handler_calls
    check_cancel report reported progress progress_update allowed_step finish finish_update
    terminate new_event same_bool validated enforce_size_limit ended settle
kept = (
  λ h. record { last = beaten 45; there = refl; mine = refl; kind = refl },
  (
    λ h. record { last = beaten 65; there = refl; mine = refl; kind = refl },
    (
      λ h. record { last = reported_job; there = refl; mine = refl; kind = refl },
      (
        λ h.
            let same : h.last ≡ stored_job = some_injective (sym h.there ∙ refl) in
            absurd (cc (ap (λ (x : JobRecord). owns cfg x "w1" 85) same, h.mine)),
        tt,
      ),
    ),
  ),
)

execute-IsOver_example : IsOver "j1" process (execute codec cfg "j1" "w1" beating handler running).1
execute-IsOver_example =
    execute-IsOver codec cfg "j1" "w1" process beating handler running kept first-IsHeld

abbrev crash : Tick
crash = record { others = λ s. s; now = 30; exited = true; grace = λ s. s; later = 35 }

supervise-IsOver_example :
    ((owns cfg running_job "w1" 30 ≡ true)
      × (((supervise codec cfg "j1" "w1" (crash ∷ []) running).0 ≡ some (left true))
          × (((supervise codec cfg "j1" "w1" (crash ∷ []) running).1.jobs "j1"
                ≡ some (exited_record codec running_job))
              × (((running_job.cancel_requested ≡ true)
                    ⊎ ((exited_record codec running_job).status ≡ TaskStatus.failed))
                  × IsOver "j1" process (supervise codec cfg "j1" "w1" (crash ∷ []) running).1))))
    ⊎ ((owns cfg running_job "w1" 30 ≡ false)
        × (supervise codec cfg "j1" "w1" (crash ∷ []) running ≡ (some (left false), running)))
supervise-IsOver_example =
    supervise-IsOver codec cfg "j1" "w1" crash [] running_job running refl running_there

-- ===== src/Jobs/Tests.antt =====
-- The job store on concrete jobs (app/jobs/redis_store.py).
mod Intake
mod Publishing
mod Execution
use ktb4_2nd_ai.Prelude.{
  sym, ◌∙◌, some_injective, subst, ◌∷◌, ◌+◌, ◌≡◌, ◌≢◌, refl, String, true, false, none, some,
  is_some, [], arith, ◌⊎◌, length,
}
use ktb4_2nd_ai.Schemas.{ErrorCode, TaskStatus, is_status, ErrorBody}
use ktb4_2nd_ai.Jobs.Models.{
  process, TerminalStatus, Codec, JobRecord, JobResultEvent, JobsSettings, job_timeout, new_event,
  same_bool, validated, enforce_size_limit,
}
use ktb4_2nd_ai.Jobs.Zset.{member, zadd, zrem, insert}
use ktb4_2nd_ai.Jobs.Store.{Store, ok, raised, validation_error, occupies}
use ktb4_2nd_ai.Jobs.Updates.{
  change, applied, commit, settle, owns, before_limit, terminate, ended, finish_update,
  claim_result_update, recover_update,
}
use ktb4_2nd_ai.Jobs.Methods.{
  return_unstarted, register_as, duplicate, drop_batches, enqueue, finish, heartbeat, progress,
  claim_result,
}
use ktb4_2nd_ai.Jobs.Claim.{
  attempt, any_stale, is_stale, occupied, occupy, take_first, take_waiting, take_over, taken, claim,
  Signals,
}
use ktb4_2nd_ai.Jobs.Steps.{empty, Reach, here, next, registered, attempted, finished}
use ktb4_2nd_ai.Jobs.Sound.{IsSound}
use ktb4_2nd_ai.Jobs.Sound.{IsSound}
use ktb4_2nd_ai.Jobs.Claim.Outcome.{Outcome}
use ktb4_2nd_ai.Jobs.Ended.{IsSameEnd}
use ktb4_2nd_ai.Jobs.Guarantees.{
  reachable-IsSound, result_kept, queued_waits, processing_watched, one_unfinished,
}
use ktb4_2nd_ai.Jobs.Slots.{one_processing}
use ktb4_2nd_ai.Jobs.Final.{end_is_final}
use ktb4_2nd_ai.Jobs.Termination.{claim_returns}
use ktb4_2nd_ai.Jobs.Contracts.{
  Lost, lease_over, register-again, stranger_changes_nothing, claim_result-exclusive,
}
use ktb4_2nd_ai.Jobs.Config.{
  Config, among, count_distinct, any_blank, check_place_index, check_agent, check_jobs_settings,
  heartbeat-check_jobs_settings,
}
use ktb4_2nd_ai.Jobs.Endings.{IsOver, is_overdue, finish-IsOver, recover-IsOver, heartbeat-owns}

abbrev job : JobRecord
job = record {
  trip_id = 7;
  kind = process;
  execution_id = "e1";
  request = "{}";
  request_topic = "requests";
  result_topic = "results";
  created_at = 0;
  status = TaskStatus.queued;
  progress = record { done = 0; total = 3 };
  current_step = none;
  owner = none;
  heartbeat_at = none;
  started_at = none;
  cancel_requested = false;
  event = none;
  publish_owner = none;
  publish_until = 0;
  published = false;
}

abbrev cfg : JobsSettings
cfg = record {
  lease = 60;
  timeout = 600;
  process_timeout = 1800;
  publish_lease = 30;
  photos_ready_ttl = 3600;
  story_concurrency = 2;
}

abbrev codec : Codec
codec = record { validate_result = λ k p. some p; event_size = λ e. 100 }

abbrev oops : ErrorBody
oops = record { code = ErrorCode.internal_error; message = "?"; detail = [] }

abbrev waiting : Store
waiting = (register_as "j1" job 10 empty).1

abbrev running : Store
running = (attempt cfg process "w1" false 20 waiting).1

abbrev over : Store
over = (finish codec cfg "j1" "w1" TerminalStatus.failed none (some oops) 30 running).1

Reach-waiting : Reach codec cfg empty waiting
Reach-waiting =
    next here (registered "j1" job 10 (record { idle = λ e. absurd (cc); event_iff = refl }))

Reach-running : Reach codec cfg empty running
Reach-running = next Reach-waiting (attempted process "w1" false 20)

Reach-over : Reach codec cfg empty over
Reach-over = next Reach-running (finished "j1" "w1" TerminalStatus.failed none (some oops) 30)

abbrev waiting_job : JobRecord
waiting_job = record job { created_at = 10 }

abbrev running_job : JobRecord
running_job = taken "w1" 20 waiting_job

abbrev last_event : JobResultEvent
last_event = record {
  kind = process;
  trip_id = 7;
  execution_id = "e1";
  status = TerminalStatus.failed;
  result = none;
  error = some oops;
}

abbrev over_job : JobRecord
over_job = record running_job { status = TaskStatus.failed; event = some last_event }

waiting_there : waiting.jobs "j1" ≡ some waiting_job
unfolding register_as drop_batches enqueue
waiting_there = refl

running_there : running.jobs "j1" ≡ some running_job
unfolding register_as drop_batches enqueue attempt any_stale is_stale occupied take_first
    take_waiting take_over is_status occupy zadd zrem insert
running_there = refl

over_there : over.jobs "j1" ≡ some over_job
unfolding register_as drop_batches enqueue attempt any_stale is_stale occupied take_first
    take_waiting take_over is_status occupy zadd zrem insert finish change finish_update applied
    commit settle owns terminate ended new_event same_bool validated enforce_size_limit job_timeout
over_there = refl

waiting_known : (r : JobRecord) → waiting.jobs "j1" ≡ some r → r ≡ waiting_job
waiting_known r e = cc (e, waiting_there)

running_owned : owns cfg running_job "w1" 30 ≡ true
unfolding owns is_status job_timeout
running_owned = refl

reachable-IsSound_example : IsSound over
reachable-IsSound_example = reachable-IsSound Reach-over

result_kept_example : (is_some over_job.event ≡ true) × (member "j1" over.pending ≡ true)
result_kept_example = result_kept "j1" over_job Reach-over over_there refl refl

one_unfinished_example : ◌≡◌ {A = String} "j1" "j1"
one_unfinished_example =
    one_unfinished "j1" "j1" running_job running_job Reach-running running_there running_there refl
      refl refl refl

one_processing_example : ◌≡◌ {A = String} "j1" "j1"
one_processing_example =
    one_processing "j1" "j1" running_job running_job Reach-running running_there running_there refl
      refl refl refl

end_is_final_example : (u : JobRecord) × (over.jobs "j1" ≡ some u) × IsSameEnd over_job u
end_is_final_example =
    end_is_final {c = codec} {cfg = cfg} {s = over} {t = over} "j1" over_job here over_there refl

abbrev quiet : Signals
quiet = record { before = λ n. false; during = λ n. false; behind = λ n. false; clock = λ n. 20 }

claim_returns_example :
    is_some (claim codec cfg process "w1" quiet (length (waiting.queue process) + 2) waiting) ≡ true
claim_returns_example = claim_returns codec cfg process "w1" quiet waiting

register-again_example :
    register_as "j1" over_job 40 (register_as "j1" job 10 empty).1
    ≡ (duplicate, (register_as "j1" job 10 empty).1)
register-again_example = register-again "j1" job over_job 10 40 empty

-- the worker that took the job at 20 with a lease of 60, at 85
stranger : (r : JobRecord) → running.jobs "j1" ≡ some r → Lost cfg r "w1" 85
stranger r e =
    let same : running_job ≡ r = some_injective (sym running_there ∙ e) in
    subst (λ (x : JobRecord). Lost cfg x "w1" 85) same (lease_over {t = 20} refl (omega arith))

stranger_changes_nothing_example :
    (heartbeat cfg "j1" "w1" 85 running ≡ (ok none, running))
    × (progress cfg "j1" "w1" "CLOCK" 1 3 85 running ≡ (ok none, running))
    × (finish codec cfg "j1" "w1" TerminalStatus.canceled none none 85 running ≡ (ok none, running))
    × (return_unstarted codec cfg "j1" "w1" 10 85 running ≡ (ok none, running))
stranger_changes_nothing_example =
    stranger_changes_nothing codec cfg "j1" "w1" "CLOCK" 1 3 10 TerminalStatus.canceled none none 85
      running stranger

claimed_there :
    (claim_result cfg "j1" "p1" 40 over).0
    ≡ ok (some (record over_job { publish_owner = some "p1"; publish_until = 70 }))
unfolding register_as drop_batches enqueue attempt any_stale is_stale occupied take_first
    take_waiting take_over is_status occupy zadd zrem insert finish change finish_update applied
    commit settle owns terminate ended new_event same_bool validated enforce_size_limit job_timeout
    claim_result claim_result_update
claimed_there = refl

won : (claim_result cfg "j1" "p1" 40 over).0 ≢ ok none
won e = cc (claimed_there, e)

claim_result-exclusive_example :
    claim_result cfg "j1" "p2" 50 (claim_result cfg "j1" "p1" 40 over).1
    ≡ (ok none, (claim_result cfg "j1" "p1" 40 over).1)
claim_result-exclusive_example =
    claim_result-exclusive cfg "j1" "p1" "p2" 40 50 over_job over over_there refl won (omega arith)

finish-IsOver_example :
    (finish codec cfg "j1" "w1" TerminalStatus.failed none (some oops) 30 running
      ≡ (raised validation_error, running))
    ⊎ IsOver "j1" process
        (finish codec cfg "j1" "w1" TerminalStatus.failed none (some oops) 30 running).1
finish-IsOver_example =
    finish-IsOver codec cfg "j1" "w1" TerminalStatus.failed none (some oops) 30 running_job running
      running_there running_owned

running_late : is_overdue cfg running_job 100 ≡ true
unfolding job_timeout
running_late = refl

running_time : before_limit 80 running_job.started_at (job_timeout cfg process) ≡ true
unfolding job_timeout
running_time = refl

abbrev config : Config
config = record {
  store = cfg;
  heartbeat = 5;
  topics = "a" ∷ "b" ∷ "c" ∷ "d" ∷ "e" ∷ "f" ∷ [];
  place_index_s3_uri = none;
  place_index_sha256 = none;
  place_index_path = none;
  agent_enabled = true;
  agent_budget = 1700;
  agent_concurrency = 4;
  generation_inflight = 8;
}

config_accepted : check_jobs_settings (λ t. false) (λ t. true) (λ t. true) config ≡ true
unfolding check_jobs_settings count_distinct among any_blank check_place_index check_agent
config_accepted = refl

soon_time : before_limit 45 running_job.started_at (job_timeout cfg process) ≡ true
unfolding job_timeout
soon_time = refl

heartbeat-check_jobs_settings_example :
    (u : JobRecord) × ((heartbeat cfg "j1" "w1" 30 running).1.jobs "j1" ≡ some u)
    × (owns cfg u "w1" 45 ≡ true)
heartbeat-check_jobs_settings_example =
    heartbeat-check_jobs_settings (λ t. false) (λ t. true) (λ t. true) config "j1" "w1" 30 45
      running_job running config_accepted running_there running_owned (omega arith) soon_time

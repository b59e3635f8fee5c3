-- ===== src/Tasks/Tests.antt =====
-- The task service on concrete calls (app/jobs/task_service.py).
use ktb4_2nd_ai.Prelude.{◌+◌, ◌≡◌, refl, true, false, none, some, [], ◌∷◌, ltb, if◌then◌else◌}
use ktb4_2nd_ai.Schemas.{ErrorCode, TaskStatus, is_status}
use ktb4_2nd_ai.Tasks.{
  raised, set_waiter, finish, Request, Task, Settings, Service, SubmitResult, Worker, find, put,
  modify, count, earlier, oldest, start, on_reply, dispatch_loop, dispatch_next,
}
use ktb4_2nd_ai.Tasks.Methods.{
  submit, complete, on_processing, new_task, admission, unfinished, admitted, intake, submit,
  cancel, tick,
}
use ktb4_2nd_ai.Tasks.Invariant.{IsSound}
use ktb4_2nd_ai.Tasks.Dispatch.{IsSettled, dispatch_next-IsSettled}
use ktb4_2nd_ai.Tasks.Watchdog.{judged, tick_verdict}
use ktb4_2nd_ai.Tasks.Calls.{
  post, completed, apply, run, boot, run-IsSound, canceled_task, revived_task, start-cancel,
}

abbrev cfg : Settings
cfg = record { max_concurrent = 1; max_queue = 2; worker_dead_sec = 120; task_timeout_sec = 1800 }

abbrev request : Request
request = record { execution_id = none; attachments = 1 ∷ 2 ∷ [] }

abbrev worker : Worker
worker = record { model_loaded = true; reply = λ k. SubmitResult.accepted; clock = λ k. 12 }

abbrev refusing : Worker
refusing = record worker { reply = λ k. SubmitResult.busy }

abbrev running : Service
running = run cfg (post worker 3 request 10 ∷ []) (boot 0)

abbrev waiting : Service
waiting = run cfg (post refusing 3 request 10 ∷ []) (boot 0)

abbrev running_task : Task
running_task = record (new_task 3 request 10) {
  status = TaskStatus.processing;
  started_at = some 12;
  last_callback = some 12;
}

running_there : find 3 running.tasks ≡ some running_task
unfolding run apply submit admission unfinished admitted intake find put count modify dispatch_next
    dispatch_loop oldest start on_reply is_status earlier
running_there = refl

waiting_there : find 3 waiting.tasks ≡ some (new_task 3 request 10)
unfolding run apply submit admission unfinished admitted intake find put count modify dispatch_next
    dispatch_loop oldest start on_reply is_status earlier
waiting_there = refl

waiting_event : waiting.waiters 3 ≡ some false
unfolding run apply submit admission unfinished admitted intake find put count modify dispatch_next
    dispatch_loop oldest start on_reply is_status earlier
waiting_event = refl

run-IsSound_example :
    IsSound cfg (run cfg (post worker 3 request 10 ∷ completed worker 3 "r" 40 ∷ []) (boot 0))
run-IsSound_example = run-IsSound cfg (post worker 3 request 10 ∷ completed worker 3 "r" 40 ∷ []) 0

running-IsSound : IsSound cfg running
running-IsSound = run-IsSound cfg (post worker 3 request 10 ∷ []) 0

tick_verdict_example :
    find 3 (tick cfg worker 200 running).tasks
    ≡ some (
        if ltb (12 + 120) 200
        then judged (some ErrorCode.worker_dead) 200 running_task
        else if ltb (12 + 1800) 200
        then judged (some ErrorCode.timeout) 200 running_task
        else running_task)
tick_verdict_example =
    tick_verdict cfg worker 3 200 12 12 running_task running running-IsSound running_there refl refl
      refl

dispatch_next-IsSettled_example : IsSettled cfg worker (dispatch_next cfg worker running)
dispatch_next-IsSettled_example = dispatch_next-IsSettled cfg worker running running-IsSound

start-cancel_example :
    (find 3 (cancel 3 20 waiting).1.tasks ≡ some (canceled_task 20 (new_task 3 request 10)))
    × (find 3 (start 3 21 (cancel 3 20 waiting).1).tasks
        ≡ some (revived_task 21 (canceled_task 20 (new_task 3 request 10))))
    × ((start 3 21 (cancel 3 20 waiting).1).waiters 3 ≡ some true)
start-cancel_example =
    start-cancel 3 20 21 (new_task 3 request 10) waiting waiting_there refl waiting_event

abbrev done : Service
done = run cfg (post worker 3 request 10 ∷ completed worker 3 "r" 40 ∷ []) (boot 0)

run-IsSound_done : IsSound cfg done
run-IsSound_done = run-IsSound cfg (post worker 3 request 10 ∷ completed worker 3 "r" 40 ∷ []) 0

abbrev done_task : Task
done_task = record running_task {
  status = TaskStatus.completed;
  result = some "r";
  finished_at = some 40;
}

done_there : find 3 done.tasks ≡ some done_task
unfolding run apply submit admission unfinished admitted intake find put count modify dispatch_next
    complete on_processing finish set_waiter is_status
done_there = refl

abbrev loading : Worker
loading = record worker { model_loaded = false }

loading_refused : (submit cfg loading 3 request 10 (boot 0)).0 ≡ raised ErrorCode.model_not_ready
unfolding submit admission unfinished admitted find count
loading_refused = refl

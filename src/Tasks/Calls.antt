-- ===== src/Tasks/Calls.antt =====
-- The task manager under any sequence of calls, from its start.
use ktb4_2nd_ai.Prelude.{ℕ, ◌≡◌, refl, true, false, none, some, List, [], ◌∷◌, arith, String}
use ktb4_2nd_ai.Schemas.{TaskStatus, is_status, ErrorBody, ProcessStep}
use ktb4_2nd_ai.Tasks.{
  Request, Task, Settings, Service, Worker, find, modify, count, start, finish, ok,
}
use ktb4_2nd_ai.Tasks.Counts.{find-modify}
use ktb4_2nd_ai.Tasks.Methods.{submit, progress, complete, fail, cancel, tick}
use ktb4_2nd_ai.Tasks.Invariant.{IsSound}
use ktb4_2nd_ai.Tasks.Keeps.{
  submit-IsSound, progress-IsSound, complete-IsSound, fail-IsSound, cancel-IsSound,
}
use ktb4_2nd_ai.Tasks.Watchdog.{tick-IsSound}

-- a call of a router, a worker callback or the watchdog, with the clock and the worker it meets
pub data Call : Type 0 where
  post : Worker → ℕ → Request → ℕ → Call
  progressed : ℕ → ProcessStep → ℕ → ℕ → Call
  completed : Worker → ℕ → String → ℕ → Call
  failed : Worker → ℕ → ErrorBody → ℕ → Call
  delete : ℕ → ℕ → Call
  ticked : Worker → ℕ → Call

unfoldable pub apply : Settings → Call → Service → Service
apply cfg (post w k request now) s = (submit cfg w k request now s).1
apply cfg (progressed k step done now) s = (progress k step done now s).1
apply cfg (completed w k result now) s = (complete cfg w k result now s).1
apply cfg (failed w k e now) s = (fail cfg w k e now s).1
apply cfg (delete k now) s = (cancel k now s).1
apply cfg (ticked w now) s = tick cfg w now s

unfoldable pub run : Settings → List Call → Service → Service
unfolding apply
run cfg [] s = s
run cfg (c ∷ cs) s = run cfg cs (apply cfg c s)

-- a service with no task
abbrev pub boot : ℕ → Service
boot now = record { tasks = []; boot_time = now; last_activity = none; waiters = λ k. none }

apply-IsSound :
    (cfg : Settings) (c : Call) (s : Service) → IsSound cfg s → IsSound cfg (apply cfg c s)
unfolding apply
apply-IsSound cfg (post w k request now) s = submit-IsSound cfg w k request now s
apply-IsSound cfg (progressed k step done now) s = progress-IsSound cfg k step done now s
apply-IsSound cfg (completed w k result now) s = complete-IsSound cfg w k result now s
apply-IsSound cfg (failed w k e now) s = fail-IsSound cfg w k e now s
apply-IsSound cfg (delete k now) s = cancel-IsSound cfg k now s
apply-IsSound cfg (ticked w now) s = tick-IsSound cfg w now s

run_from-IsSound :
    (cfg : Settings) (cs : List Call) (s : Service) → IsSound cfg s → IsSound cfg (run cfg cs s)
unfolding run
run_from-IsSound cfg [] s h = h
run_from-IsSound cfg (c ∷ cs) s h =
    run_from-IsSound cfg cs (apply cfg c s) (apply-IsSound cfg c s h)

boot-IsSound : (cfg : Settings) (now : ℕ) → IsSound cfg (boot now)
unfolding find count
boot-IsSound cfg now = record {
  keys = tt;
  slots = omega arith;
  consistent = λ k t h. absurd (cc);
  woken = λ k t h. absurd (cc);
}

-- After any sequence of calls on a fresh service, one trip has one task, at most `max_concurrent`
-- tasks are PROCESSING, every task satisfies the response validator and carries the times that the
-- watchdog reads, and the event of every task is set exactly when its status is terminal.
pub run-IsSound : (cfg : Settings) (cs : List Call) (now : ℕ) → IsSound cfg (run cfg cs (boot now))
run-IsSound cfg cs now = run_from-IsSound cfg cs (boot now) (boot-IsSound cfg now)

-- the task that `cancel` leaves, and the one that `start` makes of it
abbrev pub canceled_task : ℕ → Task → Task
canceled_task now t = record t {
  status = TaskStatus.canceled;
  result = none;
  error = none;
  current_step = none;
  finished_at = some now;
}

abbrev pub revived_task : ℕ → Task → Task
revived_task later t = record t {
  status = TaskStatus.processing;
  started_at = some later;
  last_callback = some later;
}

cancel-queued :
    (k now : ℕ) (t : Task) (s : Service)
    → find k s.tasks ≡ some t
    → t.status ≡ TaskStatus.queued
    → cancel k now s ≡ (ok tt, finish k TaskStatus.canceled none none now s)
unfolding cancel is_status
cancel-queued k now t s found waits = ground arith

-- A cancellation that arrives while the dispatch awaits the worker's answer is undone by the answer
-- ACCEPTED. Whatever service holds the queued task `k` with its event unset: `cancel` ends the task
-- CANCELED and sets its event, and the rest of the dispatch makes it PROCESSING again, its event
-- set.
pub start-cancel :
    (k now later : ℕ) (t : Task) (s : Service)
    → find k s.tasks ≡ some t
    → t.status ≡ TaskStatus.queued
    → s.waiters k ≡ some false
    → (find k (cancel k now s).1.tasks ≡ some (canceled_task now t))
      × (find k (start k later (cancel k now s).1).tasks
          ≡ some (revived_task later (canceled_task now t)))
      × ((start k later (cancel k now s).1).waiters k ≡ some true)
unfolding start finish
start-cancel k now later t s found waits event = rw (cancel-queued k now t s found waits) (
  ground (arith, find-modify k k (canceled_task now) s.tasks (λ u. refl)),
  ground (
    arith,
    find-modify k k (canceled_task now) s.tasks (λ u. refl),
    find-modify k k (revived_task later) (modify k (canceled_task now) s.tasks) (λ u. refl),
  ),
  ground arith,
)

-- ===== src/Tasks/Keeps.antt =====
-- Every method of the task manager keeps the service sound.
use ktb4_2nd_ai.Prelude.{
  ℕ, ◌≤◌, ◌≡◌, ◌≢◌, refl, true, none, some, List, [], ◌∷◌, arith, ◌==◌, Option-cases, Bool-cases,
  inl, inr, String, subst,
}
use ktb4_2nd_ai.Schemas.{ErrorCode, TaskStatus, is_terminal, is_status, ErrorBody, ProcessStep}
use ktb4_2nd_ai.Tasks.{Request, Task, Settings, Service, Worker, find, put, count}
use ktb4_2nd_ai.Tasks.Methods.{
  new_task, admission, intake, submit, on_processing, progress, complete, fail, fail_end, cancel,
}
use ktb4_2nd_ai.Tasks.Counts.{IsDict, IsFresh, count-put_new, count-put_old, find-put}
use ktb4_2nd_ai.Tasks.Invariant.{IsConsistent, IsSound, modify-IsSound, finish-IsSound}
use ktb4_2nd_ai.Tasks.Dispatch.{dispatch_next-IsSound}

IsFresh-put :
    (j : ℕ) (t : Task) (ts : List Task) → t.trip_id ≢ j → IsFresh j ts → IsFresh j (put t ts)
unfolding put
IsFresh-put j t [] ne h = (ne, tt)
IsFresh-put j t (u ∷ ts) ne h = elim (Bool-cases (u.trip_id == t.trip_id)) [
  | inl e ↦ rw e (ne, h.1)
  | inr e ↦ rw e (h.0, IsFresh-put j t ts ne h.1)
]

IsDict-put : (t : Task) (ts : List Task) → IsDict ts → IsDict (put t ts)
unfolding put
IsDict-put t [] h = (tt, tt)
IsDict-put t (u ∷ ts) h = elim (Bool-cases (u.trip_id == t.trip_id)) [
  | inl e ↦ rw e (subst (λ k. IsFresh k ts) (ground arith) h.0, h.1)
  | inr e ↦ rw e (IsFresh-put u.trip_id t ts (ground arith) h.0, IsDict-put t ts h.1)
]

-- a fresh task never takes a slot
count-intake :
    (k : ℕ) (request : Request) (now : ℕ) (s : Service)
    → count TaskStatus.processing (intake k request now s).tasks
      ≤ count TaskStatus.processing s.tasks
unfolding intake is_status
count-intake k request now s = elim (Option-cases (find k s.tasks)) [
  | inl e ↦ ground (arith, count-put_new TaskStatus.processing (new_task k request now) s.tasks e)
  | inr (u, e) ↦
      ground (arith, count-put_old TaskStatus.processing (new_task k request now) u s.tasks e)
]

new_task-IsConsistent :
    (k : ℕ) (request : Request) (now : ℕ) → IsConsistent (new_task k request now)
unfolding is_status
new_task-IsConsistent k request now = record {
  result_iff = refl;
  error_iff = refl;
  started = λ p. ground arith;
  heard = λ p. ground arith;
}

intake-IsSound :
    (cfg : Settings) (k : ℕ) (request : Request) (now : ℕ) (s : Service)
    → IsSound cfg s
    → IsSound cfg (intake k request now s)
unfolding intake
intake-IsSound cfg k request now s h = record {
  keys = IsDict-put (new_task k request now) s.tasks h.keys;
  slots = unfold intake in omega (arith, count-intake k request now s, h.slots);
  consistent = λ j t p. elim (Bool-cases (k == j)) [
    | inl e ↦
        let same : new_task k request now ≡ t =
          ground (arith, find-put j (new_task k request now) s.tasks) in
        subst IsConsistent same (new_task-IsConsistent k request now)
    | inr e ↦ h.consistent j t (ground (arith, find-put j (new_task k request now) s.tasks))
  ];
  woken = λ j t p. ground (arith, find-put j (new_task k request now) s.tasks, h.woken j t);
}

pub submit-IsSound :
    (cfg : Settings) (w : Worker) (k : ℕ) (request : Request) (now : ℕ) (s : Service)
    → IsSound cfg s
    → IsSound cfg (submit cfg w k request now s).1
unfolding submit
submit-IsSound cfg w k request now s h = elim (Option-cases (admission cfg w k s)) [
  | inl e ↦ rw e (dispatch_next-IsSound cfg w _ (intake-IsSound cfg k request now s h))
  | inr (c, e) ↦ rw e h
]

is_status-eq : (a b : TaskStatus) → is_status a b ≡ true → a ≡ b
unfolding is_status
is_status-eq a b h = ground arith

on_processing-IsSound :
    (cfg : Settings) (k : ℕ) (s next : Service)
    → IsSound cfg s
    → ((t : Task) → find k s.tasks ≡ some t → t.status ≡ TaskStatus.processing → IsSound cfg next)
    → IsSound cfg (on_processing k s next).1
unfolding on_processing
on_processing-IsSound cfg k s next h step = elim (Option-cases (find k s.tasks)) [
  | inl e ↦ rw (e, on_processing) h
  | inr (t, e) ↦
      rw (e, on_processing)
        (elim (Bool-cases (is_status t.status TaskStatus.processing)) [
          | inl p ↦ rw p (step t e (is_status-eq t.status TaskStatus.processing p))
          | inr p ↦ rw p h
        ])
]

pub progress-IsSound :
    (cfg : Settings) (k : ℕ) (step : ProcessStep) (done now : ℕ) (s : Service)
    → IsSound cfg s
    → IsSound cfg (progress k step done now s).1
unfolding progress is_status
progress-IsSound cfg k step done now s h = on_processing-IsSound cfg k s _ h λ t found runs.
    modify-IsSound cfg s h k t
      (λ u. record u { done = done; current_step = some step; last_callback = some now }) s.waiters
      s.last_activity found (λ u. refl)
      (let c = h.consistent k t found in
        record {
          result_iff = c.result_iff;
          error_iff = c.error_iff;
          started = c.started;
          heard = λ p. refl;
        })
      (ground (arith, h.slots)) (h.woken k t found) (λ j ne. refl)

pub complete-IsSound :
    (cfg : Settings) (w : Worker) (k : ℕ) (result : String) (now : ℕ) (s : Service)
    → IsSound cfg s
    → IsSound cfg (complete cfg w k result now s).1
unfolding complete is_status
complete-IsSound cfg w k result now s h = on_processing-IsSound cfg k s _ h λ t found runs.
    dispatch_next-IsSound cfg w _
      (finish-IsSound cfg s h k t TaskStatus.completed (some result) none now found refl refl refl)

fail_end-IsSound :
    (cfg : Settings) (e : ErrorBody) (c : ErrorCode) (k now : ℕ) (s : Service)
    → IsSound cfg s
    → (t : Task) → find k s.tasks ≡ some t
    → IsSound cfg (fail_end e c k now s)
unfolding fail_end is_status
fail_end-IsSound cfg e ErrorCode.canceled k now s h t found =
    finish-IsSound cfg s h k t TaskStatus.canceled none none now found refl refl refl
fail_end-IsSound cfg e _ k now s h t found =
    finish-IsSound cfg s h k t TaskStatus.failed none (some e) now found refl refl refl

pub fail-IsSound :
    (cfg : Settings) (w : Worker) (k : ℕ) (e : ErrorBody) (now : ℕ) (s : Service)
    → IsSound cfg s
    → IsSound cfg (fail cfg w k e now s).1
unfolding fail
fail-IsSound cfg w k e now s h =
    on_processing-IsSound cfg k s _ h λ t found runs.
      dispatch_next-IsSound cfg w _ (fail_end-IsSound cfg e e.code k now s h t found)

pub cancel-IsSound :
    (cfg : Settings) (k now : ℕ) (s : Service) → IsSound cfg s → IsSound cfg (cancel k now s).1
unfolding cancel
cancel-IsSound cfg k now s h = elim (Option-cases (find k s.tasks)) [
  | inl e ↦ rw (e, cancel) h
  | inr (t, e) ↦
      rw (e, cancel)
        (elim (Bool-cases (is_terminal t.status)) [
          | inl over ↦ rw over h
          | inr live ↦ rw live (elim (Bool-cases (is_status t.status TaskStatus.queued)) [
            | inl q ↦ rw q (
                unfold is_status in
                finish-IsSound cfg s h k t TaskStatus.canceled none none now e refl refl refl)
            | inr q ↦ rw q h
          ])
        ])
]

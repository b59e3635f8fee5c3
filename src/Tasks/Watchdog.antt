-- ===== src/Tasks/Watchdog.antt =====
-- What `tick` does to every task, and that it keeps the service sound.
use ktb4_2nd_ai.Prelude.{
  ltb, ◌+◌, ℕ, suc, ◌≡◌, ◌≢◌, refl, Option, none, some, List, [], ◌∷◌, arith, ◌==◌, Bool-cases, inl,
  inr, All, if◌then◌else◌, ap, ◌∙◌,
}
use ktb4_2nd_ai.Schemas.{ErrorCode, TaskStatus, is_status}
use ktb4_2nd_ai.Tasks.{
  Task, Settings, Service, Worker, SubmitResult, find, modify, count, oldest, on_reply, finish,
  error_body, dispatch_next,
}
use ktb4_2nd_ai.Tasks.Methods.{overdue, expire_one, expire, tick}
use ktb4_2nd_ai.Tasks.Counts.{IsDict, IsFresh, find-modify, find_fresh, oldest-find}
use ktb4_2nd_ai.Tasks.Invariant.{IsSound, finish-IsSound}
use ktb4_2nd_ai.Tasks.Dispatch.{
  after_reply, dispatch_induction, on_reply-IsSound, dispatch_next-IsSound,
}

-- the task after the watchdog's verdict
abbrev pub judged : Option ErrorCode → ℕ → Task → Task
judged none now t = t
judged (some e) now t = record t {
  status = TaskStatus.failed;
  result = none;
  error = some (error_body e []);
  current_step = none;
  finished_at = some now;
}

find-expire_one :
    (v : Option ErrorCode) (j now : ℕ) (t : Task) (s : Service)
    → find t.trip_id s.tasks ≡ some t
    → find j (expire_one v t.trip_id now s).tasks
      ≡ (if j == t.trip_id then some (judged v now t) else find j s.tasks)
unfolding expire_one finish
find-expire_one none j now t s h = ground arith
find-expire_one (some e) j now t s h =
    ground (arith, find-modify j t.trip_id (judged (some e) now) s.tasks (λ u. refl))

-- the tasks of the copied list are still those of the store
abbrev pub Agrees : List Task → Service → Type 0
Agrees ts s = All (λ t. find t.trip_id s.tasks ≡ some t) ts

Agrees-expire_one :
    (v : Option ErrorCode) (now : ℕ) (t : Task) (s : Service) (ts : List Task)
    → find t.trip_id s.tasks ≡ some t
    → IsFresh t.trip_id ts
    → Agrees ts s
    → Agrees ts (expire_one v t.trip_id now s)
Agrees-expire_one v now t s [] h fresh a = tt
Agrees-expire_one v now t s (u ∷ ts) h fresh a = (
  ground (arith, find-expire_one v u.trip_id now t s h, a.0, fresh.0),
  Agrees-expire_one v now t s ts h fresh.1 a.1,
)

-- a dict's own tasks are found under their keys
Agrees-self :
    (ts : List Task) (s : Service)
    → IsDict ts
    → ((t : Task) → find t.trip_id ts ≡ some t → find t.trip_id s.tasks ≡ some t)
    → Agrees ts s
unfolding find
Agrees-self [] s d h = tt
Agrees-self (t ∷ ts) s d h = (
  h t (ground arith),
  Agrees-self ts s d.1 (λ u p. h u (ground (arith, find_fresh t.trip_id ts d.0))),
)

module _ (cfg : Settings) (now : ℕ) where
  find-expire :
      (j : ℕ) (ts : List Task) (s : Service)
      → IsDict ts
      → Agrees ts s
      → find j (expire cfg now ts s).tasks ≡ (elim (find j ts) [
        | none ↦ find j s.tasks
        | some t ↦ some (judged (overdue cfg now t) now t)
      ])
  unfolding expire find
  find-expire j [] s d a = refl
  find-expire j (t ∷ ts) s d a = ground (
    arith,
    find-expire j ts (expire_one (overdue cfg now t) t.trip_id now s) d.1
        (Agrees-expire_one (overdue cfg now t) now t s ts a.0 d.0 a.1),
    find-expire_one (overdue cfg now t) j now t s a.0,
    find_fresh t.trip_id ts d.0,
  )

  expire-IsSound :
      (ts : List Task) (s : Service)
      → IsDict ts
      → Agrees ts s
      → IsSound cfg s
      → IsSound cfg (expire cfg now ts s)
  unfolding expire
  expire-IsSound [] s d a h = h
  expire-IsSound (t ∷ ts) s d a h =
      expire-IsSound ts (expire_one (overdue cfg now t) t.trip_id now s) d.1
        (Agrees-expire_one (overdue cfg now t) now t s ts a.0 d.0 a.1) (one (overdue cfg now t))
    where
      one : (v : Option ErrorCode) → IsSound cfg (expire_one v t.trip_id now s)
      one none = unfold expire_one in h
      one (some e) =
          unfold expire_one is_status in
          finish-IsSound cfg s h t.trip_id t TaskStatus.failed none _ now a.0 refl refl refl

-- a change of a waiting task leaves every other task alone
find-modify_idle :
    (f : Task → Task) (k : ℕ) (ts : List Task) (t u : Task)
    → ((v : Task) → (f v).trip_id ≡ v.trip_id)
    → find k ts ≡ some t
    → find u.trip_id ts ≡ some u
    → t.status ≢ TaskStatus.queued
    → u.status ≡ TaskStatus.queued
    → find k (modify u.trip_id f ts) ≡ some t
find-modify_idle f k ts t u keeps p q idle waits = elim (Bool-cases (k == u.trip_id)) [
  | inl e ↦
      let same : t ≡ u = ground arith in absurd (idle (ap (λ (x : Task). x.status) same ∙ waits))
  | inr e ↦ ground (arith, find-modify k u.trip_id f ts keeps)
]

on_reply-keeps :
    (cfg : Settings) (w : Worker) (k : ℕ) (t : Task) (s : Service) (u : Task)
    → IsSound cfg s
    → find k s.tasks ≡ some t
    → t.status ≢ TaskStatus.queued
    → oldest s.tasks ≡ some u
    → find k (after_reply w u s).tasks ≡ some t
unfolding on_reply
on_reply-keeps cfg w k t s u h found idle e =
    go (w.reply u.trip_id) (oldest-find s.tasks u h.keys e)
  where
    go :
        (r : SubmitResult)
        → (find u.trip_id s.tasks ≡ some u) × (u.status ≡ TaskStatus.queued)
        → find k (on_reply u.trip_id r (w.clock u.trip_id) s).0.tasks ≡ some t
    go SubmitResult.accepted (f, q) = find-modify_idle _ k s.tasks t u (λ v. refl) found f idle q
    go SubmitResult.busy _ = found
    go SubmitResult.not_ready _ = found
    go (SubmitResult.unavailable reason) (f, q) =
        find-modify_idle _ k s.tasks t u (λ v. refl) found f idle q

-- The dispatch leaves every task alone that does not wait.
dispatch_next-keeps :
    (cfg : Settings) (w : Worker) (k : ℕ) (t : Task) (s : Service)
    → IsSound cfg s
    → find k s.tasks ≡ some t
    → t.status ≢ TaskStatus.queued
    → find k (dispatch_next cfg w s).tasks ≡ some t
unfolding dispatch_next
dispatch_next-keeps cfg w k t s h found idle =
    (dispatch_induction (λ u. IsSound cfg u × (find k u.tasks ≡ some t)) cfg w
      (λ u v hu room e.
        (on_reply-IsSound cfg w u v hu.0 room e, on_reply-keeps cfg w k t u v hu.0 hu.1 idle e))
      (suc (count TaskStatus.queued s.tasks)) s (h, found)).1

-- The watchdog and the dispatch behind it judge each task that is not waiting by itself: it ends as
-- its own verdict says, and is not touched where there is none.
pub find-tick :
    (cfg : Settings) (w : Worker) (k now : ℕ) (t : Task) (s : Service)
    → IsSound cfg s
    → find k s.tasks ≡ some t
    → t.status ≢ TaskStatus.queued
    → find k (tick cfg w now s).tasks ≡ some (judged (overdue cfg now t) now t)
unfolding tick
find-tick cfg w k now t s h found idle =
    let agrees = Agrees-self s.tasks s h.keys (λ u p. p) in
    dispatch_next-keeps cfg w k (judged (overdue cfg now t) now t) (expire cfg now s.tasks s)
      (expire-IsSound cfg now s.tasks s h.keys agrees h)
      (ground (arith, find-expire cfg now k s.tasks s h.keys agrees)) (ground arith)

pub tick-IsSound :
    (cfg : Settings) (w : Worker) (now : ℕ) (s : Service)
    → IsSound cfg s
    → IsSound cfg (tick cfg w now s)
unfolding tick
tick-IsSound cfg w now s h =
    dispatch_next-IsSound cfg w _
      (expire-IsSound cfg now s.tasks s h.keys (Agrees-self s.tasks s h.keys (λ u p. p)) h)

-- After a watchdog tick on a sound service, a running task last heard of at `c` and started at `b`
-- has failed with WORKER_DEAD when more than `worker_dead_sec` passed since `c`, otherwise with
-- TIMEOUT when more than `task_timeout_sec` passed since `b`, and otherwise is unchanged.
pub tick_verdict :
    (cfg : Settings) (w : Worker) (k now c b : ℕ) (t : Task) (s : Service)
    → IsSound cfg s
    → find k s.tasks ≡ some t
    → t.status ≡ TaskStatus.processing
    → t.last_callback ≡ some c
    → t.started_at ≡ some b
    → find k (tick cfg w now s).tasks
      ≡ some (
          if ltb (c + cfg.worker_dead_sec) now
          then judged (some ErrorCode.worker_dead) now t
          else if ltb (b + cfg.task_timeout_sec) now
          then judged (some ErrorCode.timeout) now t
          else t)
unfolding overdue is_status
tick_verdict cfg w k now c b t s h found runs heard started =
    ground (arith, find-tick cfg w k now t s h found (λ q. cc (runs, q)))

-- ===== src/Tasks/Invariant.antt =====
-- What holds of the service between two calls, and that every method keeps it.
use ktb4_2nd_ai.Prelude.{
  ℕ, ◌+◌, ◌≤◌, ◌<◌, ◌≡◌, ◌≢◌, refl, Bool, true, Option, none, some, is_some, List, [], ◌∷◌, arith,
  bit, ◌==◌, Bool-cases, inl, inr, String, sym, ◌∙◌, subst,
}
use ktb4_2nd_ai.Schemas.{TaskStatus, is_terminal, is_status, ErrorBody}
use ktb4_2nd_ai.Tasks.{Task, Settings, Service, find, modify, count, finish, start}
use ktb4_2nd_ai.Tasks.Counts.{IsDict, IsFresh, count-modify, find-modify}

-- One task is consistent: the validator of `TaskStatusResponse` accepts it, and a running task has
-- the two times that the watchdog asserts.
pub record IsConsistent (t : Task) : Type 0 where
  pub result_iff : is_some t.result ≡ is_status t.status TaskStatus.completed
  pub error_iff : is_some t.error ≡ is_status t.status TaskStatus.failed
  pub started : t.status ≡ TaskStatus.processing → is_some t.started_at ≡ true
  pub heard : t.status ≡ TaskStatus.processing → is_some t.last_callback ≡ true

-- The service is sound: at most `max_concurrent` tasks run, and the event of every stored task is
-- set exactly when the task has ended.
pub record IsSound (cfg : Settings) (s : Service) : Type 0 where
  pub keys : IsDict s.tasks
  pub slots : count TaskStatus.processing s.tasks ≤ cfg.max_concurrent
  pub consistent : (k : ℕ) (t : Task) → find k s.tasks ≡ some t → IsConsistent t
  pub woken :
      (k : ℕ) (t : Task) → find k s.tasks ≡ some t → s.waiters k ≡ some (is_terminal t.status)

IsFresh-modify :
    (j k : ℕ) (f : Task → Task) (ts : List Task)
    → ((t : Task) → (f t).trip_id ≡ t.trip_id)
    → IsFresh j ts
    → IsFresh j (modify k f ts)
unfolding modify
IsFresh-modify j k f [] h d = tt
IsFresh-modify j k f (t ∷ ts) h d = elim (Bool-cases (t.trip_id == k)) [
  | inl e ↦ rw e (λ p. d.0 (sym (h t) ∙ p), d.1)
  | inr e ↦ rw e (d.0, IsFresh-modify j k f ts h d.1)
]

IsDict-modify :
    (k : ℕ) (f : Task → Task) (ts : List Task)
    → ((t : Task) → (f t).trip_id ≡ t.trip_id)
    → IsDict ts
    → IsDict (modify k f ts)
unfolding modify
IsDict-modify k f [] h d = tt
IsDict-modify k f (t ∷ ts) h d = elim (Bool-cases (t.trip_id == k)) [
  | inl e ↦ rw e (rw (h t) d.0, d.1)
  | inr e ↦ rw e (IsFresh-modify t.trip_id k f ts h d.0, IsDict-modify k f ts h d.1)
]

-- A change of the one task `t`, with what its event is afterwards.
module _ (cfg : Settings) (s : Service) (sound : IsSound cfg s) (k : ℕ) (t : Task) where
  pub modify-IsSound :
      (f : Task → Task) (w : ℕ → Option Bool) (last : Option ℕ)
      → find k s.tasks ≡ some t
      → ((u : Task) → (f u).trip_id ≡ u.trip_id)
      → IsConsistent (f t)
      → count TaskStatus.processing s.tasks + bit (is_status (f t).status TaskStatus.processing)
        ≤ cfg.max_concurrent + bit (is_status t.status TaskStatus.processing)
      → w k ≡ some (is_terminal (f t).status)
      → ((j : ℕ) → j ≢ k → w j ≡ s.waiters j)
      → IsSound cfg (record s { tasks = modify k f s.tasks; last_activity = last; waiters = w })
  modify-IsSound f w last found keeps good room wk wj = record {
    keys = IsDict-modify k f s.tasks keeps sound.keys;
    slots = omega (arith, count-modify TaskStatus.processing k f s.tasks t found);
    consistent = λ j u h. elim (Bool-cases (j == k)) [
      | inl e ↦
          let same : f t ≡ u = ground (arith, find-modify j k f s.tasks keeps) in
          subst IsConsistent same good
      | inr e ↦ sound.consistent j u (ground (arith, find-modify j k f s.tasks keeps))
    ];
    woken = λ j u h. elim (Bool-cases (j == k)) [
      | inl e ↦ ground (arith, find-modify j k f s.tasks keeps)
      | inr e ↦ ground (arith, find-modify j k f s.tasks keeps, wj j, sound.woken j u)
    ];
  }

  -- the payload that a terminal status carries
  pub finish-IsSound :
      (st : TaskStatus) (res : Option String) (err : Option ErrorBody) (now : ℕ)
      → find k s.tasks ≡ some t
      → is_terminal st ≡ true
      → is_some res ≡ is_status st TaskStatus.completed
      → is_some err ≡ is_status st TaskStatus.failed
      → IsSound cfg (finish k st res err now s)
  unfolding finish is_status
  finish-IsSound st res err now found over r e =
      modify-IsSound
        (λ u. record u {
          status = st;
          result = res;
          error = err;
          current_step = none;
          finished_at = some now;
        })
        _ (some now) found (λ u. refl)
        (record {
          result_iff = r;
          error_iff = e;
          started = λ p. ground arith;
          heard = λ p. ground arith;
        })
        (ground (arith, sound.slots)) (ground (arith, sound.woken k t)) (λ j ne. ground arith)

  pub start-IsSound :
      (now : ℕ)
      → find k s.tasks ≡ some t
      → t.status ≡ TaskStatus.queued
      → count TaskStatus.processing s.tasks < cfg.max_concurrent
      → IsSound cfg (start k now s)
  unfolding start is_status
  start-IsSound now found waits room =
      modify-IsSound
        (λ u. record u {
          status = TaskStatus.processing;
          started_at = some now;
          last_callback = some now;
        })
        s.waiters s.last_activity found (λ u. refl)
        (record {
          result_iff = ground (arith, sound.consistent k t found);
          error_iff = ground (arith, sound.consistent k t found);
          started = λ p. refl;
          heard = λ p. refl;
        })
        (ground arith) (ground (arith, sound.woken k t)) (λ j ne. refl)

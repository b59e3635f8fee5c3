-- ===== src/Jobs/Endings.antt =====
-- How a job ends and how a heartbeat prolongs it (app/jobs/redis_store.py).
use ktb4_2nd_ai.Prelude.{
  if◌then◌else◌, ◌⊎◌, ℕ, ◌+◌, ◌<◌, ◌≡◌, refl, String, Bool, true, false, not, ◌&&◌, Option, none,
  some, [], arith, eq_iff, sym, subst, Option-cases, inl, inr,
}
use ktb4_2nd_ai.Schemas.{ErrorCode, TaskStatus, is_terminal, is_status, ErrorBody}
use ktb4_2nd_ai.Jobs.Models.{
  JobKind, TerminalStatus, Payload, Codec, JobRecord, JobResultEvent, JobsSettings, same_bool,
  validated, job_timeout, enforce_size_limit, new_event, to_status,
}
use ktb4_2nd_ai.Jobs.Zset.{member, member-zrem}
use ktb4_2nd_ai.Jobs.Contracts.{commit_ended, change_ended}
use ktb4_2nd_ai.Jobs.Sound.{occupies-release}
use ktb4_2nd_ai.Jobs.Termination.{set_kind_same}
use ktb4_2nd_ai.Jobs.Store.{validation_error, release, occupies, Store, raised}
use ktb4_2nd_ai.Jobs.Updates.{
  Update, changed, unchanged, failing, owns, before_limit, ended, terminate, settle, deadline,
  watch, commit, applied, change, heartbeat_update, finish_update, recover_update,
}
use ktb4_2nd_ai.Jobs.Methods.{heartbeat, finish}

pub terminate_cases :
    (c : Codec) (r : JobRecord) (st : TerminalStatus) (res : Option Payload)
    (err : Option ErrorBody)
    → (terminate c r st res err ≡ failing validation_error)
      ⊎ ((e : JobResultEvent) × (terminate c r st res err ≡ changed (ended r e)))
unfolding terminate
terminate_cases c r st res err =
    elim (Option-cases (new_event c r.kind r.trip_id r.execution_id st res err)) [
      | inl e ↦ inl (rw (terminate, e) refl)
      | inr (v, e) ↦ inr (enforce_size_limit c v, rw (terminate, e) refl)
    ]

pub ended_over : (r : JobRecord) (e : JobResultEvent) → is_terminal (ended r e).status ≡ true
unfolding ended
ended_over r e = go e.status
  where
    go : (st : TerminalStatus) → is_terminal (to_status st) ≡ true
    go TerminalStatus.completed = refl
    go TerminalStatus.failed = refl
    go TerminalStatus.canceled = refl

ended_kind : (r : JobRecord) (e : JobResultEvent) → (ended r e).kind ≡ r.kind
unfolding ended
ended_kind r e = refl

-- a job that has ended: its record has an event, and it is neither running nor in a slot
pub record IsOver (id : String) (k : JobKind) (t : Store) : Type 0 where
  pub last : JobRecord
  pub there : t.jobs id ≡ some last
  pub over : is_terminal last.status ≡ true
  pub idle : member id t.running ≡ false
  pub free : occupies id (t.slots k) ≡ false

pub settle-IsOver :
    (u : JobRecord) (was : Bool) (id : String) (now : ℕ) (s : Store)
    → is_terminal u.status ≡ true
    → IsOver id u.kind (settle u was id now s)
unfolding settle
settle-IsOver u was id now s over = record {
  last = u;
  there = ground (arith, eq_iff id id);
  over = over;
  idle = ground (arith, member-zrem id id s.running, eq_iff id id);
  free = ground (
    arith,
    set_kind_same u.kind (release id (s.slots u.kind)) s.slots,
    occupies-release id id (s.slots u.kind),
    eq_iff id id,
  );
}

-- the update ends the job, or it raises the error of the event's validator
data Ends (k : JobKind) : Update → Type 0 where
  ends : {u : JobRecord} → is_terminal u.status ≡ true → u.kind ≡ k → Ends k (changed u)
  invalid : Ends k (failing validation_error)

terminate-Ends :
    (c : Codec) (r : JobRecord) (st : TerminalStatus) (res : Option Payload)
    (err : Option ErrorBody)
    → Ends r.kind (terminate c r st res err)
terminate-Ends c r st res err = elim (terminate_cases c r st res err) [
  | inl e ↦ subst (Ends r.kind) (sym e) invalid
  | inr (v, e) ↦ subst (Ends r.kind) (sym e) (ends (ended_over r v) (ended_kind r v))
]

Ends-if :
    {k : JobKind} {u v : Update} (b : Bool) → Ends k u → Ends k v → Ends k (if b then u else v)
Ends-if true h g = h
Ends-if false h g = g

applied-Outcome :
    (cfg : JobsSettings) (k : JobKind) (v : Update) (was : Bool) (id : String) (score : Option ℕ)
    (now : ℕ) (s : Store)
    → Ends k v
    → (applied cfg v was id score now s ≡ (raised validation_error, s))
      ⊎ IsOver id k (applied cfg v was id score now s).1
unfolding applied
applied-Outcome cfg k unchanged was id score now s x = elim x [ ]
applied-Outcome cfg k (failing e) was id score now s invalid = inl refl
applied-Outcome cfg k (changed u) was id score now s (ends over kind) = inr (
    subst (λ x. IsOver id k x.1) (sym (commit_ended cfg u.status u was id score now s over))
      (subst (λ x. IsOver id x (settle u was id now s)) kind (settle-IsOver u was id now s over)))

change-Outcome :
    (cfg : JobsSettings) (id : String) (update : JobRecord → Update) (score : Option ℕ) (now : ℕ)
    (r : JobRecord) (s : Store)
    → s.jobs id ≡ some r
    → Ends r.kind (update r)
    → (change cfg id update score now s ≡ (raised validation_error, s))
      ⊎ IsOver id r.kind (change cfg id update score now s).1
unfolding change
change-Outcome cfg id update score now r s found h =
    rw (change, found)
      (applied-Outcome cfg r.kind (update r) (is_terminal r.status) id score now s h)

-- A result that the owner reports ends the job, even when it is canceled meanwhile or its result is
-- too large: its record has ended and it leaves the running jobs and its slot. Only a result that
-- the event's validator refuses raises, and leaves everything as it was.
pub finish-IsOver :
    (c : Codec) (cfg : JobsSettings) (id owner : String) (st : TerminalStatus)
    (res : Option Payload) (err : Option ErrorBody) (now : ℕ) (r : JobRecord) (s : Store)
    → s.jobs id ≡ some r
    → owns cfg r owner now ≡ true
    → (finish c cfg id owner st res err now s ≡ (raised validation_error, s))
      ⊎ IsOver id r.kind (finish c cfg id owner st res err now s).1
unfolding finish finish_update
finish-IsOver c cfg id owner st res err now r s found mine =
    change-Outcome cfg id (finish_update c cfg owner st res err now) none now r s found (
      rw mine (
        Ends-if r.cancel_requested (terminate-Ends c r TerminalStatus.canceled none none)
          (terminate-Ends c r st res err)))

-- a failure always makes an event
pub failed_event :
    (c : Codec) (r : JobRecord) (err : ErrorBody)
    → (e : JobResultEvent) × (terminate c r TerminalStatus.failed none (some err)
        ≡ changed (ended r e))
unfolding terminate new_event same_bool validated
failed_event c r err = (
  enforce_size_limit c (record {
    kind = r.kind;
    trip_id = r.trip_id;
    execution_id = r.execution_id;
    status = TerminalStatus.failed;
    result = none;
    error = some err;
  }),
  refl,
)

-- the lease or the time of a running job is over
abbrev pub is_overdue : JobsSettings → JobRecord → ℕ → Bool
is_overdue cfg r now = not (
    before_limit now r.started_at (job_timeout cfg r.kind)
    && before_limit now r.heartbeat_at cfg.lease)

-- The update of recovery ends a PROCESSING job whose lease or time is over, so that it leaves the
-- running jobs and its slot, whatever the worker does.
pub recover-IsOver :
    (c : Codec) (cfg : JobsSettings) (id : String) (now : ℕ) (r : JobRecord) (s : Store)
    → s.jobs id ≡ some r
    → r.status ≡ TaskStatus.processing
    → is_overdue cfg r now ≡ true
    → IsOver id r.kind (change cfg id (recover_update c cfg now) none now s).1
unfolding recover_update is_status ended
recover-IsOver c cfg id now r s found st late =
    let error : ErrorBody = record {
      code =
          if before_limit now r.started_at (job_timeout cfg r.kind)
          then ErrorCode.worker_dead
          else ErrorCode.timeout;
      message = "실행이 중단되었습니다.";
      detail = [];
    } in
    let (v, e) = failed_event c r error in
    let up : recover_update c cfg now r ≡ changed (ended r v) =
      rw (recover_update, st) (ground (arith, late, e)) in
    subst (λ x. IsOver id r.kind x.1)
      (sym (
        change_ended cfg id (recover_update c cfg now) none now r (ended r v) s found up
          (ended_over r v)))
      (settle-IsOver (ended r v) (is_terminal r.status) id now s (ended_over r v))

pub started_some :
    (cfg : JobsSettings) (r : JobRecord) (owner : String) (now : ℕ)
    → owns cfg r owner now ≡ true
    → (t : ℕ) × (r.started_at ≡ some t)
unfolding owns
started_some cfg r owner now mine = elim (Option-cases r.started_at) [
  | inl e ↦ absurd (ground (arith, e, mine))
  | inr (t, e) ↦ (t, e)
]

still_owned :
    (cfg : JobsSettings) (r : JobRecord) (owner : String) (now later : ℕ)
    → owns cfg r owner now ≡ true
    → later < now + cfg.lease
    → before_limit later r.started_at (job_timeout cfg r.kind) ≡ true
    → owns cfg (record r { heartbeat_at = some now }) owner later ≡ true
unfolding owns
still_owned cfg r owner now later mine fresh time = ground arith

pub running_status :
    (cfg : JobsSettings) (r : JobRecord) (owner : String) (now : ℕ)
    → owns cfg r owner now ≡ true
    → r.status ≡ TaskStatus.processing
unfolding owns is_status
running_status cfg r owner now mine = ground arith

beat_record :
    (cfg : JobsSettings) (id owner : String) (now : ℕ) (r : JobRecord) (s : Store)
    → s.jobs id ≡ some r
    → owns cfg r owner now ≡ true
    → (heartbeat cfg id owner now s).1.jobs id ≡ some (record r { heartbeat_at = some now })
unfolding heartbeat change heartbeat_update applied commit watch deadline
beat_record cfg id owner now r s found mine =
    let (t, e) = started_some cfg r owner now mine in
    let st = running_status cfg r owner now mine in ground (arith, found, mine, st, e, eq_iff id id)

-- A heartbeat of the owner prolongs its ownership by a lease, up to the job's time.
pub heartbeat-owns :
    (cfg : JobsSettings) (id owner : String) (now later : ℕ) (r : JobRecord) (s : Store)
    → s.jobs id ≡ some r
    → owns cfg r owner now ≡ true
    → later < now + cfg.lease
    → before_limit later r.started_at (job_timeout cfg r.kind) ≡ true
    → (u : JobRecord) × ((heartbeat cfg id owner now s).1.jobs id ≡ some u)
      × (owns cfg u owner later ≡ true)
unfolding heartbeat
heartbeat-owns cfg id owner now later r s found mine fresh time = (
  record r { heartbeat_at = some now },
  beat_record cfg id owner now r s found mine,
  still_owned cfg r owner now later mine fresh time,
)

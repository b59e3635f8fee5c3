-- ===== src/Jobs/Execution/Held.antt =====
-- The calls of the store that `execute` (app/jobs/execution.py) makes while it owns its job: a report
-- keeps the job, and each way to end it ends it.
use ktb4_2nd_ai.Prelude.{
  ℕ, suc, ◌≡◌, refl, String, true, not, ◌||◌, Option, none, some, arith, eq_iff, sym, subst, ap,
  Bool-cases, Option-cases, inl, inr, ltb, ◌==◌, ◌⊎◌,
}
use ktb4_2nd_ai.Schemas.{is_terminal, ErrorBody}
use ktb4_2nd_ai.Jobs.Models.{
  JobKind, TerminalStatus, Payload, Codec, JobRecord, JobResultEvent, JobsSettings, new_event,
  same_bool, validated, enforce_size_limit,
}
use ktb4_2nd_ai.Jobs.Store.{Result, Store, raised, validation_error, value_error}
use ktb4_2nd_ai.Jobs.Updates.{
  changed, unchanged, failing, owns, ended, terminate, settle, change, applied, commit, watch,
  deadline, progress_update, finish_update, allowed_step,
}
use ktb4_2nd_ai.Jobs.Methods.{progress, finish}
use ktb4_2nd_ai.Jobs.Contracts.{change_ended}
use ktb4_2nd_ai.Jobs.Endings.{
  IsOver, settle-IsOver, terminate_cases, failed_event, ended_over, running_status, started_some,
}
use ktb4_2nd_ai.Jobs.Execution.{
  Raised, cancelled, pipeline_error, other, World, result, internal_error, on_exception,
  on_completed, store_result, finish_at,
}

pub canceled_event :
    (c : Codec) (r : JobRecord)
    → (e : JobResultEvent) × (terminate c r TerminalStatus.canceled none none ≡ changed (ended r e))
unfolding terminate new_event same_bool validated
canceled_event c r = (
  enforce_size_limit c (record {
    kind = r.kind;
    trip_id = r.trip_id;
    execution_id = r.execution_id;
    status = TerminalStatus.canceled;
    result = none;
    error = none;
  }),
  refl,
)

heartbeat_some :
    (cfg : JobsSettings) (r : JobRecord) (owner : String) (now : ℕ)
    → owns cfg r owner now ≡ true
    → (t : ℕ) × (r.heartbeat_at ≡ some t)
unfolding owns
heartbeat_some cfg r owner now mine = elim (Option-cases r.heartbeat_at) [
  | inl e ↦ absurd (ground (arith, e, mine))
  | inr (t, e) ↦ (t, e)
]

-- the job is the owner's at a time
pub record IsHeld (cfg : JobsSettings) (id owner : String) (k : JobKind) (now : ℕ) (s : Store)
    : Type 0 where
  pub last : JobRecord
  pub there : s.jobs id ≡ some last
  pub mine : owns cfg last owner now ≡ true
  pub kind : last.kind ≡ k

-- a report of the owner writes its step and progress, or nothing
progress_cases :
    (cfg : JobsSettings) (owner step : String) (done total now : ℕ) (r : JobRecord)
    → ((progress_update cfg owner step done total now r ≡ unchanged)
        ⊎ (progress_update cfg owner step done total now r ≡ failing value_error))
      ⊎ (progress_update cfg owner step done total now r
          ≡ changed (record r {
            current_step = some step;
            progress = record { done = done; total = total };
          }))
unfolding progress_update
progress_cases cfg owner step done total now r =
    elim (Bool-cases (not (owns cfg r owner now) || r.cancel_requested)) [
      | inl e ↦ inl (inl (rw e refl))
      | inr e ↦
          elim (Bool-cases (
            not (allowed_step r.kind step)
            || (not (total == r.progress.total) || ltb total done))) [
              | inl f ↦ inl (inr (rw (e, f) refl))
              | inr f ↦ inr (rw (e, f) refl)
            ]
    ]

pub finish_event :
    (c : Codec) (cfg : JobsSettings) (owner : String) (st : TerminalStatus) (err : Option ErrorBody)
    (now : ℕ) (r : JobRecord)
    → ((u : JobRecord) → (e : JobResultEvent) × (terminate c u st none err ≡ changed (ended u e)))
    → owns cfg r owner now ≡ true
    → (e : JobResultEvent) × (finish_update c cfg owner st none err now r ≡ changed (ended r e))
unfolding finish_update
finish_event c cfg owner st err now r event mine = elim (Bool-cases r.cancel_requested) [
  | inl b ↦ let (e, h) = canceled_event c r in (e, ground (arith, mine, b, h))
  | inr b ↦ let (e, h) = event r in (e, ground (arith, mine, b, h))
]

completed_cases :
    (c : Codec) (cfg : JobsSettings) (owner : String) (p : Payload) (now : ℕ) (r : JobRecord)
    → owns cfg r owner now ≡ true
    → (finish_update c cfg owner TerminalStatus.completed (some p) none now r
        ≡ failing validation_error)
      ⊎ ((e : JobResultEvent) × (finish_update c cfg owner TerminalStatus.completed
              (some p)
              none
              now
              r
            ≡ changed (ended r e)))
unfolding finish_update
completed_cases c cfg owner p now r mine = elim (Bool-cases r.cancel_requested) [
  | inl b ↦ let (e, h) = canceled_event c r in inr (e, ground (arith, mine, b, h))
  | inr b ↦ elim (terminate_cases c r TerminalStatus.completed (some p) none) [
    | inl h ↦ inl (ground (arith, mine, b, h))
    | inr (e, h) ↦ inr (e, ground (arith, mine, b, h))
  ]
]

module _ (c : Codec) (cfg : JobsSettings) (id owner : String) (k : JobKind) where
  pub progress-IsHeld :
      (step : String) (done total now : ℕ) (s : Store)
      → IsHeld cfg id owner k now s
      → IsHeld cfg id owner k now (progress cfg id owner step done total now s).1
  unfolding progress change applied commit watch deadline owns
  progress-IsHeld step done total now s h =
      elim (progress_cases cfg owner step done total now h.last) [
        | inl e ↦
            let untouched : (progress cfg id owner step done total now s).1.jobs id ≡ some h.last =
              elim e [
                | inl e1 ↦ ground (arith, h.there, e1)
                | inr e2 ↦ ground (arith, h.there, e2)
              ] in
            record { last = h.last; there = untouched; mine = h.mine; kind = h.kind }
        | inr e ↦
            let (t, f) = started_some cfg h.last owner now h.mine in
            let st = running_status cfg h.last owner now h.mine in
            let (b, g) = heartbeat_some cfg h.last owner now h.mine in
            record {
              last = record h.last {
                current_step = some step;
                progress = record { done = done; total = total };
              };
              there = ground (arith, h.there, e, st, f, g, eq_iff id id);
              mine = h.mine;
              kind = h.kind;
            }
      ]

  -- a failure or a cancellation ends the job
  pub sure-IsOver :
      (st : TerminalStatus) (err : Option ErrorBody) (now : ℕ) (s : Store)
      → ((r : JobRecord) → (e : JobResultEvent) × (terminate c r st none err ≡ changed (ended r e)))
      → IsHeld cfg id owner k now s
      → IsOver id k (finish c cfg id owner st none err now s).1
  unfolding finish ended
  sure-IsOver st err now s event h =
      let r = h.last in
      let (e, up) = finish_event c cfg owner st err now r event h.mine in
      subst
        (λ (j : JobKind).
          IsOver id j (change cfg id (finish_update c cfg owner st none err now) none now s).1)
        h.kind
        (subst (λ x. IsOver id r.kind x.1)
          (sym (
            change_ended cfg id (finish_update c cfg owner st none err now) none now r (ended r e) s
              h.there up (ended_over r e)))
          (settle-IsOver (ended r e) (is_terminal r.status) id now s (ended_over r e)))

  -- an exception of the handler ends the job
  pub on_exception-IsOver :
      (world : World) (x : Raised) (n : ℕ) (s : Store)
      → IsHeld cfg id owner k (world.time n) (world.others n s)
      → IsOver id k (on_exception c cfg id owner world x n s).1
  unfolding on_exception
  on_exception-IsOver world cancelled n s h =
      sure-IsOver TerminalStatus.canceled none (world.time n) (world.others n s) (canceled_event c)
        h
  on_exception-IsOver world (pipeline_error e) n s h =
      sure-IsOver TerminalStatus.failed (some e) (world.time n) (world.others n s)
        (λ r. failed_event c r e) h
  on_exception-IsOver world other n s h =
      sure-IsOver TerminalStatus.failed (some (internal_error c cfg id owner world)) (world.time n)
        (world.others n s) (λ r. failed_event c r (internal_error c cfg id owner world)) h

  pub completed-IsOver :
      (world : World) (p : Payload) (n : ℕ) (s : Store)
      → IsHeld cfg id owner k (world.time n) (world.others n s)
      → (let t = (finish_at c cfg id owner world TerminalStatus.completed (some p) none n s).1 in
          IsHeld cfg id owner k (world.time n) t
          → IsHeld cfg id owner k (world.time (suc n)) (world.others (suc n) t))
      → IsOver id k (store_result c cfg id owner world (result p, (n, s))).1
  unfolding store_result on_completed finish change applied ended
  completed-IsOver world p n s h keeps =
      let r = h.last in
      let now = world.time n in
      let t = world.others n s in
      let update = finish_update c cfg owner TerminalStatus.completed (some p) none now in
      elim (completed_cases c cfg owner p now r h.mine) [
        | inl up ↦
            let broken : change cfg id update none now t ≡ (raised validation_error, t) =
              ground (arith, h.there, up) in
            let same = ap (λ (x : Result (Option JobRecord) × Store). x.1) broken in
            let later =
              subst
                (λ (x : Store).
                  IsHeld cfg id owner k now x
                  → IsHeld cfg id owner k (world.time (suc n)) (world.others (suc n) x))
                same keeps h in
            subst (λ x. IsOver id k (on_completed c cfg id owner world x (suc n)).1) (sym broken)
              (on_exception-IsOver world other (suc n) t later)
        | inr (e, up) ↦
            subst (λ x. IsOver id k (on_completed c cfg id owner world x (suc n)).1)
              (sym
                (change_ended cfg id update none now r (ended r e) t h.there up (ended_over r e)))
              (subst
                (λ (j : JobKind). IsOver id j (settle (ended r e) (is_terminal r.status) id now t))
                h.kind (settle-IsOver (ended r e) (is_terminal r.status) id now t (ended_over r e)))
      ]

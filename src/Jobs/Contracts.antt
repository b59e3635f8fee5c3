-- ===== src/Jobs/Contracts.antt =====
-- What the callers of the store's methods rely on (app/jobs/redis_store.py).
use ktb4_2nd_ai.Prelude.{
  ◌⊎◌, ℕ, ◌+◌, ◌<◌, ◌≤◌, ◌≡◌, ◌≢◌, refl, String, Bool, true, false, not, ◌||◌, Option, none, some,
  is_some, arith, eq_iff, ltb, ap, sym, ◌∙◌, subst, Bool-cases, Option-cases, inl, inr,
  some_injective,
}
use ktb4_2nd_ai.Schemas.{TaskStatus, is_terminal, is_status, ErrorBody}
use ktb4_2nd_ai.Jobs.Models.{TerminalStatus, Payload, Codec, JobRecord, JobsSettings, job_timeout}
use ktb4_2nd_ai.Jobs.Store.{Store, ok}
use ktb4_2nd_ai.Jobs.Updates.{
  Update, changed, unchanged, owns, settle, commit, applied, change, heartbeat_update,
  progress_update, finish_update, claim_result_update, return_update,
}
use ktb4_2nd_ai.Jobs.Methods.{
  duplicate, register_as, drop_batches, enqueue, heartbeat, progress, finish, claim_result,
  return_unstarted,
}

-- Redelivery: a registration that comes again after one that answered is a duplicate and changes
-- nothing, whether the first was accepted, a duplicate or turned away as busy.
pub register-again :
    (id : String) (r r' : JobRecord) (now later : ℕ) (s : Store)
    → register_as id r' later (register_as id r now s).1 ≡ (duplicate, (register_as id r now s).1)
unfolding register_as drop_batches enqueue
register-again id r r' now later s = ground (arith, eq_iff id id)

-- the update says `False`
pub change-unchanged :
    (cfg : JobsSettings) (id : String) (update : JobRecord → Update) (score : Option ℕ) (now : ℕ)
    (s : Store)
    → ((r : JobRecord) → s.jobs id ≡ some r → update r ≡ unchanged)
    → change cfg id update score now s ≡ (ok none, s)
unfolding change applied
change-unchanged cfg id update score now s h = elim (Option-cases (s.jobs id)) [
  | inl e ↦ rw (change, e) refl
  | inr (r, e) ↦ rw (change, e, h r e) refl
]

-- why a caller is not, or is no more, the one that runs a job: the job is not running, another one's, its
-- lease has passed since the last heartbeat, or its time since the start
pub data Lost (cfg : JobsSettings) (r : JobRecord) (owner : String) (now : ℕ) : Type 0 where
  not_running : r.status ≢ TaskStatus.processing → Lost cfg r owner now
  of_another : r.owner ≢ some owner → Lost cfg r owner now
  lease_over : {t : ℕ} → r.heartbeat_at ≡ some t → t + cfg.lease ≤ now → Lost cfg r owner now
  time_over :
      {t : ℕ} → r.started_at ≡ some t → t + job_timeout cfg r.kind ≤ now → Lost cfg r owner now

Lost-owns :
    (cfg : JobsSettings) (r : JobRecord) (owner : String) (now : ℕ)
    → Lost cfg r owner now
    → owns cfg r owner now ≡ false
unfolding owns is_status
Lost-owns cfg r owner now (not_running e) = elim (Bool-cases (owns cfg r owner now)) [
  | inl mine ↦ absurd (e (ground (arith, mine)))
  | inr other ↦ other
]
Lost-owns cfg r owner now (of_another e) = elim (Option-cases r.owner) [
  | inl none_owns ↦ ground (arith, none_owns)
  | inr (o, found) ↦
      let other : o ≢ owner = λ q. e (found ∙ ap some q) in
      ground (arith, found, eq_iff o owner, other)
]
Lost-owns cfg r owner now (lease_over e late) = ground (arith, e, late)
Lost-owns cfg r owner now (time_over e late) = ground (arith, e, late)

-- A caller that is not, or is no more, the one that runs the job, because the job is not running,
-- another one owns it, its lease has passed since the last heartbeat, or its time since the start,
-- changes nothing by a heartbeat, a progress report, a result or a return to the queue.
pub stranger_changes_nothing :
    (c : Codec) (cfg : JobsSettings) (id owner step : String) (done total score : ℕ)
    (st : TerminalStatus) (res : Option Payload) (err : Option ErrorBody) (now : ℕ) (s : Store)
    → ((r : JobRecord) → s.jobs id ≡ some r → Lost cfg r owner now)
    → (heartbeat cfg id owner now s ≡ (ok none, s))
      × (progress cfg id owner step done total now s ≡ (ok none, s))
      × (finish c cfg id owner st res err now s ≡ (ok none, s))
      × (return_unstarted c cfg id owner score now s ≡ (ok none, s))
unfolding heartbeat progress finish return_unstarted heartbeat_update progress_update finish_update
    return_update
stranger_changes_nothing c cfg id owner step done total score st res err now s h =
    let lost : (r : JobRecord) → s.jobs id ≡ some r → owns cfg r owner now ≡ false =
      λ r e. Lost-owns cfg r owner now (h r e) in
    (
      change-unchanged cfg id (heartbeat_update cfg owner now) none now s
          (λ r e. rw (heartbeat_update, lost r e) refl),
      change-unchanged cfg id (progress_update cfg owner step done total now) none now s
          (λ r e. rw (progress_update, lost r e) refl),
      change-unchanged cfg id (finish_update c cfg owner st res err now) none now s
          (λ r e. rw (finish_update, lost r e) refl),
      change-unchanged cfg id (return_update c cfg owner now) (some score) now s
          (λ r e. rw (return_update, lost r e) refl),
    )

pub commit_ended :
    (cfg : JobsSettings) (st : TaskStatus) (r : JobRecord) (was : Bool) (id : String)
    (score : Option ℕ) (now : ℕ) (s : Store)
    → is_terminal st ≡ true
    → commit cfg st r was id score now s ≡ (ok (some r), settle r was id now s)
unfolding commit
commit_ended cfg TaskStatus.queued r was id score now s h = absurd (cc)
commit_ended cfg TaskStatus.processing r was id score now s h = absurd (cc)
commit_ended cfg TaskStatus.completed r was id score now s h = refl
commit_ended cfg TaskStatus.failed r was id score now s h = refl
commit_ended cfg TaskStatus.canceled r was id score now s h = refl

-- an update that leaves an ended record
pub change_ended :
    (cfg : JobsSettings) (id : String) (update : JobRecord → Update) (score : Option ℕ) (now : ℕ)
    (r u : JobRecord) (s : Store)
    → s.jobs id ≡ some r
    → update r ≡ changed u
    → is_terminal u.status ≡ true
    → change cfg id update score now s ≡ (ok (some u), settle u (is_terminal r.status) id now s)
unfolding change applied
change_ended cfg id update score now r u s found up over =
    rw (change, found, up) (commit_ended cfg u.status u (is_terminal r.status) id score now s over)

-- the record of a result that `publisher` has claimed
abbrev pub claimed_by : JobsSettings → String → ℕ → JobRecord → JobRecord
claimed_by cfg publisher now r = record r {
  publish_owner = some publisher;
  publish_until = now + cfg.publish_lease;
}

abbrev blocked : JobRecord → ℕ → Bool
blocked r now = not (is_some r.event) || (r.published || ltb now r.publish_until)

pub claim_result_cases :
    (cfg : JobsSettings) (p : String) (now : ℕ) (r : JobRecord)
    → (claim_result_update cfg p now r ≡ unchanged)
      ⊎ (claim_result_update cfg p now r ≡ changed (claimed_by cfg p now r))
unfolding claim_result_update
claim_result_cases cfg p now r = elim (Bool-cases (blocked r now)) [
  | inl e ↦ inl (rw e refl)
  | inr e ↦ inr (rw e refl)
]

leased :
    (cfg : JobsSettings) (q : String) (later : ℕ) (u : JobRecord)
    → later < u.publish_until
    → claim_result_update cfg q later u ≡ unchanged
unfolding claim_result_update
leased cfg q later u h = ground arith

settle_jobs :
    (u : JobRecord) (was : Bool) (id : String) (now : ℕ) (s : Store)
    → (settle u was id now s).jobs id ≡ some u
unfolding settle
settle_jobs u was id now s = ground (arith, eq_iff id id)

-- A result that one publisher has claimed is not claimed again before that lease is over, by it or
-- another.
pub claim_result-exclusive :
    (cfg : JobsSettings) (id p q : String) (now later : ℕ) (r : JobRecord) (s : Store)
    → s.jobs id ≡ some r
    → is_terminal r.status ≡ true
    → (claim_result cfg id p now s).0 ≢ ok none
    → later < now + cfg.publish_lease
    → claim_result cfg id q later (claim_result cfg id p now s).1
      ≡ (ok none, (claim_result cfg id p now s).1)
unfolding claim_result
claim_result-exclusive cfg id p q now later r s found over won fresh =
    elim (claim_result_cases cfg p now r) [
      | inl e ↦ absurd (
          won (
            ap (λ x. x.0)
              (change-unchanged cfg id (claim_result_update cfg p now) none now s (λ u f.
                subst (λ x. claim_result_update cfg p now x ≡ unchanged)
                  (some_injective (sym found ∙ f)) e))))
      | inr e ↦
          let v = claimed_by cfg p now r in
          let step =
            change_ended cfg id (claim_result_update cfg p now) none now r v s found e over in
          let t = (change cfg id (claim_result_update cfg p now) none now s).1 in
          let there : t.jobs id ≡ some v =
            ap (λ x. x.1.jobs id) step ∙ settle_jobs v (is_terminal r.status) id now s in
          change-unchanged cfg id (claim_result_update cfg q later) none later t (λ u f.
            leased cfg q later u (
              subst (λ (x : JobRecord). later < x.publish_until) (some_injective (sym there ∙ f))
                fresh))
    ]

-- ===== src/Jobs/Ended.antt =====
-- The end of a job is final (app/jobs/redis_store.py): no transaction takes its record away, gives
-- it another status or another result.
use ktb4_2nd_ai.Prelude.{
  ℕ, ◌≡◌, refl, String, Bool, true, false, Option, none, some, is_some, arith, subst, ltb, not,
  ◌||◌, str_eq, eq_iff, sym, ◌∙◌, ap, Option-cases, Bool-cases, inl, inr, some_injective,
  if◌then◌else◌,
}
use ktb4_2nd_ai.Schemas.{ErrorBody, TaskStatus, is_terminal, is_status}
use ktb4_2nd_ai.Jobs.Models.{TerminalStatus, Payload, Codec, JobRecord, JobsSettings}
use ktb4_2nd_ai.Jobs.Store.{Store, Failure}
use ktb4_2nd_ai.Jobs.Updates.{
  Update, changed, unchanged, failing, settle, requeue, watch, deadline, commit, applied, change,
  owns, return_update, heartbeat_update, progress_update, finish_update, cancel_update,
  recover_update, claim_result_update,
}

-- a later record of a job that had ended: the same status and the same event
pub record IsSameEnd (r u : JobRecord) : Type 0 where
  pub status : u.status ≡ r.status
  pub event : u.event ≡ r.event

-- what an update may do with an ended record
pub data Still (r : JobRecord) : Update → Type 0 where
  same : {u : JobRecord} → IsSameEnd r u → Still r (changed u)
  left : Still r unchanged
  refused : {e : Failure} → Still r (failing e)

-- every ended job of `s` is in `t` with the same end
unfoldable pub AllStay : Store → Store → Type 0
AllStay s t =
    (id : String) (r : JobRecord)
    → s.jobs id ≡ some r
    → is_terminal r.status ≡ true
    → (u : JobRecord) × (t.jobs id ≡ some u) × IsSameEnd r u

pub stay : (r : JobRecord) → IsSameEnd r r
stay r = record { status = refl; event = refl }

-- the records are as they were, or the job's record is a new one
pub same_records : (s t : Store) → ((j : String) → t.jobs j ≡ s.jobs j) → AllStay s t
unfolding AllStay
same_records s t h id r found over = (r, h id ∙ found, stay r)

pub one_record :
    (s t : Store) (id : String) (u : JobRecord)
    → ((j : String) → t.jobs j ≡ (if str_eq id j then some u else s.jobs j))
    → ((r : JobRecord) → s.jobs id ≡ some r → is_terminal r.status ≡ true → IsSameEnd r u)
    → AllStay s t
unfolding AllStay
one_record s t id u h ends j r found over = elim (Bool-cases (str_eq id j)) [
  | inl e ↦
      let eq : id ≡ j = (eq_iff id j).0 e in
      (u, ground (arith, h j, e), ends r (ap s.jobs eq ∙ found) over)
  | inr e ↦ (r, ground (arith, h j, e), stay r)
]

watch_stays :
    (d : Option ℕ) (u : JobRecord) (id : String) (s : Store)
    → ((r : JobRecord) → s.jobs id ≡ some r → is_terminal r.status ≡ true → IsSameEnd r u)
    → AllStay s (watch d u id s).1
unfolding watch
watch_stays none u id s h = same_records s s (λ j. refl)
watch_stays (some d) u id s h = one_record s (watch (some d) u id s).1 id u (λ j. refl) h

commit_stays :
    (cfg : JobsSettings) (st : TaskStatus) (u : JobRecord) (was : Bool) (id : String)
    (score : Option ℕ) (now : ℕ) (s : Store)
    → ((r : JobRecord) → s.jobs id ≡ some r → is_terminal r.status ≡ true → IsSameEnd r u)
    → AllStay s (commit cfg st u was id score now s).1
unfolding commit settle requeue
commit_stays cfg TaskStatus.queued u was id none now s h =
    one_record s (requeue u id none s) id u (λ j. refl) h
commit_stays cfg TaskStatus.queued u was id (some n) now s h =
    one_record s (requeue u id (some n) s) id u (λ j. refl) h
commit_stays cfg TaskStatus.processing u was id score now s h =
    watch_stays (deadline cfg u) u id s h
commit_stays cfg TaskStatus.completed u was id score now s h =
    one_record s (settle u was id now s) id u (λ j. refl) h
commit_stays cfg TaskStatus.failed u was id score now s h =
    one_record s (settle u was id now s) id u (λ j. refl) h
commit_stays cfg TaskStatus.canceled u was id score now s h =
    one_record s (settle u was id now s) id u (λ j. refl) h

applied_stays :
    (cfg : JobsSettings) (r : JobRecord) (v : Update) (was : Bool) (id : String) (score : Option ℕ)
    (now : ℕ) (s : Store)
    → s.jobs id ≡ some r
    → (is_terminal r.status ≡ true → Still r v)
    → AllStay s (applied cfg v was id score now s).1
unfolding applied
applied_stays cfg r unchanged was id score now s found h = same_records s s (λ j. refl)
applied_stays cfg r (failing e) was id score now s found h = same_records s s (λ j. refl)
applied_stays cfg r (changed u) was id score now s found h =
    commit_stays cfg u.status u was id score now s (λ x p over.
      let eq : x ≡ r = some_injective (sym p ∙ found) in
      subst (λ y. IsSameEnd y u) (sym eq)
        (still_same (h (subst (λ y. is_terminal y.status ≡ true) eq over))))
  where
    still_same : Still r (changed u) → IsSameEnd r u
    still_same (same e) = e

pub change_stays :
    (cfg : JobsSettings) (id : String) (update : JobRecord → Update) (score : Option ℕ) (now : ℕ)
    (s : Store)
    → ((r : JobRecord) → is_terminal r.status ≡ true → Still r (update r))
    → AllStay s (change cfg id update score now s).1
unfolding change
change_stays cfg id update score now s h = elim (Option-cases (s.jobs id)) [
  | inl e ↦ rw (change, e) (same_records s s (λ j. refl))
  | inr (r, e) ↦
      rw (change, e) (applied_stays cfg r (update r) (is_terminal r.status) id score now s e (h r))
]

-- nobody owns an ended job
ended_unowned :
    (cfg : JobsSettings) (r : JobRecord) (w : String) (now : ℕ)
    → is_terminal r.status ≡ true
    → owns cfg r w now ≡ false
unfolding owns is_status
ended_unowned cfg r w now h = ground arith

pub return_still :
    (c : Codec) (cfg : JobsSettings) (w : String) (now : ℕ) (r : JobRecord)
    → is_terminal r.status ≡ true
    → Still r (return_update c cfg w now r)
unfolding return_update
return_still c cfg w now r over = rw (ended_unowned cfg r w now over) left

pub heartbeat_still :
    (cfg : JobsSettings) (w : String) (now : ℕ) (r : JobRecord)
    → is_terminal r.status ≡ true
    → Still r (heartbeat_update cfg w now r)
unfolding heartbeat_update
heartbeat_still cfg w now r over = rw (ended_unowned cfg r w now over) left

pub progress_still :
    (cfg : JobsSettings) (w step : String) (done total now : ℕ) (r : JobRecord)
    → is_terminal r.status ≡ true
    → Still r (progress_update cfg w step done total now r)
unfolding progress_update
progress_still cfg w step done total now r over = rw (ended_unowned cfg r w now over) left

pub finish_still :
    (c : Codec) (cfg : JobsSettings) (w : String) (st : TerminalStatus) (res : Option Payload)
    (err : Option ErrorBody) (now : ℕ) (r : JobRecord)
    → is_terminal r.status ≡ true
    → Still r (finish_update c cfg w st res err now r)
unfolding finish_update
finish_still c cfg w st res err now r over = rw (ended_unowned cfg r w now over) left

pub cancel_still :
    (c : Codec) (r : JobRecord) → is_terminal r.status ≡ true → Still r (cancel_update c r)
unfolding cancel_update
cancel_still c r over = rw over refused

pub not_running :
    (r : JobRecord) → is_terminal r.status ≡ true → is_status r.status TaskStatus.processing ≡ false
unfolding is_status
not_running r over = ground arith

pub recover_still :
    (c : Codec) (cfg : JobsSettings) (now : ℕ) (r : JobRecord)
    → is_terminal r.status ≡ true
    → Still r (recover_update c cfg now r)
unfolding recover_update
recover_still c cfg now r over = rw (not_running r over) left

pub claim_result_still :
    (cfg : JobsSettings) (publisher : String) (now : ℕ) (r : JobRecord)
    → Still r (claim_result_update cfg publisher now r)
unfolding claim_result_update
claim_result_still cfg publisher now r =
    elim (Bool-cases (not (is_some r.event) || (r.published || ltb now r.publish_until))) [
      | inl e ↦ rw e left
      | inr e ↦ rw e (same (record { status = refl; event = refl }))
    ]

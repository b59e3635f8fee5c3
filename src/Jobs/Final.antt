-- ===== src/Jobs/Final.antt =====
-- The end of a job is final in every step of the store and in every sequence of them
-- (app/jobs/redis_store.py).
use ktb4_2nd_ai.Prelude.{
  ℕ, ◌≡◌, refl, String, Bool, true, false, Option, none, some, List, [], ◌∷◌, arith, subst, take,
  str_eq, eq_iff, sym, ◌∙◌, ap, Option-cases, Bool-cases, inl, inr, some_injective,
}
use ktb4_2nd_ai.Schemas.{TaskStatus, is_terminal, is_status}
use ktb4_2nd_ai.Jobs.Models.{JobKind, Codec, JobRecord, JobsSettings}
use ktb4_2nd_ai.Jobs.Zset.{zrem, first, up_to}
use ktb4_2nd_ai.Jobs.Store.{set_job, set_kind, Store, Result, ok, raised}
use ktb4_2nd_ai.Jobs.Updates.{
  owned_by, change, return_update, heartbeat_update, progress_update, finish_update, cancel_update,
  recover_update, claim_result_update,
}
use ktb4_2nd_ai.Jobs.Methods.{
  drop_batches, enqueue, register_as, return_unstarted, heartbeat, progress, finish, or_missing,
  cancel, recover_each, recover, claim_result, acknowledge_result,
}
use ktb4_2nd_ai.Jobs.Claim.{occupy, taken, take_over, take_waiting, take_first, attempt}
use ktb4_2nd_ai.Jobs.Ended.{
  IsSameEnd, AllStay, stay, same_records, one_record, change_stays, return_still, heartbeat_still,
  progress_still, finish_still, cancel_still, recover_still, claim_result_still,
}
use ktb4_2nd_ai.Jobs.Photos.{stage_photos, claim_batch}
use ktb4_2nd_ai.Jobs.Photos.Apart.{stage-IsSameJobs, claim_batch-IsSameJobs}
use ktb4_2nd_ai.Jobs.Steps.{
  Step, Reach, registered, attempted, returned, beat, progressed, finished, canceled, recovered,
  result_claimed, acknowledged, photos_staged, batch_claimed, here, next,
}

chain : (s t v : Store) → AllStay s t → AllStay t v → AllStay s v
unfolding AllStay
chain s t v a b id r found over =
    let (u, pu, e) = a id r found over in
    let (w, pw, f) = b id u pu (subst (λ st. is_terminal st ≡ true) (sym e.status) over) in
    (w, pw, record { status = f.status ∙ e.status; event = f.event ∙ e.event })

take_waiting_stays :
    (cfg : JobsSettings) (k : JobKind) (owner : String) (stop : Bool) (id : String) (score : ℕ)
    (u : JobRecord) (now : ℕ) (s : Store)
    → s.jobs id ≡ some u
    → is_status u.status TaskStatus.queued ≡ true
    → AllStay s (take_waiting cfg k owner stop id score u now s).1
unfolding take_waiting take_over is_status
take_waiting_stays cfg k owner true id score u now s found waits = same_records s s (λ j. refl)
take_waiting_stays cfg k owner false id score u now s found waits =
    elim (Option-cases (occupy id (s.slots k))) [
      | inl e ↦ rw e (same_records s s (λ j. refl))
      | inr (rest, e) ↦ rw e (
          one_record s (take_over cfg k id (taken owner now u) rest now s) id (taken owner now u)
            (λ j. refl)
            (λ r p over.
              let eq : r ≡ u = some_injective (sym p ∙ found) in
              absurd (ground (arith, ap (λ x. x.status) eq))))
    ]

take_first_stays :
    (cfg : JobsSettings) (k : JobKind) (owner : String) (stop : Bool) (e : Option (String × ℕ))
    (now : ℕ) (s : Store)
    → AllStay s (take_first cfg k owner stop e now s).1
unfolding take_first AllStay
take_first_stays cfg k owner stop none now s = same_records s s (λ j. refl)
take_first_stays cfg k owner stop (some (id, score)) now s = elim (Option-cases (s.jobs id)) [
  | inl e ↦
      rw (take_first, e)
        (same_records s (record s { queue = set_kind k (zrem id (s.queue k)) s.queue }) (λ j. refl))
  | inr (r, e) ↦ elim (Bool-cases (is_status r.status TaskStatus.queued)) [
    | inl w ↦ rw (take_first, e, w) (take_waiting_stays cfg k owner stop id score r now s e w)
    | inr w ↦
        rw (take_first, e, w)
          (same_records s (record s { queue = set_kind k (zrem id (s.queue k)) s.queue })
            (λ j. refl))
  ]
]

attempt_stays :
    (cfg : JobsSettings) (k : JobKind) (owner : String) (stop : Bool) (now : ℕ) (s : Store)
    → AllStay s (attempt cfg k owner stop now s).1
unfolding AllStay attempt
attempt_stays cfg k owner stop now s id r found over = ground (
  arith,
  take_first_stays cfg k owner stop (first (s.queue k)) now s id r found over,
  same_records s s (λ j. refl) id r found over,
)

register_stays :
    (id : String) (u : JobRecord) (now : ℕ) (s : Store) → AllStay s (register_as id u now s).1
unfolding AllStay register_as drop_batches enqueue
register_stays id u now s j r found over = elim (Bool-cases (str_eq id j)) [
  | inl e ↦ (r, ground (arith, e, ap s.jobs ((eq_iff id j).0 e), found), stay r)
  | inr e ↦ (r, ground (arith, e, found), stay r)
]

or_missing_stays :
    (p : Result (Option JobRecord) × Store) (s : Store) → AllStay s p.1 → AllStay s (or_missing p).1
unfolding or_missing
or_missing_stays (raised e, t) s h = h
or_missing_stays (ok none, t) s h = h
or_missing_stays (ok (some r), t) s h = h

cancel_stays :
    (c : Codec) (cfg : JobsSettings) (k : JobKind) (trip now : ℕ) (s : Store)
    → AllStay s (cancel c cfg k trip now s).1
unfolding AllStay cancel
cancel_stays c cfg k trip now s = elim (Option-cases (s.latest k trip)) [
  | inl e ↦ rw (cancel, e) (same_records s s (λ j. refl))
  | inr (id, e) ↦ elim (Option-cases (s.jobs id)) [
    | inl n ↦ rw (cancel, e, n) (same_records s s (λ j. refl))
    | inr (r, n) ↦
        rw (cancel, e, n)
          (or_missing_stays (change cfg id (cancel_update c) none now s) s
            (change_stays cfg id (cancel_update c) none now s (cancel_still c)))
  ]
]

recover_each_stays :
    (c : Codec) (cfg : JobsSettings) (ids : List String) (now : ℕ) (s : Store)
    → AllStay s (recover_each c cfg ids now s)
unfolding recover_each
recover_each_stays c cfg [] now s = same_records s s (λ j. refl)
recover_each_stays c cfg (id ∷ ids) now s =
    let t = (change cfg id (recover_update c cfg now) none now s).1 in
    chain s t (recover_each c cfg ids now t)
      (change_stays cfg id (recover_update c cfg now) none now s (recover_still c cfg now))
      (recover_each_stays c cfg ids now t)

acknowledge_stays :
    (id publisher : String) (s : Store) → AllStay s (acknowledge_result id publisher s)
unfolding AllStay acknowledge_result
acknowledge_stays id publisher s = elim (Option-cases (s.jobs id)) [
  | inl e ↦ rw (acknowledge_result, e) (same_records s s (λ j. refl))
  | inr (u, e) ↦ elim (Bool-cases (owned_by u.publish_owner publisher)) [
    | inl w ↦
        rw (acknowledge_result, e, w)
          (one_record s
            (record s {
              jobs = set_job id (record u { published = true }) s.jobs;
              pending = zrem id s.pending;
            })
            id (record u { published = true }) (λ j. refl)
            (λ r p over.
              subst (λ x. IsSameEnd x (record u { published = true })) (some_injective (sym e ∙ p))
                (record { status = refl; event = refl })))
    | inr w ↦ rw (acknowledge_result, e, w) (same_records s s (λ j. refl))
  ]
]

-- Every step of the store leaves the job of an ended record with the same status and the same
-- event: no late report, cancellation, recovery or registration replaces a result.
pub Step-AllStay : {c : Codec} {cfg : JobsSettings} {s t : Store} → Step c cfg s t → AllStay s t
unfolding return_unstarted heartbeat progress finish claim_result recover
Step-AllStay {c} {cfg} {s} (registered id r now new) = register_stays id r now s
Step-AllStay {c} {cfg} {s} (attempted k owner stop now) = attempt_stays cfg k owner stop now s
Step-AllStay {c} {cfg} {s} (returned id owner score now) =
    change_stays cfg id (return_update c cfg owner now) (some score) now s
      (return_still c cfg owner now)
Step-AllStay {c} {cfg} {s} (beat id owner now) =
    change_stays cfg id (heartbeat_update cfg owner now) none now s (heartbeat_still cfg owner now)
Step-AllStay {c} {cfg} {s} (progressed id owner step done total now) =
    change_stays cfg id (progress_update cfg owner step done total now) none now s
      (progress_still cfg owner step done total now)
Step-AllStay {c} {cfg} {s} (finished id owner st res err now) =
    change_stays cfg id (finish_update c cfg owner st res err now) none now s
      (finish_still c cfg owner st res err now)
Step-AllStay {c} {cfg} {s} (canceled k trip now) = cancel_stays c cfg k trip now s
Step-AllStay {c} {cfg} {s} (recovered now) =
    recover_each_stays c cfg (take 100 (up_to now s.running)) now s
Step-AllStay {c} {cfg} {s} (result_claimed id publisher now) =
    change_stays cfg id (claim_result_update cfg publisher now) none now s
      (λ r over. claim_result_still cfg publisher now r)
Step-AllStay {c} {cfg} {s} (acknowledged id publisher) = acknowledge_stays id publisher s
Step-AllStay {c} {cfg} {s} (photos_staged size m topic now) =
    same_records s (stage_photos size cfg m topic now s).1
      (λ j. ap (λ z. z j) (stage-IsSameJobs size cfg m topic now s).jobs)
Step-AllStay {c} {cfg} {s} (batch_claimed now) =
    same_records s (claim_batch now s).1 (λ j. ap (λ z. z j) (claim_batch-IsSameJobs now s).jobs)

-- A job that has ended is in every later state of the store with the same status and the same event.
pub end_is_final :
    {c : Codec} {cfg : JobsSettings} {s t : Store} (id : String) (r : JobRecord)
    → Reach c cfg s t
    → s.jobs id ≡ some r
    → is_terminal r.status ≡ true
    → (u : JobRecord) × (t.jobs id ≡ some u) × IsSameEnd r u
unfolding AllStay
end_is_final id r here found over = (r, found, stay r)
end_is_final id r (next reach st) found over =
    let (u, pu, e) = end_is_final id r reach found over in
    let (w, pw, f) =
      Step-AllStay st id u pu (subst (λ x. is_terminal x ≡ true) (sym e.status) over) in
    (w, pw, record { status = f.status ∙ e.status; event = f.event ∙ e.event })

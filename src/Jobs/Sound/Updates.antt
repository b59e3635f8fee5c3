-- ===== src/Jobs/Sound/Updates.antt =====
-- Every update that the store's methods pass to `change` is lawful, so those methods keep the store
-- sound.
use ktb4_2nd_ai.Prelude.{
  ℕ, ◌≡◌, refl, String, Bool, true, false, Option, none, some, is_some, arith, if◌then◌else◌, not,
  ◌&&◌, ◌||◌, ◌==◌, ltb,
}
use ktb4_2nd_ai.Schemas.{TaskStatus, is_terminal, is_status, ErrorBody}
use ktb4_2nd_ai.Jobs.Models.{
  TerminalStatus, Payload, JobResultEvent, Codec, new_event, enforce_size_limit, JobRecord,
  JobsSettings, job_timeout,
}
use ktb4_2nd_ai.Jobs.Store.{Store}
use ktb4_2nd_ai.Jobs.Updates.{
  Update, allowed_step, before_limit, owns, ended, terminate, return_update, heartbeat_update,
  progress_update, finish_update, cancel_update, recover_update, claim_result_update,
}
use ktb4_2nd_ai.Jobs.Sound.{IsKept}
use ktb4_2nd_ai.Jobs.Sound.Change.{IsLawful, Lawful, lawful, no_change, failure}

Lawful-if :
    {r : JobRecord} {score : Option ℕ} (b : Bool) {u v : Update}
    → (b ≡ true → Lawful r score u)
    → (b ≡ false → Lawful r score v)
    → Lawful r score (if b then u else v)
Lawful-if true h k = h refl
Lawful-if false h k = k refl

ended-IsLawful :
    (r r₀ : JobRecord) (score : Option ℕ) (e : JobResultEvent)
    → r₀.kind ≡ r.kind
    → r₀.trip_id ≡ r.trip_id
    → IsLawful r (ended r₀ e) score
unfolding ended is_status
ended-IsLawful r r₀ score e k t = record {
  kind = k;
  trip = t;
  live = λ p. ground arith;
  running = λ p. ground arith;
  requeued = λ p. ground arith;
  heard = λ p. ground arith;
  started = λ p. ground arith;
  event_iff = ground arith;
}

terminate-Lawful :
    (c : Codec) (r r₀ : JobRecord) (score : Option ℕ) (st : TerminalStatus) (res : Option Payload)
    (err : Option ErrorBody)
    → r₀.kind ≡ r.kind
    → r₀.trip_id ≡ r.trip_id
    → Lawful r score (terminate c r₀ st res err)
unfolding terminate
terminate-Lawful c r r₀ score st res err k t =
    go (new_event c r₀.kind r₀.trip_id r₀.execution_id st res err)
  where
    go :
        (e : Option JobResultEvent)
        → Lawful r score (elim e [
          | none ↦ Update.failing ktb4_2nd_ai.Jobs.Store.validation_error
          | some x ↦ Update.changed (ended r₀ (enforce_size_limit c x))
        ])
    go none = failure
    go (some x) = lawful (ended-IsLawful r r₀ score (enforce_size_limit c x) k t)

owns-processing :
    (cfg : JobsSettings) (r : JobRecord) (w : String) (now : ℕ)
    → owns cfg r w now ≡ true
    → r.status ≡ TaskStatus.processing
unfolding owns is_status
owns-processing cfg r w now h = ground arith

-- The record stays PROCESSING, and only its reporting fields change.
module _ (s : Store) (id : String) (r : JobRecord) (kept : IsKept s id r) where
  still_running :
      (r' : JobRecord) (score : Option ℕ)
      → r.status ≡ TaskStatus.processing
      → r'.status ≡ TaskStatus.processing
      → r'.kind ≡ r.kind
      → r'.trip_id ≡ r.trip_id
      → is_some r'.event ≡ is_some r.event
      → is_some r'.heartbeat_at ≡ true
      → r'.started_at ≡ r.started_at
      → IsLawful r r' score
  still_running r' score p p' k t e h st = record {
    kind = k;
    trip = t;
    live = λ q. ground arith;
    running = λ q. p;
    requeued = λ q. ground arith;
    heard = λ q. h;
    started = λ q. rw st (kept.started p);
    event_iff = ground (arith, kept.event_iff);
  }

  pub heartbeat-Lawful :
      (cfg : JobsSettings) (w : String) (now : ℕ) (score : Option ℕ)
      → Lawful r score (heartbeat_update cfg w now r)
  unfolding heartbeat_update
  heartbeat-Lawful cfg w now score =
      Lawful-if (owns cfg r w now)
        (λ e.
          let runs = owns-processing cfg r w now e in
          lawful (still_running _ score runs runs refl refl refl refl refl))
        (λ _. no_change)

  pub progress-Lawful :
      (cfg : JobsSettings) (w step : String) (done total now : ℕ) (score : Option ℕ)
      → Lawful r score (progress_update cfg w step done total now r)
  unfolding progress_update
  progress-Lawful cfg w step done total now score =
      Lawful-if (not (owns cfg r w now) || r.cancel_requested) (λ _. no_change)
        (λ e.
          Lawful-if
            (not (allowed_step r.kind step) || (not (total == r.progress.total) || ltb total done))
            (λ _. failure)
            (λ _.
              let runs = owns-processing cfg r w now (ground arith) in
              lawful (still_running _ score runs runs refl refl refl (kept.heard runs) refl)))

  pub return-Lawful :
      (c : Codec) (cfg : JobsSettings) (w : String) (now score : ℕ)
      → Lawful r (some score) (return_update c cfg w now r)
  unfolding return_update
  return-Lawful c cfg w now score =
      Lawful-if (not (owns cfg r w now)) (λ _. no_change)
        (λ e.
          Lawful-if r.cancel_requested
            (λ _. terminate-Lawful c r r (some score) TerminalStatus.canceled none none refl refl)
            (λ _.
              let runs = owns-processing cfg r w now (ground arith) in
              lawful (record {
                kind = refl;
                trip = refl;
                live = λ p. ground arith;
                running = λ p. ground arith;
                requeued = λ p. refl;
                heard = λ p. ground arith;
                started = λ p. ground arith;
                event_iff = ground (arith, kept.event_iff);
              })))

  pub finish-Lawful :
      (c : Codec) (cfg : JobsSettings) (w : String) (st : TerminalStatus) (res : Option Payload)
      (err : Option ErrorBody) (now : ℕ) (score : Option ℕ)
      → Lawful r score (finish_update c cfg w st res err now r)
  unfolding finish_update
  finish-Lawful c cfg w st res err now score =
      Lawful-if (not (owns cfg r w now)) (λ _. no_change)
        (λ _.
          Lawful-if r.cancel_requested
            (λ _. terminate-Lawful c r r score TerminalStatus.canceled none none refl refl)
            (λ _. terminate-Lawful c r r score st res err refl refl))

  pub cancel-Lawful : (c : Codec) (score : Option ℕ) → Lawful r score (cancel_update c r)
  unfolding cancel_update is_status
  cancel-Lawful c score =
      Lawful-if (is_terminal r.status) (λ _. failure)
        (λ live.
          Lawful-if (is_status r.status TaskStatus.queued)
            (λ _. terminate-Lawful c r _ score TerminalStatus.canceled none none refl refl)
            (λ idle.
              let runs : r.status ≡ TaskStatus.processing = ground arith in
              lawful (still_running _ score runs runs refl refl refl (kept.heard runs) refl)))

  pub recover-Lawful :
      (c : Codec) (cfg : JobsSettings) (now : ℕ) (score : Option ℕ)
      → Lawful r score (recover_update c cfg now r)
  unfolding recover_update
  recover-Lawful c cfg now score =
      Lawful-if (not (is_status r.status TaskStatus.processing)) (λ _. no_change)
        (λ _.
          Lawful-if
            (before_limit now r.started_at (job_timeout cfg r.kind)
              && before_limit now r.heartbeat_at cfg.lease)
            (λ _. no_change)
            (λ _. terminate-Lawful c r r score TerminalStatus.failed none _ refl refl))

  pub claim_result-Lawful :
      (cfg : JobsSettings) (publisher : String) (now : ℕ) (score : Option ℕ)
      → Lawful r score (claim_result_update cfg publisher now r)
  unfolding claim_result_update
  claim_result-Lawful cfg publisher now score =
      Lawful-if (not (is_some r.event) || (r.published || ltb now r.publish_until)) (λ _. no_change)
        (λ e.
          let over : is_terminal r.status ≡ true = ground (arith, kept.event_iff) in
          lawful (record {
            kind = refl;
            trip = refl;
            live = λ p. p;
            running = λ p. p;
            requeued = λ p. ground arith;
            heard = kept.heard;
            started = kept.started;
            event_iff = kept.event_iff;
          }))

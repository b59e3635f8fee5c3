-- ===== src/Jobs/Sound/Methods.antt =====
-- Registration, the owner's calls, cancellation, recovery and publication keep the store sound.
use ktb4_2nd_ai.Prelude.{
  ℕ, ◌+◌, ◌≡◌, ◌≢◌, refl, String, true, false, not, ◌||◌, Option, none, some, is_some, List, [],
  ◌∷◌, arith, eq_iff, Bool-cases, Option-cases, inl, inr, sym, ap, ◌∙◌, take, some_injective,
}
use ktb4_2nd_ai.Schemas.{TaskStatus, is_terminal, ErrorBody}
use ktb4_2nd_ai.Jobs.Models.{
  JobKind, same_kind, TerminalStatus, Payload, Codec, JobRecord, JobsSettings,
}
use ktb4_2nd_ai.Jobs.Zset.{member, zrem, up_to, member-zadd, member-zrem}
use ktb4_2nd_ai.Jobs.Store.{Store, Result, ok, raised, set_job, set_latest}
use ktb4_2nd_ai.Jobs.Updates.{change, owned_by, recover_update, cancel_update}
use ktb4_2nd_ai.Jobs.Methods.{
  previous, is_live, drop_batches, enqueue, register_as, heartbeat, progress, finish, cancel,
  or_missing, recover_each, recover, claim_result, acknowledge_result,
}
use ktb4_2nd_ai.Jobs.Sound.{IsSound, IsApart, one_job-IsSound, apart-IsKept}
use ktb4_2nd_ai.Jobs.Sound.Change.{same_kind_iff, change-IsSound}
use ktb4_2nd_ai.Jobs.Sound.Updates.{
  heartbeat-Lawful, progress-Lawful, finish-Lawful, cancel-Lawful, recover-Lawful,
  claim_result-Lawful,
}

-- a record that a message brings: waiting, or ended with its event
pub record IsNew (r : JobRecord) : Type 0 where
  pub idle : r.status ≢ TaskStatus.processing
  pub event_iff : is_some r.event ≡ is_terminal r.status

-- a store that differs in the photo batches and the ignored executions only
same_jobs-IsSound :
    (s s' : Store)
    → IsSound s
    → ((j : String) → IsApart s s' j)
    → ((k : JobKind) (t : ℕ) → s'.latest k t ≡ s.latest k t)
    → IsSound s'
same_jobs-IsSound s s' h apart newest = record {
  kept = λ j r p.
      let old = h.kept j r (sym (apart j).jobs ∙ p) in
      apart-IsKept s s' j r (apart j) (λ e. newest r.kind r.trip_id ∙ old.newest e) old;
  in_queue = λ k j m.
      let (u, p, e) = h.in_queue k j (sym ((apart j).queue k) ∙ m) in (u, (apart j).jobs ∙ p, e);
}

drop_batches-IsSound :
    (id : String) (now : ℕ) (s : Store) → IsSound s → IsSound (drop_batches id now s)
unfolding drop_batches
drop_batches-IsSound id now s h =
    same_jobs-IsSound s _ h
      (λ j. record {
        jobs = refl;
        queue = λ k. refl;
        running = refl;
        pending = refl;
        slots = λ k. refl;
      })
      (λ k t. refl)

set_latest_other :
    (r u : JobRecord) (id j : String) (s : Store)
    → s.latest u.kind u.trip_id ≡ some j
    → (r.kind ≡ u.kind → r.trip_id ≢ u.trip_id)
    → set_latest r.kind r.trip_id id s.latest u.kind u.trip_id ≡ some j
set_latest_other r u id j s h other = elim (Bool-cases (same_kind r.kind u.kind)) [
  | inl e ↦
      let ne : r.trip_id ≢ u.trip_id = other (same_kind_iff r.kind u.kind e) in
      ground (arith, e, ne)
  | inr e ↦ rw e h
]

live_previous :
    (k : JobKind) (t : ℕ) (j : String) (u : JobRecord) (s : Store)
    → s.latest k t ≡ some j
    → s.jobs j ≡ some u
    → previous k t s ≡ some u
live_previous k t j u s p q = rw (p, previous) q

is_live-some : (u : JobRecord) → is_live (some u) ≡ not (is_terminal u.status)
is_live-some u = refl

enqueue-IsSound :
    (id : String) (r : JobRecord) (now : ℕ) (s : Store)
    → IsSound s
    → IsNew r
    → s.jobs id ≡ none
    → is_live (previous r.kind r.trip_id s) ≡ false
    → IsSound (enqueue id r now s)
unfolding enqueue
enqueue-IsSound id r now s h new fresh alone =
    one_job-IsSound s _ id r h
      (λ j ne. record {
        jobs = ground (arith, eq_iff id j);
        queue = λ k. ground (
          arith,
          eq_iff id j,
          same_kind_iff r.kind k,
          member-zadd id j (s.enqueue_sequence + 1) (s.queue r.kind),
        );
        running = refl;
        pending = ground (arith, eq_iff id j, member-zadd id j now s.pending);
        slots = λ k. refl;
      })
      (λ j u ne p live. set_latest_other r u id j s ((h.kept j u p).newest live) (λ k t.
        let here : s.latest r.kind r.trip_id ≡ some j = rw k (rw t ((h.kept j u p).newest live)) in
        cc (live_previous r.kind r.trip_id j u s here p, alone, live, is_live-some u)))
      (ground (arith, eq_iff id id))
      (record {
        waits = λ e. ground (
          arith,
          eq_iff id id,
          new.event_iff,
          member-zadd id id (s.enqueue_sequence + 1) (s.queue r.kind),
        );
        watched = λ e. absurd (new.idle e);
        slot = λ e. absurd (new.idle e);
        heard = λ e. absurd (new.idle e);
        started = λ e. absurd (new.idle e);
        event_iff = new.event_iff;
        result =
            λ e p. ground (arith, eq_iff id id, new.event_iff, member-zadd id id now s.pending);
        newest = λ e. ground arith;
      })
      (λ k m.
        let absent : member id (s.queue k) ≢ true =
          λ q. let (u, p, e) = h.in_queue k id q in cc (p, fresh) in
        ground (arith, absent, same_kind_iff r.kind k))

-- Registration of a waiting job, or of one that ended at its intake.
pub register-IsSound :
    (id : String) (r : JobRecord) (now : ℕ) (s : Store)
    → IsSound s
    → IsNew r
    → IsSound (register_as id r now s).1
unfolding register_as
register-IsSound id r now s h new = elim (Bool-cases (is_some (s.jobs id) || s.ignored id)) [
  | inl e ↦ rw (e, register_as) h
  | inr e ↦
      rw (e, register_as)
        (elim (Bool-cases (is_live (previous r.kind r.trip_id s))) [
          | inl busy ↦ rw busy (
              same_jobs-IsSound (drop_batches id now s) _ (drop_batches-IsSound id now s h)
                (λ j. record {
                  jobs = refl;
                  queue = λ k. refl;
                  running = refl;
                  pending = refl;
                  slots = λ k. refl;
                })
                (λ k t. refl))
          | inr alone ↦ rw alone (
              enqueue-IsSound id (record r { created_at = now }) now (drop_batches id now s)
                (drop_batches-IsSound id now s h)
                (record { idle = new.idle; event_iff = new.event_iff })
                (unfold drop_batches in ground arith) (unfold drop_batches in alone))
        ])
]

pub heartbeat-IsSound :
    (cfg : JobsSettings) (id owner : String) (now : ℕ) (s : Store)
    → IsSound s
    → IsSound (heartbeat cfg id owner now s).1
unfolding heartbeat
heartbeat-IsSound cfg id owner now s h =
    change-IsSound cfg id _ none now s h
      (λ r p. heartbeat-Lawful s id r (h.kept id r p) cfg owner now none)

pub progress-IsSound :
    (cfg : JobsSettings) (id owner step : String) (done total now : ℕ) (s : Store)
    → IsSound s
    → IsSound (progress cfg id owner step done total now s).1
unfolding progress
progress-IsSound cfg id owner step done total now s h =
    change-IsSound cfg id _ none now s h
      (λ r p. progress-Lawful s id r (h.kept id r p) cfg owner step done total now none)

pub finish-IsSound :
    (c : Codec) (cfg : JobsSettings) (id owner : String) (st : TerminalStatus)
    (res : Option Payload) (err : Option ErrorBody) (now : ℕ) (s : Store)
    → IsSound s
    → IsSound (finish c cfg id owner st res err now s).1
unfolding finish
finish-IsSound c cfg id owner st res err now s h =
    change-IsSound cfg id _ none now s h
      (λ r p. finish-Lawful s id r (h.kept id r p) c cfg owner st res err now none)

pub claim_result-IsSound :
    (cfg : JobsSettings) (id publisher : String) (now : ℕ) (s : Store)
    → IsSound s
    → IsSound (claim_result cfg id publisher now s).1
unfolding claim_result
claim_result-IsSound cfg id publisher now s h =
    change-IsSound cfg id _ none now s h
      (λ r p. claim_result-Lawful s id r (h.kept id r p) cfg publisher now none)

recover_each-IsSound :
    (c : Codec) (cfg : JobsSettings) (ids : List String) (now : ℕ) (s : Store)
    → IsSound s
    → IsSound (recover_each c cfg ids now s)
unfolding recover_each
recover_each-IsSound c cfg [] now s h = h
recover_each-IsSound c cfg (id ∷ ids) now s h = recover_each-IsSound c cfg ids now _ (
    change-IsSound cfg id (recover_update c cfg now) none now s h
      (λ r p. recover-Lawful s id r (h.kept id r p) c cfg now none))

pub recover-IsSound :
    (c : Codec) (cfg : JobsSettings) (now : ℕ) (s : Store)
    → IsSound s
    → IsSound (recover c cfg now s)
unfolding recover
recover-IsSound c cfg now s h = recover_each-IsSound c cfg (take 100 (up_to now s.running)) now s h

or_missing-state : (r : Result (Option JobRecord)) (s : Store) → (or_missing (r, s)).1 ≡ s
unfolding or_missing
or_missing-state (raised e) s = refl
or_missing-state (ok none) s = refl
or_missing-state (ok (some r)) s = refl

pub cancel-IsSound :
    (c : Codec) (cfg : JobsSettings) (k : JobKind) (trip now : ℕ) (s : Store)
    → IsSound s
    → IsSound (cancel c cfg k trip now s).1
unfolding cancel
cancel-IsSound c cfg k trip now s h = elim (Option-cases (s.latest k trip)) [
  | inl e ↦ rw (e, cancel) h
  | inr (id, e) ↦
      rw (e, cancel)
        (elim (Option-cases (s.jobs id)) [
          | inl p ↦ rw p h
          | inr (r, p) ↦
              let out = change cfg id (cancel_update c) none now s in
              rw p (
                rw (or_missing-state out.0 out.1) (
                  change-IsSound cfg id (cancel_update c) none now s h
                    (λ u q. cancel-Lawful s id u (h.kept id u q) c none)))
        ])
]

-- a published result leaves the pending ones
publish-IsSound :
    (id : String) (r : JobRecord) (s : Store)
    → IsSound s
    → s.jobs id ≡ some r
    → IsSound (record s {
      jobs = set_job id (record r { published = true }) s.jobs;
      pending = zrem id s.pending;
    })
publish-IsSound id r s h found =
    let old = h.kept id r found in
    one_job-IsSound s _ id (record r { published = true }) h
      (λ j ne. record {
        jobs = ground (arith, eq_iff id j);
        queue = λ k. refl;
        running = refl;
        pending = ground (arith, eq_iff id j, member-zrem id j s.pending);
        slots = λ k. refl;
      })
      (λ j u ne p live. (h.kept j u p).newest live) (ground (arith, eq_iff id id))
      (record {
        waits = old.waits;
        watched = old.watched;
        slot = old.slot;
        heard = old.heard;
        started = old.started;
        event_iff = old.event_iff;
        result = λ e p. absurd (cc);
        newest = old.newest;
      })
      (λ k m.
        let (u, p, e) = h.in_queue k id m in
        ap (λ (x : JobRecord). x.kind) (some_injective (sym found ∙ p)) ∙ e)

pub acknowledge_result-IsSound :
    (id publisher : String) (s : Store) → IsSound s → IsSound (acknowledge_result id publisher s)
unfolding acknowledge_result
acknowledge_result-IsSound id publisher s h = elim (Option-cases (s.jobs id)) [
  | inl e ↦ rw (e, acknowledge_result) h
  | inr (r, e) ↦
      rw (e, acknowledge_result)
        (elim (Bool-cases (owned_by r.publish_owner publisher)) [
          | inl q ↦ rw q (publish-IsSound id r s h e)
          | inr q ↦ rw q h
        ])
]

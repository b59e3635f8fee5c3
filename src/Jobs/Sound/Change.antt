-- ===== src/Jobs/Sound/Change.antt =====
-- The transaction of `change` keeps the store sound, for every lawful update.
use ktb4_2nd_ai.Prelude.{
  ℕ, ◌≡◌, ◌≢◌, refl, String, Bool, true, false, Option, none, some, is_some, arith, eq_iff,
  Bool-cases, Option-cases, inl, inr, sym, ap, ◌∙◌, max, some_injective,
}
use ktb4_2nd_ai.Schemas.{TaskStatus, is_terminal}
use ktb4_2nd_ai.Jobs.Models.{JobKind, same_kind, JobRecord, JobsSettings}
use ktb4_2nd_ai.Jobs.Zset.{member, member-zadd, member-zrem}
use ktb4_2nd_ai.Jobs.Store.{Failure, Store}
use ktb4_2nd_ai.Jobs.Updates.{
  Update, changed, unchanged, failing, settle, deadline, requeue, watch, commit, applied, change,
}
use ktb4_2nd_ai.Jobs.Sound.{IsSound, IsApart, one_job-IsSound, occupies-release}

-- A lawful update keeps the job's key fields, never revives an ended job nor starts a waiting one,
-- and stores an event exactly when it ends the job.
pub record IsLawful (r r' : JobRecord) (score : Option ℕ) : Type 0 where
  pub kind : r'.kind ≡ r.kind
  pub trip : r'.trip_id ≡ r.trip_id
  pub live : is_terminal r'.status ≡ false → is_terminal r.status ≡ false
  pub running : r'.status ≡ TaskStatus.processing → r.status ≡ TaskStatus.processing
  pub requeued : r'.status ≡ TaskStatus.queued → is_some score ≡ true
  pub heard : r'.status ≡ TaskStatus.processing → is_some r'.heartbeat_at ≡ true
  pub started : r'.status ≡ TaskStatus.processing → is_some r'.started_at ≡ true
  pub event_iff : is_some r'.event ≡ is_terminal r'.status

pub data Lawful (r : JobRecord) (score : Option ℕ) : Update → Type 0 where
  lawful : {r' : JobRecord} → IsLawful r r' score → Lawful r score (changed r')
  no_change : Lawful r score unchanged
  failure : {e : Failure} → Lawful r score (failing e)

pub same_kind_iff : (a b : JobKind) → same_kind a b ≡ true → a ≡ b
same_kind_iff a b h = ground arith

module _ (s : Store) (id : String) (r' : JobRecord) where
  settle-IsApart :
      (was : Bool) (now : ℕ) (j : String) → j ≢ id → IsApart s (settle r' was id now s) j
  unfolding settle
  settle-IsApart was now j ne = record {
    jobs = ground (arith, eq_iff id j);
    queue = λ k.
        ground (arith, eq_iff id j, member-zrem id j (s.queue r'.kind), same_kind_iff r'.kind k);
    running = ground (arith, eq_iff id j, member-zrem id j s.running);
    pending = ground (arith, eq_iff id j, member-zadd id j (max now r'.publish_until) s.pending);
    slots = λ k.
        ground
          (arith, eq_iff id j, occupies-release id j (s.slots r'.kind), same_kind_iff r'.kind k);
  }

  requeue-IsApart : (score : Option ℕ) (j : String) → j ≢ id → IsApart s (requeue r' id score s) j
  unfolding requeue
  requeue-IsApart none j ne = record {
    jobs = ground (arith, eq_iff id j);
    queue = λ k. refl;
    running = refl;
    pending = refl;
    slots = λ k. refl;
  }
  requeue-IsApart (some x) j ne = record {
    jobs = ground (arith, eq_iff id j);
    queue = λ k.
        ground (arith, eq_iff id j, member-zadd id j x (s.queue r'.kind), same_kind_iff r'.kind k);
    running = ground (arith, eq_iff id j, member-zrem id j s.running);
    pending = refl;
    slots = λ k.
        ground
          (arith, eq_iff id j, occupies-release id j (s.slots r'.kind), same_kind_iff r'.kind k);
  }

module _ (cfg : JobsSettings) (s : Store) (id : String) (r r' : JobRecord) (score : Option ℕ)
    (now : ℕ) (h : IsSound s) (found : s.jobs id ≡ some r) (l : IsLawful r r' score) where
  -- an unfinished record stays the latest of its trip
  still_newest : is_terminal r'.status ≡ false → s.latest r'.kind r'.trip_id ≡ some id
  still_newest live = rw l.kind (rw l.trip ((h.kept id r found).newest (l.live live)))

  others_newest :
      (j : String) (u : JobRecord)
      → j ≢ id
      → s.jobs j ≡ some u
      → is_terminal u.status ≡ false
      → s.latest u.kind u.trip_id ≡ some j
  others_newest j u ne p live = (h.kept j u p).newest live

  same_queue : (k : JobKind) → member id (s.queue k) ≡ true → r'.kind ≡ k
  same_queue k m =
      let (u, p, e) = h.in_queue k id m in
      l.kind ∙ ap (λ (x : JobRecord). x.kind) (some_injective (sym found ∙ p)) ∙ e

  settle-IsSound : (was : Bool) → is_terminal r'.status ≡ true → IsSound (settle r' was id now s)
  settle-IsSound was over =
      one_job-IsSound s (settle r' was id now s) id r' h (settle-IsApart s id r' was now)
        (unfold settle in others_newest) (unfold settle in ground (arith, eq_iff id id))
        (unfold settle in
          record {
            waits = λ e. ground arith;
            watched = λ e. ground arith;
            slot = λ e. ground arith;
            heard = l.heard;
            started = l.started;
            event_iff = l.event_iff;
            result = λ e p.
                ground
                  (arith, eq_iff id id, member-zadd id id (max now r'.publish_until) s.pending);
            newest = still_newest;
          })
        (λ k m. same_queue k (
          unfold settle in
          ground
            (arith, member-zrem id id (s.queue r'.kind), same_kind_iff r'.kind k, eq_iff id id)))

  requeue-IsSound : r'.status ≡ TaskStatus.queued → IsSound (requeue r' id score s)
  requeue-IsSound waits = elim (Option-cases score) [
    | inl e ↦ absurd (cc (e, l.requeued waits))
    | inr (x, e) ↦ rw e (
        one_job-IsSound s (requeue r' id (some x) s) id r' h (requeue-IsApart s id r' (some x))
          (unfold requeue in others_newest) (unfold requeue in ground (arith, eq_iff id id))
          (unfold requeue in
            record {
              waits = λ p. ground (arith, eq_iff id id, member-zadd id id x (s.queue r'.kind));
              watched = λ p. ground arith;
              slot = λ p. ground arith;
              heard = l.heard;
              started = l.started;
              event_iff = l.event_iff;
              result = λ p q. ground arith;
              newest = still_newest;
            })
          (λ k m. elim (Bool-cases (same_kind r'.kind k)) [
            | inl q ↦ same_kind_iff r'.kind k q
            | inr q ↦ same_queue k (unfold requeue in ground (arith, q))
          ]))
  ]

  watch-IsSound : (d : Option ℕ) → r'.status ≡ TaskStatus.processing → IsSound (watch d r' id s).1
  unfolding watch
  watch-IsSound none runs = h
  watch-IsSound (some d) runs =
      let old = h.kept id r found in
      one_job-IsSound s (watch (some d) r' id s).1 id r' h
        (λ j ne. record {
          jobs = ground (arith, eq_iff id j);
          queue = λ k. refl;
          running = ground (arith, eq_iff id j, member-zadd id j d s.running);
          pending = refl;
          slots = λ k. refl;
        })
        others_newest (ground (arith, eq_iff id id))
        (record {
          waits = λ p. ground arith;
          watched = λ p. ground (arith, eq_iff id id, member-zadd id id d s.running);
          slot = λ p. rw l.kind (old.slot (l.running p));
          heard = l.heard;
          started = l.started;
          event_iff = l.event_iff;
          result = λ p q. ground arith;
          newest = still_newest;
        })
        same_queue

  commit-IsSound :
      (st : TaskStatus) (was : Bool)
      → r'.status ≡ st
      → IsSound (commit cfg st r' was id score now s).1
  unfolding commit
  commit-IsSound TaskStatus.queued was e = requeue-IsSound e
  commit-IsSound TaskStatus.processing was e = watch-IsSound (deadline cfg r') e
  commit-IsSound TaskStatus.completed was e = settle-IsSound was (ground arith)
  commit-IsSound TaskStatus.failed was e = settle-IsSound was (ground arith)
  commit-IsSound TaskStatus.canceled was e = settle-IsSound was (ground arith)

applied-IsSound :
    (cfg : JobsSettings) (s : Store) (id : String) (r : JobRecord) (score : Option ℕ) (now : ℕ)
    → IsSound s
    → s.jobs id ≡ some r
    → (u : Update) → Lawful r score u
    → IsSound (applied cfg u (is_terminal r.status) id score now s).1
unfolding applied
applied-IsSound cfg s id r score now h found _ no_change = h
applied-IsSound cfg s id r score now h found _ failure = h
applied-IsSound cfg s id r score now h found _ (lawful {r' = r'} l) =
    commit-IsSound cfg s id r r' score now h found l r'.status (is_terminal r.status) refl

-- `change` keeps a sound store sound where its update is lawful for the record that it finds.
pub change-IsSound :
    (cfg : JobsSettings) (id : String) (update : JobRecord → Update) (score : Option ℕ) (now : ℕ)
    (s : Store)
    → IsSound s
    → ((r : JobRecord) → s.jobs id ≡ some r → Lawful r score (update r))
    → IsSound (change cfg id update score now s).1
unfolding change
change-IsSound cfg id update score now s h each = elim (Option-cases (s.jobs id)) [
  | inl e ↦ rw (e, change) h
  | inr (r, e) ↦ rw (e, change) (applied-IsSound cfg s id r score now h e (update r) (each r e))
]

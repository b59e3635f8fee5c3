-- ===== src/Jobs/Sound.antt =====
-- What holds of the Redis keys between two transactions, and how a transaction about one job keeps
-- it of the others.
pub mod Change
pub mod Updates
pub mod Claim
pub mod Methods
use ktb4_2nd_ai.Prelude.{
  ℕ, ◌≡◌, ◌≢◌, refl, String, Bool, true, false, not, ◌&&◌, ◌||◌, Option, none, some, is_some, List,
  [], ◌∷◌, arith, str_eq, eq_iff, if◌then◌else◌, Bool-cases, inl, inr, subst, sym, ap, ◌∙◌,
  some_injective,
}
use ktb4_2nd_ai.Schemas.{TaskStatus, is_terminal}
use ktb4_2nd_ai.Jobs.Models.{JobKind, JobRecord}
use ktb4_2nd_ai.Jobs.Zset.{member}
use ktb4_2nd_ai.Jobs.Store.{Store, holds, release, occupies}

-- The keys agree with the record `r` of the job `id`: a QUEUED job waits in the queue of its kind, a
-- PROCESSING one is watched, holds a slot and has its times, an ended one has its event and stays
-- among the pending results until it is published, and an unfinished one is the latest of its trip.
pub record IsKept (s : Store) (id : String) (r : JobRecord) : Type 0 where
  pub waits : r.status ≡ TaskStatus.queued → member id (s.queue r.kind) ≡ true
  pub watched : r.status ≡ TaskStatus.processing → member id s.running ≡ true
  pub slot : r.status ≡ TaskStatus.processing → occupies id (s.slots r.kind) ≡ true
  pub heard : r.status ≡ TaskStatus.processing → is_some r.heartbeat_at ≡ true
  pub started : r.status ≡ TaskStatus.processing → is_some r.started_at ≡ true
  pub event_iff : is_some r.event ≡ is_terminal r.status
  pub result : is_terminal r.status ≡ true → r.published ≡ false → member id s.pending ≡ true
  pub newest : is_terminal r.status ≡ false → s.latest r.kind r.trip_id ≡ some id

pub record IsSound (s : Store) : Type 0 where
  pub kept : (id : String) (r : JobRecord) → s.jobs id ≡ some r → IsKept s id r
  pub in_queue :
      (k : JobKind) (id : String)
      → member id (s.queue k) ≡ true
      → (r : JobRecord) × (s.jobs id ≡ some r) × (r.kind ≡ k)

-- the transaction leaves the keys of the job `j` as they are
pub record IsApart (s s' : Store) (j : String) : Type 0 where
  pub jobs : s'.jobs j ≡ s.jobs j
  pub queue : (k : JobKind) → member j (s'.queue k) ≡ member j (s.queue k)
  pub running : member j s'.running ≡ member j s.running
  pub pending : member j s'.pending ≡ member j s.pending
  pub slots : (k : JobKind) → occupies j (s'.slots k) ≡ occupies j (s.slots k)

pub apart-IsKept :
    (s s' : Store) (j : String) (r : JobRecord)
    → IsApart s s' j
    → (is_terminal r.status ≡ false → s'.latest r.kind r.trip_id ≡ some j)
    → IsKept s j r
    → IsKept s' j r
apart-IsKept s s' j r a newest h = record {
  waits = λ e. a.queue r.kind ∙ h.waits e;
  watched = λ e. a.running ∙ h.watched e;
  slot = λ e. a.slots r.kind ∙ h.slot e;
  heard = h.heard;
  started = h.started;
  event_iff = h.event_iff;
  result = λ e p. a.pending ∙ h.result e p;
  newest = newest;
}

-- A transaction about the job `id` alone: the rest is apart, and the job's new record is kept.
pub one_job-IsSound :
    (s s' : Store) (id : String) (r : JobRecord)
    → IsSound s
    → ((j : String) → j ≢ id → IsApart s s' j)
    → ((j : String) (u : JobRecord)
        → j ≢ id
        → s.jobs j ≡ some u
        → is_terminal u.status ≡ false
        → s'.latest u.kind u.trip_id ≡ some j)
    → s'.jobs id ≡ some r
    → IsKept s' id r
    → ((k : JobKind) → member id (s'.queue k) ≡ true → r.kind ≡ k)
    → IsSound s'
one_job-IsSound s s' id r h apart newest here kept queued = record {
  kept = λ j u p. elim (Bool-cases (str_eq j id)) [
    | inl e ↦
        let same : j ≡ id = (eq_iff j id).0 e in
        let mine : r ≡ u = some_injective (sym here ∙ ap s'.jobs (sym same) ∙ p) in
        subst (λ x. IsKept s' x u) (sym same) (subst (IsKept s' id) mine kept)
    | inr e ↦
        let ne : j ≢ id = λ q. cc (e, (eq_iff j id).1 q) in
        let a = apart j ne in
        let old : s.jobs j ≡ some u = sym a.jobs ∙ p in
        apart-IsKept s s' j u a (newest j u ne old) (h.kept j u old)
  ];
  in_queue = λ k j m. elim (Bool-cases (str_eq j id)) [
    | inl e ↦
        let same : j ≡ id = (eq_iff j id).0 e in
        (r, ap s'.jobs same ∙ here, queued k (subst (λ x. member x (s'.queue k) ≡ true) same m))
    | inr e ↦
        let a = apart j (λ q. cc (e, (eq_iff j id).1 q)) in
        let (u, there, kind) = h.in_queue k j (sym (a.queue k) ∙ m) in (u, a.jobs ∙ there, kind)
  ];
}

pub occupies-release :
    (id j : String) (os : List (Option String))
    → occupies j (release id os) ≡ (not (str_eq id j) && occupies j os)
unfolding occupies release
occupies-release id j [] = ground arith
occupies-release id j (none ∷ os) = ground (arith, occupies-release id j os)
occupies-release id j (some o ∷ os) =
    ground (arith, occupies-release id j os, eq_iff o id, eq_iff o j, eq_iff id j)

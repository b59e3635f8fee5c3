-- ===== src/Jobs/Slots.antt =====
-- The number of slots of a kind never changes, so one kind runs at most that many jobs at once
-- (app/jobs/redis_store.py).
use ktb4_2nd_ai.Prelude.{
  ℕ, ◌≡◌, refl, String, Bool, true, Option, none, some, List, [], ◌∷◌, arith, length, take, subst,
  eq_iff, ◌∙◌, ap, Option-cases, inl, inr,
}
use ktb4_2nd_ai.Schemas.{TaskStatus, is_terminal}
use ktb4_2nd_ai.Jobs.Models.{JobKind, process, Codec, JobRecord, JobsSettings}
use ktb4_2nd_ai.Jobs.Zset.{first, up_to}
use ktb4_2nd_ai.Jobs.Store.{Store, Result, ok, raised, release, occupies}
use ktb4_2nd_ai.Jobs.Updates.{
  Update, changed, unchanged, failing, settle, requeue, watch, deadline, commit, applied, change,
  return_update, heartbeat_update, progress_update, finish_update, cancel_update, recover_update,
  claim_result_update,
}
use ktb4_2nd_ai.Jobs.Methods.{
  drop_batches, enqueue, register_as, return_unstarted, heartbeat, progress, finish, or_missing,
  cancel, recover_each, recover, claim_result, acknowledge_result,
}
use ktb4_2nd_ai.Jobs.Claim.{drop_stale, occupy, take_over, take_waiting, take_first, attempt}
use ktb4_2nd_ai.Jobs.Guarantees.{processing_watched}
use ktb4_2nd_ai.Jobs.Photos.{claim_batch}
use ktb4_2nd_ai.Jobs.Photos.Apart.{stage-IsSameJobs}
use ktb4_2nd_ai.Jobs.Steps.{
  empty, Step, Reach, registered, attempted, returned, beat, progressed, finished, canceled,
  recovered, result_claimed, acknowledged, photos_staged, batch_claimed, here, next,
}

length-release : (id : String) (os : List (Option String)) → length (release id os) ≡ length os
unfolding release
length-release id [] = refl
length-release id (o ∷ os) = ground (arith, length-release id os)

length-drop_stale : (s : Store) (os : List (Option String)) → length (drop_stale s os) ≡ length os
unfolding drop_stale
length-drop_stale s [] = refl
length-drop_stale s (o ∷ os) = ground (arith, length-drop_stale s os)

length-occupy :
    (id : String) (os rest : List (Option String))
    → occupy id os ≡ some rest
    → length rest ≡ length os
unfolding occupy
length-occupy id [] rest e = absurd (cc)
length-occupy id (none ∷ os) rest e = ground arith
length-occupy id (some o ∷ os) rest e = elim (Option-cases (occupy id os)) [
  | inl n ↦ absurd (ground (arith, n))
  | inr (w, p) ↦ ground (arith, length-occupy id os w p)
]

-- as many slots of every kind
SameSlots : Store → Store → Type 0
SameSlots s t = (k : JobKind) → length (t.slots k) ≡ length (s.slots k)

same_settle :
    (r : JobRecord) (was : Bool) (id : String) (now : ℕ) (s : Store)
    → SameSlots s (settle r was id now s)
unfolding SameSlots settle
same_settle r was id now s k = ground (arith, length-release id (s.slots r.kind))

same_requeue :
    (r : JobRecord) (id : String) (score : Option ℕ) (s : Store)
    → SameSlots s (requeue r id score s)
unfolding SameSlots requeue
same_requeue r id none s k = refl
same_requeue r id (some n) s k = ground (arith, length-release id (s.slots r.kind))

same_watch :
    (d : Option ℕ) (r : JobRecord) (id : String) (s : Store) → SameSlots s (watch d r id s).1
unfolding SameSlots watch
same_watch none r id s k = refl
same_watch (some n) r id s k = refl

same_commit :
    (cfg : JobsSettings) (st : TaskStatus) (r : JobRecord) (was : Bool) (id : String)
    (score : Option ℕ) (now : ℕ) (s : Store)
    → SameSlots s (commit cfg st r was id score now s).1
unfolding commit
same_commit cfg TaskStatus.queued r was id score now s = same_requeue r id score s
same_commit cfg TaskStatus.processing r was id score now s = same_watch (deadline cfg r) r id s
same_commit cfg TaskStatus.completed r was id score now s = same_settle r was id now s
same_commit cfg TaskStatus.failed r was id score now s = same_settle r was id now s
same_commit cfg TaskStatus.canceled r was id score now s = same_settle r was id now s

same_applied :
    (cfg : JobsSettings) (u : Update) (was : Bool) (id : String) (score : Option ℕ) (now : ℕ)
    (s : Store)
    → SameSlots s (applied cfg u was id score now s).1
unfolding applied SameSlots
same_applied cfg unchanged was id score now s k = refl
same_applied cfg (failing e) was id score now s k = refl
same_applied cfg (changed r) was id score now s k = same_commit cfg r.status r was id score now s k

same_change :
    (cfg : JobsSettings) (id : String) (update : JobRecord → Update) (score : Option ℕ) (now : ℕ)
    (s : Store)
    → SameSlots s (change cfg id update score now s).1
unfolding SameSlots change
same_change cfg id update score now s k = elim (Option-cases (s.jobs id)) [
  | inl e ↦ rw (change, e) refl
  | inr (r, e) ↦
      rw (change, e) (same_applied cfg (update r) (is_terminal r.status) id score now s k)
]

same_take_waiting :
    (cfg : JobsSettings) (q : JobKind) (owner : String) (stop : Bool) (id : String) (score : ℕ)
    (r : JobRecord) (now : ℕ) (s : Store)
    → SameSlots s (take_waiting cfg q owner stop id score r now s).1
unfolding SameSlots take_waiting take_over
same_take_waiting cfg q owner stop id score r now s k =
    elim (Option-cases (occupy id (s.slots q))) [
      | inl e ↦ ground (arith, e)
      | inr (rest, e) ↦ ground (arith, e, length-occupy id (s.slots q) rest e)
    ]

same_take_first :
    (cfg : JobsSettings) (q : JobKind) (owner : String) (stop : Bool) (e : Option (String × ℕ))
    (now : ℕ) (s : Store)
    → SameSlots s (take_first cfg q owner stop e now s).1
unfolding SameSlots take_first
same_take_first cfg q owner stop none now s k = refl
same_take_first cfg q owner stop (some (id, score)) now s k = elim (Option-cases (s.jobs id)) [
  | inl e ↦ ground (arith, e)
  | inr (r, e) ↦ ground (arith, e, same_take_waiting cfg q owner stop id score r now s k)
]

same_attempt :
    (cfg : JobsSettings) (q : JobKind) (owner : String) (stop : Bool) (now : ℕ) (s : Store)
    → SameSlots s (attempt cfg q owner stop now s).1
unfolding SameSlots attempt
same_attempt cfg q owner stop now s k = ground (
  arith,
  length-drop_stale s (s.slots q),
  same_take_first cfg q owner stop (first (s.queue q)) now s k,
)

same_register :
    (id : String) (r : JobRecord) (now : ℕ) (s : Store) → SameSlots s (register_as id r now s).1
unfolding SameSlots register_as drop_batches enqueue
same_register id r now s k = ground arith

same_or_missing :
    (p : Result (Option JobRecord) × Store) (s : Store)
    → SameSlots s p.1
    → SameSlots s (or_missing p).1
unfolding or_missing
same_or_missing (raised e, t) s h = h
same_or_missing (ok none, t) s h = h
same_or_missing (ok (some r), t) s h = h

same_cancel :
    (c : Codec) (cfg : JobsSettings) (q : JobKind) (trip now : ℕ) (s : Store)
    → SameSlots s (cancel c cfg q trip now s).1
unfolding SameSlots cancel
same_cancel c cfg q trip now s k = elim (Option-cases (s.latest q trip)) [
  | inl e ↦ ground (arith, e)
  | inr (id, e) ↦ elim (Option-cases (s.jobs id)) [
    | inl n ↦ ground (arith, e, n)
    | inr (r, n) ↦ ground (
      arith,
      e,
      n,
      same_or_missing (change cfg id (cancel_update c) none now s) s
          (same_change cfg id (cancel_update c) none now s) k,
    )
  ]
]

same_recover_each :
    (c : Codec) (cfg : JobsSettings) (ids : List String) (now : ℕ) (s : Store)
    → SameSlots s (recover_each c cfg ids now s)
unfolding SameSlots recover_each
same_recover_each c cfg [] now s k = refl
same_recover_each c cfg (id ∷ ids) now s k =
    same_recover_each c cfg ids now (change cfg id (recover_update c cfg now) none now s).1 k
    ∙ same_change cfg id (recover_update c cfg now) none now s k

same_acknowledge :
    (id publisher : String) (s : Store) → SameSlots s (acknowledge_result id publisher s)
unfolding SameSlots acknowledge_result
same_acknowledge id publisher s k = elim (Option-cases (s.jobs id)) [
  | inl e ↦ ground (arith, e)
  | inr (r, e) ↦ ground (arith, e)
]

Step-SameSlots : {c : Codec} {cfg : JobsSettings} {s t : Store} → Step c cfg s t → SameSlots s t
unfolding return_unstarted heartbeat progress finish claim_result recover claim_batch SameSlots
Step-SameSlots {c} {cfg} {s} (registered id r now new) = same_register id r now s
Step-SameSlots {c} {cfg} {s} (attempted k owner stop now) = same_attempt cfg k owner stop now s
Step-SameSlots {c} {cfg} {s} (returned id owner score now) =
    same_change cfg id (return_update c cfg owner now) (some score) now s
Step-SameSlots {c} {cfg} {s} (beat id owner now) =
    same_change cfg id (heartbeat_update cfg owner now) none now s
Step-SameSlots {c} {cfg} {s} (progressed id owner step done total now) =
    same_change cfg id (progress_update cfg owner step done total now) none now s
Step-SameSlots {c} {cfg} {s} (finished id owner st res err now) =
    same_change cfg id (finish_update c cfg owner st res err now) none now s
Step-SameSlots {c} {cfg} {s} (canceled k trip now) = same_cancel c cfg k trip now s
Step-SameSlots {c} {cfg} {s} (recovered now) =
    same_recover_each c cfg (take 100 (up_to now s.running)) now s
Step-SameSlots {c} {cfg} {s} (result_claimed id publisher now) =
    same_change cfg id (claim_result_update cfg publisher now) none now s
Step-SameSlots {c} {cfg} {s} (acknowledged id publisher) = same_acknowledge id publisher s
Step-SameSlots {c} {cfg} {s} (photos_staged size m topic now) =
    λ k. ap (λ z. length (z k)) (stage-IsSameJobs size cfg m topic now s).slots
Step-SameSlots {c} {cfg} {s} (batch_claimed now) = λ k. refl

-- The number of slots of a kind is the same in every reachable state.
pub Reach-slots :
    {c : Codec} {cfg : JobsSettings} {s t : Store}
    → Reach c cfg s t
    → (k : JobKind) → length (t.slots k) ≡ length (s.slots k)
unfolding SameSlots
Reach-slots here k = refl
Reach-slots (next r st) k = Step-SameSlots st k ∙ Reach-slots r k

one_slot :
    (os : List (Option String)) (i j : String)
    → length os ≡ 1
    → occupies i os ≡ true
    → occupies j os ≡ true
    → i ≡ j
unfolding occupies
one_slot [] i j len oi oj = absurd (cc)
one_slot (none ∷ []) i j len oi oj = absurd (cc)
one_slot (some o ∷ []) i j len oi oj = ground (arith, eq_iff o i, eq_iff o j)
one_slot (o ∷ p ∷ os) i j len oi oj = absurd (ground arith)

-- In a reachable state at most one process job is PROCESSING, whatever the number of workers, their
-- crashes and their races.
pub one_processing :
    {c : Codec} {cfg : JobsSettings} {s : Store} (i j : String) (r u : JobRecord)
    → Reach c cfg empty s
    → s.jobs i ≡ some r
    → s.jobs j ≡ some u
    → r.kind ≡ process
    → u.kind ≡ process
    → r.status ≡ TaskStatus.processing
    → u.status ≡ TaskStatus.processing
    → i ≡ j
one_processing {s} i j r u reach pi pj kr ku sr su =
    let (_, a) = processing_watched i r reach pi sr in
    let (_, b) = processing_watched j u reach pj su in
    one_slot (s.slots process) i j (Reach-slots reach process)
      (subst (λ k. occupies i (s.slots k) ≡ true) kr a)
      (subst (λ k. occupies j (s.slots k) ≡ true) ku b)

-- ===== src/Jobs/Guarantees.antt =====
-- What every reachable state of the store promises (app/jobs/redis_store.py): results, queues,
-- slots and the one unfinished job of a trip.
use ktb4_2nd_ai.Prelude.{◌≡◌, String, true, false, some, is_some, sym, ◌∙◌, some_injective, ap}
use ktb4_2nd_ai.Schemas.{TaskStatus, is_terminal}
use ktb4_2nd_ai.Jobs.Models.{Codec, JobRecord, JobsSettings}
use ktb4_2nd_ai.Jobs.Zset.{member}
use ktb4_2nd_ai.Jobs.Store.{Store, occupies}
use ktb4_2nd_ai.Jobs.Sound.{IsSound}
use ktb4_2nd_ai.Jobs.Steps.{empty, Reach, empty-IsSound, Reach-IsSound}

-- In every state that any interleaving of the store's transactions reaches from an empty Redis, the
-- keys agree with the records (`IsSound`).
pub reachable-IsSound :
    {c : Codec} {cfg : JobsSettings} {s : Store} → Reach c cfg empty s → IsSound s
reachable-IsSound r = Reach-IsSound r empty-IsSound

-- In a reachable state a job that has ended and is not yet published has its event and stays among
-- the pending results: no result is lost.
pub result_kept :
    {c : Codec} {cfg : JobsSettings} {s : Store} (id : String) (r : JobRecord)
    → Reach c cfg empty s
    → s.jobs id ≡ some r
    → is_terminal r.status ≡ true
    → r.published ≡ false
    → (is_some r.event ≡ true) × (member id s.pending ≡ true)
result_kept {s} id r reach here over unpublished =
    let k = (reachable-IsSound reach).kept id r here in
    (k.event_iff ∙ over, k.result over unpublished)

-- In a reachable state a QUEUED job waits in the queue of its kind: no job is forgotten.
pub queued_waits :
    {c : Codec} {cfg : JobsSettings} {s : Store} (id : String) (r : JobRecord)
    → Reach c cfg empty s
    → s.jobs id ≡ some r
    → r.status ≡ TaskStatus.queued
    → member id (s.queue r.kind) ≡ true
queued_waits id r reach here st = ((reachable-IsSound reach).kept id r here).waits st

-- In a reachable state a PROCESSING job stands among the running ones, which `recover` reads, and
-- holds a slot of its kind.
pub processing_watched :
    {c : Codec} {cfg : JobsSettings} {s : Store} (id : String) (r : JobRecord)
    → Reach c cfg empty s
    → s.jobs id ≡ some r
    → r.status ≡ TaskStatus.processing
    → (member id s.running ≡ true) × (occupies id (s.slots r.kind) ≡ true)
processing_watched id r reach here st =
    let k = (reachable-IsSound reach).kept id r here in (k.watched st, k.slot st)

-- In a reachable state two unfinished jobs of one kind and one trip are the same job.
pub one_unfinished :
    {c : Codec} {cfg : JobsSettings} {s : Store} (i j : String) (r u : JobRecord)
    → Reach c cfg empty s
    → s.jobs i ≡ some r
    → s.jobs j ≡ some u
    → is_terminal r.status ≡ false
    → is_terminal u.status ≡ false
    → r.kind ≡ u.kind
    → r.trip_id ≡ u.trip_id
    → i ≡ j
one_unfinished {s} i j r u reach pi pj open_r open_u kinds trips =
    let h = reachable-IsSound reach in
    some_injective (
      sym ((h.kept i r pi).newest open_r)
      ∙ ap (λ k. s.latest k r.trip_id) kinds
      ∙ ap (s.latest u.kind) trips
      ∙ (h.kept j u pj).newest open_u)

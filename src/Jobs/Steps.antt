-- ===== src/Jobs/Steps.antt =====
-- Any number of API replicas, runners and publishers on one Redis: each transaction is a step, in
-- any order, at any time, by anyone.
use ktb4_2nd_ai.Prelude.{ℕ, String, Bool, false, Option, none, List, [], ◌∷◌}
use ktb4_2nd_ai.Schemas.{ErrorBody}
use ktb4_2nd_ai.Jobs.Models.{
  JobKind, process, story, TerminalStatus, Payload, Codec, JobRecord, JobsSettings,
}
use ktb4_2nd_ai.Jobs.Zset.{member}
use ktb4_2nd_ai.Jobs.Store.{PhotoBatchBuffer, Store}
use ktb4_2nd_ai.Jobs.Methods.{
  register_as, return_unstarted, heartbeat, progress, finish, cancel, recover, claim_result,
  acknowledge_result,
}
use ktb4_2nd_ai.Jobs.Claim.{attempt}
use ktb4_2nd_ai.Jobs.Photos.{PhotosReadyMessage, stage_photos, claim_batch}
use ktb4_2nd_ai.Jobs.Photos.Apart.{photos-IsSound, stage-IsSameJobs, claim_batch-IsSameJobs}
use ktb4_2nd_ai.Jobs.Sound.{IsSound}
use ktb4_2nd_ai.Jobs.Sound.Claim.{attempt-IsSound, return_unstarted-IsSound}
use ktb4_2nd_ai.Jobs.Sound.Methods.{
  IsNew, register-IsSound, heartbeat-IsSound, progress-IsSound, finish-IsSound, cancel-IsSound,
  recover-IsSound, claim_result-IsSound, acknowledge_result-IsSound,
}

-- Redis before the first message: one slot for processing and four for stories
abbrev pub no_slots : JobKind → List (Option String)
no_slots process = none ∷ []
no_slots story = none ∷ none ∷ none ∷ none ∷ []

abbrev pub empty : Store
empty = record {
  jobs = λ id. none;
  ignored = λ id. false;
  latest = λ k t. none;
  enqueue_sequence = 0;
  queue = λ k. [];
  running = [];
  pending = [];
  slots = no_slots;
  photo_batches = λ id. none;
  batch_queue = [];
  operations = λ f. 0;
}

pub data Step (c : Codec) (cfg : JobsSettings) (s : Store) : Store → Type 0 where
  registered :
      (id : String) (r : JobRecord) (now : ℕ) → IsNew r → Step c cfg s (register_as id r now s).1
  attempted :
      (k : JobKind) (owner : String) (stop : Bool) (now : ℕ)
      → Step c cfg s (attempt cfg k owner stop now s).1
  returned :
      (id owner : String) (score now : ℕ)
      → Step c cfg s (return_unstarted c cfg id owner score now s).1
  beat : (id owner : String) (now : ℕ) → Step c cfg s (heartbeat cfg id owner now s).1
  progressed :
      (id owner step : String) (done total now : ℕ)
      → Step c cfg s (progress cfg id owner step done total now s).1
  finished :
      (id owner : String) (st : TerminalStatus) (res : Option Payload) (err : Option ErrorBody)
      (now : ℕ)
      → Step c cfg s (finish c cfg id owner st res err now s).1
  canceled : (k : JobKind) (trip now : ℕ) → Step c cfg s (cancel c cfg k trip now s).1
  recovered : (now : ℕ) → Step c cfg s (recover c cfg now s)
  result_claimed :
      (id publisher : String) (now : ℕ) → Step c cfg s (claim_result cfg id publisher now s).1
  acknowledged : (id publisher : String) → Step c cfg s (acknowledge_result id publisher s)
  photos_staged :
      (size : PhotoBatchBuffer → ℕ) (m : PhotosReadyMessage) (topic : String) (now : ℕ)
      → Step c cfg s (stage_photos size cfg m topic now s).1
  batch_claimed : (now : ℕ) → Step c cfg s (claim_batch now s).1

pub data Reach (c : Codec) (cfg : JobsSettings) (s : Store) : Store → Type 0 where
  here : Reach c cfg s s
  next : {t u : Store} → Reach c cfg s t → Step c cfg t u → Reach c cfg s u

pub Step-IsSound :
    {c : Codec} {cfg : JobsSettings} {s t : Store} → Step c cfg s t → IsSound s → IsSound t
Step-IsSound {c} {cfg} {s} (registered id r now new) h = register-IsSound id r now s h new
Step-IsSound {c} {cfg} {s} (attempted k owner stop now) h = attempt-IsSound cfg k owner stop now s h
Step-IsSound {c} {cfg} {s} (returned id owner score now) h =
    return_unstarted-IsSound c cfg id owner score now s h
Step-IsSound {c} {cfg} {s} (beat id owner now) h = heartbeat-IsSound cfg id owner now s h
Step-IsSound {c} {cfg} {s} (progressed id owner step done total now) h =
    progress-IsSound cfg id owner step done total now s h
Step-IsSound {c} {cfg} {s} (finished id owner st res err now) h =
    finish-IsSound c cfg id owner st res err now s h
Step-IsSound {c} {cfg} {s} (canceled k trip now) h = cancel-IsSound c cfg k trip now s h
Step-IsSound {c} {cfg} {s} (recovered now) h = recover-IsSound c cfg now s h
Step-IsSound {c} {cfg} {s} (result_claimed id publisher now) h =
    claim_result-IsSound cfg id publisher now s h
Step-IsSound {c} {cfg} {s} (acknowledged id publisher) h =
    acknowledge_result-IsSound id publisher s h
Step-IsSound {c} {cfg} {s} (photos_staged size m topic now) h =
    photos-IsSound s (stage_photos size cfg m topic now s).1
      (stage-IsSameJobs size cfg m topic now s) h
Step-IsSound {c} {cfg} {s} (batch_claimed now) h =
    photos-IsSound s (claim_batch now s).1 (claim_batch-IsSameJobs now s) h

pub empty-IsSound : IsSound empty
unfolding member
empty-IsSound = record { kept = λ id r p. absurd (cc); in_queue = λ k id m. absurd (cc) }

pub Reach-IsSound :
    {c : Codec} {cfg : JobsSettings} {s t : Store} → Reach c cfg s t → IsSound s → IsSound t
Reach-IsSound here h = h
Reach-IsSound (next r st) h = Step-IsSound st (Reach-IsSound r h)

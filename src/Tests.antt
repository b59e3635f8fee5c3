-- ===== src/Tests.antt =====
-- The photo batches, the request gate, the worker and the filter on concrete inputs (app/jobs,
-- app/worker, app/pipeline).
use ktb4_2nd_ai.Prelude.{
  ℕ, ◌≤◌, ◌≡◌, refl, String, true, false, Option, none, some, List, [], ◌∷◌, arith, ltb, ◌*◌, ◌-◌,
  max, min,
}
use ktb4_2nd_ai.Schemas.{TaskStatus}
use ktb4_2nd_ai.Jobs.Models.{process, JobRecord, JobsSettings}
use ktb4_2nd_ai.Jobs.Store.{Store, ok, PhotoBatchBuffer, ReadyAttachment, BatchEntry}
use ktb4_2nd_ai.Jobs.Methods.{register_as}
use ktb4_2nd_ai.Jobs.Steps.{empty}
use ktb4_2nd_ai.Jobs.Photos.{
  PhotosReadyMessage, staged, closed, sort_photos, insert_photo, stage_photos, stage_merged,
  store_batch, merge, add_batch, add_photos, known_key, conflicts, learn, learn_batches, get_batch,
  put_batch, open_buffer, claim_batch, pop_batch, photo_batch, merged,
}
use ktb4_2nd_ai.Jobs.Photos.Buffer.{AllAgree, IsTidy, merge-IsTidy}
use ktb4_2nd_ai.Jobs.Photos.Laws.{stage-photo_batch, register-stage}
use ktb4_2nd_ai.Pipeline.{exif, PhotoState, undated, unlocated, duplicated}
use ktb4_2nd_ai.Pipeline.Filtering.{PhotoMetrics, judge_group, judge, original_of}
use ktb4_2nd_ai.Pipeline.Kept.{Among, front, behind, IsOriginal, duplicates_name_kept}
use ktb4_2nd_ai.Jobs.PhotoMetrics.{
  save_photo_metrics, photo_metrics, ids, nothing, another, save-photo_metrics,
}
use ktb4_2nd_ai.Gate.{live, claim as claim_gate, wait, opened, claimed, Calls-bounded}
use ktb4_2nd_ai.Worker.{
  Runner, Callback, fresh, submit as submit_run, begin, conclude, callback_of, Moves, still, step,
  submitted, begun, ended, returned,
}
use ktb4_2nd_ai.Worker.Slot.{IsSound as IsSoundRunner, Moves-IsSound}

-- photo batches
abbrev cfg : JobsSettings
cfg = record {
  lease = 60;
  timeout = 600;
  process_timeout = 1800;
  publish_lease = 30;
  photos_ready_ttl = 3600;
  story_concurrency = 2;
}

abbrev photo : ReadyAttachment
photo = record { trip_attachment_id = 5; analyze_storage_key = "a/5.jpg" }

abbrev message : PhotosReadyMessage
message = record { identity = "process:7:x"; batch_no = 1; attachments = photo ∷ [] }

abbrev small : PhotoBatchBuffer → ℕ
small b = 100

staged_there : (stage_photos small cfg message "requests" 10 empty).0 ≡ ok staged
unfolding stage_photos stage_merged store_batch merge add_batch add_photos known_key conflicts learn
    learn_batches get_batch put_batch open_buffer sort_photos insert_photo
staged_there = refl

stage-photo_batch_example :
    photo_batch "process:7:x" 1 20 (stage_photos small cfg message "requests" 10 empty).1
    ≡ some (sort_photos (photo ∷ []))
stage-photo_batch_example =
    stage-photo_batch small cfg message "requests" 10 empty 20 staged_there (omega arith)

abbrev no_buffer : PhotoBatchBuffer
no_buffer = record { request_topic = "requests"; batches = [] }

abbrev one_batch : PhotoBatchBuffer
one_batch = record { request_topic = "requests"; batches = (1, photo ∷ []) ∷ [] }

no_buffer-IsTidy : IsTidy no_buffer
unfolding learn_batches AllAgree
no_buffer-IsTidy = record { photos = omega arith; batches = omega arith; paths = tt }

merged_there : merge small "requests" 1 (photo ∷ []) no_buffer ≡ merged one_batch
unfolding merge add_batch add_photos known_key conflicts learn learn_batches get_batch put_batch
merged_there = refl

merge-IsTidy_example : IsTidy one_batch
merge-IsTidy_example =
    merge-IsTidy small "requests" 1 (photo ∷ []) no_buffer one_batch no_buffer-IsTidy merged_there

abbrev entry : BatchEntry
entry = record { identity = "process:7:x"; batch_no = 1; score = 10 }

abbrev queued_batch : Store
queued_batch = record empty {
  photo_batches = λ id. some (one_batch, 3610);
  batch_queue = entry ∷ [];
}

claimed_there : (claim_batch 20 queued_batch).0 ≡ some entry
unfolding claim_batch pop_batch
claimed_there = refl

late_there : (claim_batch 4000 queued_batch).0 ≡ none
unfolding claim_batch pop_batch
late_there = refl

-- the request gate
Calls-bounded_example : live 10 (claim_gate 1 "a" 5 10 []).1 ≤ 1
Calls-bounded_example =
    Calls-bounded 1 10 (claim_gate 1 "a" 5 10 []).1 (claimed "a" 5 10 (opened 0) (omega arith))

full_there : (wait 1 "b" 5 (11 ∷ 12 ∷ []) (("a", 15) ∷ [])).0 ≡ false
unfolding wait claim_gate live
full_there = refl

-- the worker
abbrev accepted : Runner String
accepted = (submit_run 7 fresh).1

abbrev started : Runner String
started = begin accepted accepted.waiting accepted.thread

Moves-started : Moves fresh started
unfolding submit_run
Moves-started = step (step still (submitted 7)) (begun refl)

abbrev over : Runner String
over = conclude (returned "r") started

Moves-over : Moves fresh over
unfolding submit_run begin
Moves-over = step Moves-started (ended (returned "r") refl)

Moves-IsSound_example : IsSoundRunner over
Moves-IsSound_example = Moves-IsSound Moves-over

over_due : over.due ≡ some (Callback.result 7 "r")
unfolding submit_run begin conclude callback_of
over_due = refl

-- the filter: two photos of one place, 3 apart
abbrev shot : ℕ → PhotoState Unit Unit
shot i = record {
  source = record {
    trip_attachment_id = i;
    analyze_storage_key = "a";
    taken_at = none;
    latitude = none;
    longitude = none;
    device_model = none;
  };
  taken_at = none;
  time_status = undated;
  latitude = none;
  longitude = none;
  region_origin = unlocated;
  embedding = none;
  place_id = some "p1";
  issue = none;
  duplicate_of_attachment_id = none;
  evaluation = none;
}

abbrev repeat : PhotoState Unit Unit
repeat = record (shot 2) { issue = some duplicated; duplicate_of_attachment_id = some 1 }

abbrev metrics : ℕ → Option (PhotoMetrics ℕ ℕ)
metrics i = some (record { variance = 90; phash = 3 * i })

abbrev apart : ℕ → ℕ → ℕ
apart a b = max a b - min a b

abbrev group : List (PhotoState Unit Unit)
group = shot 1 ∷ shot 2 ∷ []

abbrev left : List (PhotoState Unit Unit)
left = judge_group (λ m. true) ltb apart metrics 40 4 none [] group

repeat_there : Among repeat left
unfolding judge_group judge original_of
repeat_there = behind front

duplicates_name_kept_example :
    (o : PhotoState Unit Unit) × IsOriginal ltb apart (λ m. true) metrics 40 4 none left 1 repeat o
duplicates_name_kept_example =
    duplicates_name_kept ltb apart (λ m. true) metrics 40 4 none group repeat 1 repeat_there refl

-- late photos
abbrev job : JobRecord
job = record {
  trip_id = 7;
  kind = process;
  execution_id = "x";
  request = "{}";
  request_topic = "requests";
  result_topic = "results";
  created_at = 0;
  status = TaskStatus.queued;
  progress = record { done = 0; total = 1 };
  current_step = none;
  owner = none;
  heartbeat_at = none;
  started_at = none;
  cancel_requested = false;
  event = none;
  publish_owner = none;
  publish_until = 0;
  published = false;
}

register-stage_example :
    stage_photos small cfg message "requests" 40 (register_as "process:7:x" job 30 empty).1
    ≡ (ok closed, (register_as "process:7:x" job 30 empty).1)
register-stage_example = register-stage small cfg message "requests" 40 empty job 30

-- the filter and FINALIZING
abbrev ready : ℕ → PhotoState Unit Unit
ready i = record (shot i) {
  latitude = some tt;
  longitude = some tt;
  region_origin = exif;
  time_status = undated;
}

-- two of one place, the second like the first, behind the filter
abbrev ready_left : List (PhotoState Unit Unit)
ready_left =
    ready 1 ∷ record (ready 2) { issue = some duplicated; duplicate_of_attachment_id = some 1 } ∷ []

-- photo metrics
save-photo_metrics_example :
    photo_metrics
      (λ t. t)
      (λ t. some t)
      20
      (ids (λ t. t) (λ t. some t) ((5, "a") ∷ []))
      (save_photo_metrics (λ t. t) (λ t. some t) 60 10 ((5, "a") ∷ []) (λ i. none))
    ≡ (5, "a") ∷ []
save-photo_metrics_example =
    save-photo_metrics (λ t. t) (λ t. some t) 60 10 20 ((5, "a") ∷ []) (λ i. none) (λ r. refl)
      (another tt nothing) (omega arith)

-- ===== src/Jobs/Photos/Apart.antt =====
-- Photo batches never touch a job (`stage_photos` and `claim_batch`, app/jobs/redis_store.py).
use ktb4_2nd_ai.Prelude.{ℕ, ◌≡◌, refl, String, ◌||◌, is_some, sym, ◌∙◌, ap, Bool-cases, inl, inr}
use ktb4_2nd_ai.Jobs.Models.{JobsSettings}
use ktb4_2nd_ai.Jobs.Zset.{member}
use ktb4_2nd_ai.Jobs.Store.{Store, occupies, PhotoBatchBuffer}
use ktb4_2nd_ai.Jobs.Methods.{live_buffer}
use ktb4_2nd_ai.Jobs.Photos.{
  PhotosReadyMessage, sort_photos, Merge, merged, repeated, rejected, merge, open_buffer,
  store_batch, stage_merged, stage_photos, claim_batch,
}
use ktb4_2nd_ai.Jobs.Sound.{IsSound, apart-IsKept}

-- the keys of the jobs as they were
pub record IsSameJobs (s t : Store) : Type 0 where
  pub jobs : t.jobs ≡ s.jobs
  pub ignored : t.ignored ≡ s.ignored
  pub latest : t.latest ≡ s.latest
  pub queue : t.queue ≡ s.queue
  pub running : t.running ≡ s.running
  pub pending : t.pending ≡ s.pending
  pub slots : t.slots ≡ s.slots

pub photos-IsSound : (s t : Store) → IsSameJobs s t → IsSound s → IsSound t
photos-IsSound s t a h = record {
  kept = λ id r p.
      let k = h.kept id r (sym (ap (λ m. m id) a.jobs) ∙ p) in
      apart-IsKept s t id r
        (record {
          jobs = ap (λ m. m id) a.jobs;
          queue = λ q. ap (λ m. member id (m q)) a.queue;
          running = ap (member id) a.running;
          pending = ap (member id) a.pending;
          slots = λ q. ap (λ m. occupies id (m q)) a.slots;
        })
        (λ live. ap (λ m. m r.kind r.trip_id) a.latest ∙ k.newest live) k;
  in_queue = λ q id m.
      let (r, p, e) = h.in_queue q id (sym (ap (λ z. member id (z q)) a.queue) ∙ m) in
      (r, ap (λ z. z id) a.jobs ∙ p, e);
}

same_jobs : (s : Store) → IsSameJobs s s
same_jobs s = record {
  jobs = refl;
  ignored = refl;
  latest = refl;
  queue = refl;
  running = refl;
  pending = refl;
  slots = refl;
}

merged-IsSameJobs :
    (cfg : JobsSettings) (m : PhotosReadyMessage) (u : Merge) (now : ℕ) (s : Store)
    → IsSameJobs s (stage_merged cfg m u now s).1
unfolding stage_merged store_batch
merged-IsSameJobs cfg m rejected now s = same_jobs s
merged-IsSameJobs cfg m repeated now s = same_jobs s
merged-IsSameJobs cfg m (merged b) now s = record {
  jobs = refl;
  ignored = refl;
  latest = refl;
  queue = refl;
  running = refl;
  pending = refl;
  slots = refl;
}

pub stage-IsSameJobs :
    (size : PhotoBatchBuffer → ℕ) (cfg : JobsSettings) (m : PhotosReadyMessage) (topic : String)
    (now : ℕ) (s : Store)
    → IsSameJobs s (stage_photos size cfg m topic now s).1
unfolding stage_photos
stage-IsSameJobs size cfg m topic now s =
    elim (Bool-cases (is_some (s.jobs m.identity) || s.ignored m.identity)) [
      | inl e ↦ rw (stage_photos, e) (same_jobs s)
      | inr e ↦
          rw (stage_photos, e)
            (merged-IsSameJobs cfg m
              (merge size topic m.batch_no (sort_photos m.attachments)
                (open_buffer topic (live_buffer now (s.photo_batches m.identity))))
              now s)
    ]

pub claim_batch-IsSameJobs : (now : ℕ) (s : Store) → IsSameJobs s (claim_batch now s).1
unfolding claim_batch
claim_batch-IsSameJobs now s = record {
  jobs = refl;
  ignored = refl;
  latest = refl;
  queue = refl;
  running = refl;
  pending = refl;
  slots = refl;
}

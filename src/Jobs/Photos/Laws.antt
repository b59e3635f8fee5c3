-- ===== src/Jobs/Photos/Laws.antt =====
-- What `stage_photos`, `photo_batch`, `claim_batch` and `register` of `RedisJobStore`
-- (app/jobs/redis_store.py) do together with one execution's photos.
use ktb4_2nd_ai.Prelude.{
  ℕ, ◌+◌, ◌<◌, ◌≡◌, refl, String, true, false, ◌||◌, Option, none, some, is_some, List, [], ◌∷◌,
  arith, eq_iff, str_eq, ap, ◌∙◌, subst, Bool-cases, Option-cases, inl, inr,
}
use ktb4_2nd_ai.Jobs.Models.{JobRecord, JobsSettings}
use ktb4_2nd_ai.Jobs.Store.{Store, PhotoBatchBuffer, ReadyAttachment, BatchEntry, ok}
use ktb4_2nd_ai.Jobs.Methods.{live_buffer, register_as, drop_batches, enqueue}
use ktb4_2nd_ai.Jobs.Photos.{
  PhotosReadyMessage, staged, duplicate, closed, sort_photos, Known, get_batch, put_batch,
  same_photos, Merge, merged, repeated, rejected, add_batch, merge, add_photos, learn_batches,
  open_buffer, store_batch, stage_merged, stage_photos, pop_batch, claim_batch, photo_batch,
}

same_photos_refl : (ps : List ReadyAttachment) → same_photos ps ps ≡ true
unfolding same_photos
same_photos_refl [] = refl
same_photos_refl (p ∷ ps) =
    ground (arith, same_photos_refl ps, eq_iff p.analyze_storage_key p.analyze_storage_key)

get_batch-put :
    (nr : ℕ) (ps : List ReadyAttachment) (bs : List (ℕ × List ReadyAttachment))
    → get_batch nr bs ≡ none
    → get_batch nr (put_batch nr ps bs) ≡ some ps
unfolding get_batch put_batch
get_batch-put nr ps [] h = ground arith
get_batch-put nr ps ((n, qs) ∷ bs) h = ground (arith, get_batch-put nr ps bs)

-- a merged buffer is of the topic and has the batch
record HasBatch (topic : String) (nr : ℕ) (ps : List ReadyAttachment) (b : PhotoBatchBuffer)
    : Type 0 where
  topic_same : str_eq b.request_topic topic ≡ true
  there : get_batch nr b.batches ≡ some ps

add_batch-HasBatch :
    (size : PhotoBatchBuffer → ℕ) (topic : String) (nr : ℕ) (ps : List ReadyAttachment)
    (b b' : PhotoBatchBuffer) (o : Option Known)
    → str_eq b.request_topic topic ≡ true
    → get_batch nr b.batches ≡ none
    → add_batch size nr ps b o ≡ merged b'
    → HasBatch topic nr ps b'
unfolding add_batch
add_batch-HasBatch size topic nr ps b b' none t g e = absurd (cc)
add_batch-HasBatch size topic nr ps b b' (some m) t g e =
    let eq : record b { batches = put_batch nr ps b.batches } ≡ b' = ground (arith, e) in
    subst (HasBatch topic nr ps) eq
      (record { topic_same = t; there = get_batch-put nr ps b.batches g })

merge-HasBatch :
    (size : PhotoBatchBuffer → ℕ) (topic : String) (nr : ℕ) (ps : List ReadyAttachment)
    (b b' : PhotoBatchBuffer)
    → merge size topic nr ps b ≡ merged b'
    → HasBatch topic nr ps b'
unfolding merge
merge-HasBatch size topic nr ps b b' e = elim (Bool-cases (str_eq b.request_topic topic)) [
  | inl t ↦ elim (Option-cases (get_batch nr b.batches)) [
    | inl g ↦
        add_batch-HasBatch size topic nr ps b b' (add_photos ps (learn_batches b.batches [])) t g
          (ground (arith, g, t, e))
    | inr (qs, g) ↦ absurd (ground (arith, t, g, e))
  ]
  | inr t ↦ absurd (ground (arith, t, e))
]

merge-again :
    (size : PhotoBatchBuffer → ℕ) (topic : String) (nr : ℕ) (ps : List ReadyAttachment)
    (b : PhotoBatchBuffer)
    → HasBatch topic nr ps b
    → merge size topic nr ps b ≡ repeated
unfolding merge
merge-again size topic nr ps b h = ground (arith, h.topic_same, h.there, same_photos_refl ps)

-- what a staged batch leaves
record IsStaged (cfg : JobsSettings) (m : PhotosReadyMessage) (topic : String) (now : ℕ) (t : Store)
    : Type 0 where
  open_ : (is_some (t.jobs m.identity) || t.ignored m.identity) ≡ false
  buffer : PhotoBatchBuffer
  kept : t.photo_batches m.identity ≡ some (buffer, now + cfg.photos_ready_ttl)
  has : HasBatch topic m.batch_no (sort_photos m.attachments) buffer

module _ (size : PhotoBatchBuffer → ℕ) (cfg : JobsSettings) (m : PhotosReadyMessage)
    (topic : String) (now : ℕ) (s : Store) where
  stage_merged-IsStaged :
      (u : Merge)
      → (is_some (s.jobs m.identity) || s.ignored m.identity) ≡ false
      → ((b : PhotoBatchBuffer)
          → u ≡ merged b
          → HasBatch topic m.batch_no (sort_photos m.attachments) b)
      → (stage_merged cfg m u now s).0 ≡ ok staged
      → IsStaged cfg m topic now (stage_merged cfg m u now s).1
  unfolding stage_merged store_batch
  stage_merged-IsStaged rejected o h e = absurd (cc)
  stage_merged-IsStaged repeated o h e = absurd (cc)
  stage_merged-IsStaged (merged b) o h e = record {
    open_ = o;
    buffer = b;
    kept = ground (arith, eq_iff m.identity m.identity);
    has = h b refl;
  }

  stage-IsStaged :
      (stage_photos size cfg m topic now s).0 ≡ ok staged
      → IsStaged cfg m topic now (stage_photos size cfg m topic now s).1
  unfolding stage_photos
  stage-IsStaged e = elim (Bool-cases (is_some (s.jobs m.identity) || s.ignored m.identity)) [
    | inl o ↦ absurd (ground (arith, o, e))
    | inr o ↦
        let b = open_buffer topic (live_buffer now (s.photo_batches m.identity)) in
        rw (stage_photos, o)
          (stage_merged-IsStaged (merge size topic m.batch_no (sort_photos m.attachments) b) o
            (λ b'. merge-HasBatch size topic m.batch_no (sort_photos m.attachments) b b')
            (ground (arith, o, e)))
  ]

  open_stage :
      (later : ℕ) (t : Store)
      → (is_some (t.jobs m.identity) || t.ignored m.identity) ≡ false
      → stage_photos size cfg m topic later t
        ≡ stage_merged cfg m
            (merge size topic m.batch_no
              (sort_photos m.attachments)
              (open_buffer topic (live_buffer later (t.photo_batches m.identity))))
            later
            t
  unfolding stage_photos
  open_stage later t o = rw (stage_photos, o) refl

  -- A batch that was staged can be read back, in the order of its photo ids, until the time to live
  -- has passed.
  pub stage-photo_batch :
      (later : ℕ)
      → (stage_photos size cfg m topic now s).0 ≡ ok staged
      → later < now + cfg.photos_ready_ttl
      → photo_batch m.identity m.batch_no later (stage_photos size cfg m topic now s).1
        ≡ some (sort_photos m.attachments)
  unfolding photo_batch
  stage-photo_batch later e fresh = let h = stage-IsStaged e in ground (arith, h.kept, h.has.there)

  -- A message that was staged and comes again until the time to live has passed is a duplicate and
  -- changes nothing.
  pub stage-again :
      (later : ℕ)
      → (stage_photos size cfg m topic now s).0 ≡ ok staged
      → later < now + cfg.photos_ready_ttl
      → stage_photos size cfg m topic later (stage_photos size cfg m topic now s).1
        ≡ (ok duplicate, (stage_photos size cfg m topic now s).1)
  unfolding stage_merged open_buffer
  stage-again later e fresh =
      let t = (stage_photos size cfg m topic now s).1 in
      let h = stage-IsStaged e in
      let ps = sort_photos m.attachments in
      let there : live_buffer later (t.photo_batches m.identity) ≡ some h.buffer =
        ground (arith, h.kept) in
      open_stage later t h.open_
      ∙ ap (λ u. stage_merged cfg m (merge size topic m.batch_no ps (open_buffer topic u)) later t)
          there
      ∙ ap (λ u. stage_merged cfg m u later t) (merge-again size topic m.batch_no ps h.buffer h.has)

  -- When the registration of an execution has answered at all, its late photo batches are refused
  -- as closed, whether the job was accepted, a duplicate or turned away as busy.
  pub register-stage :
      (r : JobRecord) (at : ℕ)
      → stage_photos size cfg m topic now (register_as m.identity r at s).1
        ≡ (ok closed, (register_as m.identity r at s).1)
  unfolding stage_photos register_as drop_batches enqueue
  register-stage r at = ground (arith, eq_iff m.identity m.identity)

pop_batch-live :
    (now : ℕ) (buffers : String → Option (PhotoBatchBuffer × ℕ)) (q : List BatchEntry)
    (e : BatchEntry)
    → (pop_batch now buffers q).0 ≡ some e
    → is_some (live_buffer now (buffers e.identity)) ≡ true
unfolding pop_batch
pop_batch-live now buffers [] e h = absurd (cc)
pop_batch-live now buffers (f ∷ q) e h =
    elim (Bool-cases (is_some (live_buffer now (buffers f.identity)))) [
      | inl l ↦
          let eq : f ≡ e = ground (arith, l, h) in
          subst (λ (x : BatchEntry). is_some (live_buffer now (buffers x.identity)) ≡ true) eq l
      | inr l ↦ pop_batch-live now buffers q e (ground (arith, l, h))
    ]

pop_batch-none :
    (now : ℕ) (buffers : String → Option (PhotoBatchBuffer × ℕ)) (q : List BatchEntry)
    → (pop_batch now buffers q).0 ≡ none
    → (pop_batch now buffers q).1 ≡ []
unfolding pop_batch
pop_batch-none now buffers [] h = refl
pop_batch-none now buffers (f ∷ q) h = ground (arith, pop_batch-none now buffers q)

-- A batch that `claim_batch` gives has its buffer, which has not expired.
pub claim_batch_live :
    (now : ℕ) (e : BatchEntry) (s : Store)
    → (claim_batch now s).0 ≡ some e
    → is_some (live_buffer now (s.photo_batches e.identity)) ≡ true
unfolding claim_batch
claim_batch_live now e s h = pop_batch-live now s.photo_batches s.batch_queue e h

-- `claim_batch` gives no batch only when it leaves the queue empty.
pub claim_batch-none :
    (now : ℕ) (s : Store) → (claim_batch now s).0 ≡ none → (claim_batch now s).1.batch_queue ≡ []
unfolding claim_batch
claim_batch-none now s h = pop_batch-none now s.photo_batches s.batch_queue h

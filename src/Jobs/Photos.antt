-- ===== src/Jobs/Photos.antt =====
-- Photo batches that come ahead of their process job: `stage_photos`, `claim_batch` and
-- `photo_batch` of `RedisJobStore` (app/jobs/redis_store.py).
pub mod Buffer
pub mod Laws
pub mod Apart
use Prim.Native.String.{◌++◌ as join_text}
use ktb4_2nd_ai.Prelude.{
  ℕ, suc, ◌+◌, ◌*◌, String, Bool, true, false, not, ◌&&◌, ◌||◌, Option, none, some, is_some, List,
  [], ◌∷◌, ltb, leb, ◌==◌, str_eq, if◌then◌else◌, length,
}
use ktb4_2nd_ai.Jobs.Models.{JobsSettings}
use ktb4_2nd_ai.Jobs.Zset.{text_before}
use ktb4_2nd_ai.Jobs.Store.{
  Store, PhotoBatchBuffer, ReadyAttachment, BatchEntry, Result, ok, raised, value_error, decimal,
}
use ktb4_2nd_ai.Jobs.Methods.{live_buffer}

-- `PhotosReadyMessage` under its identity
pub record PhotosReadyMessage : Type 0 where
  pub identity : String
  pub batch_no : ℕ
  pub attachments : List ReadyAttachment

pub data Staged : Type 0 where
  staged duplicate closed : Staged

-- `sorted(attachments, key=trip_attachment_id)`, which is stable
unfoldable pub insert_photo : ReadyAttachment → List ReadyAttachment → List ReadyAttachment
insert_photo p [] = p ∷ []
insert_photo p (q ∷ qs) =
    let rest = insert_photo p qs in
    if leb p.trip_attachment_id q.trip_attachment_id then p ∷ q ∷ qs else q ∷ rest

unfoldable pub sort_photos : List ReadyAttachment → List ReadyAttachment
unfolding insert_photo
sort_photos [] = []
sort_photos (p ∷ ps) = insert_photo p (sort_photos ps)

-- the dict `known` from a photo to the path of its copy
abbrev pub Known : Type 0
Known = List (ℕ × String)

unfoldable pub known_key : ℕ → Known → Option String
known_key p [] = none
known_key p ((q, key) ∷ m) = let rest = known_key p m in if q == p then some key else rest

unfoldable pub learn : ℕ → String → Known → Known
learn p key [] = (p, key) ∷ []
learn p key ((q, old) ∷ m) =
    let rest = learn p key m in if q == p then (p, key) ∷ m else (q, old) ∷ rest

unfoldable pub learn_batch : List ReadyAttachment → Known → Known
unfolding learn
learn_batch [] m = m
learn_batch (p ∷ ps) m = learn_batch ps (learn p.trip_attachment_id p.analyze_storage_key m)

-- the photos of every batch that the buffer has
unfoldable pub learn_batches : List (ℕ × List ReadyAttachment) → Known → Known
unfolding learn_batch
learn_batches [] m = m
learn_batches ((nr, photos) ∷ bs) m = learn_batches bs (learn_batch photos m)

-- `old_key is not None and old_key != photo.analyze_storage_key`
unfoldable pub conflicts : Option String → String → Bool
conflicts none key = false
conflicts (some old) key = not (str_eq old key)

-- the loop over the new photos; `none` where a path has changed
unfoldable pub add_photos : List ReadyAttachment → Known → Option Known
unfolding known_key conflicts learn
add_photos [] m = some m
add_photos (p ∷ ps) m =
    let rest = add_photos ps (learn p.trip_attachment_id p.analyze_storage_key m) in
    if conflicts (known_key p.trip_attachment_id m) p.analyze_storage_key then none else rest

-- `buffer.batches.get(batch_no)`
unfoldable pub get_batch : ℕ → List (ℕ × List ReadyAttachment) → Option (List ReadyAttachment)
get_batch nr [] = none
get_batch nr ((n, photos) ∷ bs) =
    let rest = get_batch nr bs in if n == nr then some photos else rest

-- `batches[batch_no] = photos` for a number that is not there: a dict keeps insertion order
unfoldable pub put_batch :
    ℕ → List ReadyAttachment → List (ℕ × List ReadyAttachment) → List (ℕ × List ReadyAttachment)
put_batch nr photos [] = (nr, photos) ∷ []
put_batch nr photos (b ∷ bs) = b ∷ put_batch nr photos bs

unfoldable pub same_photos : List ReadyAttachment → List ReadyAttachment → Bool
same_photos [] [] = true
same_photos (p ∷ ps) (q ∷ qs) =
    p.trip_attachment_id == q.trip_attachment_id
    && (str_eq p.analyze_storage_key q.analyze_storage_key && same_photos ps qs)
same_photos _ _ = false

abbrev pub photos_ready_max_bytes : ℕ
photos_ready_max_bytes = 2 * 1024 * 1024

-- what the buffer becomes: a new one, a repetition of a batch, or a `ValueError`
pub data Merge : Type 0 where
  merged : PhotoBatchBuffer → Merge
  repeated rejected : Merge

-- the batch under a new number; `size` is the length of the buffer's JSON in bytes
unfoldable pub add_batch :
    (PhotoBatchBuffer → ℕ) → ℕ → List ReadyAttachment → PhotoBatchBuffer → Option Known → Merge
unfolding put_batch
add_batch size nr photos b none = rejected
add_batch size nr photos b (some known) =
    if ltb 200 (length known) || leb 200 (length b.batches)
    then rejected
    else if ltb photos_ready_max_bytes (size (record b { batches = put_batch nr photos b.batches }))
    then rejected
    else merged (record b { batches = put_batch nr photos b.batches })

unfoldable pub merge :
    (PhotoBatchBuffer → ℕ) → String → ℕ → List ReadyAttachment → PhotoBatchBuffer → Merge
unfolding get_batch same_photos add_batch add_photos learn_batches
merge size topic nr photos b =
    if not (str_eq b.request_topic topic) then rejected else (elim (get_batch nr b.batches) [
      | some previous ↦ if same_photos previous photos then repeated else rejected
      | none ↦ add_batch size nr photos b (add_photos photos (learn_batches b.batches []))
    ])

-- the buffer of the execution, or a new one for the topic
unfoldable pub open_buffer : String → Option PhotoBatchBuffer → PhotoBatchBuffer
open_buffer topic none = record { request_topic = topic; batches = [] }
open_buffer topic (some b) = b

-- `photo_batch_member`
unfoldable pub photo_batch_member : String → ℕ → String
unfolding decimal
photo_batch_member id nr = join_text id (join_text "#" (decimal (suc nr) nr))

unfoldable pub entry_before : BatchEntry → BatchEntry → Bool
unfolding photo_batch_member text_before
entry_before a b =
    ltb a.score b.score
    || (a.score == b.score
        && text_before (photo_batch_member a.identity a.batch_no)
            (photo_batch_member b.identity b.batch_no))

unfoldable pub insert_entry : BatchEntry → List BatchEntry → List BatchEntry
unfolding entry_before
insert_entry e [] = e ∷ []
insert_entry e (f ∷ q) =
    let rest = insert_entry e q in if entry_before e f then e ∷ f ∷ q else f ∷ rest

unfoldable pub remove_entry : String → ℕ → List BatchEntry → List BatchEntry
remove_entry id nr [] = []
remove_entry id nr (e ∷ q) =
    let rest = remove_entry id nr q in
    if str_eq e.identity id && e.batch_no == nr then rest else e ∷ rest

-- ZREMRANGEBYSCORE key -inf now-ttl
unfoldable pub expire_entries : ℕ → ℕ → List BatchEntry → List BatchEntry
expire_entries ttl now [] = []
expire_entries ttl now (e ∷ q) =
    let rest = expire_entries ttl now q in if leb (e.score + ttl) now then rest else e ∷ rest

-- the transaction of a staged batch
unfoldable pub store_batch :
    JobsSettings → PhotosReadyMessage → PhotoBatchBuffer → ℕ → Store → Store
unfolding insert_entry remove_entry expire_entries
store_batch cfg m b now s = record s {
  photo_batches =
      λ j. if str_eq m.identity j then some (b, now + cfg.photos_ready_ttl) else s.photo_batches j;
  batch_queue = expire_entries cfg.photos_ready_ttl now (
      insert_entry (record { identity = m.identity; batch_no = m.batch_no; score = now })
        (remove_entry m.identity m.batch_no s.batch_queue));
}

unfoldable pub stage_merged :
    JobsSettings → PhotosReadyMessage → Merge → ℕ → Store → Result Staged × Store
unfolding store_batch
stage_merged cfg m rejected now s = (raised value_error, s)
stage_merged cfg m repeated now s = (ok duplicate, s)
stage_merged cfg m (merged b) now s = (ok staged, store_batch cfg m b now s)

-- `stage_photos`
unfoldable pub stage_photos :
    (PhotoBatchBuffer → ℕ)
    → JobsSettings
    → PhotosReadyMessage
    → String
    → ℕ
    → Store
    → Result Staged × Store
unfolding sort_photos merge open_buffer stage_merged
stage_photos size cfg m topic now s =
    if is_some (s.jobs m.identity) || s.ignored m.identity
    then (ok closed, s)
    else stage_merged cfg m
        (merge size topic m.batch_no (sort_photos m.attachments)
          (open_buffer topic (live_buffer now (s.photo_batches m.identity))))
        now s

-- `claim_batch`: ZPOPMIN until an entry has its buffer; the entries that are popped are gone
unfoldable pub pop_batch :
    ℕ
    → (String → Option (PhotoBatchBuffer × ℕ))
    → List BatchEntry
    → Option BatchEntry × List BatchEntry
pop_batch now buffers [] = (none, [])
pop_batch now buffers (e ∷ q) =
    let rest = pop_batch now buffers q in
    if is_some (live_buffer now (buffers e.identity)) then (some e, q) else rest

unfoldable pub claim_batch : ℕ → Store → Option BatchEntry × Store
unfolding pop_batch
claim_batch now s =
    let p = pop_batch now s.photo_batches s.batch_queue in (p.0, record s { batch_queue = p.1 })

-- `photo_batch`
unfoldable pub photo_batch : String → ℕ → ℕ → Store → Option (List ReadyAttachment)
unfolding get_batch
photo_batch id nr now s = elim (live_buffer now (s.photo_batches id)) [
  | none ↦ none
  | some b ↦ get_batch nr b.batches
]

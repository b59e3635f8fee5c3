-- ===== src/Jobs/Intake.antt =====
-- The intake of requests from Kafka: `RequestReceiver` and `consume_requests` (app/jobs/kafka.py).
-- JSON, pydantic and SHA-256 are arguments; bytes are texts. Each round of the loop brings what Redis
-- and the broker answer in it.
pub mod Laws
pub mod Settled
pub mod Returns
use Prim.Native.String.{count as char_count, ◌++◌}
use ktb4_2nd_ai.Prelude.{
  ℕ, zero, suc, ◌+◌, ◌*◌, String, Bool, true, false, not, ◌&&◌, ◌||◌, Option, none, some, List, [],
  ◌∷◌, ltb, leb, str_eq, if◌then◌else◌, min, ◌>>=◌,
}
use ktb4_2nd_ai.Schemas.{ErrorCode, TaskStatus, ErrorBody}
use ktb4_2nd_ai.Jobs.Models.{
  JobKind, process, story, TerminalStatus, Codec, JobRecord, JobsSettings,
}
use ktb4_2nd_ai.Jobs.Store.{
  PhotoBatchBuffer, ReadyAttachment, Store, Result, ok, raised, decimal, identity,
}
use ktb4_2nd_ai.Jobs.Updates.{Update, changed, unchanged, failing, terminate}
use ktb4_2nd_ai.Jobs.Methods.{Registered, register_as}
use ktb4_2nd_ai.Jobs.Photos.{PhotosReadyMessage, Staged, stage_photos}

-- what `json.loads` returns; `negative n` is the integer below zero by n + 1, other numbers and the
-- order of a dict's members are kept as texts and lists
mutual
  pub data Json : Type 0 where
    null : Json
    boolean : Bool → Json
    natural negative : ℕ → Json
    real text : String → Json
    array : Items → Json
    object : Members → Json

  pub data Items : Type 0 where
    no_items : Items
    item : Json → Items → Items

  pub data Members : Type 0 where
    no_members : Members
    member : String → Json → Members → Members

-- `data.get(name)`
unfoldable pub get : String → Members → Option Json
get name no_members = none
get name (member n v ms) = let rest = get name ms in if str_eq n name then some v else rest

unfoldable pub count_items : Items → ℕ
count_items no_items = 0
count_items (item v vs) = suc (count_items vs)

-- the parsers: `json.loads`, the check that the value can be written again, the two pydantic models
-- (`MESSAGE` with its JSON dump, and `PhotosReadyMessage`), the JSON text, and SHA-256
pub record Parsers : Type 0 where
  pub loads : String → Option Json
  pub encodes : Json → Bool
  pub validate_message : Members → Option Members
  pub validate_photos : Members → Option (ℕ × List ReadyAttachment)
  pub dumps : Members → String
  pub sha256 : String → String
  pub buffer_size : PhotoBatchBuffer → ℕ

-- `Incoming`
pub record Incoming : Type 0 where
  pub topic : String
  pub partition : ℕ
  pub offset : ℕ
  pub key : Option String
  pub value : Option String

-- a message of a dead letter topic
pub record DeadLetter : Type 0 where
  pub topic : String
  pub value : String
  pub key : Option String
  pub error : String
  pub original_topic : String
  pub original_partition : String
  pub original_offset : String

-- the request and result topics of `JobsSettings`
pub record Topics : Type 0 where
  pub trip_create_request : String
  pub trip_create_result : String
  pub trip_update_request : String
  pub trip_update_result : String
  pub story_create_request : String
  pub story_create_result : String

-- `topics`: later entries of the dict win
unfoldable pub topics : Topics → String → Option (JobKind × String)
topics t name =
    if str_eq t.story_create_request name
    then some (story, t.story_create_result)
    else if str_eq t.trip_update_request name
    then some (process, t.trip_update_result)
    else if str_eq t.trip_create_request name
    then some (process, t.trip_create_result)
    else none

-- Redis and the keys and topics of the intake: the counters of invalid messages with the time at
-- which they expire, and the dead letters, the last one first
pub record Intake : Type 0 where
  pub store : Store
  pub invalid : String → Option (ℕ × ℕ)
  pub dlt : List DeadLetter

-- how a call of Redis ends; a connection may break before or after the transaction ran
pub data Call : Type 0 where
  answered broken_before broken_after : Call

-- how a message to the dead letters ends; the error or the time-out of 30 seconds may come although
-- the broker has the message
pub data Send : Type 0 where
  delivered too_large failed_before failed_after : Send

-- how a commit of the offset ends: a rebalance (`CommitFailedError`, `IllegalStateError`) or another
-- error of Kafka
pub data Commit : Type 0 where
  committed rebalanced commit_error : Commit

-- one round of the loop: the Redis time, the calls that register or stage and that count an invalid
-- message, the two calls of Kafka, and whether the partition is still assigned
pub record Round : Type 0 where
  pub now : ℕ
  pub call : Call
  pub count : Call
  pub send : Send
  pub commit : Commit
  pub assigned : Bool

pub data Answer : Type 0 where
  accepted duplicate busy staged closed quarantined : Answer

-- what `accept` does: an answer, `InvalidMessage`, `MessageSizeTooLargeError`, an error of Redis,
-- Kafka or the connection, or an exception that the loop does not catch
pub data Outcome : Type 0 where
  answer : Answer → Outcome
  invalid_message size_too_large unreachable uncaught : Outcome

-- `quarantine`
unfoldable pub dead_letter : Incoming → String → DeadLetter
unfolding decimal
dead_letter m reason = record {
  topic = m.topic ++ "-dlt";
  value = elim m.value [ none ↦ "" | some v ↦ v ];
  key = m.key;
  error = reason;
  original_topic = m.topic;
  original_partition = decimal (suc m.partition) m.partition;
  original_offset = decimal (suc m.offset) m.offset;
}

abbrev pub add_dead : DeadLetter → Intake → Intake
add_dead d s = record s { dlt = d ∷ s.dlt }

unfoldable pub quarantine : Incoming → String → Send → Intake → Outcome × Intake
unfolding dead_letter
quarantine m reason delivered s = (answer quarantined, add_dead (dead_letter m reason) s)
quarantine m reason too_large s = (size_too_large, s)
quarantine m reason failed_before s = (unreachable, s)
quarantine m reason failed_after s = (unreachable, add_dead (dead_letter m reason) s)

-- `reject`: the counter of the message's place
unfoldable pub invalid_key : (String → String) → Incoming → String
unfolding decimal
invalid_key sha256 m =
    "invalid:"
    ++ sha256 (
        m.topic
        ++ ":"
        ++ decimal (suc m.partition) m.partition
        ++ ":"
        ++ decimal (suc m.offset) m.offset)

abbrev pub live_count : ℕ → Option (ℕ × ℕ) → ℕ
live_count now none = 0
live_count now (some (n, expires)) = if ltb now expires then n else 0

-- `30 * 86400` seconds, in microseconds
abbrev pub invalid_ttl : ℕ
invalid_ttl = 30 * 86400 * 1000000

abbrev pub attempts : String → ℕ → Intake → ℕ
attempts k now s = min 3 (live_count now (s.invalid k) + 1)

unfoldable pub count_invalid : String → ℕ → Intake → Intake
count_invalid k now s = record s {
  invalid = λ j. if str_eq k j then some (attempts k now s, now + invalid_ttl) else s.invalid j;
}

unfoldable pub reject : Parsers → Incoming → String → Round → Intake → Outcome × Intake
unfolding quarantine invalid_key count_invalid
reject p m reason w s = elim w.count [
  | broken_before ↦ (unreachable, s)
  | broken_after ↦ (unreachable, count_invalid (invalid_key p.sha256 m) w.now s)
  | answered ↦
      if ltb (attempts (invalid_key p.sha256 m) w.now s) 3
      then (invalid_message, count_invalid (invalid_key p.sha256 m) w.now s)
      else quarantine m reason w.send (count_invalid (invalid_key p.sha256 m) w.now s)
]

-- the identity and the route of a dict: the trip, the execution and whether it is a photo batch
unfoldable pub trip_of : Option Json → Option ℕ
trip_of (some (natural (suc n))) = some (suc n)
trip_of _ = none

unfoldable pub execution_of : Option Json → Option String
execution_of (some (text e)) =
    if leb 1 (char_count e) && leb (char_count e) 128 then some e else none
execution_of _ = none

unfoldable pub type_of : JobKind → Option Json → Option Bool
type_of process (some (text t)) =
    if str_eq t "process" then some false else if str_eq t "photos_ready" then some true else none
type_of story (some (text t)) = if str_eq t "story" then some false else none
type_of _ _ = none

abbrev pub has_key : Incoming → ℕ → Bool
has_key m trip = elim m.key [ none ↦ false | some k ↦ str_eq k (decimal (suc trip) trip) ]

pub record Envelope : Type 0 where
  pub trip_id : ℕ
  pub execution_id : String
  pub is_batch : Bool

unfoldable pub envelope : JobKind → Incoming → Members → Option Envelope
unfolding get trip_of execution_of type_of decimal
envelope k m body = do
  trip ← trip_of (get "trip_id" body)
  execution ← execution_of (get "execution_id" body)
  batch ← type_of k (get "type" body)
  if has_key m trip
      then some (record { trip_id = trip; execution_id = execution; is_batch = batch })
      else none

-- a Redis call of a transaction that gives `r` and the store `t`
abbrev pub called : Call → Intake → Store → Outcome → Outcome × Intake
called answered s t o = (o, record s { store = t })
called broken_before s t o = (unreachable, s)
called broken_after s t o = (unreachable, record s { store = t })

-- a Redis call of an attempt that raises before its transaction
abbrev pub unless_broken : Call → Outcome × Intake → Intake → Outcome × Intake
unless_broken answered o s = o
unless_broken _ o s = (unreachable, s)

abbrev pub staged_answer : Staged → Answer
staged_answer Staged.staged = staged
staged_answer Staged.duplicate = duplicate
staged_answer Staged.closed = closed

abbrev pub registered_answer : Registered → Answer
registered_answer Registered.accepted = accepted
registered_answer Registered.duplicate = duplicate
registered_answer Registered.busy = busy

-- the branch of a photo batch, behind `stage_photos`
unfoldable pub on_staged :
    Parsers → Incoming → Round → Result Staged × Store → Intake → Outcome × Intake
unfolding reject
on_staged p m w (ok a, t) s = called w.call s t (answer (staged_answer a))
on_staged p m w (raised e, t) s = unless_broken w.call (reject p m "invalid_photos_ready" w s) s

unfoldable pub accept_batch :
    Parsers → JobsSettings → Incoming → Envelope → Members → Round → Intake → Outcome × Intake
unfolding on_staged reject
accept_batch p cfg m e body w s = elim (p.validate_photos body) [
  | none ↦ reject p m "invalid_photos_ready" w s
  | some (nr, photos) ↦
      on_staged p m w
        (stage_photos p.buffer_size cfg
          (record {
            identity = identity p.sha256 e.trip_id process e.execution_id;
            batch_no = nr;
            attachments = photos;
          })
          m.topic w.now s.store)
        s
]

-- the progress that a record begins with
unfoldable pub total_of : JobKind → Option Json → ℕ
unfolding count_items
total_of story _ = 4
total_of process (some (array vs)) = count_items vs
total_of process _ = 0

-- the record of a request
unfoldable pub new_record : Parsers → JobKind → String → Incoming → Envelope → Members → JobRecord
unfolding total_of get
new_record p k result_topic m e body = record {
  trip_id = e.trip_id;
  kind = k;
  execution_id = e.execution_id;
  request = p.dumps body;
  request_topic = m.topic;
  result_topic = result_topic;
  created_at = 0;
  status = TaskStatus.queued;
  progress = record { done = 0; total = total_of k (get "attachments" body) };
  current_step = none;
  owner = none;
  heartbeat_at = none;
  started_at = none;
  cancel_requested = false;
  event = none;
  publish_owner = none;
  publish_until = 0;
  published = false;
}

-- `register` behind the check of the body
unfoldable pub register_record : Parsers → Round → Update → Intake → Outcome × Intake
register_record p w (changed r) s =
    let t = register_as (identity p.sha256 r.trip_id r.kind r.execution_id) r w.now s.store in
    called w.call s t.1 (answer (registered_answer t.0))
register_record p w _ s = (uncaught, s)

abbrev pub invalid_body : ErrorBody
invalid_body = record {
  code = ErrorCode.invalid_request;
  message = "요청 형식이 올바르지 않습니다.";
  detail = [];
}

-- the body of a process or story request; one that is refused has failed before it is registered
unfoldable pub accept_request :
    Parsers
    → Codec
    → JobKind
    → String
    → Incoming
    → Envelope
    → Members
    → Round
    → Intake
    → Outcome × Intake
unfolding new_record register_record
accept_request p c k result_topic m e body w s = elim (p.validate_message body) [
  | some valid ↦ register_record p w (changed (new_record p k result_topic m e valid)) s
  | none ↦
      register_record p w
        (terminate c (new_record p k result_topic m e body) TerminalStatus.failed none
          (some invalid_body))
        s
]

unfoldable pub accept_members :
    Parsers
    → Codec
    → JobsSettings
    → JobKind
    → String
    → Incoming
    → Members
    → Round
    → Intake
    → Outcome × Intake
unfolding envelope accept_batch accept_request reject
accept_members p c cfg k result_topic m body w s = elim (envelope k m body) [
  | none ↦ reject p m "invalid_identity_or_route" w s
  | some e ↦
      if e.is_batch
      then accept_batch p cfg m e body w s
      else accept_request p c k result_topic m e body w s
]

-- the decoded value: a text that is no JSON, or JSON that cannot be written again, is refused
unfoldable pub decode : Parsers → Incoming → Option Json
decode p m = do
  body ← p.loads (elim m.value [ none ↦ "" | some v ↦ v ])
  if p.encodes body then some body else none

unfoldable pub accept_json :
    Parsers
    → Codec
    → JobsSettings
    → JobKind
    → String
    → Incoming
    → Option Json
    → Round
    → Intake
    → Outcome × Intake
unfolding accept_members reject
accept_json p c cfg k result_topic m none w s = reject p m "invalid_json" w s
accept_json p c cfg k result_topic m (some (object body)) w s =
    accept_members p c cfg k result_topic m body w s
accept_json p c cfg k result_topic m (some _) w s = reject p m "invalid_envelope" w s

-- `accept`
unfoldable pub accept :
    Parsers → Codec → JobsSettings → Topics → Incoming → Round → Intake → Outcome × Intake
unfolding topics decode accept_json
accept p c cfg ts m w s = elim (topics ts m.topic) [
  | none ↦ (uncaught, s)
  | some (k, result_topic) ↦ accept_json p c cfg k result_topic m (decode p m) w s
]

-- How a message leaves the inner loop of `consume_requests`: its offset plus one is committed, it
-- comes again after a rebalance, it stays and its partition is paused, or the loop crashes.
pub data Left : Type 0 where
  done : ℕ → Left
  redelivered crashed : Left
  kept : Bool → Left

-- the commit of the offset behind an answer
unfoldable pub on_commit :
    Incoming → Commit → Intake → (Intake → Option Left × Intake) → Option Left × Intake
on_commit m committed s rest = (some (done (m.offset + 1)), s)
on_commit m Commit.rebalanced s rest = (some redelivered, s)
on_commit m commit_error s rest = rest s

-- one round of the inner loop, with `rest` as its next one
unfoldable pub on_answer :
    Incoming → Round → Outcome × Intake → (Intake → Option Left × Intake) → Option Left × Intake
unfolding on_commit
on_answer m w (answer a, s) rest = on_commit m w.commit s rest
on_answer m w (invalid_message, s) rest = rest s
on_answer m w (size_too_large, s) rest = (some (kept w.assigned), s)
on_answer m w (unreachable, s) rest = rest s
on_answer m w (uncaught, s) rest = (some crashed, s)

-- the inner loop of `consume_requests` over the rounds that are given; `none` where it goes on
unfoldable pub consume :
    Parsers → Codec → JobsSettings → Topics → Incoming → List Round → Intake → Option Left × Intake
unfolding accept on_answer
consume p c cfg ts m [] s = (none, s)
consume p c cfg ts m (w ∷ ws) s =
    on_answer m w (accept p c cfg ts m w s) (λ t. consume p c cfg ts m ws t)

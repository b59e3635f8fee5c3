-- ===== src/Jobs/Intake/Settled.antt =====
-- An offset is committed behind a message that is settled (app/jobs/kafka.py).
use ktb4_2nd_ai.Prelude.{
  ℕ, ◌+◌, ◌≡◌, ◌⊎◌, refl, String, Bool, true, false, if◌then◌else◌, ◌||◌, Option, none, some,
  is_some, List, [], ◌∷◌, arith, eq_iff, ltb, Bool-cases, Option-cases, inl, inr, subst,
}
use ktb4_2nd_ai.Jobs.Models.{JobKind, process, Codec, JobRecord, JobsSettings}
use ktb4_2nd_ai.Jobs.Store.{Store, ReadyAttachment, Result, ok, raised, identity}
use ktb4_2nd_ai.Jobs.Updates.{changed, ended}
use ktb4_2nd_ai.Jobs.Methods.{register_as, drop_batches, enqueue}
use ktb4_2nd_ai.Jobs.Photos.{PhotosReadyMessage, Staged, stage_photos}
use ktb4_2nd_ai.Jobs.Endings.{failed_event}
use ktb4_2nd_ai.Jobs.Intake.{
  Json, object, Members, Parsers, Incoming, Topics, topics, Intake, Call, answered, broken_before,
  broken_after, Send, delivered, Commit, committed, commit_error, Round, Answer, answer,
  invalid_message, size_too_large, unreachable, uncaught, Outcome, quarantine, invalid_key,
  attempts, reject, dead_letter, Envelope, envelope, called, staged_answer, on_staged, accept_batch,
  new_record, register_record, invalid_body, accept_request, accept_members, decode, accept_json,
  accept, Left, done, on_commit, on_answer, consume, DeadLetter,
}

-- the record of an execution is there, or the execution was turned away for good
unfoldable pub IsKnown : String → Store → Type 0
IsKnown id t = (is_some (t.jobs id) || t.ignored id) ≡ true

abbrev pub identity_of : Parsers → JobKind → Envelope → String
identity_of p k e = identity p.sha256 e.trip_id k e.execution_id

-- `PhotosReadyMessage` with its identity
abbrev pub batch_message : Parsers → Envelope → ℕ × List ReadyAttachment → PhotosReadyMessage
batch_message p e b = record {
  identity = identity_of p process e;
  batch_no = b.0;
  attachments = b.1;
}

-- A message that is done with: its execution is registered or turned away, its photo batch went
-- through `stage_photos`, or it is the last of the dead letters.
pub data IsSettled (p : Parsers) (cfg : JobsSettings) (k : JobKind) (m : Incoming) (t : Intake)
    : Type 0 where
  registered :
      (body : Members) (e : Envelope)
      → decode p m ≡ some (object body)
      → envelope k m body ≡ some e
      → IsKnown (identity_of p k e) t.store
      → IsSettled p cfg k m t
  staged :
      (body : Members) (e : Envelope) (b : ℕ × List ReadyAttachment) (a : Staged) (now : ℕ)
      (u : Store)
      → decode p m ≡ some (object body)
      → envelope k m body ≡ some e
      → p.validate_photos body ≡ some b
      → stage_photos p.buffer_size cfg (batch_message p e b) m.topic now u ≡ (ok a, t.store)
      → IsSettled p cfg k m t
  dead :
      (reason : String) (rest : List DeadLetter)
      → t.dlt ≡ dead_letter m reason ∷ rest
      → IsSettled p cfg k m t

Call-cases : (o : Call) → (o ≡ answered) ⊎ ((o ≡ broken_before) ⊎ (o ≡ broken_after))
Call-cases answered = inl refl
Call-cases broken_before = inr (inl refl)
Call-cases broken_after = inr (inr refl)

register-IsKnown :
    (id : String) (r : JobRecord) (now : ℕ) (s : Store) → IsKnown id (register_as id r now s).1
unfolding IsKnown register_as drop_batches enqueue
register-IsKnown id r now s = ground (arith, eq_iff id id)

abbrev is_answer : Outcome → Bool
is_answer (answer a) = true
is_answer _ = false

module _ (p : Parsers) (cfg : JobsSettings) (k : JobKind) (m : Incoming) where
  -- an answer leaves the message settled
  data Settles : Outcome × Intake → Type 0 where
    settled : {a : Answer} {t : Intake} → IsSettled p cfg k m t → Settles (answer a, t)
    waits : {o : Outcome} {t : Intake} → is_answer o ≡ false → Settles (o, t)

  quarantine-Settles : (reason : String) (o : Send) (s : Intake) → Settles (quarantine m reason o s)
  unfolding quarantine
  quarantine-Settles reason delivered s = settled (dead reason s.dlt refl)
  quarantine-Settles reason Send.too_large s = waits refl
  quarantine-Settles reason Send.failed_before s = waits refl
  quarantine-Settles reason Send.failed_after s = waits refl

  Settles-if :
      {x y : Outcome × Intake} (b : Bool) → Settles x → Settles y → Settles (if b then x else y)
  Settles-if true h g = h
  Settles-if false h g = g

  reject-Settles : (reason : String) (w : Round) (s : Intake) → Settles (reject p m reason w s)
  unfolding reject
  reject-Settles reason w s = elim (Call-cases w.count) [
    | inl h ↦
        rw (reject, h)
          (Settles-if (ltb (attempts (invalid_key p.sha256 m) w.now s) 3) (waits refl)
            (quarantine-Settles reason w.send _))
    | inr (inl h) ↦ rw (reject, h) (waits refl)
    | inr (inr h) ↦ rw (reject, h) (waits refl)
  ]

  called-Settles :
      (o : Call) (s : Intake) (t : Store) (r : Outcome)
      → Settles (r, record s { store = t })
      → Settles (called o s t r)
  called-Settles answered s t r h = h
  called-Settles broken_before s t r h = waits refl
  called-Settles broken_after s t r h = waits refl

  on_staged-Settles :
      (body : Members) (e : Envelope) (b : ℕ × List ReadyAttachment) (w : Round)
      (r : Result Staged × Store) (s : Intake)
      → decode p m ≡ some (object body)
      → envelope k m body ≡ some e
      → p.validate_photos body ≡ some b
      → stage_photos p.buffer_size cfg (batch_message p e b) m.topic w.now s.store ≡ r
      → Settles (on_staged p m w r s)
  unfolding on_staged
  on_staged-Settles body e b w (ok a, t) s d v q h =
      called-Settles w.call s t (answer (staged_answer a))
        (settled (staged body e b a w.now s.store d v q h))
  on_staged-Settles body e b w (raised x, t) s d v q h = elim (Call-cases w.call) [
    | inl h ↦ rw (on_staged, h) (reject-Settles "invalid_photos_ready" w s)
    | inr (inl h) ↦ rw (on_staged, h) (waits refl)
    | inr (inr h) ↦ rw (on_staged, h) (waits refl)
  ]

  accept_batch-Settles :
      (body : Members) (e : Envelope) (w : Round) (s : Intake)
      → decode p m ≡ some (object body)
      → envelope k m body ≡ some e
      → Settles (accept_batch p cfg m e body w s)
  unfolding accept_batch
  accept_batch-Settles body e w s d v = elim (Option-cases (p.validate_photos body)) [
    | inl o ↦ rw (accept_batch, o) (reject-Settles "invalid_photos_ready" w s)
    | inr (b, o) ↦ rw (accept_batch, o) (on_staged-Settles body e b w _ s d v o refl)
  ]

  register-Settles :
      (body : Members) (e : Envelope) (w : Round) (r : JobRecord) (s : Intake)
      → decode p m ≡ some (object body)
      → envelope k m body ≡ some e
      → identity p.sha256 r.trip_id r.kind r.execution_id ≡ identity_of p k e
      → Settles (register_record p w (changed r) s)
  unfolding register_record
  register-Settles body e w r s d v same =
      let id = identity p.sha256 r.trip_id r.kind r.execution_id in
      let t = (register_as id r w.now s.store).1 in
      called-Settles w.call s t _ (
        settled (
          registered body e d v
            (subst (λ (j : String). IsKnown j t) same (register-IsKnown id r w.now s.store))))

  accept_request-Settles :
      (topic : String) (body : Members) (e : Envelope) (c : Codec) (w : Round) (s : Intake)
      → decode p m ≡ some (object body)
      → envelope k m body ≡ some e
      → Settles (accept_request p c k topic m e body w s)
  unfolding accept_request new_record ended
  accept_request-Settles topic body e c w s d v = elim (Option-cases (p.validate_message body)) [
    | inl o ↦
        let r = new_record p k topic m e body in
        let (x, h) = failed_event c r invalid_body in
        rw (accept_request, o) (rw h (register-Settles body e w (ended r x) s d v refl))
    | inr (valid, o) ↦
        rw (accept_request, o)
          (register-Settles body e w (new_record p k topic m e valid) s d v refl)
  ]

  accept_members-Settles :
      (topic : String) (body : Members) (c : Codec) (w : Round) (s : Intake)
      → decode p m ≡ some (object body)
      → Settles (accept_members p c cfg k topic m body w s)
  unfolding accept_members
  accept_members-Settles topic body c w s d = elim (Option-cases (envelope k m body)) [
    | inl o ↦ rw (accept_members, o) (reject-Settles "invalid_identity_or_route" w s)
    | inr (e, o) ↦ elim (Bool-cases e.is_batch) [
      | inl b ↦ rw (accept_members, o, b) (accept_batch-Settles body e w s d o)
      | inr b ↦ rw (accept_members, o, b) (accept_request-Settles topic body e c w s d o)
    ]
  ]

  accept_json-Settles :
      (topic : String) (j : Option Json) (c : Codec) (w : Round) (s : Intake)
      → decode p m ≡ j
      → Settles (accept_json p c cfg k topic m j w s)
  unfolding accept_json
  accept_json-Settles topic none c w s d = reject-Settles "invalid_json" w s
  accept_json-Settles topic (some (object body)) c w s d = accept_members-Settles topic body c w s d
  accept_json-Settles topic (some Json.null) c w s d = reject-Settles "invalid_envelope" w s
  accept_json-Settles topic (some (Json.boolean _)) c w s d = reject-Settles "invalid_envelope" w s
  accept_json-Settles topic (some (Json.natural _)) c w s d = reject-Settles "invalid_envelope" w s
  accept_json-Settles topic (some (Json.negative _)) c w s d = reject-Settles "invalid_envelope" w s
  accept_json-Settles topic (some (Json.real _)) c w s d = reject-Settles "invalid_envelope" w s
  accept_json-Settles topic (some (Json.text _)) c w s d = reject-Settles "invalid_envelope" w s
  accept_json-Settles topic (some (Json.array _)) c w s d = reject-Settles "invalid_envelope" w s

  -- the offset is committed behind a settled message
  Commits : Option Left × Intake → Type 0
  Commits (some (done n), t) = (n ≡ m.offset + 1) × IsSettled p cfg k m t
  Commits (_, t) = Unit

  on_commit-Commits :
      (o : Commit) (t : Intake) (rest : Intake → Option Left × Intake)
      → IsSettled p cfg k m t
      → Commits (rest t)
      → Commits (on_commit m o t rest)
  unfolding on_commit Commits
  on_commit-Commits committed t rest h g = (refl, h)
  on_commit-Commits Commit.rebalanced t rest h g = tt
  on_commit-Commits commit_error t rest h g = g

  on_answer-Commits :
      (w : Round) (o : Outcome × Intake) (rest : Intake → Option Left × Intake)
      → Settles o
      → ((t : Intake) → Commits (rest t))
      → Commits (on_answer m w o rest)
  unfolding on_answer Commits
  on_answer-Commits w (answer a, t) rest (settled h) next_round =
      on_commit-Commits w.commit t rest h (next_round t)
  on_answer-Commits w (answer a, t) rest (waits e) next_round = absurd (cc)
  on_answer-Commits w (invalid_message, t) rest h next_round = next_round t
  on_answer-Commits w (size_too_large, t) rest h next_round = tt
  on_answer-Commits w (unreachable, t) rest h next_round = next_round t
  on_answer-Commits w (uncaught, t) rest h next_round = tt

consume-Commits :
    (p : Parsers) (c : Codec) (cfg : JobsSettings) (ts : Topics) (k : JobKind) (topic : String)
    (m : Incoming) (ws : List Round) (s : Intake)
    → topics ts m.topic ≡ some (k, topic)
    → Commits p cfg k m (consume p c cfg ts m ws s)
unfolding consume accept Commits
consume-Commits p c cfg ts k topic m [] s route = tt
consume-Commits p c cfg ts k topic m (w ∷ ws) s route =
    rw (consume, accept, route)
      (on_answer-Commits p cfg k m w _ _
        (accept_json-Settles p cfg k m topic (decode p m) c w s refl)
        (λ t. consume-Commits p c cfg ts k topic m ws t route))

-- When the offset of a message from a topic of the service is committed, it is the one behind the
-- message, and the message is settled: its execution has a record or was turned away for good, its
-- photo batch went through `stage_photos`, or it is the last of the dead letters.
pub consume-IsSettled :
    (p : Parsers) (c : Codec) (cfg : JobsSettings) (ts : Topics) (k : JobKind) (topic : String)
    (m : Incoming) (ws : List Round) (s : Intake) (n : ℕ)
    → topics ts m.topic ≡ some (k, topic)
    → (consume p c cfg ts m ws s).0 ≡ some (done n)
    → (n ≡ m.offset + 1) × IsSettled p cfg k m (consume p c cfg ts m ws s).1
unfolding Commits
consume-IsSettled p c cfg ts k topic m ws s n route e =
    subst (λ (o : Option Left). Commits p cfg k m (o, (consume p c cfg ts m ws s).1)) e
      (consume-Commits p c cfg ts k topic m ws s route)

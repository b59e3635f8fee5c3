-- ===== src/Jobs/Intake/Laws.antt =====
-- What the intake of requests guarantees (app/jobs/kafka.py): its transactions are those of the
-- store, an offset is committed behind a settled message, and a reachable Redis and broker settle
-- every message.
use ktb4_2nd_ai.Prelude.{
  ◌≡◌, ◌≢◌, refl, String, Option, none, some, List, [], ◌∷◌, arith, Bool-cases, Option-cases, inl,
  inr, subst, sym,
}
use ktb4_2nd_ai.Schemas.{TaskStatus}
use ktb4_2nd_ai.Jobs.Models.{
  JobKind, TerminalStatus, Codec, JobRecord, JobResultEvent, JobsSettings, to_status,
}
use ktb4_2nd_ai.Jobs.Store.{Store, Result, ok, raised}
use ktb4_2nd_ai.Jobs.Updates.{changed, ended}
use ktb4_2nd_ai.Jobs.Photos.{Staged}
use ktb4_2nd_ai.Jobs.Sound.Methods.{IsNew}
use ktb4_2nd_ai.Jobs.Steps.{Reach, here, next, registered, photos_staged}
use ktb4_2nd_ai.Jobs.Endings.{failed_event, ended_over}
use ktb4_2nd_ai.Jobs.Intake.{
  Json, object, Members, Parsers, Incoming, Topics, topics, Intake, Call, answered, broken_before,
  broken_after, Send, delivered, Commit, committed, commit_error, Round, answer, invalid_message,
  size_too_large, unreachable, uncaught, Outcome, quarantine, invalid_key, count_invalid, reject,
  Envelope, envelope, called, unless_broken, staged_answer, on_staged, accept_batch, new_record,
  register_record, invalid_body, accept_request, accept_members, decode, accept_json, accept, Left,
  on_commit, on_answer, consume,
}

quarantine-store :
    (m : Incoming) (reason : String) (o : Send) (s : Intake)
    → (quarantine m reason o s).1.store ≡ s.store
unfolding quarantine
quarantine-store m reason delivered s = refl
quarantine-store m reason Send.too_large s = refl
quarantine-store m reason Send.failed_before s = refl
quarantine-store m reason Send.failed_after s = refl

reject-store :
    (p : Parsers) (m : Incoming) (reason : String) (w : Round) (s : Intake)
    → (reject p m reason w s).1.store ≡ s.store
unfolding reject count_invalid
reject-store p m reason w s =
    ground
      (arith, quarantine-store m reason w.send (count_invalid (invalid_key p.sha256 m) w.now s))

Reach-trans :
    {c : Codec} {cfg : JobsSettings} {s t u : Store}
    → Reach c cfg s t
    → Reach c cfg t u
    → Reach c cfg s u
Reach-trans h here = h
Reach-trans h (next g st) = next (Reach-trans h g) st

new_record-IsNew :
    (p : Parsers) (k : JobKind) (topic : String) (m : Incoming) (e : Envelope) (body : Members)
    → IsNew (new_record p k topic m e body)
unfolding new_record
new_record-IsNew p k topic m e body = record { idle = λ h. absurd (cc); event_iff = refl }

ended-IsNew : (r : JobRecord) (e : JobResultEvent) → IsNew (ended r e)
unfolding ended
ended-IsNew r e = record { idle = go e.status; event_iff = sym (ended_over r e) }
  where
    go : (st : TerminalStatus) → to_status st ≢ TaskStatus.processing
    go TerminalStatus.completed h = absurd (cc)
    go TerminalStatus.failed h = absurd (cc)
    go TerminalStatus.canceled h = absurd (cc)

module _ (c : Codec) (cfg : JobsSettings) where
  -- what a call of `accept` does to the store: a few transactions
  Moves : Intake → Outcome × Intake → Type 0
  Moves s o = Reach c cfg s.store o.1.store

  same-Moves : (s : Intake) (o : Outcome × Intake) → o.1.store ≡ s.store → Moves s o
  unfolding Moves
  same-Moves s o e = subst (λ t. Reach c cfg s.store t) (sym e) here

  reject-Moves :
      (p : Parsers) (m : Incoming) (reason : String) (w : Round) (s : Intake)
      → Moves s (reject p m reason w s)
  reject-Moves p m reason w s = same-Moves s _ (reject-store p m reason w s)

  called-Moves :
      (o : Call) (s : Intake) (t : Store) (r : Outcome)
      → Reach c cfg s.store t
      → Moves s (called o s t r)
  unfolding Moves
  called-Moves answered s t r h = h
  called-Moves broken_before s t r h = here
  called-Moves broken_after s t r h = h

  on_staged-Moves :
      (p : Parsers) (m : Incoming) (w : Round) (r : Result Staged × Store) (s : Intake)
      → Reach c cfg s.store r.1
      → Moves s (on_staged p m w r s)
  unfolding on_staged
  on_staged-Moves p m w (ok a, t) s h = called-Moves w.call s t (answer (staged_answer a)) h
  on_staged-Moves p m w (raised e, t) s h = go w.call
    where
      go : (o : Call) → Moves s (unless_broken o (reject p m "invalid_photos_ready" w s) s)
      go answered = reject-Moves p m "invalid_photos_ready" w s
      go broken_before = same-Moves s _ refl
      go broken_after = same-Moves s _ refl

  accept_batch-Moves :
      (p : Parsers) (m : Incoming) (e : Envelope) (body : Members) (w : Round) (s : Intake)
      → Moves s (accept_batch p cfg m e body w s)
  unfolding accept_batch
  accept_batch-Moves p m e body w s = elim (Option-cases (p.validate_photos body)) [
    | inl o ↦ rw (accept_batch, o) (reject-Moves p m "invalid_photos_ready" w s)
    | inr ((nr, photos), o) ↦
        rw (accept_batch, o) (on_staged-Moves p m w _ s (next here (photos_staged _ _ _ _)))
  ]

  register-Moves :
      (p : Parsers) (w : Round) (r : JobRecord) (s : Intake)
      → IsNew r
      → Moves s (register_record p w (changed r) s)
  unfolding register_record
  register-Moves p w r s new = called-Moves w.call s _ _ (next here (registered _ r w.now new))

  accept_request-Moves :
      (p : Parsers) (k : JobKind) (topic : String) (m : Incoming) (e : Envelope) (body : Members)
      (w : Round) (s : Intake)
      → Moves s (accept_request p c k topic m e body w s)
  unfolding accept_request
  accept_request-Moves p k topic m e body w s = elim (Option-cases (p.validate_message body)) [
    | inl o ↦
        let r = new_record p k topic m e body in
        let (v, h) = failed_event c r invalid_body in
        rw (accept_request, o) (rw h (register-Moves p w (ended r v) s (ended-IsNew r v)))
    | inr (valid, o) ↦
        rw (accept_request, o)
          (register-Moves p w (new_record p k topic m e valid) s
            (new_record-IsNew p k topic m e valid))
  ]

  accept_members-Moves :
      (p : Parsers) (k : JobKind) (topic : String) (m : Incoming) (body : Members) (w : Round)
      (s : Intake)
      → Moves s (accept_members p c cfg k topic m body w s)
  unfolding accept_members
  accept_members-Moves p k topic m body w s = elim (Option-cases (envelope k m body)) [
    | inl o ↦ rw (accept_members, o) (reject-Moves p m "invalid_identity_or_route" w s)
    | inr (e, o) ↦ elim (Bool-cases e.is_batch) [
      | inl b ↦ rw (accept_members, o, b) (accept_batch-Moves p m e body w s)
      | inr b ↦ rw (accept_members, o, b) (accept_request-Moves p k topic m e body w s)
    ]
  ]

  accept_json-Moves :
      (p : Parsers) (k : JobKind) (topic : String) (m : Incoming) (j : Option Json) (w : Round)
      (s : Intake)
      → Moves s (accept_json p c cfg k topic m j w s)
  unfolding accept_json
  accept_json-Moves p k topic m none w s = reject-Moves p m "invalid_json" w s
  accept_json-Moves p k topic m (some (object body)) w s = accept_members-Moves p k topic m body w s
  accept_json-Moves p k topic m (some Json.null) w s = reject-Moves p m "invalid_envelope" w s
  accept_json-Moves p k topic m (some (Json.boolean _)) w s =
      reject-Moves p m "invalid_envelope" w s
  accept_json-Moves p k topic m (some (Json.natural _)) w s =
      reject-Moves p m "invalid_envelope" w s
  accept_json-Moves p k topic m (some (Json.negative _)) w s =
      reject-Moves p m "invalid_envelope" w s
  accept_json-Moves p k topic m (some (Json.real _)) w s = reject-Moves p m "invalid_envelope" w s
  accept_json-Moves p k topic m (some (Json.text _)) w s = reject-Moves p m "invalid_envelope" w s
  accept_json-Moves p k topic m (some (Json.array _)) w s = reject-Moves p m "invalid_envelope" w s

  accept-Moves :
      (p : Parsers) (ts : Topics) (m : Incoming) (w : Round) (s : Intake)
      → Moves s (accept p c cfg ts m w s)
  unfolding accept
  accept-Moves p ts m w s = elim (Option-cases (topics ts m.topic)) [
    | inl o ↦ rw (accept, o) (same-Moves s _ refl)
    | inr ((k, topic), o) ↦ rw (accept, o) (accept_json-Moves p k topic m (decode p m) w s)
  ]

  on_commit-Moves :
      (m : Incoming) (o : Commit) (s t : Intake) (rest : Intake → Option Left × Intake)
      → Reach c cfg s.store t.store
      → Reach c cfg s.store (rest t).1.store
      → Reach c cfg s.store (on_commit m o t rest).1.store
  unfolding on_commit
  on_commit-Moves m committed s t rest h g = h
  on_commit-Moves m Commit.rebalanced s t rest h g = h
  on_commit-Moves m commit_error s t rest h g = g

  on_answer-Moves :
      (m : Incoming) (w : Round) (s : Intake) (o : Outcome × Intake)
      (rest : Intake → Option Left × Intake)
      → Moves s o
      → ((t : Intake) → Reach c cfg s.store t.store → Reach c cfg s.store (rest t).1.store)
      → Reach c cfg s.store (on_answer m w o rest).1.store
  unfolding on_answer Moves
  on_answer-Moves m w s (answer a, t) rest h next_round =
      on_commit-Moves m w.commit s t rest h (next_round t h)
  on_answer-Moves m w s (invalid_message, t) rest h next_round = next_round t h
  on_answer-Moves m w s (size_too_large, t) rest h next_round = h
  on_answer-Moves m w s (unreachable, t) rest h next_round = next_round t h
  on_answer-Moves m w s (uncaught, t) rest h next_round = h

  -- Whatever message comes and however Redis, the broker and the connections answer, each round of
  -- the inner loop of `consume_requests` changes the job store by its transactions only.
  pub consume-Reach :
      (p : Parsers) (ts : Topics) (m : Incoming) (ws : List Round) (s : Intake)
      → Reach c cfg s.store (consume p c cfg ts m ws s).1.store
  unfolding consume
  consume-Reach p ts m [] s = here
  consume-Reach p ts m (w ∷ ws) s =
      on_answer-Moves m w s (accept p c cfg ts m w s) _ (accept-Moves p ts m w s)
        (λ t h. Reach-trans h (consume-Reach p ts m ws t))

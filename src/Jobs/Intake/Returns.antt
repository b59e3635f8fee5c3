-- ===== src/Jobs/Intake/Returns.antt =====
-- The inner loop of `consume_requests` (app/jobs/kafka.py) is done with any message after three
-- rounds in which Redis and the broker answer.
use ktb4_2nd_ai.Prelude.{
  ◌⊎◌, ℕ, ◌+◌, ◌<◌, ◌≤◌, ◌≡◌, ◌∙◌, refl, String, true, Option, none, some, List, [], ◌∷◌, arith,
  eq_iff, Bool-cases, Option-cases, inl, inr, sym, ap, subst, ltb,
}
use ktb4_2nd_ai.Jobs.Models.{JobKind, Codec, JobRecord, JobsSettings}
use ktb4_2nd_ai.Jobs.Store.{Store, Result, ok, raised}
use ktb4_2nd_ai.Jobs.Updates.{changed, ended}
use ktb4_2nd_ai.Jobs.Photos.{Staged}
use ktb4_2nd_ai.Jobs.Endings.{failed_event}
use ktb4_2nd_ai.Jobs.Intake.{
  Json, object, Members, Parsers, Incoming, Topics, topics, Intake, Call, unless_broken, answered,
  delivered, committed, Round, Answer, answer, invalid_message, Outcome, quarantine, invalid_key,
  invalid_ttl, count_invalid, attempts, reject, Envelope, envelope, on_staged, accept_batch,
  new_record, register_record, invalid_body, accept_request, accept_members, decode, accept_json,
  accept, Left, done, on_commit, on_answer, consume,
}

-- a round in which Redis and the broker answer
pub record IsQuiet (w : Round) : Type 0 where
  pub call : w.call ≡ answered
  pub count : w.count ≡ answered
  pub send : w.send ≡ delivered
  pub commit : w.commit ≡ committed

module _ (p : Parsers) (m : Incoming) (w : Round) (s : Intake) where
  -- the message is answered, or counted once more as invalid
  data Quiet : Outcome × Intake → Type 0 where
    answers : {a : Answer} {t : Intake} → Quiet (answer a, t)
    counts :
        ltb (attempts (invalid_key p.sha256 m) w.now s) 3 ≡ true
        → Quiet (invalid_message, count_invalid (invalid_key p.sha256 m) w.now s)

  reject-Quiet : (reason : String) → IsQuiet w → Quiet (reject p m reason w s)
  unfolding reject quarantine
  reject-Quiet reason h = elim (Bool-cases (ltb (attempts (invalid_key p.sha256 m) w.now s) 3)) [
    | inl b ↦ rw (reject, h.count, b) (counts b)
    | inr b ↦ rw (reject, h.count, b, h.send) answers
  ]

  on_staged-Quiet : (r : Result Staged × Store) → IsQuiet w → Quiet (on_staged p m w r s)
  unfolding on_staged
  on_staged-Quiet (ok a, t) h = rw (on_staged, h.call) answers
  on_staged-Quiet (raised x, t) h =
      subst (λ (x : Call). Quiet (unless_broken x (reject p m "invalid_photos_ready" w s) s))
        (sym h.call) (reject-Quiet "invalid_photos_ready" h)

  accept_batch-Quiet :
      (cfg : JobsSettings) (e : Envelope) (body : Members)
      → IsQuiet w
      → Quiet (accept_batch p cfg m e body w s)
  unfolding accept_batch
  accept_batch-Quiet cfg e body h = elim (Option-cases (p.validate_photos body)) [
    | inl o ↦ rw (accept_batch, o) (reject-Quiet "invalid_photos_ready" h)
    | inr (b, o) ↦ rw (accept_batch, o) (on_staged-Quiet _ h)
  ]

  register-Quiet : (r : JobRecord) → IsQuiet w → Quiet (register_record p w (changed r) s)
  unfolding register_record
  register-Quiet r h = rw (register_record, h.call) answers

  accept_request-Quiet :
      (c : Codec) (k : JobKind) (topic : String) (e : Envelope) (body : Members)
      → IsQuiet w
      → Quiet (accept_request p c k topic m e body w s)
  unfolding accept_request
  accept_request-Quiet c k topic e body h = elim (Option-cases (p.validate_message body)) [
    | inl o ↦
        let r = new_record p k topic m e body in
        let (v, f) = failed_event c r invalid_body in
        rw (accept_request, o) (rw f (register-Quiet (ended r v) h))
    | inr (valid, o) ↦ rw (accept_request, o) (register-Quiet _ h)
  ]

  accept_members-Quiet :
      (c : Codec) (cfg : JobsSettings) (k : JobKind) (topic : String) (body : Members)
      → IsQuiet w
      → Quiet (accept_members p c cfg k topic m body w s)
  unfolding accept_members
  accept_members-Quiet c cfg k topic body h = elim (Option-cases (envelope k m body)) [
    | inl o ↦ rw (accept_members, o) (reject-Quiet "invalid_identity_or_route" h)
    | inr (e, o) ↦ elim (Bool-cases e.is_batch) [
      | inl b ↦ rw (accept_members, o, b) (accept_batch-Quiet cfg e body h)
      | inr b ↦ rw (accept_members, o, b) (accept_request-Quiet c k topic e body h)
    ]
  ]

  accept_json-Quiet :
      (c : Codec) (cfg : JobsSettings) (k : JobKind) (topic : String) (j : Option Json)
      → IsQuiet w
      → Quiet (accept_json p c cfg k topic m j w s)
  unfolding accept_json
  accept_json-Quiet c cfg k topic none h = reject-Quiet "invalid_json" h
  accept_json-Quiet c cfg k topic (some (object body)) h = accept_members-Quiet c cfg k topic body h
  accept_json-Quiet c cfg k topic (some Json.null) h = reject-Quiet "invalid_envelope" h
  accept_json-Quiet c cfg k topic (some (Json.boolean _)) h = reject-Quiet "invalid_envelope" h
  accept_json-Quiet c cfg k topic (some (Json.natural _)) h = reject-Quiet "invalid_envelope" h
  accept_json-Quiet c cfg k topic (some (Json.negative _)) h = reject-Quiet "invalid_envelope" h
  accept_json-Quiet c cfg k topic (some (Json.real _)) h = reject-Quiet "invalid_envelope" h
  accept_json-Quiet c cfg k topic (some (Json.text _)) h = reject-Quiet "invalid_envelope" h
  accept_json-Quiet c cfg k topic (some (Json.array _)) h = reject-Quiet "invalid_envelope" h

  -- a quiet round is the last one, or the message is counted and the next round follows
  round_cases :
      {o : Outcome × Intake} (rest : Intake → Option Left × Intake)
      → IsQuiet w
      → Quiet o
      → ((on_answer m w o rest).0 ≡ some (done (m.offset + 1)))
        ⊎ ((ltb (attempts (invalid_key p.sha256 m) w.now s) 3 ≡ true)
            × (on_answer m w o rest ≡ rest (count_invalid (invalid_key p.sha256 m) w.now s)))
  unfolding on_answer on_commit
  round_cases rest h answers = inl (rw (on_answer, h.commit) refl)
  round_cases rest h (counts b) = inr (b, refl)

consume_round :
    (p : Parsers) (c : Codec) (cfg : JobsSettings) (ts : Topics) (k : JobKind) (topic : String)
    (m : Incoming) (w : Round) (ws : List Round) (s : Intake)
    → topics ts m.topic ≡ some (k, topic)
    → IsQuiet w
    → ((consume p c cfg ts m (w ∷ ws) s).0 ≡ some (done (m.offset + 1)))
      ⊎ ((ltb (attempts (invalid_key p.sha256 m) w.now s) 3 ≡ true)
          × (consume p c cfg ts m (w ∷ ws) s
              ≡ consume p c cfg ts m ws (count_invalid (invalid_key p.sha256 m) w.now s)))
unfolding consume accept
consume_round p c cfg ts k topic m w ws s route h =
    rw (consume, accept, route)
      (round_cases p m w s (λ t. consume p c cfg ts m ws t) h
        (accept_json-Quiet p m w s c cfg k topic (decode p m) h))

attempts-count :
    (q : String) (now later n : ℕ) (s : Intake)
    → n ≤ attempts q now s
    → n < 3
    → later < now + invalid_ttl
    → n + 1 ≤ attempts q later (count_invalid q now s)
unfolding count_invalid
attempts-count q now later n s h small fresh = ground (arith, eq_iff q q)

-- A message from a topic of the service is done with, and its offset committed, after at most three
-- rounds in which Redis and the broker answer, if less than 30 days lie between two of them:
-- whatever the message says, and however often it was rejected before.
pub consume_returns :
    (p : Parsers) (c : Codec) (cfg : JobsSettings) (ts : Topics) (k : JobKind) (topic : String)
    (m : Incoming) (u v w : Round) (s : Intake)
    → topics ts m.topic ≡ some (k, topic)
    → IsQuiet u
    → IsQuiet v
    → IsQuiet w
    → v.now < u.now + invalid_ttl
    → w.now < v.now + invalid_ttl
    → (consume p c cfg ts m (u ∷ v ∷ w ∷ []) s).0 ≡ some (done (m.offset + 1))
consume_returns p c cfg ts k topic m u v w s route hu hv hw uv vw =
    let q = invalid_key p.sha256 m in
    let s1 = count_invalid q u.now s in
    let s2 = count_invalid q v.now s1 in
    elim (consume_round p c cfg ts k topic m u (v ∷ w ∷ []) s route hu) [
      | inl e ↦ e
      | inr (b1, e1) ↦ elim (consume_round p c cfg ts k topic m v (w ∷ []) s1 route hv) [
        | inl e ↦ ap (λ x. x.0) e1 ∙ e
        | inr (b2, e2) ↦ elim (consume_round p c cfg ts k topic m w [] s2 route hw) [
          | inl e ↦ ap (λ x. x.0) e1 ∙ (ap (λ x. x.0) e2 ∙ e)
          | inr (b3, e3) ↦
              let one : 1 ≤ attempts q u.now s = ground arith in
              let two : 2 ≤ attempts q v.now s1 =
                attempts-count q u.now v.now 1 s one (ground arith) uv in
              let three : 3 ≤ attempts q w.now s2 =
                attempts-count q v.now w.now 2 s1 two (ground arith) vw in
              absurd (ground (arith, three, b3))
        ]
      ]
    ]
